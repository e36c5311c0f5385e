-- ===== src/Stream/Sender/Channel/Refinement.antt =====
-- The sender is a channel that is closed once: what the reader gets is what was accepted, in order.
use rag_agent.Prelude.{
  ℕ, zero, suc, String, ◌≡◌, refl, sym, ap, ◌∙◌, Bool, true, false, Option, none, some, List, [],
  ◌∷◌, ◌++◌, append_assoc, append-nil, length, Bool-cases, inl, inr,
}
use rag_agent.Stream.Sender.{
  SseEventType, meta, message, finish, cancel, reject, guidance, done_event, is_done, Payload, text,
  Item, frame, end_mark, encode_sse, get, complete, fail, done, send,
}
use rag_agent.Stream.Sender.Channel.{
  Act, sends, dones, completes, fails, reads, Channel, Run, spec, spec_all, frames, read, act, run,
  start, no_events,
}

-- the queue's items for the frames that wait
abbrev items : List String → List Item → List Item
items [] rest = rest
items (f ∷ fs) rest = frame f ∷ items fs rest

items-append :
    (fs : List String) (rest more : List Item) → items fs rest ++ more ≡ items fs (rest ++ more)
items-append [] rest more = refl
items-append (f ∷ fs) rest more = ap (◌∷◌ (frame f)) (items-append fs rest more)

items-snoc :
    (fs : List String) (f : String) (rest : List Item)
    → items fs (frame f ∷ rest) ≡ items (fs ++ f ∷ []) rest
items-snoc [] f rest = refl
items-snoc (g ∷ fs) f rest = ap (◌∷◌ (frame g)) (items-snoc fs f rest)

frames-append :
    {X : Type 0} (dump : Payload X → String) (log : List (SseEventType × Payload X))
    (e : SseEventType) (p : Payload X)
    → frames dump (log ++ (e, p) ∷ []) ≡ frames dump log ++ encode_sse dump e p ∷ []
frames-append dump [] e p = refl
frames-append dump ((e', p') ∷ log) e p =
    ap (◌∷◌ (encode_sse dump e' p')) (frames-append dump log e p)

is_done_eq : (e : SseEventType) → is_done e ≡ true → e ≡ done_event
is_done_eq done_event q = refl
is_done_eq meta q = absurd (cc)
is_done_eq message q = absurd (cc)
is_done_eq finish q = absurd (cc)
is_done_eq cancel q = absurd (cc)
is_done_eq reject q = absurd (cc)
is_done_eq guidance q = absurd (cc)

-- the frame of a done event does not show its payload
done_frame :
    {X : Type 0} (dump : Payload X → String) (e : SseEventType) (p : Payload X)
    → is_done e ≡ true
    → encode_sse dump e p ≡ encode_sse dump done_event (text "[DONE]")
unfolding encode_sse
done_frame dump e p q = rw (is_done_eq e q) refl

module _ {X E : Type 0} (dump : Payload X → String) where
  abbrev state : List Item → Bool → Option E → List String → Bool → Run E
  state queue closed error got ended = record {
    sender = record { queue = queue; closed = closed; error = error };
    got = got;
    ended = ended;
  }

  -- The run shows a channel: what was read and what waits are the frames of the accepted events, the
  -- sender is closed exactly if the channel is, and a reader that has ended has read them all.
  pub data Refines (r : Run E) (c : Channel X) : Type 0 where
    is_open :
        (ws got : List String) (x : Option E) (log : List (SseEventType × Payload X))
        → r ≡ state (items ws []) false x got false
        → c ≡ record { log = log; shut = false }
        → frames dump log ≡ got ++ ws
        → Refines r c
    is_closed :
        (ws got : List String) (x : Option E) (log : List (SseEventType × Payload X))
        → r ≡ state (items ws (end_mark ∷ [])) true x got false
        → c ≡ record { log = log; shut = true }
        → frames dump log ≡ got ++ ws
        → Refines r c
    is_ended :
        (got : List String) (x : Option E) (log : List (SseEventType × Payload X))
        → r ≡ state [] true x got true
        → c ≡ record { log = log; shut = true }
        → frames dump log ≡ got
        → Refines r c

  open-read :
      (ws got : List String) (x : Option E) (log : List (SseEventType × Payload X))
      → frames dump log ≡ got ++ ws
      → Refines
          (read dump (state (items ws []) false x got false))
          (record { log = log; shut = false })
  unfolding read get
  open-read [] got x log h = is_open [] got x log refl refl h
  open-read (w ∷ ws) got x log h =
      is_open ws (got ++ w ∷ []) x log refl refl (h ∙ sym (append_assoc got (w ∷ []) ws))

  closed-read :
      (ws got : List String) (x : Option E) (log : List (SseEventType × Payload X))
      → frames dump log ≡ got ++ ws
      → Refines
          (read dump (state (items ws (end_mark ∷ [])) true x got false))
          (record { log = log; shut = true })
  unfolding read get
  closed-read [] got x log h = is_ended got x log refl refl (h ∙ append-nil got)
  closed-read (w ∷ ws) got x log h =
      is_closed ws (got ++ w ∷ []) x log refl refl (h ∙ sym (append_assoc got (w ∷ []) ws))

  module _ (ws got : List String) (x : Option E) (log : List (SseEventType × Payload X))
      (h : frames dump log ≡ got ++ ws) where
    -- a frame more
    more :
        (e : SseEventType) (p : Payload X)
        → frames dump (log ++ (e, p) ∷ []) ≡ got ++ (ws ++ encode_sse dump e p ∷ [])
    more e p =
        frames-append dump log e p
        ∙ ap (λ fs. fs ++ encode_sse dump e p ∷ []) h
        ∙ append_assoc got ws _

    open-put :
        (e : SseEventType) (p : Payload X)
        → Refines
            (state (items ws [] ++ frame (encode_sse dump e p) ∷ []) false x got false)
            (record { log = log ++ (e, p) ∷ []; shut = false })
    open-put e p =
        is_open (ws ++ encode_sse dump e p ∷ []) got x (log ++ (e, p) ∷ [])
          (ap (λ y. state y false x got false) (items-append ws [] _ ∙ items-snoc ws _ [])) refl
          (more e p)

    open-done :
        (e : SseEventType) (p : Payload X)
        → is_done e ≡ true
        → Refines
            (state
              (items ws [] ++ frame (encode_sse dump done_event (text "[DONE]")) ∷ end_mark ∷ [])
              true
              x
              got
              false)
            (record { log = log ++ (e, p) ∷ []; shut = true })
    open-done e p q =
        is_closed (ws ++ encode_sse dump done_event (text "[DONE]") ∷ []) got x (log ++ (e, p) ∷ [])
          (ap (λ y. state y true x got false)
            (items-append ws [] _ ∙ items-snoc ws _ (end_mark ∷ [])))
          refl (more e p ∙ ap (λ y. got ++ (ws ++ y ∷ [])) (done_frame dump e p q))

    open-act :
        (a : Act X E)
        → Refines
            (act dump a (state (items ws []) false x got false))
            (spec a (record { log = log; shut = false }))
    unfolding act spec send done complete fail
    open-act (sends e p) = elim (Bool-cases (is_done e)) [
      | inl q ↦ rw (q, send) (open-done e p q)
      | inr q ↦ rw (q, send) (open-put e p)
    ]
    open-act dones = open-done done_event (text "[DONE]") refl
    open-act completes =
        is_closed ws got x log (ap (λ y. state y true x got false) (items-append ws [] _)) refl h
    open-act (fails y) =
        is_closed ws got (some y) log
          (ap (λ z. state z true (some y) got false) (items-append ws [] _)) refl h
    open-act reads = open-read ws got x log h

  -- A closed sender takes nothing.
  closed-act :
      (a : Act X E) (queue : List Item) (x : Option E) (got : List String) (ended : Bool)
      (log : List (SseEventType × Payload X))
      → Refines (state queue true x got ended) (record { log = log; shut = true })
      → Refines (read dump (state queue true x got ended)) (record { log = log; shut = true })
      → Refines
          (act dump a (state queue true x got ended))
          (spec a (record { log = log; shut = true }))
  unfolding act spec send done complete fail
  closed-act (sends e p) queue x got ended log h k = elim (Bool-cases (is_done e)) [
    | inl q ↦ rw (q, send) h
    | inr q ↦ rw (q, send) h
  ]
  closed-act dones queue x got ended log h k = h
  closed-act completes queue x got ended log h k = h
  closed-act (fails y) queue x got ended log h k = h
  closed-act reads queue x got ended log h k = k

  act-Refines :
      (a : Act X E) (r : Run E) (c : Channel X) → Refines r c → Refines (act dump a r) (spec a c)
  act-Refines a r c (is_open ws got x log er ec h) = rw (er, ec) (open-act ws got x log h a)
  act-Refines a r c (is_closed ws got x log er ec h) =
      rw (er, ec)
        (closed-act a _ x got false log (is_closed ws got x log refl refl h)
          (closed-read ws got x log h))
  act-Refines a r c (is_ended got x log er ec h) =
      rw (er, ec)
        (closed-act a [] x got true log (is_ended got x log refl refl h)
          (unfold read in is_ended got x log refl refl h))

  run_all-Refines :
      (acts : List (Act X E)) (r : Run E) (c : Channel X)
      → Refines r c
      → Refines (run dump acts r) (spec_all acts c)
  unfolding run spec_all
  run_all-Refines [] r c h = h
  run_all-Refines (a ∷ acts) r c h =
      run_all-Refines acts (act dump a r) (spec a c) (act-Refines a r c h)

  unfoldable pub reading : ℕ → Run E → Run E
  reading zero r = r
  reading (suc n) r = reading n (read dump r)

  drain-closed :
      (ws got : List String) (x : Option E) (log : List (SseEventType × Payload X))
      → frames dump log ≡ got ++ ws
      → reading
          (length (items ws (end_mark ∷ [])))
          (state (items ws (end_mark ∷ [])) true x got false)
        ≡ state [] true x (frames dump log) true
  unfolding reading read get
  drain-closed [] got x log h = ap (λ y. state [] true x y true) (sym (h ∙ append-nil got))
  drain-closed (w ∷ ws) got x log h =
      drain-closed ws (got ++ w ∷ []) x log (h ∙ sym (append_assoc got (w ∷ []) ws))

  -- after the channel is closed, the reader gets what is left
  drain-Refines :
      (r : Run E) (c : Channel X)
      → Refines r c
      → c.shut ≡ true
      → let n = length r.sender.queue in
        ((reading n r).got ≡ frames dump c.log) × ((reading n r).ended ≡ true)
  drain-Refines r c (is_open ws got x log er ec h) q =
      absurd (cc (ap (λ (y : Channel X). y.shut) ec, q))
  drain-Refines r c (is_closed ws got x log er ec h) q =
      rw (er, ec)
        (
          ap (λ (y : Run E). y.got) (drain-closed ws got x log h),
          ap (λ (y : Run E). y.ended) (drain-closed ws got x log h),
        )
  drain-Refines r c (is_ended got x log er ec h) q = rw (er, ec) (unfold reading in (sym h, refl))

module _ {X E : Type 0} (dump : Payload X → String) (acts : List (Act X E)) where
  -- From a new sender, whatever writers and reader do in whatever order, the run shows the channel
  -- that the same steps make: what the reader has got and what waits are, in order, the frames of the
  -- accepted events, the sender is closed exactly if the channel is, and a reader that has ended has
  -- got all.
  pub run-Refines : Refines dump (run dump acts start) (spec_all acts no_events)
  run-Refines = run_all-Refines dump acts start no_events (is_open [] [] none [] refl refl refl)

  -- Once a step has closed the channel, by a done event, a completion or a failure, the reader that goes
  -- on for as many rounds as there are items gets exactly the frames of the accepted events, and ends.
  run-drain :
      (spec_all acts no_events).shut ≡ true
      → let r = run dump acts start in
        let n = length r.sender.queue in
        ((reading dump n r).got ≡ frames dump (spec_all acts no_events).log)
        × ((reading dump n r).ended ≡ true)
  run-drain = drain-Refines dump _ _ run-Refines
