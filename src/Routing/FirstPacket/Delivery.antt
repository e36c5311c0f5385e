-- ===== src/Routing/FirstPacket/Delivery.antt =====
-- What reaches the downstream callback, and in which order.
use rag_agent.Prelude.{
  ℕ, zero, suc, String, ◌≡◌, refl, ap, ◌∙◌, true, false, Option, none, some, List, [], ◌∷◌, ◌++◌,
  append_assoc, append-nil, length, take, drop, arith,
}
use rag_agent.Routing.FirstPacket.{
  ProbeResult, success, error, no_content, StreamEvent, content, thinking, complete, failed, Bridge,
  new_bridge, on_content, on_thinking, on_complete, on_error, begin_commit, replay_one,
}

-- the callback that reports the event
pub deliver : StreamEvent → Bridge → Bridge
deliver (content text) b = on_content text b
deliver (thinking text) b = on_thinking text b
deliver complete b = on_complete b
deliver (failed text) b = on_error text b

pub deliver_all : List StreamEvent → Bridge → Bridge
deliver_all [] b = b
deliver_all (e ∷ es) b = deliver_all es (deliver e b)

-- `while self._buffer`, with the number of rounds left
pub replay_rounds : ℕ → Bridge → Bridge
replay_rounds zero b = b
replay_rounds (suc n) b = replay_rounds n (replay_one b)

-- `commit` with no callback between its rounds
pub commit : Bridge → Bridge
commit b = let b' = begin_commit b in replay_rounds (length b'.buffer) b'

-- The events that are passed on: all but a completion or an error that comes first of all.
abbrev pub passed_on : List StreamEvent → List StreamEvent
passed_on [] = []
passed_on (complete ∷ es) = es
passed_on (failed _ ∷ es) = es
passed_on (e ∷ es) = e ∷ es

deliver-buffered :
    (e : StreamEvent) (b : Bridge) (r : ProbeResult)
    → b.result ≡ some r
    → b.committed ≡ false
    → deliver e b ≡ record b { buffer = b.buffer ++ e ∷ [] }
unfolding deliver on_content on_thinking on_complete on_error
deliver-buffered (content text) b r h k = ground arith
deliver-buffered (thinking text) b r h k = ground arith
deliver-buffered complete b r h k = ground arith
deliver-buffered (failed text) b r h k = ground arith

deliver-passed :
    (e : StreamEvent) (b : Bridge) (r : ProbeResult)
    → b.result ≡ some r
    → b.committed ≡ true
    → deliver e b ≡ record b { downstream = b.downstream ++ e ∷ [] }
unfolding deliver on_content on_thinking on_complete on_error
deliver-passed (content text) b r h k = ground arith
deliver-passed (thinking text) b r h k = ground arith
deliver-passed complete b r h k = ground arith
deliver-passed (failed text) b r h k = ground arith

-- With a result, an uncommitted bridge buffers every event.
buffered :
    (es : List StreamEvent) (b : Bridge) (r : ProbeResult)
    → b.result ≡ some r
    → b.committed ≡ false
    → deliver_all es b ≡ record b { buffer = b.buffer ++ es }
unfolding deliver_all
buffered [] b r h k = ground (arith, append-nil b.buffer)
buffered (e ∷ es) b r h k =
    ap (deliver_all es) (deliver-buffered e b r h k)
    ∙ buffered es (record b { buffer = b.buffer ++ e ∷ [] }) r h k
    ∙ ap (λ xs. record b { buffer = xs }) (append_assoc b.buffer (e ∷ []) es)

-- A committed bridge with a result passes every event on.
passed :
    (es : List StreamEvent) (b : Bridge) (r : ProbeResult)
    → b.result ≡ some r
    → b.committed ≡ true
    → deliver_all es b ≡ record b { downstream = b.downstream ++ es }
unfolding deliver_all
passed [] b r h k = ground (arith, append-nil b.downstream)
passed (e ∷ es) b r h k =
    ap (deliver_all es) (deliver-passed e b r h k)
    ∙ passed es (record b { downstream = b.downstream ++ e ∷ [] }) r h k
    ∙ ap (λ xs. record b { downstream = xs }) (append_assoc b.downstream (e ∷ []) es)

replayed :
    (xs : List StreamEvent) (b : Bridge)
    → replay_rounds (length xs) (record b { buffer = xs })
      ≡ record b { buffer = []; downstream = b.downstream ++ xs }
unfolding replay_rounds replay_one
replayed [] b = ground (arith, append-nil b.downstream)
replayed (x ∷ xs) b =
    replayed xs (record b { downstream = b.downstream ++ x ∷ [] })
    ∙ ap (λ ys. record b { buffer = []; downstream = ys }) (append_assoc b.downstream (x ∷ []) xs)

-- The first round and those that follow it, of a bridge that holds `xs`.
commit_lem :
    (xs : List StreamEvent) (b : Bridge)
    → commit (record b { buffer = xs })
      ≡ record b { buffer = []; committed = true; downstream = b.downstream ++ xs }
unfolding commit begin_commit
commit_lem [] b = unfold replay_rounds in ground (arith, append-nil b.downstream)
commit_lem (x ∷ xs) b =
    replayed xs (record b { committed = true; downstream = b.downstream ++ x ∷ [] })
    ∙ ap (λ ys. record b { buffer = []; committed = true; downstream = ys })
        (append_assoc b.downstream (x ∷ []) xs)

-- some rounds only
replayed_some :
    (k : ℕ) (xs : List StreamEvent) (b : Bridge)
    → replay_rounds k (record b { buffer = xs })
      ≡ record b { buffer = drop k xs; downstream = b.downstream ++ take k xs }
unfolding replay_rounds replay_one
replayed_some zero xs b = ground (arith, append-nil b.downstream)
replayed_some (suc k) [] b = replayed_some k [] b ∙ nothing k b
  where
    nothing :
        (n : ℕ) (c : Bridge)
        → ◌≡◌ {A = Bridge}
            (record c { buffer = drop n []; downstream = c.downstream ++ take n [] })
            (record c { buffer = []; downstream = c.downstream ++ [] })
    nothing zero c = refl
    nothing (suc n) c = refl
replayed_some (suc k) (x ∷ xs) b =
    replayed_some k xs (record b { downstream = b.downstream ++ x ∷ [] })
    ∙ ap (λ ys. record b { buffer = drop k xs; downstream = ys })
        (append_assoc b.downstream (x ∷ []) (take k xs))

-- the first event: it settles the result, and is kept if it is content
opened :
    (e : StreamEvent) (es : List StreamEvent)
    → (r : ProbeResult) × (x : Option String) × (deliver_all (e ∷ es) new_bridge ≡ record {
      result = some r;
      error_text = x;
      buffer = passed_on (e ∷ es);
      committed = false;
      downstream = [];
    })
unfolding deliver_all deliver on_content on_thinking on_complete on_error
opened (content text) es = (success, none, buffered es _ success refl refl)
opened (thinking text) es = (success, none, buffered es _ success refl refl)
opened complete es = (no_content, none, buffered es _ no_content refl refl)
opened (failed text) es = (error, some text, buffered es _ error refl refl)

-- Whatever the provider's stream reports before the commit, nothing of it reaches the downstream
-- callback. If the commit is not interrupted by a callback, the downstream callback has then
-- exactly the events before the commit, in the order of their arrival (a completion or an error
-- that came first of all is left out), and after that every later event, in order.
pub commit_in_order :
    (e : StreamEvent) (before after : List StreamEvent)
    → ((deliver_all (e ∷ before) new_bridge).downstream ≡ [])
      × ((commit (deliver_all (e ∷ before) new_bridge)).buffer ≡ [])
      × ((deliver_all after (commit (deliver_all (e ∷ before) new_bridge))).downstream
          ≡ passed_on (e ∷ before) ++ after)
unfolding commit
commit_in_order e before after =
    let (r, x, held) = opened e before in
    let done : Bridge = record {
      result = some r;
      error_text = x;
      buffer = [];
      committed = true;
      downstream = passed_on (e ∷ before);
    } in
    let all : commit (deliver_all (e ∷ before) new_bridge) ≡ done =
      ap commit held
      ∙ commit_lem (passed_on (e ∷ before)) (record done { committed = false; downstream = [] }) in
    (
      ap (λ b. b.downstream) held,
      ap (λ b. b.buffer) all,
      ap (λ b. (deliver_all after b).downstream) all
          ∙ ap (λ b. b.downstream) (passed after done r refl refl),
    )

-- `commit` after which `during` is reported while the first action and `k` further ones have started,
-- and which then replays the rest of its buffer
pub commit_during : ℕ → List StreamEvent → Bridge → Bridge
commit_during k during b =
    let b' = deliver_all during (replay_rounds k (begin_commit b)) in
    replay_rounds (length b'.buffer) b'

-- Whatever the provider's stream reports first, with `x` the first event that is passed on: what it
-- reports while `commit` awaits the action of `x`, or the `k`th one behind it, overtakes the events that
-- are still in the buffer. The downstream callback has the first `k + 1` events, then those that came
-- during the commit, and only then the rest of the earlier ones.
pub commit_overtaken :
    (k : ℕ) (e : StreamEvent) (before during : List StreamEvent) (x : StreamEvent)
    (xs : List StreamEvent)
    → passed_on (e ∷ before) ≡ x ∷ xs
    → (commit_during k during (deliver_all (e ∷ before) new_bridge)).downstream
      ≡ x ∷ (take k xs ++ (during ++ drop k xs))
unfolding commit_during begin_commit replay_one
commit_overtaken k e before during x xs q =
    let (r, error_text, held) = opened e before in
    let full : Bridge = record {
      result = some r;
      error_text = error_text;
      buffer = x ∷ xs;
      committed = false;
      downstream = [];
    } in
    let begun : Bridge = record full { buffer = xs; committed = true; downstream = x ∷ [] } in
    let part : Bridge = record begun { buffer = drop k xs; downstream = x ∷ take k xs } in
    let here : deliver_all (e ∷ before) new_bridge ≡ full =
      held ∙ ap (λ ys. record full { buffer = ys }) q in
    let there : deliver_all during (replay_rounds k begun)
        ≡ record part { downstream = (x ∷ take k xs) ++ during } =
      ap (deliver_all during) (replayed_some k xs begun) ∙ passed during part r refl refl in
    ap (λ b. (commit_during k during b).downstream) here
    ∙ ap (λ b. (replay_rounds (length b.buffer) b).downstream) there
    ∙ ap (λ b. b.downstream)
        (replayed (drop k xs) (record part { downstream = (x ∷ take k xs) ++ during }))
    ∙ append_assoc (x ∷ take k xs) during (drop k xs)
