-- ===== src/Routing/Fallback/Streams/Resolved.antt =====
-- A streamed call gives every half-open probe back, also when it is cancelled, unless that happens
-- while it closes a stream.
use rag_agent.Prelude.{
  ℕ, String, eq_iff, ◌≡◌, ◌≢◌, refl, sym, subst, ◌∙◌, Option, none, some, List, [], ◌∷◌, arith,
}
use rag_agent.Dict
use rag_agent.Routing.Health.{
  HealthStore, CallPermit, allow_call, mark_success, mark_failure, release_half_open_permit,
}
use rag_agent.Routing.Health.Laws.{allow_call-permit}
use rag_agent.Routing.Health.Calls.{apply, allow, release, entry_of-apply}
use rag_agent.Routing.Model.{ModelTarget}
use rag_agent.Routing.FirstPacket.{ProbeResult, success}
use rag_agent.Routing.Fallback.{
  Outcome, returned, raised, cancelled, World, target_id, acquire, report_success, report_failure,
}
use rag_agent.Routing.Fallback.Permits.{
  token_of, NoNewProbe, NoNewProbe-trans, refused-NoNewProbe, succeeded-NoNewProbe,
  failed-NoNewProbe,
}
use rag_agent.Routing.Fallback.Streams.{
  Attempt, Streamed, give_back, cancel_quietly, probed, started, permitted, try_stream_candidate,
  after_attempt, stream_chat, chosen, next_target, interrupted,
}

-- Returning the permit that was just granted.
released-NoNewProbe :
    (now : ℕ) (m : String) (s : HealthStore) (p : CallPermit)
    → (allow_call now m s).0 ≡ some p
    → NoNewProbe s (release_half_open_permit p (allow_call now m s).1).1
unfolding apply
released-NoNewProbe now m s p e = λ j q. ground (
  arith,
  entry_of-apply (allow now m) s j,
  entry_of-apply (release p) (allow_call now m s).1 j,
  allow_call-permit now m s,
  eq_iff m j,
)

module _ {C H E : Type 0} (start : C → ModelTarget → World → Outcome (Option H) E × World)
    (first_packet : H → ModelTarget → World → Outcome ProbeResult E × World)
    (cancel : H → World → Outcome (Unit {0}) E × World)
    (start_quiet : (c : C) (t : ModelTarget) (w : World) → (start c t w).1.health ≡ w.health)
    (packet_quiet : (h : H) (t : ModelTarget) (w : World)
      → (first_packet h t w).1.health ≡ w.health)
    (cancel_quiet : (h : H) (w : World) → (cancel h w).1.health ≡ w.health)
    (closes : (h : H) (w : World) → (cancel h w).0 ≢ cancelled) where
  module _ (t : ModelTarget) (p : CallPermit) (now : ℕ) (s : HealthStore)
      (granted : (allow_call now (target_id t) s).0 ≡ some p) where
    abbrev After : World → Type 0
    After w = w.health ≡ (allow_call now (target_id t) s).1

    kept : (w : World) → After w → NoNewProbe s (give_back p w).health
    kept w e =
        subst (λ a. NoNewProbe s (release_half_open_permit p a).1) (sym e)
          (released-NoNewProbe now (target_id t) s p granted)

    failed : (w : World) → After w → NoNewProbe s (report_failure t w).health
    failed w e =
        subst (λ a. NoNewProbe s (mark_failure w.now (target_id t) a)) (sym e)
          (failed-NoNewProbe now w.now (target_id t) s)

    succeeded : (w : World) → After w → NoNewProbe s (report_success t w).health
    succeeded w e =
        subst (λ a. NoNewProbe s (mark_success (target_id t) a)) (sym e)
          (succeeded-NoNewProbe now (target_id t) s)

    closed-NoNewProbe :
        (k : World → Attempt H × World)
        → ((v : World) → After v → NoNewProbe s (k v).1.health)
        → (o : Outcome (Unit {0}) E) (v : World) → o ≢ cancelled
        → After v
        → NoNewProbe s (cancel_quietly k (o, v)).1.health
    unfolding cancel_quietly
    closed-NoNewProbe k next (returned x) v n e = next v e
    closed-NoNewProbe k next (raised x) v n e = next v e
    closed-NoNewProbe k next cancelled v n e = absurd (n refl)

    probed-NoNewProbe :
        (h : H) (o : Outcome ProbeResult E) (w : World)
        → After w
        → NoNewProbe s (probed start first_packet cancel p t h o w).1.health
    unfolding probed
    probed-NoNewProbe h cancelled w e =
        closed-NoNewProbe (λ v. (interrupted, give_back p v)) kept (cancel h w).0 (cancel h w).1
          (closes h w) (cancel_quiet h w ∙ e)
    probed-NoNewProbe h (raised x) w e = failed w e
    probed-NoNewProbe h (returned success) w e = succeeded w e
    probed-NoNewProbe h (returned _) w e =
        closed-NoNewProbe (λ v. (next_target, report_failure t v)) failed (cancel h w).0
          (cancel h w).1 (closes h w) (cancel_quiet h w ∙ e)

    started-NoNewProbe :
        (o : Outcome (Option H) E) (w : World)
        → After w
        → NoNewProbe s (started start first_packet cancel p t o w).1.health
    unfolding started
    started-NoNewProbe cancelled w e = kept w e
    started-NoNewProbe (raised x) w e = failed w e
    started-NoNewProbe (returned none) w e = failed w e
    started-NoNewProbe (returned (some h)) w e =
        probed-NoNewProbe h (first_packet h t w).0 (first_packet h t w).1 (packet_quiet h t w ∙ e)

  permitted-NoNewProbe :
      (c : C) (t : ModelTarget) (permit : Option CallPermit) (now : ℕ) (s : HealthStore) (w : World)
      → (allow_call now (target_id t) s).0 ≡ permit
      → w.health ≡ (allow_call now (target_id t) s).1
      → NoNewProbe s (permitted start first_packet cancel c t permit w).1.health
  unfolding permitted
  permitted-NoNewProbe c t none now s w refused e =
      subst (NoNewProbe s) (sym e) (refused-NoNewProbe now (target_id t) s refused)
  permitted-NoNewProbe c t (some p) now s w granted e =
      started-NoNewProbe t p now s granted (start c t w).0 (start c t w).1 (start_quiet c t w ∙ e)

  try-NoNewProbe :
      (found : Option C) (t : ModelTarget) (w : World)
      → NoNewProbe w.health (try_stream_candidate start first_packet cancel found t w).1.health
  unfolding try_stream_candidate
  try-NoNewProbe none t w = λ j h. refl
  try-NoNewProbe (some c) t w =
      permitted-NoNewProbe c t (acquire t w).0 w.now w.health (acquire t w).1 refl refl

  after-NoNewProbe :
      (s : HealthStore) (k : World → Streamed H × World)
      → ((w : World) → NoNewProbe w.health (k w).1.health)
      → (a : Attempt H) (w : World) → NoNewProbe s w.health
      → NoNewProbe s (after_attempt start first_packet cancel k a w).1.health
  unfolding after_attempt
  after-NoNewProbe s k next (chosen h) w e = e
  after-NoNewProbe s k next next_target w e = NoNewProbe-trans s w.health _ e (next w)
  after-NoNewProbe s k next interrupted w e = e

  stream-NoNewProbe :
      (clients : List (String × C)) (ts : List ModelTarget) (w : World)
      → NoNewProbe w.health (stream_chat start first_packet cancel clients ts w).1.health
  unfolding stream_chat
  stream-NoNewProbe clients [] w = λ j h. refl
  stream-NoNewProbe clients (t ∷ ts) w =
      let r =
        try_stream_candidate start first_packet cancel (Dict.get t.candidate.provider clients) t
          w in
      after-NoNewProbe w.health (stream_chat start first_packet cancel clients ts)
        (stream-NoNewProbe clients ts) r.0 r.1
        (try-NoNewProbe (Dict.get t.candidate.provider clients) t w)

-- While no other task uses the health store, and unless a cancellation comes while a stream is being
-- closed, a streamed call leaves no half-open probe out that was not out before: whether a stream is
-- chosen, all candidates fail, or it is cancelled while a stream starts or its first packet is awaited.
pub stream_chat-NoNewProbe :
    {C H E : Type 0} (start : C → ModelTarget → World → Outcome (Option H) E × World)
    (first_packet : H → ModelTarget → World → Outcome ProbeResult E × World)
    (cancel : H → World → Outcome (Unit {0}) E × World) (clients : List (String × C))
    (ts : List ModelTarget) (w : World) (m : String)
    → ((c : C) (t : ModelTarget) (v : World) → (start c t v).1.health ≡ v.health)
    → ((h : H) (t : ModelTarget) (v : World) → (first_packet h t v).1.health ≡ v.health)
    → ((h : H) (v : World) → (cancel h v).1.health ≡ v.health)
    → ((h : H) (v : World) → (cancel h v).0 ≢ cancelled)
    → token_of (stream_chat start first_packet cancel clients ts w).1.health m ≢ 0
    → token_of (stream_chat start first_packet cancel clients ts w).1.health m ≡ token_of w.health m
stream_chat-NoNewProbe start first_packet cancel clients ts w m q1 q2 q3 q4 h =
    stream-NoNewProbe start first_packet cancel q1 q2 q3 q4 clients ts w m h
