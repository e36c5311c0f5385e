-- ===== src/Routing/Health/Probe.antt =====
-- At most one probe of a half-open circuit, and what a late release does.
use rag_agent.Prelude.{
  ℕ, ◌≤◌, String, str_eq, eq_iff, eq_refl, ◌≡◌, ◌≢◌, ◌↔◌, Bool, true, false, ◌&&◌, none, some, List,
  [], ◌∷◌, arith, All, ◌==◌,
}
use rag_agent.Routing.Health.{
  half_open, HealthStore, CallPermit, entry_of, allow_call, is_unavailable,
  release_half_open_permit, is_probe,
}
use rag_agent.Routing.Health.Laws.{entry_of-set_same, allow_call-permit}
use rag_agent.Routing.Health.Calls.{
  Call, check, allow, success, failure, release, observe, apply, run, target, entry_after,
  entry_of-apply, token_seq-apply,
}
use rag_agent.Routing.Health.Invariant.{seq_after-le}

-- The call reports the probe's outcome, or gives the probe back.
unfoldable pub resolves : CallPermit → Call → Bool
resolves p (success m) = str_eq m p.model_id
resolves p (failure _ m) = str_eq m p.model_id
resolves p (release q) = str_eq q.model_id p.model_id && (q.token == p.token)
resolves p _ = false

-- The model of the permit waits for its probe.
record IsHeld (p : CallPermit) (s : HealthStore) : Type 0 where
  state : (entry_of s p.model_id).state ≡ half_open
  token : (entry_of s p.model_id).half_open_token ≡ p.token

apply-IsHeld :
    (p : CallPermit) (c : Call) (s : HealthStore)
    → p.token ≢ 0
    → resolves p c ≡ false
    → IsHeld p s
    → IsHeld p (apply c s)
unfolding resolves
apply-IsHeld p (release q) s probe un h =
    ground (arith, entry_of-apply (release q) s p.model_id, eq_iff q.model_id p.model_id)
apply-IsHeld p (check now m) s probe un h =
    ground (arith, entry_of-apply (check now m) s p.model_id)
apply-IsHeld p (allow now m) s probe un h =
    ground (arith, entry_of-apply (allow now m) s p.model_id)
apply-IsHeld p (success m) s probe un h = ground (arith, entry_of-apply (success m) s p.model_id)
apply-IsHeld p (failure now m) s probe un h =
    ground (arith, entry_of-apply (failure now m) s p.model_id)
apply-IsHeld p (observe m) s probe un h = ground (arith, entry_of-apply (observe m) s p.model_id)

run-IsHeld :
    (p : CallPermit) (cs : List Call) (s : HealthStore)
    → p.token ≢ 0
    → All (λ c. resolves p c ≡ false) cs
    → IsHeld p s
    → IsHeld p (run cs s)
unfolding run
run-IsHeld p [] s probe un h = h
run-IsHeld p (c ∷ cs) s probe un h =
    run-IsHeld p cs (apply c s) probe un.1 (apply-IsHeld p c s probe un.0 h)

granted-IsHeld :
    (now : ℕ) (m : String) (s : HealthStore) {p : CallPermit}
    → (allow_call now m s).0 ≡ some p
    → is_probe p ≡ true
    → IsHeld p (allow_call now m s).1
unfolding apply
granted-IsHeld now m s {p} e probe =
    let here : entry_of (allow_call now m s).1 m ≡ entry_after s (allow now m) (entry_of s m) =
      simp (entry_of-apply (allow now m) s m, eq_refl) in
    ground (arith, here, allow_call-permit now m s)

-- After a probe of a model was granted, whatever calls are made on any model at any time, none of
-- which reports the outcome of a call of that model or returns that permit: the model is refused.
pub probe_exclusive :
    (now : ℕ) (m : String) (s : HealthStore) {p : CallPermit} (cs : List Call) (later : ℕ)
    → (allow_call now m s).0 ≡ some p
    → is_probe p ≡ true
    → All (λ c. resolves p c ≡ false) cs
    → (allow_call later m (run cs (allow_call now m s).1)).0 ≡ none
probe_exclusive now m s cs later e probe un =
    let h = run-IsHeld _ cs _ (ground arith) un (granted-IsHeld now m s e probe) in
    ground (
      arith,
      allow_call-permit now m s,
      allow_call-permit later m (run cs (allow_call now m s).1),
      h.state,
      h.token,
    )

-- `is_unavailable` says yes exactly when `allow_call` at the same time would refuse.
is_unavailable_iff :
    (now : ℕ) (m : String) (s : HealthStore)
    → ((is_unavailable now m s).0 ≡ true) ↔ ((allow_call now m s).0 ≡ none)
unfolding is_unavailable
is_unavailable_iff now m s = ground (arith, allow_call-permit now m s)

token_seq-run : (cs : List Call) (s : HealthStore) → s.token_seq ≤ (run cs s).token_seq
unfolding run
token_seq-run [] s = omega arith
token_seq-run (c ∷ cs) s = omega (
  arith,
  token_seq-run cs (apply c s),
  token_seq-apply c s,
  seq_after-le s c (entry_of s (target c)),
)

-- A release with another token than the entry's does nothing that shows.
release_stale :
    (p : CallPermit) (s : HealthStore)
    → (entry_of s p.model_id).half_open_token ≢ p.token
    → ((release_half_open_permit p s).0 ≡ false)
      × ((j : String) → entry_of (release_half_open_permit p s).1 j ≡ entry_of s j)
unfolding release_half_open_permit
release_stale p s h = (ground arith, λ j. ground (arith, entry_of-set_same p.model_id s j))

token-le-seq :
    (now : ℕ) (m : String) (s : HealthStore) {p : CallPermit}
    → (allow_call now m s).0 ≡ some p
    → (p.model_id ≡ m) × (p.token ≤ (allow_call now m s).1.token_seq)
unfolding apply
token-le-seq now m s e = ground (arith, allow_call-permit now m s, token_seq-apply (allow now m) s)

-- A permit that is returned after a newer probe of the same model was granted, whatever was called
-- in between: the release answers false, and the newer probe and every other entry stay as they are.
late_release :
    (now : ℕ) (m : String) (s : HealthStore) {p q : CallPermit} (cs : List Call) (later : ℕ)
    → (allow_call now m s).0 ≡ some p
    → (allow_call later m (run cs (allow_call now m s).1)).0 ≡ some q
    → is_probe q ≡ true
    → ((release_half_open_permit p (allow_call later m (run cs (allow_call now m s).1)).1).0
        ≡ false)
      × ((j : String)
          → entry_of
              (release_half_open_permit p (allow_call later m (run cs (allow_call now m s).1)).1).1
              j
            ≡ entry_of (allow_call later m (run cs (allow_call now m s).1)).1 j)
late_release now m s {p} {q} cs later e e' probe =
    let s' = run cs (allow_call now m s).1 in
    let (here, issued) = token-le-seq now m s e in
    let held = granted-IsHeld later m s' e' probe in
    release_stale p (allow_call later m s').1 (
      ground
        (arith, token_seq-run cs (allow_call now m s).1, allow_call-permit later m s', held.token))
