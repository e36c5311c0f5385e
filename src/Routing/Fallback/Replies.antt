-- ===== src/Routing/Fallback/Replies.antt =====
-- Which target answers: the executor against a list of the clients' replies.
use rag_agent.Prelude.{
  ℕ, String, eq_iff, ◌≡◌, ◌≢◌, refl, Option, none, some, List, [], ◌∷◌, arith, All, inl, inr,
  Option-cases,
}
use rag_agent.Dict
use rag_agent.Routing.Health.{HealthStore, closed, entry_of, allow_call, mark_failure}
use rag_agent.Routing.Health.Laws.{allow_call-permit}
use rag_agent.Routing.Health.Calls.{apply, allow, failure, entry_of-apply}
use rag_agent.Routing.Model.{ModelTarget}
use rag_agent.Routing.Fallback.{
  Outcome, returned, raised, cancelled, Executed, value, all_failed, interrupted, World, target_id,
  acquire, report_failure, settle, call_permitted, try_target, execute_from, execute_with_fallback,
}

-- The end of a run over replies: the first that is no exception, or the last exception.
pub first_reply : {T E : Type 0} → String → Option E → List (Outcome T E) → Executed T E
first_reply label last [] = all_failed label last
first_reply label last (returned v ∷ rs) = value v
first_reply label last (raised e ∷ rs) = first_reply label (some e) rs
first_reply label last (cancelled ∷ rs) = interrupted

abbrev pub with_reply :
    {C T E : Type 0}
    → (C → ModelTarget → Outcome T E)
    → ModelTarget
    → Option C
    → List (Outcome T E)
    → List (Outcome T E)
with_reply reply t none rest = rest
with_reply reply t (some c) rest = reply c t ∷ rest

-- The replies of the targets that have a client.
pub replies :
    {C T E : Type 0}
    → List (String × C)
    → (C → ModelTarget → Outcome T E)
    → List ModelTarget
    → List (Outcome T E)
replies clients reply [] = []
replies clients reply (t ∷ ts) =
    with_reply reply t (Dict.get t.candidate.provider clients) (replies clients reply ts)

-- Every circuit of the targets is closed.
abbrev pub AllClosed : HealthStore → List ModelTarget → Type 0
AllClosed s = All (λ t. (entry_of s (target_id t)).state ≡ closed)

abbrev pub NotIn : String → List ModelTarget → Type 0
NotIn m = All (λ t. m ≢ target_id t)

abbrev pub DistinctIds : List ModelTarget → Type 0
DistinctIds [] = Unit
DistinctIds (t ∷ ts) = NotIn (target_id t) ts × DistinctIds ts

-- A call of one model and its failure do not touch the others.
AllClosed-failed :
    (now later : ℕ) (m : String) (s : HealthStore) (ts : List ModelTarget)
    → NotIn m ts
    → AllClosed s ts
    → AllClosed (mark_failure later m (allow_call now m s).1) ts
unfolding apply
AllClosed-failed now later m s [] d h = tt
AllClosed-failed now later m s (t ∷ ts) d h = (
  ground (
    arith,
    d.0,
    h.0,
    eq_iff m (target_id t),
    entry_of-apply (allow now m) s (target_id t),
    entry_of-apply (failure later m) (allow_call now m s).1 (target_id t),
  ),
  AllClosed-failed now later m s ts d.1 h.1,
)

closed-permit :
    (now : ℕ) (m : String) (s : HealthStore)
    → (entry_of s m).state ≡ closed
    → (allow_call now m s).0 ≡ some (record { model_id = m; token = 0 })
closed-permit now m s h = ground (arith, allow_call-permit now m s)

module _ {C T E : Type 0} (clients : List (String × C)) (reply : C → ModelTarget → Outcome T E)
    (label : String) where
  abbrev caller : C → ModelTarget → World → Outcome T E × World
  caller c t w = (reply c t, w)

  answered :
      (o : Outcome T E) (t : ModelTarget) (ts : List ModelTarget) (last : Option E) (w : World)
      → ((e : Option E)
          → (execute_from clients caller label ts e (report_failure t w)).0
            ≡ first_reply label e (replies clients reply ts))
      → (settle t (execute_from clients caller label ts) o w).0
        ≡ first_reply label last (o ∷ replies clients reply ts)
  unfolding settle first_reply
  answered (returned v) t ts last w go_on = refl
  answered (raised e) t ts last w go_on = go_on (some e)
  answered cancelled t ts last w go_on = refl

  execute_from-replies :
      (ts : List ModelTarget) (last : Option E) (w : World)
      → AllClosed w.health ts
      → DistinctIds ts
      → (execute_from clients caller label ts last w).0
        ≡ first_reply label last (replies clients reply ts)
  unfolding execute_from try_target call_permitted settle first_reply replies
  execute_from-replies [] last w h d = refl
  execute_from-replies (t ∷ ts) last w h d =
      elim (Option-cases (Dict.get t.candidate.provider clients)) [
        | inl p ↦ rw p (execute_from-replies ts last w h.1 d.1)
        | inr (c, p) ↦ rw p (
            rw (closed-permit w.now (target_id t) w.health h.0) (
              answered (reply c t) t ts last (acquire t w).1 (λ e.
                execute_from-replies ts e _
                  (AllClosed-failed w.now w.now (target_id t) w.health ts d.0 h.1) d.1)))
      ]

-- Where the circuits of all targets are closed, no two targets are one model, and the clients
-- touch no circuit: the executor ends as the first target does whose client does not raise
-- (targets without a client are passed over), or with the last exception if all raise.
pub execute-first_reply :
    {C T E : Type 0} (clients : List (String × C)) (reply : C → ModelTarget → Outcome T E)
    (label : String) (t : ModelTarget) (ts : List ModelTarget) (w : World)
    → AllClosed w.health (t ∷ ts)
    → DistinctIds (t ∷ ts)
    → (execute_with_fallback clients (λ c u v. (reply c u, v)) label (t ∷ ts) w).0
      ≡ first_reply label none (replies clients reply (t ∷ ts))
unfolding execute_with_fallback
execute-first_reply clients reply label t ts w h d =
    execute_from-replies clients reply label (t ∷ ts) none w h d
