-- ===== src/RateLimit/Semaphore/Capacity.antt =====
-- The semaphore never hands out more permits than it has, and loses none.
use rag_agent.Prelude.{
  ℕ, ◌+◌, ◌≤◌, ◌<◌, String, ◌≡◌, ◌≢◌, refl, ap, sym, subst, eq_refl, str_eq-cases, true, false,
  none, some, List, [], ◌∷◌, length, arith, leb, ltb, if◌then◌else◌, Bool-cases, Option-cases, inl,
  inr,
}
use rag_agent.Dict.{get, get-remove}
use rag_agent.Dict.Size.{
  DistinctKeys, length-put_new, put-DistinctKeys, remove-DistinctKeys, length-remove_held,
}
use rag_agent.RateLimit.Semaphore.{
  Semaphore, answer, counter_of, live, expired_count, reclaim, try_set_permits, take_permit,
  try_acquire, available_permits, try_release,
}

-- Free and held permits are `n` together, and no permit is held twice.
pub record IsValid (n : ℕ) (s : Semaphore) : Type 0 where
  pub created : s.counter ≢ none
  pub conserved : counter_of s + length s.permits ≡ n
  pub distinct : DistinctKeys s.permits

pub length-live :
    (now : ℕ) (ps : List (String × ℕ)) → length (live now ps) + expired_count now ps ≡ length ps
unfolding live expired_count
length-live now [] = omega arith
length-live now ((id, ends) ∷ ps) = ground (arith, length-live now ps)

pub get-live-none :
    (now : ℕ) (ps : List (String × ℕ)) (k : String) → get k ps ≡ none → get k (live now ps) ≡ none
unfolding live get
get-live-none now [] k h = refl
get-live-none now ((id, ends) ∷ ps) k h = ground (arith, get-live-none now ps k)

live-DistinctKeys :
    (now : ℕ) (ps : List (String × ℕ)) → DistinctKeys ps → DistinctKeys (live now ps)
unfolding live
live-DistinctKeys now [] h = tt
live-DistinctKeys now ((id, ends) ∷ ps) h = elim (Bool-cases (leb ends now)) [
  | inl e ↦ rw e (live-DistinctKeys now ps h.1)
  | inr e ↦ rw e (get-live-none now ps id h.0, live-DistinctKeys now ps h.1)
]

-- with nothing expired, all are live
live-all : (now : ℕ) (ps : List (String × ℕ)) → expired_count now ps ≡ 0 → live now ps ≡ ps
unfolding live expired_count
live-all now [] h = refl
live-all now ((id, ends) ∷ ps) h = ground (arith, live-all now ps)

module _ {n : ℕ} (now : ℕ) (s : Semaphore) (v : IsValid n s) where
  pub permits-reclaim : (reclaim now s).permits ≡ live now s.permits
  unfolding reclaim
  permits-reclaim = ground (arith, live-all now s.permits)

  pub counter-reclaim : counter_of (reclaim now s) + length (live now s.permits) ≡ n
  unfolding reclaim counter_of
  counter-reclaim = ground (arith, length-live now s.permits, v.conserved)

  pub reclaim-IsValid : IsValid n (reclaim now s)
  reclaim-IsValid = record {
    created = unfold reclaim in ground (arith, v.created);
    conserved = simp permits-reclaim counter-reclaim;
    distinct = rw permits-reclaim (live-DistinctKeys now s.permits v.distinct);
  }

pub take_permit-IsValid :
    {n : ℕ} (ends : ℕ) (id : String) (s : Semaphore)
    → IsValid n s
    → get id s.permits ≡ none
    → IsValid n (take_permit ends id s).1
unfolding take_permit
take_permit-IsValid ends id s v new = elim (Bool-cases (leb (counter_of s) 0)) [
  | inl e ↦ rw e v
  | inr e ↦ rw e (record {
    created = λ q. cc;
    conserved = ground (arith, v.conserved, length-put_new id ends s.permits new);
    distinct = put-DistinctKeys id ends s.permits v.distinct;
  })
]

pub try_release-IsValid :
    {n : ℕ} (id : String) (s : Semaphore) → IsValid n s → IsValid n (try_release id s).1
unfolding try_release
try_release-IsValid id s v = elim (Option-cases (get id s.permits)) [
  | inl e ↦ rw (e, try_release) v
  | inr (ends, e) ↦
      rw (e, try_release)
        (record {
          created = λ q. cc;
          conserved =
              unfold counter_of in
              omega (arith, v.conserved, length-remove_held id s.permits v.distinct e);
          distinct = remove-DistinctKeys id s.permits v.distinct;
        })
]

-- The operations, at the time at which they run.
pub data Call : Type 0 where
  create : ℕ → Call
  acquire : ℕ → ℕ → String → Call
  count : ℕ → Call
  release : String → Call

unfoldable pub apply : Call → Semaphore → Semaphore
apply (create n) s = (try_set_permits n s).1
apply (acquire now lease id) s = (try_acquire now lease id s).1
apply (count now) s = (available_permits now s).1
apply (release id) s = (try_release id s).1

unfoldable pub run : List Call → Semaphore → Semaphore
run [] s = s
run (c ∷ cs) s = run cs (apply c s)

-- A new identifier is none of a permit that is held.
abbrev pub NewId : Call → Semaphore → Type 0
NewId (acquire now lease id) s = get id s.permits ≡ none
NewId _ s = Unit

unfoldable pub NewIds : List Call → Semaphore → Type 0
NewIds [] s = Unit
NewIds (c ∷ cs) s = NewId c s × NewIds cs (apply c s)

try_acquire-IsValid :
    {n : ℕ} (now lease : ℕ) (id : String) (s : Semaphore)
    → IsValid n s
    → get id s.permits ≡ none
    → IsValid n (try_acquire now lease id s).1
unfolding try_acquire
try_acquire-IsValid now lease id s v new = elim (Bool-cases (leb lease 0)) [
  | inl e ↦ rw (e, try_acquire) v
  | inr e ↦
      rw (e, try_acquire)
        (take_permit-IsValid (now + lease) id (reclaim now s) (reclaim-IsValid now s v)
          (simp (permits-reclaim now s v) (get-live-none now s.permits id new)))
]

create_again : (k : ℕ) (s : Semaphore) → s.counter ≢ none → (try_set_permits k s).1 ≡ s
unfolding try_set_permits
create_again k s h = ground arith

apply-IsValid : {n : ℕ} (c : Call) (s : Semaphore) → IsValid n s → NewId c s → IsValid n (apply c s)
unfolding apply available_permits
apply-IsValid {n} (create k) s v new = subst (IsValid n) (sym (create_again k s v.created)) v
apply-IsValid (acquire now lease id) s v new = try_acquire-IsValid now lease id s v new
apply-IsValid (count now) s v new = reclaim-IsValid now s v
apply-IsValid (release id) s v new = try_release-IsValid id s v

run-IsValid :
    {n : ℕ} (cs : List Call) (s : Semaphore) → IsValid n s → NewIds cs s → IsValid n (run cs s)
unfolding run NewIds
run-IsValid [] s v new = v
run-IsValid (c ∷ cs) s v new = run-IsValid cs (apply c s) (apply-IsValid c s v new.0) new.1

abbrev pub empty : Semaphore
empty = record { counter = none; permits = [] }

created-IsValid : (n : ℕ) → 0 < n → IsValid n (try_set_permits n empty).1
unfolding try_set_permits counter_of
created-IsValid n h = elim (Bool-cases (leb n 0)) [
  | inl e ↦ absurd (ground arith)
  | inr e ↦
      rw (e, try_set_permits) (record { created = λ q. cc; conserved = omega arith; distinct = tt })
]

-- A semaphore that was created with `n` permits, after any calls of any processes at any times, if
-- each new permit's identifier is none that is then held: the free permits and the held ones are
-- `n` together, so there are never more than `n` holders and no permit is lost.
pub run_conserved :
    (n : ℕ) (cs : List Call)
    → 0 < n
    → NewIds cs (try_set_permits n empty).1
    → counter_of (run cs (try_set_permits n empty).1)
        + length (run cs (try_set_permits n empty).1).permits
      ≡ n
run_conserved n cs h new = (run-IsValid cs _ (created-IsValid n h) new).conserved

-- `try_acquire` on a valid semaphore grants the permit exactly if fewer than `n` permits have a
-- lease that lasts: a lease that ended, as of a process that died, blocks nobody.
try_acquire_lem :
    {n : ℕ} (now lease : ℕ) (id : String) (s : Semaphore)
    → IsValid n s
    → 0 < lease
    → (try_acquire now lease id s).0
      ≡ answer (if ltb (length (live now s.permits)) n then some id else none)
unfolding try_acquire take_permit
try_acquire_lem now lease id s v h = ground (arith, counter-reclaim now s v)

get-live_expired :
    (now : ℕ) (ps : List (String × ℕ)) (id : String) {ends : ℕ}
    → DistinctKeys ps
    → get id ps ≡ some ends
    → ends ≤ now
    → get id (live now ps) ≡ none
unfolding get live
get-live_expired now [] id d e h = ground arith
get-live_expired now ((j, x) ∷ ps) id {ends} d e h = elim (str_eq-cases j id) [
  | inl (p, q) ↦ ground (arith, get-live-none now ps id (subst (λ i. get i ps ≡ none) p d.0))
  | inr (p, q) ↦ ground (arith, get-live_expired now ps id {ends = ends} d.1)
]

-- A permit is returned once: a second release of it, and a release after its lease has ended and
-- was reclaimed, answer false and change nothing.
release_once :
    {n : ℕ} (now : ℕ) (id : String) (s : Semaphore) {ends : ℕ}
    → IsValid n s
    → get id s.permits ≡ some ends
    → ends ≤ now
    → ((try_release id s).0 ≡ true)
      × (try_release id (try_release id s).1 ≡ (false, (try_release id s).1))
      × (try_release id (reclaim now s) ≡ (false, reclaim now s))
unfolding try_release
release_once now id s v e h = (
  ground arith,
  ground (arith, get-remove id id s.permits, eq_refl id),
  ground (
    arith,
    ap (get id) (permits-reclaim now s v),
    get-live_expired now s.permits id v.distinct e h,
  ),
)
