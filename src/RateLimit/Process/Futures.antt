-- ===== src/RateLimit/Process/Futures.antt =====
-- What each function of the process does to the permits that its futures hold.
use rag_agent.Prelude.{
  ℕ, ◌+◌, String, ◌≡◌, refl, subst, Bool, true, false, not, ◌&&◌, ◌||◌, Option, none, some, List,
  [], ◌∷◌, arith, ltb, leb, if◌then◌else◌, to_count, inl, inr, Bool-cases, Option-cases,
}
use rag_agent.Dict.{get}
use rag_agent.Dict.Size.{DistinctKeys, put-DistinctKeys, remove-DistinctKeys}
use rag_agent.Dict.Total.{total, total-put_new, total-put_held, total-remove_held}
use rag_agent.RateLimit.Process.{
  Future, waiting, cancelled, result, Waiter, Process, Chosen, nothing_pending, expired, chosen,
  is_done, future_of, set_future, create_future, next_waiter, lesser, choose, deliver, is_current,
  end_acquire, close_waiters,
}

waiting_of : (o : Option Future) → is_done o ≡ false → o ≡ some waiting
waiting_of none h = absurd (cc)
waiting_of (some waiting) h = refl
waiting_of (some cancelled) h = absurd (cc)
waiting_of (some (result o)) h = absurd (cc)

abbrev IsLive : Process → Option (String × Waiter) → Type 0
IsLive q none = Unit
IsLive q (some (r, v)) = is_done (future_of v.future q) ≡ false

lesser-IsLive :
    (q : Process) (r : String) (w : Waiter) (o : Option (String × Waiter))
    → is_done (future_of w.future q) ≡ false
    → IsLive q o
    → IsLive q (lesser r w o)
lesser-IsLive q r w none h k = h
lesser-IsLive q r w (some (s, v)) h k = elim (Bool-cases (ltb v.score w.score)) [
  | inl e ↦ rw e k
  | inr e ↦ rw e h
]

next_waiter-IsLive : (ws : List (String × Waiter)) (q : Process) → IsLive q (next_waiter ws q)
unfolding next_waiter
next_waiter-IsLive [] q = tt
next_waiter-IsLive ((s, w) ∷ ws) q = elim (Bool-cases (is_done (future_of w.future q))) [
  | inl e ↦ rw (e, next_waiter) (next_waiter-IsLive ws q)
  | inr e ↦ rw (e, next_waiter) (lesser-IsLive q s w (next_waiter ws q) e (next_waiter-IsLive ws q))
]

abbrev pub AreDistinct : Process → Type 0
AreDistinct q = DistinctKeys q.futures

-- `p` picks out the permits that are counted.
module _ (p : String → Bool) where
  abbrev pub of_option : Option String → ℕ
  of_option none = 0
  of_option (some x) = to_count (p x)

  -- in a future that its caller has not taken
  abbrev pub in_future : Future → ℕ
  in_future waiting = 0
  in_future cancelled = 0
  in_future (result o) = of_option o

  abbrev pub held : Process → ℕ
  held q = total in_future q.futures

  -- a future that is not done takes a result
  pub held-set_future :
      (f : String) (o : Option String) (q : Process)
      → is_done (future_of f q) ≡ false
      → held (set_future f (result o) q) ≡ held q + of_option o
  held-set_future f o q h = omega (
    arith,
    total-put_held in_future f (result o) q.futures {x = waiting} (waiting_of (future_of f q) h),
  )

  -- The futures hold what they held, and what is added.
  abbrev pub Holds : ℕ → Process → Process → Type 0
  Holds n q q' = (held q' ≡ n + held q) × AreDistinct q'

  pub close_waiters-Holds :
      (ws : List (String × Waiter)) (q : Process) → AreDistinct q → Holds 0 q (close_waiters ws q)
  unfolding close_waiters
  close_waiters-Holds [] q d = (omega arith, d)
  close_waiters-Holds ((r, w) ∷ ws) q d = elim (Bool-cases (is_done (future_of w.future q))) [
    | inl h ↦ rw (h, close_waiters) (close_waiters-Holds ws q d)
    | inr h ↦
        let ih =
          close_waiters-Holds ws (set_future w.future (result none) q)
            (put-DistinctKeys w.future (result none) q.futures d) in
        rw (h, close_waiters) (omega (arith, ih.0, held-set_future w.future none q h), ih.1)
  ]

  pub create_future-Holds :
      (f : String) (q : Process)
      → future_of f q ≡ none
      → AreDistinct q
      → Holds 0 q (create_future f q)
  unfolding create_future
  create_future-Holds f q h d = (
    omega (arith, total-put_new in_future f waiting q.futures h),
    put-DistinctKeys f waiting q.futures d,
  )

  -- the permit is in a future, or is released
  abbrev pub Delivers : ℕ → Process → Bool × Process → Type 0
  Delivers n q (true, q') = Holds 0 q q'
  Delivers n q (false, q') = Holds n q q'

  deliver_cases-Delivers :
      (current late : Bool) (w : Waiter) (permit : String) (q : Process)
      → AreDistinct q
      → (over : Bool) → is_done (future_of w.future q) ≡ over
      → Delivers (to_count (p permit)) q (
          if not current || over || late
          then (true, if current && not over then set_future w.future (result none) q else q)
          else (false, set_future w.future (result (some permit)) q))
  deliver_cases-Delivers false late w permit q d over h = (omega arith, d)
  deliver_cases-Delivers true late w permit q d true h = (omega arith, d)
  deliver_cases-Delivers true true w permit q d false h = (
    omega (arith, held-set_future w.future none q h),
    put-DistinctKeys w.future (result none) q.futures d,
  )
  deliver_cases-Delivers true false w permit q d false h = (
    omega (arith, held-set_future w.future (some permit) q h),
    put-DistinctKeys w.future (result (some permit)) q.futures d,
  )

  pub deliver-Delivers :
      (now : ℕ) (r : String) (w : Waiter) (permit : String) (q : Process)
      → AreDistinct q
      → Delivers (to_count (p permit)) q (deliver now r w permit q)
  unfolding deliver
  deliver-Delivers now r w permit q d =
      deliver_cases-Delivers (is_current (get r q.pending) w) (leb w.deadline now) w permit q d
        (is_done (future_of w.future q)) refl

  -- the orphan was in the future, as what is returned was
  pub end_acquire-Holds :
      (r f : String) (granted : Option String) (q : Process) {x : Future}
      → AreDistinct q
      → future_of f q ≡ some x
      → (held (end_acquire r f granted q).1 + in_future x ≡ held q)
        × AreDistinct (end_acquire r f granted q).1
  unfolding end_acquire
  end_acquire-Holds r f granted q {x} d h =
      (total-remove_held in_future f q.futures {x = x} d h, remove-DistinctKeys f q.futures d)

  abbrev pub ChosenHolds : Process → Chosen → Type 0
  ChosenHolds q nothing_pending = Unit
  ChosenHolds q (expired q') = Holds 0 q q'
  ChosenHolds q (chosen r v) = Unit

  choose_cases :
      (now : ℕ) (q : Process) (r : String) (v : Waiter)
      → AreDistinct q
      → is_done (future_of v.future q) ≡ false
      → (late : Bool)
      → ChosenHolds q (if late then expired (set_future v.future (result none) q) else chosen r v)
  choose_cases now q r v d h true = (
    omega (arith, held-set_future v.future none q h),
    put-DistinctKeys v.future (result none) q.futures d,
  )
  choose_cases now q r v d h false = tt

  pub choose-ChosenHolds : (now : ℕ) (q : Process) → AreDistinct q → ChosenHolds q (choose now q)
  unfolding choose
  choose-ChosenHolds now q d = elim (Option-cases (next_waiter q.pending q)) [
    | inl e ↦ rw (e, choose) tt
    | inr (x, e) ↦
        rw (e, choose)
          (choose_cases now q x.0 x.1 d (subst (IsLive q) e (next_waiter-IsLive q.pending q))
            (leb x.1.deadline now))
  ]
