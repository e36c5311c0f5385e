-- ===== src/RateLimit/Claim/Examples.antt =====
-- The limiter's theorems at concrete queues.
use rag_agent.RateLimit.Claim.Interrupted.{
  Await, publishing, cancelled_acquire, grants, interrupted_blocks,
}
use rag_agent.Prelude.{
  String, eq_iff, ◌+◌, ◌≡◌, ◌≢◌, inr, refl, false, none, some, List, [], ◌∷◌, length, arith,
}
use rag_agent.Dict.{get, put, remove}
use rag_agent.RateLimit.Semaphore.{
  Semaphore, counter_of, live, expired_count, reclaim, take_permit, try_release,
}
use rag_agent.RateLimit.Semaphore.Capacity.{IsValid}
use rag_agent.RateLimit.Claim.{
  Limiter, alive, first_live, take_head, claim_head, try_claim, set_entry_key, next_score,
  insert_score, enqueue, cleanup_waiter,
}
use rag_agent.RateLimit.Claim.Fifo.{
  Call, put_key, count_up, add, clean, claim, release, apply, run, NewAdds, new_limiter, claim_fifo,
}
use rag_agent.RateLimit.Claim.Progress.{claims, claims_progress}
use rag_agent.RateLimit.Claim.Permits.{NewPermits, limiter_conserved}

program : Unit {0}
unfolding get put remove counter_of live expired_count reclaim take_permit try_release alive
    first_live take_head claim_head try_claim set_entry_key next_score insert_score enqueue
    cleanup_waiter apply run NewAdds NewPermits
program = tt

abbrev one_free : Semaphore
one_free = record { counter = some 1; permits = [] }

one_free-IsValid : IsValid 1 one_free
unfolding counter_of
one_free-IsValid = record { created = λ e. cc; conserved = refl; distinct = tt }

-- "a" enqueues first, and its entry key expires at 50; "b" waits behind it
abbrev calls : List Call
calls = put_key 0 50 "a" ∷ count_up ∷ add 1 "a" ∷ put_key 10 500 "b" ∷ count_up ∷ add 2 "b" ∷ []

abbrev waiting : Limiter
waiting = record {
  queue = ("a", 1) ∷ ("b", 2) ∷ [];
  entries = ("a", 50) ∷ ("b", 510) ∷ [];
  sequence = 2;
  semaphore = one_free;
}

enqueued : run calls (new_limiter one_free) ≡ waiting
unfolding program
enqueued = refl

waits_its_turn : (try_claim 40 100 "b" waiting).0 ≡ none
unfolding program
waits_its_turn = refl

claim_fifo_example : alive 60 (run calls (new_limiter one_free)).entries "a" ≡ false
unfolding program
claim_fifo_example =
    claim_fifo one_free calls 60 100 "b" "a" {p = "b:permit"} 2 1
      (tt, (tt, (tt, (tt, (tt, (((λ e. omega arith), tt), tt)))))) refl refl refl (omega arith)

claims_progress_example : (claims 1 60 100 "b" waiting).0 ≡ some "b:permit"
unfolding program
claims_progress_example =
    claims_progress 1 60 100 "b" waiting (("a", 1) ∷ []) 2 [] one_free-IsValid (omega arith) refl
      (refl, tt) refl (omega arith)

abbrev more : List Call
more = put_key 0 50 "a" ∷ add 1 "a" ∷ claim 10 100 "a" ∷ clean "a" ∷ release "a:permit" ∷ []

limiter_conserved_example :
    counter_of (run more (new_limiter one_free)).semaphore
      + length (run more (new_limiter one_free)).semaphore.permits
    ≡ 1
unfolding program
limiter_conserved_example =
    limiter_conserved one_free more one_free-IsValid (tt, (tt, (refl, (tt, (tt, tt)))))

-- "a" is cancelled while it publishes; "b" and "c" come behind it and ask
abbrev later : List Call
later =
    put_key 5 50 "b"
    ∷ count_up
    ∷ add 2 "b"
    ∷ claim 10 100 "b"
    ∷ put_key 11 50 "c"
    ∷ count_up
    ∷ add 3 "c"
    ∷ clean "b"
    ∷ claim 49 100 "c"
    ∷ []

a-ne-b : ◌≢◌ {A = String} "a" "b"
a-ne-b e = ground (arith, eq_iff "a" "b")

a-ne-c : ◌≢◌ {A = String} "a" "c"
a-ne-c e = ground (arith, eq_iff "a" "c")

interrupted_blocks_example :
    (grants later (cancelled_acquire publishing 0 50 "a" (new_limiter one_free)) ≡ [])
    × (get "a" (cancelled_acquire Await.waiting 0 50 "a" (new_limiter one_free)).queue ≡ none)
    × (get "a" (cancelled_acquire Await.waiting 0 50 "a" (new_limiter one_free)).entries ≡ none)
interrupted_blocks_example =
    interrupted_blocks publishing 0 50 "a" later (new_limiter one_free) (inr refl) refl (
      a-ne-b,
      (
        tt,
        (
          (a-ne-b, omega arith),
          (
            (a-ne-b, omega arith),
            (a-ne-c, (tt, ((a-ne-c, omega arith), (a-ne-b, ((a-ne-c, omega arith), tt))))),
          ),
        ),
      ),
    )
