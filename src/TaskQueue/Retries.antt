-- ===== src/TaskQueue/Retries.antt =====
-- How often a task is tried, and how long it waits between.
use rag_agent.Prelude.{
  ℕ, zero, suc, ◌+◌, ◌^◌, ◌≤◌, ◌<◌, min, String, ◌≡◌, ap, ◌∙◌, List, [], ◌∷◌, length, arith, ltb,
  if◌then◌else◌,
}
use rag_agent.TaskQueue.Rows.{AsyncTask, pending, failed, claim_row, fail_row, retry_delay}

power_bounds : (k : ℕ) → k < 9 → 0 < k → (2 ≤ 2 ^ k) × (2 ^ k ≤ 256)
power_bounds zero h p = absurd (omega arith)
power_bounds (suc zero) h p = (omega arith, omega arith)
power_bounds (suc (suc zero)) h p = (omega arith, omega arith)
power_bounds (suc (suc (suc zero))) h p = (omega arith, omega arith)
power_bounds (suc (suc (suc (suc zero)))) h p = (omega arith, omega arith)
power_bounds (suc (suc (suc (suc (suc zero))))) h p = (omega arith, omega arith)
power_bounds (suc (suc (suc (suc (suc (suc zero)))))) h p = (omega arith, omega arith)
power_bounds (suc (suc (suc (suc (suc (suc (suc zero))))))) h p = (omega arith, omega arith)
power_bounds (suc (suc (suc (suc (suc (suc (suc (suc zero)))))))) h p = (omega arith, omega arith)
power_bounds (suc (suc (suc (suc (suc (suc (suc (suc (suc k))))))))) h p = absurd (omega arith)

-- A retry waits two seconds at least and 256 seconds at most, however often the task has failed: the
-- cap of 300 seconds is never reached.
retry_delay_bounds :
    (count : ℕ) → 0 < count → (2000 ≤ retry_delay count) × (retry_delay count ≤ 256000)
retry_delay_bounds count h =
    let p = power_bounds (min count 8) (omega arith) (omega arith) in
    (omega (arith, p.0), omega (arith, p.1))

module _ {P : Type 0} where
  -- A task that is claimed and fails at each of the times.
  pub attempts : String → String → ℕ → List ℕ → AsyncTask P → AsyncTask P
  attempts o error lease [] t = t
  attempts o error lease (now ∷ times) t =
      attempts o error lease times (fail_row now error (claim_row now lease o t))

  -- A pending task with retries left that fails at each of the times, in any intervals: it is pending
  -- while it has not failed more often than it has retries, and failed after one failure more.
  attempts-status :
      (o error : String) (lease : ℕ) (times : List ℕ) (t : AsyncTask P)
      → t.status ≡ pending
      → t.retry_count + length times ≤ t.max_retries + 1
      → t.retry_count ≤ t.max_retries
      → (attempts o error lease times t).status
        ≡ (if ltb t.max_retries (t.retry_count + length times) then failed else pending)
  unfolding attempts
  attempts-status o error lease [] t p h k = ground arith
  attempts-status o error lease (now ∷ []) t p h k = ground arith
  attempts-status o error lease (now ∷ later ∷ times) t p h k =
      let s = fail_row now error (claim_row now lease o t) in
      attempts-status o error lease (later ∷ times) s (ground arith) (omega (arith, h))
        (omega (arith, h))
      ∙ ap (λ n. if ltb t.max_retries n then failed else pending) (omega arith)
