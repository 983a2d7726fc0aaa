-- ===== src/Output/Retry.antt =====
-- The window in which a failed call is tried again.
use condora.Base.{ℕ, zero, suc, ◌≡◌, min, ◌≤◌, arith}
use condora.Output.{backoff}

-- Each further failure waits at least as long as the one before, and none longer than eight hours.
pub backoff-grows :
    (attempt_count : ℕ)
    → (backoff attempt_count ≤ backoff (suc attempt_count)) × (backoff attempt_count ≤ 28800)
unfolding backoff
backoff-grows zero = (omega arith, omega arith)
backoff-grows (suc zero) = (omega arith, omega arith)
backoff-grows (suc (suc zero)) = (omega arith, omega arith)
backoff-grows (suc (suc (suc zero))) = (omega arith, omega arith)
backoff-grows (suc (suc (suc (suc zero)))) = (omega arith, omega arith)
backoff-grows (suc (suc (suc (suc (suc n))))) =
    let capped : min (suc (suc (suc (suc (suc n))))) 5 ≡ 5 = omega arith in
    let capped' : min (suc (suc (suc (suc (suc (suc n)))))) 5 ≡ 5 = omega arith in
    rw (capped, capped') (omega arith, omega arith)
