-- ===== src/Outbox/Backoff.antt =====
-- packages/outbox-publisher/src/index.ts: how long a failed event waits.
use native.Mathlib.Nat.{pow-le-pow_right}
use backend_architecture.Prelude.{ℕ, ◌^◌, ◌≤◌, ◌<◌, min, arith}
use backend_architecture.Outbox.{backoff_seconds}

-- The wait is between 1 and 60 seconds, and a later attempt never waits less than an earlier one.
pub backoff_seconds-le :
    (m n : ℕ)
    → m ≤ n
    → (1 ≤ backoff_seconds m) × (backoff_seconds m ≤ backoff_seconds n) × (backoff_seconds n ≤ 60)
unfolding backoff_seconds
backoff_seconds-le m n h =
    let two : 0 < 2 = omega arith in
    let grows : 2 ^ min m 6 ≤ 2 ^ min n 6 = pow-le-pow_right two (omega arith) in
    (omega arith, omega arith, omega arith)
