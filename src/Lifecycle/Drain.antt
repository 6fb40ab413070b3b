-- ===== src/Lifecycle/Drain.antt =====
-- The drain loop of packages/api-service/src/index.ts ends.
use backend_architecture.Prelude.{
  if◌then◌else◌, ℕ, zero, suc, ◌+◌, ◌*◌, ◌≤◌, ◌≡◌, inl, inr, ◌&&◌, some, arith, Bool-cases, ltb,
}
use backend_architecture.Prelude.Int.{ℤ, is_positive}
use backend_architecture.Lifecycle.{idle, forced, drain}

-- Each round of the loop waits 250 ms, so the clock is at least that much later at each test.
abbrev pub Ticks : (ℕ → ℤ × ℕ) → Type 0
Ticks look = (i : ℕ) → (look i).1 + 250 ≤ (look (i + 1)).1

-- If the clock moves on by 250 ms or more at each round, and the deadline is at most `250 * fuel` ms
-- after the first test, then `fuel + 1` tests are enough, however many requests stay open: the loop
-- ends, idle only if the last look saw no request.
pub drain_total :
    (look : ℕ → ℤ × ℕ) (deadline fuel i : ℕ)
    → Ticks look
    → deadline ≤ (look i).1 + 250 * fuel
    → (j : ℕ) × (drain look deadline (suc fuel) i
        ≡ some (if is_positive (look j).0 then forced else idle))
unfolding drain
drain_total look deadline zero i ticks late = (i, ground arith)
drain_total look deadline (suc fuel) i ticks late =
    let later = ticks i in
    elim (Bool-cases (is_positive (look i).0 && ltb (look i).1 deadline)) [
      | inl on ↦
          let (j, e) = drain_total look deadline fuel (i + 1) ticks (omega arith) in (j, rw on e)
      | inr off ↦ (i, rw off)
    ]
