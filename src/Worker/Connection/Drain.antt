-- ===== src/Worker/Connection/Drain.antt =====
-- packages/worker-service/src/index.ts: the loop of `shutdown` ends.
use backend_architecture.Prelude.{
  ℕ, zero, suc, ◌+◌, ◌*◌, ◌≤◌, ◌≡◌, inl, inr, ◌&&◌, ltb, arith, Bool-cases,
}
use backend_architecture.Worker.Connection.{LinkWorld, RabbitContext, drain_in_flight, ended}

module _ {E : Type 0} (ctx : RabbitContext E)
    (ticks : (w : LinkWorld E) → ctx.now_ms w + 250 ≤ ctx.now_ms (ctx.delay 250 w)) where
  -- Each turn waits for a quarter of a second. If the deadline is at most `250 * fuel` ms away, then
  -- `fuel + 1` turns are enough, however many messages stay in flight.
  pub drain_in_flight-ended :
      (fuel stop_at : ℕ) (w : LinkWorld E)
      → stop_at ≤ ctx.now_ms w + 250 * fuel
      → (drain_in_flight ctx (suc fuel) stop_at w).0 ≡ ended
  unfolding drain_in_flight
  drain_in_flight-ended zero stop_at w late = ground arith
  drain_in_flight-ended (suc fuel) stop_at w late =
      let tick = ticks w in
      let rest = drain_in_flight-ended fuel stop_at (ctx.delay 250 w) (omega arith) in
      elim (Bool-cases (ltb 0 w.in_flight && ltb (ctx.now_ms w) stop_at)) [
        | inl on ↦ rw on rest
        | inr off ↦ rw off
      ]
