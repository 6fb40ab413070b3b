-- ===== src/Worker/Connection/Turns.antt =====
-- packages/worker-service/src/index.ts: the turns of the loop that reconnects.
use backend_architecture.Prelude.{ℕ, suc, ◌≡◌, true, false, Exception, ok, err, arith}
use backend_architecture.Worker.Connection.{
  LinkWorld, RabbitContext, open_channel, setup_rabbit, reconnect, reconnect_loop, next_delay,
  ended,
}

module _ {E : Type 0} (ctx : RabbitContext E) where
  pub setup_rabbit-closed :
      (w : LinkWorld E) → w.link.has_channel ≡ false → setup_rabbit ctx w ≡ open_channel ctx w
  unfolding setup_rabbit
  setup_rabbit-closed w closed = ground arith

  pub setup_rabbit-open :
      (w : LinkWorld E) → w.link.has_channel ≡ true → setup_rabbit ctx w ≡ (ok tt, w)
  unfolding setup_rabbit
  setup_rabbit-open w channel = ground arith

  pub reconnect_loop-ok :
      (fuel delay_ms : ℕ) (w : LinkWorld E)
      → w.link.shutting_down ≡ false
      → w.link.has_channel ≡ false
      → (reconnect ctx w).0 ≡ ok tt
      → reconnect_loop ctx (suc fuel) delay_ms w ≡ (ended, (reconnect ctx w).1)
  unfolding reconnect_loop
  reconnect_loop-ok fuel delay_ms w on closed done = ground arith

  pub reconnect_loop-err :
      (fuel delay_ms : ℕ) (w : LinkWorld E) (e : Exception)
      → w.link.shutting_down ≡ false
      → w.link.has_channel ≡ false
      → (reconnect ctx w).0 ≡ err e
      → reconnect_loop ctx (suc fuel) delay_ms w
        ≡ reconnect_loop ctx fuel (next_delay delay_ms) (ctx.delay delay_ms (reconnect ctx w).1)
  unfolding reconnect_loop
  reconnect_loop-err fuel delay_ms w e on closed failed = ground arith

  pub reconnect_loop-open :
      (fuel delay_ms : ℕ) (w : LinkWorld E)
      → w.link.has_channel ≡ true
      → reconnect_loop ctx (suc fuel) delay_ms w ≡ (ended, w)
  unfolding reconnect_loop
  reconnect_loop-open fuel delay_ms w is_open = ground arith
