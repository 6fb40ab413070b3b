-- ===== src/Worker/Connection/Stuck.antt =====
-- packages/worker-service/src/index.ts: a channel on which a queue cannot be set up.
use backend_architecture.Prelude.{
  ℕ, suc, ◌≡◌, ap, ◌∙◌, true, false, none, Exception, ok, err, ◌>>=◌, arith,
}
use backend_architecture.Worker.Connection.{
  Link, LinkWorld, RabbitContext, update_link, open_channel, call_each, topology, start_consumer,
  reconnect, reconnect_loop, next_delay, ended, create_channel, is_consuming,
}
use backend_architecture.Worker.Connection.Turns.{
  setup_rabbit-closed, reconnect_loop-err, reconnect_loop-open,
}

module _ {E : Type 0} (ctx : RabbitContext E) where
  abbrev pub with_connection : LinkWorld E → LinkWorld E
  with_connection w = update_link (λ link. record link { has_connection = true }) w

  abbrev pub with_channel : LinkWorld E → LinkWorld E
  with_channel w = update_link (λ link. record link { has_channel = true }) w

  -- The world in which the queues are set up, and the world after that.
  abbrev pub before_topology : LinkWorld E → LinkWorld E
  before_topology w = with_channel (ctx.call create_channel (with_connection (ctx.connect w).1)).1

  abbrev pub after_topology : LinkWorld E → LinkWorld E
  after_topology w = (call_each ctx (topology ctx.config) (before_topology w)).1

  -- The attempt gets its channel, and then one of the calls that set up the queues throws.
  abbrev pub FailsSetup : LinkWorld E → Type 0
  FailsSetup w =
      ((ctx.connect w).0 ≡ ok tt)
      × ((ctx.call create_channel (with_connection (ctx.connect w).1)).0 ≡ ok tt)
      × ((e : Exception) × ((call_each ctx (topology ctx.config) (before_topology w)).0 ≡ err e))

  reconnect-FailsSetup :
      (w : LinkWorld E)
      → w.link.has_channel ≡ false
      → FailsSetup w
      → (e : Exception) × (reconnect ctx w ≡ (err e, after_topology w))
  unfolding reconnect
  reconnect-FailsSetup w closed (connected, created, (e, failed)) =
      let opened : open_channel ctx w ≡ (err e, after_topology w) = ground arith in
      (
        e,
        ap (λ p. ((λ _. p) >>= λ _. start_consumer ctx) w)
            (setup_rabbit-closed ctx w closed ∙ opened),
      )

  silent : (link : Link) → link.consumer_tag ≡ none → is_consuming ctx link ≡ false
  silent link idle = ground arith

  -- An attempt without a consumer gets its channel and then fails to set up the queues, and the channel
  -- stays in the module's variable over the delay: the loop ends, although nothing consumes the queue.
  pub reconnect_loop-FailsSetup :
      (w : LinkWorld E) (delay_ms fuel : ℕ)
      → w.link.shutting_down ≡ false
      → w.link.has_channel ≡ false
      → w.link.consumer_tag ≡ none
      → FailsSetup w
      → (ctx.delay delay_ms (after_topology w)).link
        ≡ record w.link { has_channel = true; has_connection = true }
      → (reconnect_loop ctx (suc (suc fuel)) delay_ms w
          ≡ (ended, ctx.delay delay_ms (after_topology w)))
        × (is_consuming ctx (ctx.delay delay_ms (after_topology w)).link ≡ false)
  reconnect_loop-FailsSetup w delay_ms fuel on closed idle fails kept =
      let (e, failed) = reconnect-FailsSetup w closed fails in
      let turn = reconnect_loop-err ctx (suc fuel) delay_ms w e on closed (ap (λ p. p.0) failed) in
      let same =
        ap (λ p. reconnect_loop ctx (suc fuel) (next_delay delay_ms) (ctx.delay delay_ms p.1))
          failed in
      let stays = ap (λ l. l.has_channel) kept in
      let unheard = ap (λ l. l.consumer_tag) kept ∙ idle in
      (
        turn
            ∙ (same
                ∙ reconnect_loop-open ctx fuel (next_delay delay_ms)
                    (ctx.delay delay_ms (after_topology w)) stays),
        silent (ctx.delay delay_ms (after_topology w)).link unheard,
      )
