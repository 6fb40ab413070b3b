-- ===== src/Worker/Connection.antt =====
-- packages/worker-service/src/index.ts: `setupRabbit`, `startConsumer`, `reconnectLoop`, the readiness
-- of the service and `shutdown`.
pub mod Turns
pub mod Recovery
pub mod Stuck
pub mod Drain
use backend_architecture.Prelude.{
  ℕ, zero, suc, ◌+◌, ◌-◌, ◌*◌, ◌/◌, ◌%◌, ◌≤◌, ◌<◌, ◌≡◌, ◌≢◌, ◌↔◌, refl, sym, ap, ◌∙◌, ◌⊎◌, inl, inr,
  Bool, true, false, not, ◌&&◌, ◌||◌, Option, none, some, List, [], ◌∷◌, ◌++◌, map, Text, codes,
  text_eq, text_eq_iff, text_eq_refl, to_lower, trim, starts_with, before, leb, ltb, ◌==◌,
  if◌then◌else◌, length, take, take-append, drop-append, length-append, &&-eq-true, drop, get_elem?,
  all, All, join, Exception, Result, ok, err, Action, pure, throw, ◌>>=◌, ◌>>◌, try_catch, modify,
  Pending, await, arith, Bool-cases, Option-cases, Result-cases, after_bind, after_try, Post,
  bind-eq-ok, bind-Post, try-Post, Post-intro, Post-weaken, Post-ok, Post-always, min, max,
}

pub record RabbitConfig : Type 0 where
  pub queue : Text
  pub exchange : Text
  pub retry_delay_ms : ℕ
  pub prefetch : ℕ

-- What the module keeps of its connection: `none` is null.
pub record Link : Type 0 where
  pub has_channel : Bool
  pub has_connection : Bool
  pub consumer_tag : Option Text
  pub shutting_down : Bool

-- The module's variables and all else, the broker included.
pub record LinkWorld (E : Type 0) : Type 0 where
  pub link : Link
  pub in_flight : ℕ
  pub rest : E

-- The arguments of a queue: where messages that expire in it are sent.
pub record DeadLetter : Type 0 where
  pub message_ttl : ℕ
  pub exchange : Text
  pub routing_key : Text

-- The calls of the RabbitMQ client, with what they are given.
pub data Call : Type 0 where
  create_channel : Call
  assert_exchange : Text → Call
  assert_queue : Text → Option DeadLetter → Call
  bind_queue : Text → Text → Text → Call
  prefetch : ℕ → Call

-- The RabbitMQ client, the pool and the timer. While a call is awaited anything may happen to the
-- world, the close of the connection included.
pub record RabbitContext (E : Type 0) : Type 0 where
  pub config : RabbitConfig
  pub connect : Action (LinkWorld E) (Unit {0})
  pub call : Call → Action (LinkWorld E) (Unit {0})
  -- `consume(queue, …)`, to the consumer's tag
  pub consume : Text → Action (LinkWorld E) Text
  pub cancel : Text → Action (LinkWorld E) (Unit {0})
  pub select_one : Action (LinkWorld E) (Unit {0})
  pub delay : ℕ → LinkWorld E → LinkWorld E
  pub now_ms : LinkWorld E → ℕ
  pub close_app : Action (LinkWorld E) (Unit {0})
  pub close_channel : Action (LinkWorld E) (Unit {0})
  pub close_connection : Action (LinkWorld E) (Unit {0})
  pub end_pool : Action (LinkWorld E) (Unit {0})

abbrev pub update_link : {E : Type 0} → (Link → Link) → LinkWorld E → LinkWorld E
update_link f w = record w { link = f w.link }

-- The handler of the connection's `close` event: the variables after it, and whether it starts
-- `reconnectLoop`.
unfoldable pub on_close : Link → Link × Bool
on_close link = (
  record link { has_channel = false; has_connection = false; consumer_tag = none },
  not link.shutting_down,
)

abbrev pub retry_delay : RabbitConfig → DeadLetter
retry_delay config = record {
  message_ttl = config.retry_delay_ms;
  exchange = config.exchange;
  routing_key = codes "order.created";
}

-- The calls on a new channel.
unfoldable pub topology : RabbitConfig → List Call
topology config =
    assert_exchange config.exchange
    ∷ assert_queue config.queue none
    ∷ bind_queue config.queue config.exchange (codes "order.created")
    ∷ assert_queue (config.queue ++ codes ".retry") (some (retry_delay config))
    ∷ assert_queue (config.queue ++ codes ".dlq") none
    ∷ prefetch config.prefetch
    ∷ []

-- `Math.min(delayMs * 2, 30_000)`
abbrev pub next_delay : ℕ → ℕ
next_delay delay_ms = min (delay_ms * 2) 30000

-- How the loop ends: it returns, or it has not within the turns that it was given.
pub data LoopEnd : Type 0 where
  ended out_of_fuel : LoopEnd

module _ {E : Type 0} (ctx : RabbitContext E) where
  abbrev pub call_each : List Call → Action (LinkWorld E) (Unit {0})
  call_each [] = pure tt
  call_each (c ∷ cs) = ctx.call c >>= λ _. call_each cs

  abbrev pub open_channel : Action (LinkWorld E) (Unit {0})
  open_channel = ctx.connect >>= λ _.
      modify (update_link (λ link. record link { has_connection = true })) >>= λ _.
      ctx.call create_channel >>= λ _.
      modify (update_link (λ link. record link { has_channel = true })) >>= λ _.
      call_each (topology ctx.config)

  unfoldable pub setup_rabbit : Action (LinkWorld E) (Unit {0})
  setup_rabbit w = if w.link.has_channel then (ok tt, w) else open_channel w

  unfoldable pub start_consumer : Action (LinkWorld E) (Unit {0})
  start_consumer = setup_rabbit >>= λ _. ctx.consume ctx.config.queue >>= λ tag.
      modify (update_link (λ link. record link { consumer_tag = some tag }))

  -- The `try` block of the loop.
  unfoldable pub reconnect : Action (LinkWorld E) (Unit {0})
  reconnect = setup_rabbit >>= λ _. start_consumer

  -- `reconnectLoop` from a delay, for as many turns as the fuel.
  unfoldable pub reconnect_loop : ℕ → ℕ → LinkWorld E → LoopEnd × LinkWorld E
  reconnect_loop zero delay_ms w = (out_of_fuel, w)
  reconnect_loop (suc fuel) delay_ms w =
      if w.link.shutting_down || w.link.has_channel
      then (ended, w)
      else (let (r, w') = reconnect w in
          elim r [
            | ok _ ↦ (ended, w')
            | err e ↦ reconnect_loop fuel (next_delay delay_ms) (ctx.delay delay_ms w')
          ])

  -- `channel && consumerTag`, where an empty tag counts as none
  abbrev pub is_consuming : Link → Bool
  is_consuming link =
      link.has_channel && elim link.consumer_tag [ none ↦ false | some tag ↦ not (text_eq tag []) ]

  -- GET /health/ready: true for the status 200, false for 503
  unfoldable pub health_ready : LinkWorld E → Bool × LinkWorld E
  health_ready w =
      let (r, w') = ctx.select_one w in
      ((elim r [ ok _ ↦ true | err e ↦ false ]) && is_consuming w'.link, w')

  -- `await … .catch(() => undefined)`
  abbrev ignored : Action (LinkWorld E) (Unit {0}) → LinkWorld E → LinkWorld E
  ignored m w = (m w).1

  abbrev cancel_consumer : Link → LinkWorld E → LinkWorld E
  cancel_consumer link w = elim link.consumer_tag [
    | none ↦ w
    | some tag ↦ if is_consuming link then ignored (ctx.cancel tag) w else w
  ]

  -- The loop of `shutdown`, for as many turns as the fuel.
  unfoldable pub drain_in_flight : ℕ → ℕ → LinkWorld E → LoopEnd × LinkWorld E
  drain_in_flight zero stop_at w = (out_of_fuel, w)
  drain_in_flight (suc fuel) stop_at w =
      let rest = drain_in_flight fuel stop_at (ctx.delay 250 w) in
      if ltb 0 w.in_flight && ltb (ctx.now_ms w) stop_at then rest else (ended, w)

  -- After the loop; a variable that is null by then is passed over.
  abbrev close_all : Action (LinkWorld E) (Unit {0})
  close_all = ctx.close_app >>= λ _.
      modify (λ w. if w.link.has_channel then ignored ctx.close_channel w else w) >>= λ _.
      modify (λ w. if w.link.has_connection then ignored ctx.close_connection w else w) >>= λ _.
      ctx.end_pool

  -- With fuel for the turns of the drain.
  unfoldable pub shutdown : ℕ → LinkWorld E → LoopEnd × (Result (Unit {0}) × LinkWorld E)
  shutdown fuel w =
      let w1 = update_link (λ link. record link { shutting_down = true }) w in
      let w2 = cancel_consumer w1.link w1 in
      let (end, w3) = drain_in_flight fuel (ctx.now_ms w2 + 30000) w2 in (end, close_all w3)
