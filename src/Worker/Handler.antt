-- ===== src/Worker/Handler.antt =====
-- packages/worker-service/src/index.ts: `processEvent`, `handleMessage` and `requeueOrDeadLetter`.
-- The worker's state stands in the world, since what it awaits may close its channel meanwhile.
use backend_architecture.Prelude.{
  ℕ, ◌&&◌, ◌+◌, ◌-◌, Bool, false, Option, none, some, List, ◌∷◌, ◌++◌, Text, codes, Exception,
  Result, ok, err, Action, pure, throw, ◌>>=◌, try_catch, modify, ltb, leb, ◌==◌, if◌then◌else◌,
}
use backend_architecture.Prelude.Int.{ℤ, inc, dec}
use backend_architecture.Prelude.Decimal.{Number, nan, whole, negative, decimal}
use backend_architecture.Services.Postgres.{Pool}
use backend_architecture.Worker.{
  WorkerConfig, OrderCreatedEvent, PartialEvent, HeaderValue, number, string, Message, header,
  set_header, retry_queue, dead_letter_queue, parse_event, Processed, insert_event, mark_processed,
  delete_event,
}

-- What the module keeps and what it has told the broker and the metrics.
pub record WorkerState : Type 0 where
  pub has_channel : Bool
  pub in_flight : ℤ
  pub acked : List Message
  -- `sendToQueue(queue, …)`, the latest first
  pub sent : List (Text × Message)
  pub consumed : ℕ
  pub processed : ℕ
  pub failed : ℕ
  pub dead_lettered : ℕ

pub record World (E : Type 0) : Type 0 where
  pub worker : WorkerState
  pub rest : E

pub data Outcome : Type 0 where
  processed duplicate : Outcome

-- What the worker is given: the pool, the notification work, the clock and `Number(text)`.
pub record WorkerContext (E : Type 0) : Type 1 where
  pub config : WorkerConfig
  pub pool : Pool (World E) Processed
  pub simulate_notification_work : OrderCreatedEvent → Action (World E) (Unit {0})
  pub now_ms : World E → ℕ
  pub json_parse : Text → Option PartialEvent
  pub number_of_text : Text → Number

abbrev pub update_worker : {E : Type 0} → (WorkerState → WorkerState) → World E → World E
update_worker f w = record w { worker = f w.worker }

module _ {E : Type 0} (ctx : WorkerContext E) where
  unfoldable pub process_event : OrderCreatedEvent → Action (World E) Outcome
  process_event event =
      ctx.pool.query (insert_event event.event_id event.event_type) >>= λ row_count.
      if row_count == 0
      then pure duplicate
      else try_catch
          (ctx.simulate_notification_work event >>= λ _.
            ctx.pool.query (mark_processed event.event_id) >>= λ _. pure processed)
          (λ error. ctx.pool.query (delete_event event.event_id) >>= λ _. throw error)

  -- The race with the timer. The run is not stopped when the timer wins; the model puts all that it
  -- does before what the handler does next.
  unfoldable pub with_processing_timeout : {A : Type 0} → Action (World E) A → Action (World E) A
  with_processing_timeout m w =
      let (r, w') = m w in
      (
        if ltb (ctx.now_ms w' - ctx.now_ms w) ctx.config.processing_timeout_ms
            then r
            else err (record {
              code = none;
              message =
                  codes "Message processing exceeded "
                  ++ (decimal ctx.config.processing_timeout_ms ++ codes " ms");
            }),
        w',
      )

  -- `Number(value ?? 0)`
  abbrev number_of : Option HeaderValue → Number
  number_of none = whole 0
  number_of (some (number n)) = n
  number_of (some (string t)) = ctx.number_of_text t

  unfoldable pub retry_count : Message → Number
  retry_count message = number_of (header (codes "x-retry-count") message.headers)

  -- `retryCount + 1`
  abbrev add_one : Number → Number
  add_one nan = nan
  add_one (whole n) = whole (n + 1)
  add_one (negative n) = if n == 0 then whole 1 else if n == 1 then whole 0 else negative (n - 1)

  -- `retryCount >= config.maxRetries`, false for NaN
  abbrev exhausted : Number → Bool
  exhausted nan = false
  exhausted (whole n) = leb ctx.config.max_retries n
  exhausted (negative n) = leb ctx.config.max_retries 0 && (n == 0)

  unfoldable pub next_message : Message → Exception → Message
  next_message message error = record message {
    headers = set_header (codes "x-last-error") (string error.message) (
        set_header (codes "x-retry-count") (number (add_one (retry_count message)))
          message.headers);
  }

  unfoldable pub requeue_or_dead_letter : Message → Exception → WorkerState → WorkerState
  requeue_or_dead_letter message error s =
      if s.has_channel
      then (if exhausted (retry_count message)
          then record s {
            sent = (dead_letter_queue ctx.config, next_message message error) ∷ s.sent;
            acked = message ∷ s.acked;
            dead_lettered = s.dead_lettered + 1;
          }
          else record s {
            sent = (retry_queue ctx.config, next_message message error) ∷ s.sent;
            acked = message ∷ s.acked;
          })
      else s

  abbrev no_channel : Exception
  no_channel = record { code = none; message = codes "Cannot read properties of null" }

  -- `channel.ack(message)`, which throws if the channel was closed meanwhile
  abbrev acknowledge : Message → Action (World E) (Unit {0})
  acknowledge message w =
      if w.worker.has_channel
      then (ok tt, update_worker (λ s. record s { acked = message ∷ s.acked }) w)
      else (err no_channel, w)

  abbrev of_result : {A : Type 0} → Result A → Action (World E) A
  of_result r w = (r, w)

  -- The `try` block of `handleMessage`.
  unfoldable pub consume : Message → Action (World E) (Unit {0})
  consume message = of_result (parse_event ctx.json_parse message) >>= λ event.
      modify (update_worker (λ s. record s { consumed = s.consumed + 1 })) >>= λ _.
      with_processing_timeout (process_event event) >>= λ result.
      modify (update_worker (λ s. record s { processed = s.processed + 1 })) >>= λ _.
      acknowledge message

  unfoldable pub fail_message : Message → Exception → World E → World E
  fail_message message error =
      update_worker (λ s. requeue_or_dead_letter message error (record s { failed = s.failed + 1 }))

  -- `null` messages and a missing channel are passed over.
  unfoldable pub handle_message : Option Message → World E → World E
  handle_message none w = w
  handle_message (some message) w =
      if w.worker.has_channel
      then (let (r, w') =
            consume message (update_worker (λ s. record s { in_flight = inc s.in_flight }) w) in
          let w'' : World E = elim r [ ok _ ↦ w' | err error ↦ fail_message message error w' ] in
          update_worker (λ s. record s { in_flight = dec s.in_flight }) w'')
      else w
