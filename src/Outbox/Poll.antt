-- ===== src/Outbox/Poll.antt =====
-- packages/outbox-publisher/src/index.ts: `publish` and `pollOnce`.
use backend_architecture.Prelude.{
  ℕ, ◌+◌, Bool, Option, none, some, [], ◌∷◌, Text, Exception, Action, pure, ◌>>=◌, try_catch,
  modify,
}
use backend_architecture.Services.Postgres.{Client}
use backend_architecture.Outbox.{
  OutboxRow, Rows, backoff_seconds, select_due, mark_published, mark_failed,
}

-- The message that is published, in the parts that the source sets from the row.
pub record OutboxMessage : Type 0 where
  pub routing_key : Text
  pub content : Text
  pub message_id : Text
  pub correlation_id : Text

-- What the publisher is given. `send` is `publish` on the confirm channel with `waitForConfirms`.
pub record OutboxContext (W : Type 0) : Type 1 where
  pub batch_size : ℕ
  pub connect : Action W (Unit {0})
  pub client : Client W Rows
  pub release : W → W
  pub refresh_unpublished_gauge : Action W (Unit {0})
  pub connect_rabbit : Action W (Unit {0})
  pub send : OutboxMessage → Action W (Unit {0})
  pub count_attempt : Text → W → W
  pub count_failure : Text → W → W
  pub locked : W → Text → Bool
  pub database_now : W → ℕ

-- `row.payload.correlationId ?? row.payload.eventId`
abbrev correlation_of : Option Text → Text → Text
correlation_of none event_id = event_id
correlation_of (some correlation_id) event_id = correlation_id

abbrev pub message_of : OutboxRow → OutboxMessage
message_of row = record {
  routing_key = row.event_type;
  content = row.payload;
  message_id = row.event_id;
  correlation_id = correlation_of row.correlation_id row.event_id;
}

module _ {W : Type 0} (ctx : OutboxContext W) where
  abbrev pub reading : {A : Type 0} → (W → A) → (A → Action W (Unit {0})) → Action W (Unit {0})
  reading f k w = k (f w) w

  unfoldable pub publish : OutboxRow → Action W (Unit {0})
  publish row = ctx.connect_rabbit >>= λ _.
      modify (ctx.count_attempt row.event_type) >>= λ _. ctx.send (message_of row)

  -- The `catch` of a row.
  unfoldable pub note_failure : OutboxRow → Exception → Action W (Unit {0})
  note_failure row error = modify (ctx.count_failure row.event_type) >>= λ _.
      reading ctx.database_now (λ now. ctx.client.execute (
        mark_failed row.id (row.attempts + 1) error.message (backoff_seconds (row.attempts + 1))
          now))

  unfoldable pub poll_row : OutboxRow → Action W (Unit {0})
  poll_row row =
      try_catch (publish row >>= λ _. ctx.client.execute (mark_published row.id)) (note_failure row)

  unfoldable pub poll_rows : Rows → Action W (Unit {0})
  poll_rows [] = pure tt
  poll_rows (row ∷ rows) = poll_row row >>= λ _. poll_rows rows

  -- The outer `try` block.
  unfoldable pub poll_batch : Action W (Unit {0})
  poll_batch = ctx.client.begin >>= λ _.
      reading (λ w. (ctx.locked w, ctx.database_now w))
        (λ (locked, now). ctx.client.execute (select_due locked now ctx.batch_size) >>= λ rows.
          poll_rows rows >>= λ _. ctx.client.commit)

  -- `finally { client.release(); await refreshUnpublishedGauge().catch(…) }`
  abbrev pub finish_poll : Action W (Unit {0}) → Action W (Unit {0})
  finish_poll m w =
      let (r, w') = m w in let w'' = (ctx.refresh_unpublished_gauge (ctx.release w')).1 in (r, w'')

  unfoldable pub poll_once : Action W (Unit {0})
  poll_once = ctx.connect >>= λ _. finish_poll (try_catch poll_batch (λ error. ctx.client.rollback))
