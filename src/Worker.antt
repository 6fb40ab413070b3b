-- ===== src/Worker.antt =====
-- packages/worker-service/src/index.ts: the events, the queues and the table of processed events.
pub mod Handler
pub mod Retries
pub mod Once
pub mod Connection
use backend_architecture.Prelude.{
  ℕ, ◌+◌, ◌≡◌, Bool, true, false, ◌&&◌, Option, none, some, List, [], ◌∷◌, ◌++◌, Text, codes,
  text_eq, leb, if◌then◌else◌, Exception, Result, ok, err,
}
use backend_architecture.Prelude.Int.{ℤ}
use backend_architecture.Prelude.Decimal.{Number, nan, whole, negative}
use backend_architecture.Services.Postgres.{Statement}

pub record WorkerConfig : Type 0 where
  pub queue : Text
  pub processing_timeout_ms : ℕ
  pub max_retries : ℕ

-- `packages/shared/src/index.ts`
pub record OrderCreatedEvent : Type 0 where
  pub event_id : Text
  pub event_type : Text
  pub order_id : Text
  pub occurred_at : Text
  pub correlation_id : Option Text

-- A parsed payload: `none` is a field that is not a string.
pub record PartialEvent : Type 0 where
  pub event_id : Option Text
  pub event_type : Option Text
  pub order_id : Option Text
  pub occurred_at : Option Text
  pub correlation_id : Option Text

pub data HeaderValue : Type 0 where
  number : Number → HeaderValue
  string : Text → HeaderValue

abbrev pub Headers : Type 0
Headers = List (Text × HeaderValue)

-- The part of a message's properties that the worker reads or writes.
pub record Message : Type 0 where
  pub content : Text
  pub headers : Headers
  pub message_id : Option Text

abbrev pub header : Text → Headers → Option HeaderValue
header k [] = none
header k ((j, v) ∷ h) = if text_eq k j then some v else header k h

-- `{ ...headers, [k]: v }`
abbrev pub set_header : Text → HeaderValue → Headers → Headers
set_header k v [] = (k, v) ∷ []
set_header k v ((j, u) ∷ h) = if text_eq k j then (j, v) ∷ h else (j, u) ∷ set_header k v h

unfoldable pub retry_queue : WorkerConfig → Text
retry_queue config = config.queue ++ codes ".retry"

unfoldable pub dead_letter_queue : WorkerConfig → Text
dead_letter_queue config = config.queue ++ codes ".dlq"

abbrev pub invalid_payload : Exception
invalid_payload = record { code = none; message = codes "Invalid order.created event payload" }

abbrev is_order_created : Option Text → Bool
is_order_created none = false
is_order_created (some t) = text_eq t (codes "order.created")

abbrev checked :
    Option Text → Option Text → Option Text → Option Text → Bool → Result OrderCreatedEvent
checked (some event_id) (some order_id) (some occurred_at) correlation_id true = ok (record {
  event_id = event_id;
  event_type = codes "order.created";
  order_id = order_id;
  occurred_at = occurred_at;
  correlation_id = correlation_id;
})
checked _ _ _ correlation_id _ = err invalid_payload

abbrev parsed_event : Option PartialEvent → Result OrderCreatedEvent
parsed_event none = err (record { code = none; message = codes "Unexpected token in JSON" })
parsed_event (some p) =
    checked p.event_id p.order_id p.occurred_at p.correlation_id (is_order_created p.event_type)

-- `json` is `JSON.parse` with the type tests of the fields.
unfoldable pub parse_event : (Text → Option PartialEvent) → Message → Result OrderCreatedEvent
parse_event json message = parsed_event (json message.content)

-- A row of `processed_events`; `expires_at` and `created_at` are never read.
pub record ProcessedEvent : Type 0 where
  pub event_id : Text
  pub event_type : Text
  pub is_processed : Bool

abbrev pub Processed : Type 0
Processed = List ProcessedEvent

abbrev pub has_event : Text → Processed → Bool
has_event id [] = false
has_event id (row ∷ rows) = if text_eq row.event_id id then true else has_event id rows

-- `INSERT … ON CONFLICT (event_id) DO NOTHING RETURNING event_id`, to the row count
unfoldable pub insert_event : Text → Text → Statement Processed ℕ
insert_event id event_type rows =
    if has_event id rows
    then ok (0, rows)
    else ok (1, record { event_id = id; event_type = event_type; is_processed = false } ∷ rows)

-- `UPDATE processed_events SET processed_at = now() WHERE event_id = $1`
abbrev mark : Text → Processed → Processed
mark id [] = []
mark id (row ∷ rows) =
    (if text_eq row.event_id id then record row { is_processed = true } else row) ∷ mark id rows

unfoldable pub mark_processed : Text → Statement Processed (Unit {0})
mark_processed id rows = ok (tt, mark id rows)

-- `DELETE FROM processed_events WHERE event_id = $1`
abbrev remove : Text → Processed → Processed
remove id [] = []
remove id (row ∷ rows) =
    let rest = remove id rows in if text_eq row.event_id id then rest else row ∷ rest

unfoldable pub delete_event : Text → Statement Processed (Unit {0})
delete_event id rows = ok (tt, remove id rows)
