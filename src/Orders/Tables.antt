-- ===== src/Orders/Tables.antt =====
-- packages/api-service/src/routes/orders.routes.ts: the rows, and the statements as functions on the
-- tables, read off their SQL text. The latest row of a table stands first.
use backend_architecture.Prelude.{
  ℕ, ◌+◌, ◌*◌, Bool, true, false, Option, none, some, List, [], ◌∷◌, Text, codes, text_eq, to_lower,
  ltb, if◌then◌else◌, Exception, ok, err,
}
use backend_architecture.Shared.Status.{OrderStatus, pending}
use backend_architecture.Services.Postgres.{Statement}
use mathlib.Core.List.{foldl}

pub record OrderItem : Type 0 where
  pub sku : Text
  pub quantity : ℕ
  pub unit_price_cents : ℕ

pub record OrderRow : Type 0 where
  pub id : Text
  pub user_id : Text
  pub customer_email : Text
  pub items : List OrderItem
  pub total_cents : ℕ
  pub status : OrderStatus
  pub created_at : ℕ
  pub updated_at : ℕ

-- A row of `order_events`: created, with no status before it, or a change of status.
pub record OrderEvent : Type 0 where
  pub id : Text
  pub order_id : Text
  pub from_status : Option OrderStatus
  pub to_status : OrderStatus
  pub actor_user_id : Text

-- A row of `outbox_events`, with its payload's fields.
pub record OutboxEvent : Type 0 where
  pub id : Text
  pub aggregate_id : Text
  pub occurred_at : Text
  pub correlation_id : Text

pub record Tables : Type 0 where
  pub orders : List OrderRow
  pub order_events : List OrderEvent
  pub outbox_events : List OutboxEvent

-- The largest value of the column `total_cents integer`.
abbrev pub max_integer : ℕ
max_integer = 2147483647

abbrev pub has_order : Text → List OrderRow → Bool
has_order id [] = false
has_order id (row ∷ rows) = if text_eq row.id id then true else has_order id rows

abbrev pub find_order : Text → List OrderRow → Option OrderRow
find_order id [] = none
find_order id (row ∷ rows) = if text_eq row.id id then some row else find_order id rows

abbrev pub unique_violation : Exception
unique_violation = record { code = some (codes "23505"); message = codes "duplicate key value" }

abbrev pub out_of_range : Exception
out_of_range = record { code = some (codes "22003"); message = codes "integer out of range" }

-- `INSERT INTO orders … VALUES ($1, $2, lower($3), $4::jsonb, $5, 'pending') RETURNING …`; the user is there
unfoldable pub insert_order :
    Text → Text → Text → List OrderItem → ℕ → ℕ → Statement Tables OrderRow
insert_order id user_id customer_email items total_cents now t =
    let row : OrderRow = record {
      id = id;
      user_id = user_id;
      customer_email = to_lower customer_email;
      items = items;
      total_cents = total_cents;
      status = pending;
      created_at = now;
      updated_at = now;
    } in
    if has_order id t.orders
    then err unique_violation
    else if ltb max_integer total_cents
    then err out_of_range
    else ok (row, record t { orders = row ∷ t.orders })

abbrev has_order_event : Text → List OrderEvent → Bool
has_order_event id [] = false
has_order_event id (e ∷ es) = if text_eq e.id id then true else has_order_event id es

abbrev has_outbox_event : Text → List OutboxEvent → Bool
has_outbox_event id [] = false
has_outbox_event id (e ∷ es) = if text_eq e.id id then true else has_outbox_event id es

-- `INSERT INTO order_events …`; the order must be there, and the identifier new.
unfoldable pub insert_order_event : OrderEvent → Statement Tables (Unit {0})
insert_order_event e t =
    if has_order_event e.id t.order_events
    then err unique_violation
    else if has_order e.order_id t.orders
    then ok (tt, record t { order_events = e ∷ t.order_events })
    else err
        (record { code = some (codes "23503"); message = codes "violates foreign key constraint" })

-- `INSERT INTO outbox_events …`; the identifier must be new.
unfoldable pub insert_outbox_event : OutboxEvent → Statement Tables (Unit {0})
insert_outbox_event e t =
    if has_outbox_event e.id t.outbox_events
    then err unique_violation
    else ok (tt, record t { outbox_events = e ∷ t.outbox_events })

-- `SELECT … FROM orders WHERE id = $1`, with or without `FOR UPDATE`: statements run alone. The
-- identifier is spelled as the table spells it.
unfoldable pub select_order : Text → Statement Tables (Option OrderRow)
select_order id t = ok (find_order id t.orders, t)

abbrev pub with_status : OrderStatus → ℕ → OrderRow → OrderRow
with_status status now row = record row { status = status; updated_at = now }

abbrev pub set_status : Text → OrderStatus → ℕ → List OrderRow → List OrderRow
set_status id status now [] = []
set_status id status now (row ∷ rows) =
    (if text_eq row.id id then with_status status now row else row) ∷ set_status id status now rows

-- `UPDATE orders SET status = $2, updated_at = now() WHERE id = $1 RETURNING …`
unfoldable pub update_status : Text → OrderStatus → ℕ → Statement Tables (Option OrderRow)
update_status id status now t =
    let orders = set_status id status now t.orders in
    ok (find_order id orders, record t { orders = orders })

-- `items.reduce((total, item) => total + item.quantity * item.unitPriceCents, 0)`
abbrev pub add_item : ℕ → OrderItem → ℕ
add_item total item = total + item.quantity * item.unit_price_cents

unfoldable pub total_cents : List OrderItem → ℕ
total_cents items = foldl add_item 0 items
