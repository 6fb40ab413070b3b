-- ===== src/Orders/Create.antt =====
-- packages/api-service/src/routes/orders.routes.ts: `createOrderTransactionally`.
use backend_architecture.Prelude.{
  ℕ, none, List, Text, codes, Exception, ok, Action, pure, throw, ◌>>=◌, try_catch,
}
use backend_architecture.Services.Postgres.{Pool, Client}
use backend_architecture.Shared.Status.{pending}
use backend_architecture.Cache.Primitives.{CacheContext}
use backend_architecture.Cache.Invalidate.{invalidate_list_namespace}
use backend_architecture.Orders.Tables.{
  OrderItem, OrderRow, OrderEvent, OutboxEvent, Tables, insert_order, insert_order_event,
  insert_outbox_event, total_cents,
}

-- What the order routes are given.
pub record OrderContext (W : Type 0) : Type 1 where
  pub cache : CacheContext W
  pub pool : Pool W Tables
  -- `pool.connect()` and `client.release()`
  pub connect : Action W (Unit {0})
  pub client : Client W Tables
  pub release : W → W
  -- `randomUUID()`
  pub random_uuid : W → Text × W
  -- `new Date().toISOString()`, and `now()` in the database
  pub iso_date : W → Text
  pub database_now : W → ℕ

pub record CreateOrder : Type 0 where
  pub customer_email : Text
  pub items : List OrderItem

abbrev pub orders_list : Text
orders_list = codes "orders-list"

abbrev pub created_event : Text → Text → Text → OrderEvent
created_event id order_id user_id = record {
  id = id;
  order_id = order_id;
  from_status = none;
  to_status = pending;
  actor_user_id = user_id;
}

abbrev pub outbox_event : Text → Text → Text → Text → OutboxEvent
outbox_event event_id order_id occurred_at correlation_id = record {
  id = event_id;
  aggregate_id = order_id;
  occurred_at = occurred_at;
  correlation_id = correlation_id;
}

module _ {W : Type 0} (ctx : OrderContext W) where
  abbrev pub fresh_uuid : Action W Text
  fresh_uuid w = let (id, w') = ctx.random_uuid w in (ok id, w')

  abbrev pub read : {A : Type 0} → (W → A) → Action W A
  read f w = (ok (f w), w)

  -- `await client.query("ROLLBACK").catch(() => undefined); throw error`
  abbrev pub abandon : {A : Type 0} → Exception → Action W A
  abandon e = try_catch ctx.client.rollback (λ _. pure tt) >>= λ _. throw e

  -- `finally { client.release() }`
  abbrev pub finally_release : {A : Type 0} → Action W A → Action W A
  finally_release m w = let (r, w') = m w in (r, ctx.release w')

  -- The statements between BEGIN and COMMIT.
  unfoldable pub insert_all :
      Text → CreateOrder → Text → Text → Text → Text → Text → ℕ → Action W OrderRow
  insert_all user_id order order_id event_id audit_id occurred_at correlation_id now =
      ctx.client.execute (
        insert_order order_id user_id order.customer_email order.items (total_cents order.items)
          now)
      >>= λ row.
          ctx.client.execute (insert_order_event (created_event audit_id order_id user_id)) >>= λ _.
          ctx.client.execute
            (insert_outbox_event (outbox_event event_id order_id occurred_at correlation_id))
          >>= λ _. pure row

  -- The `try` block with its `catch`.
  unfoldable pub create_in_transaction :
      Text → CreateOrder → Text → Text → Text → Text → Action W OrderRow
  create_in_transaction user_id order order_id event_id occurred_at correlation_id =
      try_catch
        (ctx.client.begin >>= λ _. read ctx.database_now >>= λ now. fresh_uuid >>= λ audit_id.
          insert_all user_id order order_id event_id audit_id occurred_at correlation_id now
          >>= λ row. ctx.client.commit >>= λ _.
              invalidate_list_namespace ctx.cache orders_list >>= λ _. pure row)
        abandon

  -- The row of the response, whose status is 201. `correlation_id` is `request.correlationId ?? request.id`.
  unfoldable pub create_order_transactionally : Text → Text → CreateOrder → Action W OrderRow
  create_order_transactionally user_id correlation_id order = fresh_uuid >>= λ order_id.
      fresh_uuid >>= λ event_id. read ctx.iso_date >>= λ occurred_at. ctx.connect >>= λ _.
      finally_release
        (create_in_transaction user_id order order_id event_id occurred_at correlation_id)
