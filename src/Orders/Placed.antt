-- ===== src/Orders/Placed.antt =====
-- packages/api-service/src/routes/orders.routes.ts: what the insertions of an order leave.
use backend_architecture.Prelude.{
  ℕ, ◌≡◌, sym, ◌∙◌, ap, inl, inr, Text, ok, Action, arith, Result-cases,
}
use backend_architecture.Services.Postgres.{IsClient}
use backend_architecture.Orders.Tables.{
  OrderRow, Tables, insert_order, insert_order_event, insert_outbox_event, total_cents,
}
use backend_architecture.Orders.Create.{
  OrderContext, CreateOrder, created_event, outbox_event, insert_all,
}
use backend_architecture.Orders.Quiet.{LeavesTables}

-- The second tables are the first with the order placed: its row, its first event and its outbox event.
pub record Placed (user_id correlation_id : Text) (order : CreateOrder) (row : OrderRow)
    (t t' : Tables) : Type 0 where
  pub order_id : Text
  pub event_id : Text
  pub audit_id : Text
  pub occurred_at : Text
  pub now : ℕ
  pub after_order : Tables
  pub after_event : Tables
  pub order_inserted :
      insert_order order_id user_id order.customer_email order.items (total_cents order.items) now t
      ≡ ok (row, after_order)
  pub event_inserted :
      insert_order_event (created_event audit_id order_id user_id) after_order
      ≡ ok (tt, after_event)
  pub outbox_inserted :
      insert_outbox_event (outbox_event event_id order_id occurred_at correlation_id) after_event
      ≡ ok (tt, t')

module _ {W : Type 0} (ctx : OrderContext W) (committed working : W → Tables)
    (laws : IsClient ctx.client committed working) (quiet : LeavesTables ctx committed working)
    (user_id correlation_id : Text) (order : CreateOrder) where
  module _ (order_id event_id audit_id occurred_at : Text) (now : ℕ) where
    unfoldable pub insert : Action W OrderRow
    insert = insert_all ctx user_id order order_id event_id audit_id occurred_at correlation_id now

    pub insert-committed : (w : W) → committed (insert w).1 ≡ committed w
    unfolding insert insert_all
    insert-committed w =
        let q1 =
          insert_order order_id user_id order.customer_email order.items (total_cents order.items)
            now in
        let q2 = insert_order_event (created_event audit_id order_id user_id) in
        let q3 = insert_outbox_event (outbox_event event_id order_id occurred_at correlation_id) in
        let w1 = (ctx.client.execute q1 w).1 in
        let w2 = (ctx.client.execute q2 w1).1 in
        let k1 = laws.execute_keeps q1 w in
        let k2 = laws.execute_keeps q2 w1 in let k3 = laws.execute_keeps q3 w2 in ground arith

    pub insert-Placed :
        (w : W) (row : OrderRow)
        → (insert w).0 ≡ ok row
        → Placed user_id correlation_id order row (working w) (working (insert w).1)
    unfolding insert insert_all
    insert-Placed w row done =
        let q1 =
          insert_order order_id user_id order.customer_email order.items (total_cents order.items)
            now in
        let q2 = insert_order_event (created_event audit_id order_id user_id) in
        let q3 = insert_outbox_event (outbox_event event_id order_id occurred_at correlation_id) in
        let w1 = (ctx.client.execute q1 w).1 in
        let w2 = (ctx.client.execute q2 w1).1 in
        elim (Result-cases (ctx.client.execute q1 w).0) [
          | inr (x, failed) ↦ absurd (ground arith)
          | inl (row', ok1) ↦ elim (Result-cases (ctx.client.execute q2 w1).0) [
            | inr (x, failed) ↦ absurd (ground arith)
            | inl (_, ok2) ↦ elim (Result-cases (ctx.client.execute q3 w2).0) [
              | inr (x, failed) ↦ absurd (ground arith)
              | inl (_, ok3) ↦
                  let r1 = laws.execute_ok q1 w row' ok1 in
                  let r2 = laws.execute_ok q2 w1 tt ok2 in
                  let r3 = laws.execute_ok q3 w2 tt ok3 in
                  let same : row' ≡ row = ground arith in
                  let end : (insert w).1 ≡ (ctx.client.execute q3 w2).1 = ground arith in
                  record {
                    order_id = order_id;
                    event_id = event_id;
                    audit_id = audit_id;
                    occurred_at = occurred_at;
                    now = now;
                    after_order = working w1;
                    after_event = working w2;
                    order_inserted = r1 ∙ ap (λ r. ok (r, working w1)) same;
                    event_inserted = r2;
                    outbox_inserted = r3 ∙ ap (λ v. ok (tt, working v)) (sym end);
                  }
            ]
          ]
        ]
