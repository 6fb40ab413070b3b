-- ===== src/Orders/Overflow.antt =====
-- packages/api-service/src/routes/orders.routes.ts: POST of an order whose total does not fit its column.
use backend_architecture.Prelude.{
  ℕ, ◌≡◌, refl, ◌<◌, inl, inr, Text, Exception, Result, ok, err, arith, Bool-cases,
}
use backend_architecture.Services.Postgres.{IsClient}
use backend_architecture.Orders.Tables.{
  OrderRow, Tables, insert_order, total_cents, max_integer, has_order,
}
use backend_architecture.Orders.Create.{OrderContext, CreateOrder, create_order_transactionally}
use backend_architecture.Orders.Quiet.{LeavesTables}
use backend_architecture.Orders.Placed.{Placed}
use backend_architecture.Orders.Atomic.{Outcome, create_order_transactionally-Outcome}

insert_order-fails :
    (id user_id email : Text) (order : CreateOrder) (total now : ℕ) (row : OrderRow) (t t' : Tables)
    → max_integer < total
    → insert_order id user_id email order.items total now t ≡ ok (row, t')
    → ⊥
unfolding insert_order
insert_order-fails id user_id email order total now row t t' large inserted =
    elim (Bool-cases (has_order id t.orders)) [ inl there ↦ ground arith | inr new ↦ ground arith ]

module _ {W : Type 0} (ctx : OrderContext W) (committed working : W → Tables)
    (laws : IsClient ctx.client committed working) (quiet : LeavesTables ctx committed working)
    (user_id correlation_id : Text) (order : CreateOrder)
    (large : max_integer < total_cents order.items) where
  not-Placed : (row : OrderRow) (t t' : Tables) → Placed user_id correlation_id order row t t' → ⊥
  not-Placed row t t' p =
      insert_order-fails p.order_id user_id order.customer_email order (total_cents order.items)
        p.now row t p.after_order large p.order_inserted

  Outcome-fails :
      (t : Tables) (r : Result OrderRow × W)
      → Outcome ctx committed working laws quiet user_id correlation_id order t r
      → ((e : Exception) × (r.0 ≡ err e)) × (committed r.1 ≡ t)
  Outcome-fails t (ok row, w) placed = absurd (not-Placed row t (committed w) placed)
  Outcome-fails t (err e, w) (inl same) = ((e, refl), same)
  Outcome-fails t (err e, w) (inr (row, placed)) = absurd (not-Placed row t (committed w) placed)

  -- An order whose total is larger than the largest value of its column is never created, whatever else
  -- fails and whenever: the handler throws, and the committed tables stay as they were.
  pub create_order_transactionally-out_of_range :
      (w : W)
      → let r = create_order_transactionally ctx user_id correlation_id order w in
        ((e : Exception) × (r.0 ≡ err e)) × (committed r.1 ≡ committed w)
  create_order_transactionally-out_of_range w =
      Outcome-fails (committed w) (create_order_transactionally ctx user_id correlation_id order w)
        (create_order_transactionally-Outcome ctx committed working laws quiet user_id
          correlation_id order w)
