-- ===== src/Orders/Total.antt =====
-- packages/api-service/src/routes/orders.routes.ts: the total of an order, within the bounds of
-- packages/api-service/src/schemas/order.schemas.ts.
use mathlib.Core.List.{foldl}
use native.Mathlib.Nat.{mul-le-mul}
use backend_architecture.Prelude.{
  ℕ, ◌+◌, ◌*◌, ◌^◌, ◌≤◌, ◌<◌, ◌≡◌, Bool, true, ◌&&◌, List, [], ◌∷◌, arith, length, leb, all,
  &&-eq-true,
}
use backend_architecture.Orders.Tables.{OrderItem, add_item, total_cents}

-- `orderItemSchema`
unfoldable pub order_item_schema : OrderItem → Bool
order_item_schema item =
    leb 1 (length item.sku)
    && leb (length item.sku) 64
    && leb 1 item.quantity
    && leb item.quantity 1000
    && leb item.unit_price_cents 100000000

-- The items of `createOrderSchema`
unfoldable pub items_schema : List OrderItem → Bool
items_schema items = leb 1 (length items) && leb (length items) 100 && all order_item_schema items

item_cost :
    (item : OrderItem)
    → order_item_schema item ≡ true
    → item.quantity * item.unit_price_cents ≤ 100000000000
unfolding order_item_schema
item_cost item h =
    let q : item.quantity ≤ 1000 = ground arith in
    let p : item.unit_price_cents ≤ 100000000 = ground arith in mul-le-mul q p

total_from :
    (items : List OrderItem) (acc : ℕ)
    → all order_item_schema items ≡ true
    → foldl add_item acc items ≤ acc + 100000000000 * length items
total_from [] acc h = omega arith
total_from (item ∷ items) acc h =
    let split = &&-eq-true (order_item_schema item) (all order_item_schema items) h in
    omega (
      arith,
      item_cost item split.0,
      total_from items (acc + item.quantity * item.unit_price_cents) split.1,
    )

-- The total of any order that the schema admits is at most 10 ^ 13, and so is exact as a double: below
-- 2 ^ 53.
pub total_cents_bounds :
    (items : List OrderItem)
    → items_schema items ≡ true
    → (total_cents items ≤ 10000000000000) × (total_cents items < 2 ^ 53)
unfolding total_cents items_schema
total_cents_bounds items h =
    let n : length items ≤ 100 = ground arith in
    let each : all order_item_schema items ≡ true = ground arith in
    let t = total_from items 0 each in (omega arith, omega arith)
