-- ===== src/Orders/Audit.antt =====
-- packages/api-service/src/routes/orders.routes.ts: the trail in `order_events` tells the whole life of
-- every order.
use mathlib.Core.Path.{subst}
use backend_architecture.Prelude.{
  ℕ, ◌≡◌, refl, sym, ◌∙◌, true, false, Option, some, List, [], ◌∷◌, Text, text_eq, text_eq_iff,
  text_eq_refl, to_lower, ok, arith, All, if◌then◌else◌, Bool-cases, inl, inr,
}
use backend_architecture.Shared.Status.{
  OrderStatus, pending, status_eq, is_allowed_order_status_transition,
}
use backend_architecture.Orders.Tables.{
  OrderItem, OrderRow, OrderEvent, OutboxEvent, Tables, has_order, find_order, insert_order,
  insert_order_event, insert_outbox_event, set_status, with_status, update_status,
}
use backend_architecture.Orders.Create.{created_event}
use backend_architecture.Orders.Patch.{changed_event}

-- The statuses that the events of an order record, the latest first.
abbrev pub trail : Text → List OrderEvent → List OrderStatus
trail id [] = []
trail id (e ∷ es) = if text_eq id e.order_id then e.to_status ∷ trail id es else trail id es

-- The trail ends in `pending`, each later status is another that the table of transitions allows after
-- the one before, and the latest is `s`.
abbrev pub IsTrail : OrderStatus → List OrderStatus → Type 0
IsTrail s [] = ⊥
IsTrail s (t ∷ []) = (s ≡ t) × (t ≡ pending)
IsTrail s (t ∷ u ∷ r) =
    (s ≡ t)
    × (is_allowed_order_status_transition u t ≡ true)
    × (status_eq u t ≡ false)
    × IsTrail u (u ∷ r)

-- Every order's trail ends in the order's status, and every event is about an order that is there.
abbrev pub IsAudited : Tables → Type 0
IsAudited t =
    All (λ (o : OrderRow). IsTrail o.status (trail o.id t.order_events)) t.orders
    × All (λ (e : OrderEvent). has_order e.order_id t.orders ≡ true) t.order_events

extend-IsTrail :
    (s t : OrderStatus) (l : List OrderStatus)
    → IsTrail s l
    → is_allowed_order_status_transition s t ≡ true
    → status_eq s t ≡ false
    → IsTrail t (t ∷ l)
extend-IsTrail s t [] h allowed other = absurd h
extend-IsTrail s t (u ∷ []) h allowed other =
    (refl, rw h.0 at allowed, rw h.0 at other, (refl, h.1))
extend-IsTrail s t (u ∷ v ∷ l) h allowed other =
    (refl, rw h.0 at allowed, rw h.0 at other, (refl, h.1, h.2, h.3))

trail_missing :
    (id : Text) (orders : List OrderRow) (es : List OrderEvent)
    → has_order id orders ≡ false
    → All (λ (e : OrderEvent). has_order e.order_id orders ≡ true) es
    → trail id es ≡ []
trail_missing id orders [] new h = refl
trail_missing id orders (e ∷ es) new h =
    ground (arith, trail_missing id orders es new h.1, text_eq_iff id e.order_id)

trails_other :
    (e : OrderEvent) (orders : List OrderRow) (es : List OrderEvent)
    → has_order e.order_id orders ≡ false
    → All (λ (o : OrderRow). IsTrail o.status (trail o.id es)) orders
    → All (λ (o : OrderRow). IsTrail o.status (trail o.id (e ∷ es))) orders
trails_other e [] es new h = tt
trails_other e (o ∷ orders) es new h = elim (Bool-cases (text_eq o.id e.order_id)) [
  | inl same ↦ absurd (ground arith)
  | inr other ↦ (rw other h.0, trails_other e orders es (ground arith) h.1)
]

events_mono :
    (o : OrderRow) (orders : List OrderRow) (es : List OrderEvent)
    → All (λ (e : OrderEvent). has_order e.order_id orders ≡ true) es
    → All (λ (e : OrderEvent). has_order e.order_id (o ∷ orders) ≡ true) es
events_mono o orders [] h = tt
events_mono o orders (e ∷ es) h = (ground arith, events_mono o orders es h.1)

-- Placing a new order with its first event keeps the trails.
place-IsAudited :
    (t : Tables) (o : OrderRow) (e : OrderEvent)
    → has_order o.id t.orders ≡ false
    → o.status ≡ pending
    → e.order_id ≡ o.id
    → e.to_status ≡ pending
    → IsAudited t
    → IsAudited (record t { orders = o ∷ t.orders; order_events = e ∷ t.order_events })
place-IsAudited t o e new st about to h =
    let none_yet = trail_missing o.id t.orders t.order_events new h.1 in
    let self = text_eq_refl o.id in
    (
      (
        rw (about, self, none_yet) (st ∙ sym to, to),
        trails_other e t.orders t.order_events (rw about new) h.0,
      ),
      (rw (about, self) refl, events_mono o t.orders t.order_events h.1),
    )

has_order-set_status :
    (id j : Text) (s : OrderStatus) (now : ℕ) (orders : List OrderRow)
    → has_order j (set_status id s now orders) ≡ has_order j orders
has_order-set_status id j s now [] = refl
has_order-set_status id j s now (o ∷ orders) =
    ground (arith, has_order-set_status id j s now orders)

events_set_status :
    (id : Text) (s : OrderStatus) (now : ℕ) (orders : List OrderRow) (es : List OrderEvent)
    → All (λ (e : OrderEvent). has_order e.order_id orders ≡ true) es
    → All (λ (e : OrderEvent). has_order e.order_id (set_status id s now orders) ≡ true) es
events_set_status id s now orders [] h = tt
events_set_status id s now orders (e ∷ es) h = (
  has_order-set_status id e.order_id s now orders ∙ h.0,
  events_set_status id s now orders es h.1,
)

find_order-IsTrail :
    (id : Text) (orders : List OrderRow) (es : List OrderEvent) (o : OrderRow)
    → find_order id orders ≡ some o
    → All (λ (o : OrderRow). IsTrail o.status (trail o.id es)) orders
    → IsTrail o.status (trail id es)
find_order-IsTrail id [] es o found h = cc
find_order-IsTrail id (x ∷ orders) es o found h = elim (Bool-cases (text_eq x.id id)) [
  | inl same ↦
      let here : x ≡ o = ground arith in
      let name = (text_eq_iff x.id id).0 same in rw (← here, ← name) h.0
  | inr other ↦ find_order-IsTrail id orders es o (ground arith) h.1
]

change-trails :
    (e : OrderEvent) (now : ℕ) (from : OrderStatus) (orders : List OrderRow) (es : List OrderEvent)
    → IsTrail from (trail e.order_id es)
    → is_allowed_order_status_transition from e.to_status ≡ true
    → status_eq from e.to_status ≡ false
    → All (λ (o : OrderRow). IsTrail o.status (trail o.id es)) orders
    → All
        (λ (o : OrderRow). IsTrail o.status (trail o.id (e ∷ es)))
        (set_status e.order_id e.to_status now orders)
change-trails e now from [] es life allowed other h = tt
change-trails e now from (o ∷ orders) es life allowed other h =
    (changed, change-trails e now from orders es life allowed other h.1)
  where
    changed :
        IsTrail
          (if text_eq o.id e.order_id then with_status e.to_status now o else o).status
          (trail (if text_eq o.id e.order_id then with_status e.to_status now o else o).id (e ∷ es))
    changed = elim (Bool-cases (text_eq o.id e.order_id)) [
      | inl same ↦
          let name = (text_eq_iff o.id e.order_id).0 same in
          let mine : IsTrail from (trail o.id es) = rw name life in
          let new : (if text_eq o.id e.order_id then with_status e.to_status now o else o)
              ≡ with_status e.to_status now o =
            rw same in
          let told : IsTrail e.to_status (trail o.id (e ∷ es)) =
            rw same (extend-IsTrail from e.to_status (trail o.id es) mine allowed other) in
          subst (λ (r : OrderRow). IsTrail r.status (trail r.id (e ∷ es))) (sym new) told
      | inr apart ↦
          let old : (if text_eq o.id e.order_id then with_status e.to_status now o else o) ≡ o =
            rw apart in
          let told : IsTrail o.status (trail o.id (e ∷ es)) = rw apart h.0 in
          subst (λ (r : OrderRow). IsTrail r.status (trail r.id (e ∷ es))) (sym old) told
    ]

has_order-find_order :
    (id : Text) (orders : List OrderRow) (o : OrderRow)
    → find_order id orders ≡ some o
    → has_order id orders ≡ true
has_order-find_order id [] o found = cc
has_order-find_order id (x ∷ orders) o found = ground (arith, has_order-find_order id orders o)

-- Changing the status of an order, with its event, keeps the trails.
change-IsAudited :
    (t : Tables) (o : OrderRow) (e : OrderEvent) (now : ℕ)
    → find_order e.order_id t.orders ≡ some o
    → is_allowed_order_status_transition o.status e.to_status ≡ true
    → status_eq o.status e.to_status ≡ false
    → IsAudited t
    → IsAudited (record t {
      orders = set_status e.order_id e.to_status now t.orders;
      order_events = e ∷ t.order_events;
    })
change-IsAudited t o e now found allowed other h =
    let life = find_order-IsTrail e.order_id t.orders t.order_events o found h.0 in
    (
      change-trails e now o.status t.orders t.order_events life allowed other h.0,
      (
        has_order-set_status e.order_id e.order_id e.to_status now t.orders
            ∙ has_order-find_order e.order_id t.orders o found,
        events_set_status e.order_id e.to_status now t.orders t.order_events h.1,
      ),
    )

-- The three insertions of an order that succeed, on tables where every order's trail of events ends in
-- its status, leave tables where it does.
pub insertions-IsAudited :
    (id user_id email event_id : Text) (items : List OrderItem) (total now : ℕ) (x : OutboxEvent)
    (t t1 t2 t3 : Tables) (row : OrderRow)
    → insert_order id user_id email items total now t ≡ ok (row, t1)
    → insert_order_event (created_event event_id id user_id) t1 ≡ ok (tt, t2)
    → insert_outbox_event x t2 ≡ ok (tt, t3)
    → IsAudited t
    → IsAudited t3
unfolding insert_order insert_order_event insert_outbox_event
insertions-IsAudited id user_id email event_id items total now x t t1 t2 t3 row placed noted queued
      h =
    let o : OrderRow = record {
      id = id;
      user_id = user_id;
      customer_email = to_lower email;
      items = items;
      total_cents = total;
      status = pending;
      created_at = now;
      updated_at = now;
    } in
    let e = created_event event_id id user_id in
    let new : has_order id t.orders ≡ false = ground arith in
    let step = place-IsAudited t o e new refl refl refl h in
    let first : t1 ≡ record t { orders = o ∷ t.orders } = ground arith in
    let last : t3 ≡ record t {
      orders = o ∷ t.orders;
      order_events = e ∷ t.order_events;
      outbox_events = x ∷ t.outbox_events;
    } =
      ground arith in
    rw last step

-- The update of a status and the insertion of its event that succeed, on such tables, for an order that
-- is there and a change that the handler lets through, leave tables where it holds too.
pub change-statements-IsAudited :
    (user_id id event_id : Text) (target : OrderStatus) (now : ℕ) (t t1 t2 : Tables) (o : OrderRow)
    (updated : Option OrderRow)
    → find_order id t.orders ≡ some o
    → is_allowed_order_status_transition o.status target ≡ true
    → status_eq o.status target ≡ false
    → update_status id target now t ≡ ok (updated, t1)
    → insert_order_event (changed_event event_id id o.status target user_id) t1 ≡ ok (tt, t2)
    → IsAudited t
    → IsAudited t2
unfolding update_status insert_order_event
change-statements-IsAudited user_id id event_id target now t t1 t2 o updated found allowed other
      done noted h =
    let e = changed_event event_id id o.status target user_id in
    let step = change-IsAudited t o e now found allowed other h in
    let last : t2 ≡ record t {
      orders = set_status id target now t.orders;
      order_events = e ∷ t.order_events;
    } =
      ground arith in
    rw last step
