-- ===== src/Shared/Status/History.antt =====
-- What the transition table of packages/shared/src/index.ts means for the whole life of an order.
use backend_architecture.Prelude.{
  ℕ, ◌+◌, ◌≤◌, ◌≡◌, refl, ◌⊎◌, true, List, [], ◌∷◌, ◌↔◌, arith, if◌then◌else◌,
}
use backend_architecture.Shared.Status.{
  OrderStatus, pending, confirmed, shipped, delivered, cancelled, status_eq,
  is_allowed_order_status_transition,
}

pub status_eq_iff : (s t : OrderStatus) → (status_eq s t ≡ true) ↔ (s ≡ t)
status_eq_iff s t = ground arith

-- Each status of the list may follow the one before it.
abbrev pub IsHistory : OrderStatus → List OrderStatus → Type 0
IsHistory s [] = Unit
IsHistory s (t ∷ ts) = (is_allowed_order_status_transition s t ≡ true) × IsHistory t ts

-- How often the status really changes.
abbrev pub changes : OrderStatus → List OrderStatus → ℕ
changes s [] = 0
changes s (t ∷ ts) = (if status_eq s t then 0 else 1) + changes t ts

abbrev pub last_status : OrderStatus → List OrderStatus → OrderStatus
last_status s [] = s
last_status s (t ∷ ts) = last_status t ts

-- How many changes a status has ahead of it, at most.
abbrev ahead : OrderStatus → ℕ
ahead pending = 3
ahead confirmed = 2
ahead shipped = 1
ahead _ = 0

step_ahead :
    (s t : OrderStatus)
    → is_allowed_order_status_transition s t ≡ true
    → (if status_eq s t then 0 else 1) + ahead t ≤ ahead s
unfolding is_allowed_order_status_transition
step_ahead s t h = ground arith

changes-le-ahead :
    (s : OrderStatus) (ts : List OrderStatus) → IsHistory s ts → changes s ts ≤ ahead s
changes-le-ahead s [] h = omega arith
changes-le-ahead s (t ∷ ts) h = omega (arith, step_ahead s t h.0, changes-le-ahead t ts h.1)

ahead-le : (s : OrderStatus) → ahead s ≤ 3
ahead-le s = ground arith

-- Along any list of statuses in which each may follow the one before, from whatever status it
-- starts, the status changes at most three times.
pub changes-le : (s : OrderStatus) (ts : List OrderStatus) → IsHistory s ts → changes s ts ≤ 3
changes-le s ts h = omega (arith, changes-le-ahead s ts h, ahead-le s)

terminal_step :
    (s t : OrderStatus)
    → (s ≡ delivered) ⊎ (s ≡ cancelled)
    → is_allowed_order_status_transition s t ≡ true
    → t ≡ s
unfolding is_allowed_order_status_transition
terminal_step s t k h = ground arith

-- Once an order is delivered or cancelled, every later history leaves it in that status.
pub terminal_absorbs :
    (s : OrderStatus) (ts : List OrderStatus)
    → (s ≡ delivered) ⊎ (s ≡ cancelled)
    → IsHistory s ts
    → last_status s ts ≡ s
terminal_absorbs s [] k h = refl
terminal_absorbs s (t ∷ ts) k h =
    let e = terminal_step s t k h.0 in rw e (terminal_absorbs s ts k (rw e at h.1))
