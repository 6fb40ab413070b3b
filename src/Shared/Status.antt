-- ===== src/Shared/Status.antt =====
-- packages/shared/src/index.ts: the order statuses and their transitions.
pub mod History
use backend_architecture.Prelude.{Bool, true, false, List, [], ◌∷◌, ◌||◌, if◌then◌else◌}

pub data OrderStatus : Type 0 where
  pending confirmed shipped delivered cancelled : OrderStatus

-- `===` on statuses
abbrev pub status_eq : OrderStatus → OrderStatus → Bool
status_eq pending pending = true
status_eq confirmed confirmed = true
status_eq shipped shipped = true
status_eq delivered delivered = true
status_eq cancelled cancelled = true
status_eq _ _ = false

unfoldable pub order_status_transitions : OrderStatus → List OrderStatus
order_status_transitions pending = confirmed ∷ cancelled ∷ []
order_status_transitions confirmed = shipped ∷ cancelled ∷ []
order_status_transitions shipped = delivered ∷ []
order_status_transitions delivered = []
order_status_transitions cancelled = []

-- The `includes` method of an array of statuses.
abbrev pub includes : List OrderStatus → OrderStatus → Bool
includes [] s = false
includes (t ∷ ts) s = status_eq t s || includes ts s

unfoldable pub is_allowed_order_status_transition : OrderStatus → OrderStatus → Bool
unfolding order_status_transitions
is_allowed_order_status_transition from to =
    if status_eq from to then true else includes (order_status_transitions from) to
