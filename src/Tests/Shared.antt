-- ===== src/Tests/Shared.antt =====
-- The theorems on order statuses, each at one input.
use backend_architecture.Prelude.{◌≤◌, refl, [], ◌∷◌}
use backend_architecture.Shared.Status.{
  pending, confirmed, shipped, delivered, is_allowed_order_status_transition,
}
use backend_architecture.Shared.Status.History.{changes, changes-le}

changes-le_example : changes pending (confirmed ∷ confirmed ∷ shipped ∷ delivered ∷ []) ≤ 3
unfolding is_allowed_order_status_transition
changes-le_example =
    changes-le pending (confirmed ∷ confirmed ∷ shipped ∷ delivered ∷ [])
      (refl, (refl, (refl, (refl, tt))))
