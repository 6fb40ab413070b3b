-- ===== src/Tests/Seed.antt =====
-- The theorems on the seeding script, each at one input.
use backend_architecture.Prelude.{ℕ, ◌≡◌, refl, true, [], ◌∷◌, codes, min}
use backend_architecture.Seed.{read_args, order_body, turns, not_started}
use backend_architecture.Prelude.Decimal.{decimal}
use backend_architecture.Seed.Cursor.{count_down, turns-count_down}

-- Three workers make two orders.
turns-count_down_example :
    ((turns 2 (7 ∷ 8 ∷ 9 ∷ 8 ∷ []) not_started).taken
      ≡ count_down (min (turns 2 (7 ∷ 8 ∷ 9 ∷ 8 ∷ []) not_started).current 2))
    × ((worker : ℕ)
        → (turns 2 (7 ∷ 8 ∷ 9 ∷ 8 ∷ []) not_started).returned worker ≡ true
        → (turns 2 (7 ∷ 8 ∷ 9 ∷ 8 ∷ []) not_started).taken ≡ count_down 2)
turns-count_down_example = turns-count_down 2 (7 ∷ 8 ∷ 9 ∷ 8 ∷ [])

first_address : (order_body 1).customer_email ≡ codes "seed-buyer-1@example.com"
unfolding order_body decimal
first_address = refl

-- An argument with a value, and one that is followed by another argument.
two_arguments :
    read_args (codes "--orders" ∷ codes "50" ∷ codes "--email" ∷ codes "--x" ∷ []) []
    ≡ (codes "x", codes "true") ∷ (codes "email", codes "true") ∷ (codes "orders", codes "50") ∷ []
unfolding read_args
two_arguments = refl
