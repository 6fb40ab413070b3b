-- ===== src/Seed/Cursor.antt =====
-- scripts/seed-orders.mjs: no order is made twice or left out, however the workers take turns.
use mathlib.Core.Path.{subst}
use backend_architecture.Prelude.{
  ℕ, zero, suc, ◌+◌, ◌≤◌, ◌<◌, ◌≡◌, sym, ap, ◌∙◌, inl, inr, true, ◌||◌, List, [], ◌∷◌, ltb, ◌==◌,
  if◌then◌else◌, arith, Bool-cases, min,
}
use backend_architecture.Seed.{Seeding, turn, turns, not_started}

-- n, n - 1, …, 1
abbrev pub count_down : ℕ → List ℕ
count_down zero = []
count_down (suc n) = suc n ∷ count_down n

abbrev IsOrderly : ℕ → Seeding → Type 0
IsOrderly orders s =
    (s.taken ≡ count_down (min s.current orders))
    × ((worker : ℕ) → s.returned worker ≡ true → orders < s.current)

module _ (orders worker : ℕ) (s : Seeding) where
  abbrev over : Seeding
  over = record s {
    current = s.current + 1;
    returned = λ other. (other == worker) || s.returned other;
  }

  abbrev more : Seeding
  more = record s { current = s.current + 1; taken = (s.current + 1) ∷ s.taken }

  over-IsOrderly : orders < s.current + 1 → IsOrderly orders s → IsOrderly orders over
  over-IsOrderly late (taken, returned) =
      let same : min s.current orders ≡ min (s.current + 1) orders = omega arith in
      (taken ∙ ap count_down same, λ w h. late)

  more-IsOrderly : s.current + 1 ≤ orders → IsOrderly orders s → IsOrderly orders more
  more-IsOrderly early (taken, returned) =
      let here : min s.current orders ≡ s.current = omega arith in
      let next : suc s.current ≡ min (s.current + 1) orders = omega arith in
      let number : s.current + 1 ≡ suc s.current = omega arith in
      (
        ap (λ n. n ∷ s.taken) number
            ∙ (ap (λ l. suc s.current ∷ l) (taken ∙ ap count_down here) ∙ ap count_down next),
        λ w h. let passed = returned w h in omega arith,
      )

  turn-IsOrderly : IsOrderly orders s → IsOrderly orders (turn orders worker s)
  unfolding turn
  turn-IsOrderly h = elim (Bool-cases (s.returned worker)) [
    | inl back ↦
        subst
          (λ b.
            IsOrderly orders (if b then s else if ltb orders (s.current + 1) then over else more))
          (sym back) h
    | inr busy ↦
        subst
          (λ b.
            IsOrderly orders (if b then s else if ltb orders (s.current + 1) then over else more))
          (sym busy)
          (elim (Bool-cases (ltb orders (s.current + 1))) [
            | inl late ↦
                subst (λ b. IsOrderly orders (if b then over else more)) (sym late)
                  (over-IsOrderly (ground arith) h)
            | inr early ↦
                subst (λ b. IsOrderly orders (if b then over else more)) (sym early)
                  (more-IsOrderly (ground arith) h)
          ])
  ]

turns-IsOrderly :
    (orders : ℕ) (schedule : List ℕ) (s : Seeding)
    → IsOrderly orders s
    → IsOrderly orders (turns orders schedule s)
turns-IsOrderly orders [] s h = h
turns-IsOrderly orders (worker ∷ schedule) s h =
    turns-IsOrderly orders schedule (turn orders worker s) (turn-IsOrderly orders worker s h)

-- Whatever the order of the workers' turns: the indices taken from the cursor are those from 1 up to
-- some number, each once, never beyond the number of orders; and as soon as a worker has returned they
-- are all of them.
pub turns-count_down :
    (orders : ℕ) (schedule : List ℕ)
    → let s = turns orders schedule not_started in
      (s.taken ≡ count_down (min s.current orders))
      × ((worker : ℕ) → s.returned worker ≡ true → s.taken ≡ count_down orders)
turns-count_down orders schedule =
    let s = turns orders schedule not_started in
    let (taken, returned) =
      turns-IsOrderly orders schedule not_started
        (ap count_down start, λ w h. absurd (ground arith)) in
    (
      taken,
      λ worker h.
          let passed = returned worker h in
          let all_taken : min s.current orders ≡ orders = omega arith in
          taken ∙ ap count_down all_taken,
    )
  where
    start : 0 ≡ min 0 orders
    start = omega arith
