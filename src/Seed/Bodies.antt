-- ===== src/Seed/Bodies.antt =====
-- scripts/seed-orders.mjs: the orders that it makes are ones that the API accepts.
use native.Mathlib.Nat.{mul-le-mul}
use backend_architecture.Prelude.{
  ℕ, zero, suc, ◌+◌, ◌-◌, ◌*◌, ◌%◌, ◌≤◌, ◌<◌, ◌≡◌, refl, ap, ◌∙◌, Bool, true, false, not, ◌&&◌,
  ◌||◌, some, List, [], ◌∷◌, ◌++◌, Text, codes, before, ltb, ◌==◌, length, length-append,
  &&-eq-true, all, All, arith,
}
use backend_architecture.Prelude.Decimal.{decimal, is_digit, decimal-length, decimal-digits}
use backend_architecture.Orders.Tables.{OrderItem, max_integer, total_cents}
use backend_architecture.Orders.Total.{items_schema, order_item_schema}
use backend_architecture.Auth.Accounts.{email_schema, is_word, after_at, has_domain}
use backend_architecture.Seed.{order_body, pad_start, zeros}

zeros-length : (n : ℕ) → length (zeros n) ≡ n
zeros-length zero = refl
zeros-length (suc n) = omega (arith, zeros-length n)

-- A number below 1000 is padded to four digits.
pad_start-length : (n : ℕ) → n < 1000 → length (pad_start (decimal n)) ≡ 4
pad_start-length n small =
    let short = decimal-length 2 n (omega arith) in
    omega (
      arith,
      short,
      zeros-length (4 - length (decimal n)),
      length-append (zeros (4 - length (decimal n))) (decimal n),
    )

order_item_schema-true :
    (item : OrderItem)
    → (1 ≤ length item.sku) × (length item.sku ≤ 64)
    → (1 ≤ item.quantity) × (item.quantity ≤ 1000)
    → item.unit_price_cents ≤ 100000000
    → order_item_schema item ≡ true
unfolding order_item_schema
order_item_schema-true item short few cheap = ground arith

all-append {ℓ} :
    {A : Type ℓ} (p : A → Bool) (xs ys : List A)
    → all p xs ≡ true
    → all p ys ≡ true
    → all p (xs ++ ys) ≡ true
all-append p [] ys hx hy = hy
all-append p (x ∷ xs) ys hx hy =
    let split = &&-eq-true (p x) (all p xs) hx in rw (split.0, all-append p xs ys split.1 hy)

digit-is_word : (c : ℕ) → is_digit c ≡ true → is_word c ≡ true
digit-is_word c h =
    let low : 48 ≤ c = ground arith in let high : c ≤ 57 = ground arith in ground arith

right_false : (x y : Bool) → not (x || y) ≡ true → y ≡ false
right_false x y h = ground arith

all-digits : (s : Text) → All (λ c. is_digit c ≡ true) s → all is_word s ≡ true
all-digits [] h = refl
all-digits (c ∷ s) h =
    let rest = all-digits s h.1 in let word = digit-is_word c h.0 in rw (word, rest)

split_at :
    (local domain : Text)
    → all is_word local ≡ true
    → (before b'@' (local ++ b'@' ∷ domain) ≡ local)
      × (after_at (local ++ b'@' ∷ domain) ≡ some domain)
split_at [] domain h = (refl, refl)
split_at (c ∷ local) domain h =
    let split = &&-eq-true (is_word c) (all is_word local) h in
    let rest = split_at local domain split.1 in
    let other : (c == b'@') ≡ false = right_false _ (c == b'@') split.0 in
    (rw (other, rest.0), rw (other, rest.1))

all_three : (a b c : Bool) → a ≡ true → b ≡ true → c ≡ true → (a && (b && c)) ≡ true
all_three a b c x y z = ground arith

email_schema-true :
    (c : ℕ) (local domain : Text)
    → all is_word (c ∷ local) ≡ true
    → has_domain (some domain) ≡ true
    → email_schema (c ∷ (local ++ b'@' ∷ domain)) ≡ true
unfolding email_schema
email_schema-true c local domain h d =
    let parts = split_at (c ∷ local) domain h in
    let whole = c ∷ (local ++ b'@' ∷ domain) in
    let split = &&-eq-true (is_word c) (all is_word local) h in
    ap (λ l. ltb 0 (length l) && (all is_word l && has_domain (after_at whole))) parts.0
    ∙ (ap (λ o. ltb 0 (length (c ∷ local)) && (all is_word (c ∷ local) && has_domain o)) parts.1
        ∙ all_three _ _ _ (ground arith) h d)

-- Every order that the script makes passes the schema of the API, its address of email and its items,
-- and the total of the items fits the column of the table.
pub order_body-create_order_schema :
    (index : ℕ)
    → (email_schema (order_body index).customer_email ≡ true)
      × (items_schema (order_body index).items ≡ true)
      × (total_cents (order_body index).items ≤ max_integer)
unfolding order_body items_schema total_cents
order_body-create_order_schema index =
    let first = pad_start-length (index % 1000) (omega arith) in
    let second = pad_start-length (index % 250) (omega arith) in
    let q : index % 5 + 1 ≤ 5 = omega arith in
    let p : 500 + index % 200 * 37 ≤ 7863 = omega arith in
    let cost = mul-le-mul q p in
    let a : OrderItem = record {
      sku = codes "SEED-" ++ pad_start (decimal (index % 1000));
      quantity = index % 5 + 1;
      unit_price_cents = 500 + index % 200 * 37;
    } in
    let b : OrderItem = record {
      sku = codes "ADDON-" ++ pad_start (decimal (index % 250));
      quantity = 1;
      unit_price_cents = 199;
    } in
    let ha =
      order_item_schema-true a (omega arith, omega arith) (omega arith, omega arith)
        (omega arith) in
    let hb =
      order_item_schema-true b (omega arith, omega arith) (omega arith, omega arith)
        (omega arith) in
    (
      email_schema-true 115 (codes "eed-buyer-" ++ decimal index) (codes "example.com")
          (all-append is_word (codes "seed-buyer-") (decimal index) refl
            (all-digits (decimal index) (decimal-digits index)))
          refl,
      rw (ha, hb),
      omega arith,
    )
