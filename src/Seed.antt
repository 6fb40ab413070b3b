-- ===== src/Seed.antt =====
-- scripts/seed-orders.mjs: its arguments, the orders that it makes, and the workers that share a cursor.
pub mod Cursor
pub mod Bodies
use backend_architecture.Prelude.{
  ℕ, zero, suc, ◌+◌, ◌-◌, ◌*◌, ◌/◌, ◌%◌, ◌^◌, ◌≤◌, ◌<◌, ◌≡◌, ◌≢◌, ◌↔◌, refl, sym, ap, ◌∙◌, ◌⊎◌, inl,
  inr, Bool, true, false, not, ◌&&◌, ◌||◌, Option, none, some, List, [], ◌∷◌, ◌++◌, map, Text,
  codes, text_eq, text_eq_iff, text_eq_refl, to_lower, trim, starts_with, before, leb, ltb, ◌==◌,
  if◌then◌else◌, length, take, take-append, drop-append, length-append, &&-eq-true, drop, get_elem?,
  all, All, join, Exception, Result, ok, err, Action, pure, throw, ◌>>=◌, ◌>>◌, try_catch, modify,
  Pending, await, arith, Bool-cases, Option-cases, Result-cases, after_bind, after_try, Post,
  bind-eq-ok, bind-Post, try-Post, Post-intro, Post-weaken, Post-ok, Post-err, Post-always, min,
  max,
}
use backend_architecture.Prelude.Decimal.{Number, nan, whole, negative, decimal, parse_int}
use backend_architecture.Orders.Tables.{OrderItem}
use backend_architecture.Orders.Create.{CreateOrder}

-- The arguments as a map; the latest entry of a key counts.
abbrev pub Args : Type 0
Args = List (Text × Text)

abbrev pub get_arg : Text → Args → Option Text
get_arg key [] = none
get_arg key ((k, value) ∷ args) = if text_eq k key then some value else get_arg key args

-- `next && !next.startsWith("--") ? next : "true"`
abbrev arg_value : List Text → Text
arg_value [] = codes "true"
arg_value (next ∷ argv) =
    if text_eq next [] || starts_with (codes "--") next then codes "true" else next

-- The loop over the arguments, with those read so far.
unfoldable pub read_args : List Text → Args → Args
read_args [] args = args
read_args (value ∷ argv) args =
    let read = read_args argv ((drop 2 value, arg_value argv) ∷ args) in
    let passed_over = read_args argv args in
    if starts_with (codes "--") value then read else passed_over

abbrev or_else : Option Text → Option Text → Text → Text
or_else (some a) b c = a
or_else none (some b) c = b
or_else none none c = c

unfoldable pub parse_integer : Text → Text → Result ℕ
parse_integer raw name = elim (parse_int raw) [
  | nan ↦ err (record { code = none; message = codes "Invalid " ++ (name ++ (codes ": " ++ raw)) })
  | negative n ↦
      err (record { code = none; message = codes "Invalid " ++ (name ++ (codes ": " ++ raw)) })
  | whole n ↦
      if ltb n 1
      then err (record { code = none; message = codes "Invalid " ++ (name ++ (codes ": " ++ raw)) })
      else ok n
]

pub record SeedConfig : Type 0 where
  pub base_url : Text
  pub orders : ℕ
  pub concurrency : ℕ
  pub email : Text
  pub password : Text

-- `args.get(key) ?? process.env[name] ?? default`
abbrev setting : Args → (Text → Option Text) → Text → Text → Text → Text
setting args env key name default = or_else (get_arg key args) (env name) default

abbrev and_then : {A B : Type 0} → Result A → (A → Result B) → Result B
and_then (ok a) f = f a
and_then (err e) f = err e

unfoldable pub seed_config : List Text → (Text → Option Text) → Result SeedConfig
seed_config argv env =
    let args = read_args argv [] in
    and_then
      (parse_integer (setting args env (codes "orders") (codes "SEED_ORDERS") (codes "1000"))
        (codes "orders"))
      (λ orders.
        and_then
          (parse_integer
            (setting args env (codes "concurrency") (codes "SEED_CONCURRENCY") (codes "25"))
            (codes "concurrency"))
          (λ concurrency. ok (record {
            base_url =
                setting args env (codes "base-url") (codes "BASE_URL")
                  (codes "http://localhost:8080");
            orders = orders;
            concurrency = concurrency;
            email =
                setting args env (codes "email") (codes "SEED_USER_EMAIL")
                  (codes "seed@example.com");
            password =
                setting args env (codes "password") (codes "SEED_USER_PASSWORD")
                  (codes "correct-horse-battery-staple");
          })))

abbrev zeros : ℕ → Text
zeros zero = []
zeros (suc n) = b'0' ∷ zeros n

-- `padStart(4, "0")`
abbrev pad_start : Text → Text
pad_start s = zeros (4 - length s) ++ s

unfoldable pub order_body : ℕ → CreateOrder
order_body index = record {
  customer_email = codes "seed-buyer-" ++ (decimal index ++ codes "@example.com");
  items =
      record {
        sku = codes "SEED-" ++ pad_start (decimal (index % 1000));
        quantity = index % 5 + 1;
        unit_price_cents = 500 + index % 200 * 37;
      }
      ∷ record {
        sku = codes "ADDON-" ++ pad_start (decimal (index % 250));
        quantity = 1;
        unit_price_cents = 199;
      }
      ∷ [];
}

-- The shared cursor, the indices that were taken from it, the latest first, and the workers that have
-- returned.
pub record Seeding : Type 0 where
  pub current : ℕ
  pub taken : List ℕ
  pub returned : ℕ → Bool

-- One turn of the loop of a worker up to its request; what the request does plays no part here.
unfoldable pub turn : ℕ → ℕ → Seeding → Seeding
turn orders worker s =
    let index = s.current + 1 in
    if s.returned worker
    then s
    else if ltb orders index
    then record s { current = index; returned = λ other. (other == worker) || s.returned other }
    else record s { current = index; taken = index ∷ s.taken }

-- The turns of the workers, in any order.
abbrev pub turns : ℕ → List ℕ → Seeding → Seeding
turns orders [] s = s
turns orders (worker ∷ schedule) s = turns orders schedule (turn orders worker s)

abbrev pub not_started : Seeding
not_started = record { current = 0; taken = []; returned = λ worker. false }
