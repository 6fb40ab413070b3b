-- ===== src/Services/Memory.antt =====
-- A Redis that holds its keys in memory and always answers after one millisecond: the documented
-- behaviour can be met. Tests run on it.
use backend_architecture.Prelude.{
  ℕ, ◌+◌, ◌≡◌, ◌≢◌, refl, Bool, true, false, Option, none, some, Text, text_eq, text_eq_iff,
  text_eq_refl, ok, Pending, arith, if◌then◌else◌,
}
use backend_architecture.Prelude.Decimal.{scan, decimal, scan-decimal}
use backend_architecture.Services.Redis.{Redis, IsRedis}

abbrev pub Store : Type 0
Store = Text → Option Text

abbrev pub update : Text → Option Text → Store → Store
update k v w j = if text_eq k j then v else w j

abbrev pub cell : Store → Text → Option Text
cell w k = w k

abbrev answered : {A : Type 0} → A → Pending A
answered a = record { result = ok a; delay_ms = 1 }

-- The number under a key, for `INCR`.
abbrev counted : Option Text → ℕ
counted none = 0
counted (some s) = scan s 0

abbrev set_nx : Text → Text → Option Text → Store → Pending Bool × Store
set_nx k v none w = (answered true, update k (some v) w)
set_nx k v (some u) w = (answered false, w)

abbrev pub memory : Redis Store
memory = record {
  get = λ k w. (answered (w k), w);
  set_ex = λ k v n w. (answered tt, update k (some v) w);
  set_ex_nx = λ k v n w. set_nx k v (w k) w;
  del = λ k w. (answered tt, update k none w);
  incr = λ k w. (answered (counted (w k) + 1), update k (some (decimal (counted (w k) + 1))) w);
  expire = λ k n w. (answered tt, w);
  ttl = λ k w. (answered (some 60), w);
}

update_self : (k : Text) (v : Option Text) (w : Store) → update k v w k ≡ v
update_self k v w = rw (text_eq_refl k)

update_ne : (k j : Text) (v : Option Text) (w : Store) → j ≢ k → update k v w j ≡ w j
update_ne k j v w h = ground (arith, text_eq_iff k j)

nx_taken :
    (k v : Text) (n : ℕ) (w : Store)
    → (memory.set_ex_nx k v n w).0.result ≡ ok true
    → (w k ≡ none) × ((memory.set_ex_nx k v n w).1 k ≡ some v)
nx_taken k v n w h = ground (arith, text_eq_refl k)

nx_held :
    (k v : Text) (n : ℕ) (w : Store)
    → (memory.set_ex_nx k v n w).0.result ≡ ok false
    → (w k ≢ none) × ((memory.set_ex_nx k v n w).1 k ≡ w k)
nx_held k v n w h = ground arith

nx_keeps : (k j v : Text) (n : ℕ) (w : Store) → j ≢ k → (memory.set_ex_nx k v n w).1 j ≡ w j
nx_keeps k j v n w h = ground (arith, update_ne k j (some v) w h)

incr_new :
    (k : Text) (w : Store) (n : ℕ)
    → (memory.incr k w).0.result ≡ ok n
    → w k ≡ none
    → (n ≡ 1) × ((memory.incr k w).1 k ≡ some (decimal 1))
incr_new k w n h new = ground (arith, text_eq_refl k)

incr_old :
    (k : Text) (w : Store) (n m : ℕ)
    → (memory.incr k w).0.result ≡ ok n
    → w k ≡ some (decimal m)
    → (n ≡ m + 1) × ((memory.incr k w).1 k ≡ some (decimal (m + 1)))
incr_old k w n m h old = ground (arith, text_eq_refl k, scan-decimal m)

pub memory-IsRedis : IsRedis memory cell
memory-IsRedis = record {
  get_value = λ k w o h. cc;
  get_keeps = λ k j w. refl;
  set_value = λ k v n w h. update_self k (some v) w;
  set_keeps = λ k j v n w h. update_ne k j (some v) w h;
  nx_taken = nx_taken;
  nx_held = nx_held;
  nx_keeps = nx_keeps;
  del_value = λ k w h. update_self k none w;
  del_keeps = λ k j w h. update_ne k j none w h;
  incr_new = incr_new;
  incr_old = incr_old;
  incr_keeps = λ k j w h. update_ne k j _ w h;
  expire_keeps = λ k j n w. refl;
  ttl_keeps = λ k j w. refl;
}
