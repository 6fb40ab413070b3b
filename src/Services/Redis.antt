-- ===== src/Services/Redis.antt =====
-- The Redis commands that the sources send, and their documented behaviour.
use backend_architecture.Prelude.{
  ℕ, ◌+◌, ◌≡◌, ◌≢◌, Bool, true, false, Option, none, some, Text, ok, Pending,
}
use backend_architecture.Prelude.Decimal.{decimal}

pub record Redis (W : Type 0) : Type 0 where
  pub get : Text → W → Pending (Option Text) × W
  -- `SET key value EX seconds`
  pub set_ex : Text → Text → ℕ → W → Pending (Unit {0}) × W
  -- `SET key value EX seconds NX`: true for the reply "OK", false for null
  pub set_ex_nx : Text → Text → ℕ → W → Pending Bool × W
  pub del : Text → W → Pending (Unit {0}) × W
  pub incr : Text → W → Pending ℕ × W
  pub expire : Text → ℕ → W → Pending (Unit {0}) × W
  -- the seconds left; `none` is a negative reply, where the key or its expiry is missing
  pub ttl : Text → W → Pending (Option ℕ) × W

-- `cell w k` is the live value of the key `k`. A command that succeeds does what Redis documents, and
-- no command, failed or not, changes another key. A key does not expire while a command runs.
pub record IsRedis {W : Type 0} (r : Redis W) (cell : W → Text → Option Text) : Type 0 where
  pub get_value : (k : Text) (w : W) (o : Option Text) → (r.get k w).0.result ≡ ok o → o ≡ cell w k
  pub get_keeps : (k j : Text) (w : W) → cell (r.get k w).1 j ≡ cell w j
  pub set_value :
      (k v : Text) (n : ℕ) (w : W)
      → (r.set_ex k v n w).0.result ≡ ok tt
      → cell (r.set_ex k v n w).1 k ≡ some v
  pub set_keeps : (k j v : Text) (n : ℕ) (w : W) → j ≢ k → cell (r.set_ex k v n w).1 j ≡ cell w j
  pub nx_taken :
      (k v : Text) (n : ℕ) (w : W)
      → (r.set_ex_nx k v n w).0.result ≡ ok true
      → (cell w k ≡ none) × (cell (r.set_ex_nx k v n w).1 k ≡ some v)
  pub nx_held :
      (k v : Text) (n : ℕ) (w : W)
      → (r.set_ex_nx k v n w).0.result ≡ ok false
      → (cell w k ≢ none) × (cell (r.set_ex_nx k v n w).1 k ≡ cell w k)
  pub nx_keeps : (k j v : Text) (n : ℕ) (w : W) → j ≢ k → cell (r.set_ex_nx k v n w).1 j ≡ cell w j
  pub del_value : (k : Text) (w : W) → (r.del k w).0.result ≡ ok tt → cell (r.del k w).1 k ≡ none
  pub del_keeps : (k j : Text) (w : W) → j ≢ k → cell (r.del k w).1 j ≡ cell w j
  -- `INCR` counts from 0 where the key is missing, and stores a decimal numeral.
  pub incr_new :
      (k : Text) (w : W) (n : ℕ)
      → (r.incr k w).0.result ≡ ok n
      → cell w k ≡ none
      → (n ≡ 1) × (cell (r.incr k w).1 k ≡ some (decimal 1))
  pub incr_old :
      (k : Text) (w : W) (n m : ℕ)
      → (r.incr k w).0.result ≡ ok n
      → cell w k ≡ some (decimal m)
      → (n ≡ m + 1) × (cell (r.incr k w).1 k ≡ some (decimal (m + 1)))
  pub incr_keeps : (k j : Text) (w : W) → j ≢ k → cell (r.incr k w).1 j ≡ cell w j
  pub expire_keeps : (k j : Text) (n : ℕ) (w : W) → cell (r.expire k n w).1 j ≡ cell w j
  pub ttl_keeps : (k j : Text) (w : W) → cell (r.ttl k w).1 j ≡ cell w j
