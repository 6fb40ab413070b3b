-- ===== src/Services/Postgres.antt =====
-- The Postgres client, and its documented behaviour. `T` is the type of the tables; a statement, read
-- off its SQL text, gives its result and the tables after it, or an error such as a violated
-- constraint.
use backend_architecture.Prelude.{◌≡◌, ◌⊎◌, Exception, Result, ok, err, Action}

abbrev pub Statement : Type 0 → Type 0 → Type 0
Statement T A = T → Result (A × T)

-- `pool.query`: one statement, committed by itself.
pub record Pool (W T : Type 0) : Type 1 where
  pub query : {A : Type 0} → Statement T A → Action W A

-- `tables w` are the committed tables. A query that succeeds has run its statement on them. One that
-- fails has changed nothing, or has run although its answer was lost.
pub record IsPool {W T : Type 0} (pool : Pool W T) (tables : W → T) : Type 1 where
  pub query_ok :
      {A : Type 0} (q : Statement T A) (w : W) (a : A)
      → (pool.query q w).0 ≡ ok a
      → q (tables w) ≡ ok (a, tables (pool.query q w).1)
  pub query_err :
      {A : Type 0} (q : Statement T A) (w : W) (e : Exception)
      → (pool.query q w).0 ≡ err e
      → (tables (pool.query q w).1 ≡ tables w)
        ⊎ ((a : A) × (q (tables w) ≡ ok (a, tables (pool.query q w).1)))

-- A connection that is checked out for a transaction.
pub record Client (W T : Type 0) : Type 1 where
  pub begin : Action W (Unit {0})
  pub execute : {A : Type 0} → Statement T A → Action W A
  pub commit : Action W (Unit {0})
  pub rollback : Action W (Unit {0})

-- `committed w` is what every session sees and `working w` what the transaction sees. A statement runs
-- on the working tables alone, and one that fails leaves them, or puts back the committed ones, the
-- transaction being aborted; `COMMIT` publishes them, and if it fails they are published or not;
-- `ROLLBACK` publishes nothing.
pub record IsClient {W T : Type 0} (client : Client W T) (committed working : W → T) : Type 1 where
  pub begin_ok :
      (w : W)
      → (client.begin w).0 ≡ ok tt
      → (working (client.begin w).1 ≡ committed w) × (committed (client.begin w).1 ≡ committed w)
  pub begin_err :
      (w : W) (e : Exception)
      → (client.begin w).0 ≡ err e
      → committed (client.begin w).1 ≡ committed w
  pub execute_ok :
      {A : Type 0} (q : Statement T A) (w : W) (a : A)
      → (client.execute q w).0 ≡ ok a
      → q (working w) ≡ ok (a, working (client.execute q w).1)
  pub execute_err :
      {A : Type 0} (q : Statement T A) (w : W) (e : Exception)
      → (client.execute q w).0 ≡ err e
      → (working (client.execute q w).1 ≡ working w)
        ⊎ (working (client.execute q w).1 ≡ committed w)
  pub execute_keeps :
      {A : Type 0} (q : Statement T A) (w : W) → committed (client.execute q w).1 ≡ committed w
  pub commit_ok : (w : W) → (client.commit w).0 ≡ ok tt → committed (client.commit w).1 ≡ working w
  pub commit_err :
      (w : W) (e : Exception)
      → (client.commit w).0 ≡ err e
      → (committed (client.commit w).1 ≡ committed w) ⊎ (committed (client.commit w).1 ≡ working w)
  pub rollback_keeps : (w : W) → committed (client.rollback w).1 ≡ committed w
