-- ===== src/Tests/Databases.antt =====
-- A Postgres that holds its tables in memory: the documented behaviour can be met.
use backend_architecture.Prelude.{◌≡◌, inl, inr, Result, ok, err, arith, Result-cases}
use backend_architecture.Services.Postgres.{IsPool, Pool}

module _ {W T : Type 0} (committed : W → T) (set_committed : T → W → W) where
  abbrev outcome_of : {A : Type 0} → Result (A × T) → W → Result A × W
  outcome_of (ok (a, t)) w = (ok a, set_committed t w)
  outcome_of (err e) w = (err e, w)

  -- Every statement is committed by itself.
  abbrev pub pool_of : Pool W T
  pool_of = record { query = λ q w. outcome_of (q (committed w)) w }

  pub pool_of-IsPool :
      ((t : T) (w : W) → committed (set_committed t w) ≡ t) → IsPool pool_of committed
  pool_of-IsPool kept = record {
    query_ok = λ q w a h. elim (Result-cases (q (committed w))) [
      | inl ((b, t), e) ↦ let k = kept t w in ground arith
      | inr (x, e) ↦ ground arith
    ];
    query_err = λ q w x h. elim (Result-cases (q (committed w))) [
      | inl ((b, t), e) ↦ absurd (ground arith)
      | inr (y, e) ↦ inl (ground arith)
    ];
  }
