-- ===== src/Tests/Auth.antt =====
-- The theorems on refresh tokens, each at one input.
use backend_architecture.Prelude.{
  ◌≡◌, refl, inl, true, false, some, [], ◌∷◌, codes, Result, ok, err, arith, Result-cases, inr,
  none,
}
use backend_architecture.Services.Postgres.{Pool, IsPool}
use backend_architecture.Auth.{
  Account, RefreshToken, AuthTables, AuthContext, refresh, refresh_token_reused, select_token,
  revoke_user, revoke_token, create_tokens, insert_token,
}
use backend_architecture.Auth.Rotation.{IsRevoked, refresh-IsRevoked}
use backend_architecture.Auth.Reuse.{IsSignedOut, refresh-IsSignedOut}
use backend_architecture.Tests.Fixtures.{config}

abbrev settle : {A : Type 0} → Result (A × AuthTables) → AuthTables → Result A × AuthTables
settle (ok (a, t)) w = (ok a, t)
settle (err e) w = (err e, w)

abbrev pool : Pool AuthTables AuthTables
pool = record { query = λ q w. settle (q w) w }

pool-IsPool : IsPool pool (λ w. w)
pool-IsPool = record {
  query_ok = λ q w a h. elim (Result-cases (q w)) [
    | inl ((b, t), e) ↦ ground arith
    | inr (x, e) ↦ ground arith
  ];
  query_err = λ q w x h. elim (Result-cases (q w)) [
    | inl ((b, t), e) ↦ absurd (ground arith)
    | inr (y, e) ↦ inl (ground arith)
  ];
}

abbrev auth : AuthContext AuthTables
auth = record {
  config = config;
  pool = pool;
  sign = λ user w. user.email;
  hash_token = λ s. s;
  new_refresh_token = λ w. (codes "new", w);
  random_uuid = λ w. (codes "id", w);
  now_ms = λ w. 1000;
}

abbrev ann : Account
ann = record {
  id = codes "u";
  email = codes "ann@example.com";
  password_hash = codes "correct horse";
  locked_until = none;
  failed_login_count = 0;
}

abbrev used : RefreshToken
used = record {
  id = codes "1";
  user_id = codes "u";
  token_hash = codes "old";
  is_revoked = true;
  expires_at = 5000;
}

-- The token was rotated once, and its successor is still good.
abbrev rotated : AuthTables
rotated = record {
  users = ann ∷ [];
  refresh_tokens =
      record used { id = codes "2"; token_hash = codes "next"; is_revoked = false } ∷ used ∷ [];
}

refresh-IsSignedOut_example :
    ((refresh auth (codes "old") rotated).0 ≡ ok refresh_token_reused)
    × IsSignedOut (codes "u") (refresh auth (codes "old") rotated).1.refresh_tokens
unfolding select_token revoke_user
refresh-IsSignedOut_example =
    refresh-IsSignedOut auth (λ w. w) pool-IsPool (codes "old") used ann rotated refl refl refl
      (omega arith) (some (used, codes "ann@example.com")) refl refl

-- Before the rotation.
abbrev signed_in : AuthTables
signed_in = record { users = ann ∷ []; refresh_tokens = record used { is_revoked = false } ∷ [] }

refresh-IsRevoked_example :
    IsRevoked (codes "old") (refresh auth (codes "old") signed_in).1.refresh_tokens
unfolding refresh select_token revoke_token create_tokens insert_token
refresh-IsRevoked_example =
    refresh-IsRevoked auth (λ w. w) pool-IsPool (λ w. refl) (λ w. refl) (codes "old")
      (record { access_token = codes "ann@example.com"; refresh_token = codes "new" }) signed_in
      refl
