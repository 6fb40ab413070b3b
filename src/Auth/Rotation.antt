-- ===== src/Auth/Rotation.antt =====
-- packages/api-service/src/routes/auth.routes.ts: a refresh token is good for one rotation.
use mathlib.Core.Path.{subst}
use backend_architecture.Prelude.{
  ◌+◌, ◌*◌, Option-cases, inl, inr, ◌≡◌, refl, ◌∙◌, ap, true, false, some, List, [], ◌∷◌, Text,
  text_eq, text_eq_iff, text_eq_refl, Result, ok, arith, leb, Result-cases, Bool-cases, inl, inr,
}
use backend_architecture.Services.Postgres.{IsPool}
use backend_architecture.Auth.{
  User, RefreshToken, AuthTables, find_user, find_token, has_token, select_token, insert_token,
  revoke_where, revoke_token, revoke_user, AuthContext, TokenPair, RefreshReply, refreshed,
  create_tokens, refresh, refresh_found,
}

-- The token of the hash is revoked.
abbrev pub IsRevoked : Text → List RefreshToken → Type 0
IsRevoked hash tokens =
    (token : RefreshToken) × (find_token hash tokens ≡ some token) × (token.is_revoked ≡ true)

revoke_token-IsRevoked :
    (hash : Text) (token : RefreshToken) (tokens : List RefreshToken)
    → find_token hash tokens ≡ some token
    → IsRevoked hash (revoke_where (λ t. text_eq t.id token.id) tokens)
revoke_token-IsRevoked hash token [] found = cc
revoke_token-IsRevoked hash token (t ∷ tokens) found =
    elim (Bool-cases (text_eq t.token_hash hash)) [
      | inl here ↦
          let same : t ≡ token = ground arith in
          let self : text_eq t.id token.id ≡ true = rw same (text_eq_refl token.id) in
          (record t { is_revoked = true }, ground arith, refl)
      | inr other ↦
          let (r, there, revoked) = revoke_token-IsRevoked hash token tokens (ground arith) in
          (r, ground arith, revoked)
    ]

hash_new :
    (id hash new : Text) (token : RefreshToken) (tokens : List RefreshToken)
    → find_token hash tokens ≡ some token
    → has_token id new tokens ≡ false
    → text_eq new hash ≡ false
hash_new id hash new token [] found fresh = cc
hash_new id hash new token (t ∷ tokens) found fresh =
    elim (Bool-cases (text_eq t.token_hash hash)) [
      | inl here ↦
          ground (
            arith,
            text_eq_iff t.token_hash hash,
            text_eq_iff new hash,
            text_eq_iff t.token_hash new,
          )
      | inr other ↦ hash_new id hash new token tokens (ground arith) (ground arith)
    ]

module _ {W : Type 0} (ctx : AuthContext W) (tables : W → AuthTables)
    (laws : IsPool ctx.pool tables)
    (token_keeps : (w : W) → tables (ctx.new_refresh_token w).1 ≡ tables w)
    (uuid_keeps : (w : W) → tables (ctx.random_uuid w).1 ≡ tables w) where
  create_tokens-IsRevoked :
      (hash : Text) (user : User) (w : W) (pair : TokenPair)
      → IsRevoked hash (tables w).refresh_tokens
      → (create_tokens ctx user w).0 ≡ ok pair
      → IsRevoked hash (tables (create_tokens ctx user w).1).refresh_tokens
  unfolding create_tokens insert_token
  create_tokens-IsRevoked hash user w pair (token, found, revoked) done =
      let (refresh_token, w1) = ctx.new_refresh_token w in
      let (id, w2) = ctx.random_uuid w1 in
      let new = ctx.hash_token refresh_token in
      let q =
        insert_token id user.id new (ctx.now_ms w2 + ctx.config.refresh_token_ttl_seconds * 1000) in
      let w3 = (ctx.pool.query q w2).1 in
      let kept : tables w2 ≡ tables w = uuid_keeps w1 ∙ token_keeps w in
      elim (Result-cases (ctx.pool.query q w2).0) [
        | inl (_, inserted) ↦
            let e = laws.query_ok q w2 tt inserted in
            let old : find_token hash (tables w2).refresh_tokens ≡ some token = rw kept found in
            let fresh : has_token id new (tables w2).refresh_tokens ≡ false = ground arith in
            let apart = hash_new id hash new token (tables w2).refresh_tokens old fresh in
            (token, ground arith, revoked)
        | inr (x, failed) ↦ absurd (ground arith)
      ]

  refresh_found-IsRevoked :
      (hash : Text) (token : RefreshToken) (email : Text) (w : W) (pair : TokenPair)
      → find_token hash (tables w).refresh_tokens ≡ some token
      → (refresh_found ctx (some (token, email)) w).0 ≡ ok (refreshed pair)
      → IsRevoked hash (tables (refresh_found ctx (some (token, email)) w).1).refresh_tokens
  unfolding revoke_token
  refresh_found-IsRevoked hash token email w pair found done =
      let user : User = record { id = token.user_id; email = email } in
      let q = revoke_token token.id in
      let w1 = (ctx.pool.query q w).1 in
      elim (Bool-cases (leb token.expires_at (ctx.now_ms w))) [
        | inl late ↦ absurd (ground arith)
        | inr live ↦ elim (Bool-cases token.is_revoked) [
          | inl used ↦ elim (Result-cases (ctx.pool.query (revoke_user token.user_id) w).0) [
            | inl (_, told) ↦ absurd (ground arith)
            | inr (x, failed) ↦ absurd (ground arith)
          ]
          | inr unused ↦ elim (Result-cases (ctx.pool.query q w).0) [
            | inr (x, failed) ↦ absurd (ground arith)
            | inl (_, revoked) ↦
                let e = laws.query_ok q w tt revoked in
                let t : revoke_where (λ t. text_eq t.id token.id) (tables w).refresh_tokens
                    ≡ (tables w1).refresh_tokens =
                  ground arith in
                let k : IsRevoked hash (tables w1).refresh_tokens =
                  subst (IsRevoked hash) t
                    (revoke_token-IsRevoked hash token (tables w).refresh_tokens found) in
                elim (Result-cases (create_tokens ctx user w1).0) [
                  | inr (x, failed) ↦ absurd (ground arith)
                  | inl (p, made) ↦
                      let end : (create_tokens ctx user w1).1
                          ≡ (refresh_found ctx (some (token, email)) w).1 =
                        ground arith in
                      subst (λ (v : W). IsRevoked hash (tables v).refresh_tokens) end
                        (create_tokens-IsRevoked hash user w1 p k made)
                ]
          ]
        ]
      ]

  selected :
      (hash : Text) (w : W) (token : RefreshToken) (email : Text)
      → (ctx.pool.query (select_token hash) w).0 ≡ ok (some (token, email))
      → find_token hash (tables (ctx.pool.query (select_token hash) w).1).refresh_tokens
        ≡ some token
  unfolding select_token
  selected hash w token email read =
      let e = laws.query_ok (select_token hash) w (some (token, email)) read in
      elim (Option-cases (find_token hash (tables w).refresh_tokens)) [
        | inl missing ↦ absurd (ground arith)
        | inr (t, there) ↦ elim (Option-cases (find_user t.user_id (tables w).users)) [
          | inl unknown ↦ absurd (ground arith)
          | inr (u, known) ↦ ground arith
        ]
      ]

  -- When the route answers a refresh token with a new pair, the token is in the table and revoked
  -- afterwards. The making of random values leaves the tables alone.
  pub refresh-IsRevoked :
      (refresh_token : Text) (pair : TokenPair) (w : W)
      → (refresh ctx refresh_token w).0 ≡ ok (refreshed pair)
      → IsRevoked
          (ctx.hash_token refresh_token)
          (tables (refresh ctx refresh_token w).1).refresh_tokens
  unfolding refresh
  refresh-IsRevoked refresh_token pair w done =
      let hash = ctx.hash_token refresh_token in
      let q = select_token hash in
      let w1 = (ctx.pool.query q w).1 in
      elim (Result-cases (ctx.pool.query q w).0) [
        | inr (x, failed) ↦ absurd (ground arith)
        | inl (o, read) ↦ elim (Option-cases o) [
          | inl missing ↦ absurd (ground arith)
          | inr ((token, email), there) ↦
              let e : refresh_found ctx (some (token, email)) w1 ≡ refresh ctx refresh_token w =
                ground arith in
              let got = selected hash w token email (read ∙ ap ok there) in
              subst (λ (p : Result RefreshReply × W). IsRevoked hash (tables p.1).refresh_tokens) e
                (refresh_found-IsRevoked hash token email w1 pair got (ap (λ p. p.0) e ∙ done))
        ]
      ]
