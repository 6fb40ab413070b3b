-- ===== src/Tests/Routes.antt =====
-- The theorem on warnings at one input.
use backend_architecture.Prelude.{ℕ, ◌≡◌, refl, [], ◌∷◌, codes, ok}
use backend_architecture.SystemRoutes.{ready}
use backend_architecture.Cache.Primitives.{with_timeout}
use backend_architecture.WarnOnce.{
  IsSpaced, warn_each, create_warn_once_per_minute, warn_each-IsSpaced,
}

warn_each-IsSpaced_example :
    IsSpaced
      (warn_each
        ((codes "k", (codes "m", 100000))
          ∷ (codes "k", (codes "m", 120000))
          ∷ (codes "k", (codes "m", 170000))
          ∷ [])
        create_warn_once_per_minute).logged
warn_each-IsSpaced_example = warn_each-IsSpaced (
    (codes "k", (codes "m", 100000))
    ∷ (codes "k", (codes "m", 120000))
    ∷ (codes "k", (codes "m", 170000))
    ∷ [])

-- The database answers, and Redis does not.
redis_down :
    (ready {W = ℕ}
      (λ w. (record { result = ok tt; delay_ms = 3 }, w))
      (λ w. (record { result = ok tt; delay_ms = 900 }, w))
      200
      0).0.status
    ≡ 200
unfolding ready with_timeout
redis_down = refl
