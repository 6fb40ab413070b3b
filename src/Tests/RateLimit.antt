-- ===== src/Tests/RateLimit.antt =====
-- The theorems on the rate limit, each at one input.
use backend_architecture.Prelude.{◌≡◌, refl, none, some, [], ◌∷◌, codes}
use backend_architecture.Services.Memory.{Store, cell, memory, memory-IsRedis}
use backend_architecture.RateLimit.{RateContext, RateRequest, is_exempt, window_bucket}
use backend_architecture.RateLimit.Window.{serve, admitted, Stays, serve-admitted}
use backend_architecture.Tests.Fixtures.{config, empty}

-- Two requests are admitted in a window of a minute.
abbrev limiter : RateContext Store
limiter = record {
  config = config;
  redis = memory;
  warn_once_per_minute = λ key message error w. w;
  now_ms = λ w. 5000;
}

abbrev login : RateRequest
login = record { url = codes "/v1/auth/login"; headers = λ name. none; ip = codes "10.0.0.1" }

abbrev pause : Store → Store
pause w = w

serve-admitted_example :
    admitted limiter cell memory-IsRedis login
      (serve limiter cell memory-IsRedis login (pause ∷ pause ∷ pause ∷ []) empty)
    ≡ 2
unfolding is_exempt window_bucket
serve-admitted_example =
    serve-admitted limiter cell memory-IsRedis login 0 0 (pause ∷ pause ∷ pause ∷ []) empty
      ((λ k w. (_, refl)), (λ k n w. refl), λ k w. (some 60, refl)) refl (calm, (calm, (calm, tt)))
      refl
  where
    calm : Stays limiter cell memory-IsRedis login 0 pause
    calm w = (refl, refl)
