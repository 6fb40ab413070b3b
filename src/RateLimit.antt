-- ===== src/RateLimit.antt =====
-- packages/api-service/src/middleware/rate-limit.ts
pub mod Window
use backend_architecture.Prelude.{
  ℕ, ◌+◌, ◌-◌, ◌*◌, ◌/◌, max, Bool, true, false, ◌||◌, Option, none, some, List, [], ◌∷◌, ◌++◌,
  Text, codes, text_eq, starts_with, Exception, Action, pure, ◌>>=◌, ◌>>◌, try_catch, modify, await,
  ltb, ◌==◌, if◌then◌else◌,
}
use backend_architecture.Prelude.Decimal.{decimal}
use backend_architecture.Services.Redis.{Redis}
use backend_architecture.Config.{ApiConfig}
use backend_architecture.ClientIdentity.{Headers, get_client_identifier}

pub record RateContext (W : Type 0) : Type 0 where
  pub config : ApiConfig ℕ
  pub redis : Redis W
  pub warn_once_per_minute : Text → Text → Exception → W → W
  -- `Date.now()`
  pub now_ms : W → ℕ

pub record RateRequest : Type 0 where
  pub url : Text
  pub headers : Headers
  pub ip : Text

-- What the hook adds to the response, and the status and error code if it sends one.
pub record HookReply : Type 0 where
  pub headers : List (Text × Text)
  pub sent : Option (ℕ × Text)

abbrev pub untouched : HookReply
untouched = record { headers = []; sent = none }

unfoldable pub is_exempt : Text → Bool
is_exempt url =
    starts_with (codes "/health") url
    || text_eq url (codes "/metrics")
    || text_eq url (codes "/docs")
    || starts_with (codes "/docs/") url

-- `Math.max(ttl, 1)`
abbrev retry_after_of : Option ℕ → ℕ
retry_after_of none = 1
retry_after_of (some ttl) = max ttl 1

abbrev limit_headers : ℕ → ℕ → ℕ → List (Text × Text)
limit_headers limit count retry_after =
    (codes "X-RateLimit-Limit", decimal limit)
    ∷ (codes "X-RateLimit-Remaining", decimal (limit - count))
    ∷ (codes "X-RateLimit-Reset", decimal retry_after)
    ∷ []

unfoldable pub limit_reply : ℕ → ℕ → Option ℕ → HookReply
limit_reply limit count ttl =
    let retry_after = retry_after_of ttl in
    let headers = limit_headers limit count retry_after in
    if ltb limit count
    then record {
      headers = headers ++ (codes "Retry-After", decimal retry_after) ∷ [];
      sent = some (429, codes "RATE_LIMIT_EXCEEDED");
    }
    else record { headers = headers; sent = none }

module _ {W : Type 0} (ctx : RateContext W) where
  -- `Math.floor(Date.now() / 1000 / windowSeconds)`
  unfoldable pub window_bucket : W → ℕ
  window_bucket w = ctx.now_ms w / (1000 * ctx.config.rate_limit_window_seconds)

  unfoldable pub rate_key : RateRequest → ℕ → Text
  rate_key request bucket =
      codes "rate:"
      ++ (get_client_identifier request.headers request.ip ctx.config
          ++ (codes ":" ++ decimal bucket))

  abbrev set_expiry : Text → ℕ → Action W (Unit {0})
  set_expiry key count =
      if count == 1
      then await (ctx.redis.expire key ctx.config.rate_limit_window_seconds)
      else pure tt

  -- The `try` block.
  unfoldable pub count_request : Text → Action W HookReply
  count_request key = do
    count ← await (ctx.redis.incr key)
    set_expiry key count >>= λ _. await (ctx.redis.ttl key) >>= λ ttl.
        pure (limit_reply ctx.config.rate_limit_requests count ttl)

  unfoldable pub enforce_rate_limit : RateRequest → Action W HookReply
  enforce_rate_limit request w =
      if is_exempt request.url
      then (pure untouched) w
      else try_catch (count_request (rate_key request (window_bucket w)))
          (λ error.
            modify (
              ctx.warn_once_per_minute (codes "rate-limit")
                (codes "Rate limit storage unavailable; failing open") error)
            >>= λ _. pure untouched)
          w
