-- ===== src/Idempotency.antt =====
-- packages/api-service/src/utils/idempotency.ts. `P` is the type of the bodies that processors send,
-- `Q` that of validated request bodies.
pub mod Attempt
pub mod Replay
pub mod Release
pub mod Rounds
use backend_architecture.Prelude.{
  ℕ, suc, ◌+◌, Bool, true, false, ◌&&◌, ◌||◌, Option, none, some, List, [], ◌∷◌, ◌++◌, Text, codes,
  before, Exception, Result, ok, err, Action, pure, throw, ◌>>=◌, ◌>>◌, try_catch, await, length,
  all, ltb, leb, ◌==◌, if◌then◌else◌, text_eq, ◌*◌,
}
use backend_architecture.Prelude.Decimal.{is_digit}
use backend_architecture.Services.Redis.{Redis}
use backend_architecture.Services.Json.{Json}

abbrev pub max_stored_body_bytes : ℕ
max_stored_body_bytes = 64 * 1024

abbrev pub completed_ttl_seconds : ℕ
completed_ttl_seconds = 86400

abbrev pub processing_ttl_seconds : ℕ
processing_ttl_seconds = 60

-- `request.headers["idempotency-key"]`
pub data HeaderValue : Type 0 where
  absent : HeaderValue
  single : Text → HeaderValue
  several : List Text → HeaderValue

unfoldable pub read_idempotency_key : HeaderValue → Option Text
read_idempotency_key absent = none
read_idempotency_key (single []) = none
read_idempotency_key (single (c ∷ s)) = some (c ∷ s)
read_idempotency_key (several []) = none
read_idempotency_key (several (x ∷ xs)) = some x

-- `[A-Za-z0-9_-]`
abbrev is_key_char : ℕ → Bool
is_key_char c =
    (leb b'A' c && leb c b'Z')
    || (leb b'a' c && leb c b'z')
    || is_digit c
    || (c == b'_')
    || (c == b'-')

unfoldable pub idempotency_key_regex : Text → Bool
idempotency_key_regex key = leb 8 (length key) && leb (length key) 128 && all is_key_char key

pub data RecordState : Type 0 where
  in_progress completed : RecordState

-- A body that is sent: the processor's, or the error object with its code.
pub data Body (P : Type 0) : Type 0 where
  payload : P → Body P
  api_error : Text → Body P

-- `none` is a field that is undefined.
pub record StoredRecord (P : Type 0) : Type 0 where
  pub state : RecordState
  pub request_hash : Text
  pub status : Option ℕ
  pub body : Option (Body P)

pub record IdempotencyResult (P : Type 0) : Type 0 where
  pub status : ℕ
  pub body : Option (Body P)

-- What the hash reads of the request; `route` is `request.routeOptions?.url`.
pub record HashedRequest : Type 0 where
  pub method : Text
  pub route : Option Text
  pub url : Text

-- `sha256_hex` is `createHash("sha256")` and `canonical` is `JSON.stringify({ method, route, body })`.
pub record Hashing (Q : Type 0) : Type 0 where
  pub sha256_hex : Text → Text
  pub canonical : Text → Text → Q → Text

abbrev route_of : Option Text → Text → Text
route_of none url = before b'?' url
route_of (some route) url = route

unfoldable pub canonical_request_hash : {Q : Type 0} → Hashing Q → HashedRequest → Q → Text
canonical_request_hash h request body =
    h.sha256_hex (h.canonical request.method (route_of request.route request.url) body)

unfoldable pub build_redis_key : Text → Text → Text → Text
build_redis_key scope user_id key =
    codes "idempotency:" ++ (scope ++ (codes ":" ++ (user_id ++ (codes ":" ++ key))))

-- `Buffer.byteLength(s, "utf8")`
abbrev char_bytes : ℕ → ℕ
char_bytes c = if ltb c 128 then 1 else if ltb c 2048 then 2 else 3

abbrev pub byte_length : Text → ℕ
byte_length [] = 0
byte_length (c ∷ s) = char_bytes c + byte_length s

abbrev pub conflict : {P : Type 0} → IdempotencyResult P
conflict = record { status = 409; body = some (api_error (codes "IDEMPOTENCY_KEY_CONFLICT")) }

abbrev pub request_in_progress : {P : Type 0} → IdempotencyResult P
request_in_progress = record {
  status = 409;
  body = some (api_error (codes "IDEMPOTENT_REQUEST_IN_PROGRESS"));
}

abbrev pub invalid_key : {P : Type 0} → IdempotencyResult P
invalid_key = record { status = 400; body = some (api_error (codes "INVALID_IDEMPOTENCY_KEY")) }

-- `parsed.status ?? 200`
abbrev status_or_200 : Option ℕ → ℕ
status_or_200 none = 200
status_or_200 (some n) = n

abbrev finished : {P : Type 0} → RecordState → StoredRecord P → IdempotencyResult P
finished in_progress r = request_in_progress
finished completed r = record { status = status_or_200 r.status; body = r.body }

-- The end of `readExistingRecord`, on the record that was parsed.
unfoldable pub replay_of : {P : Type 0} → StoredRecord P → Text → IdempotencyResult P
replay_of r request_hash =
    if text_eq r.request_hash request_hash then finished r.state r else conflict
