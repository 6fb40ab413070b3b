-- ===== src/Shared/Env.antt =====
-- packages/shared/src/index.ts: the readers of environment variables.
use backend_architecture.Prelude.{
  ℕ, Bool, Option, none, some, [], ◌++◌, Text, codes, text_eq, trim, to_lower, Exception, Result,
  ok, err, if◌then◌else◌,
}
use backend_architecture.Prelude.Decimal.{Number, nan, whole, negative, parse_int}

-- `process.env`
abbrev pub Env : Type 0
Env = Text → Option Text

-- `value.trim() === ""`, which an empty value passes too
abbrev pub is_blank : Text → Bool
is_blank s = text_eq (trim s) []

abbrev pub env_error : Text → Text → Exception
env_error what name = record { code = none; message = what ++ name }

abbrev require : Text → Option Text → Result Text
require name none = err (env_error (codes "Missing required environment variable: ") name)
require name (some value) =
    if is_blank value
    then err (env_error (codes "Missing required environment variable: ") name)
    else ok value

unfoldable pub required_env : Env → Text → Result Text
required_env env name = require name (env name)

abbrev finite : Text → Number → Result Number
finite name nan = err (env_error (codes "Invalid integer environment variable: ") name)
finite name (whole n) = ok (whole n)
finite name (negative n) = ok (negative n)

abbrev optional_int : Text → ℕ → Option Text → Result Number
optional_int name default none = ok (whole default)
optional_int name default (some raw) =
    if is_blank raw then ok (whole default) else finite name (parse_int raw)

unfoldable pub optional_int_env : Env → Text → ℕ → Result Number
optional_int_env env name default = optional_int name default (env name)

abbrev optional_bool : Bool → Option Text → Bool
optional_bool default none = default
optional_bool default (some raw) =
    if is_blank raw then default else text_eq (to_lower raw) (codes "true")

unfoldable pub optional_bool_env : Env → Text → Bool → Bool
optional_bool_env env name default = optional_bool default (env name)
