-- ===== src/Services/Json.antt =====
-- `JSON.stringify` and `JSON.parse` at a type of values; `none` is a `SyntaxError`.
use backend_architecture.Prelude.{◌≡◌, Option, some, Text}

pub record Json (T : Type 0) : Type 0 where
  pub stringify : T → Text
  pub parse : Text → Option T

-- Values of the type are read back as they were written.
abbrev pub IsJson : {T : Type 0} → Json T → Type 0
IsJson {T} j = (x : T) → j.parse (j.stringify x) ≡ some x
