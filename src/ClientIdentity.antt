-- ===== src/ClientIdentity.antt =====
-- packages/api-service/src/utils/client-identity.ts
use backend_architecture.Prelude.{
  ℕ, Option, none, some, [], ◌∷◌, ◌++◌, Text, codes, text_eq, before, trim, take, if◌then◌else◌,
}
use backend_architecture.Config.{ApiConfig}

-- A request's headers; `none` is a header that is missing or not a single string.
abbrev pub Headers : Type 0
Headers = Text → Option Text

-- `typeof value === "string" && value.trim()`: the trimmed value, where it is a string and not blank
abbrev pub filled : Option Text → Option Text
filled none = none
filled (some value) = if text_eq (trim value) [] then none else some (trim value)

-- `a || b` on strings
abbrev or_text : Text → Text → Text
or_text [] b = b
or_text (c ∷ s) b = c ∷ s

abbrev forwarded : Option Text → Text → Text
forwarded none ip = ip
forwarded (some value) ip =
    if text_eq (trim value) [] then ip else or_text (trim (before b',' value)) ip

abbrev load_test : Option Text → Text → Text
load_test none other = other
load_test (some trimmed) other = codes "load-test:" ++ take 128 trimmed

unfoldable pub get_client_identifier : Headers → Text → ApiConfig ℕ → Text
get_client_identifier headers ip config =
    let by_address = forwarded (headers (codes "x-forwarded-for")) ip in
    if config.allow_load_test_client_identity
    then load_test (filled (headers config.load_test_client_id_header)) by_address
    else by_address
