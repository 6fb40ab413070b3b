-- ===== src/Cache/Key.antt =====
-- packages/api-service/src/utils/cache.ts: the construction of cache keys.
-- A query object is a list of its entries; `none` is a value that is undefined or null, and `some` the
-- text that `String(raw)` gives.
pub mod Versions
pub mod LastEntry
use backend_architecture.Prelude.{
  ℕ, suc, ◌+◌, ◌-◌, ◌*◌, ◌/◌, ◌%◌, Bool, true, false, ◌&&◌, ◌||◌, Option, none, some, List, [], ◌∷◌,
  ◌++◌, map, Text, codes, text_eq, join, ltb, leb, ◌==◌, if◌then◌else◌,
}
use backend_architecture.Prelude.Decimal.{decimal, is_digit}

abbrev pub Query : Type 0
Query = List (Text × Option Text)

abbrev is_letter : ℕ → Bool
is_letter c = (leb b'A' c && leb c b'Z') || (leb b'a' c && leb c b'z')

-- The characters that `encodeURIComponent` leaves alone: letters, digits and - _ . ! ~ * ' ( )
is_unreserved : ℕ → Bool
is_unreserved c =
    is_letter c
    || is_digit c
    || (c == b'-')
    || (c == b'_')
    || (c == b'.')
    || (c == b'!')
    || (c == b'~')
    || (leb 39 c && leb c 42)

hex : ℕ → ℕ
hex d = if ltb d 10 then b'0' + d else b'A' + (d - 10)

percent : ℕ → Text
percent b = b'%' ∷ hex (b / 16) ∷ hex (b % 16) ∷ []

-- A character in UTF-8, percent-encoded. Texts are taken to hold no surrogates.
encode_char : ℕ → Text
encode_char c =
    if is_unreserved c
    then c ∷ []
    else if ltb c 128
    then percent c
    else if ltb c 2048
    then percent (192 + c / 64) ++ percent (128 + c % 64)
    else percent (224 + c / 4096) ++ (percent (128 + c / 64 % 64) ++ percent (128 + c % 64))

unfoldable pub encode_uri_component : Text → Text
unfolding encode_char percent hex is_unreserved
encode_uri_component [] = []
encode_uri_component (c ∷ s) = encode_char c ++ encode_uri_component s

-- `<=` on strings, by code units
abbrev pub text_le : Text → Text → Bool
text_le [] t = true
text_le (c ∷ s) [] = false
text_le (c ∷ s) (d ∷ t) = ltb c d || (c == d && text_le s t)

-- `Object.keys(query).sort()`, each key with its value
insert_entry : Text × Option Text → Query → Query
insert_entry e [] = e ∷ []
insert_entry e (x ∷ q) = if text_le e.0 x.0 then e ∷ x ∷ q else x ∷ insert_entry e q

unfoldable pub sort_entries : Query → Query
unfolding insert_entry
sort_entries [] = []
sort_entries (e ∷ q) = insert_entry e (sort_entries q)

abbrev encode_value : Option Text → Text
encode_value none = codes "*"
encode_value (some raw) = encode_uri_component raw

abbrev pub part : Text × Option Text → Text
part (key, raw) = key ++ (codes "=" ++ encode_value raw)

unfoldable pub build_list_cache_key : Text → ℕ → Query → Text
build_list_cache_key namespace version query =
    namespace
    ++ (codes ":v"
        ++ (decimal version ++ (codes ":" ++ join (codes ":") (map part (sort_entries query)))))

unfoldable pub build_count_cache_key : Text → ℕ → Query → Text
build_count_cache_key namespace version query =
    namespace
    ++ (codes ":count:v"
        ++ (decimal version ++ (codes ":" ++ join (codes ":") (map part (sort_entries query)))))

unfoldable pub namespace_version_key : Text → Text
namespace_version_key namespace = codes "cache:ver:" ++ namespace
