-- ===== src/Cache/Key/Versions.antt =====
-- packages/api-service/src/utils/cache.ts: keys of different versions, and of pages and counts.
use backend_architecture.Prelude.{
  ℕ, ◌≡◌, ◌≢◌, [], ◌∷◌, Text, codes, arith, All, append_left_cancel, head_eq, tail_eq, split_unique,
  true,
}
use backend_architecture.Prelude.Decimal.{decimal, is_digit, decimal-digits, decimal_injective}
use backend_architecture.Cache.Key.{Query, build_list_cache_key, build_count_cache_key}

no_colon : (s : Text) → All (λ c. is_digit c ≡ true) s → All (λ c. c ≢ b':') s
no_colon [] h = tt
no_colon (c ∷ s) h = (ground arith, no_colon s h.1)

decimal-no_colon : (n : ℕ) → All (λ c. c ≢ b':') (decimal n)
decimal-no_colon n = no_colon (decimal n) (decimal-digits n)

-- List keys that agree, in one namespace, have the same version, whatever their queries: no page
-- cached before a bump of the version can be found after it.
pub list_key-version :
    (namespace : Text) (v v' : ℕ) (q q' : Query)
    → build_list_cache_key namespace v q ≡ build_list_cache_key namespace v' q'
    → v ≡ v'
unfolding build_list_cache_key
list_key-version namespace v v' q q' h =
    decimal_injective v v'
      (split_unique b':' (decimal v) (decimal v') _ _ (decimal-no_colon v) (decimal-no_colon v')
        (append_left_cancel (codes ":v") _ _ (append_left_cancel namespace _ _ h))).0

-- Keys of cached counts that agree, in one namespace, have the same version, whatever their queries.
pub count_key-version :
    (namespace : Text) (v v' : ℕ) (q q' : Query)
    → build_count_cache_key namespace v q ≡ build_count_cache_key namespace v' q'
    → v ≡ v'
unfolding build_count_cache_key
count_key-version namespace v v' q q' h =
    decimal_injective v v'
      (split_unique b':' (decimal v) (decimal v') _ _ (decimal-no_colon v) (decimal-no_colon v')
        (append_left_cancel (codes ":count:v") _ _ (append_left_cancel namespace _ _ h))).0

-- In one namespace the key of a page is never the key of a count.
pub list_key-ne-count_key :
    (namespace : Text) (v v' : ℕ) (q q' : Query)
    → build_list_cache_key namespace v q ≢ build_count_cache_key namespace v' q'
unfolding build_list_cache_key build_count_cache_key
list_key-ne-count_key namespace v v' q q' h =
    absurd (omega (arith, head_eq (tail_eq (append_left_cancel namespace _ _ h))))
