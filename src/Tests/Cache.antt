-- ===== src/Tests/Cache.antt =====
-- The theorems on the cache, each at one input.
use backend_architecture.Prelude.{
  ℕ, ◌≡◌, ◌≢◌, refl, sym, inr, some, none, [], ◌∷◌, ◌∙◌, Text, codes, Action, pure, arith, head_eq,
  ◌<◌, text_eq, false, text_eq_iff, ◌∙◌,
}
use backend_architecture.Prelude.Decimal.{decimal}
use backend_architecture.Services.Memory.{Store, update, cell, memory, memory-IsRedis}
use backend_architecture.Cache.Key.{Query, build_list_cache_key, build_count_cache_key}
use backend_architecture.Cache.Key.Versions.{list_key-version}
use backend_architecture.Prelude.Decimal.{parse_int}
use backend_architecture.Cache.Key
use backend_architecture.Cache.ListCache.{ListCacheOptions, read_list, with_list_cache}
use backend_architecture.Cache.EntityCache.{EntityCacheOptions}
use backend_architecture.Cache.CountCache.{CountCacheOptions}
use backend_architecture.Cache.Degrade.{served, after_read_list, with_list_cache-eq-served}
use backend_architecture.Cache.Fresh.{Answers, with_list_cache-invalidate_list_namespace}
use backend_architecture.Cache.Invalidate.{invalidate_list_namespace}
use backend_architecture.Tests.Fixtures.{context, unreadable, empty, plain}

abbrev first_page : Query
first_page = (codes "page", some (codes "1")) ∷ (codes "status", none) ∷ []

abbrev reordered : Query
reordered = (codes "status", none) ∷ (codes "page", some (codes "1")) ∷ []

sorted : build_list_cache_key (codes "orders") 3 reordered ≡ codes "orders:v3:page=1:status=*"
unfolding build_list_cache_key decimal Key.sort_entries Key.encode_uri_component
sorted = refl

abbrev version : ℕ
version = 3

abbrev page_options : ListCacheOptions Store
page_options = record {
  namespace = codes "orders";
  query = first_page;
  reply_header = λ name value w. w;
  ttl_seconds = none;
}

abbrev order_options : EntityCacheOptions Store
order_options = record {
  key = codes "order:1";
  namespace = codes "order";
  reply_header = λ name value w. w;
  ttl_seconds = none;
}

abbrev count_options : CountCacheOptions
count_options = record { namespace = codes "orders"; query = []; ttl_seconds = none }

abbrev fetch : Action Store Text
fetch = pure (codes "fresh")

-- Redis cannot be read, and the fetcher answers.
with_list_cache-eq-served_example :
    (with_list_cache (context unreadable) plain page_options fetch empty).0
    ≡ served
        (read_list (context unreadable) plain page_options empty).0
        (fetch (after_read_list (context unreadable) plain page_options empty)).0
with_list_cache-eq-served_example =
    with_list_cache-eq-served (context unreadable) plain page_options fetch empty refl

answers : Answers (context memory) cell
answers k w = (refl, omega arith)

-- A page is cached under the version 3.
abbrev cached : Store
cached =
    update (codes "cache:ver:orders") (some (codes "3"))
      (update (codes "orders:v3:page=1:status=*") (some (codes "old")) empty)

abbrev key_of : ℕ → Text
key_of v = build_list_cache_key (codes "orders") v first_page

key-ne-version_key : (v : ℕ) → key_of v ≢ codes "cache:ver:orders"
unfolding build_list_cache_key
key-ne-version_key v h = absurd (omega (arith, head_eq h))

key_of-three : key_of 3 ≡ codes "orders:v3:page=1:status=*"
unfolding build_list_cache_key decimal Key.sort_entries Key.encode_uri_component
key_of-three = refl

later_pages : (v : ℕ) → 3 < v → cell cached (key_of v) ≡ none
later_pages v later =
    let other : key_of v ≢ codes "orders:v3:page=1:status=*" = λ h.
      omega (
        arith,
        list_key-version (codes "orders") v 3 first_page first_page (h ∙ sym key_of-three),
      ) in
    rw
      (
        text_ne (codes "cache:ver:orders") (key_of v) (λ h. key-ne-version_key v (sym h)),
        text_ne (codes "orders:v3:page=1:status=*") (key_of v) (λ h. other (sym h)),
      )
      refl
  where
    text_ne : (s t : Text) → s ≢ t → text_eq s t ≡ false
    text_ne s t h = ground (arith, text_eq_iff s t)

with_list_cache-invalidate_list_namespace_example :
    let w' = (invalidate_list_namespace (context memory) (codes "orders") cached).1 in
    (with_list_cache (context memory) plain page_options fetch w').0
    ≡ (fetch (after_read_list (context memory) plain page_options w')).0
unfolding decimal Key.namespace_version_key parse_int
with_list_cache-invalidate_list_namespace_example =
    with_list_cache-invalidate_list_namespace (context memory) plain page_options cell answers
      memory-IsRedis refl fetch cached (inr (3, refl)) (4, refl, omega arith) key-ne-version_key
      later_pages
