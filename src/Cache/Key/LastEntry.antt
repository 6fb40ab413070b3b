-- ===== src/Cache/Key/LastEntry.antt =====
-- packages/api-service/src/utils/cache.ts: the entry of a query that stands last in its key.
use mathlib.Core.List.{append_assoc}
use backend_architecture.Prelude.{
  ℕ, ◌≡◌, ◌≢◌, refl, sym, ap, ◌∙◌, inl, inr, Bool, true, ◌&&◌, ◌||◌, Option, some, List, [], ◌∷◌,
  ◌++◌, map, Text, codes, leb, ◌==◌, All, All-append, tail_eq, append_left_cancel, join, arith,
  Bool-cases, head_eq, tail_eq,
}
use backend_architecture.Prelude.Decimal.{decimal, is_digit}
use backend_architecture.Cache.Key.{
  Query, build_list_cache_key, encode_uri_component, encode_char, is_unreserved, insert_entry,
  sort_entries, part, text_le,
}

-- The characters of a UUID.
abbrev pub is_uuid_char : ℕ → Bool
is_uuid_char c = is_digit c || ((leb b'a' c && leb c b'f') || (c == b'-'))

abbrev pub IsUuid : Text → Type 0
IsUuid id = All (λ c. is_uuid_char c ≡ true) id

uuid-is_unreserved : (c : ℕ) → is_uuid_char c ≡ true → is_unreserved c ≡ true
unfolding is_unreserved
uuid-is_unreserved c h = ground arith

encode_uri_component-uuid : (id : Text) → IsUuid id → encode_uri_component id ≡ id
unfolding encode_uri_component encode_char
encode_uri_component-uuid [] h = refl
encode_uri_component-uuid (c ∷ s) h =
    let one : encode_char c ≡ c ∷ [] = rw (uuid-is_unreserved c h.0) in
    let rest = encode_uri_component-uuid s h.1 in rw (one, rest)

uuid-no_colon : (id : Text) → IsUuid id → All (λ c. c ≢ b':') id
uuid-no_colon [] h = tt
uuid-no_colon (c ∷ s) h = (ground arith, uuid-no_colon s h.1)

-- An entry goes in front of one whose key is not smaller.
insert_entry-last :
    (e last : Text × Option Text) (q : Query)
    → text_le e.0 last.0 ≡ true
    → (r : Query) × (insert_entry e (q ++ last ∷ []) ≡ r ++ last ∷ [])
unfolding insert_entry
insert_entry-last e last [] le = (e ∷ [], rw le)
insert_entry-last e last (x ∷ q) le =
    let (r, h) = insert_entry-last e last q le in
    elim (Bool-cases (text_le e.0 x.0)) [
      | inl first ↦ (e ∷ x ∷ q, rw first)
      | inr later ↦ (x ∷ r, rw (later, h))
    ]

-- The entry with the largest key, given last, is sorted last.
sort_entries-last :
    (last : Text × Option Text) (q : Query)
    → All (λ (e : Text × Option Text). text_le e.0 last.0 ≡ true) q
    → (r : Query) × (sort_entries (q ++ last ∷ []) ≡ r ++ last ∷ [])
unfolding sort_entries insert_entry
sort_entries-last last [] h = ([], refl)
sort_entries-last last (e ∷ q) h =
    let (r, sorted) = sort_entries-last last q h.1 in
    let (r', inserted) = insert_entry-last e last r h.0 in (r', rw (sorted, inserted))

join-last :
    (pre last : Text) (parts : List Text)
    → (x : Text) × (pre ++ (codes ":" ++ join (codes ":") (parts ++ last ∷ []))
        ≡ x ++ (b':' ∷ last))
join-last pre last [] = (pre, refl)
join-last pre last (p ∷ []) = (pre ++ b':' ∷ p, sym (append_assoc pre (b':' ∷ p) (b':' ∷ last)))
join-last pre last (p ∷ p' ∷ parts) =
    let (x, h) = join-last (pre ++ b':' ∷ p) last (p' ∷ parts) in
    (x, sym (append_assoc pre (b':' ∷ p) (b':' ∷ join (codes ":") (p' ∷ (parts ++ last ∷ [])))) ∙ h)

colon_there : (t b a : Text) → All (λ c. c ≢ b':') a → a ≡ t ++ b':' ∷ b → ⊥
colon_there [] b [] ha h = cc
colon_there [] b (c ∷ a) ha h = ha.0 (head_eq h)
colon_there (d ∷ t) b [] ha h = cc
colon_there (d ∷ t) b (c ∷ a) ha h = colon_there t b a ha.1 (tail_eq h)

-- What stands after the last colon.
last_unique :
    (s t a b : Text)
    → All (λ c. c ≢ b':') a
    → All (λ c. c ≢ b':') b
    → s ++ b':' ∷ a ≡ t ++ b':' ∷ b
    → a ≡ b
last_unique [] [] a b ha hb h = tail_eq h
last_unique [] (d ∷ t) a b ha hb h = absurd (colon_there t b a ha (tail_eq h))
last_unique (c ∷ s) [] a b ha hb h = absurd (colon_there s a b hb (sym (tail_eq h)))
last_unique (c ∷ s) (d ∷ t) a b ha hb h = last_unique s t a b ha hb (tail_eq h)

map-last :
    {A B : Type 0} (f : A → B) (xs : List A) (y : A) → map f (xs ++ y ∷ []) ≡ map f xs ++ f y ∷ []
map-last f [] y = refl
map-last f (x ∷ xs) y = rw (map-last f xs y)

-- A key with this text in front of its parts.
keyed : Text → Query → Text
keyed pre q = pre ++ (codes ":" ++ join (codes ":") (map part (sort_entries q)))

keyed-last :
    (pre key value : Text) (q : Query)
    → All (λ (e : Text × Option Text). text_le e.0 key ≡ true) q
    → (x : Text) × (keyed pre (q ++ (key, some value) ∷ []) ≡ x ++ (b':' ∷ part (key, some value)))
unfolding keyed
keyed-last pre key value q h =
    let last : Text × Option Text = (key, some value) in
    let (r, sorted) = sort_entries-last last q h in
    let (x, joined) = join-last pre (part last) (map part r) in
    (
      x,
      ap (λ es. pre ++ (codes ":" ++ join (codes ":") (map part es))) sorted
          ∙ (ap (λ ps. pre ++ (codes ":" ++ join (codes ":") ps)) (map-last part r last) ∙ joined),
    )

keyed-uuid :
    (pre pre' key id id' : Text) (q q' : Query)
    → All (λ c. c ≢ b':') key
    → All (λ (e : Text × Option Text). text_le e.0 key ≡ true) q
    → All (λ (e : Text × Option Text). text_le e.0 key ≡ true) q'
    → IsUuid id
    → IsUuid id'
    → keyed pre (q ++ (key, some id) ∷ []) ≡ keyed pre' (q' ++ (key, some id') ∷ [])
    → id ≡ id'
keyed-uuid pre pre' key id id' q q' plain h h' u u' same =
    let (x, e) = keyed-last pre key id q h in
    let (x', e') = keyed-last pre' key id' q' h' in
    let v = encode_uri_component-uuid id u in
    let v' = encode_uri_component-uuid id' u' in
    let no_colon : (i : Text) → IsUuid i → All (λ c. c ≢ b':') (key ++ (codes "=" ++ i)) = λ i w.
      All-append (λ c. c ≢ b':') key (codes "=" ++ i) plain
        ((λ z. omega (arith, z)), uuid-no_colon i w) in
    let a : x ++ b':' ∷ (key ++ (codes "=" ++ id)) ≡ x' ++ b':' ∷ (key ++ (codes "=" ++ id')) =
      ap (λ i. x ++ b':' ∷ (key ++ (codes "=" ++ i))) (sym v)
      ∙ (sym e ∙ (same ∙ (e' ∙ ap (λ i. x' ++ b':' ∷ (key ++ (codes "=" ++ i))) v'))) in
    tail_eq (append_left_cancel key _ _ (last_unique x x' _ _ (no_colon id u) (no_colon id' u') a))

-- The prefix of a key, put together first.
regroup : (a b c d : Text) → (a ++ (b ++ c)) ++ d ≡ a ++ (b ++ (c ++ d))
regroup a b c d = append_assoc a (b ++ c) d ∙ ap (λ t. a ++ t) (append_assoc b c d)

-- Entries of two queries with smaller keys before an entry with a UUID: if the keys of their pages
-- agree, so do the UUIDs.
pub build_list_cache_key-uuid :
    (namespace key id id' : Text) (v v' : ℕ) (q q' : Query)
    → All (λ c. c ≢ b':') key
    → All (λ (e : Text × Option Text). text_le e.0 key ≡ true) q
    → All (λ (e : Text × Option Text). text_le e.0 key ≡ true) q'
    → IsUuid id
    → IsUuid id'
    → build_list_cache_key namespace v (q ++ (key, some id) ∷ [])
      ≡ build_list_cache_key namespace v' (q' ++ (key, some id') ∷ [])
    → id ≡ id'
unfolding build_list_cache_key keyed
build_list_cache_key-uuid namespace key id id' v v' q q' plain h h' u u' same =
    keyed-uuid (namespace ++ (codes ":v" ++ decimal v)) (namespace ++ (codes ":v" ++ decimal v'))
      key id id' q q' plain h h' u u'
      (regroup namespace (codes ":v") (decimal v) _
        ∙ (same ∙ sym (regroup namespace (codes ":v") (decimal v') _)))
