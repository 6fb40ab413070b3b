-- ===== src/Orders/Reads/Filter.antt =====
-- packages/api-service/src/routes/orders.routes.ts: which rows the WHERE clause selects.
use backend_architecture.Prelude.{
  ℕ, zero, suc, ◌-◌, ◌≤◌, ◌<◌, ◌≡◌, refl, ap, ◌∙◌, Bool, true, ◌&&◌, Option, none, some, List, [],
  ◌∷◌, ◌++◌, Text, text_eq, to_lower, leb, length, get_elem?, All, arith, length-append, All-append,
}
use backend_architecture.Shared.Status.{OrderStatus, status_eq}
use backend_architecture.Orders.Tables.{OrderRow}
use backend_architecture.Orders.Reads.Where.{
  created_at, status, customer_email, user_id, equal, at_least, at_most, text, matches,
  ListOrdersQuery, status_text, Column, Comparison, Clause, Param, Where, push_clause, where_of,
  lower_email, map_option, satisfies, satisfies_all,
}

-- A filter that is given passes, or none is given.
abbrev pub passes : {A : Type 0} → (A → Bool) → Option A → Bool
passes p none = true
passes p (some a) = p a

-- What a query is to select for a user: the user's orders that pass each filter that is given.
abbrev pub is_selected : (Text → ℕ) → ListOrdersQuery → Text → OrderRow → Bool
is_selected timestamp query owner row =
    text_eq row.user_id owner
    && passes (status_eq row.status) query.status
    && passes (λ email. text_eq row.customer_email (to_lower email)) query.customer_email
    && passes (λ date. leb (timestamp date) row.created_at) query.created_after
    && passes (λ date. leb row.created_at (timestamp date)) query.created_before

status_text_eq : (s t : OrderStatus) → text_eq (status_text s) (status_text t) ≡ status_eq s t
status_text_eq s t = ground arith

pub get_elem?-append_left {ℓ} :
    {A : Type ℓ} (xs ys : List A) (i : ℕ) → i < length xs → get_elem? (xs ++ ys) i ≡ get_elem? xs i
get_elem?-append_left [] ys i h = absurd (omega arith)
get_elem?-append_left (x ∷ xs) ys zero h = refl
get_elem?-append_left (x ∷ xs) ys (suc i) h = get_elem?-append_left xs ys i (omega arith)

pub get_elem?-append_last {ℓ} :
    {A : Type ℓ} (xs : List A) (y : A) → get_elem? (xs ++ y ∷ []) (length xs) ≡ some y
get_elem?-append_last [] y = refl
get_elem?-append_last (x ∷ xs) y = get_elem?-append_last xs y

-- Every placeholder numbers one of the parameters.
abbrev pub IsNumbered : Where → Type 0
IsNumbered w =
    All (λ (c : Clause). (1 ≤ c.placeholder) × (c.placeholder ≤ length w.params)) w.clauses

weaken :
    (clauses : List Clause) (m n : ℕ)
    → m ≤ n
    → All (λ (c : Clause). (1 ≤ c.placeholder) × (c.placeholder ≤ m)) clauses
    → All (λ (c : Clause). (1 ≤ c.placeholder) × (c.placeholder ≤ n)) clauses
weaken [] m n le h = tt
weaken (c ∷ clauses) m n le h = ((h.0.0, omega (arith, h.0.1)), weaken clauses m n le h.1)

push_clause-IsNumbered :
    (column : Column) (comparison : Comparison) (value : Option Text) (w : Where)
    → IsNumbered w
    → IsNumbered (push_clause column comparison value w)
push_clause-IsNumbered column comparison none w h = h
push_clause-IsNumbered column comparison (some v) w h =
    let params = w.params ++ text v ∷ [] in
    let n = length-append w.params (text v ∷ []) in
    All-append (λ (c : Clause). (1 ≤ c.placeholder) × (c.placeholder ≤ length params)) w.clauses _
      (weaken w.clauses (length w.params) (length params) (omega (arith, n)) h)
      ((omega (arith, n), omega arith), tt)

-- Every clause of a query names a parameter that is there.
pub where_of-IsNumbered :
    (query : ListOrdersQuery) (owner : Text) → IsNumbered (where_of query owner)
unfolding where_of
where_of-IsNumbered query owner = push_clause-IsNumbered created_at at_most query.created_before _ (
    push_clause-IsNumbered created_at at_least query.created_after _ (
      push_clause-IsNumbered customer_email equal (lower_email query) _ (
        push_clause-IsNumbered status equal (map_option status_text query.status) _
          ((omega arith, omega arith), tt))))

module _ (timestamp : Text → ℕ) (row : OrderRow) where
  abbrev holds : Where → Bool
  holds w = satisfies_all timestamp row w.params w.clauses

  -- Parameters that follow change no clause before.
  pub satisfies_all-append :
      (params more : List Param) (clauses : List Clause)
      → All (λ (c : Clause). (1 ≤ c.placeholder) × (c.placeholder ≤ length params)) clauses
      → satisfies_all timestamp row (params ++ more) clauses
        ≡ satisfies_all timestamp row params clauses
  unfolding satisfies_all
  satisfies_all-append params more [] h = refl
  satisfies_all-append params more (c ∷ clauses) h = rw (
    get_elem?-append_left params more (c.placeholder - 1) (omega (arith, h.0)),
    satisfies_all-append params more clauses h.1,
  )

  all-append_one :
      (params : List Param) (clauses : List Clause) (c : Clause)
      → satisfies_all timestamp row params (clauses ++ c ∷ [])
        ≡ (satisfies_all timestamp row params clauses && satisfies timestamp row params c)
  unfolding satisfies_all
  all-append_one params [] c = ground arith
  all-append_one params (d ∷ clauses) c = ground (arith, all-append_one params clauses c)

  -- A filter that is pushed is one more condition.
  push_clause-holds :
      (column : Column) (comparison : Comparison) (value : Option Text) (w : Where)
      → IsNumbered w
      → holds (push_clause column comparison value w)
        ≡ (holds w && passes (λ v. matches timestamp row column comparison (some (text v))) value)
  push_clause-holds column comparison none w h = ground arith
  push_clause-holds column comparison (some v) w h =
      let params = w.params ++ text v ∷ [] in
      let c : Clause = record {
        column = column;
        comparison = comparison;
        placeholder = length params;
      } in
      let last : get_elem? params (length params - 1) ≡ some (text v) =
        rw (length-append w.params (text v ∷ []))
          (ap (get_elem? params) (omega arith) ∙ get_elem?-append_last w.params (text v)) in
      all-append_one params w.clauses c
      ∙ rw (satisfies_all-append w.params (text v ∷ []) w.clauses h, last) refl

passes_status :
    (s : OrderStatus) (o : Option OrderStatus)
    → passes (λ v. text_eq (status_text s) v) (map_option status_text o) ≡ passes (status_eq s) o
passes_status s none = refl
passes_status s (some t) = status_text_eq s t

passes_email :
    (email : Text) (o : Option Text)
    → passes (λ v. text_eq email v) (map_option to_lower o)
      ≡ passes (λ v. text_eq email (to_lower v)) o
passes_email email none = refl
passes_email email (some t) = refl

regroup : (a b c d e : Bool) → (((((a && true) && b) && c) && d) && e) ≡ (a && b && c && d && e)
regroup a b c d e = ground arith

-- For every row, the clauses with the parameters at their placeholders select it exactly if it is the
-- user's and passes each filter of the query that is given, the e-mail address in lower case.
pub where_of-is_selected :
    (timestamp : Text → ℕ) (query : ListOrdersQuery) (owner : Text) (row : OrderRow)
    → satisfies_all timestamp row (where_of query owner).params (where_of query owner).clauses
      ≡ is_selected timestamp query owner row
unfolding where_of satisfies_all
where_of-is_selected timestamp query owner row =
    let w0 : Where = record {
      clauses = record { column = user_id; comparison = equal; placeholder = 1 } ∷ [];
      params = text owner ∷ [];
    } in
    let n0 : IsNumbered w0 = ((omega arith, omega arith), tt) in
    let w1 = push_clause status equal (map_option status_text query.status) w0 in
    let n1 = push_clause-IsNumbered status equal (map_option status_text query.status) w0 n0 in
    let e1 =
      push_clause-holds timestamp row status equal (map_option status_text query.status) w0 n0 in
    let w2 = push_clause customer_email equal (lower_email query) w1 in
    let n2 = push_clause-IsNumbered customer_email equal (lower_email query) w1 n1 in
    let e2 = push_clause-holds timestamp row customer_email equal (lower_email query) w1 n1 in
    let w3 = push_clause created_at at_least query.created_after w2 in
    let n3 = push_clause-IsNumbered created_at at_least query.created_after w2 n2 in
    let e3 = push_clause-holds timestamp row created_at at_least query.created_after w2 n2 in
    let e4 = push_clause-holds timestamp row created_at at_most query.created_before w3 n3 in
    let own = text_eq row.user_id owner in
    let by_status =
      passes (λ v. text_eq (status_text row.status) v) (map_option status_text query.status) in
    let by_email = passes (λ v. text_eq row.customer_email v) (lower_email query) in
    let after = passes (λ date. leb (timestamp date) row.created_at) query.created_after in
    let upto = passes (λ date. leb row.created_at (timestamp date)) query.created_before in
    e4
    ∙ rw (e3, e2, e1)
        (regroup own by_status by_email after upto
          ∙ rw
              (
                passes_status row.status query.status,
                passes_email row.customer_email query.customer_email,
              )
              refl)
