-- ===== src/Orders/Reads/Where.antt =====
-- packages/api-service/src/routes/orders.routes.ts: the WHERE clause that `fetchOrdersPage` puts together.
use backend_architecture.Prelude.{
  ℕ, ◌-◌, Bool, false, Option, none, some, List, [], ◌∷◌, ◌++◌, Text, codes, text_eq, to_lower, leb,
  ◌==◌, length, get_elem?, all,
}
use backend_architecture.Shared.Status.{
  OrderStatus, pending, confirmed, shipped, delivered, cancelled,
}
use backend_architecture.Orders.Tables.{OrderRow}

-- The filters of a list query; `none` is a filter that is not given. A date is kept as its text.
pub record ListOrdersQuery : Type 0 where
  pub page : ℕ
  pub page_size : ℕ
  pub status : Option OrderStatus
  pub customer_email : Option Text
  pub created_after : Option Text
  pub created_before : Option Text

abbrev pub status_text : OrderStatus → Text
status_text pending = codes "pending"
status_text confirmed = codes "confirmed"
status_text shipped = codes "shipped"
status_text delivered = codes "delivered"
status_text cancelled = codes "cancelled"

-- A clause of the SQL text: a column, a comparison and the number of its placeholder, from 1.
pub data Column : Type 0 where
  user_id status customer_email created_at : Column

pub data Comparison : Type 0 where
  equal at_least at_most : Comparison

pub record Clause : Type 0 where
  pub column : Column
  pub comparison : Comparison
  pub placeholder : ℕ

pub data Param : Type 0 where
  text : Text → Param
  number : ℕ → Param

-- The clauses and the parameters gathered so far.
pub record Where : Type 0 where
  pub clauses : List Clause
  pub params : List Param

-- `params.push(value); whereClauses.push(…$${params.length}…)`, if the filter is given
abbrev pub push_clause : Column → Comparison → Option Text → Where → Where
push_clause column comparison none w = w
push_clause column comparison (some value) w = record {
  clauses =
      w.clauses
      ++ record {
        column = column;
        comparison = comparison;
        placeholder = length (w.params ++ text value ∷ []);
      }
        ∷ [];
  params = w.params ++ text value ∷ [];
}

abbrev pub map_option : {A B : Type 0} → (A → B) → Option A → Option B
map_option f none = none
map_option f (some a) = some (f a)

-- `customerEmail` in lower case
abbrev pub lower_email : ListOrdersQuery → Option Text
lower_email query = map_option to_lower query.customer_email

unfoldable pub where_of : ListOrdersQuery → Text → Where
where_of query owner = push_clause created_at at_most query.created_before (
    push_clause created_at at_least query.created_after (
      push_clause customer_email equal (lower_email query) (
        push_clause status equal (map_option status_text query.status) (record {
          clauses = record { column = user_id; comparison = equal; placeholder = 1 } ∷ [];
          params = text owner ∷ [];
        }))))

-- How the database reads the clauses. `timestamp` is its reading of the text of a date.
module _ (timestamp : Text → ℕ) where
  abbrev compare_text : Comparison → Text → Text → Bool
  compare_text equal a b = text_eq a b
  compare_text at_least a b = false
  compare_text at_most a b = false

  abbrev compare_time : Comparison → ℕ → ℕ → Bool
  compare_time equal a b = a == b
  compare_time at_least a b = leb b a
  compare_time at_most a b = leb a b

  abbrev pub matches : OrderRow → Column → Comparison → Option Param → Bool
  matches row user_id c (some (text t)) = compare_text c row.user_id t
  matches row status c (some (text t)) = compare_text c (status_text row.status) t
  matches row customer_email c (some (text t)) = compare_text c row.customer_email t
  matches row created_at c (some (text t)) = compare_time c row.created_at (timestamp t)
  matches row column c _ = false

  -- The row satisfies the clause under these parameters.
  abbrev pub satisfies : OrderRow → List Param → Clause → Bool
  satisfies row params clause =
      matches row clause.column clause.comparison (get_elem? params (clause.placeholder - 1))

  unfoldable pub satisfies_all : OrderRow → List Param → List Clause → Bool
  satisfies_all row params clauses = all (satisfies row params) clauses
