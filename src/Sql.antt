-- ===== src/Sql.antt =====
-- What the stores of internal/datastore/postgres build with bun, and what they call of the
-- database: a query is its conditions, which are joined by AND, with the text of each as the source
-- has it and its arguments.
pub mod Laws
use Prim.Native.String.{String, ◌++◌}
use mathlib.Core.List
use logtrace_backend.Common.{ℕ, Bool, true, false, ◌&&◌, ◌||◌, not, List, [], ◌∷◌, if◌then◌else◌}
use logtrace_backend.Common.Int.{ℤ, pos}
use logtrace_backend.GoText.{is_string_empty, trim_space}
use logtrace_backend.Domain.{Uuid, Time, Error, is_no_rows, Result, ok, err}

pub data Arg : Type 0 where
  text : String → Arg
  uuid : Uuid → Arg
  instant : Time → Arg

pub record Predicate : Type 0 where
  pub clause : String
  pub args : List Arg

-- `Where`, and `WhereGroup(" AND ", …)` around `WhereOr`.
pub data Condition : Type 0 where
  where_ : Predicate → Condition
  any_of : List Predicate → Condition

abbrev pub where_text : String → String → List Condition
where_text clause s = where_ (record { clause = clause; args = text s ∷ [] }) ∷ []

-- `if !util.IsStringEmpty(s) { q = q.Where(clause, s) }`
unfoldable pub where_given : String → String → List Condition
where_given clause s = if is_string_empty s then [] else where_text clause s

-- A table in worlds of type `W`, as the stores call it: which rows satisfy a predicate, the number of
-- the matching rows, a page of them in an order, the first of them, and the
-- statements that write: an insert, an update by assignments (`Set`, with the text and the arguments
-- of each), and one that writes all columns of a row.
pub record Table (Row W : Type 0) : Type 0 where
  pub holds : Predicate → Row → Bool
  pub count : List Condition → W → Result ℕ
  pub select : List Condition → String → ℤ → ℤ → W → Result (List Row)
  pub first : List Condition → W → Result Row
  pub insert : Row → W → Result (Unit {0}) × W
  pub update : List Predicate → List Condition → W → Result (Unit {0}) × W
  pub replace : Row → List Condition → W → Result (Unit {0}) × W

-- More statements on the same table: an insert that returns the row as it was stored, an update of the
-- columns that are not zero in a row (`OmitZero`), which returns it as it is then, and a delete.
pub record Statements (Row W : Type 0) : Type 0 where
  pub insert_returning : Row → W → Result Row × W
  pub update_given : Row → List Condition → W → Result Row × W
  pub delete : List Condition → W → Result (Unit {0}) × W

-- The texts that the stores put into their arguments.
pub record Texts : Type 0 where
  pub uuid_text : Uuid → String
  pub escape_string : String → String

-- `"%" + html.EscapeString(strings.TrimSpace(search)) + "%"`
abbrev pub search_term : Texts → String → String
search_term t search = "%" ++ (t.escape_string (trim_space search) ++ "%")

-- `prefix+"%"`
abbrev pub starting_with : String → String
starting_with s = s ++ "%"

-- The group of the columns that a search looks at.
unfoldable pub where_search : Texts → List String → String → List Condition
where_search t clauses search =
    if is_string_empty search
    then []
    else any_of
        (List.map (λ c. record { clause = c; args = text (search_term t search) ∷ [] }) clauses)
      ∷ []

-- The conditions on a date by its two bounds, each with what is put behind its text.
unfoldable pub where_dates : String → String → String → String → String → List Condition
where_dates column from_suffix to_suffix start_date end_date =
    if not (is_string_empty start_date) && not (is_string_empty end_date)
    then where_ (record {
      clause = column ++ " BETWEEN ? AND ?";
      args = text (start_date ++ from_suffix) ∷ text (end_date ++ to_suffix) ∷ [];
    })
      ∷ []
    else if not (is_string_empty start_date)
    then where_text (column ++ " >= ?") (start_date ++ from_suffix)
    else if not (is_string_empty end_date)
    then where_text (column ++ " <= ?") (end_date ++ to_suffix)
    else []

-- `if errors.Is(err, sql.ErrNoRows) { return …, e }`
abbrev pub not_found_as : {A : Type 0} → Error → Result A → Result A
not_found_as e (ok a) = ok a
not_found_as e (err f) = if is_no_rows f then err e else err f

-- `int64(total)`
abbrev pub as_int64 : Result ℕ → Result ℤ
as_int64 (err e) = err e
as_int64 (ok n) = ok (pos n)

-- The rows of a page with the count of all matching rows.
abbrev pub with_total : {A : Type 0} → ℕ → Result (List A) → Result (List A × ℤ)
with_total total (err e) = err e
with_total total (ok rows) = ok (rows, pos total)
