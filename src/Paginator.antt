-- ===== src/Paginator.antt =====
-- paginator.go: the page that a request asks for, and the row offset of a page.
pub mod Bounds
pub mod Pages
use Prim.Native.String.{String}
use logtrace_backend.Common.{Option, none, some, if◌then◌else◌}
use logtrace_backend.Common.Int.{ℤ, pos, ◌-ℤ◌, ◌*ℤ◌, wrap, leb_ℤ}
use logtrace_backend.GoText.{is_string_empty, atoi}

pub record Paginator : Type 0 where
  pub per_page : ℤ
  pub page : ℤ

abbrev pub default_num_of_item_per_page : ℤ
default_num_of_item_per_page = pos 20

-- (Page - 1) * PerPage in int64
unfoldable pub offset : Paginator → ℤ
offset p = if leb_ℤ p.page (pos 0) then pos 0 else wrap (wrap (p.page -ℤ pos 1) *ℤ p.per_page)

-- `if err != nil || dd <= 0 { return p }`: only a positive number is taken.
pub positive : Option ℤ → Option ℤ
positive none = none
positive (some dd) = if leb_ℤ dd (pos 0) then none else some dd

-- The part of `PaginatorFromRequest` that reads `per_page`.
with_per_page : Paginator → String → Paginator
unfolding positive
with_per_page p per_page =
    if is_string_empty per_page
    then p
    else elim (positive (atoi per_page)) [ none ↦ p | some dd ↦ record p { per_page = dd } ]

-- The two arguments are `r.URL.Query().Get("page")` and `.Get("per_page")`.
unfoldable pub paginator_from_request : String → String → Paginator
unfolding with_per_page
paginator_from_request page per_page =
    let p : Paginator = record { per_page = default_num_of_item_per_page; page = pos 1 } in
    if is_string_empty page then with_per_page p per_page else elim (positive (atoi page)) [
      | none ↦ p
      | some dd ↦ with_per_page (record p { page = dd }) per_page
    ]
