-- ===== src/Paginator/Bounds.antt =====
-- The values that a request can give to a paginator.
use Prim.Native.String.{String}
use logtrace_backend.Common.{◌^◌, ◌<◌, ◌≡◌, inl, inr, some, arith, Option-cases, Bool-cases}
use logtrace_backend.Common.Int.{ℤ, pos, negsuc}
use logtrace_backend.GoText.{atoi, is_string_empty}
use logtrace_backend.GoText.Laws.{atoi-IsInt64}
use logtrace_backend.Paginator.{Paginator, positive, with_per_page, paginator_from_request}

-- A positive int64.
abbrev pub IsCount : ℤ → Type 0
IsCount (pos n) = (0 < n) × (n < 2 ^ 63)
IsCount (negsuc n) = ⊥

pub record IsSane (p : Paginator) : Type 0 where
  pub page : IsCount p.page
  pub per_page : IsCount p.per_page

positive-IsCount : (s : String) (z : ℤ) → positive (atoi s) ≡ some z → IsCount z
unfolding positive
positive-IsCount s (pos n) h = ground (arith, atoi-IsInt64 s (pos n))
positive-IsCount s (negsuc n) h = ground (arith, atoi-IsInt64 s (negsuc n))

with_per_page-IsSane : (p : Paginator) (s : String) → IsSane p → IsSane (with_per_page p s)
unfolding with_per_page
with_per_page-IsSane p s h = elim (Bool-cases (is_string_empty s)) [
  | inl e ↦ rw e h
  | inr e ↦ elim (Option-cases (positive (atoi s))) [
    | inl f ↦ rw (e, f) h
    | inr (z, f) ↦ rw (e, f) (record { page = h.page; per_page = positive-IsCount s z f })
  ]
]

-- Whatever the query says, the page and the page size are positive and fit int64.
pub paginator_from_request-IsSane :
    (page per_page : String) → IsSane (paginator_from_request page per_page)
unfolding paginator_from_request
paginator_from_request-IsSane page per_page = elim (Bool-cases (is_string_empty page)) [
  | inl e ↦ rw e (with_per_page-IsSane _ per_page (omega arith))
  | inr e ↦ elim (Option-cases (positive (atoi page))) [
    | inl f ↦ rw (e, f) (omega arith)
    | inr (z, f) ↦
        rw (e, f)
          (with_per_page-IsSane _ per_page
            (record { page = positive-IsCount page z f; per_page = omega arith }))
  ]
]
