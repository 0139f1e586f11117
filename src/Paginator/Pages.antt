-- ===== src/Paginator/Pages.antt =====
-- How the pages of a list follow one another.
use native.Mathlib.Nat.{zero-add, suc-add, zero-mul}
use logtrace_backend.Common.{
  ℕ, zero, suc, ◌+◌, ◌*◌, ◌^◌, ◌<◌, ◌≡◌, List, [], ◌∷◌, ◌++◌, arith, take, drop, ap, refl,
}
use logtrace_backend.Common.Int.{
  pos, pos_part, ◌-ℤ◌, ◌*ℤ◌, wrap, wrap_of_small, sub-pos-one, mul-pos,
}
use logtrace_backend.Paginator.{Paginator, offset}

abbrev pub page_of : ℕ → ℕ → Paginator
page_of n p = record { per_page = pos n; page = pos p }

offset_shut : (n p : ℕ) → offset (page_of n (suc p)) ≡ wrap (wrap (pos (suc p) -ℤ pos 1) *ℤ pos n)
unfolding offset
offset_shut n p = ground arith

-- Below 2 ^ 63 the offset of a page is the number of rows on the pages before it.
pub offset-page_of :
    (n p : ℕ) → p < 2 ^ 63 → p * n < 2 ^ 63 → offset (page_of n (suc p)) ≡ pos (p * n)
offset-page_of n p hp h =
    rw (offset_shut n p, sub-pos-one, wrap_of_small p hp, mul-pos, wrap_of_small (p * n) h)

module _ {ℓ} {A : Type ℓ} where
  -- `LIMIT PerPage OFFSET Offset()` on the ordered rows.
  abbrev pub page_rows : Paginator → List A → List A
  page_rows p rows = take (pos_part p.per_page) (drop (pos_part (offset p)) rows)

  -- The pages 1, 2, …, k one after the other.
  abbrev pub pages : ℕ → ℕ → List A → List A
  pages n zero rows = []
  pages n (suc k) rows = pages n k rows ++ page_rows (page_of n (suc k)) rows

  take-nil : (n : ℕ) → take {A = A} n [] ≡ []
  take-nil zero = refl
  take-nil (suc n) = refl

  take-add : (a b : ℕ) (xs : List A) → take a xs ++ take b (drop a xs) ≡ take (a + b) xs
  take-add zero b xs = rw zero-add
  take-add (suc a) b [] = rw (take-nil b, take-nil (suc a + b))
  take-add (suc a) b (x ∷ xs) = rw suc-add (ap (λ ys. x ∷ ys) (take-add a b xs))

  -- Page after page a client reads the rows in order: none twice, and none left out.
  pages-eq-take :
      (n k : ℕ) (rows : List A) → k < 2 ^ 63 → k * n < 2 ^ 63 → pages n k rows ≡ take (k * n) rows
  pages-eq-take n zero rows h hk = rw zero-mul
  pages-eq-take n (suc k) rows h hk =
      rw
        (
          offset-page_of n k (omega arith) (grind arith),
          pages-eq-take n k rows (omega arith) (grind arith),
          take-add (k * n) n rows,
        )
        (ap (λ m. take m rows) (grind arith))
