-- ===== src/GoText/Laws.antt =====
-- What the text functions give: the range of `atoi`, and when a text counts as empty.
use Prim.Native.String.len
use Prim.Native.String.{String, [], ◌∷◌, len}
use text.Mathlib.TextPositions.{len_utf8-pos}
use text.Mathlib.TextLemmas.{cons-ne-nil}
use logtrace_backend.Common.{
  ℕ, zero, suc, ◌^◌, ◌<◌, ◌≡◌, ◌↔◌, refl, true, false, Char, code, Option, none, some, arith, inl,
  inr, Bool-cases, ◌==◌, nat_eq,
}
use logtrace_backend.Common.Int.{ℤ, pos, negsuc}
use logtrace_backend.GoText.{
  atoi, unsigned, int_pos, int_neg, is_space, trim_left, trim_cons, trim_right, trim_space,
  is_string_empty,
}

-- A value of Go's int64.
abbrev pub IsInt64 : ℤ → Type 0
IsInt64 (pos n) = n < 2 ^ 63
IsInt64 (negsuc n) = n < 2 ^ 63

int_pos-IsInt64 : (o : Option ℕ) (z : ℤ) → int_pos o ≡ some z → IsInt64 z
unfolding int_pos
int_pos-IsInt64 none z h = ground arith
int_pos-IsInt64 (some n) (pos m) h = ground arith
int_pos-IsInt64 (some n) (negsuc m) h = ground arith

int_neg-IsInt64 : (o : Option ℕ) (z : ℤ) → int_neg o ≡ some z → IsInt64 z
unfolding int_neg
int_neg-IsInt64 none z h = ground arith
int_neg-IsInt64 (some zero) (pos m) h = ground arith
int_neg-IsInt64 (some zero) (negsuc m) h = ground arith
int_neg-IsInt64 (some (suc n)) (pos m) h = ground arith
int_neg-IsInt64 (some (suc n)) (negsuc m) h = ground arith

pub atoi-IsInt64 : (s : String) (z : ℤ) → atoi s ≡ some z → IsInt64 z
unfolding atoi
atoi-IsInt64 [] z h = ground arith
atoi-IsInt64 (c ∷ s) z h = ground (
  arith,
  int_pos-IsInt64 (unsigned s) z,
  int_neg-IsInt64 (unsigned s) z,
  int_pos-IsInt64 (unsigned (c ∷ s)) z,
)

-- Every character is white space.
abbrev pub AllSpace : String → Type 0
AllSpace [] = Unit
AllSpace (c ∷ s) = (is_space (code c) ≡ true) × AllSpace s

trim_right-nil : (s : String) → AllSpace s → trim_right s ≡ []
unfolding trim_right trim_cons
trim_right-nil [] h = refl
trim_right-nil (c ∷ s) (p, h) = rw (trim_right-nil s h, trim_right) (rw (p, trim_cons))

len-cons : (c : Char) (s : String) → (len (c ∷ s) == 0) ≡ false
len-cons c s = let (k, e) = len_utf8-pos c in rw len.cons (ground (arith, e))

is_string_empty-nil : (s : String) → trim_space s ≡ [] → is_string_empty s ≡ true
unfolding is_string_empty
is_string_empty-nil s h = rw h refl

nil_of_len : (s : String) → (len s == 0) ≡ true → s ≡ []
nil_of_len [] h = refl
nil_of_len (c ∷ s) h = absurd (cc (len-cons c s))

trim_left-AllSpace : (s : String) → AllSpace s → trim_left s ≡ []
unfolding trim_left
trim_left-AllSpace [] h = refl
trim_left-AllSpace (c ∷ s) (p, h) = rw p (trim_left-AllSpace s h)

AllSpace-trim_left : (s : String) → AllSpace (trim_left s) → AllSpace s
unfolding trim_left
AllSpace-trim_left [] h = tt
AllSpace-trim_left (c ∷ s) h = elim (Bool-cases (is_space (code c))) [
  | inl p ↦ (p, AllSpace-trim_left s (rw (p, trim_left) at h))
  | inr p ↦ rw (p, trim_left) at h
]

trim_cons-nil : (c : Char) (s : String) → trim_cons c s ≡ [] → (is_space (code c) ≡ true) × (s ≡ [])
unfolding trim_cons
trim_cons-nil c [] h = elim (Bool-cases (is_space (code c))) [
  | inl p ↦ (p, refl)
  | inr p ↦ absurd (cons-ne-nil c [] (rw p at h))
]
trim_cons-nil c (d ∷ s) h = absurd (cons-ne-nil c (d ∷ s) h)

AllSpace-trim_right : (s : String) → trim_right s ≡ [] → AllSpace s
unfolding trim_right
AllSpace-trim_right [] h = tt
AllSpace-trim_right (c ∷ s) h =
    let (p, e) = trim_cons-nil c (trim_right s) h in (p, AllSpace-trim_right s e)

-- A text is empty for the program exactly when all its characters are white space.
pub is_string_empty_iff : (s : String) → (is_string_empty s ≡ true) ↔ AllSpace s
unfolding is_string_empty trim_space
is_string_empty_iff s = (
  λ h. AllSpace-trim_left s (AllSpace-trim_right (trim_left s) (nil_of_len (trim_space s) h)),
  λ h. is_string_empty-nil s (rw (trim_left-AllSpace s h) refl),
)
