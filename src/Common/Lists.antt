-- ===== src/Common/Lists.antt =====
-- Lists over the native numbers, and predicates on lists by recursion.
use Prim.Native.Nat.{ℕ, zero, suc, ◌+◌}
use mathlib.Core.Path.{◌≡◌}
use mathlib.Core.Bool.{Bool, true, false, ◌||◌}
use mathlib.Core.Logic.{inl, inr}
use mathlib.Core.List.{List, [], ◌∷◌, ◌++◌}
use native.Mathlib.Omega.{arith}
use logtrace_backend.Common.Tests.{◌==◌, nat_eq, if◌then◌else◌, ==_iff, Bool-cases}

module _ {ℓ} {A : Type ℓ} where
  abbrev pub length : List A → ℕ
  length [] = 0
  length (x ∷ xs) = suc (length xs)

  abbrev pub take : ℕ → List A → List A
  take zero xs = []
  take (suc n) [] = []
  take (suc n) (x ∷ xs) = x ∷ take n xs

  abbrev pub drop : ℕ → List A → List A
  drop zero xs = xs
  drop (suc n) [] = []
  drop (suc n) (x ∷ xs) = drop n xs

  abbrev pub filter : (A → Bool) → List A → List A
  filter p [] = []
  filter p (x ∷ xs) = if p x then x ∷ filter p xs else filter p xs

  pub length-append : (xs ys : List A) → length (xs ++ ys) ≡ length xs + length ys
  length-append [] ys = omega arith
  length-append (x ∷ xs) ys = omega (arith, length-append xs ys)

module _ {ℓ κ} {A : Type ℓ} (P : A → Type κ) where
  abbrev pub All : List A → Type κ
  All [] = Unit
  All (x ∷ xs) = P x × All xs

-- `slices.Contains` on identifiers.
unfoldable pub contains : List ℕ → ℕ → Bool
contains [] a = false
contains (x ∷ xs) a = x == a || contains xs a

-- The abstract side of `contains`: a position that holds the value.
pub data Member (a : ℕ) : List ℕ → Type 0 where
  here : {x : ℕ} {xs : List ℕ} → x ≡ a → Member a (x ∷ xs)
  there : {x : ℕ} {xs : List ℕ} → Member a xs → Member a (x ∷ xs)

pub contains-Member : (xs : List ℕ) (a : ℕ) → contains xs a ≡ true → Member a xs
unfolding contains
contains-Member [] a h = absurd (cc)
contains-Member (x ∷ xs) a h = elim (Bool-cases (x == a)) [
  | inl same ↦ here ((==_iff x a).0 same)
  | inr other ↦ there (contains-Member xs a (ground arith))
]

pub Member-contains : {a : ℕ} {xs : List ℕ} → Member a xs → contains xs a ≡ true
unfolding contains
Member-contains (here e) = ground arith
Member-contains {a} (there {x} m) = ground (arith, Member-contains m)
