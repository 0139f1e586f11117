-- ===== src/Enums/Values.antt =====
-- Which texts are values of the enums.
use Prim.Native.String.{String}
use mathlib.Core.List.{Memᴰ}
use mathlib.Core.List.Memᴰ.{head, tail}
use logtrace_backend.Common.{
  ◌≡◌, ap, sym, ◌∙◌, List, [], ◌∷◌, ◌==◌, string_eq, ==_iff, Bool-cases, inl, inr,
}
use logtrace_backend.Domain.{ok}
use logtrace_backend.Enums.{parse_value}

unwrapped : {a b : String} → ok a ≡ ok b → a ≡ b
unwrapped h = cc

-- A value that is parsed is its own text, and one of the values.
parse_value-Memᴰ :
    (vs : List String) (message name v : String)
    → parse_value vs message name ≡ ok v
    → (v ≡ name) × Memᴰ name vs
unfolding parse_value
parse_value-Memᴰ [] message name v h = absurd (cc)
parse_value-Memᴰ (x ∷ vs) message name v h = elim (Bool-cases (name == x)) [
  | inl e ↦
      let same = (==_iff name x).0 e in
      (sym (unwrapped (rw (parse_value, e) at h)) ∙ sym same, head same)
  | inr e ↦
      let (text, among) = parse_value-Memᴰ vs message name v (rw (parse_value, e) at h) in
      (text, tail among)
]

-- Every value is parsed to itself.
Memᴰ-parse_value :
    (vs : List String) (message name : String)
    → Memᴰ name vs
    → parse_value vs message name ≡ ok name
unfolding parse_value
Memᴰ-parse_value [] message name m = elim m [ ]
Memᴰ-parse_value (x ∷ vs) message name (head e) =
    rw (parse_value, (==_iff name x).1 e) (ap (λ s. ok s) (sym e))
Memᴰ-parse_value (x ∷ vs) message name (tail m) = elim (Bool-cases (name == x)) [
  | inl e ↦ rw (parse_value, e) (ap (λ s. ok s) (sym ((==_iff name x).0 e)))
  | inr e ↦ rw (parse_value, e) (Memᴰ-parse_value vs message name m)
]
