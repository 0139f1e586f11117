-- ===== src/Http/Rules.antt =====
-- One rule for each way in which a handler goes on: what is to be shown of its reply and the final
-- world is shown of the early reply, and of the rest under the fact that the test gave.
use logtrace_backend.Common.{◌≡◌, refl, Bool, true, false, Option, none, some, if◌then◌else◌}
use logtrace_backend.Domain.{Error, Result, ok, err}
use logtrace_backend.Http.{
  Action, Step, reply, panic, Reply, check, present, deref, settle, ask, act, read, respond, pure,
  ◌>>=◌, ◌>>◌,
}

-- The action `m`, run in the world `w`, ends with a step and a world that satisfy `P`.
pub record Ends {W B A : Type 0} (P : Step B A → W → Type 0) (m : Action W B A) (w : W)
    : Type 0 where
  pub at : P (m w).0 (m w).1

module _ {W B C : Type 0} {P : Step B C → W → Type 0} {w : W} where
  pub Ends-respond : (r : Reply B) → P (reply r) w → Ends P (respond r) w
  unfolding ◌>>=◌
  Ends-respond r h = record { at = h }

  pub Ends-check :
      (b : Bool) (r : Reply B) {m : Action W B C}
      → P (reply r) w
      → (b ≡ true → Ends P m w)
      → Ends P (check b r >> m) w
  unfolding ◌>>=◌
  Ends-check true r early later = later refl
  Ends-check false r early later = record { at = early }

  pub Ends-if :
      (b : Bool) (m n : Action W B C)
      → (b ≡ true → Ends P m w)
      → (b ≡ false → Ends P n w)
      → Ends P (if b then m else n) w
  Ends-if true m n yes_case no_case = yes_case refl
  Ends-if false m n yes_case no_case = no_case refl

module _ {W B A C : Type 0} {P : Step B C → W → Type 0} {w : W} where
  pub Ends-pure : (a : A) (f : A → Action W B C) → Ends P (f a) w → Ends P (pure a >>= f) w
  unfolding ◌>>=◌
  Ends-pure a f later = record { at = later.at }

  pub Ends-present :
      (o : Option A) (r : Reply B) {f : A → Action W B C}
      → P (reply r) w
      → ((a : A) → o ≡ some a → Ends P (f a) w)
      → Ends P (present o r >>= f) w
  unfolding ◌>>=◌
  Ends-present none r early later = record { at = early }
  Ends-present (some a) r early later = later a refl

  pub Ends-deref :
      (o : Option A) {f : A → Action W B C}
      → P panic w
      → ((a : A) → o ≡ some a → Ends P (f a) w)
      → Ends P (deref o >>= f) w
  unfolding ◌>>=◌
  Ends-deref none early later = record { at = early }
  Ends-deref (some a) early later = later a refl

  pub Ends-settle :
      (o : Result A) (g : Error → Reply B) {f : A → Action W B C}
      → ((e : Error) → o ≡ err e → P (reply (g e)) w)
      → ((a : A) → o ≡ ok a → Ends P (f a) w)
      → Ends P (settle o g >>= f) w
  unfolding ◌>>=◌
  Ends-settle (ok a) g early later = later a refl
  Ends-settle (err e) g early later = record { at = early e refl }

  pub Ends-ask :
      (q : W → Result A) (g : Error → Reply B) {f : A → Action W B C}
      → ((e : Error) → q w ≡ err e → P (reply (g e)) w)
      → ((a : A) → q w ≡ ok a → Ends P (f a) w)
      → Ends P (ask q g >>= f) w
  unfolding ◌>>=◌
  Ends-ask q g early later = record { at = (Ends-settle (q w) g early later).at }

  pub Ends-read : (q : W → A) (f : A → Action W B C) → Ends P (f (q w)) w → Ends P (read q >>= f) w
  unfolding ◌>>=◌
  Ends-read q f later = record { at = later.at }

-- A call that writes: the rest runs in the world that the call left, and so does the early reply.
module _ {W B A C : Type 0} {P : Step B C → W → Type 0} where
  settled :
      (o : Result A) (v : W) (g : Error → Reply B) (f : A → Action W B C)
      → ((e : Error) → o ≡ err e → P (reply (g e)) v)
      → ((a : A) → o ≡ ok a → Ends P (f a) v)
      → Ends P (settle o g >>= f) v
  unfolding ◌>>=◌
  settled (ok a) v g f early later = later a refl
  settled (err e) v g f early later = record { at = early e refl }

  pub Ends-act :
      {w : W} (call : W → Result A × W) (g : Error → Reply B) {f : A → Action W B C}
      → ((e : Error) → (call w).0 ≡ err e → P (reply (g e)) (call w).1)
      → ((a : A) → (call w).0 ≡ ok a → Ends P (f a) (call w).1)
      → Ends P (act call g >>= f) w
  unfolding ◌>>=◌
  Ends-act {w} call g {f} early later = record {
    at = (settled (call w).0 (call w).1 g f early later).at;
  }

module _ {W B C : Type 0} {P : Step B C → W → Type 0} where
  -- The same for a call that returns nothing but its error.
  pub Ends-run :
      {w : W} (call : W → Result (Unit {0}) × W) (g : Error → Reply B) {m : Action W B C}
      → ((e : Error) → (call w).0 ≡ err e → P (reply (g e)) (call w).1)
      → ((call w).0 ≡ ok tt → Ends P m (call w).1)
      → Ends P (act call g >> m) w
  unfolding ◌>>=◌
  Ends-run call g {m} early later = record {
    at = (settled (call _).0 (call _).1 g (λ _. m) early (λ a h. later h)).at;
  }
