-- ===== src/Http.antt =====
-- Requests, replies and the shape of a handler (server/handler.go, server/responses.go, and the
-- context helpers of server/middleware.go): an action on the world that ends by a reply, goes on
-- with a value, or panics.
pub mod Rules
use logtrace_backend.Common.{ℕ, String, Bool, true, false, Option, none, some, ◌≡◌, refl, ap}
use logtrace_backend.Domain.{Error, Result, ok, err, User, Organization}

pub data Status : Type 0 where
  status_success status_failed : Status

pub record ApiStatus : Type 0 where
  pub status_code : ℕ
  pub message : String

-- What a handler returns: the renderer, as its APIStatus with a payload, and the status.
pub record Reply (B : Type 0) : Type 0 where
  pub api_status : ApiStatus
  pub status : Status
  pub body : Option B

-- The payload of a reply that is a plain APIStatus.
abbrev pub NoBody : Type 0
NoBody = Unit

abbrev pub new_api_status : ℕ → String → ApiStatus
new_api_status code s = record { status_code = code; message = s }

-- `return newAPIStatus(code, s), StatusFailed`
abbrev pub failure : {B : Type 0} → ℕ → String → Reply B
failure code s = record { api_status = new_api_status code s; status = status_failed; body = none }

-- `return newAPIStatus(code, s), StatusSuccess`
abbrev pub success : {B : Type 0} → ℕ → String → Reply B
success code s = record { api_status = new_api_status code s; status = status_success; body = none }

-- A response struct that embeds its APIStatus, with StatusSuccess.
abbrev pub success_with : {B : Type 0} → ℕ → String → B → Reply B
success_with code s b = record {
  api_status = new_api_status code s;
  status = status_success;
  body = some b;
}

-- The parts of `*http.Request` that the program reads; a header or a query value that is not there
-- is the empty text, as `Get` has it.
pub record Request : Type 0 where
  pub path : String
  pub method : String
  pub header : String → String
  pub query : String → String
  pub url_param : String → String
  pub remote_addr : String

-- The request context: `none` where nothing was stored, `some none` where a nil pointer was.
pub record Context : Type 0 where
  pub user : Option (Option User)
  pub organization : Option (Option Organization)

abbrev pub empty_context : Context
empty_context = record { user = none; organization = none }

pub data Step (B A : Type 0) : Type 0 where
  next : A → Step B A
  reply : Reply B → Step B A
  panic : Step B A

-- An action of a handler with replies of type `Reply B` on the world `W`.
abbrev pub Action : Type 0 → Type 0 → Type 0 → Type 0
Action W B A = W → Step B A × W

-- A handler goes on to nothing: it replies or panics.
abbrev pub Handler : Type 0 → Type 0 → Type 0
Handler W B = Action W B ⊥

module _ {W B A : Type 0} where
  unfoldable pub pure : A → Action W B A
  pure a w = (next a, w)

  unfoldable pub respond : Reply B → Action W B A
  respond r w = (reply r, w)

  unfoldable pub crash : Action W B A
  crash w = (panic, w)

  -- `*p`
  unfoldable pub deref : Option A → Action W B A
  unfolding crash pure
  deref none = crash
  deref (some a) = pure a

  -- `if p == nil { return r }`
  unfoldable pub present : Option A → Reply B → Action W B A
  unfolding respond pure
  present none r = respond r
  present (some a) r = pure a

  unfoldable pub settle : Result A → (Error → Reply B) → Action W B A
  unfolding respond pure
  settle (ok a) handler = pure a
  settle (err e) handler = respond (handler e)

  -- A read of the world: `a, err := …; if err != nil { return handler(err) }`.
  unfoldable pub ask : (W → Result A) → (Error → Reply B) → Action W B A
  unfolding settle
  ask read handler w = settle (read w) handler w

  -- A read whose result and error the handler looks at by itself.
  unfoldable pub read : (W → A) → Action W B A
  read f w = (next (f w), w)

  -- A call that may change the world, with the same check of its error.
  unfoldable pub act : (W → Result A × W) → (Error → Reply B) → Action W B A
  unfolding settle
  act call handler w = let (r, w') = call w in settle r handler w'

-- `if !b { return r }`
unfoldable pub check : {W B : Type 0} → Bool → Reply B → Action W B (Unit {0})
unfolding respond pure
check true r = pure tt
check false r = respond r

module _ {W B A C : Type 0} where
  abbrev continue : Step B A → (A → Action W B C) → Action W B C
  continue (next a) f w = f a w
  continue (reply r) f w = (reply r, w)
  continue panic f w = (panic, w)

  infixl 5 ◌>>=◌ ◌>>◌
  -- Opening this opens the actions above too.
  unfoldable pub ◌>>=◌ : Action W B A → (A → Action W B C) → Action W B C
  unfolding deref present settle ask act read check
  ◌>>=◌ m f w = let (s, w') = m w in continue s f w'

  abbrev pub ◌>>◌ : Action W B A → Action W B C → Action W B C
  m >> n = m >>= λ _. n

module _ {W B A C : Type 0} where
  continue-next :
      (s : Step B A) (f : A → Action W B C) (v w' : W) {c : C}
      → continue s f v ≡ (next c, w')
      → (a : A) × (s ≡ next a) × (f a v ≡ (next c, w'))
  continue-next (next a) f v w' h = (a, refl, h)
  continue-next (reply r) f v w' h = absurd (cc)
  continue-next panic f v w' h = absurd (cc)

  -- An action that goes on, went on after its first part.
  pub >>=-next :
      (m : Action W B A) (f : A → Action W B C) (w : W) {w' : W} {c : C}
      → (m >>= f) w ≡ (next c, w')
      → (a : A) × (v : W) × (m w ≡ (next a, v)) × (f a v ≡ (next c, w'))
  unfolding ◌>>=◌
  >>=-next m f w {w'} h =
      let (s, v) = m w in
      let (a, e, h') = continue-next s f v w' h in (a, v, ap (λ x. (x, v)) e, h')

-- `getOrganizationFromContext`: the type assertion panics where nothing was stored.
abbrev pub get_organization_from_context :
    {W B : Type 0} → Context → Action W B (Option Organization)
get_organization_from_context ctx = deref ctx.organization

abbrev pub get_user_from_context : {W B : Type 0} → Context → Action W B (Option User)
get_user_from_context ctx = deref ctx.user

-- `doesOrganizationExistInContext`
unfoldable pub does_organization_exist_in_context : Context → Bool
does_organization_exist_in_context ctx = elim ctx.organization [ none ↦ false | some _ ↦ true ]

unfoldable pub does_user_exist_in_context : Context → Bool
does_user_exist_in_context ctx = elim ctx.user [ none ↦ false | some _ ↦ true ]

unfoldable pub write_user_to_ctx : Context → Option User → Context
write_user_to_ctx ctx user = record ctx { user = some user }

unfoldable pub write_organization_to_ctx : Context → Option Organization → Context
write_organization_to_ctx ctx org = record ctx { organization = some org }
