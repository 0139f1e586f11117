-- ===== src/ApiKeys/Creation.antt =====
-- What create does, and when it stores a key.
use Prim.Native.String.{String, len}
use logtrace_backend.Common.{
  ◌≡◌, ◌≤◌, refl, true, false, not, Option, none, some, ◌⊎◌, inl, inr, arith,
}
use logtrace_backend.GoText.{is_string_empty}
use logtrace_backend.Domain.{Error, Result, ok, err, Organization, User}
use logtrace_backend.Http.{Context, Step, reply, success_with}
use logtrace_backend.Http.Rules.{
  Ends, Ends-check, Ends-present, Ends-deref, Ends-settle, Ends-read, Ends-run, Ends-respond,
}
use logtrace_backend.Repositories.{ApiKeyRepository}
use logtrace_backend.ApiKeys.{
  Tools, validate_create, is_present, new_api_key, encrypted_value, create_with, create,
}

-- The names that pass: 3 to 20 bytes, not blank; the policy runs after the test.
validate_create_bounds :
    (sanitize : String → String) (name : String) (out : String)
    → validate_create sanitize name ≡ ok out
    → (is_string_empty name ≡ false) × (3 ≤ len name) × (len name ≤ 20) × (out ≡ sanitize name)
unfolding validate_create
validate_create_bounds sanitize name out h = ground arith

module _ (tools : Tools) {W : Type 0} (keys : ApiKeyRepository W) where
  -- The call by which `create` writes.
  abbrev pub stored : Organization → User → String → String → W → Result (Unit {0}) × W
  stored organization user body random =
      keys.create
        (new_api_key organization.id user.id (encrypted_value tools random) (tools.sanitize body))

  abbrev Created : String → Step String ⊥ → Type 0
  Created random s = s ≡ reply (success_with 200 "api key created" (encrypted_value tools random))

  -- What was checked before the call of the repository, and how its result is passed on.
  pub record IsCreation (ctx : Context) (bound : Option String) (random : String) (w : W)
      (s : Step String ⊥) (w' : W) : Type 0 where
    pub body : String
    pub organization : Organization
    pub user : User
    pub bound_to : bound ≡ some body
    pub not_blank : is_string_empty body ≡ false
    pub shortest : 3 ≤ len body
    pub longest : len body ≤ 20
    pub in_context : ctx.organization ≡ some (some organization)
    pub by_user : ctx.user ≡ some (some user)
    pub unused : (keys.fetch_by_name (tools.sanitize body) organization.id w).0 ≡ none
    pub written : w' ≡ (stored organization user body random w).1
    pub told :
        (((stored organization user body random w).0 ≡ ok tt) × Created random s)
        ⊎ ((e : Error) × ((stored organization user body random w).0 ≡ err e) × ¬ Created random s)

  abbrev pub Outcome : Context → Option String → String → W → Step String ⊥ → W → Type 0
  Outcome ctx bound random w s w' =
      ((w' ≡ w) × ¬ Created random s) ⊎ IsCreation ctx bound random w s w'

  create_with-Ends :
      (ctx : Context) (bound : Option String) (random : String) (w : W) (body : String)
      (organization : Organization) (pointer : Option User)
      → bound ≡ some body
      → (is_string_empty body ≡ false) × (3 ≤ len body) × (len body ≤ 20)
      → ctx.organization ≡ some (some organization)
      → ctx.user ≡ some pointer
      → Ends
          (Outcome ctx bound random w)
          (create_with tools keys organization pointer (tools.sanitize body) random)
          w
  unfolding create_with
  create_with-Ends ctx bound random w body organization pointer bound_to sized c u = Ends-read _ _ (
      Ends-check _ _ (inl (refl, λ h. cc)) λ looked_up.
        Ends-check _ _ (inl (refl, λ h. cc)) λ unused.
          Ends-deref pointer (inl (refl, λ h. cc)) λ user by_user.
            Ends-run _ _ (λ e f. inr (creation user by_user unused (inr (e, f, λ h. ground arith))))
              (λ f. Ends-respond _ (inr (creation user by_user unused (inl (f, refl))))))
    where
      creation :
          (user : User)
          → pointer ≡ some user
          → not (is_present (keys.fetch_by_name (tools.sanitize body) organization.id w).0) ≡ true
          → {s : Step String ⊥}
          → (((stored organization user body random w).0 ≡ ok tt) × Created random s)
            ⊎ ((e : Error) × ((stored organization user body random w).0 ≡ err e)
                × ¬ Created random s)
          → IsCreation ctx bound random w s (stored organization user body random w).1
      creation user by_user unused told = record {
        body = body;
        organization = organization;
        user = user;
        bound_to = bound_to;
        not_blank = sized.0;
        shortest = sized.1;
        longest = sized.2;
        in_context = c;
        by_user = cc;
        unused = ground arith;
        written = refl;
        told = told;
      }

  create-Ends :
      (ctx : Context) (bound : Option String) (random : String) (w : W)
      → Ends (Outcome ctx bound random w) (create tools keys ctx bound random) w
  unfolding create
  create-Ends ctx bound random w = Ends-deref ctx.organization (inl (refl, λ h. cc)) λ pointer held.
      Ends-deref ctx.user (inl (refl, λ h. cc)) λ user by_user.
        Ends-present bound _ (inl (refl, λ h. cc)) λ body bound_to.
          Ends-settle _ _ (λ e f. inl (refl, λ h. cc))
            λ name named. Ends-deref pointer (inl (refl, λ h. cc)) λ organization some_organization.
              let (not_blank, shortest, longest, same) = validate_create_bounds _ body name named in
              rw same (
                create_with-Ends ctx bound random w body organization user bound_to
                  (not_blank, shortest, longest) (cc) by_user)

  -- A key is stored only by one call of the repository, for the organization and the user in the
  -- context, where the name in the request is not blank and has 3 to 20 bytes; it is stored under what
  -- the sanitizing of this name gives, which no key of the organization has; the reply shows its value exactly where the repository stored it. Otherwise the world is as
  -- it was, and the reply is not the success.
  pub create_authorised :
      (ctx : Context) (bound : Option String) (random : String) (w : W)
      → Outcome ctx bound random w
          (create tools keys ctx bound random w).0
          (create tools keys ctx bound random w).1
  create_authorised ctx bound random w = (create-Ends ctx bound random w).at
