-- ===== src/Tests/Hashes.antt =====
-- The store of passwords in memory; the world is the table.
use logtrace_backend.Common.{
  ◌≡◌, refl, Bool, true, some, List, [], ◌∷◌, ◌++◌, filter, arith, ◌==◌, nat_eq, Bool-cases, inl,
  inr,
}
use logtrace_backend.Common.Int.{pos}
use logtrace_backend.GoText.{is_string_empty, trim_space, trim_left, trim_right, is_space}
use logtrace_backend.Domain.{Uuid, no_rows, user_not_found, ok, err, Result, Password}
use logtrace_backend.Http.{reply, success, ◌>>=◌}
use logtrace_backend.Sql.{Arg, uuid, Predicate, Table}
use logtrace_backend.Sql.Laws.{matches}
use logtrace_backend.Auth
use logtrace_backend.Auth.{validate_reset}
use logtrace_backend.Auth.Passwords.{confirm_reset}
use logtrace_backend.Auth.Passwords.Stored.{IsReplaced, confirm_reset-IsReplaced}
use logtrace_backend.Stores.Passwords.{stored_passwords, update}
use logtrace_backend.Stores.Passwords.Map.{
  IsPasswordMap, IsPasswordTable, IsProper, hash_of, stored_passwords-IsPasswordMap,
}
use logtrace_backend.Tests.Fixtures.{account_tools, tokens}
use logtrace_backend.Tests.Memory.{memory}

abbrev same_user : List Arg → Uuid → Bool
same_user (uuid a ∷ []) b = b == a
same_user _ b = true

abbrev found : List Password → Result Password
found [] = err no_rows
found (p ∷ ps) = ok p

abbrev password_holds : Predicate → Password → Bool
password_holds q p = same_user q.args p.user_id

abbrev passwords : Table Password (List Password)
passwords = record (memory password_holds (λ s p. p)) {
  first = λ cs w. found (filter (matches password_holds cs) w);
}

first_of :
    (xs : List Password) (r : Password)
    → found xs ≡ ok r
    → (before : List Password) × (after : List Password) × (xs ≡ before ++ (r ∷ after))
first_of [] r h = absurd (cc)
first_of (p ∷ ps) r h = let same : p ≡ r = cc in ([], ps, rw same refl)

laws : IsPasswordTable passwords (λ w. w)
laws = record {
  finds = λ cs w r h. first_of (filter (matches password_holds cs) w) r h;
  inserts = λ p w w' h. cc;
  replaces = λ p cs w w' h. cc;
  by_user = λ u p. refl;
}

abbrev alices_hash : List Password
alices_hash = record { user_password = "hash of secret-1"; user_id = 7 } ∷ []

proper : IsProper passwords (λ w. w) laws alices_hash
proper u = elim (Bool-cases (7 == u)) [ inl e ↦ rw e (omega arith) | inr e ↦ rw e (omega arith) ]

stored_passwords-IsPasswordMap_example :
    IsPasswordMap
      (stored_passwords passwords)
      (IsProper passwords (λ w. w) laws)
      (hash_of passwords (λ w. w) laws)
stored_passwords-IsPasswordMap_example = stored_passwords-IsPasswordMap passwords (λ w. w) laws

abbrev services : Auth.Services (List Password)
services = record {
  users = record {
    create = λ u w. (ok (some u), w);
    list = λ opts w. err user_not_found;
    list_all = λ opts w. ok ([], pos 0);
    update = λ u w. (ok u, w);
  };
  orgs = record {
    create = λ o w. (ok o, w);
    list = λ opts w. err no_rows;
    update = λ o w. (ok o, w);
    delete = λ opts w. (ok tt, w);
    list_all = λ opts w. ok ([], pos 0);
  };
  passwords = stored_passwords passwords;
  verifications = record { create = λ v w. (ok tt, w) };
  tokens = tokens;
  queue = record { add = λ m w. (ok tt, w) };
}

abbrev form : Auth.ResetPasswordRequest
form = record { token = "reset"; password = "curiouser-2"; confirm_password = "curiouser-2" }

is_reset :
    (confirm_reset account_tools services 10 (some form) alices_hash).0
    ≡ reply (success 200 "password reset successfully")
unfolding confirm_reset validate_reset update is_string_empty trim_space trim_left trim_right
    is_space ◌>>=◌
is_reset = refl

confirm_reset-IsReplaced_example :
    IsReplaced account_tools services
      (IsProper passwords (λ w. w) laws)
      (hash_of passwords (λ w. w) laws)
      (stored_passwords-IsPasswordMap passwords (λ w. w) laws)
      10
      (some form)
      alices_hash
      (confirm_reset account_tools services 10 (some form) alices_hash).1
confirm_reset-IsReplaced_example =
    confirm_reset-IsReplaced account_tools services (IsProper passwords (λ w. w) laws)
      (hash_of passwords (λ w. w) laws) (stored_passwords-IsPasswordMap passwords (λ w. w) laws) 10
      (some form) alices_hash proper is_reset
