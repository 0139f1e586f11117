-- ===== src/Config/Env/Names.antt =====
-- That the example which export-config writes names the variables which the configuration is read
-- from.
use Prim.Native.String.{String, ◌++◌}
use mathlib.Core.List
use mathlib.Core.List.{map-append}
use text.Mathlib.TextLemmas.{append_assoc, append-nil, nil-append}
use logtrace_backend.Common.{
  ◌≡◌, refl, ap, sym, ◌∙◌, Bool, true, false, ◌&&◌, ◌||◌, not, Option, none, some, List, [], ◌∷◌,
  map, arith, ◌==◌, string_eq, ==_iff,
}
use logtrace_backend.Domain.{Result, ok}
use logtrace_backend.Config.Env.{
  Value, leaf, nil_pointer, pointer, struct, Fields, end, field, env_key, env_prefix, path_under,
  bind_envs, bind_value, before_comma, tag_or_empty, walk_struct, walk_value, add_line, export_env,
}

-- A setting of the configuration: where it stands, and what it shows.
pub record Setting : Type 0 where
  pub path : String
  pub value : String

unfoldable mutual
  pub settings : String → Fields → List Setting
  settings prefix end = []
  settings prefix (field name tag v fs) =
      List.◌++◌ (settings_of (path_under prefix (tag_or_empty tag)) v) (settings prefix fs)

  pub settings_of : String → Value → List Setting
  settings_of path (struct fs) = settings path fs
  settings_of path (leaf s) = record { path = path; value = s } ∷ []
  settings_of path nil_pointer = []
  settings_of path (pointer v) = []

-- A tag that is a name.
abbrev is_name : Option String → Bool
is_name none = false
is_name (some t) = (before_comma t == t) && not (t == "" || t == "-")

-- Every field has a name as its tag, and no field is a pointer.
unfoldable mutual
  pub is_tagged : Fields → Bool
  is_tagged end = true
  is_tagged (field name tag v fs) = is_name tag && (is_plain v && is_tagged fs)

  pub is_plain : Value → Bool
  is_plain (leaf s) = true
  is_plain nil_pointer = false
  is_plain (pointer v) = false
  is_plain (struct fs) = is_tagged fs

abbrev pub variable : Setting → String
variable s = env_prefix ++ env_key s.path

abbrev pub bound : Setting → String × String
bound s = (s.path, variable s)

abbrev pub line : Setting → String
line s = variable s ++ ("=" ++ (s.value ++ "\n"))

abbrev pub text_of : List Setting → String
text_of [] = ""
text_of (s ∷ ss) = line s ++ text_of ss

text_of-append : (xs ys : List Setting) → text_of (List.◌++◌ xs ys) ≡ text_of xs ++ text_of ys
text_of-append [] ys = sym (nil-append (text_of ys))
text_of-append (x ∷ xs) ys =
    ap (λ t. line x ++ t) (text_of-append xs ys)
    ∙ sym (append_assoc (line x) (text_of xs) (text_of ys))

both_true : {a b : Bool} → (a && b) ≡ true → (a ≡ true) × (b ≡ true)
both_true {a} {b} h = ground arith

mutual
  unfolding bind_envs settings is_tagged

  bind_envs-settings :
      (prefix : String) (fs : Fields)
      → is_tagged fs ≡ true
      → bind_envs prefix fs ≡ map bound (settings prefix fs)
  bind_envs-settings prefix end h = refl
  bind_envs-settings prefix (field name none v fs) h = absurd (cc)
  bind_envs-settings prefix (field name (some t) v fs) h =
      let (named, rest) = both_true h in
      let (plain, tagged) = both_true rest in
      ap (λ xs. List.◌++◌ xs (bind_envs prefix fs))
        (bind_value-settings (path_under prefix t) v plain)
      ∙ ap (λ xs. List.◌++◌ (map bound (settings_of (path_under prefix t) v)) xs)
          (bind_envs-settings prefix fs tagged)
      ∙ sym (map-append bound (settings_of (path_under prefix t) v) (settings prefix fs))

  bind_value-settings :
      (path : String) (v : Value)
      → is_plain v ≡ true
      → bind_value path v ≡ map bound (settings_of path v)
  bind_value-settings path (leaf s) h = refl
  bind_value-settings path nil_pointer h = absurd (cc)
  bind_value-settings path (pointer v) h = absurd (cc)
  bind_value-settings path (struct fs) h = bind_envs-settings path fs h

name_not_skipped :
    (t : String) → is_name (some t) ≡ true → (before_comma t ≡ t) × ((t == "" || t == "-") ≡ false)
name_not_skipped t h =
    let (whole, other) = both_true h in ((==_iff (before_comma t) t).0 whole, ground arith)

mutual
  unfolding walk_struct settings is_tagged

  walk_struct-settings :
      (prefix : String) (fs : Fields) (sb : String)
      → is_tagged fs ≡ true
      → walk_struct (add_line env_prefix) prefix fs sb ≡ ok (sb ++ text_of (settings prefix fs))
  walk_struct-settings prefix end sb h = ap ok (sym (append-nil sb))
  walk_struct-settings prefix (field name none v fs) sb h = absurd (cc)
  walk_struct-settings prefix (field name (some t) v fs) sb h =
      let (named, rest) = both_true h in
      let (plain, tagged) = both_true rest in
      let (whole, other) = name_not_skipped t named in
      let path = path_under prefix t in
      let here = settings_of path v in
      rw (whole, other, walk_value-settings path v sb plain)
        (walk_struct-settings prefix fs (sb ++ text_of here) tagged
          ∙ ap ok (
              append_assoc sb (text_of here) (text_of (settings prefix fs))
              ∙ ap (λ x. sb ++ x) (sym (text_of-append here (settings prefix fs)))))

  walk_value-settings :
      (path : String) (v : Value) (sb : String)
      → is_plain v ≡ true
      → walk_value (add_line env_prefix) path v sb ≡ ok (sb ++ text_of (settings_of path v))
  walk_value-settings path (leaf s) sb h =
      ap (λ t. ok (sb ++ t)) (sym (append-nil (line (record { path = path; value = s }))))
  walk_value-settings path nil_pointer sb h = absurd (cc)
  walk_value-settings path (pointer v) sb h = absurd (cc)
  walk_value-settings path (struct fs) sb h = walk_struct-settings path fs sb h

module _ {W : Type 0} (write : String → W → Result (Unit {0}) × W) where
  -- Where every field is tagged by a name and no field is a pointer, export-config writes one line
  -- for each setting, and the names in the lines are exactly the variables that bindEnvs binds, in
  -- the same order, each with the value of its setting.
  pub export_env-binds :
      (fs : Fields) (w : W)
      → is_tagged fs ≡ true
      → (export_env write fs env_prefix "" w ≡ write (text_of (settings "" fs)) w)
        × (bind_envs "" fs ≡ map bound (settings "" fs))
  unfolding export_env
  export_env-binds fs w tagged = (
    rw (walk_struct-settings "" fs "" tagged)
        (ap (λ t. write t w) (nil-append (text_of (settings "" fs)))),
    bind_envs-settings "" fs tagged,
  )
