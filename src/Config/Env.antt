-- ===== src/Config/Env.antt =====
-- bindEnvs of config/env.go, which tells viper from which variable of the environment each setting
-- is read, and exportEnv and walkStruct of cmd/cli/export_config.go, which write the example of such
-- an environment. A struct is what reflection shows of it.
pub mod Names
use Prim.Native.String.{String, [], ◌∷◌, ◌++◌}
use mathlib.Core.List
use logtrace_backend.Common.{
  ℕ, Char, code, Bool, Option, none, some, List, ◌||◌, ◌==◌, nat_eq, string_eq, if◌then◌else◌,
}
use logtrace_backend.Domain.{Error, Result, ok, err}

-- `reflect.Value`: a field that is neither a struct nor a pointer shows as `%v` prints it.
mutual
  pub data Value : Type 0 where
    leaf : String → Value
    nil_pointer : Value
    pointer : Value → Value
    struct : Fields → Value

  -- The fields of a struct, with their Go names and their `mapstructure` tags.
  pub data Fields : Type 0 where
    end : Fields
    field : String → Option String → Value → Fields → Fields

-- `strings.ReplaceAll(path, ".", "_")`
dots_replaced : String → String
dots_replaced [] = []
dots_replaced (c ∷ s) = (if code c == b'.' then "_" else c) ∷ dots_replaced s

upper_among : String → String → Char → Char
upper_among (a ∷ lower) (b ∷ upper) c = if code a == code c then b else upper_among lower upper c
upper_among _ _ c = c

-- `strings.ToUpper` of a text in ASCII.
to_upper : String → String
unfolding upper_among
to_upper [] = []
to_upper (c ∷ s) =
    upper_among "abcdefghijklmnopqrstuvwxyz" "ABCDEFGHIJKLMNOPQRSTUVWXYZ" c ∷ to_upper s

unfoldable pub env_key : String → String
unfolding dots_replaced to_upper
env_key path = to_upper (dots_replaced path)

abbrev pub env_prefix : String
env_prefix = "LOGTRACE_"

abbrev pub path_under : String → String → String
path_under prefix name = if prefix == "" then name else prefix ++ ("." ++ name)

-- `name`, or the tag where there is one.
abbrev pub bound_name : String → Option String → String
bound_name name none = name
bound_name name (some tag) = tag

-- The pairs of a path and a variable that `v.BindEnv` is called with.
unfoldable mutual
  pub bind_envs : String → Fields → List (String × String)
  bind_envs prefix end = List.[]
  bind_envs prefix (field name tag v fs) =
      List.◌++◌ (bind_value (path_under prefix (bound_name name tag)) v) (bind_envs prefix fs)

  pub bind_value : String → Value → List (String × String)
  bind_value path (struct fs) = bind_envs path fs
  bind_value path (leaf s) = List.◌∷◌ (path, env_prefix ++ env_key path) List.[]
  bind_value path nil_pointer = List.◌∷◌ (path, env_prefix ++ env_key path) List.[]
  bind_value path (pointer v) = List.◌∷◌ (path, env_prefix ++ env_key path) List.[]

-- `strings.SplitN(tag, ",", 2)[0]`
unfoldable pub before_comma : String → String
before_comma [] = []
before_comma (c ∷ s) = let rest = c ∷ before_comma s in if code c == b',' then [] else rest

-- `field.Tag.Get("mapstructure")`
abbrev pub tag_or_empty : Option String → String
tag_or_empty none = ""
tag_or_empty (some tag) = tag

abbrev pub chain : {S : Type 0} → Result S → (S → Result S) → Result S
chain (ok s) f = f s
chain (err e) f = err e

-- What the callback of `walkStruct` changes is a state.
module _ {S : Type 0} (fn : Value → String → String → S → Result S) where
  unfoldable mutual
    pub walk_struct : String → Fields → S → Result S
    walk_struct prefix end s = ok s
    walk_struct prefix (field name tag v fs) s =
        let tag_name = before_comma (tag_or_empty tag) in
        let skipped = walk_struct prefix fs s in
        let visited =
          chain (walk_value (path_under prefix tag_name) v s) (λ s'. walk_struct prefix fs s') in
        if tag_name == "" || tag_name == "-" then skipped else visited

    -- Pointers are followed up to a nil one.
    pub walk_value : String → Value → S → Result S
    walk_value path (struct fs) s = walk_struct path fs s
    walk_value path (pointer v) s = walk_value path v s
    walk_value path nil_pointer s = fn nil_pointer path (env_key path) s
    walk_value path (leaf x) s = fn (leaf x) path (env_key path) s

-- `fmt.Sprintf("%v", …)`; a struct and a followed pointer do not come here.
abbrev pub shown : Value → String
shown (leaf s) = s
shown nil_pointer = "<nil>"
shown (pointer v) = ""
shown (struct fs) = ""

-- The callback of `exportEnv`.
abbrev pub add_line : String → Value → String → String → String → Result String
add_line prefix v path key sb = ok (sb ++ ((prefix ++ key) ++ ("=" ++ (shown v ++ "\n"))))

-- `write` stands for the writer.
module _ {W : Type 0} (write : String → W → Result (Unit {0}) × W) where
  abbrev written : Result String → W → Result (Unit {0}) × W
  written (err e) w = (err e, w)
  written (ok sb) w = write sb w

  unfoldable pub export_env : Fields → String → String → W → Result (Unit {0}) × W
  export_env fs prefix path_prefix w = written (walk_struct (add_line prefix) path_prefix fs "") w
