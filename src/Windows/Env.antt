-- ===== src/Windows/Env.antt =====
-- The environment of a new process, of src/win/processx.c: `env_strncmp`,
-- `processx__make_program_env` and `processx__add_tree_id_env`. A text is the list of its UTF-16
-- units with no zero among them; a pointer to a text is the text. What has been written of the
-- block is a list of units, and a write behind the end of the allocated block is an error.
pub mod Names
pub mod Merge
pub mod Sorted
pub mod Passes
pub mod Both
pub mod Sorting
pub mod Copy
pub mod Vars
pub mod Program
pub mod TreeId
mod Tests
use Prim.Native.Char.{code}
use Prim.Native.String.{String}
use processx.Base.{
  ℕ, suc, ◌+◌, ◌-◌, Bool, true, false, not, Option, none, some, List, [], ◌∷◌, ◌++◌, Result, ok,
  throw, ltb, leb, ◌==◌, if◌then◌else◌, length, take,
}
use processx.Windows.Search.{Text, before, from_first}

abbrev pub equals : ℕ
equals = b'='

pub data Order : Type 0 where
  less same more : Order

-- `conversion`, `map_failed` and `changed` are the errors that the code reports; the others stand
-- for what C or Windows leave open.
pub data EnvError : Type 0 where
  conversion map_failed changed : EnvError
  no_equals overrun uninitialized unspecified : EnvError

infixl 5 ◌>>=◌
abbrev pub ◌>>=◌ {ℓ κ} :
    {A : Type ℓ} {B : Type κ} → Result EnvError A → (A → Result EnvError B) → Result EnvError B
throw e >>= f = throw e
ok a >>= f = f a

-- What the code takes from Windows and from the C library.
pub record Api : Type 0 where
  -- `MultiByteToWideChar` of UTF-8; `none` is its error.
  pub wide : List ℕ → Option Text
  -- `LCMapStringW` with `LCMAP_UPPERCASE`
  pub upper : Text → Text
  -- The environment of this process at the first and at the second `GetEnvironmentVariableW`
  pub get_env : Text → Option Text
  pub get_env_later : Text → Option Text
  -- `qsort` by `qsort_wcscmp`
  pub sort : List Text → List Text

-- `while (1)` over the two names, which end with a zero
unfoldable pub compare_text : Text → Text → Order
compare_text [] [] = same
compare_text [] (y ∷ ys) = less
compare_text (x ∷ xs) [] = more
compare_text (x ∷ xs) (y ∷ ys) =
    let rest = compare_text xs ys in if ltb x y then less else if ltb y x then more else rest

-- `strchr(env, '=')`
unfoldable pub has_equals : List ℕ → Bool
has_equals text = not (length (from_first equals text) == 0)

abbrev pub codes : String → List ℕ
codes String.[] = []
codes (String.◌∷◌ c s) = code c ∷ codes s

-- `required_vars`, each by its name
unfoldable pub required_vars : List Text
required_vars =
    codes "HOMEDRIVE"
    ∷ codes "HOMEPATH"
    ∷ codes "LOGONSERVER"
    ∷ codes "PATH"
    ∷ codes "SYSTEMDRIVE"
    ∷ codes "SYSTEMROOT"
    ∷ codes "TEMP"
    ∷ codes "USERDOMAIN"
    ∷ codes "USERNAME"
    ∷ codes "USERPROFILE"
    ∷ codes "WINDIR"
    ∷ []

-- `wide_eq` and `len` of `E_V`
abbrev pub wide_eq : Text → Text
wide_eq name = name ++ (equals ∷ [])

abbrev pub var_len : Text → ℕ
var_len name = length name + 1

-- The first `na - 1` units, or those before the first `=`
unfoldable pub name_of : Option ℕ → Text → Option Text
unfolding has_equals
name_of none text = if has_equals text then some (before equals text) else none
name_of (some na) text = some (take (na - 1) text)

abbrev pub Sizes : Type 0
Sizes = List (Text × Option ℕ)

abbrev pub record_size : Text → Option ℕ → Result EnvError (Sizes × ℕ) → Result EnvError (Sizes × ℕ)
record_size name size rest = rest >>= λ r. ok ((name, size) ∷ r.0, r.1)

-- A write to the block of `1 + env_len` units that ends `ahead` units behind what it leaves there
abbrev pub put : ℕ → Text → Text → ℕ → Result EnvError Text
put env_len dst units ahead =
    if leb (length dst + length units + ahead) (1 + env_len)
    then ok (dst ++ units)
    else throw overrun

abbrev pub write_value : ℕ → ℕ → Text → ℕ × Option Text → Result EnvError Text
write_value env_len len dst (size, text) =
    if size == len - 1
    then elim text [ none ↦ throw unspecified | some value ↦ put env_len dst (value ++ (0 ∷ [])) 0 ]
    else throw changed

-- `GetEnvironmentVariableW` with no buffer: the size with the zero, and 0 if there is none
abbrev pub size_of : Option Text → ℕ
size_of none = 0
size_of (some value) = length value + 1

abbrev pub grown : ℕ → Text → ℕ → ℕ
grown env_len name size = if size == 0 then env_len else env_len + var_len name + size

module _ (W : Api) where
  -- `LCMapStringW` takes no text of length 0: its documentation asks for another length.
  unfoldable pub map_names : Option Text → Option Text → Result EnvError Order
  map_names none y = throw no_equals
  map_names (some x) none = throw no_equals
  map_names (some x) (some y) =
      if length x == 0
      then throw map_failed
      else if length y == 0
      then throw map_failed
      else ok (compare_text (W.upper x) (W.upper y))

  unfoldable pub env_strncmp : Text → Option ℕ → Text → Result EnvError Order
  unfolding map_names name_of
  env_strncmp a na b = map_names (name_of na a) (name_of none b)

  -- The first pass, over `env_block`
  unfoldable pub measure_vars : List (List ℕ) → ℕ → ℕ → Result EnvError (ℕ × ℕ)
  measure_vars [] env_len count = ok (env_len, count)
  measure_vars (env ∷ envs) env_len count = elim (has_equals env) [
    | false ↦ measure_vars envs env_len count
    | true ↦ elim (W.wide env) [
      | none ↦ throw conversion
      | some text ↦ measure_vars envs (env_len + (length text + 1)) (count + 1)
    ]
  ]

  -- One conversion of the second pass, with what is left of the copy
  unfoldable pub convert_var : List ℕ → ℕ → Result EnvError (Text × ℕ)
  convert_var env room = elim (W.wide env) [
    | none ↦ throw conversion
    | some text ↦
        if leb (length text + 1) room then ok (text, room - (length text + 1)) else throw overrun
  ]

  -- The second pass: `env_copy`, and what is left of the copy
  unfoldable pub convert_vars : List (List ℕ) → ℕ → Result EnvError (List Text × ℕ)
  unfolding convert_var
  convert_vars [] room = ok ([], room)
  convert_vars (env ∷ envs) room = elim (has_equals env) [
    | false ↦ convert_vars envs room
    | true ↦ convert_var env room >>= λ c. convert_vars envs c.1 >>= λ r. ok (c.0 ∷ r.0, r.1)
  ]

  -- A sort of two texts or more compares each of them with another.
  unfoldable pub compare_all : List Text → Result EnvError (Unit {0})
  compare_all [] = ok tt
  compare_all (e ∷ es) = env_strncmp e none e >>= λ _. compare_all es

  unfoldable pub sort_env : List Text → Result EnvError (List Text)
  unfolding compare_all
  sort_env es = if ltb (length es) 2 then ok es else compare_all es >>= λ _. ok (W.sort es)

  abbrev pub var_size : Text → ℕ
  var_size name = size_of (W.get_env name)

  -- The third pass: `required_vars_value_len`, in which `none` is not set, and `env_len`
  unfoldable pub third_pass : List Text → List Text → ℕ → Result EnvError (Sizes × ℕ)
  unfolding env_strncmp
  third_pass [] es env_len = ok ([], env_len)
  third_pass (name ∷ names) [] env_len =
      record_size name (some (var_size name))
        (third_pass names [] (grown env_len name (var_size name)))
  third_pass (name ∷ names) (e ∷ es) env_len =
      elim (env_strncmp (wide_eq name) (some (var_len name)) e) [
        | throw err ↦ throw err
        | ok less ↦
            record_size name (some (var_size name))
              (third_pass names (e ∷ es) (grown env_len name (var_size name)))
        | ok same ↦ record_size name none (third_pass names es env_len)
        | ok more ↦ third_pass (name ∷ names) es env_len
      ]

  -- `GetEnvironmentVariableW` into `room` units: what it returns, and the text there afterwards
  unfoldable pub read_env : Text → ℕ → ℕ × Option Text
  read_env name room = elim (W.get_env_later name) [
    | none ↦ (0, some [])
    | some value ↦
        if leb (length value + 1) room then (length value, some value) else (length value + 1, none)
  ]

  -- The case of a missing variable
  unfoldable pub insert_var : ℕ → Text → Option ℕ → Text → Result EnvError Text
  unfolding read_env
  insert_var env_len name none dst = throw uninitialized
  insert_var env_len name (some len) dst =
      if len == 0
      then ok dst
      else put env_len dst (wide_eq name) 1 >>= λ ptr.
          write_value env_len len ptr (read_env name (env_len - length ptr))

  -- The final pass; the last write is that of the additional zero.
  unfoldable pub final_pass : ℕ → Sizes → List Text → Text → Result EnvError Text
  unfolding env_strncmp insert_var
  final_pass env_len [] [] dst = put env_len dst (0 ∷ []) 0
  final_pass env_len [] (e ∷ es) dst =
      put env_len dst (e ++ (0 ∷ [])) 0 >>= λ ptr. final_pass env_len [] es ptr
  final_pass env_len ((name, size) ∷ sizes) [] dst =
      insert_var env_len name size dst >>= λ ptr. final_pass env_len sizes [] ptr
  final_pass env_len ((name, size) ∷ sizes) (e ∷ es) dst =
      elim (env_strncmp (wide_eq name) (some (var_len name)) e) [
        | throw err ↦ throw err
        | ok less ↦
            insert_var env_len name size dst >>= λ ptr. final_pass env_len sizes (e ∷ es) ptr
        | ok same ↦ put env_len dst (e ++ (0 ∷ [])) 0 >>= λ ptr. final_pass env_len sizes es ptr
        | ok more ↦ put env_len dst (e ++ (0 ∷ [])) 0 >>= λ ptr.
            final_pass env_len ((name, size) ∷ sizes) es ptr
      ]

  -- The first pass with the tree id
  unfoldable pub first_pass : List (List ℕ) → List ℕ → Result EnvError (ℕ × ℕ)
  unfolding measure_vars
  first_pass envs tree_id = measure_vars envs 0 1 >>= λ m. elim (W.wide tree_id) [
    | none ↦ throw conversion
    | some text ↦ ok (m.0 + (length text + 1), m.1 + 1)
  ]

  -- The second pass with the tree id; `env_copy` has a place for each pointer and for `NULL`.
  unfoldable pub second_pass : List (List ℕ) → List ℕ → ℕ → ℕ → Result EnvError (List Text)
  unfolding convert_vars convert_var
  second_pass envs tree_id env_len count = convert_vars envs env_len >>= λ r.
      convert_var tree_id r.1 >>= λ c.
      let copy = r.0 ++ (c.0 ∷ []) in if ltb (length copy) count then ok copy else throw overrun

  -- `processx__make_program_env`
  unfoldable pub make_program_env : List (List ℕ) → List ℕ → Result EnvError Text
  unfolding first_pass second_pass sort_env third_pass final_pass
  make_program_env envs tree_id = first_pass envs tree_id >>= λ m.
      second_pass envs tree_id m.0 m.1 >>= λ copy. sort_env (take (m.1 - 1) copy) >>= λ sorted.
      third_pass required_vars sorted m.0 >>= λ t. final_pass t.1 t.0 sorted []

-- The loop of `processx__add_tree_id_env` that adds up `len`; `start` if `*ptr` begins a text.
unfoldable pub env_length : Bool → Text → ℕ
env_length start [] = 0
env_length start (c ∷ cs) =
    let len = suc (env_length (c == 0) cs) in if c == 0 then if start then 0 else len else len

-- `processx__add_tree_id_env`, on `GetEnvironmentStringsW` and the converted id, where `none` is an
-- error of theirs that the code returns
unfoldable pub add_tree_id_env : Option Text → Option Text → Result EnvError Text
unfolding env_length
add_tree_id_env none id = throw conversion
add_tree_id_env (some env) none = throw conversion
add_tree_id_env (some env) (some id) =
    ok ((take (env_length true env) env ++ (id ++ (0 ∷ []))) ++ (0 ∷ []))
