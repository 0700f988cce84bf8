-- ===== src/Windows/Env/Tests.antt =====
-- An environment of three variables, and instances of the theorems.
use processx.Base.{
  ℕ, ◌-◌, ◌≡◌, refl, Bool, true, false, ◌&&◌, Option, none, some, List, [], ◌∷◌, ◌++◌, map, ok,
  arith, inl, inr, leb, ◌==◌, if◌then◌else◌,
}
use processx.Windows.Search.{Text, before, from_first}
use processx.Windows.Env.{
  equals, less, same, more, compare_text, Api, has_equals, required_vars, codes, make_program_env,
}
use processx.Windows.Env.Names.{Named, Le, Le_trans, compare_text-same, compare_text-more}
use processx.Windows.Env.Merge.{All, All-map, Sorted}
use processx.Windows.Env.Passes.{Stable, joined}
use processx.Windows.Env.Sorting.{Shuffled, Shuffled-refl, Shuffled-sym, Shuffled-All, Sorts}
use processx.Windows.Env.Copy.{Converted}
use processx.Windows.Env.Program.{EnvBlock, UpperNames, make_program_env-EnvBlock}

abbrev up : ℕ → ℕ
up c = if leb b'a' c && leb c b'z' then c - 32 else c

abbrev upper_text : Text → Text
upper_text text = map up text

abbrev name_key : Text → Text
name_key e = upper_text (before equals e)

-- An insertion sort by the names
insert_text : Text → List Text → List Text
insert_text e [] = e ∷ []
insert_text e (f ∷ fs) = elim (compare_text (name_key e) (name_key f)) [
  | less ↦ e ∷ f ∷ fs
  | same ↦ e ∷ f ∷ fs
  | more ↦ f ∷ insert_text e fs
]

sort_texts : List Text → List Text
sort_texts [] = []
sort_texts (e ∷ es) = insert_text e (sort_texts es)

abbrev same_text : Text → Text → Bool
same_text [] [] = true
same_text (a ∷ xs) (b ∷ ys) = a == b && same_text xs ys
same_text _ _ = false

-- This process has TEMP=t and WINDIR=w.
abbrev this_env : Text → Option Text
this_env name =
    if same_text name (codes "TEMP")
    then some (b't' ∷ [])
    else if same_text name (codes "WINDIR")
    then some (b'w' ∷ [])
    else none

abbrev api : Api
api = record {
  wide = λ text. some text;
  upper = upper_text;
  get_env = this_env;
  get_env_later = this_env;
  sort = sort_texts;
}

insert_text-Shuffled : (e : Text) (es : List Text) → Shuffled (insert_text e es) (e ∷ es)
unfolding insert_text
insert_text-Shuffled e [] = Shuffled-refl (e ∷ [])
insert_text-Shuffled e (f ∷ fs) =
    elim (compare_text (name_key e) (name_key f))
      as (λ o.
        Shuffled (elim o [ less ↦ e ∷ f ∷ fs | same ↦ e ∷ f ∷ fs | more ↦ f ∷ insert_text e fs ])
          (e ∷ f ∷ fs)) [
            | less ↦ Shuffled-refl (e ∷ f ∷ fs)
            | same ↦ Shuffled-refl (e ∷ f ∷ fs)
            | more ↦
                Shuffled.chain (Shuffled.keep f (insert_text-Shuffled e fs)) (Shuffled.swap f e fs)
          ]

sort_texts-Shuffled : (es : List Text) → Shuffled (sort_texts es) es
unfolding sort_texts
sort_texts-Shuffled [] = Shuffled.empty
sort_texts-Shuffled (e ∷ es) =
    Shuffled.chain (insert_text-Shuffled e (sort_texts es))
      (Shuffled.keep e (sort_texts-Shuffled es))

insert_first :
    (e f : Text) (fs : List Text)
    → Le (name_key e) (name_key f)
    → Sorted api (f ∷ fs)
    → Sorted api (e ∷ f ∷ fs)
insert_first e f fs h s =
    ((h, All-map _ _ (λ g q. Le_trans (name_key e) (name_key f) (name_key g) h q) fs s.0), s)

insert_text-Sorted : (e : Text) (es : List Text) → Sorted api es → Sorted api (insert_text e es)
unfolding insert_text
insert_text-Sorted e [] s = (tt, tt)
insert_text-Sorted e (f ∷ fs) s =
    elim (compare_text (name_key e) (name_key f))
        as (λ o.
          compare_text (name_key e) (name_key f) ≡ o
          → Sorted api
              (elim o [ less ↦ e ∷ f ∷ fs | same ↦ e ∷ f ∷ fs | more ↦ f ∷ insert_text e fs ])) [
                | less ↦ λ q. insert_first e f fs (inl q) s
                | same ↦ λ q. insert_first e f fs (inr (compare_text-same _ _ q)) s
                | more ↦ λ q. (
                  Shuffled-All (λ g. Le (name_key f) (name_key g))
                      (Shuffled-sym (insert_text-Shuffled e fs))
                      (inl (compare_text-more _ _ q), s.0),
                  insert_text-Sorted e fs s.1,
                )
              ]
      refl

sort_texts-Sorted : (es : List Text) → Sorted api (sort_texts es)
unfolding sort_texts
sort_texts-Sorted [] = tt
sort_texts-Sorted (e ∷ es) = insert_text-Sorted e (sort_texts es) (sort_texts-Sorted es)

api-Sorts : Sorts api
api-Sorts = record {
  shuffles = λ es h. sort_texts-Shuffled es;
  sorts = λ es h. sort_texts-Sorted es;
}

-- Windir=x, a text without a name and value, and A=1
abbrev envs : List (List ℕ)
envs = codes "Windir=x" ∷ codes "none" ∷ codes "A=1" ∷ []

abbrev id : Text
id = codes "PS=YES"

has_all :
    make_program_env api envs id
    ≡ ok
        (joined (codes "A=1" ∷ codes "PS=YES" ∷ codes "TEMP=t" ∷ codes "Windir=x" ∷ []) ++ (0 ∷ []))
unfolding make_program_env required_vars sort_texts insert_text joined from_first before
    compare_text
has_all = refl

envs-Converted : Converted api envs (codes "Windir=x" ∷ codes "A=1" ∷ [])
unfolding has_equals from_first
envs-Converted =
    Converted.kept _ _ refl refl
      (Converted.skipped _ refl (Converted.kept _ _ refl refl Converted.done))

api-UpperNames : UpperNames api
unfolding required_vars
api-UpperNames = ground arith

api-Stable : (names : List Text) → All (Stable api) names
api-Stable [] = tt
api-Stable (name ∷ names) = (refl, api-Stable names)

envs-Named : All Named (codes "Windir=x" ∷ codes "A=1" ∷ id ∷ [])
unfolding has_equals from_first before
envs-Named = ground arith

make_program_env-EnvBlock_example :
    (block : Text) × (make_program_env api envs id ≡ ok block)
    × EnvBlock api required_vars (codes "Windir=x" ∷ codes "A=1" ∷ id ∷ []) block
make_program_env-EnvBlock_example =
    make_program_env-EnvBlock api id id api-Sorts api-UpperNames (api-Stable required_vars)
      envs-Converted refl envs-Named

-- =C:=d is how Windows keeps the current directory of a drive.
abbrev drive : Text
drive = codes "=C:=d"
