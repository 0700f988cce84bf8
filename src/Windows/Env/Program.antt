-- ===== src/Windows/Env/Program.antt =====
-- What `processx__make_program_env` makes of the variables that it is given.
use processx.Base.{
  ℕ, ◌+◌, ◌-◌, ◌≤◌, ◌<◌, ◌≡◌, ◌≢◌, refl, true, some, List, [], ◌∷◌, ◌++◌, ok, throw, arith, inl,
  inr, length, length-append, In, take, take_all, ge→ltb,
}
use processx.Windows.Search.{Text, before}
use processx.Windows.Env.{
  equals, EnvError, ◌>>=◌, Api, third_pass, final_pass, required_vars, has_equals, sort_env,
  make_program_env,
}
use processx.Windows.Env.Names.{Named, key}
use processx.Windows.Env.Merge.{
  All, Ascending, Plain, Required, Sorted, merged, In-merged, merged-Found,
}
use processx.Windows.Env.Sorted.{Origin, merged-Origin, merged-Sorted}
use processx.Windows.Env.Passes.{Stable, joined, joined_size}
use processx.Windows.Env.Copy.{
  Converted, first_pass_lem, second_pass_lem, sort_env_lem, compare_all-nameless,
}
use processx.Windows.Env.Both.{passes}
use processx.Windows.Env.Sorting.{
  Shuffled, Shuffled-sym, Shuffled-In, Shuffled-All, Shuffled-size, Sorts,
}
use processx.Windows.Env.Vars.{required_vars-Plain, required_vars-Ascending}

module _ (W : Api) where
  -- A block that holds the given texts, in the order of their names
  pub record EnvBlock (names given : List Text) (block : Text) : Type 0 where
    pub entries : List Text
    pub laid_out : block ≡ joined entries ++ (0 ∷ [])
    pub ordered : Sorted W entries
    pub holds : (x : Text) → In x given → In x entries
    -- The variables of this process with these names are there, with their values or with given
    -- ones.
    pub required :
        (name value : Text)
        → In name names
        → W.get_env name ≡ some value
        → (x : Text) × In x entries × (key W x ≡ name)
    -- Nothing else is there, and none of this process of which one is given.
    pub origin : (x : Text) → In x entries → Origin W x names given

  Origin-shuffled :
      (x : Text) (names : List Text) {es fs : List Text}
      → Shuffled es fs
      → Origin W x names es
      → Origin W x names fs
  Origin-shuffled x names p (inl i) = inl (Shuffled-In x p i)
  Origin-shuffled x names p (inr (name, value, i, g, q, h)) =
      inr (name, value, i, g, q, Shuffled-All (λ e. key W e ≢ name) p h)

  -- The last two passes over a shuffle of the texts
  finished :
      (names given sorted : List Text)
      → All (Required W) names
      → Ascending names
      → All (Stable W) names
      → All Named given
      → Shuffled sorted given
      → Sorted W sorted
      → (block : Text) × ((third_pass W names sorted (joined_size given) >>= λ t.
            final_pass W t.1 t.0 sorted [])
          ≡ ok block)
        × EnvBlock names given block
  finished names given sorted r a stable named p s =
      let (sizes, env_len, q, heads, total, run) =
        passes W names sorted (joined_size given) r stable
          (Shuffled-All Named (Shuffled-sym p) named) in
      let fits : 0 + joined_size (merged W names sorted) ≤ env_len =
        omega (arith, total, Shuffled-size p) in
      (
        joined (merged W names sorted) ++ (0 ∷ []),
        rw q (run env_len [] fits),
        record {
          entries = merged W names sorted;
          laid_out = refl;
          ordered = merged-Sorted W names sorted r a s;
          holds = λ x i. In-merged W x names sorted (Shuffled-In x (Shuffled-sym p) i);
          required = λ name value i g. merged-Found W name value names sorted r i g;
          origin = λ x i. Origin-shuffled x names p (merged-Origin W x names sorted r a s i);
        },
      )

module _ (W : Api) where
  -- The required names are in upper case.
  abbrev pub UpperNames : Type 0
  UpperNames = All (λ name. W.upper name ≡ name) required_vars

  names-Required :
      (names : List Text)
      → All Plain names
      → All (λ name. W.upper name ≡ name) names
      → All (Required W) names
  names-Required [] p u = tt
  names-Required (name ∷ names) p u = ((p.0, u.0), names-Required names p.1 u.1)

  -- If the required names are in upper case and this process does not change its variables
  -- meanwhile, qsort sorts, and the given variables and the tree id can be converted and have
  -- names, then make_program_env returns without a write behind the end of the block or a read of
  -- a size that was not set, and the block holds, in the order of their names, the given variables
  -- with a `=`, the tree id, and each required variable that this process has and that is not
  -- given; each entry ends with a zero, and the block with one more.
  pub make_program_env-EnvBlock :
      {envs : List (List ℕ)} {given : List Text} (tree_id : List ℕ) (id : Text)
      → Sorts W
      → UpperNames
      → All (Stable W) required_vars
      → Converted W envs given
      → W.wide tree_id ≡ some id
      → All Named (given ++ (id ∷ []))
      → (block : Text) × (make_program_env W envs tree_id ≡ ok block)
        × EnvBlock W required_vars (given ++ (id ∷ [])) block
  unfolding make_program_env
  make_program_env-EnvBlock {envs} {given} tree_id id laws upper stable c w named =
      let copy : List Text = given ++ (id ∷ []) in
      let (sorted, ran, p, s) = sort_env_lem W laws copy named in
      let all_copied : take (length given + 2 - 1) copy ≡ copy =
        take_all (length given + 2 - 1) copy (omega (arith, length-append given (id ∷ []))) in
      let (block, finish, holds) =
        finished W required_vars copy sorted
          (names-Required required_vars required_vars-Plain upper) required_vars-Ascending stable
          named p s in
      (
        block,
        rw (first_pass_lem W tree_id id c w, second_pass_lem W tree_id id c w, all_copied, ran)
            finish,
        holds,
      )

  -- If there are given variables, all convert, and one of them or the tree id begins with `=`,
  -- then make_program_env throws the error of the conversion to upper case.
  pub make_program_env-nameless :
      {envs : List (List ℕ)} {given : List Text} (tree_id : List ℕ) (id bad : Text)
      → Converted W envs given
      → W.wide tree_id ≡ some id
      → 0 < length given
      → All (λ e. has_equals e ≡ true) (given ++ (id ∷ []))
      → In bad (given ++ (id ∷ []))
      → length (before equals bad) ≡ 0
      → make_program_env W envs tree_id ≡ throw EnvError.map_failed
  unfolding make_program_env sort_env
  make_program_env-nameless {envs} {given} tree_id id bad c w some_given eqs i z =
      let copy : List Text = given ++ (id ∷ []) in
      let size = length-append given (id ∷ []) in
      let all_copied : take (length given + 2 - 1) copy ≡ copy =
        take_all (length given + 2 - 1) copy (omega arith) in
      rw (
        first_pass_lem W tree_id id c w,
        second_pass_lem W tree_id id c w,
        all_copied,
        ge→ltb (length copy) 2 (omega arith),
        compare_all-nameless W bad copy eqs i z,
      )
