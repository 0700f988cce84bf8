-- ===== src/Windows/Env/Copy.antt =====
-- The passes of `processx__make_program_env` that make the sorted copy of the given variables.
use processx.Base.{
  ℕ, ◌+◌, ◌-◌, ◌≤◌, ◌<◌, ◌≡◌, refl, ◌∙◌, true, false, Bool-cases, some, List, [], ◌∷◌, ◌++◌, ok,
  throw, arith, inl, inr, ltb, ◌==◌, length, length-append, In, lt→ltb, ltb→lt, ==→eq, ==→ne,
}
use processx.Windows.Search.{Text, before}
use processx.Windows.Env.{
  equals, EnvError, Api, has_equals, measure_vars, convert_var, convert_vars, first_pass,
  second_pass, compare_all, sort_env,
}
use processx.Windows.Env.Names.{Named, env_strncmp_self, env_strncmp-nameless}
use processx.Windows.Env.Merge.{All, Sorted}
use processx.Windows.Env.Passes.{joined_size, joined_size-nil, joined_size-cons, joined_size-append}
use processx.Windows.Env.Sorting.{Shuffled, Shuffled-refl, Sorts}

module _ (W : Api) where
  -- The variables that have a `=` convert to these texts.
  pub data Converted : List (List ℕ) → List Text → Type 0 where
    done : Converted [] []
    skipped :
        (env : List ℕ) {envs : List (List ℕ)} {texts : List Text}
        → has_equals env ≡ false
        → Converted envs texts
        → Converted (env ∷ envs) texts
    kept :
        (env : List ℕ) {envs : List (List ℕ)} (text : Text) {texts : List Text}
        → has_equals env ≡ true
        → W.wide env ≡ some text
        → Converted envs texts
        → Converted (env ∷ envs) (text ∷ texts)

  measure_vars_lem :
      {envs : List (List ℕ)} {texts : List Text} (env_len count : ℕ)
      → Converted envs texts
      → measure_vars W envs env_len count ≡ ok (env_len + joined_size texts, count + length texts)
  unfolding measure_vars
  measure_vars_lem env_len count done = rw joined_size-nil (ground arith)
  measure_vars_lem env_len count (skipped env h c) =
      rw (h, measure_vars) (measure_vars_lem env_len count c)
  measure_vars_lem env_len count (kept env text {texts} h w c) =
      rw (h, w, measure_vars)
        (measure_vars_lem (env_len + (length text + 1)) (count + 1) c
          ∙ ground (arith, joined_size-cons text texts))

  convert_var_lem :
      (env : List ℕ) (text : Text) (room : ℕ)
      → W.wide env ≡ some text
      → length text + 1 ≤ room
      → convert_var W env room ≡ ok (text, room - (length text + 1))
  unfolding convert_var
  convert_var_lem env text room w h = rw (w, convert_var) (ground arith)

  convert_vars_lem :
      {envs : List (List ℕ)} {texts : List Text} (room : ℕ)
      → Converted envs texts
      → joined_size texts ≤ room
      → convert_vars W envs room ≡ ok (texts, room - joined_size texts)
  unfolding convert_vars
  convert_vars_lem room done h = rw joined_size-nil (ground arith)
  convert_vars_lem room (skipped env e c) h = rw (e, convert_vars) (convert_vars_lem room c h)
  convert_vars_lem room (kept env text {texts} e w c) h =
      let size = joined_size-cons text texts in
      rw
        (
          e,
          convert_vars,
          convert_var_lem env text room w (omega arith),
          convert_vars_lem (room - (length text + 1)) c (omega arith),
        )
        (ground arith)

  -- The first two passes
  module _ {envs : List (List ℕ)} {given : List Text} (tree_id : List ℕ) (id : Text)
      (c : Converted envs given) (w : W.wide tree_id ≡ some id) where
    pub first_pass_lem :
        first_pass W envs tree_id ≡ ok (joined_size (given ++ (id ∷ [])), length given + 2)
    unfolding first_pass
    first_pass_lem =
        rw (measure_vars_lem 0 1 c, w)
          (ground
            (arith, joined_size-append given (id ∷ []), joined_size-cons id [], joined_size-nil))

    pub second_pass_lem :
        second_pass W envs tree_id (joined_size (given ++ (id ∷ []))) (length given + 2)
        ≡ ok (given ++ (id ∷ []))
    unfolding second_pass
    second_pass_lem =
        let total = joined_size (given ++ (id ∷ [])) in
        let size = joined_size-append given (id ∷ []) in
        let size_id = joined_size-cons id [] in
        let size_copy = length-append given (id ∷ []) in
        rw (
          convert_vars_lem total c (omega arith),
          convert_var_lem tree_id id (total - joined_size given) w (omega (arith, joined_size-nil)),
          lt→ltb (length (given ++ (id ∷ []))) (length given + 2) (omega arith),
        )

  pub compare_all_lem : (es : List Text) → All Named es → compare_all W es ≡ ok tt
  unfolding compare_all
  compare_all_lem [] h = refl
  compare_all_lem (e ∷ es) h = rw (env_strncmp_self W e h.0) (compare_all_lem es h.1)

  Sorted-one : (es : List Text) → length es < 2 → Sorted W es
  Sorted-one [] h = tt
  Sorted-one (e ∷ []) h = (tt, tt)
  Sorted-one (e ∷ f ∷ es) h = absurd (omega arith)

  pub sort_env_lem :
      Sorts W
      → (es : List Text) → All Named es
      → (sorted : List Text) × (sort_env W es ≡ ok sorted) × Shuffled sorted es × Sorted W sorted
  unfolding sort_env
  sort_env_lem laws es h = elim (Bool-cases (ltb (length es) 2)) [
    | inl few ↦ (es, rw few refl, Shuffled-refl es, Sorted-one es (ltb→lt (length es) 2 few))
    | inr many ↦
        (W.sort es, rw (many, compare_all_lem es h) refl, laws.shuffles es h, laws.sorts es h)
  ]

  -- A text that begins with `=` stops the comparisons.
  pub compare_all-nameless :
      (bad : Text) (es : List Text)
      → All (λ e. has_equals e ≡ true) es
      → In bad es
      → length (before equals bad) ≡ 0
      → compare_all W es ≡ throw EnvError.map_failed
  unfolding compare_all
  compare_all-nameless bad [] h i z = elim i [ ]
  compare_all-nameless bad (e ∷ es) h i z =
      let later = λ (j : In bad es). compare_all-nameless bad es h.1 j z in
      elim (Bool-cases (length (before equals e) == 0)) [
        | inl nameless ↦ rw (env_strncmp-nameless W e h.0 (==→eq _ 0 nameless)) refl
        | inr named ↦
            rw (env_strncmp_self W e (h.0, ==→ne _ 0 named))
              (elim i [ inl q ↦ absurd (==→ne _ 0 named (rw (← q) z)) | inr j ↦ later j ])
      ]
