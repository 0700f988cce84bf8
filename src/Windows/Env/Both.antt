-- ===== src/Windows/Env/Both.antt =====
-- The third and the final pass of `processx__make_program_env` on sorted texts and required names.
use processx.Base.{
  ℕ, ◌≡◌, refl, ap, ◌∙◌, subst, Option, none, some, List, [], ◌∷◌, ◌++◌, ok, inl, inr,
}
use processx.Windows.Search.{Text}
use processx.Windows.Env.{
  Order, less, same, more, ◌>>=◌, compare_text, wide_eq, var_len, var_size, grown, record_size, Api,
  Sizes, env_strncmp, third_pass, final_pass, put, insert_var,
}
use processx.Windows.Env.Names.{Order-cases, Named, key, env_strncmp-required}
use processx.Windows.Env.Merge.{All, Required, merged-end, merged-less, merged-same, merged-more}
use processx.Windows.Env.Passes.{Stable, Pass, Pass-nil, Pass-insert, Pass-take, names_of}

module _ (W : Api) where
  -- What both passes do next, by the comparison of the two heads
  module _ (name e : Text) (es : List Text) where
    third_pass-less :
        (names : List Text) (env_len : ℕ)
        → env_strncmp W (wide_eq name) (some (var_len name)) e ≡ ok less
        → third_pass W (name ∷ names) (e ∷ es) env_len
          ≡ record_size name
              (some (var_size W name))
              (third_pass W names (e ∷ es) (grown env_len name (var_size W name)))
    unfolding third_pass
    third_pass-less names env_len q = rw (q, third_pass)

    third_pass-same :
        (names : List Text) (env_len : ℕ)
        → env_strncmp W (wide_eq name) (some (var_len name)) e ≡ ok same
        → third_pass W (name ∷ names) (e ∷ es) env_len
          ≡ record_size name none (third_pass W names es env_len)
    unfolding third_pass
    third_pass-same names env_len q = rw (q, third_pass)

    third_pass-more :
        (names : List Text) (env_len : ℕ)
        → env_strncmp W (wide_eq name) (some (var_len name)) e ≡ ok more
        → third_pass W (name ∷ names) (e ∷ es) env_len ≡ third_pass W (name ∷ names) es env_len
    unfolding third_pass
    third_pass-more names env_len q = rw (q, third_pass)

    final_pass-less :
        (cap : ℕ) (size : Option ℕ) (sizes : Sizes) (dst : Text)
        → env_strncmp W (wide_eq name) (some (var_len name)) e ≡ ok less
        → final_pass W cap ((name, size) ∷ sizes) (e ∷ es) dst
          ≡ (insert_var W cap name size dst >>= λ ptr. final_pass W cap sizes (e ∷ es) ptr)
    unfolding final_pass
    final_pass-less cap size sizes dst q = rw (q, final_pass)

    final_pass-same :
        (cap : ℕ) (size : Option ℕ) (sizes : Sizes) (dst : Text)
        → env_strncmp W (wide_eq name) (some (var_len name)) e ≡ ok same
        → final_pass W cap ((name, size) ∷ sizes) (e ∷ es) dst
          ≡ (put cap dst (e ++ (0 ∷ [])) 0 >>= λ ptr. final_pass W cap sizes es ptr)
    unfolding final_pass
    final_pass-same cap size sizes dst q = rw (q, final_pass)

    final_pass-more :
        (cap : ℕ) (names : List Text) (sizes : Sizes) (dst : Text)
        → env_strncmp W (wide_eq name) (some (var_len name)) e ≡ ok more
        → names_of sizes ≡ name ∷ names
        → final_pass W cap sizes (e ∷ es) dst
          ≡ (put cap dst (e ++ (0 ∷ [])) 0 >>= λ ptr. final_pass W cap sizes es ptr)
    unfolding final_pass
    final_pass-more cap names [] dst q h = cc
    final_pass-more cap names ((n, size) ∷ sizes) dst q h =
        let same_name : name ≡ n = cc in
        let q' : env_strncmp W (wide_eq n) (some (var_len n)) e ≡ ok more =
          subst (λ t. env_strncmp W (wide_eq t) (some (var_len t)) e ≡ ok more) same_name q in
        rw (q', final_pass)

  Pass-end :
      (name : Text) (names : List Text) (env_len : ℕ)
      → Stable W name
      → Pass W names [] (grown env_len name (var_size W name))
      → Pass W (name ∷ names) [] env_len
  unfolding third_pass final_pass
  Pass-end name names env_len s p =
      Pass-insert W name names [] env_len (merged-end W name names) refl (λ cap sizes dst. refl) s p

  pub passes :
      (names es : List Text) (env_len : ℕ)
      → All (Required W) names
      → All (Stable W) names
      → All Named es
      → Pass W names es env_len
  passes [] es env_len r s n = Pass-nil W es env_len
  passes (name ∷ names) [] env_len r s n =
      Pass-end name names env_len s.0
        (passes names [] (grown env_len name (var_size W name)) r.1 s.1 n)
  passes (name ∷ names) (e ∷ es) env_len r s n =
      let cmp = λ (o : Order) (q : compare_text (W.upper name) (key W e) ≡ o).
        env_strncmp-required W name e r.0.0.0 n.0 ∙ ap ok q in
      let after_less = passes names (e ∷ es) (grown env_len name (var_size W name)) r.1 s.1 n in
      let after_same = passes names es env_len r.1 s.1 n.1 in
      let after_more = passes (name ∷ names) es env_len r s n.1 in
      elim (Order-cases (compare_text (W.upper name) (key W e))) [
        | inl o ↦
            Pass-insert W name names (e ∷ es) env_len (merged-less W name names e es o)
              (third_pass-less name e es names env_len (cmp less o))
              (λ cap sizes dst.
                final_pass-less name e es cap (some (var_size W name)) sizes dst (cmp less o))
              s.0 after_less
        | inr (inl o) ↦
            Pass-take W e (name ∷ names) names es env_len (λ sizes. (name, none) ∷ sizes)
              (merged-same W name names e es o)
              (λ sizes l q. rw (third_pass-same name e es names env_len (cmp same o), q) refl)
              (λ sizes h. ap (λ ns. name ∷ ns) h)
              (λ cap sizes dst h. final_pass-same name e es cap none sizes dst (cmp same o))
              after_same
        | inr (inr o) ↦
            Pass-take W e (name ∷ names) (name ∷ names) es env_len (λ sizes. sizes)
              (merged-more W name names e es o)
              (λ sizes l q. third_pass-more name e es names env_len (cmp more o) ∙ q) (λ sizes h. h)
              (λ cap sizes dst h. final_pass-more name e es cap names sizes dst (cmp more o) h)
              after_more
      ]
