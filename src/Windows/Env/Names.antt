-- ===== src/Windows/Env/Names.antt =====
-- The order in which `env_strncmp` puts names.
use processx.Base.{
  ◌-◌, ◌≡◌, ◌≢◌, refl, sym, ap, ◌∙◌, subst, true, none, some, [], ◌∷◌, ok, throw, arith, inl, inr,
  length, take-append_le, take_all, ◌⊎◌,
}
use processx.Windows.Search.{Text, before}
use processx.Windows.Env.{
  equals, Order, less, same, more, EnvError, compare_text, has_equals, wide_eq, var_len, name_of,
  Api, map_names, env_strncmp,
}

pub Order-cases : (o : Order) → (o ≡ less) ⊎ ((o ≡ same) ⊎ (o ≡ more))
Order-cases less = inl refl
Order-cases same = inr (inl refl)
Order-cases more = inr (inr refl)

pub compare_text_refl : (x : Text) → compare_text x x ≡ same
unfolding compare_text
compare_text_refl [] = refl
compare_text_refl (x ∷ xs) = ground (arith, compare_text_refl xs)

pub compare_text-same : (x y : Text) → compare_text x y ≡ same → x ≡ y
unfolding compare_text
compare_text-same [] [] h = refl
compare_text-same [] (y ∷ ys) h = cc
compare_text-same (x ∷ xs) [] h = cc
compare_text-same (x ∷ xs) (y ∷ ys) h = ground (arith, compare_text-same xs ys)

pub compare_text-more : (x y : Text) → compare_text x y ≡ more → compare_text y x ≡ less
unfolding compare_text
compare_text-more [] [] h = cc
compare_text-more [] (y ∷ ys) h = cc
compare_text-more (x ∷ xs) [] h = refl
compare_text-more (x ∷ xs) (y ∷ ys) h = ground (arith, compare_text-more xs ys)

pub compare_text-less : (x y : Text) → compare_text x y ≡ less → compare_text y x ≡ more
unfolding compare_text
compare_text-less [] [] h = cc
compare_text-less [] (y ∷ ys) h = refl
compare_text-less (x ∷ xs) [] h = cc
compare_text-less (x ∷ xs) (y ∷ ys) h = ground (arith, compare_text-less xs ys)

pub less_trans :
    (x y z : Text) → compare_text x y ≡ less → compare_text y z ≡ less → compare_text x z ≡ less
unfolding compare_text
less_trans [] [] z p q = cc
less_trans [] (y ∷ ys) [] p q = cc
less_trans [] (y ∷ ys) (z ∷ zs) p q = refl
less_trans (x ∷ xs) [] z p q = cc
less_trans (x ∷ xs) (y ∷ ys) [] p q = cc
less_trans (x ∷ xs) (y ∷ ys) (z ∷ zs) p q = ground (arith, less_trans xs ys zs)

-- `x` does not come after `y`.
abbrev pub Le : Text → Text → Type 0
Le x y = (compare_text x y ≡ less) ⊎ (x ≡ y)

pub Le_trans : (x y z : Text) → Le x y → Le y z → Le x z
Le_trans x y z (inl p) (inl q) = inl (less_trans x y z p q)
Le_trans x y z (inl p) (inr e) = inl (subst (λ t. compare_text x t ≡ less) e p)
Le_trans x y z (inr e) q = subst (λ t. Le t z) (sym e) q

-- A text with a name before its first `=`
abbrev pub Named : Text → Type 0
Named e = (has_equals e ≡ true) × (length (before equals e) ≢ 0)

pub name_of-wide_eq : (name : Text) → name_of (some (var_len name)) (wide_eq name) ≡ some name
unfolding name_of
name_of-wide_eq name =
    let e : var_len name - 1 ≡ length name = omega arith in
    rw e (
      ap some (
        take-append_le (length name) name (equals ∷ []) (omega arith)
        ∙ take_all (length name) name (omega arith)))

module _ (W : Api) where
  abbrev pub key : Text → Text
  key e = W.upper (before equals e)

  pub map_names-named :
      (x y : Text)
      → length x ≢ 0
      → length y ≢ 0
      → map_names W (some x) (some y) ≡ ok (compare_text (W.upper x) (W.upper y))
  unfolding map_names
  map_names-named x y p q = ground arith

  pub name_of-Named : (e : Text) → Named e → name_of none e ≡ some (before equals e)
  unfolding name_of
  name_of-Named e n = rw n.0

  -- A required variable against one of the block
  pub env_strncmp-required :
      (name e : Text)
      → length name ≢ 0
      → Named e
      → env_strncmp W (wide_eq name) (some (var_len name)) e
        ≡ ok (compare_text (W.upper name) (key e))
  unfolding env_strncmp
  env_strncmp-required name e p n =
      rw (name_of-wide_eq name, name_of-Named e n) (map_names-named name (before equals e) p n.1)

  pub env_strncmp_self : (e : Text) → Named e → env_strncmp W e none e ≡ ok same
  unfolding env_strncmp
  env_strncmp_self e n = rw (name_of-Named e n) (
      map_names-named (before equals e) (before equals e) n.1 n.1
      ∙ ap ok (compare_text_refl (key e)))

  -- No comparison is possible with a text that begins with `=`.
  pub env_strncmp-nameless :
      (e : Text)
      → has_equals e ≡ true
      → length (before equals e) ≡ 0
      → env_strncmp W e none e ≡ throw EnvError.map_failed
  unfolding env_strncmp map_names name_of
  env_strncmp-nameless e p q = rw (p, q)
