-- ===== src/Windows/Env/Sorted.antt =====
-- The order of the merge, and where each of its texts comes from.
use processx.Base.{
  ◌≡◌, ◌≢◌, refl, sym, subst, Option, none, some, List, [], ◌∷◌, ◌++◌, inl, inr, In, In-append, ◌⊎◌,
}
use processx.Windows.Search.{Text}
use processx.Windows.Env.{Order, less, same, more, compare_text, wide_eq, Api}
use processx.Windows.Env.Names.{
  Order-cases, compare_text_refl, compare_text-same, compare_text-more, less_trans, Le, key,
}
use processx.Windows.Env.Merge.{
  All, All-In, All-map, All-of-In, Ascending, entry_of, entry_of-In, Required, Sorted, inherited,
  merged, merged-nil, merged-end, merged-less, merged-same, merged-more, key-wide_eq,
}

less-ne : (x y : Text) → compare_text x y ≡ less → y ≢ x
less-ne x y h q =
    let c : compare_text x x ≡ less = subst (λ t. compare_text x t ≡ less) q h in
    absurd (cc (compare_text_refl x))

less-Le : (x y z : Text) → compare_text x y ≡ less → Le y z → compare_text x z ≡ less
less-Le x y z h (inl q) = less_trans x y z h q
less-Le x y z h (inr e) = subst (λ t. compare_text x t ≡ less) e h

-- A name below the first is below all others.
below-All :
    (x n : Text) (names : List Text)
    → compare_text x n ≡ less
    → Ascending (n ∷ names)
    → All (λ m. compare_text x m ≡ less) (n ∷ names)
below-All x n names h s = (h, All-map _ _ (λ m q. less_trans x n m h q) names s.0)

or_map : {A B C : Type 0} → (B → C) → A ⊎ B → A ⊎ C
or_map f (inl a) = inl a
or_map f (inr b) = inr (f b)

module _ (W : Api) where
  -- A text of the merge is a given one, or a required variable of which none is given.
  abbrev pub Origin : Text → List Text → List Text → Type 0
  Origin x names es =
      In x es
      ⊎ ((name : Text) × (value : Text) × In name names
          × (W.get_env name ≡ some value)
          × (x ≡ wide_eq name ++ value)
          × All (λ e. key W e ≢ name) es)

  Origin-later : (x n : Text) (names es : List Text) → Origin x names es → Origin x (n ∷ names) es
  Origin-later x n names es (inl i) = inl i
  Origin-later x n names es (inr (name, value, i, g, q, h)) = inr (name, value, inr i, g, q, h)

  Origin-cons :
      (x e : Text) (names es : List Text)
      → All (λ name. key W e ≢ name) names
      → In x (e ∷ []) ⊎ Origin x names es
      → Origin x names (e ∷ es)
  Origin-cons x e names es d (inl (inl q)) = inl (inl q)
  Origin-cons x e names es d (inl (inr i)) = elim i [ ]
  Origin-cons x e names es d (inr (inl i)) = inl (inr i)
  Origin-cons x e names es d (inr (inr (name, value, i, g, q, h))) =
      inr (name, value, i, g, q, (All-In (λ m. key W e ≢ m) name names d i, h))

  Origin-inherited :
      (x n : Text) (names es : List Text)
      → All (λ e. key W e ≢ n) es
      → In x (inherited W n) ⊎ Origin x names es
      → Origin x (n ∷ names) es
  Origin-inherited x n names es d (inl i) =
      let (value, g, q) = entry_of-In n x (W.get_env n) i in inr (n, value, inl refl, g, q, d)
  Origin-inherited x n names es d (inr o) = Origin-later x n names es o

  -- The first given text is behind `n`, so all are.
  behind :
      (n e : Text) (es : List Text)
      → compare_text n (key W e) ≡ less
      → Sorted W (e ∷ es)
      → All (λ f. compare_text n (key W f) ≡ less) (e ∷ es)
  behind n e es h s = (h, All-map _ _ (λ f q. less-Le n (key W e) (key W f) h q) es s.0)

  -- The given text is before the first name, or has it, so it is before the later ones.
  before_names :
      (e n : Text) (names : List Text)
      → Ascending (n ∷ names)
      → Le (key W e) n
      → All (λ m. compare_text (key W e) m ≡ less) names
  before_names e n names s (inl h) = (below-All (key W e) n names h s).1
  before_names e n names s (inr q) =
      subst (λ t. All (λ m. compare_text t m ≡ less) names) (sym q) s.0

  differ :
      (e : Text) (names : List Text)
      → All (λ m. compare_text (key W e) m ≡ less) names
      → All (λ m. key W e ≢ m) names
  differ e names h = All-map _ _ (λ m q r. less-ne (key W e) m q (sym r)) names h

  pub merged-Origin :
      (x : Text) (names es : List Text)
      → All (Required W) names
      → Ascending names
      → Sorted W es
      → In x (merged W names es)
      → Origin x names es
  merged-Origin x [] es r a s i = inl (rw (← merged-nil W es) i)
  merged-Origin x (n ∷ names) [] r a s i =
      let j : In x (inherited W n ++ merged W names []) = rw (← merged-end W n names) i in
      Origin-inherited x n names [] tt (elim (In-append x (inherited W n) (merged W names []) j) [
        | inl k ↦ inl k
        | inr k ↦ inr (merged-Origin x names [] r.1 a.1 s k)
      ])
  merged-Origin x (n ∷ names) (e ∷ es) r a s i =
      let after_less = merged-Origin x names (e ∷ es) r.1 a.1 s in
      let after_same = merged-Origin x names es r.1 a.1 s.1 in
      let after_more = merged-Origin x (n ∷ names) es r a s.1 in
      let in_order = λ (o : Order) (p : compare_text (W.upper n) (key W e) ≡ o).
        subst (λ t. compare_text t (key W e) ≡ o) r.0.1 p in
      elim (Order-cases (compare_text (W.upper n) (key W e))) [
        | inl o ↦
            Origin-inherited x n names (e ∷ es)
              (All-map _ _ (λ f q. less-ne n (key W f) q) (e ∷ es)
                (behind n e es (in_order less o) s))
              (or_map after_less (
                In-append x (inherited W n) (merged W names (e ∷ es))
                  (subst (λ t. In x t) (merged-less W n names e es o) i)))
        | inr (inl o) ↦ Origin-later x n names (e ∷ es) (
            Origin-cons x e names es
              (differ e names (
                before_names e n names a
                  (inr (sym (compare_text-same n (key W e) (in_order same o))))))
              (or_map after_same (
                In-append x (e ∷ []) (merged W names es)
                  (subst (λ t. In x t) (merged-same W n names e es o) i))))
        | inr (inr o) ↦
            Origin-cons x e (n ∷ names) es
              (differ e (n ∷ names)
                (below-All (key W e) n names (compare_text-more n (key W e) (in_order more o)) a))
              (or_map after_more (
                In-append x (e ∷ []) (merged W (n ∷ names) es)
                  (subst (λ t. In x t) (merged-more W n names e es o) i)))
      ]

  -- What lies behind all names and all given texts lies behind the merge.
  merged-above :
      (t : Text) (names es : List Text)
      → All (Required W) names
      → Ascending names
      → Sorted W es
      → All (λ n. Le t n) names
      → All (λ e. Le t (key W e)) es
      → All (λ x. Le t (key W x)) (merged W names es)
  merged-above t names es r a s bn be =
      All-of-In (λ x. Le t (key W x)) (merged W names es)
        (λ x i. elim (merged-Origin x names es r a s i) [
          | inl j ↦ All-In (λ e. Le t (key W e)) x es be j
          | inr (name, value, j, g, q, d) ↦
              let k : key W x ≡ name =
                rw q (key-wide_eq W name value (All-In (Required W) name names r j)) in
              subst (λ u. Le t u) (sym k) (All-In (λ n. Le t n) name names bn j)
        ])

  Sorted-entry_of :
      (n : Text) (found : Option Text) (out : List Text)
      → Required W n
      → All (λ x. Le n (key W x)) out
      → Sorted W out
      → Sorted W (entry_of n found ++ out)
  Sorted-entry_of n none out r b s = s
  Sorted-entry_of n (some value) out r b s =
      (subst (λ t. All (λ x. Le t (key W x)) out) (sym (key-wide_eq W n value r)) b, s)

  pub merged-Sorted :
      (names es : List Text)
      → All (Required W) names
      → Ascending names
      → Sorted W es
      → Sorted W (merged W names es)
  merged-Sorted [] es r a s = rw (merged-nil W es) s
  merged-Sorted (n ∷ names) [] r a s = rw (merged-end W n names) (
      Sorted-entry_of n (W.get_env n) (merged W names []) r.0
        (merged-above n names [] r.1 a.1 tt (All-map _ _ (λ m q. inl q) names a.0) tt)
        (merged-Sorted names [] r.1 a.1 tt))
  merged-Sorted (n ∷ names) (e ∷ es) r a s =
      let after_less = merged-Sorted names (e ∷ es) r.1 a.1 s in
      let after_same = merged-Sorted names es r.1 a.1 s.1 in
      let after_more = merged-Sorted (n ∷ names) es r a s.1 in
      let in_order = λ (o : Order) (p : compare_text (W.upper n) (key W e) ≡ o).
        subst (λ t. compare_text t (key W e) ≡ o) r.0.1 p in
      elim (Order-cases (compare_text (W.upper n) (key W e))) [
        | inl o ↦ rw (merged-less W n names e es o) (
            Sorted-entry_of n (W.get_env n) (merged W names (e ∷ es)) r.0
              (merged-above n names (e ∷ es) r.1 a.1 s (All-map _ _ (λ m q. inl q) names a.0)
                (All-map _ _ (λ f q. inl q) (e ∷ es) (behind n e es (in_order less o) s)))
              after_less)
        | inr (inl o) ↦ rw (merged-same W n names e es o) (
          merged-above (key W e) names es r.1 a.1 s.1
              (All-map _ _ (λ m q. inl q) names
                (before_names e n names a
                  (inr (sym (compare_text-same n (key W e) (in_order same o))))))
              s.0,
          after_same,
        )
        | inr (inr o) ↦ rw (merged-more W n names e es o) (
          merged-above (key W e) (n ∷ names) es r a s.1
              (All-map _ _ (λ m q. inl q) (n ∷ names)
                (below-All (key W e) n names (compare_text-more n (key W e) (in_order more o)) a))
              s.0,
          after_more,
        )
      ]
