-- ===== src/Windows/Env/Merge.antt =====
-- The texts that a block is to hold: those given, and between them, in their order, the required
-- variables of this process that are not given.
use processx.Base.{
  ◌≡◌, ◌≢◌, refl, sym, ◌∙◌, subst, true, Option, none, some, List, [], ◌∷◌, ◌++◌, arith, inl, inr,
  length, In, In-append_left, In-append_right,
}
use processx.Windows.Search.{Text, before, from_first}
use processx.Windows.Env.{equals, less, same, more, compare_text, has_equals, wide_eq, Api}
use processx.Windows.Env.Names.{Order-cases, compare_text-same, Le, key}

abbrev pub All : {A : Type 0} → (A → Type 0) → List A → Type 0
All P [] = Unit
All P (x ∷ xs) = P x × All P xs

module _ {A : Type 0} where
  -- A member of a list with a head is found behind that head, or is the head.
  pub In-cons : (x e : A) (es out : List A) → (In x es → In x out) → In x (e ∷ es) → In x (e ∷ out)
  In-cons x e es out f (inl q) = inl q
  In-cons x e es out f (inr i) = inr (f i)

  pub All-In : (P : A → Type 0) (x : A) (xs : List A) → All P xs → In x xs → P x
  All-In P x [] h i = elim i [ ]
  All-In P x (y ∷ ys) h (inl e) = subst P (sym e) h.0
  All-In P x (y ∷ ys) h (inr i) = All-In P x ys h.1 i

  pub All-map : (P Q : A → Type 0) → ((x : A) → P x → Q x) → (xs : List A) → All P xs → All Q xs
  All-map P Q f [] h = tt
  All-map P Q f (x ∷ xs) h = (f x h.0, All-map P Q f xs h.1)

  pub All-of-In : (P : A → Type 0) (xs : List A) → ((x : A) → In x xs → P x) → All P xs
  All-of-In P [] h = tt
  All-of-In P (x ∷ xs) h = (h x (inl refl), All-of-In P xs (λ y i. h y (inr i)))

-- A name that is not empty and has no `=`
abbrev pub Plain : Text → Type 0
Plain name = (length name ≢ 0) × (from_first equals name ≡ [])

before-wide_eq :
    (name value : Text) → from_first equals name ≡ [] → before equals (wide_eq name ++ value) ≡ name
unfolding before from_first
before-wide_eq [] value h = refl
before-wide_eq (x ∷ xs) value h = ground (arith, before-wide_eq xs value)

from_first-wide_eq : (name value : Text) → has_equals (wide_eq name ++ value) ≡ true
unfolding has_equals from_first
from_first-wide_eq [] value = ground arith
from_first-wide_eq (x ∷ xs) value = ground (arith, from_first-wide_eq xs value)

-- The text of a variable that this process may have
abbrev pub entry_of : Text → Option Text → List Text
entry_of name none = []
entry_of name (some value) = (wide_eq name ++ value) ∷ []

pub entry_of-In :
    (name x : Text) (found : Option Text)
    → In x (entry_of name found)
    → (value : Text) × (found ≡ some value) × (x ≡ wide_eq name ++ value)
entry_of-In name x none i = elim i [ ]
entry_of-In name x (some value) (inl e) = (value, refl, e)
entry_of-In name x (some value) (inr i) = elim i [ ]

-- Names in strict order
abbrev pub Ascending : List Text → Type 0
Ascending [] = Unit
Ascending (x ∷ xs) = All (λ y. compare_text x y ≡ less) xs × Ascending xs

module _ (W : Api) where
  -- A required variable is plain and stays as it is in upper case.
  abbrev pub Required : Text → Type 0
  Required name = Plain name × (W.upper name ≡ name)

  -- Texts in the order of their names, in upper case
  abbrev pub Sorted : List Text → Type 0
  Sorted [] = Unit
  Sorted (e ∷ es) = All (λ f. Le (key W e) (key W f)) es × Sorted es

  abbrev pub inherited : Text → List Text
  inherited name = entry_of name (W.get_env name)

  unfoldable pub merged : List Text → List Text → List Text
  merged [] es = es
  merged (name ∷ names) [] = inherited name ++ merged names []
  merged (name ∷ names) (e ∷ es) = elim (compare_text (W.upper name) (key W e)) [
    | less ↦ inherited name ++ merged names (e ∷ es)
    | same ↦ e ∷ merged names es
    | more ↦ e ∷ merged (name ∷ names) es
  ]

  pub merged-nil : (es : List Text) → merged [] es ≡ es
  unfolding merged
  merged-nil es = refl

  pub merged-end :
      (name : Text) (names : List Text)
      → merged (name ∷ names) [] ≡ inherited name ++ merged names []
  unfolding merged
  merged-end name names = refl

  -- What the merge does next, by the comparison of the two heads
  module _ (name : Text) (names : List Text) (e : Text) (es : List Text) where
    pub merged-less :
        compare_text (W.upper name) (key W e) ≡ less
        → merged (name ∷ names) (e ∷ es) ≡ inherited name ++ merged names (e ∷ es)
    unfolding merged
    merged-less o = rw (o, merged)

    pub merged-same :
        compare_text (W.upper name) (key W e) ≡ same
        → merged (name ∷ names) (e ∷ es) ≡ e ∷ merged names es
    unfolding merged
    merged-same o = rw (o, merged)

    pub merged-more :
        compare_text (W.upper name) (key W e) ≡ more
        → merged (name ∷ names) (e ∷ es) ≡ e ∷ merged (name ∷ names) es
    unfolding merged
    merged-more o = rw (o, merged)

  pub key-wide_eq : (name value : Text) → Required name → key W (wide_eq name ++ value) ≡ name
  key-wide_eq name value r = rw (key, before-wide_eq name value r.0.1) r.1

  In-inherited :
      (name value : Text)
      → W.get_env name ≡ some value
      → In (wide_eq name ++ value) (inherited name)
  In-inherited name value e =
      subst (λ o. In (wide_eq name ++ value) (entry_of name o)) (sym e) (inl refl)

  -- Each text that is given is there.
  pub In-merged : (x : Text) (names es : List Text) → In x es → In x (merged names es)
  In-merged x [] es i = rw (merged-nil es) i
  In-merged x (name ∷ names) [] i = elim i [ ]
  In-merged x (name ∷ names) (e ∷ es) i =
      elim (Order-cases (compare_text (W.upper name) (key W e))) [
        | inl o ↦
            rw (merged-less name names e es o)
              (In-append_right x (inherited name) _ (In-merged x names (e ∷ es) i))
        | inr (inl o) ↦
            rw (merged-same name names e es o) (In-cons x e es _ (In-merged x names es) i)
        | inr (inr o) ↦
            rw (merged-more name names e es o) (In-cons x e es _ (In-merged x (name ∷ names) es) i)
      ]

  -- The variable that a required name has, in what the merge adds for that name
  inherits :
      (name n value : Text) (rest : List Text)
      → Required n
      → name ≡ n
      → W.get_env name ≡ some value
      → (x : Text) × In x (inherited n ++ rest) × (key W x ≡ name)
  inherits name n value rest r q g = (
    wide_eq name ++ value,
    In-append_left (wide_eq name ++ value) (inherited n) rest
        (subst (λ t. In (wide_eq name ++ value) (inherited t)) q (In-inherited name value g)),
    key-wide_eq name value (subst Required (sym q) r),
  )

  abbrev Found : Text → List Text → Type 0
  Found name out = (x : Text) × In x out × (key W x ≡ name)

  Found-append : (name : Text) (xs out : List Text) → Found name out → Found name (xs ++ out)
  Found-append name xs out (x, i, k) = (x, In-append_right x xs out i, k)

  -- Each required variable of this process is there, with this value or with a given one.
  pub merged-Found :
      (name value : Text) (names es : List Text)
      → All Required names
      → In name names
      → W.get_env name ≡ some value
      → (x : Text) × In x (merged names es) × (key W x ≡ name)
  merged-Found name value [] es r i g = elim i [ ]
  merged-Found name value (n ∷ names) [] r (inl q) g =
      rw (merged-end n names) (inherits name n value (merged names []) r.0 q g)
  merged-Found name value (n ∷ names) [] r (inr i) g =
      rw (merged-end n names) (
        Found-append name (inherited n) (merged names [])
          (merged-Found name value names [] r.1 i g))
  merged-Found name value (n ∷ names) (e ∷ es) r i g =
      let later = λ (j : In name names). merged-Found name value names (e ∷ es) r.1 j g in
      let with_same = λ (j : In name names). merged-Found name value names es r.1 j g in
      let with_more = merged-Found name value (n ∷ names) es r i g in
      elim (Order-cases (compare_text (W.upper n) (key W e))) [
        | inl o ↦ rw (merged-less n names e es o) (elim i [
          | inl q ↦ inherits name n value (merged names (e ∷ es)) r.0 q g
          | inr j ↦ Found-append name (inherited n) (merged names (e ∷ es)) (later j)
        ])
        | inr (inl o) ↦ rw (merged-same n names e es o) (elim i [
          | inl q ↦ (e, inl refl, sym (compare_text-same _ _ o) ∙ r.0.1 ∙ sym q)
          | inr j ↦ Found-append name (e ∷ []) (merged names es) (with_same j)
        ])
        | inr (inr o) ↦
            rw (merged-more n names e es o)
              (Found-append name (e ∷ []) (merged (n ∷ names) es) with_more)
      ]
