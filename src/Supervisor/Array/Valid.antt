-- ===== src/Supervisor/Array/Valid.antt =====
-- About validity and the operations on the children.
use processx.Base.{
  ℕ, ◌+◌, ◌≤◌, ◌<◌, ◌≡◌, ◌≢◌, refl, sym, false, List, [], ◌∷◌, ◌++◌, inl, inr, arith, ◌==◌, ==→ne,
  Bool-cases, length, length-append, In, In-append,
}
use processx.Supervisor.Array.{
  max_children, remove_element, array_contains, add_child, remove_from, remove_child, Distinct,
  Positive, IsValid,
}
use processx.Supervisor.Array.Laws.{
  length-remove_element, In-remove_element, Distinct-remove_element,
}

Positive-In : (a : ℕ) (xs : List ℕ) → Positive xs → In a xs → 0 < a
Positive-In a [] _ h = elim h [ ]
Positive-In a (x ∷ xs) (p, _) (inl e) = omega (arith, e)
Positive-In a (x ∷ xs) (_, ps) (inr h) = Positive-In a xs ps h

In-Positive : (xs : List ℕ) → ((a : ℕ) → In a xs → 0 < a) → Positive xs
In-Positive [] f = tt
In-Positive (x ∷ xs) f = (f x (inl refl), In-Positive xs (λ a h. f a (inr h)))

pub remove_element-IsValid :
    (xs : List ℕ) (i : ℕ) → i < length xs → IsValid xs → IsValid (remove_element xs i)
remove_element-IsValid xs i h v = record {
  distinct = Distinct-remove_element xs i h v.distinct;
  positive =
      In-Positive (remove_element xs i)
        (λ a p. Positive-In a xs v.positive (In-remove_element a xs i h p));
  fits = omega (arith, length-remove_element xs i h, v.fits);
}

array_contains-false : (x : ℕ) (xs : List ℕ) → array_contains xs x ≡ false → In x xs → ⊥
unfolding array_contains
array_contains-false x [] h p = p
array_contains-false x (y ∷ ys) h (inl e) = elim (Bool-cases (y == x)) [
  | inl t ↦ absurd (ground arith)
  | inr f ↦ ==→ne y x f (sym e)
]
array_contains-false x (y ∷ ys) h (inr p) = elim (Bool-cases (y == x)) [
  | inl t ↦ absurd (ground arith)
  | inr f ↦ array_contains-false x ys (rw f at h) p
]

Distinct-append : (xs : List ℕ) (x : ℕ) → Distinct xs → (In x xs → ⊥) → Distinct (xs ++ (x ∷ []))
Distinct-append [] x d n = (λ h. h, tt)
Distinct-append (y ∷ ys) x (fresh, d) n = (
  λ h. elim (In-append y ys (x ∷ []) h) [
    | inl p ↦ fresh p
    | inr (inl e) ↦ n (inl (sym e))
    | inr (inr h') ↦ elim h' [ ]
  ],
  Distinct-append ys x d (λ h. n (inr h)),
)

appended-IsValid :
    (pid : ℕ) (xs : List ℕ)
    → 0 < pid
    → length xs ≢ max_children
    → (In pid xs → ⊥)
    → IsValid xs
    → IsValid (xs ++ (pid ∷ []))
appended-IsValid pid xs h ne n v = record {
  distinct = Distinct-append xs pid v.distinct n;
  positive = In-Positive (xs ++ (pid ∷ [])) (λ a p. elim (In-append a xs (pid ∷ []) p) [
    | inl q ↦ Positive-In a xs v.positive q
    | inr (inl q) ↦ omega arith
    | inr (inr q) ↦ elim q [ ]
  ]);
  fits = omega (arith, length-append xs (pid ∷ []), v.fits);
}

pub add_child-IsValid : (pid : ℕ) (xs : List ℕ) → 0 < pid → IsValid xs → IsValid (add_child pid xs)
unfolding add_child
add_child-IsValid pid xs h v = elim (Bool-cases (length xs == max_children)) [
  | inl e ↦ rw e v
  | inr e ↦ elim (Bool-cases (array_contains xs pid)) [
    | inl c ↦ rw (e, c) v
    | inr c ↦
        rw (e, c)
          (appended-IsValid pid xs h (==→ne (length xs) max_children e)
            (array_contains-false pid xs c) v)
  ]
]

remove_from-IsValid :
    (rest : List ℕ) (i pid : ℕ) (xs : List ℕ)
    → i + length rest ≤ length xs
    → IsValid xs
    → IsValid (remove_from rest i pid xs)
unfolding remove_from
remove_from-IsValid [] i pid xs h v = v
remove_from-IsValid (x ∷ rest) i pid xs h v = elim (Bool-cases (x == pid)) [
  | inl e ↦ rw e (remove_element-IsValid xs i (omega arith) v)
  | inr e ↦ rw e (remove_from-IsValid rest (i + 1) pid xs (omega arith) v)
]

pub remove_child-IsValid : (pid : ℕ) (xs : List ℕ) → IsValid xs → IsValid (remove_child pid xs)
unfolding remove_child
remove_child-IsValid pid xs v = remove_from-IsValid xs 0 pid xs (omega arith) v
