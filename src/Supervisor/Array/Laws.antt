-- ===== src/Supervisor/Array/Laws.antt =====
-- Removing an element by putting the last one in its place.
use processx.Base.{
  ℕ, zero, suc, ◌+◌, ◌-◌, ◌<◌, ◌≡◌, refl, sym, ap, subst, List, [], ◌∷◌, ◌⊎◌, inl, inr, arith,
  length, get_or, set, take, In,
}
use processx.Supervisor.Array.{remove_element, Distinct}

last : ℕ → List ℕ → ℕ
last x [] = x
last x (y ∷ ys) = last y ys

but_last : ℕ → List ℕ → List ℕ
but_last x [] = []
but_last x (y ∷ ys) = x ∷ but_last y ys

-- The same by recursion on the list.
removed : List ℕ → ℕ → List ℕ
unfolding last but_last
removed [] i = []
removed (x ∷ []) i = []
removed (x ∷ y ∷ ys) zero = last y ys ∷ but_last y ys
removed (x ∷ y ∷ ys) (suc i) = x ∷ removed (y ∷ ys) i

get_or-last : (x : ℕ) (xs : List ℕ) → get_or (x ∷ xs) (length xs) 0 ≡ last x xs
unfolding last
get_or-last x [] = refl
get_or-last x (y ∷ ys) = get_or-last y ys

take-but_last : (x : ℕ) (xs : List ℕ) → take (length xs) (x ∷ xs) ≡ but_last x xs
unfolding but_last
take-but_last x [] = refl
take-but_last x (y ∷ ys) = ap (λ (l : List ℕ). x ∷ l) (take-but_last y ys)

take-set-removed :
    (xs : List ℕ) (x i : ℕ)
    → i < length (x ∷ xs)
    → take (length xs) (set (x ∷ xs) i (last x xs)) ≡ removed (x ∷ xs) i
unfolding removed last
take-set-removed [] x i h = refl
take-set-removed (y ∷ ys) x zero h = ap (λ (l : List ℕ). last y ys ∷ l) (take-but_last y ys)
take-set-removed (y ∷ ys) x (suc i) h =
    ap (λ (l : List ℕ). x ∷ l) (take-set-removed ys y i (omega arith))

remove_element-removed : (xs : List ℕ) (i : ℕ) → i < length xs → remove_element xs i ≡ removed xs i
unfolding remove_element removed
remove_element-removed [] i h = elim h [ ]
remove_element-removed (x ∷ xs) i h =
    let n : length (x ∷ xs) - 1 ≡ length xs = omega arith in
    rw (n, get_or-last x xs) (take-set-removed xs x i h)

pub length-remove_element :
    (xs : List ℕ) (i : ℕ) → i < length xs → length (remove_element xs i) + 1 ≡ length xs
unfolding but_last removed
length-remove_element xs i h = rw (remove_element-removed xs i h) (size xs i h)
  where
    size_init : (x : ℕ) (xs : List ℕ) → length (but_last x xs) ≡ length xs
    size_init x [] = refl
    size_init x (y ∷ ys) = ap suc (size_init y ys)

    size : (xs : List ℕ) (i : ℕ) → i < length xs → length (removed xs i) + 1 ≡ length xs
    size [] i h = elim h [ ]
    size (x ∷ []) i h = omega arith
    size (x ∷ y ∷ ys) zero h = omega (arith, size_init y ys)
    size (x ∷ y ∷ ys) (suc i) h = omega (arith, size (y ∷ ys) i (omega arith))

In-last : (x : ℕ) (xs : List ℕ) → In (last x xs) (x ∷ xs)
unfolding last
In-last x [] = inl refl
In-last x (y ∷ ys) = inr (In-last y ys)

In-but_last : (a x : ℕ) (xs : List ℕ) → In a (but_last x xs) → In a (x ∷ xs)
unfolding but_last
In-but_last a x [] h = elim h [ ]
In-but_last a x (y ∷ ys) (inl e) = inl e
In-but_last a x (y ∷ ys) (inr h) = inr (In-but_last a y ys h)

init_or_last : (a x : ℕ) (xs : List ℕ) → In a (x ∷ xs) → In a (but_last x xs) ⊎ (a ≡ last x xs)
unfolding but_last last
init_or_last a x [] (inl e) = inr e
init_or_last a x [] (inr h) = elim h [ ]
init_or_last a x (y ∷ ys) (inl e) = inl (inl e)
init_or_last a x (y ∷ ys) (inr h) = elim (init_or_last a y ys h) [
  | inl p ↦ inl (inr p)
  | inr e ↦ inr e
]

Distinct-but_last :
    (x : ℕ) (xs : List ℕ)
    → Distinct (x ∷ xs)
    → (In (last x xs) (but_last x xs) → ⊥) × Distinct (but_last x xs)
unfolding but_last last
Distinct-but_last x [] d = (λ h. h, tt)
Distinct-but_last x (y ∷ ys) (fresh, d) =
    let (out, d') = Distinct-but_last y ys d in
    (
      λ h. elim h [
        | inl e ↦ fresh (subst (λ (v : ℕ). In v (y ∷ ys)) e (In-last y ys))
        | inr p ↦ out p
      ],
      (λ h. fresh (In-but_last x y ys h), d'),
    )

In-removed : (a : ℕ) (xs : List ℕ) (i : ℕ) → In a (removed xs i) → In a xs
unfolding removed
In-removed a [] i h = h
In-removed a (x ∷ []) i h = elim h [ ]
In-removed a (x ∷ y ∷ ys) zero (inl e) =
    inr (subst (λ (v : ℕ). In v (y ∷ ys)) (sym e) (In-last y ys))
In-removed a (x ∷ y ∷ ys) zero (inr h) = inr (In-but_last a y ys h)
In-removed a (x ∷ y ∷ ys) (suc i) (inl e) = inl e
In-removed a (x ∷ y ∷ ys) (suc i) (inr h) = inr (In-removed a (y ∷ ys) i h)

kept_removed :
    (a : ℕ) (xs : List ℕ) (i : ℕ)
    → i < length xs
    → In a xs
    → In a (removed xs i) ⊎ (a ≡ get_or xs i 0)
unfolding removed
kept_removed a [] i l h = elim h [ ]
kept_removed a (x ∷ []) zero l (inl e) = inr e
kept_removed a (x ∷ []) zero l (inr h) = elim h [ ]
kept_removed a (x ∷ []) (suc i) l (inr h) = elim h [ ]
kept_removed a (x ∷ []) (suc i) l (inl e) = absurd (omega arith)
kept_removed a (x ∷ y ∷ ys) zero l (inl e) = inr e
kept_removed a (x ∷ y ∷ ys) zero l (inr h) = elim (init_or_last a y ys h) [
  | inl p ↦ inl (inr p)
  | inr e ↦ inl (inl e)
]
kept_removed a (x ∷ y ∷ ys) (suc i) l (inl e) = inl (inl e)
kept_removed a (x ∷ y ∷ ys) (suc i) l (inr h) = elim (kept_removed a (y ∷ ys) i (omega arith) h) [
  | inl p ↦ inl (inr p)
  | inr e ↦ inr e
]

Distinct-removed : (xs : List ℕ) (i : ℕ) → Distinct xs → Distinct (removed xs i)
unfolding removed
Distinct-removed [] i d = tt
Distinct-removed (x ∷ []) i d = tt
Distinct-removed (x ∷ y ∷ ys) zero (fresh, d) = Distinct-but_last y ys d
Distinct-removed (x ∷ y ∷ ys) (suc i) (fresh, d) =
    (λ h. fresh (In-removed x (y ∷ ys) i h), Distinct-removed (y ∷ ys) i d)

pub In-remove_element :
    (a : ℕ) (xs : List ℕ) (i : ℕ) → i < length xs → In a (remove_element xs i) → In a xs
In-remove_element a xs i h p =
    In-removed a xs i (subst (λ (l : List ℕ). In a l) (remove_element-removed xs i h) p)

pub kept-remove_element :
    (a : ℕ) (xs : List ℕ) (i : ℕ)
    → i < length xs
    → In a xs
    → In a (remove_element xs i) ⊎ (a ≡ get_or xs i 0)
kept-remove_element a xs i h p = rw (remove_element-removed xs i h) (kept_removed a xs i h p)

pub Distinct-remove_element :
    (xs : List ℕ) (i : ℕ) → i < length xs → Distinct xs → Distinct (remove_element xs i)
Distinct-remove_element xs i h d = rw (remove_element-removed xs i h) (Distinct-removed xs i d)
