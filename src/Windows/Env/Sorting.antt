-- ===== src/Windows/Env/Sorting.antt =====
-- What is relied on of `qsort`, and a sort that does it.
use processx.Base.{◌≡◌, refl, ◌∙◌, List, [], ◌∷◌, arith, inl, inr, In}
use processx.Windows.Search.{Text}
use processx.Windows.Env.{Api}
use processx.Windows.Env.Names.{Named}
use processx.Windows.Env.Merge.{All, Sorted}
use processx.Windows.Env.Passes.{joined_size, joined_size-cons}

-- The same texts in another order
pub data Shuffled : List Text → List Text → Type 0 where
  empty : Shuffled [] []
  keep : (x : Text) {xs ys : List Text} → Shuffled xs ys → Shuffled (x ∷ xs) (x ∷ ys)
  swap : (x y : Text) (xs : List Text) → Shuffled (x ∷ y ∷ xs) (y ∷ x ∷ xs)
  chain : {xs ys zs : List Text} → Shuffled xs ys → Shuffled ys zs → Shuffled xs zs

pub Shuffled-refl : (xs : List Text) → Shuffled xs xs
Shuffled-refl [] = empty
Shuffled-refl (x ∷ xs) = keep x (Shuffled-refl xs)

pub Shuffled-sym : {xs ys : List Text} → Shuffled xs ys → Shuffled ys xs
Shuffled-sym empty = empty
Shuffled-sym (keep x p) = keep x (Shuffled-sym p)
Shuffled-sym (swap x y xs) = swap y x xs
Shuffled-sym (chain p q) = chain (Shuffled-sym q) (Shuffled-sym p)

pub Shuffled-In : (a : Text) {xs ys : List Text} → Shuffled xs ys → In a xs → In a ys
Shuffled-In a empty i = i
Shuffled-In a (keep x p) (inl e) = inl e
Shuffled-In a (keep x p) (inr i) = inr (Shuffled-In a p i)
Shuffled-In a (swap x y xs) (inl e) = inr (inl e)
Shuffled-In a (swap x y xs) (inr (inl e)) = inl e
Shuffled-In a (swap x y xs) (inr (inr i)) = inr (inr i)
Shuffled-In a (chain p q) i = Shuffled-In a q (Shuffled-In a p i)

pub Shuffled-All : (P : Text → Type 0) {xs ys : List Text} → Shuffled xs ys → All P xs → All P ys
Shuffled-All P empty h = h
Shuffled-All P (keep x p) h = (h.0, Shuffled-All P p h.1)
Shuffled-All P (swap x y xs) h = (h.1.0, (h.0, h.1.1))
Shuffled-All P (chain p q) h = Shuffled-All P q (Shuffled-All P p h)

pub Shuffled-size : {xs ys : List Text} → Shuffled xs ys → joined_size xs ≡ joined_size ys
Shuffled-size empty = refl
Shuffled-size (keep x {xs} {ys} p) =
    omega (arith, Shuffled-size p, joined_size-cons x xs, joined_size-cons x ys)
Shuffled-size (swap x y xs) = omega (
  arith,
  joined_size-cons x (y ∷ xs),
  joined_size-cons y xs,
  joined_size-cons y (x ∷ xs),
  joined_size-cons x xs,
)
Shuffled-size (chain p q) = Shuffled-size p ∙ Shuffled-size q

-- The documentation of `qsort`: it leaves the elements, in the order of the comparison.
pub record Sorts (W : Api) : Type 0 where
  pub shuffles : (es : List Text) → All Named es → Shuffled (W.sort es) es
  pub sorts : (es : List Text) → All Named es → Sorted W (W.sort es)
