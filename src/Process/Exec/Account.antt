-- ===== src/Process/Exec/Account.antt =====
-- Which file descriptors `processx_exec` has open, against those that were open before it.
use processx.Base.{
  ℕ, zero, suc, ◌≡◌, ◌≢◌, refl, sym, ◌∙◌, subst, Bool-cases, Option, none, some, some_inj, List, [],
  ◌∷◌, ◌⊎◌, inl, inr, ◌==◌, ==→eq, ==→ne,
}
use processx.Process.Child.{Stdio, FdOs}
use processx.Process.Child.Table.{Documented}
use processx.Process.Exec.{shut, close_end, close_ends}

-- A set of descriptors
abbrev pub FdSet : Type 1
FdSet = ℕ → Type 0

abbrev pub Is : Option ℕ → FdSet
Is none k = ⊥
Is (some fd) k = k ≡ fd

infixr 20 ◌or◌
abbrev pub ◌or◌ : FdSet → FdSet → FdSet
◌or◌ X Y k = X k ⊎ Y k

-- Both ends of the pipes that were made; an inherited descriptor has no parent's end.
abbrev pub PipeEnds : Option ℕ → Option ℕ → FdSet
PipeEnds none child k = ⊥
PipeEnds (some parent) child k = (k ≡ parent) ⊎ Is child k

abbrev pub Ends : List Stdio → FdSet
Ends [] k = ⊥
Ends (s ∷ ss) k = PipeEnds s.parent_end s.child_end k ⊎ Ends ss k

-- What is left of them when the child's ends of the first `n` are closed
abbrev pub Left : ℕ → List Stdio → FdSet
Left zero ss k = Ends ss k
Left (suc n) [] k = ⊥
Left (suc n) (s ∷ ss) k = Is s.parent_end k ⊎ Left n ss k

module _ (O : FdOs) (doc : Documented O) where
  abbrev pub Unchanged : O.World → O.World → Type 0
  Unchanged w w' = (k : ℕ) → doc.slot w' k ≡ doc.slot w k

  abbrev pub Free : O.World → FdSet → Type 0
  Free base X = (k : ℕ) → X k → doc.slot base k ≡ none

  -- Each descriptor is as it was, or it was free and is in the set.
  abbrev pub Account : O.World → O.World → FdSet → Type 0
  Account base w X = (k : ℕ) → (doc.slot w k ≡ doc.slot base k) ⊎ (X k × (doc.slot base k ≡ none))

  pub Account-refl : (w : O.World) (X : FdSet) → Account w w X
  Account-refl w X k = inl refl

  module _ (base w w' : O.World) (X : FdSet) (a : Account base w X) where
    pub Account-widen : (Y : FdSet) → ((k : ℕ) → X k → Y k) → Account base w Y
    Account-widen Y f k = elim (a k) [ inl e ↦ inl e | inr (x, z) ↦ inr (f k x, z) ]

    pub Account-Unchanged : Unchanged w w' → Account base w' X
    Account-Unchanged h k = elim (a k) [ inl e ↦ inl (h k ∙ e) | inr x ↦ inr x ]

    -- What was free before a call was free in the beginning.
    pub free_before : (k : ℕ) → doc.slot w k ≡ none → doc.slot base k ≡ none
    free_before k h = elim (a k) [ inl e ↦ sym e ∙ h | inr (x, z) ↦ z ]

    pub Account-open : (Y : FdSet) → Account w w' Y → Account base w' (Y or X)
    Account-open Y b k = elim (b k) [
      | inl e ↦ elim (a k) [ inl e' ↦ inl (e ∙ e') | inr (x, z) ↦ inr (inr x, z) ]
      | inr (y, z) ↦ inr (inl y, free_before k z)
    ]

    -- Only the flag of a new descriptor changes.
    pub Account-touch :
        (fd : ℕ)
        → X fd
        → doc.slot base fd ≡ none
        → ((k : ℕ) → k ≢ fd → doc.slot w' k ≡ doc.slot w k)
        → Account base w' X
    Account-touch fd x z h k = elim (Bool-cases (k == fd)) [
      | inl e ↦
          let q : fd ≡ k = sym (==→eq k fd e) in
          inr (subst X q x, subst (λ j. doc.slot base j ≡ none) q z)
      | inr n ↦ elim (a k) [ inl e ↦ inl (h k (==→ne k fd n) ∙ e) | inr y ↦ inr y ]
    ]

  pub Account-shut :
      (base w : O.World) (X Y : FdSet) (fd : ℕ)
      → doc.slot base fd ≡ none
      → Account base w X
      → ((k : ℕ) → k ≢ fd → X k → Y k)
      → Account base (shut O fd w) Y
  Account-shut base w X Y fd z a f k =
      let (gone, others) = doc.close_all fd w in
      elim (Bool-cases (k == fd)) [
        | inl e ↦
            let q : fd ≡ k = sym (==→eq k fd e) in
            inl (subst (λ j. doc.slot (shut O fd w) j ≡ doc.slot base j) q (gone ∙ sym z))
        | inr n ↦
            let differ = ==→ne k fd n in
            elim (a k) [ inl e ↦ inl (others k differ ∙ e) | inr (x, z') ↦ inr (f k differ x, z') ]
      ]

  -- The child's end is closed, and an inherited descriptor is not.
  close_end-Account :
      (base w : O.World) (X : FdSet) (child parent : Option ℕ)
      → Free base (PipeEnds parent child)
      → Account base w (PipeEnds parent child or X)
      → Account base (close_end O child parent w) (Is parent or X)
  close_end-Account base w X none none free a = Account-widen base w w _ a _ (λ k x. x)
  close_end-Account base w X none (some p) free a =
      Account-widen base w w _ a _
        (λ k x. elim x [ inl (inl e) ↦ inl e | inl (inr f) ↦ elim f [ ] | inr y ↦ inr y ])
  close_end-Account base w X (some c) none free a = Account-widen base w w _ a _ (λ k x. x)
  close_end-Account base w X (some c) (some p) free a =
      Account-shut base w _ _ c (free c (inr refl)) a
        (λ k ne x. elim x [ inl (inl e) ↦ inl e | inl (inr e) ↦ absurd (ne e) | inr y ↦ inr y ])

  pub close_ends-Account :
      (n : ℕ) (ss : List Stdio) (base w w' : O.World) (X : FdSet)
      → Free base (Ends ss)
      → Account base w (Ends ss or X)
      → close_ends O n ss w ≡ some w'
      → Account base w' (Left n ss or X)
  unfolding close_ends
  close_ends-Account zero ss base w w' X free a h =
      subst (λ v. Account base v (Ends ss or X)) (some_inj h) a
  close_ends-Account (suc n) [] base w w' X free a h = absurd (cc)
  close_ends-Account (suc n) (s ∷ ss) base w w' X free a h =
      let first : Account base w (PipeEnds s.parent_end s.child_end or (Ends ss or X)) =
        Account-widen base w w _ a _ (λ k x. elim x [
          | inl (inl e) ↦ inl e
          | inl (inr e) ↦ inr (inl e)
          | inr y ↦ inr (inr y)
        ]) in
      let closed =
        close_end-Account base w (Ends ss or X) s.child_end s.parent_end (λ k x. free k (inl x))
          first in
      let next : Account base (close_end O s.child_end s.parent_end w)
          (Ends ss or (Is s.parent_end or X)) =
        Account-widen base _ w _ closed _ (λ k x. elim x [
          | inl e ↦ inr (inl e)
          | inr (inl e) ↦ inl e
          | inr (inr y) ↦ inr (inr y)
        ]) in
      let rest =
        close_ends-Account n ss base (close_end O s.child_end s.parent_end w) w'
          (Is s.parent_end or X) (λ k x. free k (inr x)) next h in
      Account-widen base w' w' _ rest _
        (λ k x. elim x [ inl e ↦ inl (inr e) | inr (inl e) ↦ inl (inl e) | inr (inr y) ↦ inr y ])
