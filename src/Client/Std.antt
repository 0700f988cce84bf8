-- ===== src/Client/Std.antt =====
-- What `processx_set_std` does to the descriptors.
use processx.Base.{
  ℕ, ◌≡◌, ◌≢◌, refl, sym, ap, ◌∙◌, subst, Bool, true, false, Option, Option-cases, none, some, List,
  Result, ok, inl, inr,
}
use processx.Process.Child.{FdOs}
use processx.Process.Child.Table.{Slot, Shares, Documented}
use processx.Client.{ClientError, replace_std, set_std, set_std_to_file}

ok_inj : {A : Type 0} {a b : A} (r : Result ClientError A) → r ≡ ok a → r ≡ ok b → a ≡ b
ok_inj r h h' = cc

module _ (O : FdOs) (doc : Documented O) where
  open doc use {slot}

  -- The old descriptor is lost if it is dropped, and otherwise a free one has its file.
  abbrev pub OldKept : Bool → Option ℕ → ℕ → O.World → O.World → Type 0
  OldKept true none which w w' = Unit
  OldKept true (some o) which w w' = ⊥
  OldKept false none which w w' = ⊥
  OldKept false (some o) which w w' = (slot w o ≡ none) × Shares (slot w which) (slot w' o)

  -- The descriptor `which` has the file of `fd`, which is closed.
  abbrev pub Replaced : Bool → Option ℕ → ℕ → ℕ → O.World → O.World → Type 0
  Replaced drop orig which fd w w' =
      Shares (slot w fd) (slot w' which)
      × (slot w' fd ≡ none)
      × OldKept drop orig which w w'
      × ((k : ℕ) → k ≢ which → k ≢ fd → orig ≢ some k → slot w' k ≡ slot w k)

  -- From `dup2` on, if it works
  module _ (which fd : ℕ) (w : O.World) (f : ℕ) (differ : fd ≢ which)
      (h : (O.dup2 fd which w).0 ≡ some f) where
    abbrev after : O.World
    after = (O.close fd (O.dup2 fd which w).1).1

    after-which : Shares (slot w fd) (slot after which)
    after-which =
        subst (λ x. Shares (slot w fd) x)
          (sym ((doc.close_all fd (O.dup2 fd which w).1).1 which (λ q. differ (sym q))))
          (doc.dup2_ok fd which w f h).0

    after-fd : slot after fd ≡ none
    after-fd = (doc.close_all fd (O.dup2 fd which w).1).0

    after_other : (k : ℕ) → k ≢ which → k ≢ fd → slot after k ≡ slot w k
    after_other k ne ne' =
        (doc.close_all fd (O.dup2 fd which w).1).1 k ne' ∙ (doc.dup2_ok fd which w f h).1 k ne

  busy : (x y : Slot) → Shares x y → x ≢ none
  busy x y (file, flag, e, e') q = absurd cc

  replace_std-ok :
      (orig o : Option ℕ) (which fd : ℕ) (w : O.World)
      → (replace_std O orig which fd w).0 ≡ ok o
      → (f : ℕ) × ((O.dup2 fd which w).0 ≡ some f)
        × (orig ≡ o)
        × ((replace_std O orig which fd w).1 ≡ (O.close fd (O.dup2 fd which w).1).1)
  unfolding replace_std
  replace_std-ok orig o which fd w h = elim (Option-cases (O.dup2 fd which w).0) [
    | inl q ↦ let ran = rw (q, replace_std) at h in absurd cc
    | inr (f, q) ↦
        let ran = rw (q, replace_std) at h in
        (f, q, ok_inj (ok orig) refl ran, rw (q, replace_std) refl)
  ]

  -- If processx_set_std returns, and the descriptor that it is given was open and is another, then
  -- the standard stream has the file of this descriptor, which is closed; without drop the
  -- descriptor that is returned was free and has the file of the stream before; no other
  -- descriptor changes.
  pub set_std-Replaced :
      (drop : Bool) (orig : Option ℕ) (which fd : ℕ) (w : O.World)
      → fd ≢ which
      → slot w fd ≢ none
      → (set_std O which fd drop w).0 ≡ ok orig
      → Replaced drop orig which fd w (set_std O which fd drop w).1
  unfolding set_std
  set_std-Replaced true orig which fd w differ used h =
      let (f, q, e, world) = replace_std-ok none orig which fd w h in
      subst (λ v. Replaced true orig which fd w v) (sym world)
        (subst (λ o. Replaced true o which fd w (after which fd w f differ q)) e
          (
            after-which which fd w f differ q,
            after-fd which fd w f differ q,
            tt,
            λ k ne ne' _. after_other which fd w f differ q k ne ne',
          ))
  set_std-Replaced false orig which fd w differ used h =
      elim (Option-cases (O.dup_from which 0 w).0) [
        | inl q ↦ let ran = rw (q, set_std) at h in absurd cc
        | inr (o, q) ↦
            let ran = rw (q, set_std) at h in
            let w1 = (O.dup_from which 0 w).1 in
            let (_, free, copied, others) = doc.dup_from_ok which 0 w o q in
            let (f, q', e, world) = replace_std-ok (some o) orig which fd w1 ran in
            let not_which : o ≢ which = λ p. busy _ _ copied (ap (slot w) (sym p) ∙ free) in
            let moved = after-which which fd w1 f differ q' in
            let not_fd : o ≢ fd = λ p. used (ap (slot w) (sym p) ∙ free) in
            let same_fd : slot w1 fd ≡ slot w fd = others fd (λ p. not_fd (sym p)) in
            let w2 = after which fd w1 f differ q' in
            let stays = after_other which fd w1 f differ q' o not_which not_fd in
            let end : Replaced false (some o) which fd w w2 = (
              subst (λ x. Shares x (slot w2 which)) same_fd (after-which which fd w1 f differ q'),
              after-fd which fd w1 f differ q',
              (free, subst (λ x. Shares (slot w which) x) (sym stays) copied),
              λ k ne ne' no.
                  after_other which fd w1 f differ q' k ne ne'
                  ∙ others k (λ p. no (ap (λ (x : ℕ). some x) (sym p))),
            ) in
            rw (q, set_std)
              (subst (λ v. Replaced false orig which fd w v) (sym world)
                (subst (λ x. Replaced false x which fd w w2) e end))
      ]

  -- If the descriptor is `which` itself, it is closed in the end.
  pub set_std-itself :
      (which : ℕ) (w : O.World) (orig : Option ℕ)
      → (set_std O which which true w).0 ≡ ok orig
      → slot (set_std O which which true w).1 which ≡ none
  unfolding set_std
  set_std-itself which w orig h =
      let (f, q, e, world) = replace_std-ok none orig which which w h in
      ap (λ v. slot v which) world ∙ (doc.close_all which (O.dup2 which which w).1).0

  -- The file that is opened takes the place of the stream, and its own descriptor is closed.
  pub set_std_to_file-Replaced :
      (open_out : List ℕ → O.World → Option ℕ × O.World)
      → ((path : List ℕ) (w : O.World) (f : ℕ)
          → (open_out path w).0 ≡ some f
          → (slot w f ≡ none)
            × (slot (open_out path w).1 f ≢ none)
            × ((k : ℕ) → k ≢ f → slot (open_out path w).1 k ≡ slot w k))
      → (which : ℕ) (path : List ℕ) (w : O.World) (orig : Option ℕ) → slot w which ≢ none
      → (set_std_to_file O open_out which path w).0 ≡ ok orig
      → (f : ℕ) × ((open_out path w).0 ≡ some f)
        × Replaced false orig which f
            (open_out path w).1
            (set_std_to_file O open_out which path w).1
  unfolding set_std_to_file
  set_std_to_file-Replaced open_out opens which path w orig used h =
      elim (Option-cases (open_out path w).0) [
        | inl q ↦ let ran = rw (q, set_std_to_file) at h in absurd cc
        | inr (f, q) ↦
            let ran = rw (q, set_std_to_file) at h in
            let (free, open_f, others) = opens path w f q in
            let differ : f ≢ which = λ e. used (ap (slot w) (sym e) ∙ free) in
            (
              f,
              q,
              rw (q, set_std_to_file)
                  (set_std-Replaced false orig which f (open_out path w).1 differ open_f ran),
            )
      ]
