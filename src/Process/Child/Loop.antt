-- ===== src/Process/Child/Loop.antt =====
-- About the second loop, from one round to all.
use processx.Base.{
  ℕ, ◌+◌, ◌≤◌, ◌<◌, ◌≡◌, ◌≢◌, refl, sym, ◌∙◌, subst, ap, none, List, [], ◌∷◌, Result-cases, ok,
  throw, length, arith, ◌⊎◌, inl, inr,
}
use processx.Process.Child.{Stdio, FdOs, set_up, set_up_all}
use processx.Process.Child.Table.{Slot, Shares, Documented, Wants, Parent, Merged}
use processx.Process.Child.Place.{Placed, Same, set_up-Placed}

Wants-ge : (fd : ℕ) (ss : List Stdio) (i u : ℕ) → Wants fd ss i u → fd ≤ i
Wants-ge fd [] i u h = elim h [ ]
Wants-ge fd (s ∷ ss) i u (inl (e, _)) = omega (arith, e)
Wants-ge fd (s ∷ ss) i u (inr h) = omega (arith, Wants-ge (fd + 1) ss i u h)

module _ (O : FdOs) (doc : Documented O) where
  -- What the loop needs: every child's end is open, not below its place, and no parent's end.
  pub record Ready (fd : ℕ) (ss : List Stdio) (w : O.World) : Type 0 where
    pub above : (i u : ℕ) → Wants fd ss i u → i ≤ u
    pub all_open : (i u : ℕ) → Wants fd ss i u → doc.slot w u ≢ none
    pub apart : (i u p : ℕ) → Wants fd ss i u → Parent ss p → p ≢ u

  -- The files at their places, in the end.
  pub record Arranged (n fd : ℕ) (ss : List Stdio) (w w' : O.World) : Type 0 where
    pub placed : (i u : ℕ) → Wants fd ss i u → Shares (doc.slot w u) (doc.slot w' i)
    pub merged : Merged fd ss → Shares (doc.slot w' 1) (doc.slot w' 2)
    pub kept :
        (k : ℕ)
        → doc.slot w k ≢ none
        → (k < fd) ⊎ ((n ≤ k) × (Parent ss k → ⊥))
        → doc.slot w' k ≡ doc.slot w k

  -- After a round the others are still ready.
  Ready-tail :
      (n fd : ℕ) (s : Stdio) (ss : List Stdio) (w w1 : O.World)
      → Ready fd (s ∷ ss) w
      → Same O doc n fd s.parent_end w w1
      → ((i u : ℕ) → Wants (fd + 1) ss i u → doc.slot w1 u ≡ doc.slot w u) × Ready (fd + 1) ss w1
  Ready-tail n fd s ss w w1 r same = (
    unchanged,
    record {
      above = λ i u h. r.above i u (inr h);
      all_open = λ i u h q. r.all_open i u (inr h) (sym (unchanged i u h) ∙ q);
      apart = λ i u p h q. r.apart i u p (inr h) (inr q);
    },
  )
    where
      unchanged : (i u : ℕ) → Wants (fd + 1) ss i u → doc.slot w1 u ≡ doc.slot w u
      unchanged i u h =
          let ge = Wants-ge (fd + 1) ss i u h in
          let up = r.above i u (inr h) in
          same u (λ e. absurd (omega (arith, e))) (inl (λ e. r.apart i u u (inr h) (inl e) refl))
            (r.all_open i u (inr h))

  Shares-open : (old new : Slot) → Shares old new → new ≢ none
  Shares-open old new (file, flag, _, e) = λ q. absurd cc

  Arranged-cons :
      (n fd : ℕ) (s : Stdio) (ss : List Stdio) (w w1 w' : O.World)
      → fd < n
      → ((i u : ℕ) → Wants (fd + 1) ss i u → doc.slot w1 u ≡ doc.slot w u)
      → Placed O doc fd s w w1
      → Same O doc n fd s.parent_end w w1
      → (fd ≡ 2 → doc.slot w 1 ≢ none)
      → Arranged n (fd + 1) ss w1 w'
      → Arranged n fd (s ∷ ss) w w'
  Arranged-cons n fd s ss w w1 w' lt unchanged (given, two, filled) same one a = record {
    placed = λ i u h. elim h [
      | inr t ↦ rw (← unchanged i u t) (a.placed i u t)
      | inl (e, c) ↦
          let sh = given u c in
          let stays =
            a.kept fd (Shares-open (doc.slot w u) (doc.slot w1 fd) sh) (inl (omega arith)) in
          let at_fd = subst (λ (x : Slot). Shares (doc.slot w u) x) (sym stays) sh in
          subst (λ (x : ℕ). Shares (doc.slot w u) (doc.slot w' x)) (sym e) at_fd
    ];
    merged = λ h. elim h [
      | inr t ↦ a.merged t
      | inl (e, c, m) ↦
          let sh = two c e m in
          let still = same 1 (λ q. absurd (omega (arith, q, e))) (inr (omega arith)) (one e) in
          let at_1 = a.kept 1 (λ q. one e (sym still ∙ q)) (inl (omega arith)) ∙ still in
          let at_2 = a.kept 2 (Shares-open (doc.slot w 1) (doc.slot w1 2) sh) (inl (omega arith)) in
          rw (at_1, at_2) sh
    ];
    kept = λ k used h. elim h [
      | inl below ↦
          let still = same k (λ q. absurd (omega arith)) (inr (omega arith)) used in
          a.kept k (λ q. used (sym still ∙ q)) (inl (omega arith)) ∙ still
      | inr (above, other) ↦
          let still = same k (λ q. absurd (omega arith)) (inl (λ q. other (inl q))) used in
          a.kept k (λ q. used (sym still ∙ q)) (inr (above, λ q. other (inr q))) ∙ still
    ];
  }

  pub set_up_all-Arranged :
      (n fd : ℕ) (ss : List Stdio) (w : O.World)
      → (set_up_all O n fd ss w).0 ≡ ok tt
      → fd + length ss ≤ n
      → Ready fd ss w
      → (fd ≡ 2 → doc.slot w 1 ≢ none)
      → Arranged n fd ss w (set_up_all O n fd ss w).1
  unfolding set_up_all
  set_up_all-Arranged n fd [] w h le r one = record {
    placed = λ i u q. elim q [ ];
    merged = λ q. elim q [ ];
    kept = λ k used q. refl;
  }
  set_up_all-Arranged n fd (s ∷ ss) w h le r one =
      let w1 = (set_up O n fd s w).1 in
      elim (Result-cases (set_up O n fd s w).0) [
        | inr (e, q) ↦
            let ran : (set_up_all O n fd (s ∷ ss) w).0 ≡ throw e = rw (q, set_up_all) in absurd cc
        | inl (_, q) ↦
            let (p, same) =
              set_up-Placed O doc n fd s w q (omega arith) (λ u c. r.all_open fd u (inl (refl, c)))
                one in
            let (unchanged, r') = Ready-tail n fd s ss w w1 r same in
            let next : fd + 1 ≡ 2 → doc.slot w1 1 ≢ none = λ e o.
              let at_1 : fd ≡ 1 = omega (arith, e) in
              p.2 (omega arith) (ap (doc.slot w1) at_1 ∙ o) in
            let w' = (set_up_all O n (fd + 1) ss w1).1 in
            let rest =
              set_up_all-Arranged n (fd + 1) ss w1 (rw (q, set_up_all) at h) (omega arith) r'
                next in
            rw (q, set_up_all)
              (Arranged-cons n fd s ss w w1 w' (omega arith) unchanged p same one rest)
      ]
