-- ===== src/Vector/Forest/Loop.antt =====
-- The outer loop of `processx_vector_rooted_tree`: what holds between two rounds, what the loop
-- returns, and when it stops.
use processx.Base.{
  ℕ, zero, suc, ◌+◌, ◌≤◌, ◌<◌, ◌≡◌, ◌⊎◌, inl, inr, refl, sym, ap, ◌∙◌, none, some, List, [], ◌++◌,
  arith, Bool-cases, length, get_or, take, drop, In, In-append, In-append_left, In-append_right,
  drop-append_length, subst, some_inj, append_assoc, append-nil, take-append-drop, take_all,
  drop_all, drop-cons, take-append_le, length-append, In-drop, ltb, ltb→lt, ltb→ge, lt→ltb,
}
use processx.Vector.{Vector, elements, scan, grow}
use processx.Vector.Laws.{IsValid, length-elements}
use processx.Vector.Forest.Scan.{Child, Grown, scan-Grown, AllFrom, scan-All}

-- The root and the children of descendants.
pub data Descends (nodes parents : Vector) (root : ℕ) : ℕ → Type 0 where
  here : Descends nodes parents root root
  down :
      {p n : ℕ}
      → Descends nodes parents root p
      → Child nodes parents p n
      → Descends nodes parents root n

module _ (nodes parents : Vector) (same : parents.size ≡ nodes.size) where
  -- The state between two rounds: the children of the first `done` elements were found.
  pub record Between (root done : ℕ) (r : Vector) : Type 0 where
    pub valid : IsValid r
    pub within : done ≤ r.size
    pub has_root : In root (elements r)
    pub closed :
        (p n : ℕ) → Child nodes parents p n → In p (take done (elements r)) → In n (elements r)

  round : ℕ → Vector → Vector
  round done r = scan nodes parents done 0 nodes.size r

  round-Grown :
      (done : ℕ) (r : Vector)
      → IsValid r
      → done ≤ r.size
      → Grown nodes parents same done 0 nodes.size r (round done r)
  unfolding round
  round-Grown done r h le =
      scan-Grown nodes parents same done 0 nodes.size r h (omega (arith, length-elements r h))
        (omega arith)

  In-split : (x done : ℕ) (xs : List ℕ) → In x xs → In x (take done xs) ⊎ In x (drop done xs)
  In-split x done xs m = In-append x (take done xs) (drop done xs) (rw (take-append-drop done xs) m)

  round-Between :
      (root done : ℕ) (r : Vector) → Between root done r → Between root r.size (round done r)
  round-Between root done r b =
      let g = round-Grown done r b.valid b.within in
      let len = length-elements r b.valid in
      let len' = length-elements (round done r) g.valid in
      record {
        valid = g.valid;
        within = omega (arith, len', ap length g.extends, length-append (elements r) g.added, len);
        has_root = rw g.extends (In-append_left root (elements r) g.added b.has_root);
        closed = λ p n c m. rw g.extends (reach g p n c (In-split p done (elements r) (old g p m)));
      }
    where
      old :
          (g : Grown nodes parents same done 0 nodes.size r (round done r)) (p : ℕ)
          → In p (take r.size (elements (round done r)))
          → In p (elements r)
      old g p m =
          rw
            (
              g.extends,
              take-append_le r.size (elements r) g.added (omega (arith, length-elements r b.valid)),
              take_all r.size (elements r) (omega (arith, length-elements r b.valid)),
            )
            at m

      reach :
          (g : Grown nodes parents same done 0 nodes.size r (round done r)) (p n : ℕ)
          → Child nodes parents p n
          → In p (take done (elements r)) ⊎ In p (drop done (elements r))
          → In n (elements r ++ g.added)
      reach g p n c (inl m) = In-append_left n (elements r) g.added (b.closed p n c m)
      reach g p n c (inr m) = In-append_right n (elements r) g.added (
          rw c.node_is at
            (g.complete c.at (omega arith) (omega (arith, c.in_range)) (rw c.parent_is m)))

  closed-Descends :
      (root : ℕ) (xs : List ℕ)
      → In root xs
      → ((p n : ℕ) → Child nodes parents p n → In p xs → In n xs)
      → {x : ℕ} → Descends nodes parents root x
      → In x xs
  closed-Descends root xs m close here = m
  closed-Descends root xs m close (down {p} {n} d c) =
      close p n c (closed-Descends root xs m close d)

  -- What the loop returns holds all descendants of the root.
  pub grow_complete :
      (fuel root done : ℕ) (r w : Vector)
      → Between root done r
      → grow fuel nodes parents done r.size r ≡ some w
      → (x : ℕ) → Descends nodes parents root x
      → In x (elements w)
  unfolding grow round
  grow_complete zero root done r w b e x d = cc
  grow_complete (suc fuel) root done r w b e x d = elim (Bool-cases (ltb done r.size)) [
    | inl more ↦
        grow_complete fuel root r.size (round done r) w (round-Between root done r b) (rw more at e)
          x d
    | inr stop ↦
        subst (λ v. In x (elements v)) (some_inj (rw stop at e))
          (closed-Descends root (elements r) b.has_root
            (λ p n c m. b.closed p n c (
              rw
                (take_all done (elements r)
                  (omega (arith, length-elements r b.valid, ltb→ge done r.size stop)))
                m))
            d)
  ]

  -- It keeps what it was given, and adds behind it only children of what it holds.
  pub grow_sound :
      (P : ℕ → Type 0)
      → ((p c : ℕ) → Child nodes parents p c → P p → P c)
      → (fuel root done : ℕ) (r w : Vector) → Between root done r
      → grow fuel nodes parents done r.size r ≡ some w
      → ((x : ℕ) → In x (elements r) → P x)
      → ((x : ℕ) → In x (elements w) → P x)
        × ((added : List ℕ) × (elements w ≡ elements r ++ added))
  unfolding grow round
  grow_sound P keep zero root done r w b e all = cc
  grow_sound P keep (suc fuel) root done r w b e all = elim (Bool-cases (ltb done r.size)) [
    | inl more ↦
        let g = round-Grown done r b.valid b.within in
        let rest =
          grow_sound P keep fuel root r.size (round done r) w (round-Between root done r b)
            (rw more at e)
            (scan-All nodes parents same P P keep (λ x p. p) done 0 0 nodes.size r b.valid
              (omega (arith, length-elements r b.valid)) (omega arith) (omega arith)
              (λ x m. all x (In-drop x done (elements r) m)) all) in
        (
          rest.0,
          (
            g.added ++ rest.1.0,
            rest.1.1
                ∙ ap (λ t. t ++ rest.1.0) g.extends
                ∙ append_assoc (elements r) g.added rest.1.0,
          ),
        )
    | inr stop ↦
        let done_r : r ≡ w = some_inj (rw stop at e) in
        subst
          (λ v.
            ((x : ℕ) → In x (elements v) → P x)
            × ((added : List ℕ) × (elements v ≡ elements r ++ added)))
          done_r (all, ([], sym (append-nil (elements r))))
  ]

  -- If every child has a higher rank than its parent, and no rank is above `top`, then
  -- `top + 2` rounds are enough.
  pub grow-stops :
      (rank : ℕ → ℕ) (top : ℕ)
      → ((p c : ℕ) → Child nodes parents p c → (rank p < rank c) × (rank c ≤ top))
      → (fuel root done level : ℕ) (r : Vector) → Between root done r
      → AllFrom nodes parents same done (λ x. level ≤ rank x) r
      → ((x : ℕ) → In x (elements r) → rank x ≤ top)
      → top + 2 ≤ fuel + level
      → level ≤ top + 1
      → (w : Vector) × (grow fuel nodes parents done r.size r ≡ some w)
  unfolding grow round
  grow-stops rank top low zero root done level r b above below f l = absurd (omega arith)
  grow-stops rank top low (suc fuel) root done level r b above below f l =
      elim (Bool-cases (ltb done r.size)) [
        | inl more ↦
            let g = round-Grown done r b.valid b.within in
            rw more (
              grow-stops rank top low fuel root r.size (level + 1) (round done r)
                (round-Between root done r b)
                (scan-All nodes parents same (λ x. level ≤ rank x) (λ x. level + 1 ≤ rank x)
                  (λ p c ch h. omega (arith, low p c ch)) (λ x h. omega arith) done r.size 0
                  nodes.size r b.valid (omega (arith, length-elements r b.valid))
                  (omega (arith, length-elements r b.valid)) (omega arith) above
                  (nothing (λ x. level + 1 ≤ rank x) r b.valid))
                (scan-All nodes parents same (λ x. rank x ≤ top) (λ x. rank x ≤ top)
                  (λ p c ch h. (low p c ch).1) (λ x h. h) done 0 0 nodes.size r b.valid
                  (omega (arith, length-elements r b.valid)) (omega arith) (omega arith)
                  (λ x m. below x (In-drop x done (elements r) m)) below)
                (omega arith) (omega (arith, busy (ltb→lt done r.size more))))
        | inr stop ↦ (r, rw stop)
      ]
    where
      busy : done < r.size → level ≤ top
      busy lt =
          let x = get_or (elements r) done 0 in
          let m : In x (drop done (elements r)) =
            rw (drop-cons done (elements r) 0 (omega (arith, length-elements r b.valid)))
              (inl refl) in
          omega (arith, above x m, below x (In-drop x done (elements r) m))

      nothing : (P : ℕ → Type 0) (v : Vector) → IsValid v → AllFrom nodes parents same v.size P v
      nothing P v h x m =
          elim (rw (drop_all v.size (elements v) (omega (arith, length-elements v h))) at m) [ ]

  -- A round on a self-parented root finds it again.
  pub grow_loops :
      (root fuel done : ℕ) (r : Vector)
      → Child nodes parents root root
      → Between root done r
      → In root (drop done (elements r))
      → grow fuel nodes parents done r.size r ≡ none
  unfolding grow round
  grow_loops root zero done r c b m = refl
  grow_loops root (suc fuel) done r c b m =
      let g = round-Grown done r b.valid b.within in
      let again : In root g.added =
        rw c.node_is at
          (g.complete c.at (omega arith) (omega (arith, c.in_range)) (rw c.parent_is m)) in
      let more : done < r.size = nonempty m in
      rw (lt→ltb done r.size more) (
        grow_loops root fuel r.size (round done r) c (round-Between root done r b) (
          rw
            (
              g.extends,
              drop-append_length r.size (elements r) g.added
                  (omega (arith, length-elements r b.valid)),
            )
            again))
    where
      nonempty : In root (drop done (elements r)) → done < r.size
      nonempty h = elim (Bool-cases (ltb done r.size)) [
        | inl lt ↦ ltb→lt done r.size lt
        | inr ge ↦
            elim (rw
              (drop_all done (elements r)
                (omega (arith, length-elements r b.valid, ltb→ge done r.size ge)))
              at h) [ ]
      ]
