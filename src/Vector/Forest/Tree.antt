-- ===== src/Vector/Forest/Tree.antt =====
-- `processx_vector_rooted_tree` as a whole: it finds the descendants of the root and nothing
-- else, it stops if no process is its own ancestor, and it does not stop on a self-parented root.
use processx.Base.{
  ℕ, ◌+◌, ◌≤◌, ◌<◌, ◌≡◌, ◌↔◌, inl, inr, refl, sym, ap, ◌∙◌, none, some, List, [], ◌∷◌, ◌++◌, arith,
  In,
}
use processx.Vector.{Vector, elements, clear, push_back, grow, rooted_tree}
use processx.Vector.Laws.{IsValid, push_back-Pushed, push_back-IsValid}
use processx.Vector.Forest.Scan.{Child}
use processx.Vector.Forest.Loop.{
  Descends, here, down, Between, grow_complete, grow_sound, grow-stops, grow_loops,
}

module _ (nodes parents : Vector) (same : parents.size ≡ nodes.size) where
  -- What the loops start with.
  start : ℕ → Vector → Vector
  start root result = push_back (clear result) root

  start_lem :
      (root : ℕ) (result : Vector)
      → Between nodes parents same root 0 (start root result)
        × (elements (start root result) ≡ root ∷ [])
        × ((start root result).size ≡ 1)
  unfolding start clear
  start_lem root result =
      let v : IsValid (record result { size = 0 }) = record { fits = omega arith } in
      let p = push_back-Pushed (record result { size = 0 }) root v in
      (
        record {
          valid = push_back-IsValid (record result { size = 0 }) root v;
          within = omega arith;
          has_root = rw p.at_end (inl refl);
          closed = λ a n c m. elim m [ ];
        },
        p.at_end,
        p.one_more,
      )

  rooted_tree-grow :
      (fuel root : ℕ) (result : Vector)
      → rooted_tree fuel root nodes parents result
        ≡ grow fuel nodes parents 0 (start root result).size (start root result)
  unfolding rooted_tree start
  rooted_tree-grow fuel root result =
      ap (λ n. grow fuel nodes parents 0 n (push_back (clear result) root))
        (sym (start_lem root result).2)

  only_root :
      (P : ℕ → Type 0) (root : ℕ) (result : Vector)
      → P root
      → (x : ℕ) → In x (elements (start root result))
      → P x
  only_root P root result h x m = pick (rw (start_lem root result).1 at m)
    where
      pick : In x (root ∷ []) → P x
      pick (inl e) = rw e h
      pick (inr no') = elim no' [ ]

  -- If parents and nodes have one length, whatever `rooted_tree` returns starts with the root,
  -- and it holds exactly the root and its descendants.
  pub rooted_tree_iff :
      (fuel root : ℕ) (result w : Vector)
      → rooted_tree fuel root nodes parents result ≡ some w
      → ((x : ℕ) → In x (elements w) ↔ Descends nodes parents root x)
        × ((rest : List ℕ) × (elements w ≡ root ∷ rest))
  rooted_tree_iff fuel root result w e =
      let e' = sym (rooted_tree-grow fuel root result) ∙ e in
      let s = start_lem root result in
      let sound =
        grow_sound nodes parents same (Descends nodes parents root) (λ p c ch d. down d ch) fuel
          root 0 (start root result) w s.0 e'
          (only_root (Descends nodes parents root) root result here) in
      (
        λ x. (
          sound.0 x,
          grow_complete nodes parents same fuel root 0 (start root result) w s.0 e' x,
        ),
        (sound.1.0, sound.1.1 ∙ ap (λ t. t ++ sound.1.0) s.1),
      )

  -- If every child has a higher rank than its parent (so no process is its own ancestor) and
  -- no rank is above `top`, then `top + 2` rounds of the outer loop are enough.
  pub rooted_tree_stops :
      (rank : ℕ → ℕ) (top fuel root : ℕ) (result : Vector)
      → ((p c : ℕ) → Child nodes parents p c → (rank p < rank c) × (rank c ≤ top))
      → rank root ≤ top
      → top + 2 ≤ fuel
      → (w : Vector) × (rooted_tree fuel root nodes parents result ≡ some w)
  rooted_tree_stops rank top fuel root result low r f = rw (rooted_tree-grow fuel root result) (
      grow-stops nodes parents same rank top low fuel root 0 0 (start root result)
        (start_lem root result).0 (λ x m. omega arith) (only_root (λ x. rank x ≤ top) root result r)
        (omega arith) (omega arith))

  -- A root that the forest lists as its own parent makes the outer loop run for ever: no fuel
  -- is enough.
  pub rooted_tree_loops :
      (fuel root : ℕ) (result : Vector)
      → Child nodes parents root root
      → rooted_tree fuel root nodes parents result ≡ none
  rooted_tree_loops fuel root result c = rw (rooted_tree-grow fuel root result) (
      grow_loops nodes parents same root fuel 0 (start root result) c (start_lem root result).0
        (start_lem root result).0.has_root)
