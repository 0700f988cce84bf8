-- ===== src/Process/Child/Closed.antt =====
-- About the last three loops, which close descriptors.
use processx.Base.{
  ℕ, zero, suc, ◌+◌, ◌-◌, ◌≤◌, ◌<◌, ◌≡◌, ◌≢◌, refl, sym, ◌∙◌, ap, true, Bool-cases, not, ◌&&◌,
  Option, none, some, some_inj, List, [], ◌∷◌, arith, ◌⊎◌, inl, inr, leb, ltb, ltb→lt, ltb→ge,
  lt→ltb, if◌then◌else◌,
}
use processx.Process.Child.{Stdio, FdOs, close_used, close_range, close_from}
use processx.Process.Child.Table.{Documented, Wants}

module _ (O : FdOs) (doc : Documented O) where
  -- The third loop spares what is below the standard descriptors, and what is no child's end. What
  -- is closed stays closed.
  close_used-spared :
      (n fd : ℕ) (ss : List Stdio) (w : O.World) (k : ℕ)
      → (k < n) ⊎ ((i : ℕ) → Wants fd ss i k → ⊥)
      → doc.slot (close_used O n ss w) k ≡ doc.slot w k
  unfolding close_used
  close_used-spared n fd [] w k h = refl
  close_used-spared n fd (s ∷ ss) w k h =
      close_used-spared n (fd + 1) ss (next s.child_end) k (later h) ∙ here s.child_end (mine h)
    where
      next : Option ℕ → O.World
      next c = elim c [ none ↦ w | some u ↦ if leb n u then (O.close u w).1 else w ]

      later :
          (k < n) ⊎ ((i : ℕ) → Wants fd (s ∷ ss) i k → ⊥)
          → (k < n) ⊎ ((i : ℕ) → Wants (fd + 1) ss i k → ⊥)
      later (inl lt) = inl lt
      later (inr other) = inr (λ i t. other i (inr t))

      mine : (k < n) ⊎ ((i : ℕ) → Wants fd (s ∷ ss) i k → ⊥) → (k < n) ⊎ (s.child_end ≢ some k)
      mine (inl lt) = inl lt
      mine (inr other) = inr (λ c. other fd (inl (refl, c)))

      here : (c : Option ℕ) → (k < n) ⊎ (c ≢ some k) → doc.slot (next c) k ≡ doc.slot w k
      here none p = refl
      here (some u) p = elim (Bool-cases (leb n u)) [
        | inr e ↦ rw e
        | inl e ↦ rw e ((doc.close_all u w).1 k (apart u e p))
      ]
        where
          apart : (u : ℕ) → leb n u ≡ true → (k < n) ⊎ (some u ≢ some k) → k ≢ u
          apart u e (inl lt) = λ same. ground arith
          apart u e (inr ne) = λ same. ne (ap (λ (v : ℕ). some v) (sym same))

  close_range-spared :
      (count i : ℕ) (w : O.World) (k : ℕ)
      → (k < i) ⊎ (i + count ≤ k)
      → doc.slot (close_range O count i w) k ≡ doc.slot w k
  unfolding close_range
  close_range-spared zero i w k h = refl
  close_range-spared (suc n) i w k h =
      let apart : k ≢ i = λ e. elim h [ inl p ↦ omega (arith, e) | inr p ↦ omega (arith, e) ] in
      let next : (k < i + 1) ⊎ (i + 1 + n ≤ k) = elim h [
        | inl p ↦ inl (omega arith)
        | inr p ↦ inr (omega arith)
      ] in
      close_range-spared n (i + 1) (O.close i w).1 k next ∙ (doc.close_all i w).1 k apart

  close_range-closed :
      (count i : ℕ) (w : O.World) (k : ℕ)
      → i ≤ k
      → k < i + count
      → doc.slot (close_range O count i w) k ≡ none
  unfolding close_range
  close_range-closed zero i w k a b = absurd (omega arith)
  close_range-closed (suc n) i w k a b = elim (Bool-cases (ltb i k)) [
    | inl e ↦ close_range-closed n (i + 1) (O.close i w).1 k (ground arith) (omega arith)
    | inr e ↦
        let same : i ≡ k = ground arith in
        close_range-spared n (i + 1) (O.close i w).1 k (inl (omega arith))
        ∙ ap (doc.slot (O.close i w).1) (sym same)
        ∙ (doc.close_all i w).0
  ]

  -- The last loop, if it ends
  close_from-closed :
      (fuel i : ℕ) (w w' : O.World)
      → close_from O fuel i w ≡ some w'
      → ((k : ℕ) → k < i → doc.slot w' k ≡ doc.slot w k)
        × ((k : ℕ) → i ≤ k → k ≤ 200 → doc.slot w' k ≡ none)
  unfolding close_from
  close_from-closed zero i w w' h = absurd cc
  close_from-closed (suc fuel) i w w' h =
      let w1 = (O.close i w).1 in
      let (gone, others) = doc.close_all i w in
      elim (Bool-cases (not (O.close i w).0 && ltb 200 i)) [
        | inl e ↦
            let same : w1 ≡ w' = some_inj (rw (e, close_from) at h) in
            (
              λ k lt.
                  ap (λ (v : O.World). doc.slot v k) (sym same)
                  ∙ others k (λ q. absurd (omega (arith, q))),
              λ k ge le. absurd (ground arith),
            )
        | inr e ↦
            let (below, above) = close_from-closed fuel (i + 1) w1 w' (rw (e, close_from) at h) in
            (
              λ k lt. below k (omega arith) ∙ others k (λ q. absurd (omega (arith, q))),
              λ k ge le. elim (Bool-cases (ltb i k)) [
                | inl p ↦ above k (ground arith) le
                | inr p ↦
                    let same : i ≡ k = ground arith in
                    below k (omega arith) ∙ ap (doc.slot w1) (sym same) ∙ gone
              ],
            )
      ]

  -- The last loop ends at a descriptor above 200 that no file can have.
  close_from-Ended :
      (fuel i : ℕ) (w : O.World)
      → doc.limit ≤ i + fuel
      → 200 < i + fuel
      → (w' : O.World) × (close_from O (suc fuel) i w ≡ some w')
  unfolding close_from
  close_from-Ended zero i w a b =
      let failed = doc.close_empty i w (doc.limit_empty i w (omega arith)) in
      let high : ltb 200 i ≡ true = lt→ltb 200 i (omega arith) in
      ((O.close i w).1, rw (failed, high))
  close_from-Ended (suc fuel) i w a b =
      let w1 = (O.close i w).1 in
      elim (Bool-cases (not (O.close i w).0 && ltb 200 i)) [
        | inl e ↦ (w1, rw (e, close_from))
        | inr e ↦
            let (w', eq) = close_from-Ended fuel (i + 1) w1 (omega arith) (omega arith) in
            (w', rw (e, close_from) eq)
      ]

  -- From the end of the second loop: nothing below `n` changes, nothing up to 200 is left above it
  -- but the pipe for errors, which stays.
  pub record Closed (n e : ℕ) (w w' : O.World) : Type 0 where
    pub below : (k : ℕ) → k < n → doc.slot w' k ≡ doc.slot w k
    pub gone : (k : ℕ) → n ≤ k → k ≤ 200 → k ≢ e → doc.slot w' k ≡ none
    pub error_pipe : doc.slot w' e ≡ doc.slot w e

  pub all-Closed :
      (fuel n fd e : ℕ) (ss : List Stdio) (w : O.World)
      → n ≤ e
      → ((i : ℕ) → Wants fd ss i e → ⊥)
      → doc.limit ≤ e + 1 + fuel
      → 200 < e + 1 + fuel
      → (w' : O.World) × (close_from O
            (suc fuel)
            (e + 1)
            (close_range O (e - n) n (close_used O n ss w))
          ≡ some w')
        × Closed n e w w'
  all-Closed fuel n fd e ss w le other a b =
      let w1 = close_used O n ss w in
      let w2 = close_range O (e - n) n w1 in
      let (w', eq) = close_from-Ended fuel (e + 1) w2 a b in
      let (under, over) = close_from-closed (suc fuel) (e + 1) w2 w' eq in
      (
        w',
        eq,
        record {
          below = λ k lt.
              under k (omega arith)
              ∙ close_range-spared (e - n) n w1 k (inl lt)
              ∙ close_used-spared n fd ss w k (inl lt);
          gone = λ k ge small ne. elim (Bool-cases (ltb k e)) [
            | inl p ↦
                let lt = ltb→lt k e p in
                under k (omega arith) ∙ close_range-closed (e - n) n w1 k ge (omega arith)
            | inr p ↦
                let above = ltb→ge k e p in
                let apart : e < k = ground arith in over k (omega arith) small
          ];
          error_pipe =
              under e (omega arith)
              ∙ close_range-spared (e - n) n w1 e (inr (omega arith))
              ∙ close_used-spared n fd ss w e (inr other);
        },
      )
