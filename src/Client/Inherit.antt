-- ===== src/Client/Inherit.antt =====
-- Which descriptors `processx_disable_inheritance` marks.
use processx.Base.{
  ℕ, zero, suc, ◌+◌, ◌-◌, ◌%◌, ◌≤◌, ◌<◌, ◌≡◌, ◌≢◌, refl, sym, ap, ◌∙◌, subst, Bool, true, false,
  Bool-cases, Option, Option-cases, none, some, arith, inl, inr, ◌⊎◌, ltb, ◌==◌, if◌then◌else◌,
  ==→eq, ==→ne, ltb→lt, ltb→ge,
}
use processx.Client.{
  FlagOs, has_cloexec, with_cloexec, same_bool, cloexec_fcntl, inheritance_loop,
  disable_inheritance,
}

-- F_SETFD fails on no open descriptor, and changes one.
pub record Flags (O : FlagOs) : Type 0 where
  pub set_ok :
      (fd v : ℕ) (w : O.World)
      → O.getfd w fd ≢ none
      → ((O.setfd fd v w).0 ≡ true) × (O.getfd (O.setfd fd v w).1 fd ≡ some v)
  pub set_other : (fd v k : ℕ) (w : O.World) → k ≢ fd → O.getfd (O.setfd fd v w).1 k ≡ O.getfd w k

-- The flags with FD_CLOEXEC, if the descriptor is open
abbrev pub marked : Option ℕ → Option ℕ
marked none = none
marked (some r) = some (r - r % 2 + 1)

abbrev pub is_some : Option ℕ → Bool
is_some none = false
is_some (some r) = true

module _ (O : FlagOs) (F : Flags O) where
  cloexec_fcntl_lem :
      (fd : ℕ) (w : O.World)
      → ((cloexec_fcntl O fd true w).0 ≡ is_some (O.getfd w fd))
        × (O.getfd (cloexec_fcntl O fd true w).1 fd ≡ marked (O.getfd w fd))
        × ((k : ℕ) → k ≢ fd → O.getfd (cloexec_fcntl O fd true w).1 k ≡ O.getfd w k)
  unfolding cloexec_fcntl
  cloexec_fcntl_lem fd w = elim (Option-cases (O.getfd w fd)) [
    | inl e ↦ rw (e, cloexec_fcntl) (refl, e, λ k ne. refl)
    | inr (r, e) ↦ elim (Bool-cases (same_bool (has_cloexec r) true)) [
      | inl set ↦ rw (e, set, cloexec_fcntl) (refl, e ∙ ap some (ground arith), λ k ne. refl)
      | inr unset ↦
          let v = with_cloexec r true in
          let (okay, now) = F.set_ok fd v w (λ q. absurd cc) in
          rw (e, unset, cloexec_fcntl) (okay, now, λ k ne. F.set_other fd v k w ne)
    ]
  ]

  -- The loop ends at `stop`, and has marked what is open from `fd` on up to there.
  abbrev pub MarkedTo : ℕ → ℕ → O.World → O.World → Type 0
  MarkedTo fd stop w w' =
      (15 < stop)
      × (fd ≤ stop)
      × (O.getfd w stop ≡ none)
      × ((k : ℕ) → fd ≤ k → 15 < k → k < stop → O.getfd w k ≢ none)
      × ((k : ℕ) → fd ≤ k → k < stop → O.getfd w' k ≡ marked (O.getfd w k))
      × ((k : ℕ) → (k < fd) ⊎ (stop ≤ k) → O.getfd w' k ≡ O.getfd w k)

  below_limit :
      (fd limit : ℕ) (w : O.World)
      → fd ≤ limit
      → ((k : ℕ) → limit ≤ k → O.getfd w k ≡ none)
      → (r : ℕ) → O.getfd w fd ≡ some r
      → fd < limit
  below_limit fd limit w le closed r e = elim (Bool-cases (ltb fd limit)) [
    | inl h ↦ ltb→lt fd limit h
    | inr h ↦ let q = closed fd (ltb→ge fd limit h) in absurd cc
  ]

  -- The loop ends here.
  MarkedTo-stop :
      (fd : ℕ) (w : O.World)
      → 15 < fd
      → O.getfd w fd ≡ none
      → MarkedTo fd fd w (cloexec_fcntl O fd true w).1
  MarkedTo-stop fd w big e =
      let (done, now, others) = cloexec_fcntl_lem fd w in
      (
        big,
        omega arith,
        e,
        λ k a b c. absurd (omega arith),
        λ k a b. absurd (omega arith),
        λ k h. elim (Bool-cases (k == fd)) [
          | inl q ↦
              let at_fd : fd ≡ k = sym (==→eq k fd q) in
              subst (λ j. O.getfd (cloexec_fcntl O fd true w).1 j ≡ O.getfd w j) at_fd
                (now ∙ ap marked e ∙ sym e)
          | inr q ↦ others k (==→ne k fd q)
        ],
      )

  -- It goes on after this descriptor.
  MarkedTo-next :
      (fd stop : ℕ) (w w' : O.World)
      → (15 < fd → O.getfd w fd ≢ none)
      → MarkedTo (fd + 1) stop (cloexec_fcntl O fd true w).1 w'
      → MarkedTo fd stop w w'
  MarkedTo-next fd stop w w' open_fd (big, le, gap, before, within, outside) =
      let (done, now, others) = cloexec_fcntl_lem fd w in
      (
        big,
        omega arith,
        sym (others stop (λ q. absurd (omega arith))) ∙ gap,
        λ k a b c q. elim (Bool-cases (k == fd)) [
          | inl e ↦
              let at_fd : k ≡ fd = ==→eq k fd e in
              open_fd (omega arith) (subst (λ j. O.getfd w j ≡ none) at_fd q)
          | inr e ↦
              before k (let ne = ==→ne k fd e in ground arith) b c (others k (==→ne k fd e) ∙ q)
        ],
        λ k a b. elim (Bool-cases (k == fd)) [
          | inl e ↦
              let at_fd : fd ≡ k = sym (==→eq k fd e) in
              subst (λ j. O.getfd w' j ≡ marked (O.getfd w j)) at_fd
                (outside fd (inl (omega arith)) ∙ now)
          | inr e ↦
              within k (let ne = ==→ne k fd e in ground arith) b
              ∙ ap marked (others k (==→ne k fd e))
        ],
        λ k h. elim h [
          | inl lt ↦ outside k (inl (omega arith)) ∙ others k (λ q. absurd (omega arith))
          | inr ge ↦ outside k (inr ge) ∙ others k (λ q. absurd (omega arith))
        ],
      )

  inheritance_loop-MarkedTo :
      (fuel limit fd : ℕ) (w : O.World)
      → 15 < limit
      → ((k : ℕ) → limit ≤ k → O.getfd w k ≡ none)
      → fd ≤ limit
      → limit < fd + fuel
      → (stop : ℕ) × (w' : O.World) × (inheritance_loop O fuel fd w ≡ some w')
        × MarkedTo fd stop w w'
  unfolding inheritance_loop
  inheritance_loop-MarkedTo zero limit fd w big closed le lt = absurd (omega arith)
  inheritance_loop-MarkedTo (suc fuel) limit fd w big closed le lt =
      let (done, now, others) = cloexec_fcntl_lem fd w in
      let w1 = (cloexec_fcntl O fd true w).1 in
      let go_on =
        λ (below : fd < limit) (open_fd : 15 < fd → O.getfd w fd ≢ none)
            (q : inheritance_loop O (suc fuel) fd w ≡ inheritance_loop O fuel (fd + 1) w1).
          let (stop, w', ran, m) =
            inheritance_loop-MarkedTo fuel limit (fd + 1) w1 big
              (λ k h. others k (λ e. absurd (omega arith)) ∙ closed k h) (omega arith)
              (omega arith) in
          let whole : inheritance_loop O (suc fuel) fd w ≡ some w' = q ∙ ran in
          let res : (stop : ℕ) × (w' : O.World) × (inheritance_loop O (suc fuel) fd w ≡ some w')
              × MarkedTo fd stop w w' =
            (stop, w', whole, MarkedTo-next fd stop w w' open_fd m) in
          res in
      elim (Option-cases (O.getfd w fd)) [
        | inr (r, e) ↦
            let failed : (cloexec_fcntl O fd true w).0 ≡ true = done ∙ ap is_some e in
            let below : fd < limit = below_limit fd limit w le closed r e in
            go_on below (λ _ q. absurd cc) (rw failed refl)
        | inl e ↦
            let failed : (cloexec_fcntl O fd true w).0 ≡ false = done ∙ ap is_some e in
            elim (Bool-cases (ltb 15 fd)) [
              | inl big_fd ↦
                  (fd, w1, rw (failed, big_fd) refl, MarkedTo-stop fd w (ltb→lt 15 fd big_fd) e)
              | inr small ↦
                  let le15 = ltb→ge 15 fd small in
                  go_on (omega arith) (λ h. absurd (omega arith)) (rw (failed, small) refl)
            ]
      ]

  -- If no descriptor from some limit above 15 on is open, the loop of processx_disable_inheritance
  -- ends within one round more than the limit: it stops at the first closed descriptor above 15,
  -- has marked every open one from 3 (or 0) up to there to be closed in a new program, and changed
  -- no other.
  pub disable_inheritance-MarkedTo :
      (fuel limit : ℕ) (stdio : Bool) (w : O.World)
      → 15 < limit
      → ((k : ℕ) → limit ≤ k → O.getfd w k ≡ none)
      → limit < fuel
      → (stop : ℕ) × (w' : O.World) × (disable_inheritance O fuel stdio w ≡ some w')
        × MarkedTo (if stdio then 0 else 3) stop w w'
  unfolding disable_inheritance
  disable_inheritance-MarkedTo fuel limit true w big closed h =
      inheritance_loop-MarkedTo fuel limit 0 w big closed (omega arith) (omega arith)
  disable_inheritance-MarkedTo fuel limit false w big closed h =
      inheritance_loop-MarkedTo fuel limit 3 w big closed (omega arith) (omega arith)
