-- ===== src/Process/Child/Failure.antt =====
-- When the set-up of the file descriptors ends with an error: the system call of this very run that
-- returned -1.
use processx.Base.{
  ℕ, ◌+◌, ◌<◌, ◌≡◌, ◌≢◌, refl, true, false, Bool-cases, ◌&&◌, Option, Option-cases, none, some,
  List, [], ◌∷◌, Result-cases, ok, throw, ◌⊎◌, inl, inr, ltb, ltb→lt, leb, ◌==◌, ==→ne, arith,
}
use processx.Process.Child.{
  Stdio, Died, FdOs, is_merged, move_up, make_room, open_output, assign, place, set_up, set_up_all,
}

module _ (O : FdOs) where
  -- The first loop, from descriptor `fd` on in this world, comes to a child's end below its place
  -- that fcntl cannot duplicate.
  pub data RoomFails (n : ℕ) : ℕ → List Stdio → O.World → Type 0 where
    not_duplicated :
        {fd : ℕ} {s : Stdio} {ss : List Stdio} {w : O.World} (u : ℕ)
        → s.child_end ≡ some u
        → u < fd
        → (O.dup_from u n w).0 ≡ none
        → RoomFails n fd (s ∷ ss) w
    further_room :
        {fd : ℕ} {s : Stdio} {ss : List Stdio} {w : O.World} (moved : Option ℕ)
        → (move_up O n fd s.child_end w).0 ≡ some moved
        → RoomFails n (fd + 1) ss (move_up O n fd s.child_end w).1
        → RoomFails n fd (s ∷ ss) w

  -- What the second loop cannot do for descriptor `fd`: dup2 of the child's end, dup2 of the standard
  -- output, opening the file, or dup2 of the file that was opened.
  pub data PlaceFails (fd : ℕ) (s : Stdio) (w : O.World) : Type 0 where
    end_not_placed :
        (u : ℕ) → s.child_end ≡ some u → fd ≢ u → (O.dup2 u fd w).0 ≡ none → PlaceFails fd s w
    not_merged :
        s.child_end ≡ none
        → (fd == 2 && is_merged s.output) ≡ true
        → (O.dup2 1 fd w).0 ≡ none
        → PlaceFails fd s w
    not_opened :
        s.child_end ≡ none
        → (fd == 2 && is_merged s.output) ≡ false
        → leb 3 fd ≡ false
        → (open_output O fd s.output w).0 ≡ none
        → PlaceFails fd s w
    file_not_placed :
        (f : ℕ)
        → s.child_end ≡ none
        → (fd == 2 && is_merged s.output) ≡ false
        → leb 3 fd ≡ false
        → (open_output O fd s.output w).0 ≡ some f
        → fd ≢ f
        → (O.dup2 f fd (open_output O fd s.output w).1).0 ≡ none
        → PlaceFails fd s w

  -- The second loop comes to such a descriptor.
  pub data SetUpFails (n : ℕ) : ℕ → List Stdio → O.World → Type 0 where
    not_placed :
        {fd : ℕ} {s : Stdio} {ss : List Stdio} {w : O.World}
        → PlaceFails fd s w
        → SetUpFails n fd (s ∷ ss) w
    further_set_up :
        {fd : ℕ} {s : Stdio} {ss : List Stdio} {w : O.World}
        → (set_up O n fd s w).0 ≡ ok tt
        → SetUpFails n (fd + 1) ss (set_up O n fd s w).1
        → SetUpFails n fd (s ∷ ss) w

  -- One of the two loops, each where the run comes to it
  abbrev pub Failure : ℕ → ℕ → List Stdio → O.World → Type 0
  Failure n fd ss w =
      RoomFails n fd ss w
      ⊎ ((ss' : List Stdio) × ((make_room O n fd ss w).0 ≡ ok ss')
          × SetUpFails n fd ss' (make_room O n fd ss w).1)

  move_up-RoomFails :
      (n fd : ℕ) (s : Stdio) (ss : List Stdio) (w : O.World) (c : Option ℕ)
      → s.child_end ≡ c
      → (move_up O n fd c w).0 ≡ none
      → RoomFails n fd (s ∷ ss) w
  unfolding move_up
  move_up-RoomFails n fd s ss w none e h = absurd cc
  move_up-RoomFails n fd s ss w (some u) e h = elim (Bool-cases (ltb u fd)) [
    | inr above ↦ let ran = rw (above, move_up) at h in absurd cc
    | inl below ↦ elim (Option-cases (O.dup_from u n w).0) [
      | inl q ↦ not_duplicated u e (ltb→lt u fd below) q
      | inr (f, q) ↦ absurd (ground arith)
    ]
  ]

  pub make_room-RoomFails :
      (n fd : ℕ) (ss : List Stdio) (w : O.World) (e : Died)
      → (make_room O n fd ss w).0 ≡ throw e
      → RoomFails n fd ss w
  unfolding make_room
  make_room-RoomFails n fd [] w e h = absurd cc
  make_room-RoomFails n fd (s ∷ ss) w e h = elim (Option-cases (move_up O n fd s.child_end w).0) [
    | inl q ↦ move_up-RoomFails n fd s ss w s.child_end refl q
    | inr (o, q) ↦
        let w1 = (move_up O n fd s.child_end w).1 in
        elim (Result-cases (make_room O n (fd + 1) ss w1).0) [
          | inr (x, r) ↦ further_room o q (make_room-RoomFails n (fd + 1) ss w1 x r)
          | inl (rest, r) ↦ let ran = rw (q, r, make_room) at h in absurd cc
        ]
  ]

  -- `place` fails only if dup2 does.
  place-fails :
      (n fd u : ℕ) (c : Option ℕ) (w : O.World) (e : Died)
      → (place O n fd u c w).0 ≡ throw e
      → (fd ≢ u) × ((O.dup2 u fd w).0 ≡ none)
  unfolding place
  place-fails n fd u c w e h = elim (Option-cases (assign O fd u w).0) [
    | inl q ↦ elim (Bool-cases (fd == u)) [
      | inl same ↦ let ran = rw (same, assign) at q in absurd cc
      | inr other ↦ (==→ne fd u other, rw (other, assign) at q)
    ]
    | inr (f, q) ↦ let ran = rw (q, place) at h in absurd cc
  ]

  set_up-PlaceFails :
      (n fd : ℕ) (s : Stdio) (w : O.World) (e : Died)
      → (set_up O n fd s w).0 ≡ throw e
      → PlaceFails fd s w
  unfolding set_up
  set_up-PlaceFails n fd s w e h = elim (Option-cases s.child_end) [
    | inr (u, c) ↦
        let (ne, q) = place-fails n fd u s.parent_end w e (rw (c, set_up) at h) in
        end_not_placed u c ne q
    | inl c ↦ elim (Bool-cases (fd == 2 && is_merged s.output)) [
      | inl m ↦ not_merged c m (place-fails n fd 1 s.parent_end w e (rw (c, m, set_up) at h)).1
      | inr m ↦ elim (Bool-cases (leb 3 fd)) [
        | inl big ↦ let ran = rw (c, m, big, set_up) at h in absurd cc
        | inr small ↦ elim (Option-cases (open_output O fd s.output w).0) [
          | inl o ↦ not_opened c m small o
          | inr (f, o) ↦
              let w1 = (open_output O fd s.output w).1 in
              let (ne, q) = place-fails n fd f (some f) w1 e (rw (c, m, small, o, set_up) at h) in
              file_not_placed f c m small o ne q
        ]
      ]
    ]
  ]

  pub set_up_all-SetUpFails :
      (n fd : ℕ) (ss : List Stdio) (w : O.World) (e : Died)
      → (set_up_all O n fd ss w).0 ≡ throw e
      → SetUpFails n fd ss w
  unfolding set_up_all
  set_up_all-SetUpFails n fd [] w e h = absurd cc
  set_up_all-SetUpFails n fd (s ∷ ss) w e h = elim (Result-cases (set_up O n fd s w).0) [
    | inr (x, q) ↦ not_placed (set_up-PlaceFails n fd s w x q)
    | inl (tt, q) ↦
        further_set_up q
          (set_up_all-SetUpFails n (fd + 1) ss (set_up O n fd s w).1 e (rw (q, set_up_all) at h))
  ]
