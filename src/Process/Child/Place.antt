-- ===== src/Process/Child/Place.antt =====
-- What one round of the second loop does to the table of file descriptors.
use processx.Base.{
  ℕ, ◌<◌, ◌≡◌, ◌≢◌, refl, sym, ◌∙◌, subst, ap, Bool, true, false, Bool-cases, ◌&&◌, Option,
  Option-cases, none, some, some_inj, List, Result, ok, throw, leb, ◌==◌, ==→eq, if◌then◌else◌,
  arith, ◌⊎◌, inl, inr,
}
use processx.Process.Child.{
  read_only, read_write, dev_null, Stdio, Died, died, FdOs, is_merged, open_output, output_file,
  assign, settle, place, set_up,
}
use processx.Process.Child.Table.{Slot, Shares, Documented}

-- The descriptor is not one that `close_fd` closes.
abbrev pub Spared : ℕ → Option ℕ → ℕ → Type 0
Spared stdio_count close_fd k = (close_fd ≢ some k) ⊎ (k < stdio_count)

died-ne-ok : (r : Result Died (Unit {0})) → r ≡ throw died → r ≡ ok tt → ⊥
died-ne-ok r a b = cc

module _ (O : FdOs) (doc : Documented O) where
  assign-Shares :
      (fd u f : ℕ) (w : O.World)
      → (assign O fd u w).0 ≡ some f
      → doc.slot w u ≢ none
      → Shares (doc.slot w u) (doc.slot (assign O fd u w).1 fd)
        × ((k : ℕ) → k ≢ fd → doc.slot (assign O fd u w).1 k ≡ doc.slot w k)
  unfolding assign
  assign-Shares fd u f w h n = elim (Bool-cases (fd == u)) [
    | inr ne ↦ rw ne (doc.dup2_ok u fd w f (rw ne at h))
    | inl e ↦ let same = ==→eq fd u e in let (a, b) = doc.cloexec_clear u w in rw (e, same) (a n, b)
  ]

  settle-Spared :
      (n fd : ℕ) (close_fd : Option ℕ) (w : O.World) (k : ℕ)
      → Spared n close_fd k
      → doc.slot (settle O n fd close_fd w) k ≡ doc.slot w k
  unfolding settle
  settle-Spared n fd close_fd w k h = by_close close_fd h ∙ mode_kept (leb fd 2)
    where
      w' : O.World
      w' = if leb fd 2 then O.nonblock_fcntl fd false w else w

      mode_kept :
          (b : Bool) → doc.slot (if b then O.nonblock_fcntl fd false w else w) k ≡ doc.slot w k
      mode_kept true = doc.nonblock_same fd k false w
      mode_kept false = refl

      by_close :
          (c : Option ℕ)
          → Spared n c k
          → doc.slot (elim c [ none ↦ w' | some c ↦ if leb n c then (O.close c w').1 else w' ]) k
            ≡ doc.slot w' k
      by_close none h = refl
      by_close (some c) h = elim (Bool-cases (leb n c)) [
        | inr e ↦ rw e
        | inl e ↦ rw e ((doc.close_all c w').1 k (apart c e h))
      ]
        where
          apart : (c : ℕ) → leb n c ≡ true → Spared n (some c) k → k ≢ c
          apart c e (inl ne) = λ same. ne (ap (λ v. some v) (sym same))
          apart c e (inr lt) = λ same. ground arith

  -- The slot of `fd` gets the file of `use_fd`, and the others keep theirs.
  place-Shares :
      (n fd u : ℕ) (c : Option ℕ) (w : O.World)
      → (place O n fd u c w).0 ≡ ok tt
      → fd < n
      → doc.slot w u ≢ none
      → Shares (doc.slot w u) (doc.slot (place O n fd u c w).1 fd)
        × ((k : ℕ) → k ≢ fd → Spared n c k → doc.slot (place O n fd u c w).1 k ≡ doc.slot w k)
  unfolding place
  place-Shares n fd u c w h lt ne = elim (Option-cases (assign O fd u w).0) [
    | inl e ↦ absurd (died-ne-ok (place O n fd u c w).0 (rw (e, place)) h)
    | inr (f, e) ↦
        let w1 = (assign O fd u w).1 in
        let (a, b) = assign-Shares fd u f w e ne in
        let at_fd = settle-Spared n fd c w1 fd (inr lt) in
        rw (e, place)
          ((
            subst (λ (x : Slot). Shares (doc.slot w u) x) (sym at_fd) a,
            λ k ne spared. settle-Spared n fd c w1 k spared ∙ b k ne,
          ))
  ]

  Shares-filled : (old new : Slot) → Shares old new → new ≢ none
  Shares-filled old new (file, flag, _, e) = λ q. absurd cc

  -- What a round has to do for one descriptor
  abbrev pub Placed : ℕ → Stdio → O.World → O.World → Type 0
  Placed fd s w w' =
      ((u : ℕ) → s.child_end ≡ some u → Shares (doc.slot w u) (doc.slot w' fd))
      × (s.child_end ≡ none
          → fd ≡ 2
          → is_merged s.output ≡ true
          → Shares (doc.slot w 1) (doc.slot w' 2))
      × (fd < 3 → doc.slot w' fd ≢ none)

  -- What else may change: an empty slot, and what is closed
  abbrev pub Same : ℕ → ℕ → Option ℕ → O.World → O.World → Type 0
  Same n fd c w w' =
      (k : ℕ) → k ≢ fd → Spared n c k → doc.slot w k ≢ none → doc.slot w' k ≡ doc.slot w k

  open_output-Same :
      (fd f : ℕ) (output : Option (List ℕ)) (w : O.World)
      → (open_output O fd output w).0 ≡ some f
      → (doc.slot w f ≡ none)
        × (doc.slot (open_output O fd output w).1 f ≢ none)
        × ((k : ℕ) → k ≢ f → doc.slot (open_output O fd output w).1 k ≡ doc.slot w k)
  unfolding open_output
  open_output-Same fd f none w h =
      doc.open_ok dev_null (if fd == 0 then read_only else read_write) w f h
  open_output-Same fd f (some path) w h = elim (Bool-cases (fd == 0)) [
    | inl e ↦ rw (e, open_output) (doc.open_ok path read_only w f (rw (e, open_output) at h))
    | inr e ↦
        let (path', mode) = output_file path in
        rw (e, open_output) (doc.open_ok path' mode w f (rw (e, open_output) at h))
  ]

  -- A file is opened and put in place.
  opened-Same :
      (n fd f : ℕ) (output : Option (List ℕ)) (w : O.World) (p : Option ℕ)
      → (open_output O fd output w).0 ≡ some f
      → (place O n fd f (some f) (open_output O fd output w).1).0 ≡ ok tt
      → fd < n
      → Same n fd p w (place O n fd f (some f) (open_output O fd output w).1).1
  opened-Same n fd f output w p e h lt k ne _ used =
      let w1 = (open_output O fd output w).1 in
      let (free, taken, others) = open_output-Same fd f output w e in
      let apart : k ≢ f = λ same. used (ap (doc.slot w) same ∙ free) in
      let spared : Spared n (some f) k = inl (λ same. apart (sym (some_inj same))) in
      (place-Shares n fd f (some f) w1 h lt taken).1 k ne spared ∙ others k apart

  -- A descriptor that has no end of a pipe and does not share that of the standard output
  unmerged-Placed :
      (n fd : ℕ) (s : Stdio) (w : O.World)
      → s.child_end ≡ none
      → (fd == 2 && is_merged s.output) ≡ false
      → (set_up O n fd s w).0 ≡ ok tt
      → fd < n
      → Placed fd s w (set_up O n fd s w).1 × Same n fd s.parent_end w (set_up O n fd s w).1
  unfolding set_up
  unmerged-Placed n fd s w e m h lt =
      let not_merged : fd ≡ 2 → is_merged s.output ≡ true → ⊥ = λ two q. ground arith in
      elim (Bool-cases (leb 3 fd)) [
        | inl big ↦
            rw (e, m, big, set_up)
              (
                (
                  λ v q. absurd cc,
                  λ _ two q. absurd (not_merged two q),
                  λ small. absurd (ground arith),
                ),
                λ k ne sp _. refl,
              )
        | inr small ↦ elim (Option-cases (open_output O fd s.output w).0) [
          | inl o ↦ absurd (died-ne-ok (set_up O n fd s w).0 (rw (e, m, small, o, set_up)) h)
          | inr (f, o) ↦
              let w1 = (open_output O fd s.output w).1 in
              let ran = rw (e, m, small, o, set_up) at h in
              rw (e, m, small, o, set_up)
                (
                  (
                    λ v q. absurd cc,
                    λ _ two q. absurd (not_merged two q),
                    λ _.
                        let taken = (open_output-Same fd f s.output w o).1 in
                        let w' = (place O n fd f (some f) w1).1 in
                        Shares-filled (doc.slot w1 f) (doc.slot w' fd)
                          ((place-Shares n fd f (some f) w1 ran lt taken).0),
                  ),
                  opened-Same n fd f s.output w s.parent_end o ran lt,
                )
        ]
      ]

  pub set_up-Placed :
      (n fd : ℕ) (s : Stdio) (w : O.World)
      → (set_up O n fd s w).0 ≡ ok tt
      → fd < n
      → ((u : ℕ) → s.child_end ≡ some u → doc.slot w u ≢ none)
      → (fd ≡ 2 → doc.slot w 1 ≢ none)
      → Placed fd s w (set_up O n fd s w).1 × Same n fd s.parent_end w (set_up O n fd s w).1
  unfolding set_up
  set_up-Placed n fd s w h lt used one = elim (Option-cases s.child_end) [
    | inr (u, e) ↦
        let (a, b) = place-Shares n fd u s.parent_end w (rw (e, set_up) at h) lt (used u e) in
        let w' = (place O n fd u s.parent_end w).1 in
        rw (e, set_up)
          (
            (
              λ v q. subst (λ (x : ℕ). Shares (doc.slot w x) (doc.slot w' fd)) (some_inj q) a,
              λ q. absurd cc,
              λ _. Shares-filled (doc.slot w u) (doc.slot w' fd) a,
            ),
            λ k ne sp _. b k ne sp,
          )
    | inl e ↦ elim (Bool-cases (fd == 2 && is_merged s.output)) [
      | inl m ↦
          let two : fd ≡ 2 = ground arith in
          let (a, b) = place-Shares n fd 1 s.parent_end w (rw (e, m, set_up) at h) lt (one two) in
          let w' = (place O n fd 1 s.parent_end w).1 in
          rw (e, m, set_up)
            (
              (
                λ v q. absurd cc,
                λ _ _ _. subst (λ (x : ℕ). Shares (doc.slot w 1) (doc.slot w' x)) two a,
                λ _. Shares-filled (doc.slot w 1) (doc.slot w' fd) a,
              ),
              λ k ne sp _. b k ne sp,
            )
      | inr m ↦ unmerged-Placed n fd s w e m h lt
    ]
  ]
