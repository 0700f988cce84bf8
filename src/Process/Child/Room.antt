-- ===== src/Process/Child/Room.antt =====
-- About the first loop, which makes room for the descriptors of the child.
use processx.Base.{
  ℕ, suc, ◌+◌, ◌≤◌, ◌<◌, ◌≡◌, ◌≢◌, refl, sym, ◌∙◌, subst, ap, Bool, false, Bool-cases, Option,
  Option-cases, none, some, some_inj, List, [], ◌∷◌, Result, Result-cases, ok, throw, length, arith,
  ◌⊎◌, inl, inr, ltb, ltb→ge,
}
use processx.Process.Child.{Stdio, Died, died, FdOs, move_up, make_room}
use processx.Process.Child.Table.{Slot, Documented, Wants, Parent, Merged}

-- The same open file, whatever the flags.
abbrev pub SameFile : Slot → Slot → Type 0
SameFile old new =
    (file : ℕ) × (flag : Bool) × (flag' : Bool) × (old ≡ some (file, flag))
    × (new ≡ some (file, flag'))

filled-SameFile : (x : Slot) → x ≢ none → SameFile x x
filled-SameFile none h = absurd (h refl)
filled-SameFile (some (file, flag)) h = (file, flag, flag, refl, refl)

SameFile-filled : (old new : Slot) → SameFile old new → new ≢ none
SameFile-filled old new (file, flag, flag', _, e) = λ q. absurd cc

ok_inj : (r : Result Died (List Stdio)) (a b : List Stdio) → r ≡ ok a → r ≡ ok b → a ≡ b
ok_inj r a b h h' = cc

module _ (O : FdOs) (doc : Documented O) where
  -- The child's end of descriptor `fd` was `u`, and is now `u'`.
  pub record Moved (fd u u' : ℕ) (w w' : O.World) : Type 0 where
    pub above : fd ≤ u'
    pub same_file : SameFile (doc.slot w u) (doc.slot w' u')
    pub fresh : (u' ≡ u) ⊎ (doc.slot w u' ≡ none)

  move_up-Moved :
      (n fd u : ℕ) (o : Option ℕ) (w : O.World)
      → (move_up O n fd (some u) w).0 ≡ some o
      → fd < n
      → doc.slot w u ≢ none
      → ((u' : ℕ) × (o ≡ some u') × Moved fd u u' w (move_up O n fd (some u) w).1)
        × ((k : ℕ) → doc.slot w k ≢ none → doc.slot (move_up O n fd (some u) w).1 k ≡ doc.slot w k)
  unfolding move_up
  move_up-Moved n fd u o w h lt used = elim (Bool-cases (ltb u fd)) [
    | inr e ↦
        let is_u : some u ≡ o = some_inj (rw (e, move_up) at h) in
        rw (e, move_up)
          (
            (
              u,
              sym is_u,
              record {
                above = ltb→ge u fd e;
                same_file = filled-SameFile (doc.slot w u) used;
                fresh = inl refl;
              },
            ),
            λ k q. refl,
          )
    | inl e ↦ elim (Option-cases (O.dup_from u n w).0) [
      | inl q ↦ let ran : (move_up O n fd (some u) w).0 ≡ none = rw (e, q, move_up) in absurd cc
      | inr (f, q) ↦
          let (least, free, (file, flag, old, new), others) = doc.dup_from_ok u n w f q in
          rw (e, move_up)
            (
              (
                f,
                sym (some_inj (rw (e, q, move_up) at h)),
                record {
                  above = omega arith;
                  same_file = (file, flag, false, old, new);
                  fresh = inr free;
                },
              ),
              λ k filled. others k (λ same. filled (ap (doc.slot w) same ∙ free)),
            )
    ]
  ]

  -- A round of the loop, on an end `c` that becomes `o`
  record Shifted (fd : ℕ) (c o : Option ℕ) (w w1 : O.World) : Type 0 where
    none_stays : c ≡ none → o ≡ none
    forth : (u : ℕ) → c ≡ some u → (u' : ℕ) × (o ≡ some u') × Moved fd u u' w w1
    back : (u' : ℕ) → o ≡ some u' → (u : ℕ) × (c ≡ some u) × Moved fd u u' w w1
    kept : (k : ℕ) → doc.slot w k ≢ none → doc.slot w1 k ≡ doc.slot w k

  move_up-Shifted :
      (n fd : ℕ) (c o : Option ℕ) (w : O.World)
      → (move_up O n fd c w).0 ≡ some o
      → fd < n
      → ((u : ℕ) → c ≡ some u → doc.slot w u ≢ none)
      → Shifted fd c o w (move_up O n fd c w).1
  unfolding move_up
  move_up-Shifted n fd none o w h lt used = record {
    none_stays = λ _. sym (some_inj h);
    forth = λ u q. absurd cc;
    back = λ u' q. absurd cc;
    kept = λ k q. refl;
  }
  move_up-Shifted n fd (some u) o w h lt used =
      let ((u', q, m), same) = move_up-Moved n fd u o w h lt (used u refl) in
      let w1 = (move_up O n fd (some u) w).1 in
      record {
        none_stays = λ e. absurd cc;
        forth = λ v e. (u', q, subst (λ (x : ℕ). Moved fd x u' w w1) (some_inj e) m);
        back = λ v e. (u, refl, subst (λ (x : ℕ). Moved fd u x w w1) (some_inj (sym q ∙ e)) m);
        kept = same;
      }

  -- From the ends `ss` to the ends `ss'`: the same files, each at a number that is not below its
  -- place and that was its own or free.
  pub record Roomy (fd : ℕ) (ss ss' : List Stdio) (w w' : O.World) : Type 0 where
    pub forth :
        (i u : ℕ)
        → Wants fd ss i u
        → (u' : ℕ) × Wants fd ss' i u' × SameFile (doc.slot w u) (doc.slot w' u')
    pub back :
        (i u : ℕ)
        → Wants fd ss' i u
        → (i ≤ u) × (doc.slot w' u ≢ none) × (Wants fd ss i u ⊎ (doc.slot w u ≡ none))
    pub parents : (p : ℕ) → Parent ss' p → Parent ss p
    pub merged : Merged fd ss → Merged fd ss'
    pub same_length : length ss' ≡ length ss
    pub kept : (k : ℕ) → doc.slot w k ≢ none → doc.slot w' k ≡ doc.slot w k

  free_before :
      (w w1 : O.World) (k : ℕ)
      → (doc.slot w k ≢ none → doc.slot w1 k ≡ doc.slot w k)
      → doc.slot w1 k ≡ none
      → doc.slot w k ≡ none
  free_before w w1 k kept free = elim (Option-cases (doc.slot w k)) [
    | inl e ↦ e
    | inr (x, e) ↦ let was : doc.slot w1 k ≡ doc.slot w k = kept (λ q. absurd cc) in absurd cc
  ]

  Roomy-cons :
      (fd : ℕ) (s : Stdio) (o : Option ℕ) (ss ss' : List Stdio) (w w1 w' : O.World)
      → Shifted fd s.child_end o w w1
      → Roomy (fd + 1) ss ss' w1 w'
      → ((i u : ℕ) → Wants fd (s ∷ ss) i u → doc.slot w u ≢ none)
      → Roomy fd (s ∷ ss) (record s { child_end = o } ∷ ss') w w'
  Roomy-cons fd s o ss ss' w w1 w' a b used = record {
    forth = λ i u h. elim h [
      | inl (e, c) ↦
          let (u', q, m) = a.forth u c in
          let there = SameFile-filled (doc.slot w u) (doc.slot w1 u') m.same_file in
          (u', inl (e, q), rw (b.kept u' there) m.same_file)
      | inr t ↦
          let (u', q, f) = b.forth i u t in
          (
            u',
            inr q,
            subst (λ (x : Slot). SameFile x (doc.slot w' u')) (a.kept u (used i u (inr t))) f,
          )
    ];
    back = λ i u h. elim h [
      | inl (e, q) ↦
          let (v, c, m) = a.back u q in
          let above = m.above in
          let there = SameFile-filled (doc.slot w v) (doc.slot w1 u) m.same_file in
          (
            omega (arith, e, above),
            λ gone. there (sym (b.kept u there) ∙ gone),
            elim m.fresh [
              | inl same ↦ inl (inl (e, c ∙ ap (λ (x : ℕ). some x) (sym same)))
              | inr free ↦ inr free
            ],
          )
      | inr t ↦
          let (above, filled, own) = b.back i u t in
          (
            above,
            filled,
            elim own [ inl q ↦ inl (inr q) | inr free ↦ inr (free_before w w1 u (a.kept u) free) ],
          )
    ];
    parents = λ p h. elim h [ inl e ↦ inl e | inr t ↦ inr (b.parents p t) ];
    merged = λ h. elim h [ inl (e, c, m) ↦ inl (e, a.none_stays c, m) | inr t ↦ inr (b.merged t) ];
    same_length = ap suc b.same_length;
    kept = λ k filled. b.kept k (λ q. filled (sym (a.kept k filled) ∙ q)) ∙ a.kept k filled;
  }

  pub make_room-Roomy :
      (n fd : ℕ) (ss ss' : List Stdio) (w : O.World)
      → (make_room O n fd ss w).0 ≡ ok ss'
      → fd + length ss ≤ n
      → ((i u : ℕ) → Wants fd ss i u → doc.slot w u ≢ none)
      → Roomy fd ss ss' w (make_room O n fd ss w).1
  unfolding make_room
  make_room-Roomy n fd [] ss' w h le used =
      let same : [] ≡ ss' = cc in
      rw (← same) (record {
        forth = λ i u q. elim q [ ];
        back = λ i u q. elim q [ ];
        parents = λ p q. elim q [ ];
        merged = λ q. q;
        same_length = refl;
        kept = λ k q. refl;
      })
  make_room-Roomy n fd (s ∷ ss) ss' w h le used =
      elim (Option-cases (move_up O n fd s.child_end w).0) [
        | inl e ↦
            let ran : (make_room O n fd (s ∷ ss) w).0 ≡ throw died = rw (e, make_room) in absurd cc
        | inr (o, e) ↦
            let w1 = (move_up O n fd s.child_end w).1 in
            elim (Result-cases (make_room O n (fd + 1) ss w1).0) [
              | inr (x, q) ↦
                  let ran : (make_room O n fd (s ∷ ss) w).0 ≡ throw x = rw (e, q, make_room) in
                  absurd cc
              | inl (rest, q) ↦
                  let a =
                    move_up-Shifted n fd s.child_end o w e (omega arith)
                      (λ u c. used fd u (inl (refl, c))) in
                  let used' : (i u : ℕ) → Wants (fd + 1) ss i u → doc.slot w1 u ≢ none =
                    λ i u t g. used i u (inr t) (sym (a.kept u (used i u (inr t))) ∙ g) in
                  let b = make_room-Roomy n (fd + 1) ss rest w1 q (omega arith) used' in
                  let w' = (make_room O n (fd + 1) ss w1).1 in
                  let first = record s { child_end = o } in
                  let same : (first ∷ rest) ≡ ss' =
                    ok_inj (make_room O n fd (s ∷ ss) w).0 (first ∷ rest) ss' (rw (e, q, make_room))
                      h in
                  rw (e, make_room)
                    (subst (λ (x : List Stdio). Roomy fd (s ∷ ss) x w w') same
                      (Roomy-cons fd s o ss rest w w1 w' a b used))
            ]
      ]
