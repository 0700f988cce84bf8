-- ===== src/Process/Exec/Pipes.antt =====
-- What is relied on of the system calls of `processx_exec`, and the pipes that it makes.
use processx.Base.{
  sym, ◌∙◌, none, ℕ, ◌+◌, ◌≡◌, ◌≢◌, refl, subst, Bool, true, Bool-cases, ◌&&◌, Option-cases, none,
  some, some_inj, List, [], ◌∷◌, Result-cases, ok, inl, inr, ◌==◌, length,
}
use processx.Process.Child.{Stdio, FdOs, is_merged}
use processx.Process.Child.Table.{Documented}
use processx.Process.Child.Pipes.{
  Target, ignored, text, connection, is_bar, Sockets, no_pipe, make_pipe, make_pipes,
}
use processx.Process.Exec.{ExecOs}
use processx.Process.Exec.Account.{
  FdSet, Is, ◌or◌, PipeEnds, Ends, Unchanged, Free, Account, Account-refl, Account-widen,
  Account-Unchanged, Account-open, free_before,
}

-- A call that opens takes free descriptors and changes no other; the other calls change none, and
-- setting a flag changes one.
pub record ExecLaws (O : FdOs) (doc : Documented O) (P : Sockets O) (E : ExecOs O) : Type 0 where
  pub pipe_opens :
      (w : O.World) (a b : ℕ)
      → (E.pipe w).0 ≡ some (a, b)
      → Account O doc w (E.pipe w).1 (Is (some a) or Is (some b))
        × Free O doc w (Is (some a) or Is (some b))
  pub pair_opens :
      (w : O.World) (a b : ℕ)
      → (P.make_socketpair w).0 ≡ some (a, b)
      → Account O doc w (P.make_socketpair w).1 (Is (some a) or Is (some b))
        × Free O doc w (Is (some a) or Is (some b))
  pub pair_taken :
      (w : O.World) (a b : ℕ)
      → (P.make_socketpair w).0 ≡ some (a, b)
      → (k : ℕ) → (Is (some a) or Is (some b)) k
      → doc.slot (P.make_socketpair w).1 k ≢ none
  pub openpt_opens :
      (w : O.World)
      → Account O doc w (E.openpt w).1 (Is (E.openpt w).0) × Free O doc w (Is (E.openpt w).0)
  pub tty_opens :
      (name : List ℕ) (w : O.World)
      → Account O doc w (E.open_tty name w).1 (Is (E.open_tty name w).0)
        × Free O doc w (Is (E.open_tty name w).0)
  pub cloexec_other :
      (fd : ℕ) (b : Bool) (w : O.World) (k : ℕ)
      → k ≢ fd
      → doc.slot (O.cloexec_fcntl fd b w) k ≡ doc.slot w k
  pub grantpt_same : (fd : ℕ) (w : O.World) → Unchanged O doc w (E.grantpt fd w).1
  pub unlockpt_same : (fd : ℕ) (w : O.World) → Unchanged O doc w (E.unlockpt fd w).1
  pub ptsname_same : (fd : ℕ) (w : O.World) → Unchanged O doc w (E.ptsname fd w).1
  pub fork_same : (w : O.World) → Unchanged O doc w (E.fork w).1
  pub calloc_same : (w : O.World) → Unchanged O doc w (E.calloc_ok w).1
  pub read_same : (fd : ℕ) (w : O.World) → Unchanged O doc w (E.read fd w).1
  pub waitpid_same : (pid : ℕ) (w : O.World) → Unchanged O doc w (E.waitpid pid w)

module _ (O : FdOs) (doc : Documented O) (P : Sockets O) (E : ExecOs O)
    (laws : ExecLaws O doc P E) where
  -- What one connection adds, and that it was free in the beginning
  abbrev Added : O.World → O.World → FdSet → FdSet → Type 0
  Added base w X Y = Account O doc base w (Y or X) × Free O doc base Y

  Added-nothing :
      (base w : O.World) (X : FdSet) (s : Stdio)
      → s.parent_end ≡ none
      → Account O doc base w X
      → Added base w X (PipeEnds s.parent_end s.child_end)
  Added-nothing base w X s h a = (
    Account-widen O doc base w w X a _ (λ k x. inr x),
    λ k x. absurd (subst (λ o. PipeEnds o s.child_end k) h x),
  )

  Added-pair :
      (base w : O.World) (X : FdSet) (a b : ℕ)
      → (P.make_socketpair w).0 ≡ some (a, b)
      → Account O doc base w X
      → Added base (O.nonblock_fcntl a true (P.make_socketpair w).1) X (PipeEnds (some a) (some b))
  Added-pair base w X a b q acc =
      let (opens, free) = laws.pair_opens w a b q in
      (
        Account-Unchanged O doc base (P.make_socketpair w).1 _ _
            (Account-open O doc base w (P.make_socketpair w).1 X acc (Is (some a) or Is (some b))
              opens)
            (λ k. doc.nonblock_same a k true (P.make_socketpair w).1),
        λ k x. free_before O doc base w w X acc k (free k x),
      )

  make_pipe-Added :
      (i : ℕ) (t : Target) (s : Stdio) (base w : O.World) (X : FdSet)
      → (make_pipe O P i t w).0 ≡ some s
      → Account O doc base w X
      → Added base (make_pipe O P i t w).1 X (PipeEnds s.parent_end s.child_end)
  unfolding make_pipe
  make_pipe-Added i ignored s base w X h a =
      Added-nothing base w X s (subst (λ (x : Stdio). x.parent_end ≡ none) (some_inj h) refl) a
  make_pipe-Added i (connection fd) s base w X h a =
      Added-nothing base w X s (subst (λ (x : Stdio). x.parent_end ≡ none) (some_inj h) refl) a
  make_pipe-Added i (text t) s base w X h a = elim (Bool-cases (is_bar t)) [
    | inl bar ↦ elim (Option-cases (P.make_socketpair w).0) [
      | inl q ↦ let ran = rw (bar, q, make_pipe) at h in absurd cc
      | inr ((p, c), q) ↦
          let made = some_inj (rw (bar, q, make_pipe) at h) in
          rw (bar, q, ← made, make_pipe) (Added-pair base w X p c q a)
    ]
    | inr bar ↦ elim (Bool-cases (i == 2 && is_merged (some t))) [
      | inl m ↦
          let made = some_inj (rw (bar, m, make_pipe) at h) in
          rw (bar, m, ← made, make_pipe) (Added-nothing base w X (no_pipe (some t)) refl a)
      | inr m ↦ elim (Bool-cases (length t == 0)) [
        | inl z ↦
            let made = some_inj (rw (bar, m, z, make_pipe) at h) in
            rw (bar, m, z, ← made, make_pipe)
              (Added-nothing base w X
                (record { parent_end = none; child_end = some i; output = some t }) refl a)
        | inr z ↦
            let made = some_inj (rw (bar, m, z, make_pipe) at h) in
            rw (bar, m, z, ← made, make_pipe) (Added-nothing base w X (no_pipe (some t)) refl a)
      ]
    ]
  ]

  pub make_pipes-Added :
      (i : ℕ) (ts : List Target) (ss : List Stdio) (base w : O.World) (X : FdSet)
      → (make_pipes O P i ts w).0 ≡ ok ss
      → Account O doc base w X
      → Account O doc base (make_pipes O P i ts w).1 (Ends ss or X) × Free O doc base (Ends ss)
  unfolding make_pipes
  make_pipes-Added i [] ss base w X h a =
      let made : [] ≡ ss = cc in
      subst (λ xs. Account O doc base w (Ends xs or X) × Free O doc base (Ends xs)) made
        (Account-widen O doc base w w X a _ (λ k x. inr x), λ k x. elim x [ ])
  make_pipes-Added i (t ∷ ts) ss base w X h a = elim (Option-cases (make_pipe O P i t w).0) [
    | inl q ↦ let ran = rw (q, make_pipes) at h in absurd cc
    | inr (s, q) ↦
        let w1 = (make_pipe O P i t w).1 in
        elim (Result-cases (make_pipes O P (i + 1) ts w1).0) [
          | inr (e, r) ↦ let ran = rw (q, r, make_pipes) at h in absurd cc
          | inl (rest, r) ↦
              let ran = rw (q, r, make_pipes) at h in
              let made : s ∷ rest ≡ ss = cc in
              let (one, free_one) = make_pipe-Added i t s base w X q a in
              let (all, free_all) = make_pipes-Added (i + 1) ts rest base w1 _ r one in
              rw (q, ← made, make_pipes)
                (
                  Account-widen O doc base _ w _ all _ (λ k x. elim x [
                    | inl e ↦ inl (inr e)
                    | inr (inl e) ↦ inl (inl e)
                    | inr (inr y) ↦ inr y
                  ]),
                  λ k x. elim x [ inl e ↦ free_one k e | inr e ↦ free_all k e ],
                )
        ]
  ]

  Taken-nothing :
      (w : O.World) (s : Stdio)
      → s.parent_end ≡ none
      → (k : ℕ) → PipeEnds s.parent_end s.child_end k
      → doc.slot w k ≢ none
  Taken-nothing w s h k x = absurd (subst (λ o. PipeEnds o s.child_end k) h x)

  -- Both ends of a pipe that was made are open.
  make_pipe-Taken :
      (i : ℕ) (t : Target) (s : Stdio) (w : O.World)
      → (make_pipe O P i t w).0 ≡ some s
      → (k : ℕ) → PipeEnds s.parent_end s.child_end k
      → doc.slot (make_pipe O P i t w).1 k ≢ none
  unfolding make_pipe
  make_pipe-Taken i ignored s w h =
      Taken-nothing w s (subst (λ (x : Stdio). x.parent_end ≡ none) (some_inj h) refl)
  make_pipe-Taken i (connection fd) s w h =
      Taken-nothing w s (subst (λ (x : Stdio). x.parent_end ≡ none) (some_inj h) refl)
  make_pipe-Taken i (text t) s w h = elim (Bool-cases (is_bar t)) [
    | inl bar ↦ elim (Option-cases (P.make_socketpair w).0) [
      | inl q ↦ let ran = rw (bar, q, make_pipe) at h in absurd cc
      | inr ((p, c), q) ↦
          let made = some_inj (rw (bar, q, make_pipe) at h) in
          rw (bar, q, ← made, make_pipe)
            (λ k x z.
              laws.pair_taken w p c q k x
                (sym (doc.nonblock_same p k true (P.make_socketpair w).1) ∙ z))
    ]
    | inr bar ↦ elim (Bool-cases (i == 2 && is_merged (some t))) [
      | inl m ↦
          let made = some_inj (rw (bar, m, make_pipe) at h) in
          Taken-nothing _ s (subst (λ (x : Stdio). x.parent_end ≡ none) made refl)
      | inr m ↦ elim (Bool-cases (length t == 0)) [
        | inl z ↦
            let made = some_inj (rw (bar, m, z, make_pipe) at h) in
            Taken-nothing _ s (subst (λ (x : Stdio). x.parent_end ≡ none) made refl)
        | inr z ↦
            let made = some_inj (rw (bar, m, z, make_pipe) at h) in
            Taken-nothing _ s (subst (λ (x : Stdio). x.parent_end ≡ none) made refl)
      ]
    ]
  ]

  still_open :
      (w w' : O.World) (X : FdSet) (k : ℕ)
      → Account O doc w w' X
      → doc.slot w k ≢ none
      → doc.slot w' k ≢ none
  still_open w w' X k a used z = elim (a k) [
    | inl same ↦ used (sym same ∙ z)
    | inr (_, free) ↦ used free
  ]

  pub make_pipes-Taken :
      (i : ℕ) (ts : List Target) (ss : List Stdio) (w : O.World)
      → (make_pipes O P i ts w).0 ≡ ok ss
      → (k : ℕ) → Ends ss k
      → doc.slot (make_pipes O P i ts w).1 k ≢ none
  unfolding make_pipes
  make_pipes-Taken i [] ss w h =
      let made : [] ≡ ss = cc in λ k x. absurd (subst (λ l. Ends l k) (sym made) x)
  make_pipes-Taken i (t ∷ ts) ss w h = elim (Option-cases (make_pipe O P i t w).0) [
    | inl q ↦ let ran = rw (q, make_pipes) at h in absurd cc
    | inr (s, q) ↦
        let w1 = (make_pipe O P i t w).1 in
        elim (Result-cases (make_pipes O P (i + 1) ts w1).0) [
          | inr (e, r) ↦ let ran = rw (q, r, make_pipes) at h in absurd cc
          | inl (rest, r) ↦
              let ran = rw (q, r, make_pipes) at h in
              let made : s ∷ rest ≡ ss = cc in
              let (all, _) =
                make_pipes-Added (i + 1) ts rest w1 w1 (Is none) r
                  (Account-refl O doc w1 (Is none)) in
              rw (q, ← made, make_pipes)
                (λ k x. elim x [
                  | inl one ↦
                      still_open w1 (make_pipes O P (i + 1) ts w1).1 _ k all
                        (make_pipe-Taken i t s w q k one)
                  | inr y ↦ make_pipes-Taken (i + 1) ts rest w1 r k y
                ])
        ]
  ]
