-- ===== src/Process/Exec/Whole.antt =====
-- The descriptors of `processx_exec` from its first system call on.
use processx.Base.{
  ◌≢◌, ℕ, suc, ◌+◌, ◌≤◌, ◌≡◌, refl, sym, ap, ◌∙◌, subst, Bool, true, false, Bool-cases, Option,
  Option-cases, none, some, some_inj, List, [], ◌∷◌, Result-cases, ok, inl, inr, length, ltb,
}
use processx.Process.Child.{Stdio, FdOs}
use processx.Process.Child.Table.{Documented}
use processx.Process.Child.Pipes.{Target, Sockets, make_pipe, make_pipes}
use processx.Process.Children.{child_add}
use processx.Process.Exec.{
  ExecOs, ExecState, Pty, main_fd, pty_name_len, pty_abandon, pty_named, pty_granted, pty_main_open,
  open_pty, exec_pipes, exec,
}
use processx.Process.Exec.Account.{
  FdSet, Is, ◌or◌, Ends, Free, Account, Account-refl, Account-widen, Account-Unchanged,
  Account-open, Account-touch, free_before, Account-shut,
}
use processx.Process.Exec.Pipes.{ExecLaws, make_pipes-Added, make_pipes-Taken}
use processx.Process.Exec.Frame.{OnlyCloses, fork_child-OnlyCloses}
use processx.Process.Exec.Outcome.{Ended, fork_child-Ended}

-- Against the world before: the terminal is open if there is one.
abbrev pub Opened : (O : FdOs) → Documented O → O.World → Option (ℕ × List ℕ) × O.World → Type 0
Opened O doc base (o, w) = Account O doc base w (Is (main_fd o)) × Free O doc base (Is (main_fd o))

module _ (O : FdOs) (doc : Documented O) (P : Sockets O) (E : ExecOs O)
    (laws : ExecLaws O doc P E) where
  abandon-Opened :
      (base w : O.World) (fd : ℕ)
      → doc.slot base fd ≡ none
      → Account O doc base w (Is (some fd))
      → Opened O doc base (pty_abandon O E fd w)
  abandon-Opened base w fd z a =
      (Account-shut O doc base w _ (Is none) fd z a (λ k ne x. ne x), λ k x. elim x [ ])

  pty_named-Opened :
      (base w : O.World) (fd : ℕ) (name : Option (List ℕ))
      → doc.slot base fd ≡ none
      → Account O doc base w (Is (some fd))
      → Opened O doc base (pty_named O E fd (name, w))
  unfolding pty_named
  pty_named-Opened base w fd none z a = abandon-Opened base w fd z a
  pty_named-Opened base w fd (some name) z a = elim (Bool-cases (ltb (length name) pty_name_len)) [
    | inl q ↦ rw q (a, λ k x. subst (λ j. doc.slot base j ≡ none) (sym x) z)
    | inr q ↦ rw q (abandon-Opened base w fd z a)
  ]

  pty_granted-Opened :
      (base w : O.World) (fd : ℕ)
      → doc.slot base fd ≡ none
      → Account O doc base w (Is (some fd))
      → Opened O doc base (pty_granted O E fd w)
  unfolding pty_granted
  pty_granted-Opened base w fd z a =
      let w1 = (E.grantpt fd w).1 in
      let w2 = (E.unlockpt fd w1).1 in
      let a1 = Account-Unchanged O doc base w w1 _ a (laws.grantpt_same fd w) in
      let a2 = Account-Unchanged O doc base w1 w2 _ a1 (laws.unlockpt_same fd w1) in
      let a3 = Account-Unchanged O doc base w2 (E.ptsname fd w2).1 _ a2 (laws.ptsname_same fd w2) in
      elim (Bool-cases (E.grantpt fd w).0) [
        | inl g ↦ elim (Bool-cases (E.unlockpt fd w1).0) [
          | inl u ↦
              rw (g, u, pty_granted)
                (pty_named-Opened base (E.ptsname fd w2).1 fd (E.ptsname fd w2).0 z a3)
          | inr u ↦ rw (g, u, pty_granted) (abandon-Opened base w2 fd z a2)
        ]
        | inr g ↦ rw (g, pty_granted) (abandon-Opened base w1 fd z a1)
      ]

  -- Processx__pty_main_open changes no descriptor but the one it returns, which was free; where it
  -- fails, at whichever call, every descriptor is as before.
  pub pty_main_open-Opened : (w : O.World) → Opened O doc w (pty_main_open O E w)
  unfolding pty_main_open
  pty_main_open-Opened w =
      let (a, free) = laws.openpt_opens w in
      let w1 = (E.openpt w).1 in
      elim (Option-cases (E.openpt w).0) [
        | inl q ↦
            rw (q, pty_main_open) (subst (λ o. Account O doc w w1 (Is o)) q a, λ k x. elim x [ ])
        | inr (fd, q) ↦
            rw (q, pty_main_open)
              (pty_granted-Opened w w1 fd (subst (λ o. Free O doc w (Is o)) q free fd refl)
                (subst (λ o. Account O doc w w1 (Is o)) q a))
      ]

  open_pty-Opened :
      (pty : Bool) (w : O.World) (p : Pty)
      → (open_pty O E pty w).0 ≡ some p
      → Opened O doc w (p, (open_pty O E pty w).1)
  unfolding open_pty
  open_pty-Opened false w p h =
      subst (λ q. Opened O doc w (q, w)) (some_inj h) (Account-refl O doc w _, λ k x. elim x [ ])
  open_pty-Opened true w p h = elim (Option-cases (pty_main_open O E w).0) [
    | inl q ↦ let ran = rw (q, open_pty) at h in absurd cc
    | inr (found, q) ↦
        let ran = rw (q, open_pty) at h in
        subst (λ o. Opened O doc w (o, (pty_main_open O E w).1)) (q ∙ some_inj ran)
          (pty_main_open-Opened w)
  ]

  length-make_pipes :
      (i : ℕ) (ts : List Target) (ss : List Stdio) (w : O.World)
      → (make_pipes O P i ts w).0 ≡ ok ss
      → length ss ≡ length ts
  unfolding make_pipes
  length-make_pipes i [] ss w h = let made : [] ≡ ss = cc in rw (← made) refl
  length-make_pipes i (t ∷ ts) ss w h = elim (Option-cases (make_pipe O P i t w).0) [
    | inl q ↦ let ran = rw (q, make_pipes) at h in absurd cc
    | inr (s, q) ↦
        let w1 = (make_pipe O P i t w).1 in
        elim (Result-cases (make_pipes O P (i + 1) ts w1).0) [
          | inr (e, r) ↦ let ran = rw (q, r, make_pipes) at h in absurd cc
          | inl (rest, r) ↦
              let ran = rw (q, r, make_pipes) at h in
              let made : s ∷ rest ≡ ss = cc in
              rw (← made) (ap suc (length-make_pipes (i + 1) ts rest w1 r))
        ]
  ]

  -- The flags of the two ends of the pipe for errors
  flagged :
      (base w : O.World) (sp0 sp1 : ℕ) (X : FdSet)
      → Free O doc base (Is (some sp0) or Is (some sp1))
      → X sp0
      → X sp1
      → Account O doc base w X
      → Account O doc base (O.cloexec_fcntl sp1 true (O.cloexec_fcntl sp0 true w)) X
  flagged base w sp0 sp1 X f x0 x1 a =
      let w1 = O.cloexec_fcntl sp0 true w in
      Account-touch O doc base w1 (O.cloexec_fcntl sp1 true w1) X
        (Account-touch O doc base w w1 X a sp0 x0 (f sp0 (inl refl))
          (laws.cloexec_other sp0 true w))
        sp1 x1 (f sp1 (inr refl)) (laws.cloexec_other sp1 true w1)

  exec_pipes-Ended :
      (base : O.World) (ref : ℕ) (targets : List Target) (p : Pty) (sp0 sp1 : ℕ)
      (pipes : List Stdio) (s : ExecState O)
      → 3 ≤ length targets
      → (make_pipes O P 0 targets s.world).0 ≡ ok pipes
      → Free O doc base (Is (some sp0) or Is (some sp1))
      → Free O doc base (Is (main_fd p))
      → Account O doc base s.world (Is (main_fd p) or (Is (some sp0) or Is (some sp1)))
      → (tty : Option ℕ) × (pid : ℕ) × Ended O doc base pipes sp0
          (main_fd p)
          tty
          pid
          (child_add pid ref s.lists)
          (exec_pipes O E P ref targets p (sp0, sp1) s)
        × OnlyCloses O doc P E laws
            (make_pipes O P 0 targets s.world).1
            pipes
            sp0
            sp1
            (main_fd p)
            (exec_pipes O E P ref targets p (sp0, sp1) s)
  unfolding exec_pipes
  exec_pipes-Ended base ref targets p sp0 sp1 pipes s n q free_sp free_main a =
      let w = (make_pipes O P 0 targets s.world).1 in
      let (added, free_ends) = make_pipes-Added O doc P E laws 0 targets pipes base s.world _ q a in
      let full : Account O doc base w
          (Is (some sp1) or (Is (some sp0) or (Ends pipes or Is (main_fd p)))) =
        Account-widen O doc base w w _ added _ (λ k x. elim x [
          | inl e ↦ inr (inr (inl e))
          | inr (inl m) ↦ inr (inr (inr m))
          | inr (inr (inl e)) ↦ inr (inl e)
          | inr (inr (inr e)) ↦ inl e
        ]) in
      let (tty, pid, ended) =
        fork_child-Ended O doc P E laws base pipes
          (subst (λ t. 3 ≤ t) (sym (length-make_pipes 0 targets pipes s.world q)) n) free_ends sp0
          sp1 (free_sp sp0 (inl refl)) (free_sp sp1 (inr refl)) ref p (record s { world = w })
          free_main full in
      (
        tty,
        pid,
        rw (q, exec_pipes) ended,
        rw (q, exec_pipes)
            (fork_child-OnlyCloses O doc P E laws ref p pipes sp0 sp1 (record s { world = w })),
      )

  -- When the pipes have been made, in the world `w`, their ends are open, and from then on only what
  -- the outcome closes is closed.
  abbrev pub Closing :
      ℕ → Bool → List Target → ExecState O → ℕ → ℕ → Pty → List Stdio → O.World → Type 0
  Closing ref pty targets s sp0 sp1 p pipes w =
      ((k : ℕ) → Ends pipes k → doc.slot w k ≢ none)
      × OnlyCloses O doc P E laws w pipes sp0 sp1 (main_fd p) (exec O E P ref pty targets s)

  -- If processx_exec has at least three connections and its first pipe, its terminal and its other
  -- pipes could be made, then it ends with SIGCHLD unblocked. No descriptor is open that was not
  -- before, but for these: after a success, when the process is in the list of children, and after an
  -- errno of the new process the parent's ends of the first three pipes, both ends of further ones, and
  -- the two ends of the terminal; if fork failed both ends of the pipes; if memory or the read failed
  -- all these, and the read end of the pipe for errors if the read failed. Every other descriptor is as
  -- before. When the pipes have been made both ends of each of them are open; from then on no
  -- descriptor that is open is closed but both ends of the pipe for errors and the child's ends of the
  -- first three pipes, less if memory or the read failed, and without the child's ends but with the
  -- terminal if fork failed.
  pub exec-Ended :
      (ref : ℕ) (pty : Bool) (targets : List Target) (s : ExecState O) (sp0 sp1 : ℕ) (p : Pty)
      (pipes : List Stdio)
      → 3 ≤ length targets
      → (E.pipe s.world).0 ≡ some (sp0, sp1)
      → let w1 = O.cloexec_fcntl sp1 true (O.cloexec_fcntl sp0 true (E.pipe s.world).1) in
        (open_pty O E pty w1).0 ≡ some p
        → (make_pipes O P 0 targets (open_pty O E pty w1).1).0 ≡ ok pipes
        → (tty : Option ℕ) × (pid : ℕ) × Ended O doc s.world pipes sp0
            (main_fd p)
            tty
            pid
            (child_add pid ref s.lists)
            (exec O E P ref pty targets s)
          × Closing ref pty targets s sp0 sp1 p pipes
              (make_pipes O P 0 targets (open_pty O E pty w1).1).1
  unfolding exec
  exec-Ended ref pty targets s sp0 sp1 p pipes n q o m =
      let w = (E.pipe s.world).1 in
      let w1 = O.cloexec_fcntl sp1 true (O.cloexec_fcntl sp0 true w) in
      let w2 = (open_pty O E pty w1).1 in
      let (opens, free_sp) = laws.pipe_opens s.world sp0 sp1 q in
      let at_pipe = flagged s.world w sp0 sp1 _ free_sp (inl refl) (inr refl) opens in
      let (opens_pty, free_pty) = open_pty-Opened pty w1 p o in
      let at_pty = Account-open O doc s.world w1 w2 _ at_pipe (Is (main_fd p)) opens_pty in
      let free_main = λ (k : ℕ) (x : Is (main_fd p) k).
        free_before O doc s.world w1 w1 _ at_pipe k (free_pty k x) in
      let (tty, pid, ended, closes) =
        exec_pipes-Ended s.world ref targets p sp0 sp1 pipes (record s { world = w2 }) n m free_sp
          free_main at_pty in
      (
        tty,
        pid,
        rw (q, o, exec) ended,
        (make_pipes-Taken O doc P E laws 0 targets pipes w2 m, rw (q, o, exec) closes),
      )
