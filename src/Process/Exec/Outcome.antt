-- ===== src/Process/Exec/Outcome.antt =====
-- What `processx_exec` leaves open once the pipes are made, for each way in which it ends.
use processx.Base.{
  ℕ, zero, suc, ◌≤◌, ◌≡◌, refl, true, false, Bool-cases, Option, Option-cases, none, some, List, [],
  ◌∷◌, Result, ok, throw, inl, inr, ◌==◌, length, arith,
}
use processx.Process.Child.{Stdio, FdOs}
use processx.Process.Child.Table.{Documented}
use processx.Process.Child.Pipes.{Sockets}
use processx.Process.Children.{Lists, child_add}
use processx.Process.Exec.{
  ErrnoRead, eof, errno, epipe, read_error, ExecError, pipe_failed, pty_failed, socketpair_failed,
  fork_failed, no_memory, child_failed, not_started, out_of_range, ExecOs, Started, ExecState, Pty,
  main_fd, shut, shut_if, main_nonblock, close_end, close_ends, conclude, read_outcome, await_start,
  handle_fds, open_child_tty, forked, fork_child,
}
use processx.Process.Exec.Account.{
  FdSet, Is, ◌or◌, Ends, Left, Unchanged, Free, Account, Account-widen, Account-Unchanged,
  Account-open, Account-shut, close_ends-Account,
}
use processx.Process.Exec.Pipes.{ExecLaws}

close_ends-some :
    (O : FdOs) (n : ℕ) (ss : List Stdio) (w : O.World)
    → n ≤ length ss
    → (w' : O.World) × (close_ends O n ss w ≡ some w')
unfolding close_ends
close_ends-some O zero ss w h = (w, refl)
close_ends-some O (suc n) [] w h = absurd (omega arith)
close_ends-some O (suc n) (s ∷ ss) w h =
    close_ends-some O n ss (close_end O s.child_end s.parent_end w) (omega arith)

module _ (O : FdOs) (doc : Documented O) (base : O.World) (pipes : List Stdio) (sp0 : ℕ) where
  -- Against the beginning: after a success the parent's ends of the first three pipes and the
  -- terminal; after an error more, by the error.
  abbrev pub Keeps :
      Option ℕ → Option ℕ → ℕ → Lists → Result ExecError Started → ExecState O → Type 0
  Keeps main tty pid lists (ok h) s =
      (h.pid ≡ pid)
      × (h.ptyfd ≡ main)
      × (h.pty_child_fd ≡ tty)
      × (s.lists ≡ lists)
      × Account O doc base s.world (Left 3 pipes or (Is main or Is tty))
  Keeps main tty pid lists (throw (not_started e)) s =
      Account O doc base s.world (Left 3 pipes or (Is main or Is tty))
  Keeps main tty pid lists (throw child_failed) s =
      Account O doc base s.world (Is (some sp0) or (Ends pipes or (Is main or Is tty)))
  Keeps main tty pid lists (throw no_memory) s =
      Account O doc base s.world (Ends pipes or (Is main or Is tty))
  Keeps main tty pid lists (throw fork_failed) s = Account O doc base s.world (Ends pipes)
  Keeps main tty pid lists (throw pipe_failed) s = ⊥
  Keeps main tty pid lists (throw pty_failed) s = ⊥
  Keeps main tty pid lists (throw socketpair_failed) s = ⊥
  Keeps main tty pid lists (throw out_of_range) s = ⊥

  -- SIGCHLD is not blocked, and this is left open.
  abbrev pub Ended :
      Option ℕ → Option ℕ → ℕ → Lists → Result ExecError Started × ExecState O → Type 0
  Ended main tty pid lists (r, s) = (s.blocked ≡ false) × Keeps main tty pid lists r s

module _ (O : FdOs) (doc : Documented O) (P : Sockets O) (E : ExecOs O) (laws : ExecLaws O doc P E)
    (base : O.World) (pipes : List Stdio) (enough : 3 ≤ length pipes)
    (free_ends : Free O doc base (Ends pipes)) (sp0 sp1 : ℕ) (free_sp0 : doc.slot base sp0 ≡ none)
    (free_sp1 : doc.slot base sp1 ≡ none) where
  module _ (h : Started) where
    abbrev Terminal : FdSet
    Terminal = Is h.ptyfd or Is h.pty_child_fd

    conclude-Ended :
        (e : ℕ) (s : ExecState O)
        → s.blocked ≡ false
        → Account O doc base s.world (Is (some sp0) or (Ends pipes or Terminal))
        → Ended O doc base pipes sp0 h.ptyfd h.pty_child_fd h.pid s.lists
            (conclude O E pipes sp0 h e s)
    unfolding conclude
    conclude-Ended e s b a =
        let closed =
          Account-shut O doc base s.world _ (Ends pipes or Terminal) sp0 free_sp0 a
            (λ k ne x. elim x [ inl q ↦ absurd (ne q) | inr y ↦ y ]) in
        let (w, q) = close_ends-some O 3 pipes (shut O sp0 s.world) enough in
        let left =
          close_ends-Account O doc 3 pipes base (shut O sp0 s.world) w Terminal free_ends closed
            q in
        elim (Bool-cases (e == 0)) [
          | inl z ↦ rw (q, z, conclude) (b, (refl, refl, refl, refl, left))
          | inr z ↦ rw (q, z, conclude) (b, left)
        ]

    read_outcome-Ended :
        (r : ErrnoRead) (s : ExecState O)
        → s.blocked ≡ false
        → Account O doc base s.world (Is (some sp0) or (Ends pipes or Terminal))
        → Ended O doc base pipes sp0 h.ptyfd h.pty_child_fd h.pid s.lists
            (read_outcome O E pipes sp0 h r s)
    unfolding read_outcome
    read_outcome-Ended eof s b a = conclude-Ended 0 s b a
    read_outcome-Ended (errno e) s b a =
        conclude-Ended e (record s { world = E.waitpid h.pid s.world }) b
          (Account-Unchanged O doc base s.world _ _ a (laws.waitpid_same h.pid s.world))
    read_outcome-Ended epipe s b a =
        conclude-Ended 0 (record s { world = E.waitpid h.pid s.world }) b
          (Account-Unchanged O doc base s.world _ _ a (laws.waitpid_same h.pid s.world))
    read_outcome-Ended read_error s b a = (b, a)

    await_start-Ended :
        (s : ExecState O)
        → Account O doc base s.world (Is (some sp1) or (Is (some sp0) or (Ends pipes or Terminal)))
        → Ended O doc base pipes sp0 h.ptyfd h.pty_child_fd h.pid s.lists
            (await_start O E pipes (sp0, sp1) h s)
    unfolding await_start
    await_start-Ended s a =
        let closed =
          Account-shut O doc base s.world _ (Is (some sp0) or (Ends pipes or Terminal)) sp1 free_sp1
            a (λ k ne x. elim x [ inl q ↦ absurd (ne q) | inr y ↦ y ]) in
        let w = shut O sp1 s.world in
        read_outcome-Ended (E.read sp0 w).0 (record s { blocked = false; world = (E.read sp0 w).1 })
          refl (Account-Unchanged O doc base w _ _ closed (laws.read_same sp0 w))

  -- The other end of the terminal
  tty_added :
      (pty : Pty) (w : O.World)
      → Account O doc w (open_child_tty O E pty w).1 (Is (open_child_tty O E pty w).0)
  tty_added none w = λ k. inl refl
  tty_added (some (fd, name)) w = (laws.tty_opens name w).0

  nonblock-Unchanged : (main : Option ℕ) (w : O.World) → Unchanged O doc w (main_nonblock O main w)
  nonblock-Unchanged none w k = refl
  nonblock-Unchanged (some fd) w k = doc.nonblock_same fd k true w

  forked-Ended :
      (ref : ℕ) (pty : Pty) (pid : ℕ) (s : ExecState O)
      → Account O doc base s.world
          (Is (some sp1) or (Is (some sp0) or (Ends pipes or Is (main_fd pty))))
      → (tty : Option ℕ) × Ended O doc base pipes sp0
          (main_fd pty)
          tty
          pid
          (child_add pid ref s.lists)
          (forked O E ref pty pipes (sp0, sp1) pid s)
  unfolding forked
  forked-Ended ref pty pid s a =
      let (tty, w1) = open_child_tty O E pty s.world in
      let main = main_fd pty in
      let w2 = main_nonblock O main w1 in
      let opened = Account-open O doc base s.world w1 _ a (Is tty) (tty_added pty s.world) in
      let quiet = Account-Unchanged O doc base w1 w2 _ opened (nonblock-Unchanged main w1) in
      let w3 = (E.calloc_ok w2).1 in
      let full : Account O doc base w3
          (Is (some sp1) or (Is (some sp0) or (Ends pipes or (Is main or Is tty)))) =
        Account-widen O doc base w3 w3 _
          (Account-Unchanged O doc base w2 w3 _ quiet (laws.calloc_same w2)) _
          (λ k x. elim x [
            | inl t ↦ inr (inr (inr (inr t)))
            | inr (inl e) ↦ inl e
            | inr (inr (inl e)) ↦ inr (inl e)
            | inr (inr (inr (inl e))) ↦ inr (inr (inl e))
            | inr (inr (inr (inr m))) ↦ inr (inr (inr (inl m)))
          ]) in
      let h : Started = record {
        pid = pid;
        ptyfd = main;
        pty_child_fd = tty;
        fds = handle_fds 3 pipes;
      } in
      (
        tty,
        elim (Bool-cases (E.calloc_ok w2).0) [
          | inl q ↦
              rw (q, forked)
                (await_start-Ended h (record s { lists = child_add pid ref s.lists; world = w3 })
                  full)
          | inr q ↦
              rw (q, forked)
                (
                  refl,
                  Account-shut O doc base (shut O sp0 w3) _ _ sp1 free_sp1
                      (Account-shut O doc base w3 _
                        (Is (some sp1) or (Ends pipes or (Is main or Is tty))) sp0 free_sp0 full
                        (λ k ne x. elim x [
                          | inl e ↦ inl e
                          | inr (inl e) ↦ absurd (ne e)
                          | inr (inr y) ↦ inr y
                        ]))
                      (λ k ne x. elim x [ inl e ↦ absurd (ne e) | inr y ↦ y ]),
                )
        ],
      )

  shut_if-Account :
      (main : Option ℕ) (w : O.World) (X : FdSet)
      → Free O doc base (Is main)
      → Account O doc base w (X or Is main)
      → Account O doc base (shut_if O main w) X
  shut_if-Account none w X f a =
      Account-widen O doc base w w _ a X (λ k x. elim x [ inl y ↦ y | inr n ↦ elim n [ ] ])
  shut_if-Account (some fd) w X f a =
      Account-shut O doc base w _ X fd (f fd refl) a
        (λ k ne x. elim x [ inl y ↦ y | inr e ↦ absurd (ne e) ])

  pub fork_child-Ended :
      (ref : ℕ) (pty : Pty) (s : ExecState O)
      → Free O doc base (Is (main_fd pty))
      → Account O doc base s.world
          (Is (some sp1) or (Is (some sp0) or (Ends pipes or Is (main_fd pty))))
      → (tty : Option ℕ) × (pid : ℕ) × Ended O doc base pipes sp0
          (main_fd pty)
          tty
          pid
          (child_add pid ref s.lists)
          (fork_child O E ref pty pipes (sp0, sp1) s)
  unfolding fork_child
  fork_child-Ended ref pty s f a =
      let w = (E.fork s.world).1 in
      let main = main_fd pty in
      let same = Account-Unchanged O doc base s.world w _ a (laws.fork_same s.world) in
      elim (Option-cases (E.fork s.world).0) [
        | inl q ↦ (
          none,
          0,
          rw (q, fork_child)
              (
                refl,
                shut_if-Account main (shut O sp1 (shut O sp0 w)) (Ends pipes) f (
                    Account-shut O doc base (shut O sp0 w) _ (Ends pipes or Is main) sp1 free_sp1
                      (Account-shut O doc base w _ (Is (some sp1) or (Ends pipes or Is main)) sp0
                        free_sp0 same
                        (λ k ne x. elim x [
                          | inl e ↦ inl e
                          | inr (inl e) ↦ absurd (ne e)
                          | inr (inr y) ↦ inr y
                        ]))
                      (λ k ne x. elim x [ inl e ↦ absurd (ne e) | inr y ↦ y ])),
              ),
        )
        | inr (pid, q) ↦
            let (tty, ended) =
              forked-Ended ref pty pid (record s { blocked = true; world = w }) same in
            (tty, pid, rw (q, fork_child) ended)
      ]
