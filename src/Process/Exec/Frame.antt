-- ===== src/Process/Exec/Frame.antt =====
-- What `processx_exec` closes once the pipes are made: nothing that is open but what is named here.
use processx.Base.{
  ℕ, zero, suc, ◌≡◌, ◌≢◌, refl, sym, ◌∙◌, true, false, Bool-cases, Option, Option-cases, none, some,
  some_inj, subst, List, [], ◌∷◌, ◌⊎◌, Result, throw, inl, inr, ◌==◌,
}
use processx.Process.Child.{Stdio, FdOs}
use processx.Process.Child.Table.{Documented}
use processx.Process.Child.Pipes.{Sockets}
use processx.Process.Children.{child_add}
use processx.Process.Exec.{
  ErrnoRead, eof, errno, epipe, read_error, ExecError, child_failed, no_memory, fork_failed, ExecOs,
  Started, ExecState, Pty, main_fd, shut, shut_if, main_nonblock, close_end, close_ends, conclude,
  read_outcome, await_start, handle_fds, open_child_tty, forked, fork_child,
}
use processx.Process.Exec.Account.{FdSet, Is, ◌or◌, Unchanged}
use processx.Process.Exec.Pipes.{ExecLaws}

-- The child's end of a pipe, which the parent closes; an inherited descriptor has no parent's end.
abbrev pub ChildEnd : Stdio → FdSet
ChildEnd s k = (s.child_end ≡ some k) × (s.parent_end ≢ none)

abbrev pub ChildEnds : ℕ → List Stdio → FdSet
ChildEnds zero ss k = ⊥
ChildEnds (suc n) [] k = ⊥
ChildEnds (suc n) (s ∷ ss) k = ChildEnd s k ⊎ ChildEnds n ss k

-- Both ends of the pipe for errors and the child's ends of the first three pipes; less after an error
-- of the read or for want of memory, and if fork failed the terminal.
abbrev pub Closes : List Stdio → ℕ → ℕ → Option ℕ → Result ExecError Started → FdSet
Closes pipes sp0 sp1 main (throw child_failed) = Is (some sp1)
Closes pipes sp0 sp1 main (throw no_memory) = Is (some sp0) or Is (some sp1)
Closes pipes sp0 sp1 main (throw fork_failed) = Is (some sp0) or (Is (some sp1) or Is main)
Closes pipes sp0 sp1 main _ = Is (some sp1) or (Is (some sp0) or ChildEnds 3 pipes)

module _ (O : FdOs) (doc : Documented O) where
  -- Every open descriptor that is not in the set is as before.
  abbrev pub Frame : O.World → O.World → FdSet → Type 0
  Frame w w' X = (k : ℕ) → doc.slot w k ≢ none → (X k → ⊥) → doc.slot w' k ≡ doc.slot w k

  Frame-widen : (w w' : O.World) (X Y : FdSet) → Frame w w' X → ((k : ℕ) → X k → Y k) → Frame w w' Y
  Frame-widen w w' X Y f g k used not = f k used (λ x. not (g k x))

  Frame-trans :
      (w w1 w2 : O.World) (X Y : FdSet) → Frame w w1 X → Frame w1 w2 Y → Frame w w2 (X or Y)
  Frame-trans w w1 w2 X Y f g k used not =
      let first = f k used (λ x. not (inl x)) in
      g k (λ q. used (sym first ∙ q)) (λ y. not (inr y)) ∙ first

  Frame-Unchanged :
      (w w1 w2 : O.World) (X : FdSet) → Frame w w1 X → Unchanged O doc w1 w2 → Frame w w2 X
  Frame-Unchanged w w1 w2 X f h k used not = h k ∙ f k used not

  shut-Frame : (fd : ℕ) (w : O.World) → Frame w (shut O fd w) (Is (some fd))
  shut-Frame fd w k used not = (doc.close_all fd w).1 k not

  shut_if-Frame : (main : Option ℕ) (w : O.World) → Frame w (shut_if O main w) (Is main)
  shut_if-Frame none w k used not = refl
  shut_if-Frame (some fd) w k used not = shut-Frame fd w k used not

  close_end-Frame :
      (child parent : Option ℕ) (output : Option (List ℕ)) (w : O.World)
      → Frame w
          (close_end O child parent w)
          (ChildEnd (record { parent_end = parent; child_end = child; output = output }))
  close_end-Frame none parent output w k used not = refl
  close_end-Frame (some c) none output w k used not = refl
  close_end-Frame (some c) (some p) output w k used not =
      shut-Frame c w k used (λ q. not (rw q refl, λ e. absurd cc))

  close_ends-Frame :
      (n : ℕ) (ss : List Stdio) (w w' : O.World)
      → close_ends O n ss w ≡ some w'
      → Frame w w' (ChildEnds n ss)
  unfolding close_ends
  close_ends-Frame zero ss w w' h k used not =
      subst (λ v. doc.slot v k ≡ doc.slot w k) (some_inj h) refl
  close_ends-Frame (suc n) [] w w' h k used not = absurd cc
  close_ends-Frame (suc n) (s ∷ ss) w w' h k used not =
      let w1 = close_end O s.child_end s.parent_end w in
      Frame-trans w w1 w' (ChildEnd s) (ChildEnds n ss)
        (close_end-Frame s.child_end s.parent_end s.output w) (close_ends-Frame n ss w1 w' h) k used
        not

module _ (O : FdOs) (doc : Documented O) (P : Sockets O) (E : ExecOs O) (laws : ExecLaws O doc P E)
    (base : O.World) (pipes : List Stdio) (sp0 sp1 : ℕ) (main : Option ℕ) where
  -- Against the world `base`, nothing has been closed but what an outcome closes.
  abbrev pub OnlyCloses : Result ExecError Started × ExecState O → Type 0
  OnlyCloses (r, s) = Frame O doc base s.world (Closes pipes sp0 sp1 main r)

  conclude-OnlyCloses :
      (h : Started) (e : ℕ) (s : ExecState O)
      → Frame O doc base s.world (Is (some sp1))
      → OnlyCloses (conclude O E pipes sp0 h e s)
  unfolding conclude
  conclude-OnlyCloses h e s f =
      let w0 = shut O sp0 s.world in
      let closed = Frame-trans O doc base s.world w0 _ _ f (shut-Frame O doc sp0 s.world) in
      elim (Option-cases (close_ends O 3 pipes w0)) [
        | inl q ↦
            rw (q, conclude)
              (Frame-widen O doc base w0 _ _ closed
                (λ k x. elim x [ inl y ↦ inl y | inr y ↦ inr (inl y) ]))
        | inr (w, q) ↦
            let all =
              Frame-widen O doc base w _ (Is (some sp1) or (Is (some sp0) or ChildEnds 3 pipes))
                (Frame-trans O doc base w0 w _ _ closed (close_ends-Frame O doc 3 pipes w0 w q))
                (λ k x. elim x [
                  | inl (inl y) ↦ inl y
                  | inl (inr y) ↦ inr (inl y)
                  | inr y ↦ inr (inr y)
                ]) in
            elim (Bool-cases (e == 0)) [
              | inl z ↦ rw (q, z, conclude) all
              | inr z ↦ rw (q, z, conclude) all
            ]
      ]

  read_outcome-OnlyCloses :
      (h : Started) (r : ErrnoRead) (s : ExecState O)
      → Frame O doc base s.world (Is (some sp1))
      → OnlyCloses (read_outcome O E pipes sp0 h r s)
  unfolding read_outcome
  read_outcome-OnlyCloses h eof s f = conclude-OnlyCloses h 0 s f
  read_outcome-OnlyCloses h (errno e) s f =
      conclude-OnlyCloses h e (record s { world = E.waitpid h.pid s.world })
        (Frame-Unchanged O doc base s.world _ _ f (laws.waitpid_same h.pid s.world))
  read_outcome-OnlyCloses h epipe s f =
      conclude-OnlyCloses h 0 (record s { world = E.waitpid h.pid s.world })
        (Frame-Unchanged O doc base s.world _ _ f (laws.waitpid_same h.pid s.world))
  read_outcome-OnlyCloses h read_error s f = f

  await_start-OnlyCloses :
      (h : Started) (s : ExecState O)
      → Frame O doc base s.world (Is none)
      → OnlyCloses (await_start O E pipes (sp0, sp1) h s)
  unfolding await_start
  await_start-OnlyCloses h s f =
      let w = shut O sp1 s.world in
      let (r, w') = E.read sp0 w in
      let closed =
        Frame-widen O doc base w _ (Is (some sp1))
          (Frame-trans O doc base s.world w _ _ f (shut-Frame O doc sp1 s.world))
          (λ k x. elim x [ inl y ↦ elim y [ ] | inr y ↦ y ]) in
      read_outcome-OnlyCloses h r (record s { blocked = false; world = w' })
        (Frame-Unchanged O doc base w w' _ closed (laws.read_same sp0 w))

  tty-Frame : (pty : Pty) (w : O.World) → Frame O doc w (open_child_tty O E pty w).1 (Is none)
  tty-Frame none w k used not = refl
  tty-Frame (some (fd, name)) w k used not = elim ((laws.tty_opens name w).0 k) [
    | inl same ↦ same
    | inr (_, free) ↦ absurd (used free)
  ]

  nonblock-same : (o : Option ℕ) (w : O.World) → Unchanged O doc w (main_nonblock O o w)
  nonblock-same none w k = refl
  nonblock-same (some fd) w k = doc.nonblock_same fd k true w

  forked-OnlyCloses :
      (ref : ℕ) (pty : Pty) (pid : ℕ) (s : ExecState O)
      → Frame O doc base s.world (Is none)
      → OnlyCloses (forked O E ref pty pipes (sp0, sp1) pid s)
  unfolding forked
  forked-OnlyCloses ref pty pid s f =
      let (tty, w1) = open_child_tty O E pty s.world in
      let w2 = main_nonblock O (main_fd pty) w1 in
      let w3 = (E.calloc_ok w2).1 in
      let opened =
        Frame-widen O doc base w1 _ (Is none)
          (Frame-trans O doc base s.world w1 _ _ f (tty-Frame pty s.world))
          (λ k x. elim x [ inl y ↦ y | inr y ↦ y ]) in
      let kept =
        Frame-Unchanged O doc base w2 w3 _
          (Frame-Unchanged O doc base w1 w2 _ opened (nonblock-same (main_fd pty) w1))
          (laws.calloc_same w2) in
      let h : Started = record {
        pid = pid;
        ptyfd = main_fd pty;
        pty_child_fd = tty;
        fds = handle_fds 3 pipes;
      } in
      elim (Bool-cases (E.calloc_ok w2).0) [
        | inl q ↦
            rw (q, forked)
              (await_start-OnlyCloses h (record s { lists = child_add pid ref s.lists; world = w3 })
                kept)
        | inr q ↦ rw (q, forked) (both_shut w3 (Is none) kept (λ k x. elim x [ ]))
      ]
    where
      both_shut :
          (w : O.World) (X : FdSet)
          → Frame O doc base w X
          → ((k : ℕ) → X k → ⊥)
          → Frame O doc base (shut O sp1 (shut O sp0 w)) (Is (some sp0) or Is (some sp1))
      both_shut w X f none_in =
          let w1 = shut O sp0 w in
          Frame-widen O doc base (shut O sp1 w1) _ _
            (Frame-trans O doc base w1 (shut O sp1 w1) _ _
              (Frame-trans O doc base w w1 _ _ f (shut-Frame O doc sp0 w))
              (shut-Frame O doc sp1 w1))
            (λ k x. elim x [
              | inl (inl y) ↦ absurd (none_in k y)
              | inl (inr y) ↦ inl y
              | inr y ↦ inr y
            ])

module _ (O : FdOs) (doc : Documented O) (P : Sockets O) (E : ExecOs O)
    (laws : ExecLaws O doc P E) where
  -- From `fork` on
  pub fork_child-OnlyCloses :
      (ref : ℕ) (pty : Pty) (pipes : List Stdio) (sp0 sp1 : ℕ) (s : ExecState O)
      → OnlyCloses O doc P E laws s.world pipes sp0 sp1
          (main_fd pty)
          (fork_child O E ref pty pipes (sp0, sp1) s)
  unfolding fork_child
  fork_child-OnlyCloses ref pty pipes sp0 sp1 s =
      let w = (E.fork s.world).1 in
      let main = main_fd pty in
      let w0 = shut O sp0 w in
      let w1 = shut O sp1 w0 in
      let same : Frame O doc s.world w (Is none) = λ k used not. laws.fork_same s.world k in
      elim (Option-cases (E.fork s.world).0) [
        | inl q ↦
            rw (q, fork_child)
              (Frame-widen O doc s.world (shut_if O main w1) _ _
                (Frame-trans O doc s.world w1 (shut_if O main w1) _ _
                  (Frame-trans O doc s.world w0 w1 _ _
                    (Frame-trans O doc s.world w w0 _ _ same (shut-Frame O doc sp0 w))
                    (shut-Frame O doc sp1 w0))
                  (shut_if-Frame O doc main w1))
                (λ k x. elim x [
                  | inl (inl (inl y)) ↦ elim y [ ]
                  | inl (inl (inr y)) ↦ inl y
                  | inl (inr y) ↦ inr (inl y)
                  | inr y ↦ inr (inr y)
                ]))
        | inr (pid, q) ↦
            rw (q, fork_child)
              (forked-OnlyCloses O doc P E laws s.world pipes sp0 sp1 main ref pty pid
                (record s { blocked = true; world = w }) same)
      ]
