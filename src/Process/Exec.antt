-- ===== src/Process/Exec.antt =====
-- `processx_exec` of src/unix/processx.c in the parent: the pipe for the errors of the new process,
-- the terminal, `fork`, and what it waits for. The new process runs `processx__child_init`, which
-- Child is about. That the handle is allocated, and the creation time of the process, are left out.
pub mod Account
pub mod Pipes
pub mod Frame
pub mod Outcome
pub mod Whole
mod Tests
use processx.Base.{
  ℕ, zero, suc, Bool, true, false, Option, none, some, List, [], ◌∷◌, Result, ok, throw, ltb, ◌==◌,
  if◌then◌else◌, length,
}
use processx.Process.Child.{Stdio, FdOs}
use processx.Process.Child.Pipes.{Target, PipeError, Sockets, make_pipes}
use processx.Process.Children.{Child, Lists, child_add}

-- What `read` gives from the pipe for errors: nothing, a whole errno, -1 with EPIPE, or else. A call
-- that a signal interrupts is made again.
pub data ErrnoRead : Type 0 where
  eof : ErrnoRead
  errno : ℕ → ErrnoRead
  epipe : ErrnoRead
  read_error : ErrnoRead

-- `not_started` has the errno of the new process, `out_of_range` is a read behind the end of `pipes`.
pub data ExecError : Type 0 where
  pipe_failed pty_failed socketpair_failed fork_failed no_memory child_failed : ExecError
  not_started : ℕ → ExecError
  out_of_range : ExecError

-- The other system calls; `none` and `false` stand for -1, and `fork` gives the parent's result.
-- `calloc_ok` says whether there is memory for a node of the list of children.
pub record ExecOs (O : FdOs) : Type 0 where
  pub pipe : O.World → Option (ℕ × ℕ) × O.World
  pub openpt : O.World → Option ℕ × O.World
  pub grantpt : ℕ → O.World → Bool × O.World
  pub unlockpt : ℕ → O.World → Bool × O.World
  pub ptsname : ℕ → O.World → Option (List ℕ) × O.World
  pub open_tty : List ℕ → O.World → Option ℕ × O.World
  pub fork : O.World → Option ℕ × O.World
  pub calloc_ok : O.World → Bool × O.World
  pub read : ℕ → O.World → ErrnoRead × O.World
  pub waitpid : ℕ → O.World → O.World

-- What the handle holds in the end; `none` is -1.
pub record Started : Type 0 where
  pub pid : ℕ
  pub ptyfd : Option ℕ
  pub pty_child_fd : Option ℕ
  pub fds : List (Option ℕ)

-- Whether SIGCHLD is blocked, the lists of children, and the world
pub record ExecState (O : FdOs) : Type 0 where
  pub blocked : Bool
  pub lists : Lists
  pub world : O.World

-- The terminal: the main descriptor and the name of the other
abbrev pub Pty : Type 0
Pty = Option (ℕ × List ℕ)

abbrev pub main_fd : Pty → Option ℕ
main_fd none = none
main_fd (some (fd, name)) = some fd

-- R_PROCESSX_PTY_NAME_LEN
abbrev pub pty_name_len : ℕ
pty_name_len = 2014

module _ (O : FdOs) where
  abbrev pub shut : ℕ → O.World → O.World
  shut fd w = (O.close fd w).1

  abbrev pub shut_if : Option ℕ → O.World → O.World
  shut_if none w = w
  shut_if (some fd) w = shut fd w

  abbrev pub main_nonblock : Option ℕ → O.World → O.World
  main_nonblock none w = w
  main_nonblock (some fd) w = O.nonblock_fcntl fd true w

  -- The child's end of a pipe; an inherited descriptor has no parent's end.
  abbrev pub close_end : Option ℕ → Option ℕ → O.World → O.World
  close_end none parent w = w
  close_end (some child) none w = w
  close_end (some child) (some parent) w = shut child w

  -- The loop over `pipes`, for `n` of them; `none` if there are fewer.
  unfoldable pub close_ends : ℕ → List Stdio → O.World → Option O.World
  close_ends zero ss w = some w
  close_ends (suc n) [] w = none
  close_ends (suc n) (s ∷ ss) w = close_ends n ss (close_end s.child_end s.parent_end w)

-- `handle->fd0`, `fd1` and `fd2`: the parent's ends of the first three
abbrev pub handle_fds : ℕ → List Stdio → List (Option ℕ)
handle_fds zero ss = []
handle_fds (suc n) [] = []
handle_fds (suc n) (s ∷ ss) = s.parent_end ∷ handle_fds n ss

module _ (O : FdOs) (E : ExecOs O) where
  -- An error after the terminal is open
  abbrev pub pty_abandon : ℕ → O.World → Option (ℕ × List ℕ) × O.World
  pty_abandon fd w = (none, shut O fd w)

  unfoldable pub pty_named : ℕ → Option (List ℕ) × O.World → Option (ℕ × List ℕ) × O.World
  pty_named fd (none, w) = pty_abandon fd w
  pty_named fd (some name, w) =
      if ltb (length name) pty_name_len then (some (fd, name), w) else pty_abandon fd w

  unfoldable pub pty_granted : ℕ → O.World → Option (ℕ × List ℕ) × O.World
  unfolding pty_named
  pty_granted fd w =
      let (granted, w1) = E.grantpt fd w in
      let (unlocked, w2) = E.unlockpt fd w1 in
      let named = pty_named fd (E.ptsname fd w2) in
      if granted then if unlocked then named else pty_abandon fd w2 else pty_abandon fd w1

  -- `processx__pty_main_open`
  unfoldable pub pty_main_open : O.World → Option (ℕ × List ℕ) × O.World
  unfolding pty_granted
  pty_main_open w =
      let (fd, w1) = E.openpt w in elim fd [ none ↦ (none, w1) | some main ↦ pty_granted main w1 ]

  -- From the end of the read on: the child's ends are closed, and the connections made.
  unfoldable pub conclude :
      List Stdio → ℕ → Started → ℕ → ExecState O → Result ExecError Started × ExecState O
  unfolding close_ends
  conclude pipes sp0 h exec_errorno s = elim (close_ends O 3 pipes (shut O sp0 s.world)) [
    | none ↦ (throw out_of_range, record s { world = shut O sp0 s.world })
    | some w ↦ (
      if exec_errorno == 0 then ok h else throw (not_started exec_errorno),
      record s { world = w },
    )
  ]

  -- What `read` gave
  unfoldable pub read_outcome :
      List Stdio → ℕ → Started → ErrnoRead → ExecState O → Result ExecError Started × ExecState O
  unfolding conclude
  read_outcome pipes sp0 h eof s = conclude pipes sp0 h 0 s
  read_outcome pipes sp0 h (errno e) s =
      conclude pipes sp0 h e (record s { world = E.waitpid h.pid s.world })
  read_outcome pipes sp0 h epipe s =
      conclude pipes sp0 h 0 (record s { world = E.waitpid h.pid s.world })
  read_outcome pipes sp0 h read_error s = (throw child_failed, s)

  -- The new process is in the list of children.
  unfoldable pub await_start :
      List Stdio → ℕ × ℕ → Started → ExecState O → Result ExecError Started × ExecState O
  unfolding read_outcome
  await_start pipes (sp0, sp1) h s =
      let (r, w) = E.read sp0 (shut O sp1 s.world) in
      read_outcome pipes sp0 h r (record s { blocked = false; world = w })

  abbrev pub open_child_tty : Pty → O.World → Option ℕ × O.World
  open_child_tty none w = (none, w)
  open_child_tty (some (fd, name)) w = E.open_tty name w

  -- `fork` gave a pid: `ref` is the R object of the handle.
  unfoldable pub forked :
      ℕ → Pty → List Stdio → ℕ × ℕ → ℕ → ExecState O → Result ExecError Started × ExecState O
  unfolding await_start child_add
  forked ref pty pipes (sp0, sp1) pid s =
      let (tty, w1) = open_child_tty pty s.world in
      let (memory, w2) = E.calloc_ok (main_nonblock O (main_fd pty) w1) in
      let h : Started = record {
        pid = pid;
        ptyfd = main_fd pty;
        pty_child_fd = tty;
        fds = handle_fds 3 pipes;
      } in
      if memory
      then await_start pipes (sp0, sp1) h
          (record s { lists = child_add pid ref s.lists; world = w2 })
      else (throw no_memory, record s { blocked = false; world = shut O sp1 (shut O sp0 w2) })

  -- From `processx__block_sigchld` on
  unfoldable pub fork_child :
      ℕ → Pty → List Stdio → ℕ × ℕ → ExecState O → Result ExecError Started × ExecState O
  unfolding forked
  fork_child ref pty pipes (sp0, sp1) s =
      let (pid, w) = E.fork s.world in
      elim pid [
        | none ↦ (
          throw fork_failed,
          record s { blocked = false; world = shut_if O (main_fd pty) (shut O sp1 (shut O sp0 w)) },
        )
        | some p ↦ forked ref pty pipes (sp0, sp1) p (record s { blocked = true; world = w })
      ]

  -- The pipes, with the terminal open
  unfoldable pub exec_pipes :
      Sockets O
      → ℕ
      → List Target
      → Pty
      → ℕ × ℕ
      → ExecState O
      → Result ExecError Started × ExecState O
  unfolding fork_child make_pipes
  exec_pipes P ref targets pty sp s =
      let (made, w) = make_pipes O P 0 targets s.world in
      elim made [
        | throw e ↦ (throw socketpair_failed, record s { world = w })
        | ok pipes ↦ fork_child ref pty pipes sp (record s { world = w })
      ]

  -- The terminal, if there is to be one
  unfoldable pub open_pty : Bool → O.World → Option Pty × O.World
  unfolding pty_main_open
  open_pty false w = (some none, w)
  open_pty true w =
      let (opened, w') = pty_main_open w in
      (elim opened [ none ↦ none | some p ↦ some (some p) ], w')

  -- `processx_exec`, `pty` if there is to be a terminal
  unfoldable pub exec :
      Sockets O → ℕ → Bool → List Target → ExecState O → Result ExecError Started × ExecState O
  unfolding exec_pipes open_pty
  exec P ref pty targets s =
      let (sp, w) = E.pipe s.world in
      elim sp [
        | none ↦ (throw pipe_failed, record s { world = w })
        | some (sp0, sp1) ↦
            let (opened, w') =
              open_pty pty (O.cloexec_fcntl sp1 true (O.cloexec_fcntl sp0 true w)) in
            elim opened [
              | none ↦ (throw pty_failed, record s { world = w' })
              | some p ↦ exec_pipes P ref targets p (sp0, sp1) (record s { world = w' })
            ]
      ]
