-- ===== src/Process/Types.antt =====
-- `processx_handle_t`, the R object that owns it, and the system calls on processes.
use processx.Base.{ℕ, Bool, Option, Result, ℤ}

-- What `waitpid` returns: 0, a process that is gone with its status, or -1 with ECHILD or another
-- errno. A call that a signal interrupts is made again, so EINTR is no outcome.
pub data WaitStatus : Type 0 where
  exited : ℕ → WaitStatus
  signaled : ℕ → WaitStatus

pub data WaitOutcome : Type 0 where
  running : WaitOutcome
  reaped : WaitStatus → WaitOutcome
  no_child : WaitOutcome
  wait_error : WaitOutcome

-- What `kill` returns: 0, or -1 with ESRCH, EPERM or another errno.
pub data KillOutcome : Type 0 where
  sent esrch eperm kill_error : KillOutcome

-- A process, or (for a negative number) its process group.
pub data Target : Type 0 where
  process : ℕ → Target
  group : ℕ → Target

-- What `poll` returns: 0, a positive number, or -1 for another reason than a signal.
pub data PollOutcome : Type 0 where
  timed_out ready poll_error : PollOutcome

-- The handle. The exit code is `none` for NA; a file descriptor is `none` for -1; a time is in
-- nanoseconds, and `none` for NA.
pub record Handle : Type 0 where
  pub exitcode : Option ℤ
  pub collected : Bool
  pub pid : ℕ
  pub waitpipe_read : Option ℕ
  pub waitpipe_write : Option ℕ
  pub cleanup : Bool
  pub grace_ms : ℕ
  pub end_time : Option ℕ
  pub pty_child_fd : Option ℕ

pub data Fault : Type 0 where
  invalid_handle system_error interrupted no_fuel : Fault

-- The system calls. `poll` is `none` where a signal interrupts it (-1 with EINTR); it also says whether
-- the SIGCHLD handler ran while it waited, and what `waitpid` told the handler then; `pipe` is `none`
-- when it fails.
pub record Os : Type 1 where
  pub World : Type 0
  pub waitpid : Bool → ℕ → World → WaitOutcome × World
  pub kill : Target → ℕ → World → KillOutcome × World
  pub clock_gettime : World → Option ℕ × World
  pub close : ℕ → World → World
  pub pipe : World → Option (ℕ × ℕ) × World
  pub nonblock_fcntl : ℕ → Bool → World → World
  pub poll : ℕ → ℕ → World → (Option PollOutcome × Option WaitOutcome) × World
  pub user_interrupt : World → Bool × World

-- The external pointer of the R object (`none` once it is cleared), whether SIGCHLD is blocked,
-- and the outside world.
pub record State (O : Os) : Type 0 where
  pub handle : Option Handle
  pub blocked : Bool
  pub world : O.World

-- A function of the C code on a process: it returns or throws, and changes the state.
abbrev pub M : Os → Type 0 → Type 0
M O A = State O → Result Fault A × State O
