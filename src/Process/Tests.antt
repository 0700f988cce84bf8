-- ===== src/Process/Tests.antt =====
-- Runs of the process functions against a small operating system.
use processx.Base.{
  ℕ, ◌≡◌, ◌≢◌, refl, Bool, true, false, Option, none, some, List, [], ◌∷◌, ok, throw, pos, arith,
  if◌then◌else◌, ◌==◌,
}
use processx.Process.Types.{
  exited, WaitOutcome, running, reaped, no_child, sent, timed_out, Handle, interrupted, no_fuel, Os,
  State,
}
use processx.Process.Status.{get_exit_status, is_alive}
use processx.Process.Wait.{c_wait}
use processx.Process.Wait.Ends.{Signals, c_wait-Ended}
use processx.Process.Finished.{
  runs, state, Finished, is_alive-get_exit_status, get_exit_status-Finished,
}
use processx.Process.Children.{Child, Handles}
use processx.Process.Children.Sweep.{Sweep}

-- The world is one child process: it runs, is a zombie, or is reaped.
data Life : Type 0 where
  alive zombie over : Life

abbrev ask : Life → WaitOutcome × Life
ask alive = (running, alive)
ask zombie = (reaped (exited 3), over)
ask over = (no_child, over)

abbrev pipes : Bool → Life → Option (ℕ × ℕ) × Life
pipes true l = (some (7, 8), l)
pipes false l = (none, l)

-- `stop` is whether the user interrupts, `has_pipe` whether `pipe` succeeds.
abbrev os : Bool → Bool → Os
os stop has_pipe = record {
  World = Life;
  waitpid = λ nohang pid l. ask l;
  kill = λ target sig l. (sent, l);
  clock_gettime = λ l. (some 5, l);
  close = λ fd l. l;
  pipe = λ l. pipes has_pipe l;
  nonblock_fcntl = λ fd set l. l;
  poll = λ fd timeout l. ((some timed_out, none), l);
  user_interrupt = λ l. (stop, l);
}

abbrev child : Handle
child = record {
  exitcode = some (pos 0);
  collected = false;
  pid = 42;
  waitpipe_read = none;
  waitpipe_write = none;
  cleanup = true;
  grace_ms = 0;
  end_time = some 0;
  pty_child_fd = none;
}

abbrev calm : Os
calm = os false true

abbrev start : Life → State calm
start l = state calm (some child) false l

is_alive-get_exit_status_example :
    is_alive calm (start zombie)
    ≡ (runs (get_exit_status calm (start zombie)).0, (get_exit_status calm (start zombie)).1)
is_alive-get_exit_status_example = is_alive-get_exit_status calm (start zombie)

status_3 : (get_exit_status calm (start zombie)).0 ≡ ok (some (some (pos 3)))
unfolding get_exit_status
status_3 = refl

get_exit_status-Finished_example :
    Finished calm (some (pos 3)) (get_exit_status calm (start zombie)).1
get_exit_status-Finished_example =
    get_exit_status-Finished calm (start zombie) (some (pos 3)) status_3

abbrev no_signals : Signals calm
no_signals = record {
  left = λ w. 0;
  poll_interrupted = λ fd t w h. absurd cc;
  poll_no_more = λ fd t w. omega arith;
  clock_no_more = λ w. omega arith;
  close_no_more = λ fd w. omega arith;
  interrupt_no_more = λ w. omega arith;
  kill_no_more = λ t n w. omega arith;
  pipe_no_more = λ w. omega arith;
  fcntl_no_more = λ fd b w. omega arith;
}

c_wait-Ended_example : (c_wait calm 3 (some 500) (start alive)).0 ≢ throw no_fuel
c_wait-Ended_example = c_wait-Ended calm no_signals 3 500 (start alive) (omega arith) (omega arith)

abbrev interrupts : Os
interrupts = os true true

-- The interrupted wait leaves the closed descriptor on the handle.
interrupted_wait : c_wait interrupts 3 (some 500) (state interrupts (some child) false alive) ≡ (
  throw interrupted,
  state interrupts
      (some (record child { waitpipe_read = some 7; waitpipe_write = some 8 }))
      false
      alive,
)
unfolding c_wait
interrupted_wait = refl

abbrev handles : Handles
handles k = if k == 1 then some child else none

abbrev children : List Child
children = record { pid = 42; weak_status = 1 } ∷ record { pid = 43; weak_status = 2 } ∷ []
