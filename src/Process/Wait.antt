-- ===== src/Process/Wait.antt =====
-- `c_processx_wait`: waiting for a process, on a pipe that the SIGCHLD handler closes.
pub mod Ends
use processx.Base.{
  ℕ, zero, suc, ◌-◌, Bool, true, false, Option, none, some, Result, ok, throw, ltb, leb,
  if◌then◌else◌,
}
use processx.Process.Types.{
  WaitStatus, WaitOutcome, running, reaped, no_child, wait_error, KillOutcome, sent, PollOutcome,
  timed_out, ready, poll_error, process, Handle, Fault, system_error, interrupted, no_fuel, Os,
  State, M,
}
use processx.Process.Status.{collect, block, unblock, close_if}

-- `PROCESSX_INTERRUPT_INTERVAL`, in milliseconds
abbrev pub interrupt_interval : ℕ
interrupt_interval = 200

-- What the waiting comes to: an error, `ret == 0` or another `ret`.
abbrev pub is_timed_out : PollOutcome → Bool
is_timed_out timed_out = true
is_timed_out _ = false

-- The wait is over in both cases of `kill(pid, 0)` but this one.
abbrev pub was_sent : KillOutcome → Bool
was_sent sent = true
was_sent _ = false

module _ (O : Os) where
  -- The part of `processx__sigchld_callback` for one handle that was waited for: the status is
  -- collected, and the write end of the wait pipe closed.
  unfoldable pub reap_handle : Option WaitStatus → Handle → O.World → Handle × O.World
  unfolding collect
  reap_handle wstat h w =
      let (h', w') = collect O wstat h w in
      (record h' { waitpipe_write = none }, close_if O h'.waitpipe_write w')

  -- The SIGCHLD handler during a `poll`, as far as it is about this handle.
  unfoldable pub delivered : Option WaitOutcome → Handle → O.World → Handle × O.World
  unfolding reap_handle
  delivered (some (reaped st)) h w = reap_handle (some st) h w
  delivered (some no_child) h w = reap_handle none h w
  delivered _ h w = (h, w)

  -- `poll` on the read end `fd` of the wait pipe, and once more with the whole timeout for as long as a
  -- signal interrupts it, so many times at most. The SIGCHLD handler may run each time.
  unfoldable pub poll_pipe :
      ℕ → ℕ → ℕ → Handle → O.World → Result Fault PollOutcome × (Handle × O.World)
  unfolding delivered
  poll_pipe zero fd timeout h w = (throw no_fuel, (h, w))
  poll_pipe (suc retries) fd timeout h w =
      let (r, w') = O.poll fd timeout w in
      let (h1, w1) = delivered r.1 h w' in
      let again = poll_pipe retries fd timeout h1 w1 in
      elim r.0 [ none ↦ again | some ret ↦ (ok ret, (h1, w1)) ]

  -- The last poll: what is left of the timeout. `none` is a negative timeout, for which
  -- `timeleft` is negative too.
  unfoldable pub last_poll :
      ℕ → ℕ → Option ℕ → Handle → O.World → Result Fault PollOutcome × (Handle × O.World)
  unfolding poll_pipe
  last_poll retries fd none h w = (ok timed_out, (h, w))
  last_poll retries fd (some timeleft) h w = poll_pipe retries fd timeleft h w

  abbrev pub goes_on : Option ℕ → Bool
  goes_on none = true
  goes_on (some timeleft) = ltb interrupt_interval timeleft

  abbrev pub less_interval : Option ℕ → Option ℕ
  less_interval none = none
  less_interval (some timeleft) = some (timeleft - interrupt_interval)

  -- The `while` loop and the poll after it. A timeout of `n` takes no more than `n` rounds; a
  -- negative one is not bounded.
  unfoldable pub wait_loop :
      ℕ → ℕ → ℕ → Option ℕ → Handle → O.World → Result Fault PollOutcome × (Handle × O.World)
  unfolding last_poll
  wait_loop zero retries fd timeleft h w =
      if goes_on timeleft then (throw no_fuel, (h, w)) else last_poll retries fd timeleft h w
  wait_loop (suc fuel) retries fd timeleft h w =
      let (r, (h', w')) = poll_pipe retries fd interrupt_interval h w in
      let (stop, w1) = O.user_interrupt w' in
      let (k, w2) = O.kill (process h.pid) 0 w1 in
      let again = wait_loop fuel retries fd (less_interval timeleft) h' w2 in
      if goes_on timeleft
      then elim r [
        | throw e ↦ (throw e, (h', w'))
        | ok ret ↦
            if is_timed_out ret
            then (if stop
                then (throw interrupted, (h', w1))
                else if was_sent k
                then again
                else (ok ready, (h', w2)))
            else (ok ret, (h', w'))
      ]
      else last_poll retries fd timeleft h w

  -- `processx__wait_cleanup`, the exit handler, on the two ends as they were opened
  abbrev pub wait_cleanup : ℕ × ℕ → O.World → O.World
  wait_cleanup fds w = O.close fds.1 (O.close fds.0 w)

  -- The end: the handle loses the pipe unless an error left the function before, and the signal
  -- mask goes back to the one of the caller, unless an error left it unblocked.
  unfoldable pub wait_end : ℕ × ℕ → Result Fault PollOutcome × (Handle × O.World) → M O Bool
  wait_end fds (throw e, (h, w)) s =
      (throw e, record s { handle = some h; blocked = false; world = wait_cleanup fds w })
  wait_end fds (ok poll_error, (h, w)) s = (
    throw system_error,
    record s { handle = some h; blocked = false; world = wait_cleanup fds w },
  )
  wait_end fds (ok timed_out, (h, w)) s = (
    ok false,
    record s {
      handle = some (record h { waitpipe_read = none; waitpipe_write = none });
      world = wait_cleanup fds w;
    },
  )
  wait_end fds (ok ready, (h, w)) s = (
    ok true,
    record s {
      handle = some (record h { waitpipe_read = none; waitpipe_write = none });
      world = wait_cleanup fds w;
    },
  )

  -- The wait on the pipe that was opened.
  unfoldable pub wait_on : ℕ → Option ℕ → Handle → Option (ℕ × ℕ) → O.World → M O Bool
  unfolding wait_loop wait_end
  wait_on fuel timeout h none w s = (throw system_error, record s { world = w })
  wait_on fuel timeout h (some fds) w s =
      let w1 = O.nonblock_fcntl fds.1 true (O.nonblock_fcntl fds.0 true w) in
      let h1 = record h { waitpipe_read = some fds.0; waitpipe_write = some fds.1 } in
      wait_end fds (wait_loop fuel fuel fds.0 timeout h1 w1) s

  -- `c_processx_wait`; `none` is a negative timeout. `fuel` bounds the rounds of the loop, and in each
  -- of them those of the inner one. `processx__setup_sigchld` is left out.
  unfoldable pub c_wait : ℕ → Option ℕ → M O Bool
  unfolding wait_on
  c_wait fuel timeout s = elim s.handle [
    | none ↦ (ok true, s)
    | some h ↦
        let (fds, w') = O.pipe s.world in
        if h.collected then (ok true, s) else wait_on fuel timeout h fds w' s
  ]
