-- ===== src/Process/Wait/Ends.antt =====
-- The loop of `c_processx_wait`: it ends, and what it leaves of the handle.
use processx.Base.{
  Option-cases, Result-cases, ◌<◌, ℕ, zero, suc, ◌-◌, ◌*◌, ◌≤◌, ◌≡◌, ◌≢◌, ◌∙◌, Bool, true, false,
  Option, none, some, Result, ok, throw, ◌⊎◌, inl, inr, arith, ltb, Bool-cases, ltb→lt,
}
use processx.Process.Types.{
  WaitStatus, WaitOutcome, running, reaped, no_child, wait_error, PollOutcome, timed_out, ready,
  poll_error, Target, process, Handle, Fault, no_fuel, Os, State,
}
use processx.Process.Status.{close_if, collect}
use processx.Process.Finished.{state, with_collected}
use processx.Process.Wait.{
  interrupt_interval, is_timed_out, was_sent, reap_handle, delivered, poll_pipe, last_poll,
  wait_loop, wait_end, wait_on, c_wait,
}

-- Only so many signals are still to come that interrupt a poll: each interrupted poll uses one up,
-- and no call brings new ones.
pub record Signals (O : Os) : Type 0 where
  pub left : O.World → ℕ
  pub poll_interrupted :
      (fd t : ℕ) (w : O.World) → (O.poll fd t w).0.0 ≡ none → left (O.poll fd t w).1 < left w
  pub poll_no_more : (fd t : ℕ) (w : O.World) → left (O.poll fd t w).1 ≤ left w
  pub clock_no_more : (w : O.World) → left (O.clock_gettime w).1 ≤ left w
  pub close_no_more : (fd : ℕ) (w : O.World) → left (O.close fd w) ≤ left w
  pub interrupt_no_more : (w : O.World) → left (O.user_interrupt w).1 ≤ left w
  pub kill_no_more : (t : Target) (n : ℕ) (w : O.World) → left (O.kill t n w).1 ≤ left w
  pub pipe_no_more : (w : O.World) → left (O.pipe w).1 ≤ left w
  pub fcntl_no_more : (fd : ℕ) (b : Bool) (w : O.World) → left (O.nonblock_fcntl fd b w) ≤ left w

module _ (O : Os) (sig : Signals O) where
  close_if-left : (o : Option ℕ) (w : O.World) → sig.left (close_if O o w) ≤ sig.left w
  close_if-left none w = omega arith
  close_if-left (some fd) w = sig.close_no_more fd w

  flag-left :
      (c : Bool) (st : Option WaitStatus) (h : Handle) (w : O.World)
      → sig.left (collect O st (record h { collected = c }) w).1 ≤ sig.left w
  unfolding collect
  flag-left true st h w = omega arith
  flag-left false st h w =
      omega (arith, close_if-left h.pty_child_fd (O.clock_gettime w).1, sig.clock_no_more w)

  reap_handle-left :
      (st : Option WaitStatus) (h : Handle) (w : O.World)
      → sig.left (reap_handle O st h w).1 ≤ sig.left w
  unfolding reap_handle
  reap_handle-left st h w =
      let (h', w') = collect O st h w in
      omega (arith, close_if-left h'.waitpipe_write w', flag-left h.collected st h w)

  delivered-left :
      (o : Option WaitOutcome) (h : Handle) (w : O.World)
      → sig.left (delivered O o h w).1 ≤ sig.left w
  unfolding delivered
  delivered-left (some (reaped st)) h w = reap_handle-left (some st) h w
  delivered-left (some no_child) h w = reap_handle-left none h w
  delivered-left (some running) h w = omega arith
  delivered-left (some wait_error) h w = omega arith
  delivered-left none h w = omega arith

  -- A result that is no lack of fuel, with no more signals to come
  abbrev Over : {A : Type 0} → O.World → Result Fault A × (Handle × O.World) → Type 0
  Over w (r, (h', w')) = (r ≢ throw no_fuel) × (sig.left w' ≤ sig.left w)

  poll_pipe-Over :
      (retries fd t : ℕ) (h : Handle) (w : O.World)
      → sig.left w < retries
      → Over w (poll_pipe O retries fd t h w)
  unfolding poll_pipe
  poll_pipe-Over zero fd t h w lt = elim lt [ ]
  poll_pipe-Over (suc retries) fd t h w lt =
      let (r, w') = O.poll fd t w in
      let (h1, w1) = delivered O r.1 h w' in
      let less = delivered-left r.1 h w' in
      elim (Option-cases r.0) [
        | inr (ret, e) ↦
            rw (e, poll_pipe) (λ x. absurd cc, omega (arith, less, sig.poll_no_more fd t w))
        | inl e ↦
            let fewer = sig.poll_interrupted fd t w e in
            let (ne, le) = poll_pipe-Over retries fd t h1 w1 (omega (arith, less, fewer)) in
            rw (e, poll_pipe) (ne, omega (arith, less, fewer, le))
      ]

  last_poll-Ended :
      (retries fd : ℕ) (t : Option ℕ) (h : Handle) (w : O.World)
      → sig.left w < retries
      → (last_poll O retries fd t h w).0 ≢ throw no_fuel
  unfolding last_poll
  last_poll-Ended retries fd none h w lt = λ e. absurd cc
  last_poll-Ended retries fd (some t) h w lt = (poll_pipe-Over retries fd t h w lt).0

  -- The loop with a timeout of `n` milliseconds ends within n / 200 rounds.
  wait_loop-Ended :
      (fuel retries fd n : ℕ) (h : Handle) (w : O.World)
      → n ≤ interrupt_interval * fuel
      → sig.left w < retries
      → (wait_loop O fuel retries fd (some n) h w).0 ≢ throw no_fuel
  unfolding wait_loop
  wait_loop-Ended zero retries fd n h w le lt = elim (Bool-cases (ltb interrupt_interval n)) [
    | inl more ↦ absurd (omega (arith, ltb→lt interrupt_interval n more))
    | inr over ↦ rw over (last_poll-Ended retries fd (some n) h w lt)
  ]
  wait_loop-Ended (suc fuel) retries fd n h w le lt = elim (Bool-cases (ltb interrupt_interval n)) [
    | inr over ↦ rw over (last_poll-Ended retries fd (some n) h w lt)
    | inl more ↦
        let (r, (h', w')) = poll_pipe O retries fd interrupt_interval h w in
        let (stop, w1) = O.user_interrupt w' in
        let (k, w2) = O.kill (process h.pid) 0 w1 in
        let (ne, less) = poll_pipe-Over retries fd interrupt_interval h w lt in
        let fewer = sig.interrupt_no_more w' in
        let ih =
          wait_loop-Ended fuel retries fd (n - interrupt_interval) h' w2 (omega arith)
            (omega (arith, less, fewer, sig.kill_no_more (process h.pid) 0 w1)) in
        rw more (elim (Result-cases r) [
          | inr (e, q) ↦ rw q (λ x. ne (q ∙ x))
          | inl (ret, q) ↦ rw q (elim (Bool-cases (is_timed_out ret)) [
            | inr out ↦ rw out (λ e. absurd cc)
            | inl again ↦ rw again (elim (Bool-cases stop) [
              | inl s ↦ rw s (λ e. absurd cc)
              | inr s ↦ rw s (elim (Bool-cases (was_sent k)) [
                | inl there ↦ rw there ih
                | inr gone ↦ rw gone (λ e. absurd cc)
              ])
            ])
          ])
        ])
  ]

  wait_end-Ended :
      (fds : ℕ × ℕ) (r : Result Fault PollOutcome) (h : Handle) (w : O.World) (s : State O)
      → r ≢ throw no_fuel
      → (wait_end O fds (r, (h, w)) s).0 ≢ throw no_fuel
  unfolding wait_end
  wait_end-Ended fds (throw e) h w s ne = λ x. absurd (ne cc)
  wait_end-Ended fds (ok poll_error) h w s ne = λ x. absurd cc
  wait_end-Ended fds (ok timed_out) h w s ne = λ x. absurd cc
  wait_end-Ended fds (ok ready) h w s ne = λ x. absurd cc

  wait_on-Ended :
      (fuel n : ℕ) (h : Handle) (fds : Option (ℕ × ℕ)) (w : O.World) (s : State O)
      → n ≤ interrupt_interval * fuel
      → sig.left w < fuel
      → (wait_on O fuel (some n) h fds w s).0 ≢ throw no_fuel
  unfolding wait_on
  wait_on-Ended fuel n h none w s le lt = λ x. absurd cc
  wait_on-Ended fuel n h (some fds) w s le lt =
      let w1 = O.nonblock_fcntl fds.0 true w in
      wait_end-Ended fds _ _ _ s (
        wait_loop-Ended fuel fuel fds.0 n _ _ le
          (omega (arith, sig.fcntl_no_more fds.0 true w, sig.fcntl_no_more fds.1 true w1)))

  live-Ended :
      (c : Bool) (fuel n : ℕ) (h : Handle) (b : Bool) (w : O.World)
      → n ≤ interrupt_interval * fuel
      → sig.left w < fuel
      → (c_wait O fuel (some n) (state O (with_collected O c h) b w)).0 ≢ throw no_fuel
  unfolding c_wait
  live-Ended true fuel n h b w le lt = λ x. absurd cc
  live-Ended false fuel n h b w le lt =
      let h' = record h { collected = false } in
      let (fds, w') = O.pipe w in
      wait_on-Ended fuel n h' fds w' (state O (some h') b w) le (omega (arith, sig.pipe_no_more w))

  any-Ended :
      (o : Option Handle) (fuel n : ℕ) (b : Bool) (w : O.World)
      → n ≤ interrupt_interval * fuel
      → sig.left w < fuel
      → (c_wait O fuel (some n) (state O o b w)).0 ≢ throw no_fuel
  unfolding c_wait
  any-Ended none fuel n b w le lt = λ x. absurd cc
  any-Ended (some h) fuel n b w le lt = live-Ended h.collected fuel n h b w le lt

  -- If only so many signals are still to come as `Signals` counts, `c_processx_wait` with a timeout of
  -- `n` milliseconds ends: with fuel of more than these signals, and of `n / 200`, rounded up, it is
  -- not out of fuel, neither in its loop nor in those that call `poll` again after a signal, whatever
  -- `poll`, `kill` and the SIGCHLD handler do.
  pub c_wait-Ended :
      (fuel n : ℕ) (s : State O)
      → n ≤ interrupt_interval * fuel
      → sig.left s.world < fuel
      → (c_wait O fuel (some n) s).0 ≢ throw no_fuel
  c_wait-Ended fuel n s le lt = any-Ended s.handle fuel n s.blocked s.world le lt

module _ (O : Os) where
  -- What the loop leaves of the handle `h`: the pid, the read end, and the write end of the wait pipe, unless
  -- the SIGCHLD handler closed it, in which case the status was collected.
  pub record Left (h h' : Handle) : Type 0 where
    pub same_pid : h'.pid ≡ h.pid
    pub same_read : h'.waitpipe_read ≡ h.waitpipe_read
    pub pipe_kept :
        ((h'.waitpipe_write ≡ h.waitpipe_write) × (h'.collected ≡ h.collected))
        ⊎ ((h'.waitpipe_write ≡ none) × (h'.collected ≡ true))

  -- The handle has the pipe, less the write end if the SIGCHLD handler closed it.
  abbrev pub Open : ℕ × ℕ → Handle → Type 0
  Open fds h =
      (h.waitpipe_read ≡ some fds.0)
      × ((h.waitpipe_write ≡ some fds.1) ⊎ ((h.waitpipe_write ≡ none) × (h.collected ≡ true)))

  -- What a wait with the pipe `fds` leaves: a call that returns takes both ends of the pipe off the
  -- handle and keeps the mask `b`; one that throws leaves the read end on the handle, and the write
  -- end too, unless the SIGCHLD handler closed it.
  abbrev pub Waited : ℕ × ℕ → Bool → Result Fault Bool → State O → Type 0
  Waited fds b (ok r) s =
      (s.blocked ≡ b)
      × ((h : Handle) × (s.handle ≡ some h) × (h.waitpipe_read ≡ none) × (h.waitpipe_write ≡ none))
  Waited fds b (throw e) s = (h : Handle) × (s.handle ≡ some h) × Open fds h
