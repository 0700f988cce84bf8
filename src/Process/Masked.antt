-- ===== src/Process/Masked.antt =====
-- The signal mask: which calls leave SIGCHLD unblocked, so that the handler can run.
use processx.Base.{ℕ, suc, ◌≡◌, refl, Bool, true, false, Option, none, some, ok, throw, arith, ◌==◌}
use processx.Process.Types.{
  WaitStatus, group, WaitOutcome, running, reaped, no_child, wait_error, KillOutcome, sent, esrch,
  eperm, kill_error, Handle, system_error, Os, State,
}
use processx.Process.Status.{exit_code, collect, status_after, get_exit_status}
use processx.Process.Signal.{signal_wait, signal_after, signal}
use processx.Process.Wait.{c_wait, wait_on}
use processx.Process.Kill.{
  c_kill, kill_after, kill_running, kill_with, after_grace, after_term, sigterm,
}
use processx.Process.Finished.{state, with_collected}

module _ (O : Os) where
  status_after-unblocked :
      (o : WaitOutcome) (h : Handle) (w : O.World) (s : State O)
      → (status_after O o h w s).1.blocked ≡ false
  unfolding status_after
  status_after-unblocked running h w s = refl
  status_after-unblocked (reaped st) h w s = refl
  status_after-unblocked no_child h w s = refl
  status_after-unblocked wait_error h w s = refl

  live-unblocked :
      (c : Bool) (h : Handle) (b : Bool) (w : O.World)
      → (get_exit_status O (state O (with_collected O c h) b w)).1.blocked ≡ false
  unfolding get_exit_status
  live-unblocked true h b w = refl
  live-unblocked false h b w =
      let h' = record h { collected = false } in
      status_after-unblocked (O.waitpid true h.pid w).0 h' (O.waitpid true h.pid w).1
        (state O (some h') true w)

  any-unblocked :
      (o : Option Handle) (b : Bool) (w : O.World)
      → (get_exit_status O (state O o b w)).1.blocked ≡ false
  unfolding get_exit_status
  any-unblocked none b w = refl
  any-unblocked (some h) b w = live-unblocked h.collected h b w

  -- `processx_get_exit_status` leaves SIGCHLD unblocked, also where it throws.
  pub get_exit_status-unblocked : (s : State O) → (get_exit_status O s).1.blocked ≡ false
  get_exit_status-unblocked s = any-unblocked s.handle s.blocked s.world

  signal_wait-unblocked :
      (r : Bool) (o : WaitOutcome) (h : Handle) (w : O.World) (s : State O)
      → (signal_wait O r o h w s).1.blocked ≡ false
  unfolding signal_wait
  signal_wait-unblocked r running h w s = refl
  signal_wait-unblocked r (reaped st) h w s = refl
  signal_wait-unblocked r no_child h w s = refl
  signal_wait-unblocked r wait_error h w s = refl

  signal_after-unblocked :
      (k : KillOutcome) (h : Handle) (w : O.World) (s : State O)
      → (signal_after O k h w s).1.blocked ≡ false
  unfolding signal_after
  signal_after-unblocked sent h w s =
      let (o, w') = O.waitpid true h.pid w in signal_wait-unblocked true o h w' s
  signal_after-unblocked esrch h w s =
      let (o, w') = O.waitpid true h.pid w in signal_wait-unblocked false o h w' s
  signal_after-unblocked eperm h w s =
      let (o, w') = O.waitpid true h.pid w in signal_wait-unblocked false o h w' s
  signal_after-unblocked kill_error h w s = refl

  live_signal-unblocked :
      (c : Bool) (sig : ℕ) (g : Bool) (h : Handle) (b : Bool) (w : O.World)
      → (signal O sig g (state O (with_collected O c h) b w)).1.blocked ≡ false
  unfolding signal
  live_signal-unblocked true sig g h b w = refl
  live_signal-unblocked false sig g h b w = signal_after-unblocked _ _ _ _

  any_signal-unblocked :
      (o : Option Handle) (sig : ℕ) (g : Bool) (b : Bool) (w : O.World)
      → (signal O sig g (state O o b w)).1.blocked ≡ false
  unfolding signal
  any_signal-unblocked none sig g b w = refl
  any_signal-unblocked (some h) sig g b w = live_signal-unblocked h.collected sig g h b w

  -- `processx_signal` leaves SIGCHLD unblocked, also where it throws.
  pub signal-unblocked : (sig : ℕ) (g : Bool) (s : State O) → (signal O sig g s).1.blocked ≡ false
  signal-unblocked sig g s = any_signal-unblocked s.handle sig g s.blocked s.world

  -- A wait whose `pipe` fails throws, with the mask that its caller had.
  no_pipe :
      (fuel : ℕ) (timeout : Option ℕ) (h : Handle) (b : Bool) (w w' : O.World)
      → O.pipe w ≡ (none, w')
      → c_wait O fuel timeout (state O (with_collected O false h) b w)
        ≡ (throw system_error, state O (with_collected O false h) b w')
  unfolding c_wait wait_on
  no_pipe fuel timeout h b w w' e = rw e

  term_sent :
      (h : Handle) (s : State O) (w' : O.World)
      → O.kill (group h.pid) sigterm s.world ≡ (sent, w')
      → kill_with O sigterm h s ≡ (none, record s { world = w' })
  unfolding kill_with
  term_sent h s w' e = rw (kill_with, e, e)

  running_no_pipe :
      (fuel grace_ms : ℕ) (h : Handle) (w w2 w3 : O.World)
      → O.kill (group h.pid) sigterm w ≡ (sent, w2)
      → O.pipe w2 ≡ (none, w3)
      → let h' = record h { collected = false } in
        kill_running O fuel (suc grace_ms) h' (state O (some h') true w)
        ≡ (throw system_error, state O (some h') true w3)
  unfolding kill_running after_term after_grace
  running_no_pipe fuel grace_ms h w w2 w3 e2 e3 =
      let h' = record h { collected = false } in
      let s = state O (some h') true w in
      let t = term_sent h' s w2 e2 in
      let p = no_pipe fuel (some (suc grace_ms)) h true w2 w3 e3 in
      let z : (suc grace_ms == 0) ≡ false = ground arith in rw (z, t, after_term, p)

  -- `c_processx_kill` can leave SIGCHLD blocked: a running process gets SIGTERM in its grace
  -- time, and then `pipe` fails in `c_processx_wait`, which puts back the mask of its caller and
  -- throws past the end of `c_processx_kill`.
  pub c_kill-stays_blocked :
      (fuel grace_ms : ℕ) (h : Handle) (b : Bool) (w w1 w2 w3 : O.World)
      → h.collected ≡ false
      → O.waitpid true h.pid w ≡ (running, w1)
      → O.kill (group h.pid) sigterm w1 ≡ (sent, w2)
      → O.pipe w2 ≡ (none, w3)
      → c_kill O fuel (suc grace_ms) (state O (some h) b w)
        ≡ (throw system_error, state O (some h) true w3)
  unfolding c_kill kill_after
  c_kill-stays_blocked fuel grace_ms h b w w1 w2 w3 c e1 e2 e3 =
      rw (c, e1) (running_no_pipe fuel grace_ms h w1 w2 w3 e2 e3)

  -- `c_processx_kill` loses the status of a process that ended before: it reaps the process, so
  -- `waitpid` knows it no more, but does not collect the status, and a call of
  -- `processx_get_exit_status` then gives NA.
  pub c_kill-loses_status :
      (fuel grace_ms : ℕ) (st : WaitStatus) (h : Handle) (b : Bool) (w w1 w2 : O.World)
      → h.collected ≡ false
      → O.waitpid true h.pid w ≡ (reaped st, w1)
      → O.waitpid true h.pid w1 ≡ (no_child, w2)
      → let (r, s) = c_kill O fuel grace_ms (state O (some h) b w) in
        (r ≡ ok false) × ((get_exit_status O s).0 ≡ ok (some none))
  unfolding c_kill kill_after get_exit_status status_after collect exit_code
  c_kill-loses_status fuel grace_ms st h b w w1 w2 c e1 e2 = (rw (c, e1), rw (c, e1, e2))
