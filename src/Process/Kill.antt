-- ===== src/Process/Kill.antt =====
-- `c_processx_kill` and the end of a handle: `processx__finalizer`.
use processx.Base.{
  ℕ, Bool, true, false, Option, none, some, Result, ok, throw, ◌==◌, if◌then◌else◌, ℤ, neg, eq_ℤ,
}
use processx.Process.Types.{
  WaitStatus, WaitOutcome, running, reaped, no_child, wait_error, sent, esrch, eperm, kill_error,
  group, Handle, Fault, system_error, Os, State, M,
}
use processx.Process.Status.{collect, block, unblock, close_if, collected_state}
use processx.Process.Wait.{c_wait}

abbrev pub sigterm : ℕ
sigterm = 15

abbrev pub sigkill : ℕ
sigkill = 9

-- `exitcode == -sig`; NA is the smallest integer and never equal.
unfoldable pub died_of : ℕ → Option ℤ → Bool
died_of sig none = false
died_of sig (some code) = eq_ℤ code (neg sig)

-- The exit code of the handle of a state, if there is one.
abbrev pub exitcode_of : Option Handle → Option ℤ
exitcode_of none = none
exitcode_of (some h) = h.exitcode

module _ (O : Os) where
  -- `retval` and `wstat` of a blocking `waitpid`: an error counts as -1. It never returns 0.
  abbrev pub status_of : WaitOutcome → Option WaitStatus
  status_of (reaped st) = some st
  status_of _ = none

  -- After SIGKILL: the process is waited for, and its status collected.
  unfoldable pub reap_killed : Handle → M O Bool
  unfolding collect died_of
  reap_killed h s =
      let (o, w') = O.waitpid false h.pid s.world in
      let (h', w'') = collect O (status_of o) h w' in
      (ok (died_of sigkill h'.exitcode), unblock O (record s { handle = some h'; world = w'' }))

  -- `KILL_WITH`: `none` goes on.
  unfoldable pub kill_with : ℕ → Handle → State O → Option (Result Fault Bool) × State O
  kill_with sig h s =
      let (r, w') = O.kill (group h.pid) sig s.world in
      let s' = record s { world = w' } in
      elim r [
        | sent ↦ (none, s')
        | esrch ↦ (some (ok false), unblock O s')
        | eperm ↦ (some (ok false), unblock O s')
        | kill_error ↦ (some (throw system_error), unblock O s')
      ]

  unfoldable pub send_sigkill : Handle → M O Bool
  unfolding kill_with reap_killed
  send_sigkill h s =
      let (stopped, s') = kill_with sigkill h s in
      elim stopped [ some r ↦ (r, s') | none ↦ reap_killed h s' ]

  -- After the wait for the gracious end. The handle cannot be gone, as it is only finalized from R.
  unfoldable pub after_grace : Result Fault Bool × State O → Result Fault Bool × State O
  unfolding send_sigkill died_of
  after_grace (throw e, s') = (throw e, s')
  after_grace (ok true, s') = (ok (died_of sigterm (exitcode_of s'.handle)), unblock O s')
  after_grace (ok false, s') = elim s'.handle [
    | none ↦ (ok false, unblock O s')
    | some h ↦ send_sigkill h s'
  ]

  -- After SIGTERM: the wait for the grace time, if the signal was sent.
  unfoldable pub after_term :
      ℕ → ℕ → Option (Result Fault Bool) × State O → Result Fault Bool × State O
  unfolding after_grace c_wait
  after_term fuel grace_ms (some r, s') = (r, s')
  after_term fuel grace_ms (none, s') = after_grace (c_wait O fuel (some grace_ms) s')

  unfoldable pub kill_running : ℕ → ℕ → Handle → M O Bool
  unfolding kill_with after_term send_sigkill
  kill_running fuel grace_ms h s =
      if grace_ms == 0 then send_sigkill h s else after_term fuel grace_ms (kill_with sigterm h s)

  -- After the first `waitpid`. A process that is gone is no longer killed; its status is left.
  unfoldable pub kill_after : ℕ → ℕ → WaitOutcome → Handle → M O Bool
  unfolding kill_running collect
  kill_after fuel grace_ms running h s = kill_running fuel grace_ms h s
  kill_after fuel grace_ms (reaped st) h s = (ok false, unblock O s)
  kill_after fuel grace_ms no_child h s = (ok false, unblock O (collected_state O none h s.world s))
  kill_after fuel grace_ms wait_error h s = (throw system_error, unblock O s)

  -- `c_processx_kill`
  unfoldable pub c_kill : ℕ → ℕ → M O Bool
  unfolding kill_after
  c_kill fuel grace_ms s = elim s.handle [
    | none ↦ (ok false, unblock O (block O s))
    | some h ↦
        let (o, w') = O.waitpid true h.pid s.world in
        if h.collected
        then (ok false, unblock O (block O s))
        else kill_after fuel grace_ms o h (record (block O s) { world = w' })
  ]

  -- `processx__handle_destroy`
  unfoldable pub handle_destroy : Option Handle → O.World → O.World
  handle_destroy none w = w
  handle_destroy (some h) w = close_if O h.pty_child_fd w

  -- `processx__finalizer`, without the list of free nodes. An error of the kill leaves the
  -- function with the pointer as it was.
  unfoldable pub finalizer : ℕ → M O (Unit {0})
  unfolding c_kill handle_destroy
  finalizer fuel s = elim s.handle [
    | none ↦ (ok tt, unblock O (block O s))
    | some h ↦
        let (r, s') = c_kill fuel h.grace_ms (unblock O (block O s)) in
        let clear = λ (s1 : State O). record s1 {
          handle = none;
          world = handle_destroy s1.handle s1.world;
        } in
        if h.cleanup
        then elim r [ throw e ↦ (throw e, s') | ok killed ↦ (ok tt, clear s') ]
        else (ok tt, clear (unblock O (block O s)))
  ]
