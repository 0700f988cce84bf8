-- ===== src/Process/Signal.antt =====
-- `processx_signal` and `processx_interrupt`.
use processx.Base.{ℕ, Bool, true, false, none, some, ok, throw, if◌then◌else◌}
use processx.Process.Types.{
  WaitOutcome, running, reaped, no_child, wait_error, KillOutcome, sent, esrch, eperm, kill_error,
  process, group, Handle, system_error, Os, M,
}
use processx.Process.Status.{collect, block, unblock, collected_state}

module _ (O : Os) where
  -- After the signal: a `waitpid` in case the process is dead now. A status that it returns is
  -- not stored.
  unfoldable pub signal_wait : Bool → WaitOutcome → Handle → O.World → M O Bool
  unfolding collect
  signal_wait result no_child h w s = (ok result, unblock O (collected_state O none h w s))
  signal_wait result wait_error h w s = (throw system_error, unblock O (record s { world = w }))
  signal_wait result running h w s = (ok result, unblock O (record s { world = w }))
  signal_wait result (reaped st) h w s = (ok result, unblock O (record s { world = w }))

  unfoldable pub signal_after : KillOutcome → Handle → O.World → M O Bool
  unfolding signal_wait
  signal_after sent h w s = let (o, w') = O.waitpid true h.pid w in signal_wait true o h w' s
  signal_after esrch h w s = let (o, w') = O.waitpid true h.pid w in signal_wait false o h w' s
  signal_after eperm h w s = let (o, w') = O.waitpid true h.pid w in signal_wait false o h w' s
  signal_after kill_error h w s = (throw system_error, unblock O (record s { world = w }))

  -- `processx_signal`, to the process or to its group
  unfoldable pub signal : ℕ → Bool → M O Bool
  unfolding signal_after
  signal sig cgroup s = elim s.handle [
    | none ↦ (ok false, unblock O (block O s))
    | some h ↦
        let (r, w') = O.kill (if cgroup then group h.pid else process h.pid) sig s.world in
        if h.collected then (ok false, unblock O (block O s)) else signal_after r h w' (block O s)
  ]

  -- `processx_interrupt`
  unfoldable pub interrupt : Bool → M O Bool
  unfolding signal
  interrupt cgroup s = signal 2 cgroup s
