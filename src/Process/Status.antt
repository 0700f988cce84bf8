-- ===== src/Process/Status.antt =====
-- Collecting the exit status: `processx__collect_exit_status`, `processx_is_alive`,
-- `processx_get_exit_status`, and the queries that need no status.
use processx.Base.{ℕ, Bool, true, false, Option, none, some, ok, throw, ℤ, pos, neg, if◌then◌else◌}
use processx.Process.Types.{
  WaitStatus, exited, signaled, WaitOutcome, running, reaped, no_child, wait_error, sent, esrch,
  eperm, kill_error, process, Handle, invalid_handle, system_error, Os, State, M,
}

-- `exitcode`, by what `waitpid` said; -1 gives NA.
unfoldable pub exit_code : Option WaitStatus → Option ℤ
exit_code none = none
exit_code (some (exited code)) = some (pos code)
exit_code (some (signaled sig)) = some (neg sig)

module _ (O : Os) where
  abbrev pub close_if : Option ℕ → O.World → O.World
  close_if none w = w
  close_if (some fd) w = O.close fd w

  -- `processx__block_sigchld` and `processx__unblock_sigchld`
  abbrev pub block : State O → State O
  block s = record s { blocked = true }

  abbrev pub unblock : State O → State O
  unblock s = record s { blocked = false }

  -- The body of `processx__collect_exit_status`; `none` is a `retval` of -1.
  unfoldable pub collect : Option WaitStatus → Handle → O.World → Handle × O.World
  unfolding exit_code
  collect wstat h w =
      let (time, w') = O.clock_gettime w in
      if h.collected then (h, w) else (
        record h {
          exitcode = exit_code wstat;
          end_time = time;
          collected = true;
          pty_child_fd = none;
        },
        close_if h.pty_child_fd w',
      )

  -- `processx__collect_exit_status`
  unfoldable pub collect_exit_status : Option WaitStatus → M O (Unit {0})
  unfolding collect
  collect_exit_status wstat s = elim s.handle [
    | none ↦ (throw invalid_handle, s)
    | some h ↦
        let (h', w') = collect wstat h s.world in (ok tt, record s { handle = some h'; world = w' })
  ]

  -- The handle `h` of the state and a world, after a status was collected.
  abbrev pub collected_state : Option WaitStatus → Handle → O.World → State O → State O
  unfolding collect
  collected_state wstat h w s =
      let (h', w') = collect wstat h w in record s { handle = some h'; world = w' }

  -- The end of `processx_is_alive`, after `waitpid`; SIGCHLD is blocked before and not after.
  unfoldable pub alive_after : WaitOutcome → Handle → O.World → M O Bool
  alive_after running h w s = (ok true, unblock (record s { world = w }))
  alive_after (reaped st) h w s = (ok false, unblock (collected_state (some st) h w s))
  alive_after no_child h w s = (ok false, unblock (collected_state none h w s))
  alive_after wait_error h w s = (throw system_error, unblock (record s { world = w }))

  -- `processx_is_alive`
  unfoldable pub is_alive : M O Bool
  unfolding alive_after
  is_alive s = elim s.handle [
    | none ↦ (ok false, unblock (block s))
    | some h ↦
        let (o, w') = O.waitpid true h.pid s.world in
        if h.collected then (ok false, unblock (block s)) else alive_after o h w' (block s)
  ]

  -- The answer of `processx_get_exit_status`: `NULL` for a process that runs, or an integer.
  unfoldable pub status_after : WaitOutcome → Handle → O.World → M O (Option (Option ℤ))
  unfolding collect
  status_after running h w s = (ok none, unblock (record s { world = w }))
  status_after (reaped st) h w s =
      (ok (some (collect (some st) h w).0.exitcode), unblock (collected_state (some st) h w s))
  status_after no_child h w s =
      (ok (some (collect none h w).0.exitcode), unblock (collected_state none h w s))
  status_after wait_error h w s = (throw system_error, unblock (record s { world = w }))

  -- `processx_get_exit_status`
  unfoldable pub get_exit_status : M O (Option (Option ℤ))
  unfolding status_after
  get_exit_status s = elim s.handle [
    | none ↦ (ok (some none), unblock (block s))
    | some h ↦
        let (o, w') = O.waitpid true h.pid s.world in
        if h.collected
        then (ok (some h.exitcode), unblock (block s))
        else status_after o h w' (block s)
  ]

  -- `processx_get_pid`; `none` is NA.
  unfoldable pub get_pid : State O → Option ℕ
  get_pid s = elim s.handle [ none ↦ none | some h ↦ some h.pid ]

  -- `processx__process_exists`
  unfoldable pub process_exists : ℕ → M O Bool
  process_exists pid s =
      let (r, w') = O.kill (process pid) 0 s.world in
      let s' = record s { world = w' } in
      elim r [
        | sent ↦ (ok true, s')
        | esrch ↦ (ok false, s')
        | eperm ↦ (throw system_error, s')
        | kill_error ↦ (throw system_error, s')
      ]
