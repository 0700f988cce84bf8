-- ===== src/Process/Finished.antt =====
-- What the queries on a process agree on, and that a status, once it is known, stays.
use processx.Base.{ℕ, ◌≡◌, refl, Bool, true, false, Option, none, some, Result, ok, throw, ℤ, subst}
use processx.Process.Types.{
  WaitStatus, WaitOutcome, running, reaped, no_child, wait_error, Handle, Fault, Os, State,
}
use processx.Process.Status.{collect, alive_after, is_alive, status_after, get_exit_status}
use processx.Process.Signal.{signal}
use processx.Process.Wait.{c_wait}
use processx.Process.Kill.{c_kill}

-- What `processx_is_alive` would say where `processx_get_exit_status` answers.
abbrev pub runs : Result Fault (Option (Option ℤ)) → Result Fault Bool
runs (ok none) = ok true
runs (ok (some code)) = ok false
runs (throw e) = throw e

module _ (O : Os) where
  status_after-alive_after :
      (o : WaitOutcome) (h : Handle) (w : O.World) (s : State O)
      → alive_after O o h w s ≡ (runs (status_after O o h w s).0, (status_after O o h w s).1)
  unfolding alive_after status_after
  status_after-alive_after running h w s = refl
  status_after-alive_after (reaped st) h w s = refl
  status_after-alive_after no_child h w s = refl
  status_after-alive_after wait_error h w s = refl

  -- The state that has the parts of another one, and its handle with one field made a parameter.
  abbrev pub state : Option Handle → Bool → O.World → State O
  state h b w = record { handle = h; blocked = b; world = w }

  abbrev pub with_collected : Bool → Handle → Option Handle
  with_collected c h = some (record h { collected = c })

  live-get_exit_status :
      (c : Bool) (h : Handle) (b : Bool) (w : O.World)
      → let s = state (with_collected c h) b w in
        is_alive O s ≡ (runs (get_exit_status O s).0, (get_exit_status O s).1)
  unfolding is_alive get_exit_status
  live-get_exit_status true h b w = refl
  live-get_exit_status false h b w =
      let h' = record h { collected = false } in
      status_after-alive_after (O.waitpid true h.pid w).0 h' (O.waitpid true h.pid w).1
        (state (some h') true w)

  any-get_exit_status :
      (o : Option Handle) (b : Bool) (w : O.World)
      → let s = state o b w in
        is_alive O s ≡ (runs (get_exit_status O s).0, (get_exit_status O s).1)
  unfolding is_alive get_exit_status
  any-get_exit_status none b w = refl
  any-get_exit_status (some h) b w = live-get_exit_status h.collected h b w

  -- From every state, `processx_is_alive` and `processx_get_exit_status` leave the same state and
  -- fail alike, and the process is alive exactly if there is no exit status.
  pub is_alive-get_exit_status :
      (s : State O) → is_alive O s ≡ (runs (get_exit_status O s).0, (get_exit_status O s).1)
  is_alive-get_exit_status s = any-get_exit_status s.handle s.blocked s.world

  -- A state in which the process is over, with the exit code `code` (`none` for NA): no call does
  -- anything any more, whatever the system would say.
  pub record Finished (code : Option ℤ) (s : State O) : Type 0 where
    pub status : get_exit_status O s ≡ (ok (some code), s)
    pub alive : is_alive O s ≡ (ok false, s)
    pub no_signal : (sig : ℕ) (g : Bool) → signal O sig g s ≡ (ok false, s)
    pub no_kill : (fuel grace_ms : ℕ) → c_kill O fuel grace_ms s ≡ (ok false, s)
    pub no_wait : (fuel : ℕ) (timeout : Option ℕ) → c_wait O fuel timeout s ≡ (ok true, s)

  collected-Finished :
      (h : Handle) (w : O.World) → Finished h.exitcode (state (with_collected true h) false w)
  unfolding get_exit_status is_alive signal c_kill c_wait
  collected-Finished h w = record {
    status = refl;
    alive = refl;
    no_signal = λ sig g. refl;
    no_kill = λ fuel g. refl;
    no_wait = λ fuel t. refl;
  }

  gone-Finished : (w : O.World) → Finished none (state none false w)
  unfolding get_exit_status is_alive signal c_kill c_wait
  gone-Finished w = record {
    status = refl;
    alive = refl;
    no_signal = λ sig g. refl;
    no_kill = λ fuel g. refl;
    no_wait = λ fuel t. refl;
  }

  -- The same for a handle that has the flag set.
  flagged-Finished :
      (h : Handle) (code : Option ℤ) (w : O.World)
      → h.collected ≡ true
      → h.exitcode ≡ code
      → Finished code (state (some h) false w)
  flagged-Finished h code w c e = rw (← e, c) (collected-Finished h w)

  flag-collected :
      (c : Bool) (st : Option WaitStatus) (h : Handle) (w : O.World)
      → (collect O st (record h { collected = c }) w).0.collected ≡ true
  unfolding collect
  flag-collected true st h w = refl
  flag-collected false st h w = refl

  pub collect-collected :
      (st : Option WaitStatus) (h : Handle) (w : O.World) → (collect O st h w).0.collected ≡ true
  collect-collected st h w = flag-collected h.collected st h w

  status_after-Finished :
      (o : WaitOutcome) (h : Handle) (w : O.World) (s : State O) (code : Option ℤ)
      → (status_after O o h w s).0 ≡ ok (some code)
      → Finished code (status_after O o h w s).1
  unfolding status_after
  status_after-Finished running h w s code e = absurd cc
  status_after-Finished (reaped st) h w s code e =
      flagged-Finished (collect O (some st) h w).0 code (collect O (some st) h w).1
        (collect-collected (some st) h w) cc
  status_after-Finished no_child h w s code e =
      flagged-Finished (collect O none h w).0 code (collect O none h w).1
        (collect-collected none h w) cc
  status_after-Finished wait_error h w s code e = absurd cc

  live-Finished :
      (c : Bool) (h : Handle) (b : Bool) (w : O.World) (code : Option ℤ)
      → (get_exit_status O (state (with_collected c h) b w)).0 ≡ ok (some code)
      → Finished code (get_exit_status O (state (with_collected c h) b w)).1
  unfolding get_exit_status
  live-Finished true h b w code e = flagged-Finished (record h { collected = true }) code w refl cc
  live-Finished false h b w code e =
      let h' = record h { collected = false } in
      status_after-Finished (O.waitpid true h.pid w).0 h' (O.waitpid true h.pid w).1
        (state (some h') true w) code e

  any-Finished :
      (o : Option Handle) (b : Bool) (w : O.World) (code : Option ℤ)
      → (get_exit_status O (state o b w)).0 ≡ ok (some code)
      → Finished code (get_exit_status O (state o b w)).1
  unfolding get_exit_status
  any-Finished none b w code e =
      let e' : none ≡ code = cc in
      subst (λ (x : Option ℤ). Finished x (state none false w)) e' (gone-Finished w)
  any-Finished (some h) b w code e = live-Finished h.collected h b w code e

  -- Once `processx_get_exit_status` has answered with an exit code (or NA), the process stays
  -- over: it gives the same code again, the process is not alive, no signal is sent to its pid,
  -- which may belong to another process by then, and a wait returns at once; none of these calls
  -- changes the state.
  pub get_exit_status-Finished :
      (s : State O) (code : Option ℤ)
      → (get_exit_status O s).0 ≡ ok (some code)
      → Finished code (get_exit_status O s).1
  get_exit_status-Finished s code e = any-Finished s.handle s.blocked s.world code e
