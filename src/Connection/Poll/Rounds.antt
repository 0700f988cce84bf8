-- ===== src/Connection/Poll/Rounds.antt =====
-- `PROCESSX__I_PRE_POLL_FUNC_CONNECTION_READY`, `processx__interruptible_poll` and `processx_c_connection_poll`.
pub mod Wait
use processx.Base.{
  ℕ, zero, suc, ◌+◌, ◌-◌, Bool, true, false, not, ◌&&◌, ◌||◌, Option, none, some, List, [], ◌∷◌,
  ◌++◌, Result, ok, throw, map, ltb, ◌==◌, if◌then◌else◌, length, get_or, set, replicate,
}
use processx.Connection.Types.{
  Conn, FileType, socket, SocketState, listen, Fault, poll_failed, interrupted, no_fuel, Platform,
  Io, M,
}
use processx.Connection.Convert.{to_utf8}
use processx.Connection.Poll.{
  Event, Pollable, connection, curl, PrePoll, now, handle, select, Request, Polled, timed_out,
  is_closed, nopipe, is_ready, collect, finish_poll, Conns, put_conn, pollable_listens,
}

-- `poll(2)` for at most so many milliseconds, called again while a signal interrupts it, and whether
-- the user interrupts
pub record Poller (P : Platform) : Type 0 where
  pub poll : List Request → ℕ → P.World → Polled × P.World
  pub user_interrupt : P.World → Bool × P.World

module _ (P : Platform) where
  -- `PROCESSX__I_PRE_POLL_FUNC_CONNECTION_READY`: an event, or `none` where the macro goes on
  unfoldable pub ready_now : M P (Option Event)
  ready_now (c, w) =
      if c.is_closed
      then (ok (some is_closed), (c, w))
      else if c.is_eof
      then (ok (some is_ready), (c, w))
      else if c.raw_mode
      then (ok (if ltb 0 (length c.buffer) then some is_ready else none), (c, w))
      else if ltb 0 (length c.utf8)
      then (ok (some is_ready), (c, w))
      else if ltb 0 (length c.buffer) && c.is_eof_raw
      then (ok (some is_ready), (c, w))
      else if ltb 0 (length c.buffer)
      then (let (r, (c', w')) = to_utf8 P (c, w) in
          elim r [
            | throw e ↦ (throw e, (c', w'))
            | ok n ↦ (ok (if ltb 0 (length c'.utf8) then some is_ready else none), (c', w'))
          ])
      else (ok none, (c, w))

  -- The return value: PXHANDLE, with the handle, where the macro goes on
  unfoldable pub as_pre_poll : Result Fault (Option Event) × Io P → Result Fault PrePoll × Io P
  as_pre_poll (throw e, io) = (throw e, io)
  as_pre_poll (ok (some e), io) = (ok (now e), io)
  as_pre_poll (ok none, (c, w)) = (ok (handle c.handle), (c, w))

  -- `processx_i_pre_poll_func_connection`
  unfoldable pub pre_poll : M P PrePoll
  unfolding ready_now as_pre_poll
  pre_poll io = as_pre_poll (ready_now io)

  -- The first pass: the pre-poll function of each pollable
  pub pre_polls : List Pollable → Conns × P.World → Result Fault (List PrePoll) × (Conns × P.World)
  unfolding pre_poll put_conn
  pre_polls [] s = (ok [], s)
  pre_polls (curl f ∷ ps) s =
      let (r, s') = pre_polls ps s in
      (elim r [ ok pres ↦ ok (select f ∷ pres) | throw e ↦ throw e ], s')
  pre_polls (connection none ∷ ps) s =
      let (r, s') = pre_polls ps s in
      (elim r [ ok pres ↦ ok (now nopipe ∷ pres) | throw e ↦ throw e ], s')
  pre_polls (connection (some key) ∷ ps) (cs, w) =
      let (r, (c', w')) = pre_poll (cs key, w) in
      let (r', s') = pre_polls ps (put_conn key c' cs, w') in
      elim r [
        | throw e ↦ (throw e, (put_conn key c' cs, w'))
        | ok p ↦ (elim r' [ ok pres ↦ ok (p ∷ pres) | throw e ↦ throw e ], s')
      ]

  module _ (L : Poller P) where
    -- PROCESSX_INTERRUPT_INTERVAL
    abbrev pub interval : ℕ
    interval = 200

    -- The last poll, of what is left of the timeout. A negative timeout does not get here.
    pub poll_left : List Request → Option ℕ → P.World → Result Fault Polled × P.World
    poll_left fds none w = (ok timed_out, w)
    poll_left fds (some timeleft) w = let (r, w') = L.poll fds timeleft w in (ok r, w')

    abbrev pub goes_on : Option ℕ → Bool
    goes_on none = true
    goes_on (some timeleft) = ltb interval timeleft

    abbrev pub less_interval : Option ℕ → Option ℕ
    less_interval none = none
    less_interval (some timeleft) = some (timeleft - interval)

    abbrev pub is_timed_out : Polled → Bool
    is_timed_out timed_out = true
    is_timed_out _ = false

    -- `processx__interruptible_poll`; `none` is a negative timeout. (The code goes on subtracting
    -- from a negative `timeleft`; the model does not.)
    pub interruptible_poll : ℕ → List Request → Option ℕ → P.World → Result Fault Polled × P.World
    unfolding poll_left
    interruptible_poll zero fds timeleft w =
        if goes_on timeleft then (throw no_fuel, w) else poll_left fds timeleft w
    interruptible_poll (suc fuel) fds timeleft w =
        let (r, w') = L.poll fds interval w in
        let (stop, w1) = L.user_interrupt w' in
        let again = interruptible_poll fuel fds (less_interval timeleft) w1 in
        if goes_on timeleft
        then (if is_timed_out r
            then (if stop then (throw interrupted, w1) else again)
            else (ok r, w'))
        else poll_left fds timeleft w

    -- The rest of `processx_c_connection_poll`, after the first pass
    pub poll_pres :
        ℕ → List PrePoll → (ℕ → Bool) → Option ℕ → P.World → Result Fault (List Event × ℕ) × P.World
    unfolding collect interruptible_poll finish_poll
    poll_pres fuel pres listens timeout w =
        let c = collect 0 pres in
        let (r, w') =
          interruptible_poll fuel c.fds (if ltb 0 c.hasdata then some 0 else timeout) w in
        if length c.fds == 0
        then (ok (c.events, c.hasdata), w)
        else (elim r [ throw e ↦ throw e | ok p ↦ finish_poll pres listens c p ], w')

    -- `processx_c_connection_poll`: the events of the pollables, in order, and the number that it
    -- returns
    pub c_connection_poll :
        ℕ
        → List Pollable
        → Option ℕ
        → Conns × P.World
        → Result Fault (List Event × ℕ) × (Conns × P.World)
    unfolding pre_polls poll_pres
    c_connection_poll fuel pollables timeout s =
        let (r, (cs, w)) = pre_polls pollables s in
        elim r [
          | throw e ↦ (throw e, (cs, w))
          | ok pres ↦
              let (out, w') = poll_pres fuel pres (pollable_listens pollables cs) timeout w in
              (out, (cs, w'))
        ]
