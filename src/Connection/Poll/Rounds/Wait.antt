-- ===== src/Connection/Poll/Rounds/Wait.antt =====
-- When `processx_c_connection_poll` waits, and for how long.
use processx.Base.{
  ℕ, zero, suc, ◌-◌, ◌*◌, ◌≤◌, ◌<◌, ◌≡◌, ◌≢◌, refl, Bool, Option, none, some, List, ok, throw,
  arith, ltb, ◌==◌, if◌then◌else◌, Bool-cases, inl, inr, ltb→lt, lt→ltb, length,
}
use processx.Connection.Types.{no_fuel, Platform}
use processx.Connection.Poll.{PrePoll, Request, collect, finish_poll}
use processx.Connection.Poll.Rounds.{Poller, is_timed_out, poll_left, interruptible_poll, poll_pres}

module _ (P : Platform) (L : Poller P) where
  poll_left-Ended :
      (fds : List Request) (t : Option ℕ) (w : P.World) → (poll_left P L fds t w).0 ≢ throw no_fuel
  unfolding poll_left
  poll_left-Ended fds none w = λ e. absurd cc
  poll_left-Ended fds (some t) w = λ e. absurd cc

  -- `processx__interruptible_poll` with a timeout of `n` milliseconds calls `poll` no more than
  -- `n / 200` times, rounded up, and once more; it does not run on.
  pub interruptible_poll-Ended :
      (fuel n : ℕ) (fds : List Request) (w : P.World)
      → n ≤ 200 * fuel
      → (interruptible_poll P L fuel fds (some n) w).0 ≢ throw no_fuel
  unfolding interruptible_poll
  interruptible_poll-Ended zero n fds w le = elim (Bool-cases (ltb 200 n)) [
    | inl more ↦ absurd (omega (arith, ltb→lt 200 n more))
    | inr over ↦ rw over (poll_left-Ended fds (some n) w)
  ]
  interruptible_poll-Ended (suc fuel) n fds w le = elim (Bool-cases (ltb 200 n)) [
    | inr over ↦ rw over (poll_left-Ended fds (some n) w)
    | inl more ↦
        let (r, w') = L.poll fds 200 w in
        let (stop, w1) = L.user_interrupt w' in
        let ih = interruptible_poll-Ended fuel (n - 200) fds w1 (omega arith) in
        rw more (elim (Bool-cases (is_timed_out P L r)) [
          | inr out ↦ rw out (λ e. absurd cc)
          | inl again ↦
              rw again (elim (Bool-cases stop) [ inl s ↦ rw s (λ e. absurd cc) | inr s ↦ rw s ih ])
        ])
  ]

  -- A timeout of 0 is one call of `poll`.
  interruptible_poll-zero :
      (fuel : ℕ) (fds : List Request) (w : P.World)
      → interruptible_poll P L fuel fds (some 0) w ≡ (ok (L.poll fds 0 w).0, (L.poll fds 0 w).1)
  unfolding interruptible_poll poll_left
  interruptible_poll-zero zero fds w = refl
  interruptible_poll-zero (suc fuel) fds w = refl

  -- If the pre-poll of one pollable has found data, the poll does not wait, whatever its timeout:
  -- the system is asked once, with a timeout of 0, and not at all if there is no descriptor left.
  pub poll_pres-no_wait :
      (fuel : ℕ) (pres : List PrePoll) (listens : ℕ → Bool) (timeout : Option ℕ) (w : P.World)
      → 0 < (collect 0 pres).hasdata
      → let c = collect 0 pres in
        let (r, w') = L.poll c.fds 0 w in
        poll_pres P L fuel pres listens timeout w ≡ (
          if length c.fds == 0
          then (ok (c.events, c.hasdata), w)
          else (finish_poll pres listens c r, w'))
  unfolding poll_pres
  poll_pres-no_wait fuel pres listens timeout w pos =
      let c = collect 0 pres in rw (lt→ltb 0 c.hasdata pos, interruptible_poll-zero fuel c.fds w)
