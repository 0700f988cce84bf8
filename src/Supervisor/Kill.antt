-- ===== src/Supervisor/Kill.antt =====
-- How the supervisor looks at its children, and how it ends them.
pub mod Ended
use processx.Base.{
  ℕ, zero, suc, ◌+◌, ◌-◌, ◌≤◌, ◌<◌, ◌≡◌, Bool, true, false, Option, none, some, ◌>>=◌, List, [],
  ◌∷◌, ltb, ◌==◌, if◌then◌else◌, length, get_or,
}
use processx.Process.Kill.{sigkill, sigterm}
use processx.Supervisor.Types.{System, Io, kill, sleep_ms, time, pid_is_running}
use processx.Supervisor.Array.{remove_element}

abbrev pub poll_ms : ℕ
poll_ms = 200

module _ (S : System) where
  -- The loop that removes the children that are no longer running, at index `i`: it removes one by
  -- `remove_element`, and then goes on at i + 1. It has at most one round for each child.
  unfoldable pub drop_loop : ℕ → ℕ → List ℕ → Io S → List ℕ × Io S
  unfolding pid_is_running remove_element
  drop_loop zero i children s = (children, s)
  drop_loop (suc fuel) i children s =
      let (running, s') = pid_is_running S (get_or children i 0) s in
      let left = if running then children else remove_element children i in
      let rest = drop_loop fuel (i + 1) left s' in
      if ltb i (length children) then rest else (children, s)

  unfoldable pub drop_stopped : List ℕ → Io S → List ℕ × Io S
  unfolding drop_loop
  drop_stopped children s = drop_loop (length children) 0 children s

  -- SIGTERM for all
  unfoldable pub terminate : List ℕ → Io S → Io S
  unfolding kill
  terminate [] s = s
  terminate (x ∷ xs) s = terminate xs (kill S x sigterm s).1

  -- The do-while loop: the children that are left, none after the early return. `none` without fuel
  unfoldable pub wait_loop : ℕ → ℕ → List ℕ → Io S → Option (List ℕ × Io S)
  unfolding drop_stopped
  wait_loop zero stop_time children s = none
  wait_loop (suc fuel) stop_time children s =
      let (left, s1) = drop_stopped children (sleep_ms S poll_ms s) in
      let (now, s2) = time S s1 in
      let again = wait_loop fuel stop_time left s2 in
      if length left == 0
      then some (left, s1)
      else if ltb now stop_time
      then again
      else some (left, s2)

  -- SIGKILL for those that are still running
  unfoldable pub hard_kill : List ℕ → Io S → Io S
  unfolding pid_is_running kill
  hard_kill [] s = s
  hard_kill (x ∷ xs) s =
      let (running, s') = pid_is_running S x s in
      hard_kill xs (if running then (kill S x sigkill s').1 else s')

  -- `kill_children`. The clock counts seconds, and a round takes 0.2 of them at least: 25 rounds are
  -- enough.
  unfoldable pub kill_children : List ℕ → Io S → Option (Io S)
  unfolding terminate wait_loop hard_kill
  kill_children [] s = some s
  kill_children (x ∷ xs) s =
      let s1 = terminate (x ∷ xs) s in
      let (now, s2) = time S s1 in
      wait_loop 25 (now + 5) (x ∷ xs) s2 >>= λ (left, s3). some (hard_kill left s3)
