-- ===== src/Supervisor/Round.antt =====
-- The main loop.
pub mod Laws
use processx.Base.{
  ℕ, zero, suc, ◌+◌, ◌≡◌, Bool, true, false, Option, none, some, ◌>>=◌, List, [], ◌∷◌,
  if◌then◌else◌,
}
use processx.Supervisor.Types.{System, Io, Call, sleep_ms, pid_is_running}
use processx.Supervisor.Input.{read_input}
use processx.Supervisor.Kill.{poll_ms, drop_stopped, kill_children}

-- How a round of the loop ends: the supervisor exits, or it goes on with these children.
pub data Outcome : Type 0 where
  exited : Outcome
  watching : List ℕ → Outcome

module _ (S : System) where
  unfoldable pub end_children : List ℕ → Io S → Option (Outcome × Io S)
  unfolding kill_children
  end_children children s = kill_children S children s >>= λ s'. some (exited, s')

  -- After the input: the children and the parent are looked at.
  unfoldable pub look_around : ℕ → List ℕ → Io S → Option (Outcome × Io S)
  unfolding drop_stopped pid_is_running end_children
  look_around parent_pid children s =
      let (left, s1) = drop_stopped S children s in
      let (running, s2) = pid_is_running S parent_pid s1 in
      if running then some (watching left, sleep_ms S poll_ms s2) else end_children left s2

  -- A round of the main loop; `fuel` bounds the lines that it reads.
  unfoldable pub round : ℕ → ℕ → List ℕ → Io S → Option (Outcome × Io S)
  unfolding read_input look_around end_children
  round fuel parent_pid children s =
      if S.signal_received s.0
      then end_children children s
      else read_input S fuel children s >>= λ (killed, children', s1).
          if killed then end_children children' s1 else look_around parent_pid children' s1
