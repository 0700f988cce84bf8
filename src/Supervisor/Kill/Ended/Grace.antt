-- ===== src/Supervisor/Kill/Ended/Grace.antt =====
-- The order in which `kill_children` ends the children, and the time that it leaves them.
use processx.Base.{ℕ, ◌+◌, ◌≤◌, ◌<◌, ◌≡◌, ◌≢◌, ◌⊎◌, List, [], ◌∷◌}
use processx.Process.Types.{KillOutcome, esrch}
use processx.Process.Kill.{sigkill, sigterm}
use processx.Supervisor.Types.{System, Documented, Io, Call, called, OnlyAsks}
use processx.Supervisor.Kill.Ended.{Dropped}

-- The calls before and after SIGTERM has been sent to each of the children in turn
pub data Terminated : List ℕ → List Call → List Call → Type 0 where
  all_terminated : {calls : List Call} → Terminated [] calls calls
  terminated :
      {x : ℕ} {xs : List ℕ} {calls calls' : List Call} (r : KillOutcome)
      → Terminated xs (called x sigterm r ∷ calls) calls'
      → Terminated (x ∷ xs) calls calls'

-- The calls before and after each of the children in turn has been asked for, and SIGKILL sent to it
-- unless it was gone
pub data Killed : List ℕ → List Call → List Call → Type 0 where
  all_killed : {calls : List Call} → Killed [] calls calls
  was_gone :
      {x : ℕ} {xs : List ℕ} {calls calls' : List Call}
      → Killed xs (called x 0 esrch ∷ calls) calls'
      → Killed (x ∷ xs) calls calls'
  was_killed :
      {x : ℕ} {xs : List ℕ} {calls calls' : List Call} (r r' : KillOutcome)
      → r ≢ esrch
      → Killed xs (called x sigkill r' ∷ called x 0 r ∷ calls) calls'
      → Killed (x ∷ xs) calls calls'

module _ (S : System) (doc : Documented S) where
  -- The end of the children `xs`: first all get SIGTERM; then there are only questions whether they
  -- run, up to a time that is more than 4 seconds later, unless all children were found stopped before;
  -- then those that are left are killed.
  pub record Ending (xs : List ℕ) (s s' : Io S) : Type 0 where
    pub after_term : Io S
    pub terms : Terminated xs s.1 after_term.1
    pub term_clock : doc.clock s.0 ≤ doc.clock after_term.0
    pub left : List ℕ
    pub after_grace : Io S
    pub only_asked : OnlyAsks after_term.1 after_grace.1
    pub dropped : Dropped xs left after_grace.1
    pub grace : (left ≡ []) ⊎ (doc.clock after_term.0 + 4000 < doc.clock after_grace.0)
    pub kills : Killed left after_grace.1 s'.1
