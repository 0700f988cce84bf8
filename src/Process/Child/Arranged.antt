-- ===== src/Process/Child/Arranged.antt =====
-- The file descriptors of the new process.
use processx.Base.{ℕ, ◌+◌, ◌≤◌, ◌≡◌, ◌≢◌, none, List, length, ◌⊎◌}
use processx.Process.Child.{Stdio, FdOs}
use processx.Process.Child.Table.{Shares, Documented, Wants, Parent, Merged}
use processx.Process.Child.Failure.{Failure}
use processx.Process.Child.Closed.{Closed}

module _ (O : FdOs) (doc : Documented O) where
  -- What the parent sees to: all ends are open, no parent's end is a child's end, and the pipe for
  -- errors is open, above the standard descriptors, and no end of a connection.
  pub record Prepared (min_fd n : ℕ) (ss : List Stdio) (e : ℕ) (w : O.World) : Type 0 where
    pub starts : (min_fd ≡ 0) ⊎ (min_fd ≡ 3)
    pub counted : min_fd + length ss ≡ n
    pub child_open : (i u : ℕ) → Wants min_fd ss i u → doc.slot w u ≢ none
    pub parent_open : (p : ℕ) → Parent ss p → doc.slot w p ≢ none
    pub apart : (i u p : ℕ) → Wants min_fd ss i u → Parent ss p → p ≢ u
    pub error_above : n ≤ e
    pub error_open : doc.slot w e ≢ none
    pub error_apart : (i u : ℕ) → Wants min_fd ss i u → u ≢ e
    pub error_no_parent : Parent ss e → ⊥

  -- The table in the end
  pub record Inherited (min_fd n : ℕ) (ss : List Stdio) (e : ℕ) (w w' : O.World) : Type 0 where
    pub placed : (i u : ℕ) → Wants min_fd ss i u → Shares (doc.slot w u) (doc.slot w' i)
    pub merged : Merged min_fd ss → Shares (doc.slot w' 1) (doc.slot w' 2)
    pub gone : (k : ℕ) → n ≤ k → k ≤ 200 → k ≢ e → doc.slot w' k ≡ none
    pub error_pipe : doc.slot w' e ≡ doc.slot w e
