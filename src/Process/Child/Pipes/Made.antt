-- ===== src/Process/Child/Pipes/Made.antt =====
-- About the pipes, as `processx__child_init` needs them.
use processx.Base.{
  ℕ, ◌+◌, ◌≤◌, ◌≡◌, ◌≢◌, Option, none, some, List, [], ◌∷◌, ◌⊎◌, ◌==◌, if◌then◌else◌, length,
}
use processx.Process.Child.{Stdio, FdOs}
use processx.Process.Child.Table.{Documented, Wants, Parent}
use processx.Process.Child.Failure.{Failure}
use processx.Process.Child.Pipes.{Target, ignored, text, connection, Sockets, Paired}

module _ (O : FdOs) (P : Sockets O) (doc : Documented O) (paired : Paired O doc P) where
  -- A descriptor that the child inherits as it is
  abbrev pub inherits : ℕ → Target → Option ℕ
  inherits i ignored = none
  inherits i (connection fd) = some fd
  inherits i (text s) = if length s == 0 then some i else none

  abbrev pub Given : ℕ → List Target → ℕ → ℕ → Type 0
  Given i [] j u = ⊥
  Given i (t ∷ ts) j u = ((j ≡ i) × (inherits i t ≡ some u)) ⊎ Given (i + 1) ts j u

  -- A descriptor that was free and is now in use
  abbrev New : O.World → O.World → ℕ → Type 0
  New w w' k = (doc.slot w k ≡ none) × (doc.slot w' k ≢ none)

  record One (i : ℕ) (t : Target) (s : Stdio) (w w1 : O.World) : Type 0 where
    child : (u : ℕ) → s.child_end ≡ some u → (inherits i t ≡ some u) ⊎ New w w1 u
    parent : (p : ℕ) → s.parent_end ≡ some p → New w w1 p
    given : (u : ℕ) → inherits i t ≡ some u → s.child_end ≡ some u
    ends_differ : (u p : ℕ) → s.child_end ≡ some u → s.parent_end ≡ some p → p ≢ u
    kept : (k : ℕ) → doc.slot w k ≢ none → doc.slot w1 k ≡ doc.slot w k

  -- What becomes of all of them
  record Made (i : ℕ) (ts : List Target) (ss : List Stdio) (w w' : O.World) : Type 0 where
    child : (j u : ℕ) → Wants i ss j u → Given i ts j u ⊎ New w w' u
    given : (j u : ℕ) → Given i ts j u → Wants i ss j u
    parent : (p : ℕ) → Parent ss p → New w w' p
    apart : (j u p : ℕ) → Wants i ss j u → Parent ss p → p ≢ u
    kept : (k : ℕ) → doc.slot w k ≢ none → doc.slot w' k ≡ doc.slot w k
    same_length : length ss ≡ length ts

  -- What the parent brings: the descriptors that the child inherits are open, and the pipe for errors
  -- is open, above the descriptors of the child, and not one that it inherits.
  pub record Usable (ts : List Target) (e : ℕ) (w : O.World) : Type 0 where
    pub given_open : (j u : ℕ) → Given 0 ts j u → doc.slot w u ≢ none
    pub error_given : (j u : ℕ) → Given 0 ts j u → u ≢ e
    pub error_above : length ts ≤ e
    pub error_open : doc.slot w e ≢ none
