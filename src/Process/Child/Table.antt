-- ===== src/Process/Child/Table.antt =====
-- The table of file descriptors, and what the system calls are documented to do with it.
use processx.Base.{ℕ, ◌≤◌, ◌≡◌, ◌≢◌, Bool, true, false, Option, none, some, List, [], ◌∷◌, ◌+◌, ◌⊎◌}
use processx.Process.Child.{OpenMode, Stdio, is_merged, FdOs}

-- A slot is empty, or it has an open file and the flag that closes it when a program starts.
abbrev pub Slot : Type 0
Slot = Option (ℕ × Bool)

-- The first descriptor has the open file of the second, and stays open when a program starts.
abbrev pub Shares : Slot → Slot → Type 0
Shares old new = (file : ℕ) × (flag : Bool) × (old ≡ some (file, flag)) × (new ≡ some (file, false))

pub record Documented (O : FdOs) : Type 0 where
  pub slot : O.World → ℕ → Slot
  pub open_ok :
      (path : List ℕ) (mode : OpenMode) (w : O.World) (f : ℕ)
      → (O.open_file path mode w).0 ≡ some f
      → (slot w f ≡ none)
        × (slot (O.open_file path mode w).1 f ≢ none)
        × ((k : ℕ) → k ≢ f → slot (O.open_file path mode w).1 k ≡ slot w k)
  pub dup2_ok :
      (u fd : ℕ) (w : O.World) (f : ℕ)
      → (O.dup2 u fd w).0 ≡ some f
      → Shares (slot w u) (slot (O.dup2 u fd w).1 fd)
        × ((k : ℕ) → k ≢ fd → slot (O.dup2 u fd w).1 k ≡ slot w k)
  pub dup_from_ok :
      (u least : ℕ) (w : O.World) (f : ℕ)
      → (O.dup_from u least w).0 ≡ some f
      → (least ≤ f)
        × (slot w f ≡ none)
        × Shares (slot w u) (slot (O.dup_from u least w).1 f)
        × ((k : ℕ) → k ≢ f → slot (O.dup_from u least w).1 k ≡ slot w k)
  pub close_all :
      (c : ℕ) (w : O.World)
      → (slot (O.close c w).1 c ≡ none) × ((k : ℕ) → k ≢ c → slot (O.close c w).1 k ≡ slot w k)
  pub limit : ℕ
  pub limit_empty : (k : ℕ) (w : O.World) → limit ≤ k → slot w k ≡ none
  pub close_empty : (k : ℕ) (w : O.World) → slot w k ≡ none → (O.close k w).0 ≡ false
  pub cloexec_clear :
      (u : ℕ) (w : O.World)
      → (slot w u ≢ none → Shares (slot w u) (slot (O.cloexec_fcntl u false w) u))
        × ((k : ℕ) → k ≢ u → slot (O.cloexec_fcntl u false w) k ≡ slot w k)
  pub nonblock_same :
      (u k : ℕ) (b : Bool) (w : O.World) → slot (O.nonblock_fcntl u b w) k ≡ slot w k

-- The connections `ss` stand for the descriptors from `fd` on. The child's end of `i` is `u`.
abbrev pub Wants : ℕ → List Stdio → ℕ → ℕ → Type 0
Wants fd [] i u = ⊥
Wants fd (s ∷ ss) i u = ((i ≡ fd) × (s.child_end ≡ some u)) ⊎ Wants (fd + 1) ss i u

-- `p` is a parent's end.
abbrev pub Parent : List Stdio → ℕ → Type 0
Parent [] p = ⊥
Parent (s ∷ ss) p = (s.parent_end ≡ some p) ⊎ Parent ss p

-- The standard error is to go where the standard output goes.
abbrev pub Merged : ℕ → List Stdio → Type 0
Merged fd [] = ⊥
Merged fd (s ∷ ss) =
    ((fd ≡ 2) × (s.child_end ≡ none) × (is_merged s.output ≡ true)) ⊎ Merged (fd + 1) ss
