-- ===== src/Process/Children/Sweep.antt =====
-- The loop of the SIGCHLD handler: which children leave the list, and what their handles become.
use processx.Base.{false, ℕ, ◌≡◌, true, Option, none, some, List, [], ◌∷◌, ◌==◌}
use processx.Process.Types.{WaitStatus, Handle, Os}
use processx.Process.Status.{exit_code}
use processx.Process.Children.{Child, Handles, Lists, exit_of}

-- What reaping the object `key` with the status `st` does to the handles and the world: nothing if
-- its handle is gone; else the handle gets the status unless it has one, and its wait pipe is closed.
pub record HandleReaped (O : Os) (st : Option WaitStatus) (w w' : O.World) (h h' : Handle)
    : Type 0 where
  -- The world when the status has been collected
  pub between : O.World
  pub collected : h'.collected ≡ true
  pub new_status : h.collected ≡ false → h'.exitcode ≡ exit_code st
  pub old_status : h.collected ≡ true → (h'.exitcode ≡ h.exitcode) × (between ≡ w)
  pub no_pty : h.collected ≡ false → h.pty_child_fd ≡ none → between ≡ (O.clock_gettime w).1
  pub pty_closed :
      (fd : ℕ)
      → h.collected ≡ false
      → h.pty_child_fd ≡ some fd
      → between ≡ O.close fd (O.clock_gettime w).1
  pub no_pipe : h.waitpipe_write ≡ none → w' ≡ between
  pub pipe_closed : (fd : ℕ) → h.waitpipe_write ≡ some fd → w' ≡ O.close fd between
  pub pipe_forgotten : h'.waitpipe_write ≡ none

pub data Reaped (O : Os) (st : Option WaitStatus) (key : ℕ) (hs : Handles) (w : O.World)
    : Handles → O.World → Type 0 where
  no_handle : hs key ≡ none → Reaped O st key hs w hs w
  has_handle :
      {hs' : Handles} {w' : O.World} (h h' : Handle)
      → hs key ≡ some h
      → hs' key ≡ some h'
      → ((k : ℕ) → (k == key) ≡ false → hs' k ≡ hs k)
      → HandleReaped O st w w' h h'
      → Reaped O st key hs w hs' w'

-- A run over a list of children, with the handles and the world before and after it. The list is dealt
-- out, in its order, to the children that stay, for each of which `waitpid` says, in the world that the
-- run has come to, that it runs or failed, and to the ones that go, which `waitpid` reaps or does not
-- know, and whose objects are reaped with the status it gives.
pub data Swept (O : Os)
    : List Child → Handles → O.World → List Child → List Child → Handles → O.World → Type 0 where
  nothing : {hs : Handles} {w : O.World} → Swept O [] hs w [] [] hs w
  stays :
      {c : Child} {cs kept gone : List Child} {hs hs' : Handles} {w w' : O.World}
      → exit_of (O.waitpid true c.pid w).0 ≡ none
      → Swept O cs hs (O.waitpid true c.pid w).1 kept gone hs' w'
      → Swept O (c ∷ cs) hs w (c ∷ kept) gone hs' w'
  goes :
      {c : Child} {cs kept gone : List Child} {hs hs1 hs' : Handles} {w w1 w' : O.World}
      (st : Option WaitStatus)
      → exit_of (O.waitpid true c.pid w).0 ≡ some st
      → Reaped O st c.weak_status hs (O.waitpid true c.pid w).1 hs1 w1
      → Swept O cs hs1 w1 kept gone hs' w'
      → Swept O (c ∷ cs) hs w kept (c ∷ gone) hs' w'

-- The nodes `gone`, put in front of a list one after the other.
abbrev pub pushed : List Child → List Child → List Child
pushed [] free = free
pushed (c ∷ cs) free = pushed cs (c ∷ free)

-- Nothing more is to be read for an object: its handle is gone, or it has its status and no wait
-- pipe.
abbrev pub Settled : Option Handle → Type 0
Settled none = Unit
Settled (some h) = (h.collected ≡ true) × (h.waitpipe_write ≡ none)

-- Every one of the objects of some children is settled.
abbrev pub AllSettled : List Child → Handles → Type 0
AllSettled [] hs = Unit
AllSettled (c ∷ cs) hs = Settled (hs c.weak_status) × AllSettled cs hs

module _ (O : Os) where
  -- What the loop does to its arguments.
  pub record Sweep (cs free : List Child) (hs : Handles) (w : O.World) (l : Lists) (hs' : Handles)
      (w' : O.World) : Type 0 where
    pub gone : List Child
    pub swept : Swept O cs hs w l.children gone hs' w'
    pub freed : l.free ≡ pushed gone free
    pub settled : AllSettled gone hs'
    pub still_settled : (k : ℕ) → Settled (hs k) → Settled (hs' k)
