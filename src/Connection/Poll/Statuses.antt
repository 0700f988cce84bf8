-- ===== src/Connection/Poll/Statuses.antt =====
-- `processx_poll` of src/poll.c: from the list that R gives to pollables, and from their events
-- to the list that R gets. (`poll_idx` is read on Windows only.)
use processx.Base.{ℕ, suc, ◌+◌, ◌*◌, ◌≡◌, Option, List, [], ◌∷◌, ◌++◌, length, take, drop}
use processx.Connection.Poll.{Event, Fds, Pollable, connection, curl}

-- An element of `statuses` by its type: a process with its output, its error and its poll
-- connection, a connection, or descriptors of curl.
pub data Status : Type 0 where
  a_process : Option ℕ → Option ℕ → Option ℕ → Status
  a_connection : Option ℕ → Status
  a_curl : Fds → Status

-- `num_proc`
unfoldable pub num_proc : List Status → ℕ
num_proc [] = 0
num_proc (a_process o e p ∷ ss) = suc (num_proc ss)
num_proc (_ ∷ ss) = num_proc ss

-- How many pollables `num_poll` makes room for
unfoldable pub num_poll : List Status → ℕ
unfolding num_proc
num_poll ss = length ss + num_proc ss * 2

-- The pollables of one element
pub pollables_of : Status → List Pollable
pollables_of (a_process o e p) = connection o ∷ connection e ∷ connection p ∷ []
pollables_of (a_connection c) = connection c ∷ []
pollables_of (a_curl f) = curl f ∷ []

-- The first loop
pub all_pollables : List Status → List Pollable
unfolding pollables_of
all_pollables [] = []
all_pollables (s ∷ ss) = pollables_of s ++ all_pollables ss

-- The last loop: each element of the result takes its events.
pub results : List Status → List Event → List (List Event)
unfolding pollables_of
results [] es = []
results (s ∷ ss) es = let k = length (pollables_of s) in take k es ∷ results ss (drop k es)

-- The lists of the result, one after the other
abbrev pub joined : List (List Event) → List Event
joined [] = []
joined (es ∷ ess) = es ++ joined ess

-- Every element's list has one event for each of its pollables.
abbrev pub Sized : List Status → List (List Event) → Type 0
Sized [] [] = Unit
Sized (s ∷ ss) (es ∷ ess) = (length es ≡ length (pollables_of s)) × Sized ss ess
Sized _ _ = ⊥
