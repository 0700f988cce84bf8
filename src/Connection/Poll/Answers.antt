-- ===== src/Connection/Poll/Answers.antt =====
-- What `processx_c_connection_poll` answers, pollable by pollable.
use processx.Base.{
  ℕ, ◌+◌, Bool, false, ◌||◌, List, [], ◌∷◌, ◌==◌, if◌then◌else◌, length, take, drop,
}
use processx.Connection.Poll.{
  Event, is_ready, is_timeout, silent, some_event, is_connect, PrePoll, now, handle, select,
  Revents, poll_decode, has_event, ready_count, requests, stored, is_ready_event, answer_fd,
}

abbrev any_event : List Revents → Bool
any_event [] = false
any_event (r ∷ rs) = has_event r || any_event rs

-- The event of one pollable after its pre-poll and the poll of its own descriptors.
abbrev pub answer : Bool → PrePoll → List Revents → Event
answer listens (now e) rs = e
answer listens (handle fd) [] = silent
answer listens (handle fd) (r ∷ rs) =
    if is_ready_event (poll_decode r)
    then (if listens then is_connect else is_ready)
    else poll_decode r
answer listens (select f) rs = if any_event rs then some_event else silent

-- How much it adds to the number of pollables with data, besides what was known before.
abbrev pub found : PrePoll → List Revents → ℕ
found (handle fd) (r ∷ rs) = ready_count (poll_decode r)
found _ rs = 0

-- All of them; `i` is the number of the first, and `rs` holds the revents of one after the other.
abbrev pub answers : (ℕ → Bool) → ℕ → List PrePoll → List Revents → List Event
answers listens i [] rs = []
answers listens i (p ∷ ps) rs =
    let k = length (requests p) in
    answer (listens i) p (take k rs) ∷ answers listens (i + 1) ps (drop k rs)

abbrev pub found_all : List PrePoll → List Revents → ℕ
found_all [] rs = 0
found_all (p ∷ ps) rs =
    let k = length (requests p) in found p (take k rs) + found_all ps (drop k rs)

-- One pollable's descriptors, one after the other.
fold_fds : Bool → Bool → List Revents → Event → ℕ → Event × ℕ
fold_fds selects listens [] e n = (e, n)
fold_fds selects listens (r ∷ rs) e n =
    let (e', n') = answer_fd selects listens r e n in fold_fds selects listens rs e' n'

-- After a timeout: the pollables that were waited for.
abbrev pub timeouts : List PrePoll → List Event
timeouts [] = []
timeouts (p ∷ ps) = (if length (requests p) == 0 then stored p else is_timeout) ∷ timeouts ps
