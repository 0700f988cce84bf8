-- ===== src/Connection/Poll/Tests.antt =====
-- Polls of three pollables: a connection, a null pointer, and two descriptors of curl.
use processx.Base.{ℕ, ◌≡◌, refl, Bool, true, false, none, some, List, [], ◌∷◌}
use processx.Connection.Sample.{source, source-Documented, busy, busy-IsValid}
use processx.Connection.Poll.{
  Event, nopipe, is_ready, silent, some_event, Fds, PrePoll, now, handle, select, Revents, requests,
  poll_decode,
}
use processx.Connection.Poll.Rounds.{pre_poll}
use processx.Connection.Poll.Answers.{answers}
use processx.Connection.Poll.Statuses.{Status, a_process, a_curl}
use processx.Connection.Poll.Ready.{Answered, pre_poll-Answered}

abbrev quiet : Revents
quiet = record {
  pollnval = false;
  pollin = false;
  pollhup = false;
  pollout = false;
  pollerr = false;
}

-- Every descriptor is readable.
abbrev readable : Revents
readable = record quiet { pollin = true }

abbrev curl_fds : Fds
curl_fds = record { reads = 8 ∷ []; writes = 9 ∷ []; both = [] }

abbrev three : List PrePoll
three = handle (some 5) ∷ now nopipe ∷ select curl_fds ∷ []

abbrev no_socket : ℕ → Bool
no_socket i = false

answers_of_three :
    answers no_socket 0 three (readable ∷ quiet ∷ readable ∷ [])
    ≡ is_ready ∷ nopipe ∷ some_event ∷ []
unfolding requests poll_decode
answers_of_three = refl

pre_poll-Answered_example : Answered source source-Documented busy (pre_poll source (busy, []))
pre_poll-Answered_example = pre_poll-Answered source source-Documented busy [] busy-IsValid

-- A process with its output and its error, and a descriptor of curl
abbrev statuses : List Status
statuses = a_process (some 0) (some 1) none ∷ a_curl curl_fds ∷ []

abbrev events : List Event
events = is_ready ∷ silent ∷ nopipe ∷ some_event ∷ []
