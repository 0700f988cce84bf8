-- ===== src/Connection/Poll.antt =====
-- Polling connections, in src/processx-connection.c: `processx_i_pre_poll_func_connection`,
-- `processx_c_connection_poll` and `processx__interruptible_poll`.
pub mod Answers
pub mod Ready
pub mod Statuses
mod Tests
pub mod Rounds
use processx.Base.{
  ℕ, zero, suc, ◌+◌, ◌-◌, Bool, true, false, not, ◌&&◌, ◌||◌, Option, none, some, List, [], ◌∷◌,
  ◌++◌, Result, ok, throw, map, ltb, ◌==◌, if◌then◌else◌, length, get_or, set, replicate,
}
use processx.Connection.Types.{
  Conn, FileType, socket, SocketState, listen, Fault, poll_failed, interrupted, no_fuel, Platform,
  Io, M,
}
use processx.Connection.Convert.{to_utf8}

-- PXNOPIPE, PXREADY, PXTIMEOUT, PXCLOSED, PXSILENT, PXEVENT and PXCONNECT
pub data Event : Type 0 where
  nopipe is_ready is_timeout is_closed silent some_event is_connect : Event

-- The three vectors of file descriptors of a curl pollable.
pub record Fds : Type 0 where
  pub reads : List ℕ
  pub writes : List ℕ
  pub both : List ℕ

-- `processx_pollable_t`, by its pre-poll function: a connection (`none` for a null pointer, and
-- otherwise its number), or file descriptors of curl.
pub data Pollable : Type 0 where
  connection : Option ℕ → Pollable
  curl : Fds → Pollable

-- What a pre-poll function returns: an event, PXHANDLE with the handle, or PXSELECT.
pub data PrePoll : Type 0 where
  now : Event → PrePoll
  handle : Option ℕ → PrePoll
  select : Fds → PrePoll

-- POLLIN and POLLOUT in `events`
pub record Request : Type 0 where
  pub fd : Option ℕ
  pub input : Bool
  pub output : Bool

-- The bits of `revents`. `pollerr` and others are not read by the code.
pub record Revents : Type 0 where
  pub pollnval : Bool
  pub pollin : Bool
  pub pollhup : Bool
  pub pollout : Bool
  pub pollerr : Bool

-- What `poll(2)` returns: -1, 0, or a positive number with the revents of each descriptor.
pub data Polled : Type 0 where
  poll_error : Polled
  timed_out : Polled
  polled : List Revents → Polled

-- `processx__poll_decode`
pub poll_decode : Revents → Event
poll_decode r =
    if r.pollnval
    then is_closed
    else if r.pollin || r.pollhup || r.pollout
    then is_ready
    else silent

-- `ev & (POLLNVAL | POLLIN | POLLHUP | POLLOUT)`
abbrev pub has_event : Revents → Bool
has_event r = r.pollnval || r.pollin || r.pollhup || r.pollout

abbrev pub ready_count : Event → ℕ
ready_count is_ready = 1
ready_count _ = 0

-- What the second pass asks the system for, and the event that it stores for the time being.
pub requests : PrePoll → List Request
requests (now e) = []
requests (handle fd) = record { fd = fd; input = true; output = false } ∷ []
requests (select f) =
    map (λ (k : ℕ). record { fd = some k; input = true; output = false }) f.reads
    ++ (map (λ (k : ℕ). record { fd = some k; input = false; output = true }) f.writes
        ++ map (λ (k : ℕ). record { fd = some k; input = true; output = true }) f.both)

pub stored : PrePoll → Event
stored (now e) = e
stored (handle fd) = silent
stored (select f) = silent

-- `fds`, `ptr`, the events of the pollables and `hasdata`, after the second pass
pub record Collected : Type 0 where
  pub fds : List Request
  pub ptr : List ℕ
  pub events : List Event
  pub hasdata : ℕ

-- The second pass, from pollable number `i` on
pub collect : ℕ → List PrePoll → Collected
unfolding requests stored
collect i [] = record { fds = []; ptr = []; events = []; hasdata = 0 }
collect i (p ∷ ps) =
    let rest = collect (i + 1) ps in
    record {
      fds = requests p ++ rest.fds;
      ptr = replicate (length (requests p)) i ++ rest.ptr;
      events = stored p ∷ rest.events;
      hasdata = ready_count (stored p) + rest.hasdata;
    }

abbrev pub is_select : PrePoll → Bool
is_select (select f) = true
is_select _ = false

abbrev pub is_silent : Event → Bool
is_silent silent = true
is_silent _ = false

abbrev pub is_ready_event : Event → Bool
is_ready_event is_ready = true
is_ready_event _ = false

-- One descriptor after the poll, of the pollable number `i` : its event and `hasdata`. `listens`
-- is whether it is a socket that listens.
pub answer_fd : Bool → Bool → Revents → Event → ℕ → Event × ℕ
unfolding poll_decode
answer_fd selects listens r old hasdata =
    if selects
    then (if is_silent old && has_event r then some_event else old, hasdata)
    else if is_ready_event (poll_decode r)
    then (if listens then is_connect else is_ready, hasdata + 1)
    else (poll_decode r, hasdata)

-- The last loop over `fds` and `ptr`, which writes the events in place
pub answer_loop :
    List PrePoll → (ℕ → Bool) → List ℕ → List Revents → List Event → ℕ → List Event × ℕ
unfolding answer_fd
answer_loop pres listens (i ∷ ptr) (r ∷ rs) events hasdata =
    let (e, hasdata') =
      answer_fd (is_select (get_or pres i (now silent))) (listens i) r (get_or events i silent)
        hasdata in
    answer_loop pres listens ptr rs (set events i e) hasdata'
answer_loop pres listens _ _ events hasdata = (events, hasdata)

-- The loop over `ptr` after a timeout
pub timeout_loop : List ℕ → List Event → List Event
timeout_loop [] events = events
timeout_loop (i ∷ ptr) events = timeout_loop ptr (set events i is_timeout)

-- What follows the poll: the events of all pollables, and `hasdata`
pub finish_poll : List PrePoll → (ℕ → Bool) → Collected → Polled → Result Fault (List Event × ℕ)
unfolding answer_loop timeout_loop
finish_poll pres listens c poll_error = throw poll_failed
finish_poll pres listens c timed_out =
    ok (if c.hasdata == 0 then timeout_loop c.ptr c.events else c.events, c.hasdata)
finish_poll pres listens c (polled rs) = ok (answer_loop pres listens c.ptr rs c.events c.hasdata)

-- `ccon->type == PROCESSX_FILE_TYPE_SOCKET && ccon->state == PROCESSX_SOCKET_LISTEN`
abbrev pub is_server_type : FileType → Bool
is_server_type socket = true
is_server_type _ = false

abbrev pub is_listen : Option SocketState → Bool
is_listen (some listen) = true
is_listen _ = false

abbrev pub conn_listens : Conn → Bool
conn_listens c = is_server_type c.type && is_listen c.state

-- The connections, by number.
abbrev pub Conns : Type 0
Conns = ℕ → Conn

pub put_conn : ℕ → Conn → Conns → Conns
put_conn key c cs k = if k == key then c else cs k

abbrev pub pollable_listens : List Pollable → Conns → ℕ → Bool
pollable_listens pollables cs i = elim (get_or pollables i (connection none)) [
  | connection (some key) ↦ conn_listens (cs key)
  | connection none ↦ false
  | curl f ↦ false
]
