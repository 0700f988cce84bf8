-- ===== src/Connection/Life.antt =====
-- Opening, closing and accepting connections: `processx_c_connection_create`, `_close`,
-- `_is_closed`, `_destroy`, the two ends of a socket, and the queries from R.
use processx.Base.{
  ℕ, Bool, true, false, not, ◌&&◌, ◌||◌, Option, none, some, List, [], ◌∷◌, Result, ok, throw, ◌==◌,
  if◌then◌else◌, length,
}
use processx.Connection.Types.{
  Conn, Fault, not_a_socket, not_listening, accept_error, FileType, socket, async_pipe, SocketState,
  listen, connected_server, connected_client, Platform, Io, M,
}
use processx.Connection.Bytes.{is_socket, is_listening}

-- "binary"
abbrev pub binary : List ℕ
binary = b'b' ∷ b'i' ∷ b'n' ∷ b'a' ∷ b'r' ∷ b'y' ∷ []

-- `strcmp(a, b) == 0`
unfoldable pub same_text : List ℕ → List ℕ → Bool
same_text [] [] = true
same_text (a ∷ as') (b ∷ bs) = (a == b) && same_text as' bs
same_text _ _ = false

-- `processx_c_connection_create`; an empty encoding counts as none, and "binary" as raw mode.
-- Running out of memory is not modelled.
unfoldable pub c_create : Option ℕ → FileType → List ℕ → Option (List ℕ) → Conn
unfolding same_text
c_create os_handle type encoding filename =
    let none_given = length encoding == 0 in
    let raw = not none_given && same_text encoding binary in
    record {
      type = type;
      is_closed = false;
      is_eof = false;
      is_eof_raw = false;
      close_on_destroy = true;
      encoding = if none_given || raw then none else some encoding;
      iconv_ctx = none;
      raw_mode = raw;
      handle = os_handle;
      buffer_allocated = 0;
      buffer = [];
      utf8_allocated = 0;
      utf8 = [];
      filename = filename;
      state = none;
    }

-- `processx_connection_create_fd`
unfoldable pub create_fd : ℕ → List ℕ → Bool → Conn
unfolding c_create
create_fd fd encoding close' =
    let con = c_create (some fd) async_pipe encoding none in
    if close' then con else record con { close_on_destroy = false }

-- The ends of `processx_connection_create_socket` and `processx_connection_connect_socket`: the
-- connection around the socket that the system calls made.
unfoldable pub server_socket : ℕ → List ℕ → List ℕ → Conn
unfolding c_create
server_socket fd encoding filename = record (c_create (some fd) socket encoding (some filename)) {
  state = some listen;
}

unfoldable pub client_socket : ℕ → List ℕ → List ℕ → Conn
unfolding c_create
client_socket fd encoding filename = record (c_create (some fd) socket encoding (some filename)) {
  state = some connected_client;
}

-- `processx_connection_socket_state`
unfoldable pub socket_state : Conn → Result Fault (Option SocketState)
socket_state c = if is_socket c.type then ok c.state else throw not_a_socket

module _ (P : Platform) where
  -- `processx_c_connection_close`
  unfoldable pub c_close : Io P → Io P
  c_close (c, w) = (
    record c { handle = none; is_closed = true },
    elim c.handle [ none ↦ w | some fd ↦ P.close fd w ],
  )

  abbrev pub close_converter : Option ℕ → P.World → P.World
  close_converter none w = w
  close_converter (some ctx) w = P.riconv_close ctx w

  -- `processx_c_connection_destroy`: what is left is the world, and the handle that stays open.
  unfoldable pub c_destroy : Io P → Option ℕ × P.World
  unfolding c_close
  c_destroy (c, w) =
      let (c', w') = if c.close_on_destroy then c_close (c, w) else (c, w) in
      (c'.handle, close_converter c'.iconv_ctx w')

  -- The rest of `processx_connection_accept_socket` on Unix, after the tests: the listening
  -- socket is closed, and the connection goes on with the accepted one.
  unfoldable pub take_over : Option ℕ × P.World → M P (Unit {0})
  take_over (none, w') (c, w) = (throw accept_error, (c, w'))
  take_over (some newfd, w') (c, w) =
      let w1 = P.nonblock_fcntl newfd true w' in
      (
        ok tt,
        (
          record c { handle = some newfd; state = some connected_server },
          elim c.handle [ none ↦ w1 | some fd ↦ P.close fd w1 ],
        ),
      )

  -- `processx_connection_accept_socket`
  unfoldable pub accept_socket : M P (Unit {0})
  unfolding take_over
  accept_socket (c, w) =
      if not (is_socket c.type)
      then (throw not_a_socket, (c, w))
      else if not (is_listening c.state)
      then (throw not_listening, (c, w))
      else take_over (P.accept c.handle w) (c, w)
