-- ===== src/Connection/Bytes.antt =====
-- `processx_connection_read_bytes` and the writing of bytes.
pub mod Stream
use processx.Base.{
  ℕ, zero, suc, ◌+◌, ◌-◌, ◌≤◌, ◌<◌, ◌≡◌, refl, Bool, true, false, not, ◌&&◌, ◌||◌, Option, none,
  some, List, [], ◌∷◌, ◌++◌, Result, ok, throw, arith, ltb, ◌==◌, if◌then◌else◌, length, take, drop,
}
use processx.Connection.Types.{
  Conn, Fault, invalid_connection, write_error, not_accepted, FileType, socket, SocketState, listen,
  listen_pipe_ready, WriteOutcome, wrote, would_block, write_failed, Platform, Io, M,
}
use processx.Connection.Read.{connection_read}

-- `PROCESSX_CHECK_VALID_CONN`: the test of the handle.
abbrev pub is_open : Conn → Bool
is_open c = elim c.handle [ none ↦ false | some fd ↦ true ]

abbrev pub is_socket : FileType → Bool
is_socket socket = true
is_socket _ = false

-- `state == PROCESSX_SOCKET_LISTEN || state == PROCESSX_SOCKET_LISTEN_PIPE_READY`
abbrev pub is_listening : Option SocketState → Bool
is_listening (some listen) = true
is_listening (some listen_pipe_ready) = true
is_listening _ = false

-- How many bytes to serve: `none` is a negative `nbytes`, which sets no limit.
abbrev pub up_to : Option ℕ → ℕ → ℕ
up_to none n = n
up_to (some limit) n = if ltb limit n then limit else n

-- The end of `read_bytes`: the flags, and the bytes that leave the buffer.
unfoldable pub serve_bytes : Option ℕ → Conn → List ℕ × Conn
serve_bytes nbytes c =
    let c' = if c.is_eof_raw && (length c.buffer == 0) then record c { is_eof = true } else c in
    let to_read = up_to nbytes (length c'.buffer) in
    (take to_read c'.buffer, record c' { buffer = drop to_read c'.buffer })

module _ (P : Platform) where
  -- The data are read if there are none and the source has not ended. The number that
  -- `processx__connection_read` returns is not used.
  unfoldable pub fill : M P ℕ
  fill (c, w) =
      if (length c.buffer == 0) && not c.is_eof_raw
      then connection_read P (c, w)
      else (ok 0, (c, w))

  unfoldable pub serve_after : Option ℕ → Result Fault ℕ × Io P → Result Fault (List ℕ) × Io P
  serve_after nbytes (throw e, io) = (throw e, io)
  serve_after nbytes (ok n, (c, w)) = let (bs, c') = serve_bytes nbytes c in (ok bs, (c', w))

  unfoldable pub read_bytes : Option ℕ → M P (List ℕ)
  unfolding fill serve_after serve_bytes
  read_bytes nbytes (c, w) =
      if is_open c
      then serve_after nbytes (fill (record c { raw_mode = true }, w))
      else (throw invalid_connection, (c, w))

  -- The outcome of `write(2)`.
  unfoldable pub written : WriteOutcome → Result Fault ℕ
  written (wrote n) = ok n
  written would_block = ok 0
  written write_failed = throw write_error

  -- `processx_c_connection_write_bytes`; the SIGPIPE handler around the call is left out.
  unfoldable pub c_write_bytes : List ℕ → M P ℕ
  unfolding written
  c_write_bytes data' (c, w) =
      if not (is_open c)
      then (throw invalid_connection, (c, w))
      else if is_socket c.type && is_listening c.state
      then (throw not_accepted, (c, w))
      else (let (o, w') = P.write c.handle data' w in (written o, (c, w')))

  -- `processx_connection_write_bytes` returns the bytes that were not written.
  unfoldable pub write_bytes : List ℕ → M P (List ℕ)
  unfolding c_write_bytes
  write_bytes data' io =
      let (r, io') = c_write_bytes data' io in
      elim r [ ok n ↦ (ok (drop n data'), io') | throw e ↦ (throw e, io') ]
