-- ===== src/Connection/Chars.antt =====
-- Reading characters: `processx__connection_find_utf8_chars`, `processx__connection_find_chars`,
-- `processx_connection_read_chars` and `processx_c_connection_read_chars`.
pub mod Find
pub mod Limits
pub mod Served
use processx.Base.{
  ℕ, zero, suc, ◌+◌, ◌-◌, ◌≤◌, ◌<◌, ◌≡◌, refl, Bool, true, false, not, ◌&&◌, ◌||◌, Option, none,
  some, List, [], ◌∷◌, ◌++◌, Result, ok, throw, arith, ltb, leb, ◌==◌, if◌then◌else◌, length, take,
  drop,
}
use processx.Connection.Types.{
  has_zero, embedded_nul, Conn, Fault, invalid_connection, buffer_too_small, Platform, Io, M,
}
use processx.Connection.Read.{connection_read}
use processx.Connection.Bytes.{is_open}
use processx.Connection.Chars.Find.{find_utf8_chars, Span}

module _ (P : Platform) where
  -- `should_read_more`: only if the UTF-8 buffer is empty and the connection is not at its end.
  unfoldable pub read_if_empty : M P ℕ
  read_if_empty (c, w) =
      if not c.is_eof && (length c.utf8 == 0) then connection_read P (c, w) else (ok 0, (c, w))

  -- `maxchars` and `maxbytes` are `none` for -1. The C code leaves `*chars` alone where it
  -- returns early; no caller reads it.
  unfoldable pub find_in : Option ℕ → Option ℕ → Conn → Result Fault Span
  find_in maxchars maxbytes c =
      if (length c.utf8 == 0) || elim maxchars [ none ↦ false | some n ↦ n == 0 ]
      then ok (record { chars = 0; bytes = 0 })
      else find_utf8_chars maxchars maxbytes c.utf8

  -- `processx__connection_find_chars`
  unfoldable pub find_chars : Option ℕ → Option ℕ → M P Span
  unfolding read_if_empty find_in
  find_chars maxchars maxbytes (c, w) =
      if not (is_open c)
      then (throw invalid_connection, (c, w))
      else (let (r, (c', w')) = read_if_empty (c, w) in
          elim r [
            | throw e ↦ (throw e, (c', w'))
            | ok n ↦ (find_in maxchars maxbytes c', (c', w'))
          ])

  -- The characters leave the UTF-8 buffer.
  unfoldable pub leave_buffer : Span → Conn → Conn
  leave_buffer s c = record c { utf8 = drop s.bytes c.utf8 }

  -- They become an R string first, with `mkCharLenCE`, which throws if there is a zero byte.
  unfoldable pub take_string : Result Fault Span × Io P → Result Fault (List ℕ) × Io P
  unfolding leave_buffer has_zero
  take_string (throw e, io) = (throw e, io)
  take_string (ok s, (c, w)) =
      if has_zero (take s.bytes c.utf8)
      then (throw embedded_nul, (c, w))
      else (ok (take s.bytes c.utf8), (leave_buffer s c, w))

  -- They are copied into the caller's buffer.
  unfoldable pub take_span : Result Fault Span × Io P → Result Fault (List ℕ) × Io P
  unfolding leave_buffer
  take_span (throw e, io) = (throw e, io)
  take_span (ok s, (c, w)) = (ok (take s.bytes c.utf8), (leave_buffer s c, w))

  -- `processx_connection_read_chars`
  unfoldable pub read_chars : Option ℕ → M P (List ℕ)
  unfolding find_chars take_string
  read_chars nchars io = take_string (find_chars nchars none io)

  -- `processx_c_connection_read_chars`, for a buffer of `nbyte` bytes
  unfoldable pub c_read_chars : ℕ → M P (List ℕ)
  unfolding find_chars take_span
  c_read_chars nbyte io =
      if ltb nbyte 4
      then (throw buffer_too_small, io)
      else take_span (find_chars none (some nbyte) io)
