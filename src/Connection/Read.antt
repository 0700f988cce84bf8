-- ===== src/Connection/Read.antt =====
-- `processx__connection_read`: the only function that reads from the source of the data.
use processx.Base.{
  ℕ, ◌-◌, ◌*◌, true, not, ◌&&◌, Option, none, some, [], ◌++◌, ok, throw, ltb, ◌==◌, if◌then◌else◌,
  length,
}
use processx.Connection.Types.{
  Conn, read_error, ReadOutcome, bytes, at_eof, again, io_error, failed, Platform, M,
}
use processx.Connection.Convert.{to_utf8}

abbrev pub buffer_size : ℕ
buffer_size = 64 * 1024

-- `processx__connection_alloc`
unfoldable pub alloc : Conn → Conn
alloc c = record c {
  buffer = [];
  buffer_allocated = buffer_size;
  utf8 = [];
  utf8_allocated = buffer_size;
}

-- `if (!ccon->buffer) processx__connection_alloc(ccon)`
unfoldable pub with_buffer : Conn → Conn
unfolding alloc
with_buffer c = if c.buffer_allocated == 0 then alloc c else c

-- Nothing to read and nothing to convert.
unfoldable pub mark_end : Conn → Conn
mark_end c = if length c.utf8 == 0 then record c { is_eof = true } else c

-- The end of the source: the connection is at its end if nothing is left in the buffers.
unfoldable pub end_of_source : Conn → Conn
end_of_source c =
    if (length c.utf8 == 0) && (length c.buffer == 0)
    then record c { is_eof_raw = true; is_eof = true }
    else record c { is_eof_raw = true }

-- What the raw buffer and the flags become after `read`; `none` is a proper error.
unfoldable pub after_read : ReadOutcome → Conn → Option Conn
unfolding end_of_source
after_read (bytes b) c = some (record c { buffer = c.buffer ++ b })
after_read at_eof c = some (end_of_source c)
after_read again c = some c
after_read io_error c = some (end_of_source c)
after_read failed c = none

module _ (P : Platform) where
  -- After the read: convert, unless in raw mode or if there is nothing to convert.
  unfoldable pub convert_if_text : M P ℕ
  convert_if_text (c, w) =
      if not c.raw_mode && ltb 0 (length c.buffer)
      then to_utf8 P (c, w)
      else (ok (length c.buffer), (c, w))

  unfoldable pub read_source : M P ℕ
  unfolding after_read convert_if_text
  read_source (c, w) =
      let (r, w') = P.read c.handle (c.buffer_allocated - length c.buffer) w in
      elim (after_read r c) [
        | none ↦ (throw read_error, (c, w'))
        | some c' ↦ convert_if_text (c', w')
      ]

  -- If the raw buffer is full, only the conversion can go on.
  unfoldable pub read_more : M P ℕ
  unfolding read_source
  read_more (c, w) =
      if c.buffer_allocated - length c.buffer == 0 then to_utf8 P (c, w) else read_source (c, w)

  unfoldable pub connection_read : M P ℕ
  unfolding with_buffer read_more mark_end
  connection_read (c, w) =
      if c.is_eof_raw && (length c.buffer == 0)
      then (ok 0, (mark_end c, w))
      else read_more (with_buffer c, w)
