-- ===== src/Connection/Line.antt =====
-- `processx_c_connection_read_line`: one line for a C caller.
use processx.Base.{
  ℕ, ◌+◌, ◌-◌, Bool, true, Option, none, some, List, [], ok, throw, ltb, ◌==◌, if◌then◌else◌,
  length, take, drop, get_or,
}
use processx.Connection.Types.{Conn, out_of_bounds, Platform, M}
use processx.Connection.Lines.{carriage_return, unfinished_line, read_until_newline}

-- -1 at the end, 0 if no line is there yet, and otherwise the line in the caller's buffer, whose
-- size is `*linecapp` afterwards.
pub data Answer : Type 0 where
  at_end : Answer
  not_yet : Answer
  line : List ℕ → ℕ → Answer

-- `*linecapp` afterwards: `none` is a null `*linep`, which is allocated.
abbrev pub new_cap : Option ℕ → ℕ → ℕ
new_cap none len = len + 1
new_cap (some cap) len = if ltb cap (len + 1) then len + 1 else cap

-- The line of `len` bytes is copied and leaves the buffer.
unfoldable pub copy_line : Option ℕ → Bool → ℕ → Conn → Answer × Conn
copy_line cap eof len c = (
  line (take len c.utf8) (new_cap cap len),
  record c { utf8 = if eof then [] else drop (len + 1) c.utf8 },
)

module _ (P : Platform) where
  -- A line that ends at `end`; a carriage return before the end is left off.
  unfoldable pub serve_line : Option ℕ → Bool → ℕ → M P Answer
  unfolding copy_line
  serve_line cap eof end (c, w) =
      if end == 0
      then (throw out_of_bounds, (c, w))
      else (let len = if get_or c.utf8 (end - 1) 0 == carriage_return then end - 1 else end in
          let (a, c') = copy_line cap eof len c in (ok a, (c', w)))

  unfoldable pub c_read_line : ℕ → Option ℕ → M P Answer
  unfolding serve_line
  c_read_line fuel cap (c, w) =
      if c.is_eof
      then (ok at_end, (c, w))
      else (let (r, (c', w')) = read_until_newline P fuel (c, w) in
          elim r [
            | throw e ↦ (throw e, (c', w'))
            | ok none ↦
                if unfinished_line c'
                then serve_line cap true (length c'.utf8) (c', w')
                else (ok not_yet, (c', w'))
            | ok (some i) ↦ serve_line cap (unfinished_line c') i (c', w')
          ])
