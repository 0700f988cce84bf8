-- ===== src/Connection/Tests.antt =====
-- Runs of the connection functions against a source that is given as a list of bytes.
use processx.Base.{ℕ, ◌≡◌, ◌≢◌, refl, false, none, some, List, [], ◌∷◌, ok, throw, arith}
use processx.Connection.Types.{out_of_bounds}
use processx.Connection.Valid.{ReturnsKept, to_utf8-Kept}
use processx.Connection.Valid.Read.{ReadDone, connection_read-ReadDone}
use processx.Connection.Sample.{source, source-Documented, busy, busy-IsValid}
use processx.Connection.Convert.{to_utf8}
use processx.Connection.Read.{connection_read}
use processx.Connection.Bytes.{read_bytes}
use processx.Connection.Bytes.Stream.{Serves, read_bytes_buffered}
use processx.Connection.Chars.{read_chars}
use processx.Connection.Chars.Find.{find_utf8_chars}
use processx.Connection.Chars.Limits.{Counted, find_utf8_chars-Counted}
use processx.Connection.Chars.Served.{CharsServed, read_chars-CharsServed}
use processx.Connection.Lines.{search, find_newline, read_until_newline, look}
use processx.Connection.Lines.Blind.{read_until_newline_blind}
use processx.Connection.Lines.First.{NoNewline, IsFirst, find_newline-IsFirst}
use processx.Connection.Line.{line, c_read_line}

to_utf8-Kept_example : ReturnsKept source source-Documented busy (to_utf8 source (busy, []))
to_utf8-Kept_example = to_utf8-Kept source source-Documented busy [] busy-IsValid

connection_read-ReadDone_example :
    ReadDone source source-Documented busy (connection_read source (busy, b'x' ∷ []))
connection_read-ReadDone_example =
    connection_read-ReadDone source source-Documented busy (b'x' ∷ []) busy-IsValid

read_bytes_buffered_example :
    Serves source (some 1) busy (read_bytes source (some 1) (busy, [])) (b'h' ∷ b'i' ∷ []) false []
read_bytes_buffered_example = read_bytes_buffered source (some 1) busy [] refl refl

find_utf8_chars-Counted_example :
    Counted
      (some 1)
      none
      (0xc3 ∷ 0xa9 ∷ b'x' ∷ [])
      (record { chars = 0; bytes = 0 })
      (find_utf8_chars (some 1) none (0xc3 ∷ 0xa9 ∷ b'x' ∷ []))
find_utf8_chars-Counted_example = find_utf8_chars-Counted (some 1) none (0xc3 ∷ 0xa9 ∷ b'x' ∷ [])

-- The two bytes of "é" are one character.
one_char :
    find_utf8_chars (some 1) none (0xc3 ∷ 0xa9 ∷ b'x' ∷ []) ≡ ok (record { chars = 1; bytes = 2 })
unfolding find_utf8_chars
one_char = refl

read_chars-CharsServed_example : CharsServed source busy [] (read_chars source (some 2) (busy, []))
read_chars-CharsServed_example =
    read_chars-CharsServed source (some 2) busy [] refl (λ e. absurd (omega arith))

-- An empty line makes `c_read_line` look at the byte before the buffer.
empty_line :
    (c_read_line source 5 none (record busy { utf8 = 10 ∷ b'b' ∷ [] }, [])).0 ≡ throw out_of_bounds
unfolding c_read_line read_until_newline search look
empty_line = refl

-- A carriage return leaves its newline in the buffer.
crlf_line :
    (c_read_line source 5 none (record busy { utf8 = b'a' ∷ 13 ∷ 10 ∷ b'b' ∷ [] }, []))
    ≡ (ok (line (b'a' ∷ []) 2), (record busy { utf8 = 10 ∷ b'b' ∷ [] }, []))
unfolding c_read_line read_until_newline search look
crlf_line = refl

-- "a", a newline and "b"
abbrev two_lines : List ℕ
two_lines = b'a' ∷ 10 ∷ b'b' ∷ []

find_newline-IsFirst_example : IsFirst 0 two_lines (find_newline two_lines 0)
find_newline-IsFirst_example = find_newline-IsFirst two_lines 0

-- The newline is at position 1, and none comes after it.
newline_at_1 : (find_newline two_lines 0 ≡ some 1) × (find_newline two_lines 2 ≡ none)
unfolding find_newline
newline_at_1 = (refl, refl)

abc_NoNewline : NoNewline busy.utf8
abc_NoNewline = (refl, (refl, (refl, tt)))

-- A newline is next in the source, but the call that reads it does not find it.
read_until_newline_blind_example : (read_until_newline source 5 (busy, 10 ∷ [])).0 ≢ ok (some 5)
read_until_newline_blind_example =
    read_until_newline_blind source 5 busy (10 ∷ []) 5 (λ e. absurd (omega arith)) abc_NoNewline
