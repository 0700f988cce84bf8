-- ===== src/Connection/Lines.antt =====
-- Reading lines: `processx__find_newline`, `processx__connection_read_until_newline`,
-- `processx__connection_find_lines`, `processx_connection_read_lines` and
-- `processx_c_connection_read_line`.
pub mod First
pub mod Blind
use processx.Base.{
  ℕ, zero, suc, ◌+◌, ◌-◌, ◌*◌, ◌%◌, ◌^◌, Bool, false, not, ◌&&◌, ◌||◌, Option, none, some, List, [],
  ◌∷◌, ◌++◌, ok, throw, ltb, leb, ◌==◌, if◌then◌else◌, length, take, drop, get_or,
}
use processx.Connection.Types.{
  has_zero, embedded_nul, Conn, invalid_connection, no_fuel, Platform, M,
}
use processx.Connection.Read.{connection_read}
use processx.Connection.Bytes.{is_open}

abbrev pub newline : ℕ
newline = 10

abbrev pub carriage_return : ℕ
carriage_return = 13

-- The position of the first newline of a list of bytes, counted from `i`.
unfoldable pub scan_newline : ℕ → List ℕ → Option ℕ
scan_newline i [] = none
scan_newline i (b ∷ bs) =
    let later = scan_newline (i + 1) bs in if b == newline then some i else later

-- `while (ptr < end && *ptr != '\n') ptr++`, over the bytes from `ptr` to `end`: where `ptr` stops
unfoldable pub skip_to_newline : ℕ → List ℕ → ℕ
skip_to_newline ptr [] = ptr
skip_to_newline ptr (b ∷ bs) =
    let later = skip_to_newline (ptr + 1) bs in if b == newline then ptr else later

-- `processx__find_newline`; `none` is -1.
unfoldable pub find_newline : List ℕ → ℕ → Option ℕ
unfolding scan_newline
find_newline utf8 start = if length utf8 == 0 then none else scan_newline start (drop start utf8)

-- The last line has no newline behind it, and all is converted: it is served all the same.
abbrev pub unfinished_line : Conn → Bool
unfinished_line c =
    c.is_eof_raw
    && not (length c.utf8 == 0)
    && (length c.buffer == 0)
    && not (get_or c.utf8 (length c.utf8 - 1) 0 == newline)

-- The loop of `find_lines`, from the newline that was found: how many lines, `maxlines` at most.
-- Each round goes on behind a newline, so the length of the buffer is fuel enough.
unfoldable pub count_lines : ℕ → List ℕ → ℕ → Option ℕ → ℕ → ℕ
count_lines fuel utf8 maxlines none lines = lines
count_lines zero utf8 maxlines (some i) lines = lines
count_lines (suc fuel) utf8 maxlines (some i) lines =
    let more = count_lines fuel utf8 maxlines (find_newline utf8 (i + 1)) (lines + 1) in
    if ltb lines maxlines then more else lines

-- `maxlines` is `none` for a negative number.
abbrev pub line_limit : Option ℕ → ℕ
line_limit none = 1000
line_limit (some n) = n

-- The bytes from `first` on, up to the position `last`, which is left out.
abbrev pub between : ℕ → ℕ → List ℕ → List ℕ
between first last utf8 = take (last - first) (drop first utf8)

-- `eol > 0 && ccon->utf8[eol - 1] == '\r'`
abbrev pub slashr : List ℕ → ℕ → ℕ
slashr utf8 eol = if ltb 0 eol && (get_or utf8 (eol - 1) 0 == carriage_return) then 1 else 0

-- The lines of `read_lines`, from position `from` (`newline + 1` in the C code) on, and the
-- position behind the last of them.
unfoldable pub lines_from : List ℕ → ℕ → ℕ → List (List ℕ) × ℕ
lines_from utf8 from zero = ([], from)
lines_from utf8 from (suc n) = elim (find_newline utf8 from) [
  | none ↦ ([], from)
  | some eol ↦
      let (rest, end) = lines_from utf8 (eol + 1) n in
      (between from (eol - slashr utf8 eol) utf8 ∷ rest, end)
]

-- `mkCharLenCE` refuses a line with a zero byte.
unfoldable pub any_has_zero : List (List ℕ) → Bool
unfolding has_zero
any_has_zero [] = false
any_has_zero (l ∷ ls) = has_zero l || any_has_zero ls

module _ (P : Platform) where
  -- `processx__connection_realloc` of the UTF-8 buffer
  unfoldable pub realloc : Conn → Conn
  realloc c =
      let new_size = P.times_1_2 c.utf8_allocated in
      record c { utf8_allocated = if new_size == c.utf8_allocated then 2 * new_size else new_size }

  -- `if (utf8_data_size >= utf8_allocated_size - 8)`, a subtraction of `size_t`
  unfoldable pub realloc_if_full : Conn → Conn
  unfolding realloc
  realloc_if_full c =
      if leb ((c.utf8_allocated + 2 ^ 64 - 8) % 2 ^ 64) (length c.utf8) then realloc c else c

  -- The `while (1)` loop of `read_until_newline`, with `ptr` and `end` as positions in the UTF-8
  -- buffer. A new round goes on with the `ptr` and the `end` of the one before, which
  -- `processx__connection_realloc` moves only with the buffer as a whole.
  unfoldable pub look : ℕ → ℕ → ℕ → M P (Option ℕ)
  unfolding realloc_if_full skip_to_newline
  look zero ptr end io = (throw no_fuel, io)
  look (suc fuel) ptr end (c, w) =
      let ptr' = skip_to_newline ptr (between ptr end c.utf8) in
      let (r, io') = connection_read P (realloc_if_full c, w) in
      let more = look fuel ptr' end io' in
      if ltb ptr' end
      then (ok (some ptr'), (c, w))
      else if c.is_eof
      then (ok none, (c, w))
      else elim r [
        | throw e ↦ (throw e, io')
        | ok new_bytes ↦ if new_bytes == 0 then (ok none, io') else more
      ]

  -- The second test for data, and the loop
  unfoldable pub search : ℕ → M P (Option ℕ)
  unfolding look
  search fuel (c, w) =
      if length c.utf8 == 0 then (ok none, (c, w)) else look fuel 0 (length c.utf8) (c, w)

  -- `processx__connection_read_until_newline`
  unfoldable pub read_until_newline : ℕ → M P (Option ℕ)
  unfolding search
  read_until_newline fuel (c, w) =
      if length c.utf8 == 0
      then (let (r, io') = connection_read P (c, w) in
          elim r [ throw e ↦ (throw e, io') | ok n ↦ search fuel io' ])
      else search fuel (c, w)

  -- `processx__connection_find_lines`: the number of lines, and `*eof`.
  unfoldable pub find_lines : ℕ → Option ℕ → M P (ℕ × Bool)
  unfolding read_until_newline count_lines
  find_lines fuel maxlines (c, w) =
      let limit = line_limit maxlines in
      if not (is_open c)
      then (throw invalid_connection, (c, w))
      else (let (r, (c', w')) = read_until_newline fuel (c, w) in
          elim r [
            | throw e ↦ (throw e, (c', w'))
            | ok found ↦ (
              ok (count_lines (length c'.utf8) c'.utf8 limit found 0, unfinished_line c'),
              (c', w'),
            )
          ])

  -- What `read_lines` takes out of the UTF-8 buffer, if `mkCharLenCE` takes the lines.
  unfoldable pub serve_lines : ℕ → Bool → Conn → List (List ℕ) × Conn
  unfolding lines_from
  serve_lines n eof c =
      let (served, end) = lines_from c.utf8 0 n in
      if eof
      then (served ++ (between end (length c.utf8) c.utf8 ∷ []), record c { utf8 = [] })
      else (served, record c { utf8 = drop end c.utf8 })

  -- `processx_connection_read_lines`
  unfoldable pub read_lines : ℕ → Option ℕ → M P (List (List ℕ))
  unfolding find_lines serve_lines any_has_zero
  read_lines fuel nlines io =
      let (r, (c, w)) = find_lines fuel nlines io in
      elim r [
        | throw e ↦ (throw e, (c, w))
        | ok counted ↦
            let (served, c') = serve_lines counted.0 counted.1 c in
            if any_has_zero served then (throw embedded_nul, (c, w)) else (ok served, (c', w))
      ]
