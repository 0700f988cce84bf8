-- ===== src/Windows/Stdio.antt =====
-- The buffer in which a process gets its standard streams and further handles on Windows:
-- src/win/processx-stdio.h, the functions of src/win/stdio.c that read it, and those of src/client.c,
-- which are the same. The buffer is a list of bytes, with integers of 4 and handles of 8 bytes, and
-- `none` is a read behind its end.
pub mod Layout
mod Tests
use processx.Base.{
  ℕ, zero, suc, ◌+◌, ◌*◌, ◌/◌, ◌%◌, ◌^◌, Bool, true, false, Option, none, some, ◌>>=◌, List, [],
  ◌∷◌, ◌++◌, ltb, leb, ◌==◌, if◌then◌else◌, length, take, drop,
}

-- The bytes of a number, the lowest first, and back
unfoldable pub le_bytes : ℕ → ℕ → List ℕ
le_bytes zero v = []
le_bytes (suc n) v = (v % 256) ∷ le_bytes n (v / 256)

unfoldable pub from_le : List ℕ → ℕ
from_le [] = 0
from_le (b ∷ bs) = b + 256 * from_le bs

unfoldable pub read_at : ℕ → ℕ → List ℕ → Option ℕ
unfolding from_le
read_at offset n buffer =
    if leb (offset + n) (length buffer) then some (from_le (take n (drop offset buffer))) else none

-- `CHILD_STDIO_SIZE`, `CHILD_STDIO_COUNT` and `CHILD_STDIO_HANDLE`
abbrev pub child_stdio_size : ℕ → ℕ
child_stdio_size count = 4 + count + 8 * count

abbrev pub child_stdio_count : List ℕ → Option ℕ
child_stdio_count buffer = read_at 0 4 buffer

abbrev pub child_stdio_handle : List ℕ → ℕ → Option ℕ
child_stdio_handle buffer fd =
    child_stdio_count buffer >>= λ count. read_at (4 + count + 8 * fd) 8 buffer

-- `INVALID_HANDLE_VALUE`, which is -1
abbrev pub invalid_handle : ℕ
invalid_handle = 0xFFFFFFFFFFFFFFFF

-- `processx__stdio_size`, which returns 16 bits
unfoldable pub stdio_size : List ℕ → Option ℕ
unfolding read_at
stdio_size buffer = child_stdio_count buffer >>= λ count. some (child_stdio_size count % 2 ^ 16)

-- The tests of `processx__stdio_verify` on the count
abbrev pub verify_count : ℕ → ℕ → Bool
verify_count size count =
    if ltb 256 count then false else if ltb size (child_stdio_size count) then false else true

-- `processx__stdio_verify`
unfoldable pub stdio_verify : Option (List ℕ) → ℕ → Option Bool
unfolding read_at
stdio_verify none size = some false
stdio_verify (some buffer) size =
    if ltb size (child_stdio_size 0)
    then some false
    else child_stdio_count buffer >>= λ count. some (verify_count size count)

-- The loop over the handles from `i` on: those that are not invalid
unfoldable pub valid_handles : ℕ → ℕ → List ℕ → Option (List ℕ)
unfolding read_at
valid_handles zero i buffer = some []
valid_handles (suc n) i buffer = child_stdio_handle buffer i >>= λ handle.
    valid_handles n (i + 1) buffer >>= λ rest.
    some (if handle == invalid_handle then rest else handle ∷ rest)

-- `processx__stdio_noinherit`: the handles that are no longer inherited
unfoldable pub stdio_noinherit : List ℕ → Option (List ℕ)
unfolding valid_handles
stdio_noinherit buffer = child_stdio_count buffer >>= λ count. valid_handles count 0 buffer

-- `processx__stdio_destroy`: the handles that it closes
unfoldable pub stdio_destroy : List ℕ → Option (List ℕ)
unfolding valid_handles
stdio_destroy buffer = child_stdio_count buffer >>= λ count. valid_handles count 0 buffer
