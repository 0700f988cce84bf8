-- ===== src/Base64.antt =====
-- src/base64.c: base64 encoding and decoding of raw vectors.
-- Bytes are numbers below 256. An array is a list; `none` stands for a read or a write outside of
-- an array. `mem` is what the fresh memory of a new raw vector holds.
pub mod Spec
pub mod Words
pub mod Encode
pub mod Decode
pub mod Safety
mod Tests
use Prim.Native.Nat.{bit_or}
use processx.Base.{
  ℕ, zero, suc, ◌+◌, ◌*◌, ◌/◌, ◌%◌, ◌^◌, Option, none, some, List, [], ◌∷◌, ◌>>=◌, ltb, ◌==◌,
  if◌then◌else◌, length, get_elem?, set, take,
}

-- `unsigned int` arithmetic
abbrev pub u32 : ℕ → ℕ
u32 n = n % 2 ^ 32

-- `BASE64_ENCODE_OUT_SIZE`, `BASE64_DECODE_OUT_SIZE`
abbrev pub encode_out_size : ℕ → ℕ
encode_out_size s = u32 (u32 (s + 2) / 3 * 4)

abbrev pub decode_out_size : ℕ → ℕ
decode_out_size s = u32 (s / 4 * 3)

abbrev pub pad : ℕ
pad = b'='

-- `base64en`
abbrev pub base64en : List ℕ
base64en =
    65 ∷ 66 ∷ 67 ∷ 68 ∷ 69 ∷ 70 ∷ 71 ∷ 72 ∷ 73 ∷ 74 ∷ 75 ∷ 76 ∷ 77 ∷ 78 ∷ 79 ∷ 80 ∷ 81 ∷ 82 ∷ 83
    ∷ 84 ∷ 85 ∷ 86 ∷ 87 ∷ 88 ∷ 89 ∷ 90 ∷ 97 ∷ 98 ∷ 99 ∷ 100 ∷ 101 ∷ 102 ∷ 103 ∷ 104 ∷ 105 ∷ 106
    ∷ 107 ∷ 108 ∷ 109 ∷ 110 ∷ 111 ∷ 112 ∷ 113 ∷ 114 ∷ 115 ∷ 116 ∷ 117 ∷ 118 ∷ 119 ∷ 120 ∷ 121 ∷ 122
    ∷ 48 ∷ 49 ∷ 50 ∷ 51 ∷ 52 ∷ 53 ∷ 54 ∷ 55 ∷ 56 ∷ 57 ∷ 43 ∷ 47 ∷ []

-- `base64de`: 128 entries, 255 for a character that base64 does not use.
abbrev pub base64de : List ℕ
base64de =
    255 ∷ 255 ∷ 255 ∷ 255 ∷ 255 ∷ 255 ∷ 255 ∷ 255 ∷ 255 ∷ 255 ∷ 255 ∷ 255 ∷ 255 ∷ 255 ∷ 255 ∷ 255
    ∷ 255 ∷ 255 ∷ 255 ∷ 255 ∷ 255 ∷ 255 ∷ 255 ∷ 255 ∷ 255 ∷ 255 ∷ 255 ∷ 255 ∷ 255 ∷ 255 ∷ 255 ∷ 255
    ∷ 255 ∷ 255 ∷ 255 ∷ 255 ∷ 255 ∷ 255 ∷ 255 ∷ 255 ∷ 255 ∷ 255 ∷ 255 ∷ 62 ∷ 255 ∷ 255 ∷ 255 ∷ 63
    ∷ 52 ∷ 53 ∷ 54 ∷ 55 ∷ 56 ∷ 57 ∷ 58 ∷ 59 ∷ 60 ∷ 61 ∷ 255 ∷ 255 ∷ 255 ∷ 255 ∷ 255 ∷ 255 ∷ 255 ∷ 0
    ∷ 1 ∷ 2 ∷ 3 ∷ 4 ∷ 5 ∷ 6 ∷ 7 ∷ 8 ∷ 9 ∷ 10 ∷ 11 ∷ 12 ∷ 13 ∷ 14 ∷ 15 ∷ 16 ∷ 17 ∷ 18 ∷ 19 ∷ 20 ∷ 21
    ∷ 22 ∷ 23 ∷ 24 ∷ 25 ∷ 255 ∷ 255 ∷ 255 ∷ 255 ∷ 255 ∷ 255 ∷ 26 ∷ 27 ∷ 28 ∷ 29 ∷ 30 ∷ 31 ∷ 32 ∷ 33
    ∷ 34 ∷ 35 ∷ 36 ∷ 37 ∷ 38 ∷ 39 ∷ 40 ∷ 41 ∷ 42 ∷ 43 ∷ 44 ∷ 45 ∷ 46 ∷ 47 ∷ 48 ∷ 49 ∷ 50 ∷ 51 ∷ 255
    ∷ 255 ∷ 255 ∷ 255 ∷ 255 ∷ []

-- `allocVector(RAWSXP, n)`
pub fresh : (ℕ → ℕ) → ℕ → ℕ → List ℕ
fresh mem i zero = []
fresh mem i (suc n) = mem i ∷ fresh mem (i + 1) n

-- `out[j] = v`
abbrev pub store : List ℕ → ℕ → ℕ → Option (List ℕ)
store out j v = if ltb j (length out) then some (set out j v) else none

-- An output vector and the position to write.
abbrev pub Out : Type 0
Out = ℕ × List ℕ

-- `out[j++] = base64en[v]`
pub put_char : ℕ → Out → Option Out
put_char v (j, out) = do c ← get_elem? base64en v; out' ← store out j c; some (j + 1, out')

-- `out[j++] = BASE64_PAD`
pub put_pad : Out → Option Out
put_pad (j, out) = do out' ← store out j pad; some (j + 1, out')

-- The first `switch (s)`: the byte `c` in state `s`, after the byte `l`.
pub encode_byte : ℕ → ℕ → ℕ → Out → Option Out
encode_byte zero l c o = put_char (c / 4 % 64) o
encode_byte (suc zero) l c o = put_char (bit_or (l % 4 * 16) (c / 16 % 16)) o
encode_byte _ l c o = do o' ← put_char (bit_or (l % 16 * 4) (c / 64 % 4)) o; put_char (c % 64) o'

abbrev pub next_state : ℕ → ℕ
next_state zero = 1
next_state (suc zero) = 2
next_state _ = 0

-- The second `switch (s)`: what is left after the last byte `l`.
pub encode_end : ℕ → ℕ → Out → Option Out
encode_end zero l o = some o
encode_end (suc zero) l o = do o' ← put_char (l % 4 * 16) o; o'' ← put_pad o'; put_pad o''
encode_end _ l o = do o' ← put_char (l % 16 * 4) o; put_pad o'

-- The loop over the input, with the state `s` and the byte `l` before.
pub encode_loop : List ℕ → ℕ → ℕ → Out → Option Out
encode_loop [] s l o = encode_end s l o
encode_loop (c ∷ cs) s l o = do o' ← encode_byte s l c o; encode_loop cs (next_state s) c o'

-- `processx_base64_encode`
pub encode : (ℕ → ℕ) → List ℕ → Option (List ℕ)
encode mem input = do
  o ← encode_loop input 0 0 (0, fresh mem 0 (encode_out_size (length input)))
  some o.1

-- `switch (i & 0x3)` of the decoder, for the six bits `c`.
pub decode_bits : ℕ → ℕ → Out → Option Out
decode_bits zero c (j, out) = do out' ← store out j (c * 4 % 256); some (j, out')
decode_bits (suc zero) c (j, out) = do
  old ← get_elem? out j
  out' ← store out j (bit_or old (c / 16 % 4))
  out'' ← store out' (j + 1) (c % 16 * 16)
  some (j + 1, out'')
decode_bits (suc (suc zero)) c (j, out) = do
  old ← get_elem? out j
  out' ← store out j (bit_or old (c / 4 % 16))
  out'' ← store out' (j + 1) (c % 4 * 64)
  some (j + 1, out'')
decode_bits _ c (j, out) = do
  old ← get_elem? out j
  out' ← store out j (bit_or old c)
  some (j + 1, out')

-- How the decoding loop ends: at the end of the input or at a padding, or at a character that
-- base64 does not use, where the function returns at once.
pub data Stopped : Type 0 where
  ended : Out → Stopped
  bad_char : List ℕ → Stopped

-- The loop of the decoder at position `i`. (`in[i] < 0` never holds of an unsigned char.)
pub decode_loop : List ℕ → ℕ → Out → Option Stopped
decode_loop [] i o = some (ended o)
decode_loop (ch ∷ chs) i o = if ch == pad then some (ended o) else (do
  c ← get_elem? base64de ch
  if c == 255
      then some (bad_char o.1)
      else (do o' ← decode_bits (i % 4) c o; decode_loop chs (i + 1) o'))

-- The vector is cut to `j` bytes if it was allocated too long.
pub finish : ℕ → Stopped → List ℕ
finish outlen (bad_char out) = out
finish outlen (ended (j, out)) = if ltb (j + 1) outlen then take j out else out

-- `processx_base64_decode`
pub decode : (ℕ → ℕ) → List ℕ → Option (List ℕ)
decode mem input =
    let outlen = decode_out_size (length input) in
    let rout = fresh mem 0 outlen in
    let decoded = decode_loop input 0 (0, rout) in
    if length input % 4 == 0 then (do r ← decoded; some (finish outlen r)) else some rout
