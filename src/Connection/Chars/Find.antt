-- ===== src/Connection/Chars/Find.antt =====
-- `processx__connection_find_utf8_chars`: how many characters fit, and how many bytes they span.
use processx.Base.{
  ℕ, zero, suc, ◌+◌, ◌-◌, Bool, false, ◌&&◌, ◌||◌, Option, none, some, List, [], ◌∷◌, Result, ok,
  throw, ltb, leb, ◌==◌, if◌then◌else◌, length, drop, get_or,
}
use Prim.Native.Nat.{bit_and}
use processx.Connection.Types.{Fault, invalid_utf8}

-- `processx__utf8_length`
abbrev pub utf8_length : List ℕ
utf8_length =
    2 ∷ 2 ∷ 2 ∷ 2 ∷ 2 ∷ 2 ∷ 2 ∷ 2 ∷ 2 ∷ 2 ∷ 2 ∷ 2 ∷ 2 ∷ 2 ∷ 2 ∷ 2 ∷ 2 ∷ 2 ∷ 2 ∷ 2 ∷ 2 ∷ 2 ∷ 2 ∷ 2
    ∷ 2 ∷ 2 ∷ 2 ∷ 2 ∷ 2 ∷ 2 ∷ 2 ∷ 2 ∷ 3 ∷ 3 ∷ 3 ∷ 3 ∷ 3 ∷ 3 ∷ 3 ∷ 3 ∷ 3 ∷ 3 ∷ 3 ∷ 3 ∷ 3 ∷ 3 ∷ 3 ∷ 3
    ∷ 4 ∷ 4 ∷ 4 ∷ 4 ∷ 4 ∷ 4 ∷ 4 ∷ 4 ∷ 5 ∷ 5 ∷ 5 ∷ 5 ∷ 6 ∷ 6 ∷ 6 ∷ 6 ∷ []

-- `*chars` and `*bytes`
pub record Span : Type 0 where
  pub chars : ℕ
  pub bytes : ℕ

-- The length of the character that a byte of 128 and more starts; `none` goes to `invalid`.
unfoldable pub start_length : ℕ → Option ℕ
start_length c =
    if ltb c 0xc0
    then none
    else if leb 0xfe c
    then none
    else some (get_or utf8_length (bit_and c 0x3f) 0)

-- A limit that is `none` is -1 and stays so.
abbrev pub is_spent : Option ℕ → Bool
is_spent none = false
is_spent (some n) = n == 0

abbrev pub spend : ℕ → Option ℕ → Option ℕ
spend k none = none
spend k (some n) = some (n - k)

-- `maxbytes > 0 && clen > maxbytes`
abbrev pub too_long : ℕ → Option ℕ → Bool
too_long clen none = false
too_long clen (some n) = ltb 0 n && ltb n clen

-- The loop over the bytes from `ptr` on (`length` of them), with the counts so far. Every round
-- passes a byte, so the length is fuel enough.
unfoldable pub find_loop : ℕ → Option ℕ → Option ℕ → List ℕ → Span → Result Fault Span
find_loop zero maxchars maxbytes rest s = ok s
find_loop (suc fuel) maxchars maxbytes [] s = ok s
find_loop (suc fuel) maxchars maxbytes (b ∷ rest) s =
    let ascii =
      find_loop fuel (spend 1 maxchars) (spend 1 maxbytes) rest
        (record { chars = s.chars + 1; bytes = s.bytes + 1 }) in
    let wide = λ (clen : ℕ).
      find_loop fuel (spend 1 maxchars) (spend clen maxbytes) (drop clen (b ∷ rest))
        (record { chars = s.chars + 1; bytes = s.bytes + clen }) in
    if is_spent maxchars || is_spent maxbytes
    then ok s
    else if ltb b 128
    then ascii
    else elim (start_length b) [
      | none ↦ throw invalid_utf8
      | some clen ↦
          if ltb (length (b ∷ rest)) clen
          then throw invalid_utf8
          else if too_long clen maxbytes
          then ok s
          else wide clen
    ]

unfoldable pub find_utf8_chars : Option ℕ → Option ℕ → List ℕ → Result Fault Span
unfolding find_loop start_length
find_utf8_chars maxchars maxbytes utf8 =
    find_loop (length utf8) maxchars maxbytes utf8 (record { chars = 0; bytes = 0 })
