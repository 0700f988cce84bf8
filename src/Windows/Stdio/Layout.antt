-- ===== src/Windows/Stdio/Layout.antt =====
-- What is read from a buffer that was verified, and from one with the layout that the header gives.
use processx.Base.{
  ℕ, zero, suc, ◌+◌, ◌*◌, ◌/◌, ◌^◌, ◌≤◌, ◌<◌, ◌≡◌, refl, sym, ap, ◌∙◌, Bool, true, false,
  Bool-cases, some, List, [], ◌∷◌, ◌++◌, append_assoc, ltb, leb, ◌==◌, if◌then◌else◌, length, take,
  drop, arith, inl, inr, length-append, drop-append_length, take-append_le, take_all, ltb→ge,
}
use processx.Windows.Stdio.{
  le_bytes, from_le, read_at, child_stdio_size, child_stdio_count, invalid_handle, stdio_size,
  verify_count, stdio_verify, valid_handles, stdio_noinherit, stdio_destroy,
}

read_at-some :
    (offset n : ℕ) (buffer : List ℕ)
    → offset + n ≤ length buffer
    → (v : ℕ) × (read_at offset n buffer ≡ some v)
unfolding read_at
read_at-some offset n buffer h = (from_le (take n (drop offset buffer)), ground arith)

-- All handles of a buffer of this size can be read.
valid_handles-some :
    (n i count : ℕ) (buffer : List ℕ)
    → child_stdio_count buffer ≡ some count
    → i + n ≤ count
    → child_stdio_size count ≤ length buffer
    → (handles : List ℕ) × (valid_handles n i buffer ≡ some handles)
unfolding valid_handles
valid_handles-some zero i count buffer c h size = ([], refl)
valid_handles-some (suc n) i count buffer c h size =
    let (v, q) = read_at-some (4 + count + 8 * i) 8 buffer (omega arith) in
    let (rest, r) = valid_handles-some n (i + 1) count buffer c (omega arith) size in
    (if v == invalid_handle then rest else v ∷ rest, rw (c, q, r) refl)

-- Processx__stdio_verify reads only inside a buffer of the given size, whatever its bytes are, and
-- if it accepts the buffer, so does processx__stdio_noinherit.
pub stdio_verify-safe :
    (size : ℕ) (buffer : List ℕ)
    → size ≤ length buffer
    → (verified : Bool) × (stdio_verify (some buffer) size ≡ some verified)
      × (verified ≡ true → (handles : List ℕ) × (stdio_noinherit buffer ≡ some handles))
unfolding stdio_verify stdio_noinherit
stdio_verify-safe size buffer h = elim (Bool-cases (ltb size (child_stdio_size 0))) [
  | inl small ↦ (false, rw small refl, λ q. absurd cc)
  | inr enough ↦
      let least = ltb→ge size (child_stdio_size 0) enough in
      let (count, c) = read_at-some 0 4 buffer (omega arith) in
      (
        verify_count size count,
        rw (enough, c) refl,
        λ q.
            let fits : child_stdio_size count ≤ size = ground arith in
            let (handles, found) =
              valid_handles-some count 0 count buffer c (omega arith) (omega arith) in
            (handles, rw (c, found) refl),
      )
]

-- The number has at most `n` bytes.
abbrev pub Fits : ℕ → ℕ → Type 0
Fits zero v = v ≡ 0
Fits (suc n) v = Fits n (v / 256)

from_le-le_bytes : (n v : ℕ) → Fits n v → from_le (le_bytes n v) ≡ v
unfolding from_le le_bytes
from_le-le_bytes zero v h = sym h
from_le-le_bytes (suc n) v h = omega (arith, from_le-le_bytes n (v / 256) h)

length-le_bytes : (n v : ℕ) → length (le_bytes n v) ≡ n
unfolding le_bytes
length-le_bytes zero v = refl
length-le_bytes (suc n) v = ap suc (length-le_bytes n (v / 256))

read_at-le_bytes :
    (pre rest : List ℕ) (offset n v : ℕ)
    → offset ≡ length pre
    → Fits n v
    → read_at offset n (pre ++ (le_bytes n v ++ rest)) ≡ some v
unfolding read_at
read_at-le_bytes pre rest offset n v at fits =
    let size = length-append pre (le_bytes n v ++ rest) in
    let size' = length-append (le_bytes n v) rest in
    let inside : leb (offset + n) (length (pre ++ (le_bytes n v ++ rest))) ≡ true =
      ground (arith, length-le_bytes n v) in
    let len = length-le_bytes n v in
    let cut : take n (le_bytes n v ++ rest) ≡ le_bytes n v =
      take-append_le n (le_bytes n v) rest (omega arith)
      ∙ take_all n (le_bytes n v) (omega arith) in
    rw (inside, drop-append_length offset pre (le_bytes n v ++ rest) at, cut)
      (ap (λ (x : ℕ). some x) (from_le-le_bytes n v fits))

-- The handles, one after the other
unfoldable pub handle_bytes : List ℕ → List ℕ
handle_bytes [] = []
handle_bytes (h ∷ hs) = le_bytes 8 h ++ handle_bytes hs

abbrev pub only_valid : List ℕ → List ℕ
only_valid [] = []
only_valid (h ∷ hs) = let rest = only_valid hs in if h == invalid_handle then rest else h ∷ rest

abbrev pub AllFit : List ℕ → Type 0
AllFit [] = Unit
AllFit (h ∷ hs) = Fits 8 h × AllFit hs

-- The layout of `processx-stdio.h`
unfoldable pub layout : List ℕ → List ℕ → List ℕ
unfolding handle_bytes
layout flags handles = le_bytes 4 (length handles) ++ (flags ++ handle_bytes handles)

valid_handles-from :
    (hs pre buffer : List ℕ) (i count : ℕ)
    → child_stdio_count buffer ≡ some count
    → 4 + count + 8 * i ≡ length pre
    → buffer ≡ pre ++ handle_bytes hs
    → AllFit hs
    → valid_handles (length hs) i buffer ≡ some (only_valid hs)
unfolding valid_handles handle_bytes
valid_handles-from [] pre buffer i count c at q fits = refl
valid_handles-from (h ∷ hs) pre buffer i count c at q fits =
    let found : read_at (4 + count + 8 * i) 8 buffer ≡ some h =
      ap (read_at (4 + count + 8 * i) 8) q
      ∙ read_at-le_bytes pre (handle_bytes hs) (4 + count + 8 * i) 8 h at fits.0 in
    let size = length-append pre (le_bytes 8 h) in
    let rest =
      valid_handles-from hs (pre ++ le_bytes 8 h) buffer (i + 1) count c
        (omega (arith, length-le_bytes 8 h))
        (q ∙ sym (append_assoc pre (le_bytes 8 h) (handle_bytes hs))) fits.1 in
    rw (c, found, rest) refl

length-handle_bytes : (hs : List ℕ) → length (handle_bytes hs) ≡ 8 * length hs
unfolding handle_bytes
length-handle_bytes [] = refl
length-handle_bytes (h ∷ hs) = omega (
  arith,
  length-append (le_bytes 8 h) (handle_bytes hs),
  length-le_bytes 8 h,
  length-handle_bytes hs,
)

module _ (flags handles : List ℕ) (same : length flags ≡ length handles)
    (few : length handles < 2 ^ 32) where
  layout_grouped :
      layout flags handles ≡ (le_bytes 4 (length handles) ++ flags) ++ handle_bytes handles
  unfolding layout
  layout_grouped = sym (append_assoc (le_bytes 4 (length handles)) flags (handle_bytes handles))

  child_stdio_count-layout : child_stdio_count (layout flags handles) ≡ some (length handles)
  unfolding layout
  child_stdio_count-layout =
      let fits : Fits 4 (length handles) = omega arith in
      read_at-le_bytes [] (flags ++ handle_bytes handles) 0 4 (length handles) refl fits

  length-layout : length (layout flags handles) ≡ child_stdio_size (length handles)
  unfolding layout
  length-layout = omega (
    arith,
    length-append (le_bytes 4 (length handles)) (flags ++ handle_bytes handles),
    length-append flags (handle_bytes handles),
    length-le_bytes 4 (length handles),
    length-handle_bytes handles,
    same,
  )

  valid_handles-layout :
      AllFit handles
      → valid_handles (length handles) 0 (layout flags handles) ≡ some (only_valid handles)
  valid_handles-layout fits =
      valid_handles-from handles (le_bytes 4 (length handles) ++ flags) (layout flags handles) 0
        (length handles) child_stdio_count-layout
        (omega (
          arith,
          length-le_bytes 4 (length handles),
          length-append (le_bytes 4 (length handles)) flags,
        ))
        layout_grouped fits

-- From the bytes of up to 255 handles in the layout of the header, with a flag for each,
-- processx__stdio_size gives their number, processx__stdio_verify accepts them, and
-- processx__stdio_noinherit and processx__stdio_destroy go over exactly the handles that are not
-- invalid, in order.
pub stdio_noinherit-layout :
    (flags handles : List ℕ)
    → length flags ≡ length handles
    → length handles ≤ 255
    → AllFit handles
    → (stdio_size (layout flags handles) ≡ some (length (layout flags handles)))
      × (stdio_verify (some (layout flags handles)) (length (layout flags handles)) ≡ some true)
      × (stdio_noinherit (layout flags handles) ≡ some (only_valid handles))
      × (stdio_destroy (layout flags handles) ≡ some (only_valid handles))
unfolding stdio_size stdio_verify stdio_noinherit stdio_destroy
stdio_noinherit-layout flags handles same few fits =
    let c = child_stdio_count-layout flags handles same (omega arith) in
    let size = length-layout flags handles same (omega arith) in
    let found = valid_handles-layout flags handles same (omega arith) fits in
    let enough : ltb (length (layout flags handles)) (child_stdio_size 0) ≡ false = ground arith in
    let passes : verify_count (length (layout flags handles)) (length handles) ≡ true =
      ground arith in
    (
      rw c (ap (λ (x : ℕ). some x) (omega arith)),
      rw (enough, c, passes) refl,
      rw (c, found) refl,
      rw (c, found) refl,
    )
