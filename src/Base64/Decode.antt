-- ===== src/Base64/Decode.antt =====
-- `processx_base64_decode` against the base64 texts of Spec.
pub mod Whole
use Prim.Native.Nat.{bit_or}
use processx.Base.{
  ge→ltb, take-append_le, take_all, ℕ, zero, suc, ◌+◌, ◌*◌, ◌/◌, ◌%◌, ◌^◌, ◌≤◌, ◌<◌, ◌≡◌, refl, ap,
  ap₂, ◌∙◌, some, List, [], ◌∷◌, ◌++◌, ◌>>=◌, false, arith, ◌==◌, if◌then◌else◌, lt→ltb, length,
  length-append, get_elem?, append_assoc,
}
use processx.Base64.{
  decode_out_size, pad, fresh, Out, decode_bits, ended, decode_loop, finish, decode, encode,
}
use processx.Base64.Spec.{digit, digit1, digit2, digit3, digit4, word, encoded, AreBytes}
use processx.Base64.Words.{base64de-digit, digit-ne-pad, fields}
use processx.Base64.Encode.{store-append, length-encoded, length-fresh, encode-encoded}

get_elem?-append : (w r : List ℕ) (j y : ℕ) → j ≡ length w → get_elem? (w ++ (y ∷ r)) j ≡ some y
get_elem?-append [] r zero y e = refl
get_elem?-append [] r (suc j) y e = absurd (omega arith)
get_elem?-append (x ∷ w) r zero y e = absurd (omega arith)
get_elem?-append (x ∷ w) r (suc j) y e = get_elem?-append w r j y (omega arith)

-- One digit in each of the four positions of a group, at the end `w` of what was decoded.
bits0 :
    (w r : List ℕ) (j y v : ℕ)
    → j ≡ length w
    → decode_bits 0 v (j, w ++ (y ∷ r)) ≡ some (j, w ++ (v * 4 % 256 ∷ r))
unfolding decode_bits
bits0 w r j y v e =
    rw (store-append w (y ∷ r) j (v * 4 % 256) e (omega arith))
      (ap (λ (t : List ℕ). some (j, t)) (append_assoc w (v * 4 % 256 ∷ []) r))

bits1 :
    (w r : List ℕ) (j y z v : ℕ)
    → j ≡ length w
    → decode_bits 1 v (j, w ++ (y ∷ z ∷ r))
      ≡ some (j + 1, (w ++ (bit_or y (v / 16 % 4) ∷ [])) ++ (v % 16 * 16 ∷ r))
unfolding decode_bits
bits1 w r j y z v e =
    let b = bit_or y (v / 16 % 4) in
    rw
      (
        get_elem?-append w (z ∷ r) j y e,
        store-append w (y ∷ z ∷ r) j b e (omega arith),
        store-append (w ++ (b ∷ [])) (z ∷ r) (j + 1) (v % 16 * 16)
            (omega (arith, length-append w (b ∷ []))) (omega arith),
      )
      (ap (λ (t : List ℕ). some (j + 1, t)) (append_assoc (w ++ (b ∷ [])) (v % 16 * 16 ∷ []) r))

bits2 :
    (w r : List ℕ) (j y z v : ℕ)
    → j ≡ length w
    → decode_bits 2 v (j, w ++ (y ∷ z ∷ r))
      ≡ some (j + 1, (w ++ (bit_or y (v / 4 % 16) ∷ [])) ++ (v % 4 * 64 ∷ r))
unfolding decode_bits
bits2 w r j y z v e =
    let b = bit_or y (v / 4 % 16) in
    rw
      (
        get_elem?-append w (z ∷ r) j y e,
        store-append w (y ∷ z ∷ r) j b e (omega arith),
        store-append (w ++ (b ∷ [])) (z ∷ r) (j + 1) (v % 4 * 64)
            (omega (arith, length-append w (b ∷ []))) (omega arith),
      )
      (ap (λ (t : List ℕ). some (j + 1, t)) (append_assoc (w ++ (b ∷ [])) (v % 4 * 64 ∷ []) r))

bits3 :
    (w r : List ℕ) (j y v : ℕ)
    → j ≡ length w
    → decode_bits 3 v (j, w ++ (y ∷ r)) ≡ some (j + 1, (w ++ (bit_or y v ∷ [])) ++ r)
unfolding decode_bits
bits3 w r j y v e =
    rw (get_elem?-append w r j y e, store-append w (y ∷ r) j (bit_or y v) e (omega arith))

not_255 : (v : ℕ) → v < 64 → (v == 255) ≡ false
not_255 v h = ground arith

-- A digit is looked up, and its bits are stored.
digit_step :
    (v : ℕ) (chs : List ℕ) (i k : ℕ) (o : Out) {o' : Out}
    → v < 64
    → i % 4 ≡ k
    → decode_bits k v o ≡ some o'
    → decode_loop (digit v ∷ chs) i o ≡ decode_loop chs (i + 1) o'
unfolding decode_loop
digit_step v chs i k o lt e d = rw (digit-ne-pad v lt, base64de-digit v lt, not_255 v lt, e, d)

-- The bytes that the digits of a 24-bit number are put together to.
pub record Bytes (a b c : ℕ) : Type 0 where
  first : bit_or (word a b c / 262144 % 64 * 4 % 256) (word a b c / 4096 % 64 / 16 % 4) ≡ a
  second : bit_or (word a b c / 4096 % 64 % 16 * 16) (word a b c / 64 % 64 / 4 % 16) ≡ b
  third : bit_or (word a b c / 64 % 64 % 4 * 64) (word a b c % 64) ≡ c

pub bytes : (a b c : ℕ) → a < 256 → b < 256 → c < 256 → Bytes a b c
bytes a b c ha hb hc =
    let n1 = word a b c / 262144 % 64 in
    let n2 = word a b c / 4096 % 64 in
    let n3 = word a b c / 64 % 64 in
    let n4 = word a b c % 64 in
    let f = fields n1 (n2 / 16) (omega arith) (omega arith) in
    let g = fields n2 (n3 / 4) (omega arith) (omega arith) in
    let h = fields n3 n4 (omega arith) (omega arith) in
    let small : n1 * 4 % 256 ≡ n1 * 4 = omega arith in
    record {
      first = rw small (f.six_two ∙ omega arith);
      second = g.four_four ∙ omega arith;
      third = h.two_six ∙ omega arith;
    }

-- The first two digits of a group give its first byte.
pub two_digits :
    (a b c : ℕ) (chs w r : List ℕ) (i j y z : ℕ)
    → a < 256
    → b < 256
    → c < 256
    → i % 4 ≡ 0
    → j ≡ length w
    → decode_loop (digit1 (word a b c) ∷ digit2 (word a b c) ∷ chs) i (j, w ++ (y ∷ z ∷ r))
      ≡ decode_loop chs (i + 2) (j + 1, (w ++ (a ∷ [])) ++ (word a b c / 4096 % 64 % 16 * 16 ∷ r))
two_digits a b c chs w r i j y z ha hb hc e k =
    let n1 = word a b c / 262144 % 64 in
    let n2 = word a b c / 4096 % 64 in
    digit_step n1 (digit n2 ∷ chs) i 0 (j, w ++ (y ∷ z ∷ r)) (omega arith) e
      (bits0 w (z ∷ r) j y n1 k)
    ∙ digit_step n2 chs (i + 1) 1 (j, w ++ (n1 * 4 % 256 ∷ z ∷ r)) (omega arith) (omega arith)
        (bits1 w r j (n1 * 4 % 256) z n2 k)
    ∙ ap₂ (λ (m : ℕ) (x : ℕ). decode_loop chs m (j + 1, (w ++ (x ∷ [])) ++ (n2 % 16 * 16 ∷ r)))
        (omega arith) (bytes a b c ha hb hc).first

-- The third digit completes the second byte.
pub third_digit :
    (a b c : ℕ) (chs w r : List ℕ) (i j z : ℕ)
    → a < 256
    → b < 256
    → c < 256
    → i % 4 ≡ 2
    → j ≡ length w
    → decode_loop (digit3 (word a b c) ∷ chs) i (j, w ++ (word a b c / 4096 % 64 % 16 * 16 ∷ z ∷ r))
      ≡ decode_loop chs (i + 1) (j + 1, (w ++ (b ∷ [])) ++ (word a b c / 64 % 64 % 4 * 64 ∷ r))
third_digit a b c chs w r i j z ha hb hc e k =
    let n2 = word a b c / 4096 % 64 in
    let n3 = word a b c / 64 % 64 in
    digit_step n3 chs i 2 (j, w ++ (n2 % 16 * 16 ∷ z ∷ r)) (omega arith) e
      (bits2 w r j (n2 % 16 * 16) z n3 k)
    ∙ ap (λ (x : ℕ). decode_loop chs (i + 1) (j + 1, (w ++ (x ∷ [])) ++ (n3 % 4 * 64 ∷ r)))
        (bytes a b c ha hb hc).second

pub fourth_digit :
    (a b c : ℕ) (chs w r : List ℕ) (i j : ℕ)
    → a < 256
    → b < 256
    → c < 256
    → i % 4 ≡ 3
    → j ≡ length w
    → decode_loop (digit4 (word a b c) ∷ chs) i (j, w ++ (word a b c / 64 % 64 % 4 * 64 ∷ r))
      ≡ decode_loop chs (i + 1) (j + 1, (w ++ (c ∷ [])) ++ r)
fourth_digit a b c chs w r i j ha hb hc e k =
    let n3 = word a b c / 64 % 64 in
    let n4 = word a b c % 64 in
    digit_step n4 chs i 3 (j, w ++ (n3 % 4 * 64 ∷ r)) (omega arith) e
      (bits3 w r j (n3 % 4 * 64) n4 k)
    ∙ ap (λ (x : ℕ). decode_loop chs (i + 1) (j + 1, (w ++ (x ∷ [])) ++ r))
        (bytes a b c ha hb hc).third
