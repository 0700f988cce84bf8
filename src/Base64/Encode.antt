-- ===== src/Base64/Encode.antt =====
-- `processx_base64_encode` writes the base64 text of its input, inside the vector it allocates.
use Prim.Native.Nat.{bit_or}
use processx.Base.{
  ℕ, zero, suc, ◌+◌, ◌*◌, ◌/◌, ◌%◌, ◌^◌, ◌<◌, ◌≡◌, refl, ap, ap₂, ◌∙◌, some, List, [], ◌∷◌, ◌++◌,
  arith, lt→ltb, length, length-append, set, drop, append_assoc,
}
use processx.Base64.{
  encode_out_size, pad, fresh, store, put_char, put_pad, encode_byte, encode_end, encode_loop,
  encode,
}
use processx.Base64.Spec.{digit, digit1, digit2, digit3, digit4, word, encoded, AreBytes}
use processx.Base64.Words.{base64en-digit, fields}

set-append :
    (w r : List ℕ) (v : ℕ) → 0 < length r → set (w ++ r) (length w) v ≡ (w ++ (v ∷ [])) ++ drop 1 r
set-append [] [] v h = elim h [ ]
set-append [] (y ∷ r) v h = refl
set-append (x ∷ w) r v h = ap (λ t. x ∷ t) (set-append w r v h)

-- A write just behind what was written, where there is room.
pub store-append :
    (w r : List ℕ) (j v : ℕ)
    → j ≡ length w
    → 0 < length r
    → store (w ++ r) j v ≡ some ((w ++ (v ∷ [])) ++ drop 1 r)
store-append w r j v e h =
    rw (e, lt→ltb (length w) (length (w ++ r)) (omega (arith, length-append w r)))
      (ap some (set-append w r v h))

put_char-append :
    (w r : List ℕ) (j v : ℕ)
    → v < 64
    → j ≡ length w
    → 0 < length r
    → put_char v (j, w ++ r) ≡ some (j + 1, (w ++ (digit v ∷ [])) ++ drop 1 r)
unfolding put_char
put_char-append w r j v lt e h = rw (base64en-digit v lt, store-append w r j (digit v) e h)

put_pad-append :
    (w r : List ℕ) (j : ℕ)
    → j ≡ length w
    → 0 < length r
    → put_pad (j, w ++ r) ≡ some (j + 1, (w ++ (pad ∷ [])) ++ drop 1 r)
unfolding put_pad
put_pad-append w r j e h = rw (store-append w r j pad e h)

-- The six-bit values that the encoder computes are those of the 24-bit number.
record Values (a b c : ℕ) : Type 0 where
  first : a / 4 % 64 ≡ word a b c / 262144 % 64
  second : bit_or (a % 4 * 16) (b / 16 % 16) ≡ word a b c / 4096 % 64
  third : bit_or (b % 16 * 4) (c / 64 % 4) ≡ word a b c / 64 % 64
  fourth : c % 64 ≡ word a b c % 64

values : (a b c : ℕ) → a < 256 → b < 256 → c < 256 → Values a b c
values a b c ha hb hc =
    let f = fields (a % 4) (b / 16) (omega arith) (omega arith) in
    let g = fields (b % 16) (c / 64) (omega arith) (omega arith) in
    let low4 : a % 4 % 4 ≡ a % 4 = omega arith in
    let low16 : b % 16 % 16 ≡ b % 16 = omega arith in
    record {
      first = omega arith;
      second = (rw low4 at f.two_four) ∙ omega arith;
      third = (rw low16 at g.four_two) ∙ omega arith;
      fourth = omega arith;
    }

-- Three bytes are written as four digits.
group :
    (a b c l : ℕ) (rest w r : List ℕ) (j y1 y2 y3 y4 : ℕ)
    → a < 256
    → b < 256
    → c < 256
    → j ≡ length w
    → encode_loop (a ∷ b ∷ c ∷ rest) 0 l (j, w ++ (y1 ∷ y2 ∷ y3 ∷ y4 ∷ r))
      ≡ encode_loop rest 0 c (
        j + 4,
        (w
              ++ (digit1 (word a b c)
                  ∷ digit2 (word a b c)
                  ∷ digit3 (word a b c)
                  ∷ digit4 (word a b c)
                  ∷ []))
            ++ r,
      )
unfolding encode_loop encode_byte
group a b c l rest w r j y1 y2 y3 y4 ha hb hc e =
    let v = values a b c ha hb hc in
    let n1 = word a b c / 262144 % 64 in
    let n2 = word a b c / 4096 % 64 in
    let n3 = word a b c / 64 % 64 in
    let n4 = word a b c % 64 in
    let w1 = w ++ (digit n1 ∷ []) in
    let w2 = w1 ++ (digit n2 ∷ []) in
    let w3 = w2 ++ (digit n3 ∷ []) in
    let e1 : j + 1 ≡ length w1 = omega (arith, length-append w (digit n1 ∷ [])) in
    let e2 : j + 1 + 1 ≡ length w2 = omega (arith, length-append w1 (digit n2 ∷ [])) in
    let e3 : j + 1 + 1 + 1 ≡ length w3 = omega (arith, length-append w2 (digit n3 ∷ [])) in
    rw
      (
        v.first,
        v.second,
        v.third,
        v.fourth,
        put_char-append w (y1 ∷ y2 ∷ y3 ∷ y4 ∷ r) j n1 (omega arith) e (omega arith),
        put_char-append w1 (y2 ∷ y3 ∷ y4 ∷ r) (j + 1) n2 (omega arith) e1 (omega arith),
        put_char-append w2 (y3 ∷ y4 ∷ r) (j + 1 + 1) n3 (omega arith) e2 (omega arith),
        put_char-append w3 (y4 ∷ r) (j + 1 + 1 + 1) n4 (omega arith) e3 (omega arith),
      )
      (ap₂ (λ x y. encode_loop rest 0 c (x, y)) (omega arith) (simp append_assoc))

-- What is left when one or two bytes remain.
tail1 :
    (a l : ℕ) (w : List ℕ) (j y1 y2 y3 y4 : ℕ)
    → a < 256
    → j ≡ length w
    → encode_loop (a ∷ []) 0 l (j, w ++ (y1 ∷ y2 ∷ y3 ∷ y4 ∷ []))
      ≡ some (j + 4, w ++ encoded (a ∷ []))
unfolding encode_loop encode_byte encode_end
tail1 a l w j y1 y2 y3 y4 ha e =
    let n1 = word a 0 0 / 262144 % 64 in
    let n2 = word a 0 0 / 4096 % 64 in
    let q1 : a / 4 % 64 ≡ n1 = omega arith in
    let q2 : a % 4 * 16 ≡ n2 = omega arith in
    let w1 = w ++ (digit n1 ∷ []) in
    let w2 = w1 ++ (digit n2 ∷ []) in
    let w3 = w2 ++ (pad ∷ []) in
    let e1 : j + 1 ≡ length w1 = omega (arith, length-append w (digit n1 ∷ [])) in
    let e2 : j + 1 + 1 ≡ length w2 = omega (arith, length-append w1 (digit n2 ∷ [])) in
    let e3 : j + 1 + 1 + 1 ≡ length w3 = omega (arith, length-append w2 (pad ∷ [])) in
    rw
      (
        q1,
        q2,
        put_char-append w (y1 ∷ y2 ∷ y3 ∷ y4 ∷ []) j n1 (omega arith) e (omega arith),
        put_char-append w1 (y2 ∷ y3 ∷ y4 ∷ []) (j + 1) n2 (omega arith) e1 (omega arith),
        put_pad-append w2 (y3 ∷ y4 ∷ []) (j + 1 + 1) e2 (omega arith),
        put_pad-append w3 (y4 ∷ []) (j + 1 + 1 + 1) e3 (omega arith),
      )
      (ap₂ (λ (x : ℕ) (y : List ℕ). some (x, y)) (omega arith) (simp append_assoc))

tail2 :
    (a b l : ℕ) (w : List ℕ) (j y1 y2 y3 y4 : ℕ)
    → a < 256
    → b < 256
    → j ≡ length w
    → encode_loop (a ∷ b ∷ []) 0 l (j, w ++ (y1 ∷ y2 ∷ y3 ∷ y4 ∷ []))
      ≡ some (j + 4, w ++ encoded (a ∷ b ∷ []))
unfolding encode_loop encode_byte encode_end
tail2 a b l w j y1 y2 y3 y4 ha hb e =
    let v = values a b 0 ha hb (omega arith) in
    let n1 = word a b 0 / 262144 % 64 in
    let n2 = word a b 0 / 4096 % 64 in
    let n3 = word a b 0 / 64 % 64 in
    let q3 : b % 16 * 4 ≡ n3 = omega arith in
    let w1 = w ++ (digit n1 ∷ []) in
    let w2 = w1 ++ (digit n2 ∷ []) in
    let w3 = w2 ++ (digit n3 ∷ []) in
    let e1 : j + 1 ≡ length w1 = omega (arith, length-append w (digit n1 ∷ [])) in
    let e2 : j + 1 + 1 ≡ length w2 = omega (arith, length-append w1 (digit n2 ∷ [])) in
    let e3 : j + 1 + 1 + 1 ≡ length w3 = omega (arith, length-append w2 (digit n3 ∷ [])) in
    rw
      (
        v.first,
        v.second,
        q3,
        put_char-append w (y1 ∷ y2 ∷ y3 ∷ y4 ∷ []) j n1 (omega arith) e (omega arith),
        put_char-append w1 (y2 ∷ y3 ∷ y4 ∷ []) (j + 1) n2 (omega arith) e1 (omega arith),
        put_char-append w2 (y3 ∷ y4 ∷ []) (j + 1 + 1) n3 (omega arith) e2 (omega arith),
        put_pad-append w3 (y4 ∷ []) (j + 1 + 1 + 1) e3 (omega arith),
      )
      (ap₂ (λ (x : ℕ) (y : List ℕ). some (x, y)) (omega arith) (simp append_assoc))

-- The loop fills exactly the room that the text needs.
encode_loop-encoded :
    (xs : List ℕ) (l : ℕ) (w r : List ℕ) (j : ℕ)
    → AreBytes xs
    → j ≡ length w
    → length r ≡ length (encoded xs)
    → encode_loop xs 0 l (j, w ++ r) ≡ some (j + length r, w ++ encoded xs)
unfolding encode_loop encode_end
encode_loop-encoded [] l w [] j h e len =
    ap₂ (λ (x : ℕ) (y : List ℕ). some (x, y)) (omega arith) refl
encode_loop-encoded [] l w (y ∷ r) j h e len = absurd (omega arith)
encode_loop-encoded (a ∷ []) l w (y1 ∷ y2 ∷ y3 ∷ y4 ∷ []) j h e len =
    tail1 a l w j y1 y2 y3 y4 h.0 e
encode_loop-encoded (a ∷ []) l w _ j h e len = absurd (omega arith)
encode_loop-encoded (a ∷ b ∷ []) l w (y1 ∷ y2 ∷ y3 ∷ y4 ∷ []) j h e len =
    tail2 a b l w j y1 y2 y3 y4 h.0 h.1.0 e
encode_loop-encoded (a ∷ b ∷ []) l w _ j h e len = absurd (omega arith)
encode_loop-encoded (a ∷ b ∷ c ∷ rest) l w (y1 ∷ y2 ∷ y3 ∷ y4 ∷ r) j h e len =
    let w' =
      w
      ++ (digit1 (word a b c)
          ∷ digit2 (word a b c)
          ∷ digit3 (word a b c)
          ∷ digit4 (word a b c)
          ∷ []) in
    group a b c l rest w r j y1 y2 y3 y4 h.0 h.1.0 h.1.1.0 e
    ∙ encode_loop-encoded rest c w' r (j + 4) h.1.1.1
        (omega (
          arith,
          length-append w (
              digit1 (word a b c)
              ∷ digit2 (word a b c)
              ∷ digit3 (word a b c)
              ∷ digit4 (word a b c)
              ∷ []),
        ))
        (omega arith)
    ∙ ap₂ (λ (x : ℕ) (y : List ℕ). some (x, y)) (omega arith)
        (append_assoc w
          (digit1 (word a b c)
            ∷ digit2 (word a b c)
            ∷ digit3 (word a b c)
            ∷ digit4 (word a b c)
            ∷ [])
          (encoded rest))
encode_loop-encoded (a ∷ b ∷ c ∷ rest) l w _ j h e len = absurd (omega arith)

pub length-encoded : (xs : List ℕ) → length (encoded xs) ≡ (length xs + 2) / 3 * 4
length-encoded [] = omega arith
length-encoded (a ∷ []) = omega arith
length-encoded (a ∷ b ∷ []) = omega arith
length-encoded (a ∷ b ∷ c ∷ rest) = omega (arith, length-encoded rest)

pub length-fresh : (mem : ℕ → ℕ) (i n : ℕ) → length (fresh mem i n) ≡ n
unfolding fresh
length-fresh mem i zero = refl
length-fresh mem i (suc n) = ap suc (length-fresh mem (i + 1) n)

-- For bytes fewer than 2 ^ 31 (the length of an R raw vector is an int), whatever the fresh memory
-- holds, the encoder stays inside its tables and its output vector, no size computation wraps, and
-- the result is the base64 text of RFC 4648.
pub encode-encoded :
    (mem : ℕ → ℕ) (xs : List ℕ)
    → AreBytes xs
    → length xs < 2 ^ 31
    → encode mem xs ≡ some (encoded xs)
unfolding encode
encode-encoded mem xs h lt =
    let size = encode_out_size (length xs) in
    let fits : length (fresh mem 0 size) ≡ length (encoded xs) =
      omega (arith, length-fresh mem 0 size, length-encoded xs) in
    rw (encode_loop-encoded xs 0 [] (fresh mem 0 size) 0 h refl fits)
