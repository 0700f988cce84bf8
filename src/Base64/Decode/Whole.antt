-- ===== src/Base64/Decode/Whole.antt =====
-- The loop of `processx_base64_decode` on a whole text, and what is cut at its end.
use processx.Base.{
  ge→ltb, take-append_le, take_all, ℕ, suc, ◌+◌, ◌*◌, ◌/◌, ◌%◌, ◌^◌, ◌≤◌, ◌<◌, ◌≡◌, refl, some,
  List, [], ◌∷◌, ◌++◌, ◌>>=◌, arith, ◌==◌, if◌then◌else◌, lt→ltb, length, length-append,
  append_assoc,
}
use processx.Base64.{decode_out_size, pad, fresh, Out, ended, decode_loop, finish, decode, encode}
use processx.Base64.Spec.{digit3, digit4, word, encoded, AreBytes}
use processx.Base64.Encode.{length-encoded, length-fresh, encode-encoded}
use processx.Base64.Decode.{two_digits, third_digit, fourth_digit}

-- What the decoder leaves behind the bytes: a zero byte after a last group of two.
abbrev surplus : List ℕ → List ℕ
surplus [] = []
surplus (a ∷ []) = []
surplus (a ∷ b ∷ []) = 0 ∷ []
surplus (a ∷ b ∷ c ∷ rest) = surplus rest

decode_loop-nil : (i : ℕ) (o : Out) → decode_loop [] i o ≡ some (ended o)
unfolding decode_loop
decode_loop-nil i o = refl

decode_loop-pad : (chs : List ℕ) (i : ℕ) (o : Out) → decode_loop (pad ∷ chs) i o ≡ some (ended o)
unfolding decode_loop
decode_loop-pad chs i o = refl

-- The result is not cut if the bytes and one more fill the vector.
finish_whole : (w : List ℕ) (j outlen : ℕ) → outlen ≤ j + 1 → finish outlen (ended (j, w)) ≡ w
unfolding finish
finish_whole w j outlen h = rw (ge→ltb (j + 1) outlen h)

finish_cut :
    (w r : List ℕ) (j outlen : ℕ)
    → j + 1 < outlen
    → j ≡ length w
    → finish outlen (ended (j, w ++ r)) ≡ w
unfolding finish
finish_cut w r j outlen h e =
    rw (lt→ltb (j + 1) outlen h, take-append_le j w r (omega arith), take_all j w (omega arith))

decode_loop-encoded :
    (xs w r : List ℕ) (i j outlen : ℕ)
    → AreBytes xs
    → i % 4 ≡ 0
    → j ≡ length w
    → length r ≡ (length xs + 2) / 3 * 3
    → outlen ≡ j + length r
    → (decode_loop (encoded xs) i (j, w ++ r) >>= λ s. some (finish outlen s))
      ≡ some (w ++ (xs ++ surplus xs))
decode_loop-encoded [] w [] i j outlen h e k len o =
    rw (decode_loop-nil i (j, w ++ []), finish_whole (w ++ []) j outlen (omega arith))
decode_loop-encoded [] w (y ∷ r) i j outlen h e k len o = absurd (omega arith)
decode_loop-encoded (a ∷ []) w (y1 ∷ y2 ∷ y3 ∷ []) i j outlen h e k len o =
    let last = word a 0 0 / 4096 % 64 % 16 * 16 ∷ y3 ∷ [] in
    rw (
      two_digits a 0 0 (pad ∷ pad ∷ []) w (y3 ∷ []) i j y1 y2 h.0 (omega arith) (omega arith) e k,
      decode_loop-pad (pad ∷ []) (i + 2) (j + 1, (w ++ (a ∷ [])) ++ last),
      finish_cut (w ++ (a ∷ [])) last (j + 1) outlen (omega arith)
          (omega (arith, length-append w (a ∷ []))),
    )
decode_loop-encoded (a ∷ []) w _ i j outlen h e k len o = absurd (omega arith)
decode_loop-encoded (a ∷ b ∷ []) w (y1 ∷ y2 ∷ y3 ∷ []) i j outlen h e k len o =
    let w2 = (w ++ (a ∷ [])) ++ (b ∷ []) in
    let zero_bits : word a b 0 / 64 % 64 % 4 * 64 ≡ 0 = omega arith in
    rw
      (
        two_digits a b 0 (digit3 (word a b 0) ∷ pad ∷ []) w (y3 ∷ []) i j y1 y2 h.0 h.1.0
            (omega arith) e k,
        third_digit a b 0 (pad ∷ []) (w ++ (a ∷ [])) [] (i + 2) (j + 1) y3 h.0 h.1.0 (omega arith)
            (omega arith) (omega (arith, length-append w (a ∷ []))),
        zero_bits,
        decode_loop-pad [] (i + 2 + 1) (j + 1 + 1, w2 ++ (0 ∷ [])),
        finish_whole (w2 ++ (0 ∷ [])) (j + 1 + 1) outlen (omega arith),
      )
      (simp append_assoc)
decode_loop-encoded (a ∷ b ∷ []) w _ i j outlen h e k len o = absurd (omega arith)
decode_loop-encoded (a ∷ b ∷ c ∷ rest) w (y1 ∷ y2 ∷ y3 ∷ r) i j outlen h e k len o =
    let w1 = w ++ (a ∷ []) in
    let w2 = w1 ++ (b ∷ []) in
    let w3 = w2 ++ (c ∷ []) in
    let k1 : j + 1 ≡ length w1 = omega (arith, length-append w (a ∷ [])) in
    let k2 : j + 1 + 1 ≡ length w2 = omega (arith, length-append w1 (b ∷ [])) in
    let k3 : j + 1 + 1 + 1 ≡ length w3 = omega (arith, length-append w2 (c ∷ [])) in
    rw
      (
        two_digits a b c (digit3 (word a b c) ∷ digit4 (word a b c) ∷ encoded rest) w (y3 ∷ r) i j
            y1 y2 h.0 h.1.0 h.1.1.0 e k,
        third_digit a b c (digit4 (word a b c) ∷ encoded rest) w1 r (i + 2) (j + 1) y3 h.0 h.1.0
            h.1.1.0 (omega arith) k1,
        fourth_digit a b c (encoded rest) w2 r (i + 2 + 1) (j + 1 + 1) h.0 h.1.0 h.1.1.0
            (omega arith) k2,
        decode_loop-encoded rest w3 r (i + 2 + 1 + 1) (j + 1 + 1 + 1) outlen h.1.1.1 (omega arith)
            k3 (omega arith) (omega arith),
      )
      (simp append_assoc)
decode_loop-encoded (a ∷ b ∷ c ∷ rest) w _ i j outlen h e k len o = absurd (omega arith)

surplus_lem : (xs : List ℕ) → surplus xs ≡ (if length xs % 3 == 2 then 0 ∷ [] else [])
surplus_lem [] = refl
surplus_lem (a ∷ []) = refl
surplus_lem (a ∷ b ∷ []) = refl
surplus_lem (a ∷ b ∷ c ∷ rest) =
    let e : suc (suc (suc (length rest))) % 3 ≡ length rest % 3 = omega arith in
    rw e (surplus_lem rest)

-- For bytes whose text is shorter than 2 ^ 31, whatever the fresh memory holds: the encoder and
-- then the decoder stay inside their tables and vectors, and give the bytes back, with one zero
-- byte too many if their number leaves 2 when divided by 3.
pub decode-encode :
    (mem mem' : ℕ → ℕ) (xs : List ℕ)
    → AreBytes xs
    → length (encoded xs) < 2 ^ 31
    → (encode mem xs >>= λ text. decode mem' text)
      ≡ some (xs ++ (if length xs % 3 == 2 then 0 ∷ [] else []))
unfolding decode
decode-encode mem mem' xs h lt =
    let size = decode_out_size (length (encoded xs)) in
    let whole : length (encoded xs) % 4 ≡ 0 = omega (arith, length-encoded xs) in
    let fits : length (fresh mem' 0 size) ≡ (length xs + 2) / 3 * 3 =
      omega (arith, length-fresh mem' 0 size, length-encoded xs) in
    rw (
      encode-encoded mem xs h (omega (arith, length-encoded xs)),
      whole,
      ← surplus_lem xs,
      decode_loop-encoded xs [] (fresh mem' 0 size) 0 0 size h refl refl fits
          (omega (arith, length-fresh mem' 0 size)),
    )
