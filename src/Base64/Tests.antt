-- ===== src/Base64/Tests.antt =====
-- Runs of the encoder and the decoder, and the theorems at concrete input.
use processx.Base.{ℕ, ◌+◌, ◌≡◌, refl, none, some, List, [], ◌∷◌, ◌++◌, ◌>>=◌, arith}
use processx.Base64.{
  fresh, put_char, put_pad, encode_byte, encode_end, encode_loop, encode, decode_bits, decode_loop,
  finish, decode,
}
use processx.Base64.Spec.{encoded}
use processx.Base64.Encode.{encode-encoded}
use processx.Base64.Decode.Whole.{decode-encode}
use processx.Base64.Safety.{digits, decode-total, decode_high_byte}

abbrev mem : ℕ → ℕ
mem i = i + 200

-- "foobar", as in the tests of the package
abbrev foobar : List ℕ
foobar = b'f' ∷ b'o' ∷ b'o' ∷ b'b' ∷ b'a' ∷ b'r' ∷ []

abbrev encoded_foobar : List ℕ
encoded_foobar = b'Z' ∷ b'm' ∷ b'9' ∷ b'v' ∷ b'Y' ∷ b'm' ∷ b'F' ∷ b'y' ∷ []

encode-foobar : encode mem foobar ≡ some encoded_foobar
unfolding encode fresh encode_loop encode_byte encode_end put_char
encode-foobar = refl

-- " ", as in the tests of the package
encode-space : encode mem (32 ∷ []) ≡ some (b'I' ∷ b'A' ∷ b'=' ∷ b'=' ∷ [])
unfolding encode fresh encode_loop encode_byte encode_end put_char put_pad
encode-space = refl

decode-foobar : decode mem encoded_foobar ≡ some foobar
unfolding decode fresh decode_loop decode_bits finish
decode-foobar = refl

encode-encoded_example : encode mem foobar ≡ some (encoded foobar)
encode-encoded_example = encode-encoded mem foobar (omega arith) (omega arith)

-- Two bytes come back as three.
decode-encode_example :
    (encode mem (b'h' ∷ b'i' ∷ []) >>= λ text. decode mem text) ≡ some (b'h' ∷ b'i' ∷ 0 ∷ [])
decode-encode_example = decode-encode mem mem (b'h' ∷ b'i' ∷ []) (omega arith) (omega arith)

decode-total_example : (out : List ℕ) × (decode mem (b'a' ∷ b'=' ∷ b'!' ∷ b'b' ∷ []) ≡ some out)
decode-total_example = decode-total mem (b'a' ∷ b'=' ∷ b'!' ∷ b'b' ∷ []) (omega arith) (omega arith)

-- The text "AQ", then the bytes of "é" in UTF-8.
decode_high_byte_example : decode mem (digits (0 ∷ 16 ∷ []) ++ (0xc3 ∷ 0xa9 ∷ [])) ≡ none
decode_high_byte_example =
    decode_high_byte mem (0 ∷ 16 ∷ []) 0xc3 (0xa9 ∷ []) (omega arith) (omega arith) refl
