-- ===== src/Base64/Spec.antt =====
-- What base64 is (RFC 4648, section 4), stated without the tables and the bit operations of
-- src/base64.c: three bytes are one number of 24 bits, which is written as four digits of 6 bits.
use processx.Base.{ℕ, ◌+◌, ◌-◌, ◌*◌, ◌/◌, ◌%◌, ◌<◌, List, [], ◌∷◌, ltb, ◌==◌, if◌then◌else◌}

-- The character of a digit: A to Z, a to z, 0 to 9, + and /.
unfoldable pub digit : ℕ → ℕ
digit v =
    if ltb v 26
    then b'A' + v
    else if ltb v 52
    then b'a' + (v - 26)
    else if ltb v 62
    then b'0' + (v - 52)
    else if v == 62
    then b'+'
    else b'/'

-- The four digits of a number of 24 bits, the highest first.
abbrev pub digit1 : ℕ → ℕ
digit1 n = digit (n / 262144 % 64)

abbrev pub digit2 : ℕ → ℕ
digit2 n = digit (n / 4096 % 64)

abbrev pub digit3 : ℕ → ℕ
digit3 n = digit (n / 64 % 64)

abbrev pub digit4 : ℕ → ℕ
digit4 n = digit (n % 64)

abbrev pub word : ℕ → ℕ → ℕ → ℕ
word a b c = a * 65536 + b * 256 + c

-- A last group of one or two bytes is filled up with zero bits, and with padding.
abbrev pub encoded : List ℕ → List ℕ
encoded [] = []
encoded (a ∷ []) = digit1 (word a 0 0) ∷ digit2 (word a 0 0) ∷ b'=' ∷ b'=' ∷ []
encoded (a ∷ b ∷ []) = digit1 (word a b 0) ∷ digit2 (word a b 0) ∷ digit3 (word a b 0) ∷ b'=' ∷ []
encoded (a ∷ b ∷ c ∷ rest) =
    digit1 (word a b c)
    ∷ digit2 (word a b c)
    ∷ digit3 (word a b c)
    ∷ digit4 (word a b c)
    ∷ encoded rest

abbrev pub AreBytes : List ℕ → Type 0
AreBytes [] = Unit
AreBytes (x ∷ xs) = (x < 256) × AreBytes xs
