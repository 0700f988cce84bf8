-- ===== src/Base64/Safety.antt =====
-- On which input `processx_base64_decode` stays inside its arrays.
use Prim.Native.Nat.{bit_or}
use processx.Base.{
  ℕ, zero, suc, ◌+◌, ◌*◌, ◌/◌, ◌%◌, ◌^◌, ◌≤◌, ◌<◌, ◌≡◌, ◌≢◌, refl, inl, inr, ◌∙◌, none, some, List,
  [], ◌∷◌, ◌++◌, false, arith, ◌==◌, if◌then◌else◌, lt→ltb, Bool-cases, Option-cases, ==→eq, ==→ne,
  length, length-set, set, get_elem?,
}
use processx.Base64.{
  decode_out_size, pad, fresh, Out, base64de, decode_bits, Stopped, ended, bad_char, decode_loop,
  finish, decode,
}
use processx.Base64.Encode.{length-fresh}
use processx.Base64.Spec.{digit}
use processx.Base64.Words.{base64de-digit, digit-ne-pad}

-- All bytes below `n`.
abbrev pub AllBelow : ℕ → List ℕ → Type 0
AllBelow n [] = Unit
AllBelow n (x ∷ xs) = (x < n) × AllBelow n xs

get_elem?-total :
    {A : Type 0} (xs : List A) (i : ℕ) → i < length xs → (x : A) × (get_elem? xs i ≡ some x)
get_elem?-total [] i h = elim h [ ]
get_elem?-total (x ∷ xs) zero h = (x, refl)
get_elem?-total (x ∷ xs) (suc i) h = get_elem?-total xs i (omega arith)

-- The bits of a character go inside the vector, if there is room at `j`, and at `j + 1` unless
-- the group is at its first or last character.
decode_bits-total :
    (k c j : ℕ) (out : List ℕ)
    → k < 4
    → j < length out
    → (k ≢ 3 → j + 1 < length out)
    → (out' : List ℕ) × (decode_bits k c (j, out) ≡ some (if k == 0 then j else j + 1, out'))
      × (length out' ≡ length out)
unfolding decode_bits
decode_bits-total zero c j out h lt more =
    (set out j (c * 4 % 256), rw (lt→ltb j (length out) lt), length-set out j (c * 4 % 256))
decode_bits-total (suc zero) c j out h lt more =
    let (old, e) = get_elem?-total out j lt in
    let out1 = set out j (bit_or old (c / 16 % 4)) in
    let same = length-set out j (bit_or old (c / 16 % 4)) in
    (
      set out1 (j + 1) (c % 16 * 16),
      rw (e, lt→ltb j (length out) lt, lt→ltb (j + 1) (length out1) (rw same (more (omega arith)))),
      length-set out1 (j + 1) (c % 16 * 16) ∙ same,
    )
decode_bits-total (suc (suc zero)) c j out h lt more =
    let (old, e) = get_elem?-total out j lt in
    let out1 = set out j (bit_or old (c / 4 % 16)) in
    let same = length-set out j (bit_or old (c / 4 % 16)) in
    (
      set out1 (j + 1) (c % 4 * 64),
      rw (e, lt→ltb j (length out) lt, lt→ltb (j + 1) (length out1) (rw same (more (omega arith)))),
      length-set out1 (j + 1) (c % 4 * 64) ∙ same,
    )
decode_bits-total (suc (suc (suc zero))) c j out h lt more =
    let (old, e) = get_elem?-total out j lt in
    (set out j (bit_or old c), rw (e, lt→ltb j (length out) lt), length-set out j (bit_or old c))
decode_bits-total (suc (suc (suc (suc k)))) c j out h lt more = absurd (omega arith)

next_position : (i j : ℕ) → j ≡ i * 3 / 4 → (if i % 4 == 0 then j else j + 1) ≡ (i + 1) * 3 / 4
next_position i j e = elim (Bool-cases (i % 4 == 0)) [
  | inl first ↦ rw first (omega (arith, ==→eq (i % 4) 0 first))
  | inr later ↦ rw later (omega (arith, ==→ne (i % 4) 0 later))
]

-- At position `i` the decoder writes at byte `i * 3 / 4`.
decode_loop-total :
    (chs : List ℕ) (i j : ℕ) (out : List ℕ)
    → AllBelow 128 chs
    → j ≡ i * 3 / 4
    → (i + length chs) % 4 ≡ 0
    → length out ≡ (i + length chs) / 4 * 3
    → (s : Stopped) × (decode_loop chs i (j, out) ≡ some s)
unfolding decode_loop
decode_loop-total [] i j out h e k len = (ended (j, out), refl)
decode_loop-total (ch ∷ chs) i j out h e k len = elim (Bool-cases (ch == pad)) [
  | inl stop ↦ (ended (j, out), rw stop)
  | inr more ↦
      let (c, found) = get_elem?-total base64de ch h.0 in
      elim (Bool-cases (c == 255)) [
        | inl bad ↦ (bad_char out, rw (more, found, bad))
        | inr good ↦
            let (out', stored, same) =
              decode_bits-total (i % 4) c j out (omega arith) (omega arith) (λ ne. omega arith) in
            let rest =
              decode_loop-total chs (i + 1) (if i % 4 == 0 then j else j + 1) out' h.1
                (next_position i j e) (omega arith) (omega arith) in
            (rest.0, rw (more, found, good, stored) rest.1)
      ]
]

-- On text without bytes of 128 and more the decoder reads and writes only inside its arrays, and
-- returns: whatever the characters and the padding are, and whatever the fresh memory holds.
pub decode-total :
    (mem : ℕ → ℕ) (text : List ℕ)
    → AllBelow 128 text
    → length text < 2 ^ 31
    → (out : List ℕ) × (decode mem text ≡ some out)
unfolding decode
decode-total mem text h lt = elim (Bool-cases (length text % 4 == 0)) [
  | inl whole ↦
      let size = decode_out_size (length text) in
      let (s, e) =
        decode_loop-total text 0 0 (fresh mem 0 size) h refl (ground arith)
          (omega (arith, length-fresh mem 0 size)) in
      (finish size s, rw (whole, e))
  | inr short ↦ (fresh mem 0 (decode_out_size (length text)), rw short)
]

-- The values of the digits before a position.
abbrev pub digits : List ℕ → List ℕ
digits [] = []
digits (v ∷ vs) = digit v ∷ digits vs

get_elem?-beyond : {A : Type 0} (xs : List A) (i : ℕ) → length xs ≤ i → get_elem? xs i ≡ none
get_elem?-beyond [] i h = refl
get_elem?-beyond (x ∷ xs) zero h = absurd (omega arith)
get_elem?-beyond (x ∷ xs) (suc i) h = get_elem?-beyond xs i (omega arith)

not_255 : (v : ℕ) → v < 64 → (v == 255) ≡ false
not_255 v h = ground arith

decode_loop_high :
    (vs : List ℕ) (high : ℕ) (rest : List ℕ) (i : ℕ) (o : Out)
    → AllBelow 64 vs
    → 128 ≤ high
    → decode_loop (digits vs ++ (high ∷ rest)) i o ≡ none
unfolding decode_loop
decode_loop_high [] high rest i o h big =
    let no_pad : (high == pad) ≡ false = ground arith in
    rw (no_pad, get_elem?-beyond base64de high big)
decode_loop_high (v ∷ vs) high rest i o h big =
    rw (digit-ne-pad v h.0, base64de-digit v h.0, not_255 v h.0)
      (elim (Option-cases (decode_bits (i % 4) v o)) [
        | inl fault ↦ rw fault
        | inr found ↦ rw (found.1) (decode_loop_high vs high rest (i + 1) found.0 h.1 big)
      ])

-- A byte of 128 or more behind any number of digits makes the decoder read outside of its
-- decoding table, which has 128 entries, if the length of the text is a multiple of 4.
pub decode_high_byte :
    (mem : ℕ → ℕ) (vs : List ℕ) (high : ℕ) (rest : List ℕ)
    → AllBelow 64 vs
    → 128 ≤ high
    → length (digits vs ++ (high ∷ rest)) % 4 ≡ 0
    → decode mem (digits vs ++ (high ∷ rest)) ≡ none
unfolding decode
decode_high_byte mem vs high rest h big whole = rw (
  whole,
  decode_loop_high vs high rest 0
      (0, fresh mem 0 (decode_out_size (length (digits vs ++ (high ∷ rest))))) h big,
)
