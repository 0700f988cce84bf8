-- ===== src/Base64/Words.antt =====
-- The tables and the bit operations of src/base64.c on all values that they meet.
use Prim.Native.Nat.{bit_or}
use processx.Base.{
  ℕ, zero, suc, ◌+◌, ◌*◌, ◌%◌, ◌≤◌, ◌<◌, ◌≡◌, refl, subst, inl, inr, Bool-cases, ==→eq, ==→ne, Bool,
  true, false, ◌&&◌, Option, none, some, arith, ◌==◌, get_elem?,
}
use processx.Base64.{base64en, base64de, pad}
use processx.Base64.Spec.{digit}

-- A test on the `count` numbers from `first` on.
passes : (ℕ → Bool) → ℕ → ℕ → Bool
passes test first zero = true
passes test first (suc count) = test first && passes test (first + 1) count

-- Each of the numbers passes, if all do.
passes_each :
    (test : ℕ → Bool) (first count v : ℕ)
    → passes test first count ≡ true
    → first ≤ v
    → v < first + count
    → test v ≡ true
unfolding passes
passes_each test first zero v all ge lt = absurd (omega arith)
passes_each test first (suc count) v all ge lt = elim (Bool-cases (first == v)) [
  | inl same ↦
      let here : test first ≡ true = ground arith in
      subst (λ (x : ℕ). test x ≡ true) (==→eq first v same) here
  | inr later ↦
      passes_each test (first + 1) count v (ground arith) (omega (arith, ==→ne first v later))
        (omega arith)
]

abbrev holds : Option ℕ → ℕ → Bool
holds none v = false
holds (some x) v = x == v

holds-eq : (o : Option ℕ) (v : ℕ) → holds o v ≡ true → o ≡ some v
holds-eq none v h = cc
holds-eq (some x) v h = ground arith

encode_table : passes (λ v. holds (get_elem? base64en v) (digit v)) 0 64 ≡ true
unfolding passes digit
encode_table = refl

-- The encoding table holds the digits in order.
pub base64en-digit : (v : ℕ) → v < 64 → get_elem? base64en v ≡ some (digit v)
base64en-digit v h =
    holds-eq (get_elem? base64en v) (digit v) (
      passes_each (λ x. holds (get_elem? base64en x) (digit x)) 0 64 v encode_table (omega arith) h)

decode_table : passes (λ v. holds (get_elem? base64de (digit v)) v) 0 64 ≡ true
unfolding passes digit
decode_table = refl

-- The decoding table takes each digit back to its value.
pub base64de-digit : (v : ℕ) → v < 64 → get_elem? base64de (digit v) ≡ some v
base64de-digit v h =
    holds-eq (get_elem? base64de (digit v)) v (
      passes_each (λ x. holds (get_elem? base64de (digit x)) x) 0 64 v decode_table (omega arith) h)

-- No digit is the padding.
pub digit-ne-pad : (v : ℕ) → v < 64 → (digit v == pad) ≡ false
unfolding digit
digit-ne-pad v h = ground arith

-- Or of fields that do not overlap is their sum.
abbrev no_overlap : ℕ → ℕ → Bool
no_overlap hi lo =
    (bit_or (hi % 4 * 16) (lo % 16) == hi % 4 * 16 + lo % 16)
    && (bit_or (hi % 16 * 4) (lo % 4) == hi % 16 * 4 + lo % 4)
    && (bit_or (hi * 4) (lo % 4) == hi * 4 + lo % 4)
    && (bit_or (hi % 16 * 16) (lo % 16) == hi % 16 * 16 + lo % 16)
    && (bit_or (hi % 4 * 64) lo == hi % 4 * 64 + lo)

fields_table : passes (λ hi. passes (λ lo. no_overlap hi lo) 0 64) 0 64 ≡ true
unfolding passes
fields_table = refl

pub record Fields (hi lo : ℕ) : Type 0 where
  pub two_four : bit_or (hi % 4 * 16) (lo % 16) ≡ hi % 4 * 16 + lo % 16
  pub four_two : bit_or (hi % 16 * 4) (lo % 4) ≡ hi % 16 * 4 + lo % 4
  pub six_two : bit_or (hi * 4) (lo % 4) ≡ hi * 4 + lo % 4
  pub four_four : bit_or (hi % 16 * 16) (lo % 16) ≡ hi % 16 * 16 + lo % 16
  pub two_six : bit_or (hi % 4 * 64) lo ≡ hi % 4 * 64 + lo

pub fields : (hi lo : ℕ) → hi < 64 → lo < 64 → Fields hi lo
fields hi lo h l =
    let row =
      passes_each (λ x. passes (λ y. no_overlap x y) 0 64) 0 64 hi fields_table (omega arith) h in
    let cell = passes_each (λ y. no_overlap hi y) 0 64 lo row (omega arith) l in ground arith
