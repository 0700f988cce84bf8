-- ===== src/Connection/Chars/Limits.antt =====
-- The characters that `read_chars` takes: how many, and out of how many bytes.
use processx.Base.{
  ℕ, zero, suc, ◌+◌, ◌-◌, ◌≤◌, ◌≡◌, refl, false, ◌||◌, Option, none, some, List, [], ◌∷◌, Result,
  ok, throw, arith, ltb, Bool-cases, Option-cases, inl, inr, length, drop, length-drop, ltb→ge,
}
use processx.Connection.Types.{Fault, invalid_utf8}
use processx.Connection.Chars.Find.{
  Span, start_length, is_spent, spend, too_long, find_loop, find_utf8_chars,
}

-- A limit (`none` for none) holds.
abbrev pub AtMost : Option ℕ → ℕ → Type 0
AtMost none n = Unit
AtMost (some limit) n = n ≤ limit

-- From the counts `s` to the counts `s'`: inside the bytes `rest`, and within both limits.
pub record Within (maxchars maxbytes : Option ℕ) (rest : List ℕ) (s s' : Span) : Type 0 where
  pub more_chars : s.chars ≤ s'.chars
  pub bytes_grow : s.bytes ≤ s'.bytes
  pub inside : s'.bytes ≤ s.bytes + length rest
  pub few_chars : AtMost maxchars (s'.chars - s.chars)
  pub few_bytes : AtMost maxbytes (s'.bytes - s.bytes)

-- What the loop may come to: counts within the limits, or the error for invalid UTF-8.
abbrev pub Counted : Option ℕ → Option ℕ → List ℕ → Span → Result Fault Span → Type 0
Counted mc mb rest s (ok s') = Within mc mb rest s s'
Counted mc mb rest s (throw e) = e ≡ invalid_utf8

AtMost-zero : (o : Option ℕ) (n : ℕ) → n ≡ 0 → AtMost o n
AtMost-zero none n e = tt
AtMost-zero (some limit) n e = omega arith

pub Within-self : (mc mb : Option ℕ) (rest : List ℕ) (s : Span) → Within mc mb rest s s
Within-self mc mb rest s = record {
  more_chars = omega arith;
  bytes_grow = omega arith;
  inside = omega arith;
  few_chars = AtMost-zero mc (s.chars - s.chars) (omega arith);
  few_bytes = AtMost-zero mb (s.bytes - s.bytes) (omega arith);
}

AtMost-spend :
    (k : ℕ) (o : Option ℕ) (a b : ℕ) → AtMost o k → AtMost (spend k o) a → b ≤ a + k → AtMost o b
AtMost-spend k none a b h1 h2 h3 = tt
AtMost-spend k (some n) a b h1 h2 h3 = omega arith

-- One character of `k` bytes more.
Counted-step :
    (k : ℕ) (mc mb : Option ℕ) (rest rest' : List ℕ) (s : Span) (r : Result Fault Span)
    → length rest' + k ≡ length rest
    → AtMost mc 1
    → AtMost mb k
    → Counted
        (spend 1 mc)
        (spend k mb)
        rest'
        (record { chars = s.chars + 1; bytes = s.bytes + k })
        r
    → Counted mc mb rest s r
Counted-step k mc mb rest rest' s (throw e) len h1 h2 c = c
Counted-step k mc mb rest rest' s (ok s') len h1 h2 c =
    let s1 : Span = record { chars = s.chars + 1; bytes = s.bytes + k } in
    record {
      more_chars = omega (arith, c.more_chars);
      bytes_grow = omega (arith, c.bytes_grow);
      inside = omega (arith, c.inside, len);
      few_chars =
          AtMost-spend 1 mc (s'.chars - (s.chars + 1)) (s'.chars - s.chars) h1 c.few_chars
            (omega (arith, c.more_chars));
      few_bytes =
          AtMost-spend k mb (s'.bytes - (s.bytes + k)) (s'.bytes - s.bytes) h2 c.few_bytes
            (omega (arith, c.bytes_grow));
    }

not_spent : (o : Option ℕ) → is_spent o ≡ false → AtMost o 1
not_spent none h = tt
not_spent (some n) h = ground arith

not_too_long : (k : ℕ) (o : Option ℕ) → is_spent o ≡ false → too_long k o ≡ false → AtMost o k
not_too_long k none h t = tt
not_too_long k (some n) h t = ground arith

find_loop-Counted :
    (fuel : ℕ) (mc mb : Option ℕ) (rest : List ℕ) (s : Span)
    → Counted mc mb rest s (find_loop fuel mc mb rest s)
unfolding find_loop
find_loop-Counted zero mc mb rest s = Within-self mc mb rest s
find_loop-Counted (suc fuel) mc mb [] s = Within-self mc mb [] s
find_loop-Counted (suc fuel) mc mb (b ∷ rest) s = elim (Bool-cases (is_spent mc || is_spent mb)) [
  | inl stop ↦ rw stop (Within-self mc mb (b ∷ rest) s)
  | inr goes_on ↦
      let one = not_spent mc (ground arith) in
      rw goes_on (elim (Bool-cases (ltb b 128)) [
        | inl ascii ↦ rw ascii (
            Counted-step 1 mc mb (b ∷ rest) rest s _ (omega arith) one (not_spent mb (ground arith))
              (find_loop-Counted fuel (spend 1 mc) (spend 1 mb) rest _))
        | inr wide ↦ rw wide (elim (Option-cases (start_length b)) [
          | inl bad ↦ rw bad refl
          | inr (k, starts) ↦ rw starts (elim (Bool-cases (ltb (length (b ∷ rest)) k)) [
            | inl cut ↦ rw cut refl
            | inr whole ↦ rw whole (elim (Bool-cases (too_long k mb)) [
              | inl long ↦ rw long (Within-self mc mb (b ∷ rest) s)
              | inr fits ↦ rw fits (
                  Counted-step k mc mb (b ∷ rest) (drop k (b ∷ rest)) s _
                    (omega (arith, length-drop k (b ∷ rest), ltb→ge (length (b ∷ rest)) k whole))
                    one (not_too_long k mb (ground arith) fits)
                    (find_loop-Counted fuel (spend 1 mc) (spend k mb) (drop k (b ∷ rest)) _))
            ])
          ])
        ])
      ])
]

-- `processx__connection_find_utf8_chars` finds no more characters than `maxchars` and no more
-- bytes than `maxbytes`, all of them inside the buffer; the only error is the one for invalid
-- UTF-8.
pub find_utf8_chars-Counted :
    (maxchars maxbytes : Option ℕ) (utf8 : List ℕ)
    → Counted maxchars maxbytes utf8
        (record { chars = 0; bytes = 0 })
        (find_utf8_chars maxchars maxbytes utf8)
unfolding find_utf8_chars
find_utf8_chars-Counted mc mb utf8 =
    find_loop-Counted (length utf8) mc mb utf8 (record { chars = 0; bytes = 0 })
