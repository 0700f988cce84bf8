-- ===== src/Connection/Lines/Blind.antt =====
-- `processx__connection_read_until_newline` on data that come while it runs.
use processx.Base.{
  ◌+◌, ◌-◌, List, [], ◌∷◌, ltb, ge→ltb, take_all, take, ℕ, zero, suc, ◌≡◌, ◌≢◌, Bool, true, false,
  Option, none, some, Result, ok, throw, arith, ◌==◌, if◌then◌else◌, Bool-cases, inl, inr, length,
}
use processx.Connection.Types.{Conn, Fault, Platform, Io}
use processx.Connection.Read.{connection_read}
use processx.Connection.Lines.{
  between, skip_to_newline, realloc_if_full, look, search, read_until_newline,
}
use processx.Connection.Lines.First.{NoNewline}

skip-NoNewline : (ptr : ℕ) (bs : List ℕ) → NoNewline bs → skip_to_newline ptr bs ≡ ptr + length bs
unfolding skip_to_newline
skip-NoNewline ptr [] h = omega arith
skip-NoNewline ptr (b ∷ bs) (e, h) = rw e (omega (arith, skip-NoNewline (ptr + 1) bs h))

to_end :
    (utf8 : List ℕ)
    → NoNewline utf8
    → skip_to_newline 0 (between 0 (length utf8) utf8) ≡ length utf8
to_end utf8 h =
    let all : length utf8 - 0 ≡ length utf8 = omega arith in
    let whole : take (length utf8 - 0) utf8 ≡ utf8 =
      rw all (take_all (length utf8) utf8 (omega arith)) in
    rw whole (omega (arith, skip-NoNewline 0 utf8 h))

at_end : (end : ℕ) (utf8 : List ℕ) → skip_to_newline end (between end end utf8) ≡ end
unfolding skip_to_newline
at_end end utf8 = let none_between : end - end ≡ 0 = omega arith in rw none_between

module _ (P : Platform) where
  -- The end of a round: what the read returned decides, and no outcome is a position.
  round_blind :
      (eof : Bool) (r : Result Fault ℕ) (io io' : Io P) (more : Result Fault (Option ℕ) × Io P)
      (i : ℕ)
      → more.0 ≢ ok (some i)
      → (if eof then (ok none, io) else elim r as (λ x. Result Fault (Option ℕ) × Io P) [
        | throw e ↦ (throw e, io')
        | ok new_bytes ↦ if new_bytes == 0 then (ok none, io') else more
      ]).0
        ≢ ok (some i)
  round_blind true r io io' more i h = λ x. absurd cc
  round_blind false (throw e) io io' more i h = λ x. absurd cc
  round_blind false (ok n) io io' more i h = elim (Bool-cases (n == 0)) [
    | inl e ↦ rw e (λ x. absurd cc)
    | inr e ↦ rw e h
  ]

  -- With `ptr` at `end` no round finds anything.
  look_blind :
      (fuel end : ℕ) (c : Conn) (w : P.World) (i : ℕ) → (look P fuel end end (c, w)).0 ≢ ok (some i)
  unfolding look
  look_blind zero end c w i = λ x. absurd cc
  look_blind (suc fuel) end c w i =
      let out = connection_read P (realloc_if_full P c, w) in
      let stays : skip_to_newline end (between end end c.utf8) ≡ end = at_end end c.utf8 in
      let ptr = skip_to_newline end (between end end c.utf8) in
      let not_found : ltb ptr end ≡ false = rw stays (ge→ltb end end (omega arith)) in
      rw not_found (
        round_blind c.is_eof out.0 (c, w) out.1 (look P fuel ptr end out.1) i
          (rw stays (look_blind fuel end out.1.0 out.1.1 i)))

  -- If the UTF-8 buffer has data but no newline when `read_until_newline` starts, the call finds
  -- none, whatever it then reads, for the end of the data that it looks at is set before.
  pub read_until_newline_blind :
      (fuel : ℕ) (c : Conn) (w : P.World) (i : ℕ)
      → length c.utf8 ≢ 0
      → NoNewline c.utf8
      → (read_until_newline P fuel (c, w)).0 ≢ ok (some i)
  unfolding read_until_newline search look
  read_until_newline_blind zero c w i ne no_newline =
      let z : (length c.utf8 == 0) ≡ false = ground arith in rw z (λ x. absurd cc)
  read_until_newline_blind (suc fuel) c w i ne no_newline =
      let z : (length c.utf8 == 0) ≡ false = ground arith in
      let end = length c.utf8 in
      let out = connection_read P (realloc_if_full P c, w) in
      let stops : skip_to_newline 0 (between 0 end c.utf8) ≡ end = to_end c.utf8 no_newline in
      let ptr = skip_to_newline 0 (between 0 end c.utf8) in
      let not_found : ltb ptr end ≡ false = rw stops (ge→ltb end end (omega arith)) in
      rw (z, not_found)
        (round_blind c.is_eof out.0 (c, w) out.1 (look P fuel ptr end out.1) i
          (rw stops (look_blind fuel end out.1.0 out.1.1 i)))
