-- ===== src/Connection/Lines/First.antt =====
-- `processx__find_newline` finds the first newline.
use processx.Base.{
  ℕ, ◌+◌, ◌≡◌, ap, false, Option, none, some, List, [], ◌∷◌, ◌++◌, arith, ◌==◌, Bool-cases, inl,
  inr, length, drop, drop_all, subst, sym, ==→eq,
}
use processx.Connection.Lines.{newline, scan_newline, find_newline}

abbrev pub NoNewline : List ℕ → Type 0
NoNewline [] = Unit
NoNewline (b ∷ bs) = ((b == newline) ≡ false) × NoNewline bs

-- The first newline of `bs`, whose first byte has the number `start`: there is none, or it stands
-- behind the bytes `before`, which hold none.
abbrev pub IsFirst : ℕ → List ℕ → Option ℕ → Type 0
IsFirst start bs none = NoNewline bs
IsFirst start bs (some i) =
    (before : List ℕ) × (rest : List ℕ) × NoNewline before
    × (bs ≡ before ++ (newline ∷ rest))
    × (i ≡ start + length before)

-- One byte more in front.
IsFirst-cons :
    (start b : ℕ) (bs : List ℕ) (o : Option ℕ)
    → (b == newline) ≡ false
    → IsFirst (start + 1) bs o
    → IsFirst start (b ∷ bs) o
IsFirst-cons start b bs none e f = (e, f)
IsFirst-cons start b bs (some i) e (before, rest, none_in, split, at) =
    (b ∷ before, rest, (e, none_in), ap (λ (x : List ℕ). b ∷ x) split, omega (arith, at))

scan_newline-IsFirst : (start : ℕ) (bs : List ℕ) → IsFirst start bs (scan_newline start bs)
unfolding scan_newline
scan_newline-IsFirst start [] = tt
scan_newline-IsFirst start (b ∷ bs) = elim (Bool-cases (b == newline)) [
  | inl e ↦ rw e ([], bs, tt, ap (λ (x : ℕ). x ∷ bs) (==→eq b newline e), omega arith)
  | inr e ↦ rw e (
      IsFirst-cons start b bs (scan_newline (start + 1) bs) e (scan_newline-IsFirst (start + 1) bs))
]

-- `processx__find_newline` gives the position of the first newline at or after `start`: the bytes
-- between hold none, and if it finds nothing, there is none from `start` on.
pub find_newline-IsFirst :
    (utf8 : List ℕ) (start : ℕ) → IsFirst start (drop start utf8) (find_newline utf8 start)
unfolding find_newline
find_newline-IsFirst utf8 start = elim (Bool-cases (length utf8 == 0)) [
  | inl e ↦
      let empty = drop_all start utf8 (omega (arith, ==→eq (length utf8) 0 e)) in
      rw e (subst (λ (bs : List ℕ). NoNewline bs) (sym empty) tt)
  | inr e ↦ rw e (scan_newline-IsFirst start (drop start utf8))
]
