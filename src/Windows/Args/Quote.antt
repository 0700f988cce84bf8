-- ===== src/Windows/Args/Quote.antt =====
-- A quoted argument is read back as it was.
use processx.Base.{
  ℕ, zero, suc, ◌+◌, ◌/◌, ◌%◌, ◌≡◌, refl, ap, ◌∙◌, Bool, true, false, ◌&&◌, List, [], ◌∷◌, ◌++◌,
  append_assoc, append-nil, arith, ◌==◌, if◌then◌else◌, Bool-cases, inl, inr, ==→eq, length,
  replicate,
}
use processx.Windows.Args.{
  quote, backslash, any, needs_quotes, needs_escape, backwards, escape_loop, quote_cmd_arg,
}
use processx.Windows.Args.Spec.{is_blank, argument}

-- One character more in front of an escaped text, with whether it begins with backslashes that
-- stand before a quote.
step : ℕ → Bool × List ℕ → Bool × List ℕ
step c (hit, out) =
    if hit && (c == backslash)
    then (hit, backslash ∷ c ∷ out)
    else if c == quote
    then (true, backslash ∷ c ∷ out)
    else (false, c ∷ out)

escaped : List ℕ → Bool × List ℕ
unfolding step
escaped [] = (true, [])
escaped (c ∷ cs) = step c (escaped cs)

escape_loop-step :
    (c : ℕ) (cs : List ℕ) (s : Bool × List ℕ)
    → escape_loop (c ∷ cs) s.0 s.1 ≡ escape_loop cs (step c s).0 (step c s).1
unfolding escape_loop step
escape_loop-step c cs (true, out) = elim (Bool-cases (c == backslash)) [
  | inl e ↦ rw e
  | inr e ↦ elim (Bool-cases (c == quote)) [ inl q ↦ rw (e, q) | inr q ↦ rw (e, q) ]
]
escape_loop-step c cs (false, out) = elim (Bool-cases (c == quote)) [ inl q ↦ rw q | inr q ↦ rw q ]

-- The loop from the end of the text is a recursion on the text.
escape_loop-escaped :
    (cs done : List ℕ)
    → escape_loop (backwards cs done) true [] ≡ escape_loop done (escaped cs).0 (escaped cs).1
unfolding backwards escaped
escape_loop-escaped [] done = refl
escape_loop-escaped (c ∷ cs) done =
    escape_loop-escaped cs (c ∷ done) ∙ escape_loop-step c done (escaped cs)

-- What ends an argument outside of quotes: the end of the line, or a blank.
abbrev pub IsEnd : List ℕ → Type 0
IsEnd [] = Unit
IsEnd (c ∷ cs) = is_blank c ≡ true

IsEnd-argument :
    (rest : List ℕ) (n : ℕ) → IsEnd rest → argument n false rest ≡ (replicate n backslash, rest)
unfolding argument
IsEnd-argument [] n h = refl
IsEnd-argument (c ∷ cs) n h =
    let b : (c == backslash) ≡ false = ground arith in
    let q : (c == quote) ≡ false = ground arith in rw (b, q, h)

-- The four ways to write an argument.
quote_cmd_arg-empty :
    (arg : List ℕ) → (length arg == 0) ≡ true → quote_cmd_arg arg ≡ quote ∷ quote ∷ []
unfolding quote_cmd_arg
quote_cmd_arg-empty arg e = rw e

quote_cmd_arg-plain :
    (arg : List ℕ)
    → (length arg == 0) ≡ false
    → any needs_quotes arg ≡ false
    → quote_cmd_arg arg ≡ arg
unfolding quote_cmd_arg
quote_cmd_arg-plain arg e q = rw (e, q)

quote_cmd_arg-wrapped :
    (arg : List ℕ)
    → (length arg == 0) ≡ false
    → any needs_quotes arg ≡ true
    → any needs_escape arg ≡ false
    → quote_cmd_arg arg ≡ quote ∷ (arg ++ (quote ∷ []))
unfolding quote_cmd_arg
quote_cmd_arg-wrapped arg e q x = rw (e, q, x)

quote_cmd_arg-escaped :
    (arg : List ℕ)
    → (length arg == 0) ≡ false
    → any needs_quotes arg ≡ true
    → any needs_escape arg ≡ true
    → quote_cmd_arg arg ≡ quote ∷ (escape_loop (backwards arg []) true [] ++ (quote ∷ []))
unfolding quote_cmd_arg
quote_cmd_arg-escaped arg e q x = rw (e, q, x)

module _ (rest : List ℕ) (end : IsEnd rest) where
  -- The escaped text `out`, in quotes and before `rest`, is read as `cs`, with the backslashes that
  -- stand before it: half of them if `out` begins with backslashes that stand before a quote.
  abbrev Reads : Bool → List ℕ → List ℕ → Type 0
  Reads true out cs =
      (m : ℕ) → argument (m + m) true (out ++ (quote ∷ rest)) ≡ (replicate m backslash ++ cs, rest)
  Reads false out cs =
      (n : ℕ) → argument n true (out ++ (quote ∷ rest)) ≡ (replicate n backslash ++ cs, rest)

  half : (m : ℕ) → (m + m) / 2 ≡ m
  half m = omega arith

  half_suc : (m : ℕ) → suc (m + m) / 2 ≡ m
  half_suc m = omega arith

  even : (m : ℕ) → ((m + m) % 2 == 0) ≡ true
  even m = ground arith

  odd : (m : ℕ) → (suc (m + m) % 2 == 0) ≡ false
  odd m = ground arith

  -- The closing quote.
  Reads-nil : Reads true [] []
  unfolding argument
  Reads-nil m = rw (even m, half m, IsEnd-argument rest 0 end)

  -- Reading goes on behind any character.
  Reads-zero :
      (hit : Bool) (out cs : List ℕ)
      → Reads hit out cs
      → argument 0 true (out ++ (quote ∷ rest)) ≡ (cs, rest)
  Reads-zero true out cs r = r 0
  Reads-zero false out cs r = r 0

  double-suc : (m : ℕ) → suc (suc (m + m)) ≡ suc m + suc m
  double-suc m = omega arith

  snoc_replicate : (m c : ℕ) (cs : List ℕ) → replicate (suc m) c ++ cs ≡ replicate m c ++ (c ∷ cs)
  snoc_replicate zero c cs = refl
  snoc_replicate (suc m) c cs = ap (λ (x : List ℕ). c ∷ x) (snoc_replicate m c cs)

  Reads-slashes :
      (out cs : List ℕ)
      → Reads true out cs
      → Reads true (backslash ∷ backslash ∷ out) (backslash ∷ cs)
  unfolding argument
  Reads-slashes out cs r m =
      ap (λ (x : ℕ). argument x true (out ++ (quote ∷ rest))) (double-suc m)
      ∙ r (suc m)
      ∙ ap (λ (x : List ℕ). (x, rest)) (snoc_replicate m backslash cs)

  Reads-slash :
      (out cs : List ℕ) → Reads false out cs → Reads false (backslash ∷ out) (backslash ∷ cs)
  unfolding argument
  Reads-slash out cs r n =
      r (suc n) ∙ ap (λ (x : List ℕ). (x, rest)) (snoc_replicate n backslash cs)

  Reads-quote :
      (hit : Bool) (out cs : List ℕ)
      → Reads hit out cs
      → Reads true (backslash ∷ quote ∷ out) (quote ∷ cs)
  unfolding argument
  Reads-quote hit out cs r m = rw (odd m, half_suc m, Reads-zero hit out cs r, append_assoc)

  Reads-plain :
      (hit : Bool) (c : ℕ) (out cs : List ℕ)
      → (c == backslash) ≡ false
      → (c == quote) ≡ false
      → Reads hit out cs
      → Reads false (c ∷ out) (c ∷ cs)
  unfolding argument
  Reads-plain hit c out cs e q r n = elim (Bool-cases (is_blank c)) [
    | inl b ↦ rw (e, q, b, Reads-zero hit out cs r, append_assoc)
    | inr b ↦ rw (e, q, b, Reads-zero hit out cs r, append_assoc)
  ]

  Reads-step :
      (c : ℕ) (hit : Bool) (out cs : List ℕ)
      → Reads hit out cs
      → Reads (step c (hit, out)).0 (step c (hit, out)).1 (c ∷ cs)
  unfolding step
  Reads-step c true out cs r = elim (Bool-cases (c == backslash)) [
    | inl e ↦ rw (==→eq c backslash e) (Reads-slashes out cs r)
    | inr e ↦ elim (Bool-cases (c == quote)) [
      | inl q ↦ rw (==→eq c quote q) (Reads-quote true out cs r)
      | inr q ↦ rw (e, q) (Reads-plain true c out cs e q r)
    ]
  ]
  Reads-step c false out cs r = elim (Bool-cases (c == quote)) [
    | inl q ↦ rw (==→eq c quote q) (Reads-quote false out cs r)
    | inr q ↦ elim (Bool-cases (c == backslash)) [
      | inl e ↦ rw (==→eq c backslash e) (Reads-slash out cs r)
      | inr e ↦ rw q (Reads-plain false c out cs e q r)
    ]
  ]

  Reads-escaped : (cs : List ℕ) → Reads (escaped cs).0 (escaped cs).1 cs
  unfolding escaped
  Reads-escaped [] = Reads-nil
  Reads-escaped (c ∷ cs) = Reads-step c (escaped cs).0 (escaped cs).1 cs (Reads-escaped cs)

  -- In quotes, with escapes.
  escape_loop-read :
      (cs : List ℕ)
      → argument 0 false (quote ∷ (escape_loop (backwards cs []) true [] ++ (quote ∷ rest)))
        ≡ (cs, rest)
  unfolding argument escape_loop
  escape_loop-read cs =
      rw (escape_loop-escaped cs [])
        (rw (Reads-zero (escaped cs).0 (escaped cs).1 cs (Reads-escaped cs)))

  -- In quotes, with nothing to escape.
  verbatim-read :
      (cs : List ℕ)
      → any needs_escape cs ≡ false
      → argument 0 true (cs ++ (quote ∷ rest)) ≡ (cs, rest)
  unfolding argument any
  verbatim-read [] no_escape = rw (IsEnd-argument rest 0 end)
  verbatim-read (c ∷ cs) no_escape =
      let b : (c == backslash) ≡ false = ground arith in
      let q : (c == quote) ≡ false = ground arith in
      let later : any needs_escape cs ≡ false = ground arith in
      elim (Bool-cases (is_blank c)) [
        | inl s ↦ rw (b, q, s, verbatim-read cs later)
        | inr s ↦ rw (b, q, s, verbatim-read cs later)
      ]

  -- As it is: backslashes wait, for what follows.
  plain-read :
      (cs : List ℕ) (n : ℕ)
      → any needs_quotes cs ≡ false
      → argument n false (cs ++ rest) ≡ (replicate n backslash ++ cs, rest)
  unfolding argument any
  plain-read [] n none_in = rw append-nil (IsEnd-argument rest n end)
  plain-read (c ∷ cs) n none_in =
      let q : (c == quote) ≡ false = ground arith in
      let s : is_blank c ≡ false = ground arith in
      let later : any needs_quotes cs ≡ false = ground arith in
      elim (Bool-cases (c == backslash)) [
        | inl b ↦ rw (==→eq c backslash b) (
            plain-read cs (suc n) later
            ∙ ap (λ (x : List ℕ). (x, rest)) (snoc_replicate n backslash cs))
        | inr b ↦ rw (b, q, s, plain-read cs 0 later, append_assoc)
      ]

  -- The empty argument, behind its opening quote.
  closed : (arg : List ℕ) → (length arg == 0) ≡ true → argument 0 true (quote ∷ rest) ≡ (arg, rest)
  unfolding argument
  closed [] e = rw (IsEnd-argument rest 0 end)
  closed (c ∷ cs) e = absurd (ground arith)

  -- The opening quote.
  opened : (line : List ℕ) → argument 0 false (quote ∷ line) ≡ argument 0 true line
  unfolding argument
  opened line = refl

  -- Whatever the argument, the text that `quote_cmd_arg` makes of it is read back as the argument,
  -- where a blank or the end of the line follows.
  pub argument-quote_cmd_arg :
      (arg : List ℕ) → argument 0 false (quote_cmd_arg arg ++ rest) ≡ (arg, rest)
  argument-quote_cmd_arg arg = elim (Bool-cases (length arg == 0)) [
    | inl empty ↦ rw (quote_cmd_arg-empty arg empty, opened) (closed arg empty)
    | inr some_length ↦ elim (Bool-cases (any needs_quotes arg)) [
      | inr plain ↦ rw (quote_cmd_arg-plain arg some_length plain) (plain-read arg 0 plain)
      | inl quotes ↦ elim (Bool-cases (any needs_escape arg)) [
        | inr no_escape ↦
            rw (quote_cmd_arg-wrapped arg some_length quotes no_escape, opened, append_assoc)
              (verbatim-read arg no_escape)
        | inl escape ↦
            rw (quote_cmd_arg-escaped arg some_length quotes escape, append_assoc)
              (escape_loop-read arg)
      ]
    ]
  ]
