-- ===== src/Windows/Args/Line.antt =====
-- The whole command line is split into the arguments that it was made of.
use processx.Base.{
  ℕ, zero, suc, ◌≤◌, ◌≡◌, refl, sym, ap, ◌∙◌, false, List, [], ◌∷◌, ◌++◌, append-nil, arith, ◌==◌,
  Bool-cases, inl, inr, length,
}
use processx.Windows.Args.{space, any, needs_quotes, needs_escape, quote_cmd_arg, make_program_args}
use processx.Windows.Args.Spec.{is_blank, argument, skip_blanks, arguments}
use processx.Windows.Args.Quote.{IsEnd, argument-quote_cmd_arg}

-- A text that begins with another character than a blank.
abbrev Starts : List ℕ → Type 0
Starts [] = ⊥
Starts (c ∷ cs) = is_blank c ≡ false

quote_cmd_arg-Starts : (arg : List ℕ) → Starts (quote_cmd_arg arg)
unfolding quote_cmd_arg
quote_cmd_arg-Starts [] = refl
quote_cmd_arg-Starts (c ∷ cs) = elim (Bool-cases (any needs_quotes (c ∷ cs))) [
  | inr plain ↦
      let b : is_blank c ≡ false = ground arith in
      let z : (length (c ∷ cs) == 0) ≡ false = ground arith in rw (z, plain) b
  | inl quotes ↦
      let z : (length (c ∷ cs) == 0) ≡ false = ground arith in
      elim (Bool-cases (any needs_escape (c ∷ cs))) [
        | inr no_escape ↦ rw (z, quotes, no_escape)
        | inl escape ↦ rw (z, quotes, escape)
      ]
]

Starts-skip_blanks : (c : ℕ) (cs : List ℕ) → is_blank c ≡ false → skip_blanks (c ∷ cs) ≡ c ∷ cs
unfolding skip_blanks
Starts-skip_blanks c cs s = rw s

Starts-arguments :
    (n : ℕ) (front arg rest : List ℕ)
    → Starts front
    → argument 0 false (front ++ rest) ≡ (arg, rest)
    → arguments (suc n) (front ++ rest) ≡ arg ∷ arguments n rest
unfolding arguments
Starts-arguments n [] arg rest s e = absurd s
Starts-arguments n (c ∷ cs) arg rest s e = rw (arguments, Starts-skip_blanks c (cs ++ rest) s, e)

arguments-blank : (n : ℕ) (line : List ℕ) → arguments n (space ∷ line) ≡ arguments n line
unfolding arguments
arguments-blank zero line = refl
arguments-blank (suc n) line = refl

arguments_step :
    (n : ℕ) (arg rest : List ℕ)
    → IsEnd rest
    → arguments (suc n) (quote_cmd_arg arg ++ rest) ≡ arg ∷ arguments n rest
arguments_step n arg rest end =
    Starts-arguments n (quote_cmd_arg arg) arg rest (quote_cmd_arg-Starts arg)
      (argument-quote_cmd_arg rest end arg)

arguments_nil : (n : ℕ) → arguments n [] ≡ []
unfolding arguments
arguments_nil zero = refl
arguments_nil (suc n) = refl

arguments_loop :
    (n : ℕ) (arg : List ℕ) (args : List (List ℕ))
    → length args ≤ n
    → arguments (suc n) (make_program_args false (arg ∷ args)) ≡ arg ∷ args
unfolding make_program_args
arguments_loop n arg [] le =
    ap (arguments (suc n)) (sym (append-nil (quote_cmd_arg arg)))
    ∙ arguments_step n arg [] tt
    ∙ ap (λ (x : List (List ℕ)). arg ∷ x) (arguments_nil n)
arguments_loop zero arg (next ∷ args) le = absurd (omega arith)
arguments_loop (suc n) arg (next ∷ args) le =
    let more = make_program_args false (next ∷ args) in
    arguments_step (suc n) arg (space ∷ more) refl
    ∙ ap (λ (x : List (List ℕ)). arg ∷ x)
        (arguments-blank (suc n) more ∙ arguments_loop n next args (omega arith))

-- Whatever the arguments, the program that reads the command line of `make_program_args` to its end,
-- with fuel for that many arguments or more, gets these arguments and no other, if they are not passed
-- verbatim.
pub arguments-make_program_args :
    (n : ℕ) (args : List (List ℕ))
    → length args ≤ n
    → arguments n (make_program_args false args) ≡ args
unfolding make_program_args
arguments-make_program_args n [] le = arguments_nil n
arguments-make_program_args zero (arg ∷ args) le = absurd (omega arith)
arguments-make_program_args (suc n) (arg ∷ args) le = arguments_loop n arg args (omega arith)
