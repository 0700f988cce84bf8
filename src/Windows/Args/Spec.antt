-- ===== src/Windows/Args/Spec.antt =====
-- How a Windows program splits its command line into arguments, by the documented rules of the C
-- runtime: spaces and tabs outside of quotes end an argument; a quote opens or closes a quoted
-- part; 2 n backslashes before a quote stand for n backslashes, 2 n + 1 for n and a plain quote;
-- backslashes elsewhere stand for themselves. (The runtime reads the program's name, the first of
-- them all, by a simpler rule, and two quotes inside a quoted part as one quote: names of programs
-- hold no quotes, and `quote_cmd_arg` writes no two quotes inside a quoted part.)
use processx.Base.{
  ℕ, zero, suc, ◌/◌, ◌%◌, Bool, false, not, ◌&&◌, ◌||◌, List, [], ◌∷◌, ◌++◌, ◌==◌, if◌then◌else◌,
  replicate,
}
use processx.Windows.Args.{quote, backslash, space, tab}

abbrev pub is_blank : ℕ → Bool
is_blank c = c == space || c == tab

abbrev pub and_then : List ℕ → List ℕ × List ℕ → List ℕ × List ℕ
and_then front (arg, rest) = (front ++ arg, rest)

-- The first argument of a line and what follows it. `slashes` backslashes were read and not yet
-- passed on; `quoted` is whether the text stands in quotes.
unfoldable pub argument : ℕ → Bool → List ℕ → List ℕ × List ℕ
argument slashes quoted [] = (replicate slashes backslash, [])
argument slashes quoted (c ∷ cs) =
    let counted = argument (suc slashes) quoted cs in
    let toggled = and_then (replicate (slashes / 2) backslash) (argument 0 (not quoted) cs) in
    let literal =
      and_then (replicate (slashes / 2) backslash ++ (quote ∷ [])) (argument 0 quoted cs) in
    let plain = and_then (replicate slashes backslash ++ (c ∷ [])) (argument 0 quoted cs) in
    if c == backslash
    then counted
    else if c == quote
    then (if slashes % 2 == 0 then toggled else literal)
    else if is_blank c && not quoted
    then (replicate slashes backslash, c ∷ cs)
    else plain

unfoldable pub skip_blanks : List ℕ → List ℕ
skip_blanks [] = []
skip_blanks (c ∷ cs) = if is_blank c then skip_blanks cs else c ∷ cs

-- All arguments of a line, with fuel.
unfoldable pub arguments : ℕ → List ℕ → List (List ℕ)
unfolding argument skip_blanks
arguments zero line = []
arguments (suc fuel) line = elim (skip_blanks line) [
  | [] ↦ []
  | c ∷ cs ↦ let (arg, rest) = argument 0 false (c ∷ cs) in arg ∷ arguments fuel rest
]
