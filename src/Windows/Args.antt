-- ===== src/Windows/Args.antt =====
-- `processx__quote_cmd_arg` and `processx__make_program_args` of src/win/processx.c. A text is
-- the list of its UTF-16 units, with no zero among them.
pub mod Spec
pub mod Quote
pub mod Line
pub mod Size
mod Tests
use processx.Base.{
  ℕ, zero, suc, ◌+◌, ◌*◌, Bool, true, false, not, ◌&&◌, ◌||◌, List, [], ◌∷◌, ◌++◌, ◌==◌,
  if◌then◌else◌, length,
}

abbrev pub quote : ℕ
quote = b'"'

abbrev pub backslash : ℕ
backslash = 92

abbrev pub space : ℕ
space = 32

abbrev pub tab : ℕ
tab = 9

-- `wcspbrk(source, chars) != NULL`, for the characters that pass a test
pub any : (ℕ → Bool) → List ℕ → Bool
any test [] = false
any test (c ∷ cs) = test c || any test cs

-- The characters of L" \t\"" and of L"\"\\"
abbrev pub needs_quotes : ℕ → Bool
needs_quotes c = c == space || c == tab || c == quote

abbrev pub needs_escape : ℕ → Bool
needs_escape c = c == quote || c == backslash

-- The text backwards, as the loop of the C code reads it.
pub backwards : List ℕ → List ℕ → List ℕ
backwards [] done = done
backwards (c ∷ cs) done = backwards cs (c ∷ done)

-- The loop over the source from its last character to its first. `target` is what was written,
-- the last character first: it stands in the order that `wcsrev` gives it in the end.
pub escape_loop : List ℕ → Bool → List ℕ → List ℕ
escape_loop [] quote_hit target = target
escape_loop (c ∷ cs) quote_hit target =
    let doubled = escape_loop cs quote_hit (backslash ∷ c ∷ target) in
    let escaped = escape_loop cs true (backslash ∷ c ∷ target) in
    let plain = escape_loop cs false (c ∷ target) in
    if quote_hit && (c == backslash) then doubled else if c == quote then escaped else plain

-- What `processx__quote_cmd_arg` writes for an argument.
pub quote_cmd_arg : List ℕ → List ℕ
unfolding any backwards escape_loop
quote_cmd_arg source =
    if length source == 0
    then quote ∷ quote ∷ []
    else if not (any needs_quotes source)
    then source
    else if not (any needs_escape source)
    then quote ∷ (source ++ (quote ∷ []))
    else quote ∷ (escape_loop (backwards source []) true [] ++ (quote ∷ []))

-- One argument of the command line.
abbrev pub program_arg : Bool → List ℕ → List ℕ
program_arg verbatim_arguments arg = if verbatim_arguments then arg else quote_cmd_arg arg

-- The loop of `processx__make_program_args`: the arguments with spaces between them.
pub make_program_args : Bool → List (List ℕ) → List ℕ
unfolding quote_cmd_arg
make_program_args verbatim_arguments [] = []
make_program_args verbatim_arguments (arg ∷ []) = program_arg verbatim_arguments arg
make_program_args verbatim_arguments (arg ∷ next ∷ args) =
    program_arg verbatim_arguments arg
    ++ (space ∷ make_program_args verbatim_arguments (next ∷ args))

-- The size that is counted for the line: each argument with its zero, twice, and two quotes.
pub program_args_size : List (List ℕ) → ℕ
program_args_size [] = 0
program_args_size (arg ∷ args) = (length arg + 1) * 2 + 2 + program_args_size args
