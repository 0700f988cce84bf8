-- ===== src/Windows/Args/Tests.antt =====
-- The examples in the comment of `processx__quote_cmd_arg`, and instances of the theorems.
use processx.Base.{arith, ℕ, ◌+◌, ◌≤◌, ◌≡◌, refl, false, List, [], ◌∷◌, ◌++◌, length}
use processx.Windows.Args.{
  quote, backslash, space, quote_cmd_arg, make_program_args, program_args_size,
}
use processx.Windows.Args.Spec.{arguments}
use processx.Windows.Args.Line.{arguments-make_program_args}
use processx.Windows.Args.Size.{make_program_args-le-size}

-- hello\"world, an empty argument, and "a b\"
abbrev args : List (List ℕ)
args = (b'h' ∷ backslash ∷ quote ∷ b'w' ∷ []) ∷ [] ∷ (b'a' ∷ space ∷ b'b' ∷ backslash ∷ []) ∷ []

quoted :
    make_program_args false args
    ≡ quote ∷ b'h' ∷ backslash ∷ backslash ∷ backslash ∷ quote ∷ b'w' ∷ quote ∷ space ∷ quote
      ∷ quote ∷ space ∷ quote ∷ b'a' ∷ space ∷ b'b' ∷ backslash ∷ backslash ∷ quote ∷ []
unfolding make_program_args
quoted = refl

-- Backslashes that stand before no quote stay as they are.
path_argument :
    quote_cmd_arg (b'a' ∷ backslash ∷ backslash ∷ b'b' ∷ [])
    ≡ b'a' ∷ backslash ∷ backslash ∷ b'b' ∷ []
unfolding quote_cmd_arg
path_argument = refl

arguments-make_program_args_example : arguments 9 (make_program_args false args) ≡ args
arguments-make_program_args_example = arguments-make_program_args 9 args (omega arith)

make_program_args-le-size_example :
    length (make_program_args false (args ++ [])) + 1 ≤ program_args_size (args ++ [])
make_program_args-le-size_example =
    make_program_args-le-size false (b'h' ∷ backslash ∷ quote ∷ b'w' ∷ [])
      ([] ∷ (b'a' ∷ space ∷ b'b' ∷ backslash ∷ []) ∷ [])
