-- ===== src/Windows/Args/Size.antt =====
-- The command line fits the buffer that is allocated for it.
use processx.Base.{
  ℕ, ◌+◌, ◌*◌, ◌≤◌, ◌≡◌, Bool, true, false, ◌&&◌, List, [], ◌∷◌, arith, ◌==◌, Bool-cases, inl, inr,
  length, length-append,
}
use processx.Windows.Args.{
  quote, backslash, space, backwards, escape_loop, quote_cmd_arg, program_arg, make_program_args,
  program_args_size,
}

length-backwards : (cs done : List ℕ) → length (backwards cs done) ≡ length cs + length done
unfolding backwards
length-backwards [] done = omega arith
length-backwards (c ∷ cs) done = omega (arith, length-backwards cs (c ∷ done))

-- The loop writes two characters at most for each one that it reads.
length-escape_loop :
    (cs : List ℕ) (hit : Bool) (target : List ℕ)
    → length (escape_loop cs hit target) ≤ length cs * 2 + length target
unfolding escape_loop
length-escape_loop [] hit target = omega arith
length-escape_loop (c ∷ cs) hit target = elim (Bool-cases (hit && (c == backslash))) [
  | inl e ↦ rw e (omega (arith, length-escape_loop cs hit (backslash ∷ c ∷ target)))
  | inr e ↦ elim (Bool-cases (c == quote)) [
    | inl q ↦ rw (e, q) (omega (arith, length-escape_loop cs true (backslash ∷ c ∷ target)))
    | inr q ↦ rw (e, q) (omega (arith, length-escape_loop cs false (c ∷ target)))
  ]
]

length-quote_cmd_arg : (arg : List ℕ) → length (quote_cmd_arg arg) ≤ length arg * 2 + 2
unfolding quote_cmd_arg
length-quote_cmd_arg arg = ground (
  arith,
  length-append arg (quote ∷ []),
  length-append (escape_loop (backwards arg []) true []) (quote ∷ []),
  length-escape_loop (backwards arg []) true [],
  length-backwards arg [],
)

length-program_arg :
    (verbatim : Bool) (arg : List ℕ) → length (program_arg verbatim arg) ≤ length arg * 2 + 2
length-program_arg true arg = omega arith
length-program_arg false arg = length-quote_cmd_arg arg

-- For one argument or more, quoted or verbatim, the command line and its terminating zero fit the
-- buffer whose size is counted before.
pub make_program_args-le-size :
    (verbatim : Bool) (arg : List ℕ) (args : List (List ℕ))
    → length (make_program_args verbatim (arg ∷ args)) + 1 ≤ program_args_size (arg ∷ args)
unfolding make_program_args program_args_size
make_program_args-le-size verbatim arg [] = omega (arith, length-program_arg verbatim arg)
make_program_args-le-size verbatim arg (next ∷ args) =
    let more = make_program_args verbatim (next ∷ args) in
    omega (
      arith,
      length-append (program_arg verbatim arg) (space ∷ more),
      length-program_arg verbatim arg,
      make_program_args-le-size verbatim next args,
    )
