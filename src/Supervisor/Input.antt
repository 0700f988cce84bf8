-- ===== src/Supervisor/Input.antt =====
-- The commands that the supervisor reads: a pid to watch, a negated pid to forget, or `kill`.
pub mod Accounted
use processx.Base.{
  ℕ, zero, suc, ◌+◌, ◌-◌, ◌≤◌, ◌<◌, ◌^◌, ◌≡◌, Bool, true, false, not, ◌&&◌, ◌||◌, Option, none,
  some, List, [], ◌∷◌, ◌==◌, leb, if◌then◌else◌, ℤ, pos, negsuc,
}
use processx.Supervisor.Types.{System, Io, Call, called, extracted}
use processx.Supervisor.Array.{add_child, remove_child}

abbrev pub input_buf_len : ℕ
input_buf_len = 1024

-- The value of a `long` is one of an `int` of 32 bits.
unfoldable pub fits_int : ℤ → Bool
fits_int (pos n) = leb n (2 ^ 31 - 1)
fits_int (negsuc n) = leb n (2 ^ 31 - 1)

-- `strncmp(readbuf, "kill", 4) == 0`
unfoldable pub is_kill_command : List ℕ → Bool
is_kill_command (k ∷ i ∷ l ∷ m ∷ _) = k == 107 && i == 105 && l == 108 && m == 108
is_kill_command _ = false

-- What the loop does with a line that is not the `kill` command. `-pid` is a positive `int`, but
-- for the least `int`, whose absolute value no child has as its pid.
unfoldable pub handle_pid : ℤ → List ℕ → List ℕ
unfolding add_child remove_child
handle_pid (pos zero) children = children
handle_pid (pos (suc n)) children = add_child (suc n) children
handle_pid (negsuc n) children = remove_child (suc n) children

module _ (S : System) where
  unfoldable pub extract_pid : List ℕ → Io S → ℤ × Io S
  unfolding fits_int
  extract_pid buf (w, calls) =
      let (n, w') = S.strtol buf w in
      let pid = if S.is_erange w' || not (fits_int n) then pos 0 else n in
      (pid, (w', extracted pid ∷ calls))

  abbrev pub fgets : Io S → Option (List ℕ) × Io S
  fgets (w, calls) = let (l, w') = S.fgets input_buf_len w in (l, (w', calls))

  -- The loop that reads lines until there is no more input; `true` for the `kill` command. `none`
  -- without fuel
  unfoldable pub read_input : ℕ → List ℕ → Io S → Option (Bool × List ℕ × Io S)
  unfolding is_kill_command extract_pid handle_pid
  read_input zero children s = none
  read_input (suc fuel) children s =
      let (line, s1) = fgets s in
      elim line [
        | none ↦ some (false, children, s1)
        | some buf ↦
            let (pid, s2) = extract_pid buf s1 in
            let rest = read_input fuel (handle_pid pid children) s2 in
            if is_kill_command buf then some (true, children, s1) else rest
      ]
