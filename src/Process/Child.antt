-- ===== src/Process/Child.antt =====
-- How `processx__child_init` of src/unix/processx.c sets up the file descriptors of the new process,
-- between the terminal and `chdir`.
pub mod Table
pub mod Place
pub mod Loop
pub mod Room
pub mod Closed
pub mod Failure
pub mod Arranged
pub mod Pipes
pub mod Sample
mod Tests
use processx.Base.{
  ℕ, zero, suc, ◌+◌, ◌-◌, ◌≤◌, ◌<◌, ◌≡◌, ◌≢◌, Bool, true, false, not, ◌&&◌, Option, none, some,
  List, [], ◌∷◌, Result, ok, throw, ltb, leb, ◌==◌, if◌then◌else◌, length,
}

-- O_RDONLY; O_CREAT | O_APPEND | O_RDWR; O_CREAT | O_TRUNC | O_RDWR; O_RDWR
pub data OpenMode : Type 0 where
  read_only append truncate read_write : OpenMode

-- A connection of the new process: the parent's and the child's end in `pipes`, `none` for -1, and
-- the text that was given for it (`stroutput`, `none` for a null pointer).
pub record Stdio : Type 0 where
  pub parent_end : Option ℕ
  pub child_end : Option ℕ
  pub output : Option (List ℕ)

-- The process has reported an error and killed itself.
pub data Died : Type 0 where
  died : Died

-- System calls on file descriptors; `none` and `false` stand for -1. The functions that set flags
-- are those of src/unix/utils.c.
pub record FdOs : Type 1 where
  pub World : Type 0
  pub open_file : List ℕ → OpenMode → World → Option ℕ × World
  pub dup2 : ℕ → ℕ → World → Option ℕ × World
  pub dup_from : ℕ → ℕ → World → Option ℕ × World
  pub close : ℕ → World → Bool × World
  pub cloexec_fcntl : ℕ → Bool → World → World
  pub nonblock_fcntl : ℕ → Bool → World → World
  pub report : World → World

-- "2>&1"
abbrev pub is_merged : Option (List ℕ) → Bool
is_merged (some (a ∷ b ∷ c ∷ d ∷ [])) = a == b'2' && b == b'>' && c == b'&' && d == b'1'
is_merged _ = false

abbrev pub dev_null : List ℕ
dev_null = b'/' ∷ b'd' ∷ b'e' ∷ b'v' ∷ b'/' ∷ b'n' ∷ b'u' ∷ b'l' ∷ b'l' ∷ []

-- The mode and the name of an output file
unfoldable pub output_file : List ℕ → List ℕ × OpenMode
output_file (a ∷ b ∷ path) =
    if a == b'>' && b == b'>' then (path, append) else (a ∷ b ∷ path, truncate)
output_file path = (path, truncate)

module _ (O : FdOs) where
  abbrev pub Step : Type 0 → Type 0
  Step A = O.World → Result Died A × O.World

  abbrev pub die : {A : Type 0} → Step A
  die w = (throw died, O.report w)

  -- The body of the first loop: a child's end below its place is duplicated. `none` if that fails
  unfoldable pub move_up : ℕ → ℕ → Option ℕ → O.World → Option (Option ℕ) × O.World
  move_up stdio_count fd none w = (some none, w)
  move_up stdio_count fd (some use_fd) w =
      let (r, w') = O.dup_from use_fd stdio_count w in
      if ltb use_fd fd
      then (elim r [ none ↦ none | some u ↦ some (some u) ], w')
      else (some (some use_fd), w)

  -- The first loop, from descriptor `fd` on
  unfoldable pub make_room : ℕ → ℕ → List Stdio → Step (List Stdio)
  unfolding move_up
  make_room stdio_count fd [] w = (ok [], w)
  make_room stdio_count fd (s ∷ ss) w =
      let (moved, w1) = move_up stdio_count fd s.child_end w in
      elim moved [
        | none ↦ die w1
        | some u ↦
            let (rest, w2) = make_room stdio_count (fd + 1) ss w1 in
            (elim rest [ throw e ↦ throw e | ok ss' ↦ ok (record s { child_end = u } ∷ ss') ], w2)
      ]

  -- The file for a descriptor without a pipe
  unfoldable pub open_output : ℕ → Option (List ℕ) → O.World → Option ℕ × O.World
  unfolding output_file
  open_output fd none w = O.open_file dev_null (if fd == 0 then read_only else read_write) w
  open_output fd (some path) w =
      let (path', mode) = output_file path in
      if fd == 0 then O.open_file path read_only w else O.open_file path' mode w

  -- `use_fd` is put in place of `fd`: if they are equal, only the flag that closes it is cleared.
  unfoldable pub assign : ℕ → ℕ → O.World → Option ℕ × O.World
  assign fd use_fd w =
      if fd == use_fd then (some fd, O.cloexec_fcntl use_fd false w) else O.dup2 use_fd fd w

  -- The end of the body: blocking mode for the standard streams, and `close_fd`
  unfoldable pub settle : ℕ → ℕ → Option ℕ → O.World → O.World
  settle stdio_count fd close_fd w =
      let w' = if leb fd 2 then O.nonblock_fcntl fd false w else w in
      elim close_fd [ none ↦ w' | some c ↦ if leb stdio_count c then (O.close c w').1 else w' ]

  unfoldable pub place : ℕ → ℕ → ℕ → Option ℕ → Step Unit
  unfolding assign settle
  place stdio_count fd use_fd close_fd w =
      let (r, w1) = assign fd use_fd w in
      elim r [ none ↦ die w1 | some _ ↦ (ok tt, settle stdio_count fd close_fd w1) ]

  -- The body of the second loop
  unfoldable pub set_up : ℕ → ℕ → Stdio → Step Unit
  unfolding open_output place
  set_up stdio_count fd s w = elim s.child_end [
    | some use_fd ↦ place stdio_count fd use_fd s.parent_end w
    | none ↦
        if fd == 2 && is_merged s.output
        then place stdio_count fd 1 s.parent_end w
        else if leb 3 fd
        then (ok tt, w)
        else (let (r, w1) = open_output fd s.output w in
            elim r [ none ↦ die w1 | some u ↦ place stdio_count fd u (some u) w1 ])
  ]

  -- The second loop
  unfoldable pub set_up_all : ℕ → ℕ → List Stdio → Step Unit
  unfolding set_up
  set_up_all stdio_count fd [] w = (ok tt, w)
  set_up_all stdio_count fd (s ∷ ss) w =
      let (r, w1) = set_up stdio_count fd s w in
      let rest = set_up_all stdio_count (fd + 1) ss w1 in
      elim r [ throw e ↦ (throw e, w1) | ok _ ↦ rest ]

  -- The third loop
  unfoldable pub close_used : ℕ → List Stdio → O.World → O.World
  close_used stdio_count [] w = w
  close_used stdio_count (s ∷ ss) w =
      close_used stdio_count ss
        (elim s.child_end [ none ↦ w | some u ↦ if leb stdio_count u then (O.close u w).1 else w ])

  -- The fourth loop: so many descriptors are closed, from `i` on.
  unfoldable pub close_range : ℕ → ℕ → O.World → O.World
  close_range zero i w = w
  close_range (suc n) i w = close_range n (i + 1) (O.close i w).1

  -- The last loop, with fuel
  unfoldable pub close_from : ℕ → ℕ → O.World → Option O.World
  close_from zero i w = none
  close_from (suc fuel) i w =
      let (closed, w') = O.close i w in
      let rest = close_from fuel (i + 1) w' in if not closed && ltb 200 i then some w' else rest

  -- All of them. `ss` are the connections from `min_fd` on, which is 3 with a terminal and 0 without.
  unfoldable pub child_fds : ℕ → ℕ → ℕ → List Stdio → ℕ → O.World → Result Died (Option O.World)
  unfolding make_room set_up_all close_used close_range close_from
  child_fds fuel min_fd stdio_count ss error_fd w =
      let (r, w1) = make_room stdio_count min_fd ss w in
      elim r [
        | throw e ↦ throw e
        | ok ss' ↦
            let (r', w2) = set_up_all stdio_count min_fd ss' w1 in
            elim r' [
              | throw e ↦ throw e
              | ok _ ↦
                  let w3 = close_used stdio_count ss' w2 in
                  ok (
                    close_from fuel (error_fd + 1)
                      (close_range (error_fd - stdio_count) stdio_count w3))
            ]
      ]
