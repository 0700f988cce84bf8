-- ===== src/Client.antt =====
-- The client library of src/client.c, in its Unix build: which descriptors a program started from R
-- inherits, and how R's standard output and error are moved.
pub mod Inherit
pub mod Std
mod Tests
use processx.Base.{
  ℕ, zero, suc, ◌+◌, ◌-◌, ◌%◌, Bool, true, false, not, ◌&&◌, Option, none, some, List, Result, ok,
  throw, ltb, ◌==◌, if◌then◌else◌,
}
use processx.Process.Child.{FdOs}

-- `fcntl` on the flags of descriptors: what F_GETFD gives (`none` for -1), and F_SETFD. A call that a
-- signal interrupts is made again.
pub record FlagOs : Type 1 where
  pub World : Type 0
  pub getfd : World → ℕ → Option ℕ
  pub setfd : ℕ → ℕ → World → Bool × World

-- `r & FD_CLOEXEC`, `r | FD_CLOEXEC` and `r & ~FD_CLOEXEC`, where FD_CLOEXEC is 1
abbrev pub has_cloexec : ℕ → Bool
has_cloexec r = r % 2 == 1

abbrev pub with_cloexec : ℕ → Bool → ℕ
with_cloexec r set = if set then r - r % 2 + 1 else r - r % 2

abbrev pub same_bool : Bool → Bool → Bool
same_bool true b = b
same_bool false b = not b

module _ (O : FlagOs) where
  -- `processx__cloexec_fcntl`; `false` for a negative result
  unfoldable pub cloexec_fcntl : ℕ → Bool → O.World → Bool × O.World
  cloexec_fcntl fd set w = elim (O.getfd w fd) [
    | none ↦ (false, w)
    | some r ↦
        if same_bool (has_cloexec r) set then (true, w) else O.setfd fd (with_cloexec r set) w
  ]

  -- The loop of `processx_disable_inheritance`; `none` if it goes on.
  unfoldable pub inheritance_loop : ℕ → ℕ → O.World → Option O.World
  unfolding cloexec_fcntl
  inheritance_loop zero fd w = none
  inheritance_loop (suc fuel) fd w =
      let (done, w') = cloexec_fcntl fd true w in
      let rest = inheritance_loop fuel (fd + 1) w' in
      if not done && ltb 15 fd then some w' else rest

  -- `processx_disable_inheritance`, `stdio` if PROCESSX_CLOEXEC_STDIO is set
  unfoldable pub disable_inheritance : ℕ → Bool → O.World → Option O.World
  unfolding inheritance_loop
  disable_inheritance fuel stdio w = inheritance_loop fuel (if stdio then 0 else 3) w

-- What `write` gives: how much is wrote, -1 with EAGAIN or EWOULDBLOCK, or another error.
pub data WriteAnswer : Type 0 where
  wrote : ℕ → WriteAnswer
  again write_failed : WriteAnswer

pub data ClientError : Type 0 where
  cannot_reroute cannot_open cannot_write : ClientError

-- What is done about SIGPIPE
pub data Action : Type 0 where
  ignore default : Action
  handler : ℕ → Action

pub record WriteOs : Type 1 where
  pub World : Type 0
  pub write : Action → ℕ → List ℕ → World → WriteAnswer × World

pub record WriteState (O : WriteOs) : Type 0 where
  pub sigpipe : Action
  pub world : O.World

abbrev pub write_result : WriteAnswer → Result ClientError ℕ
write_result (wrote n) = ok n
write_result again = ok 0
write_result write_failed = throw cannot_write

-- `sigaction` for SIGPIPE, which gives the action before
unfoldable pub sigaction : {O : WriteOs} → Action → WriteState O → Action × WriteState O
sigaction new s = (s.sigpipe, record s { sigpipe = new })

-- `processx_write`
unfoldable pub write :
    {O : WriteOs} → ℕ → List ℕ → WriteState O → Result ClientError ℕ × WriteState O
unfolding sigaction
write {O} fd bytes s =
    let (old, s1) = sigaction {O = O} ignore s in
    let (ret, w) = O.write s1.sigpipe fd bytes s1.world in
    let (_, s2) = sigaction {O = O} old (record s1 { world = w }) in (write_result ret, s2)

module _ (O : FdOs) where
  -- From `dup2` on; `dup` is `fcntl` with F_DUPFD from 0.
  unfoldable pub replace_std : Option ℕ → ℕ → ℕ → O.World → Result ClientError (Option ℕ) × O.World
  replace_std orig which fd w =
      let (r, w') = O.dup2 fd which w in
      elim r [ none ↦ (throw cannot_reroute, w') | some _ ↦ (ok orig, (O.close fd w').1) ]

  -- `processx_set_std`; without `drop` it gives a copy of the old descriptor.
  unfoldable pub set_std : ℕ → ℕ → Bool → O.World → Result ClientError (Option ℕ) × O.World
  unfolding replace_std
  set_std which fd drop w =
      let (orig, w') = O.dup_from which 0 w in
      if drop then replace_std none which fd w else elim orig [
        | none ↦ (throw cannot_reroute, w')
        | some o ↦ replace_std (some o) which fd w'
      ]

  -- `processx_set_stdout_to_file` and `processx_set_stderr_to_file`, with `open` for the file
  unfoldable pub set_std_to_file :
      (List ℕ → O.World → Option ℕ × O.World)
      → ℕ
      → List ℕ
      → O.World
      → Result ClientError (Option ℕ) × O.World
  unfolding set_std
  set_std_to_file open_out which path w =
      let (fd, w') = open_out path w in
      elim fd [ none ↦ (throw cannot_open, w') | some f ↦ set_std which f false w' ]
