-- ===== src/Process/Child/Pipes.antt =====
-- The pipes that `processx_exec` makes for the new process. (That it keeps the parent's ends of the
-- first three in the handle is left out.)
pub mod Made
use processx.Base.{
  ℕ, zero, suc, ◌+◌, ◌≤◌, ◌<◌, ◌≡◌, ◌≢◌, refl, sym, ◌∙◌, ap, subst, Bool, true, false, Bool-cases,
  not, ◌&&◌, Option, Option-cases, none, some, some_inj, List, [], ◌∷◌, Result, Result-cases, ok,
  throw, ◌⊎◌, inl, inr, ◌==◌, if◌then◌else◌, length, arith,
}
use processx.Process.Child.{Stdio, FdOs, is_merged}
use processx.Process.Child.Table.{Slot, Documented, Wants, Parent}

-- An element of `connections`: NULL, a string, or a connection with its descriptor
pub data Target : Type 0 where
  ignored : Target
  text : List ℕ → Target
  connection : ℕ → Target

pub data PipeError : Type 0 where
  socketpair_failed : PipeError

abbrev pub is_bar : List ℕ → Bool
is_bar (c ∷ []) = c == b'|'
is_bar _ = false

-- `processx__make_socketpair`, with `none` where it throws
pub record Sockets (O : FdOs) : Type 0 where
  pub make_socketpair : O.World → Option (ℕ × ℕ) × O.World

-- It takes two free descriptors and changes no other.
pub record Paired (O : FdOs) (doc : Documented O) (P : Sockets O) : Type 0 where
  pub pair_ok :
      (w : O.World) (a b : ℕ)
      → (P.make_socketpair w).0 ≡ some (a, b)
      → (a ≢ b)
        × (doc.slot w a ≡ none)
        × (doc.slot w b ≡ none)
        × (doc.slot (P.make_socketpair w).1 a ≢ none)
        × (doc.slot (P.make_socketpair w).1 b ≢ none)
        × ((k : ℕ) → doc.slot w k ≢ none → doc.slot (P.make_socketpair w).1 k ≡ doc.slot w k)

abbrev pub no_pipe : Option (List ℕ) → Stdio
no_pipe output = record { parent_end = none; child_end = none; output = output }

module _ (O : FdOs) (P : Sockets O) where
  -- `pipes[i]`, by the kind of the connection
  unfoldable pub make_pipe : ℕ → Target → O.World → Option Stdio × O.World
  make_pipe i ignored w = (some (no_pipe none), w)
  make_pipe i (connection fd) w =
      (some (record { parent_end = none; child_end = some fd; output = none }), w)
  make_pipe i (text s) w =
      let (pair, w') = P.make_socketpair w in
      if is_bar s
      then elim pair [
        | none ↦ (none, w')
        | some (a, b) ↦ (
          some (record { parent_end = some a; child_end = some b; output = some s }),
          O.nonblock_fcntl a true w',
        )
      ]
      else if i == 2 && is_merged (some s)
      then (some (no_pipe (some s)), w)
      else if length s == 0
      then (some (record { parent_end = none; child_end = some i; output = some s }), w)
      else (some (no_pipe (some s)), w)

  -- The loop over the connections
  unfoldable pub make_pipes : ℕ → List Target → O.World → Result PipeError (List Stdio) × O.World
  unfolding make_pipe
  make_pipes i [] w = (ok [], w)
  make_pipes i (t ∷ ts) w =
      let (made, w1) = make_pipe i t w in
      elim made [
        | none ↦ (throw socketpair_failed, w1)
        | some s ↦
            let (rest, w2) = make_pipes (i + 1) ts w1 in
            (elim rest [ throw e ↦ throw e | ok ss ↦ ok (s ∷ ss) ], w2)
      ]
