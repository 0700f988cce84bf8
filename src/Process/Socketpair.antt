-- ===== src/Process/Socketpair.antt =====
-- `processx__make_socketpair` of src/unix/processx.c as it is built on Linux, which fills the record
-- Sockets of Child.Pipes.
pub mod Made
mod Tests
use processx.Base.{ℕ, Bool, true, false, Option, none, some}
use processx.Process.Child.{FdOs}
use processx.Process.Child.Pipes.{Sockets}

-- What socketpair(2) gives: two descriptors, or -1 with EINVAL or another errno.
pub data SocketOutcome : Type 0 where
  made : ℕ → ℕ → SocketOutcome
  einval socket_failed : SocketOutcome

-- socketpair(2), with SOCK_CLOEXEC or without
pub record SocketOs (O : FdOs) : Type 0 where
  pub socketpair : Bool → O.World → SocketOutcome × O.World

module _ (O : FdOs) (S : SocketOs O) where
  -- From `skip` on, with the value of the static variable `no_cloexec`
  unfoldable pub without_cloexec : Bool → O.World → (Option (ℕ × ℕ) × Bool) × O.World
  without_cloexec no_cloexec w =
      let (r, w') = S.socketpair false w in
      elim r [
        | made a b ↦ ((some (a, b), no_cloexec), O.cloexec_fcntl b true (O.cloexec_fcntl a true w'))
        | einval ↦ ((none, no_cloexec), w')
        | socket_failed ↦ ((none, no_cloexec), w')
      ]

  -- The first call
  unfoldable pub with_sock_cloexec : O.World → (Option (ℕ × ℕ) × Bool) × O.World
  unfolding without_cloexec
  with_sock_cloexec w =
      let (r, w') = S.socketpair true w in
      elim r [
        | made a b ↦ ((some (a, b), false), w')
        | einval ↦ without_cloexec true w'
        | socket_failed ↦ ((none, false), w')
      ]

  -- `processx__make_socketpair`: the pair, or `none` for an error, and `no_cloexec` afterwards
  unfoldable pub make_socketpair : Bool → O.World → (Option (ℕ × ℕ) × Bool) × O.World
  unfolding with_sock_cloexec
  make_socketpair no_cloexec w =
      let first = with_sock_cloexec w in
      let again = without_cloexec true w in elim no_cloexec [ true ↦ again | false ↦ first ]

  unfoldable pub sockets_of : Bool → Sockets O
  unfolding make_socketpair
  sockets_of no_cloexec = record {
    make_socketpair = λ w. ((make_socketpair no_cloexec w).0.0, (make_socketpair no_cloexec w).1);
  }
