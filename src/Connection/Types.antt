-- ===== src/Connection/Types.antt =====
-- `processx_connection_t`, the errors that the functions throw, and the calls that leave the
-- package: the system calls and R's iconv interface.
use processx.Base.{false, ◌==◌, ◌||◌, [], ◌∷◌, ℕ, ◌≤◌, ◌<◌, ◌≡◌, Bool, Option, List, Result, length}

-- `processx_file_type_t`
pub data FileType : Type 0 where
  file async_file pipe async_pipe socket : FileType

-- `processx_socket_state_t`
pub data SocketState : Type 0 where
  listen listen_pipe_ready connected_server connected_client : SocketState

-- A buffer is the list of the bytes in use, with the size that was allocated (0 for a null
-- pointer); moving the rest to the front is `drop`. The handle is `none` for -1. `state` is `none`
-- until one of the socket functions sets it. A text is the list of its bytes.
pub record Conn : Type 0 where
  pub type : FileType
  pub is_closed : Bool
  pub is_eof : Bool
  pub is_eof_raw : Bool
  pub close_on_destroy : Bool
  pub encoding : Option (List ℕ)
  pub iconv_ctx : Option ℕ
  pub raw_mode : Bool
  pub handle : Option ℕ
  pub buffer_allocated : ℕ
  pub buffer : List ℕ
  pub utf8_allocated : ℕ
  pub utf8 : List ℕ
  pub filename : Option (List ℕ)
  pub state : Option SocketState

-- The errors, one for each message. Two are no errors of the program: `out_of_bounds` is a read
-- outside a buffer, and `no_fuel` a loop of the model that was given too few rounds.
pub data Fault : Type 0 where
  invalid_connection read_error write_error buffer_too_small invalid_utf8 embedded_nul : Fault
  not_a_socket not_listening not_accepted accept_error out_of_bounds no_fuel : Fault
  poll_failed interrupted : Fault

-- What `read(2)` returns: bytes, 0, or -1 with EAGAIN, EIO or another errno.
pub data ReadOutcome : Type 0 where
  bytes : List ℕ → ReadOutcome
  at_eof again io_error failed : ReadOutcome

-- What `write(2)` returns: a count, or -1 with EAGAIN (EWOULDBLOCK) or another errno.
pub data WriteOutcome : Type 0 where
  wrote : ℕ → WriteOutcome
  would_block write_failed : WriteOutcome

-- How a call of `Riconv` ends: it returns, or errno is E2BIG, EILSEQ, EINVAL or another.
pub data Status : Type 0 where
  done e2big eilseq einval other : Status

-- What a call of `Riconv` does: how many input bytes it passes, and what it writes.
pub record Converted : Type 0 where
  pub consumed : ℕ
  pub output : List ℕ
  pub status : Status

-- The system calls and iconv, over a state of the outside world.
pub record Platform : Type 1 where
  pub World : Type 0
  pub read : Option ℕ → ℕ → World → ReadOutcome × World
  pub write : Option ℕ → List ℕ → World → WriteOutcome × World
  pub close : ℕ → World → World
  pub accept : Option ℕ → World → Option ℕ × World
  pub nonblock_fcntl : ℕ → Bool → World → World
  pub riconv_open : List ℕ → World → ℕ × World
  pub riconv : ℕ → List ℕ → ℕ → World → Converted × World
  pub riconv_close : ℕ → World → World
  -- `(size_t) (n * 1.2)`, in floating point
  pub times_1_2 : ℕ → ℕ

-- What the documentation of iconv promises of one call on `input` with room for `room` bytes:
-- it stays inside both buffers, a call that returns normally has used up its input, a call that
-- stops at a sequence that is invalid or incomplete has that sequence left, and nothing is
-- written without some input being passed.
pub record IconvCall (input : List ℕ) (room : ℕ) (c : Converted) : Type 0 where
  pub consumed_le : c.consumed ≤ length input
  pub output_le : length c.output ≤ room
  pub all_used : c.status ≡ done → c.consumed ≡ length input
  pub invalid_left : c.status ≡ eilseq → c.consumed < length input
  pub incomplete_left : c.status ≡ einval → c.consumed < length input
  pub output_needs_input : 0 < length c.output → 0 < c.consumed

-- What POSIX promises of one `read` of at most `n` bytes.
abbrev pub ReadCall : ℕ → ReadOutcome → Type 0
ReadCall n (bytes b) = (0 < length b) × (length b ≤ n)
ReadCall n _ = Unit

pub record Documented (P : Platform) : Type 0 where
  pub read_call : (fd : Option ℕ) (n : ℕ) (w : P.World) → ReadCall n (P.read fd n w).0
  pub iconv_call :
      (ctx : ℕ) (input : List ℕ) (room : ℕ) (w : P.World)
      → IconvCall input room (P.riconv ctx input room w).0
  pub grows : (n : ℕ) → n ≤ P.times_1_2 n

-- A connection and the world around it.
abbrev pub Io : Platform → Type 0
Io P = Conn × P.World

-- A function of the C code on a connection: it returns or throws, and changes both.
abbrev pub M : Platform → Type 0 → Type 0
M P A = Io P → Result Fault A × Io P

-- A zero byte, with which R makes no string
unfoldable pub has_zero : List ℕ → Bool
has_zero [] = false
has_zero (b ∷ bs) = b == 0 || has_zero bs
