-- ===== src/Connection/Sample.antt =====
-- A small platform and a connection for tests: the source is given as a list of bytes.
use processx.Base.{ℕ, zero, suc, ◌+◌, refl, true, false, none, some, List, [], ◌∷◌, arith}
use processx.Connection.Types.{
  async_pipe, Conn, ReadOutcome, bytes, at_eof, ReadCall, would_block, done, e2big, Converted,
  IconvCall, Platform, Documented,
}
use processx.Connection.Valid.{IsValid}

-- The source gives one byte at a time.
abbrev pub next : ℕ → List ℕ → ReadOutcome × List ℕ
next zero w = (at_eof, w)
next (suc n) [] = (at_eof, [])
next (suc n) (b ∷ bs) = (bytes (b ∷ []), bs)

-- A converter that copies: all at once if there is room, and one byte otherwise.
abbrev pub copy : List ℕ → ℕ → Converted
copy [] room = record { consumed = 0; output = []; status = done }
copy (b ∷ bs) zero = record { consumed = 0; output = []; status = e2big }
copy (b ∷ []) (suc n) = record { consumed = 1; output = b ∷ []; status = done }
copy (b ∷ b' ∷ bs) (suc n) = record { consumed = 1; output = b ∷ []; status = e2big }

abbrev pub source : Platform
source = record {
  World = List ℕ;
  read = λ fd n w. next n w;
  write = λ fd data' w. (would_block, w);
  close = λ fd w. w;
  accept = λ fd w. (none, w);
  nonblock_fcntl = λ fd set w. w;
  riconv_open = λ encoding w. (1, w);
  riconv = λ ctx input room w. (copy input room, w);
  riconv_close = λ ctx w. w;
  times_1_2 = λ n. n + 1;
}

next-ReadCall : (n : ℕ) (w : List ℕ) → ReadCall n (next n w).0
next-ReadCall zero w = tt
next-ReadCall (suc n) [] = tt
next-ReadCall (suc n) (b ∷ bs) = (omega arith, omega arith)

copy-IconvCall : (input : List ℕ) (room : ℕ) → IconvCall input room (copy input room)
copy-IconvCall [] room = record {
  consumed_le = omega arith;
  output_le = omega arith;
  all_used = λ e. refl;
  invalid_left = λ e. absurd cc;
  incomplete_left = λ e. absurd cc;
  output_needs_input = λ h. absurd (omega arith);
}
copy-IconvCall (b ∷ bs) zero = record {
  consumed_le = omega arith;
  output_le = omega arith;
  all_used = λ e. absurd cc;
  invalid_left = λ e. absurd cc;
  incomplete_left = λ e. absurd cc;
  output_needs_input = λ h. absurd (omega arith);
}
copy-IconvCall (b ∷ []) (suc n) = record {
  consumed_le = omega arith;
  output_le = omega arith;
  all_used = λ e. refl;
  invalid_left = λ e. absurd cc;
  incomplete_left = λ e. absurd cc;
  output_needs_input = λ h. omega arith;
}
copy-IconvCall (b ∷ b' ∷ bs) (suc n) = record {
  consumed_le = omega arith;
  output_le = omega arith;
  all_used = λ e. absurd cc;
  invalid_left = λ e. absurd cc;
  incomplete_left = λ e. absurd cc;
  output_needs_input = λ h. omega arith;
}

pub source-Documented : Documented source
source-Documented = record {
  read_call = λ fd n w. next-ReadCall n w;
  iconv_call = λ ctx input room w. copy-IconvCall input room;
  grows = λ n. omega arith;
}

-- "hi" waits in the raw buffer, "abc" in the UTF-8 buffer.
abbrev pub busy : Conn
busy = record {
  type = async_pipe;
  is_closed = false;
  is_eof = false;
  is_eof_raw = false;
  close_on_destroy = true;
  encoding = none;
  iconv_ctx = none;
  raw_mode = false;
  handle = some 5;
  buffer_allocated = 16;
  buffer = b'h' ∷ b'i' ∷ [];
  utf8_allocated = 16;
  utf8 = b'a' ∷ b'b' ∷ b'c' ∷ [];
  filename = none;
  state = none;
}

pub busy-IsValid : IsValid busy
busy-IsValid = record {
  buffer_fits = omega arith;
  utf8_fits = omega arith;
  paired = λ e. absurd (omega arith);
  eof_means_raw = λ e. absurd cc;
  eof_means_drained = λ e. absurd cc;
}
