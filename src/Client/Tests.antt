-- ===== src/Client/Tests.antt =====
-- Tables of file descriptors, and instances of the theorems.
use processx.Base.{
  ℕ, ◌≡◌, refl, true, false, Option, none, some, ok, throw, arith, ltb, ◌==◌, if◌then◌else◌, List,
  [], ◌∷◌,
}
use processx.Process.Child.Sample.{Fds, slot, put, first_free, fd_open, fds, fds_documented}
use processx.Client.{
  FlagOs, WriteOs, WriteState, WriteAnswer, default, cannot_write, write, disable_inheritance,
  set_std, set_std_to_file,
}
use processx.Client.Inherit.{Flags, MarkedTo, disable_inheritance-MarkedTo}
use processx.Client.Std.{Replaced, set_std-Replaced}

-- Twenty descriptors
abbrev flag_table : FlagOs
flag_table = record {
  World = ℕ → Option ℕ;
  getfd = λ w k. if ltb k 20 then w k else none;
  setfd = λ fd v w. (true, λ k. if k == fd then some v else w k);
}

flag_table_lawful : Flags flag_table
flag_table_lawful = record {
  set_ok = λ fd v w h. (refl, ground arith);
  set_other = λ fd v k w ne. ground arith;
}

-- 0 to 4 and 18 are open.
abbrev opened : ℕ → Option ℕ
opened k = if ltb k 5 then some 0 else if k == 18 then some 0 else none

-- The loop stops at 16, and so leaves 18 alone.
disable_inheritance-MarkedTo_example :
    (stop : ℕ) × (w' : (ℕ → Option ℕ)) × (disable_inheritance flag_table 21 false opened ≡ some w')
    × MarkedTo flag_table flag_table_lawful 3 stop opened w'
disable_inheritance-MarkedTo_example =
    disable_inheritance-MarkedTo flag_table flag_table_lawful 21 20 false opened (omega arith)
      (λ k h. ground arith) (omega arith)

-- 1 and 5 are open.
abbrev start : Fds
start = put 1 (some (1, false)) (put 5 (some (50, true)) (λ k. none))

moved : (set_std fds 1 5 false start).0 ≡ ok (some 0)
unfolding set_std first_free
moved = refl

set_std-Replaced_example :
    Replaced fds fds_documented false (some 0) 1 5 start (set_std fds 1 5 false start).1
set_std-Replaced_example =
    set_std-Replaced fds fds_documented false (some 0) 1 5 start (λ e. absurd (omega arith))
      (λ e. absurd cc) moved

-- With its own number the stream is closed.
itself : slot (set_std fds 1 1 true start).1 1 ≡ none
unfolding set_std first_free
itself = refl

abbrev open_out : List ℕ → Fds → Option ℕ × Fds
unfolding first_free
open_out path w = fd_open w

opened_file : (set_std_to_file fds open_out 1 [] start).0 ≡ ok (some 2)
unfolding set_std_to_file first_free
opened_file = refl

-- A pipe that nobody reads
abbrev broken : WriteOs
broken = record { World = ℕ; write = λ action fd bytes w. (WriteAnswer.write_failed, w) }

abbrev untouched : WriteState broken
untouched = record { sigpipe = default; world = 0 }

write_broken : write {O = broken} 1 (1 ∷ []) untouched ≡ (throw cannot_write, untouched)
unfolding write
write_broken = refl
