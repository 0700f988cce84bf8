-- ===== src/CreateTime/Tests.antt =====
-- A stat file that is read in pieces of five bytes.
use processx.Base.{
  ℕ, ◌≡◌, refl, sym, Option, none, some, List, [], ◌∷◌, arith, ◌==◌, if◌then◌else◌, length, take,
  drop, get_or, min, take-append-drop, length-take, nil_of_length,
}
use processx.CreateTime.{Reader, create_time_since_boot, parse_stat}
use processx.CreateTime.File.{Readable}
use processx.CreateTime.Stat.{stat_line, create_time_since_boot-fields}

abbrev pieces : Reader
pieces = record {
  World = List ℕ;
  read = λ room w. (some (take (min room 5) w), drop (min room 5) w);
}

abbrev pieces_readable : Readable pieces
pieces_readable = record {
  left = λ w. w;
  reads = λ room w h. (
    take (min room 5) w,
    refl,
    sym (take-append-drop (min room 5) w),
    omega (arith, length-take (min room 5) w),
    λ z. nil_of_length w (omega (arith, length-take (min room 5) w)),
  );
}

-- The command is `a) R (`.
abbrev command : List ℕ
command = b'a' ∷ b')' ∷ 32 ∷ b'R' ∷ 32 ∷ b'(' ∷ []

abbrev fields : List ℕ
fields = b'S' ∷ 32 ∷ b'7' ∷ []

-- The last of three characters
abbrev third : List ℕ → Option ℕ
third text = if length text == 3 then some (get_or text 2 0) else none

abbrev stat : List ℕ
stat = stat_line (b'1' ∷ b'2' ∷ 32 ∷ []) command fields

parsed : parse_stat third stat ≡ some b'7'
unfolding parse_stat
parsed = refl

create_time_since_boot-fields_example :
    (create_time_since_boot pieces third 99 stat).0 ≡ third fields
create_time_since_boot-fields_example =
    create_time_since_boot-fields pieces pieces_readable third 99 stat (b'1' ∷ b'2' ∷ 32 ∷ [])
      command fields refl (omega arith) (omega arith) (omega arith) (omega arith) (omega arith)
