-- ===== src/CreateTime.antt =====
-- The creation time of a process on Linux, of src/create-time.c. The times are numbers: `none` is
-- 0.0, which stands for an error there, and the clock is one of ticks. The file is read in pieces that
-- `read` chooses.
pub mod File
pub mod Stat
mod Tests
use processx.Base.{
  ℕ, zero, suc, ◌+◌, ◌-◌, ◌*◌, ◌≤◌, Bool, true, false, Option, none, some, List, [], ◌∷◌, ◌++◌, ltb,
  leb, ◌==◌, if◌then◌else◌, length, take, drop, get_or, set,
}

-- `read` on the file: at most as many bytes as there is room, none at the end; `none` for -1.
pub record Reader : Type 1 where
  pub World : Type 0
  pub read : ℕ → World → Option (List ℕ) × World

pub data ReadFile : Type 0 where
  contents : List ℕ → ReadFile
  read_failed : ReadFile
  overrun : ReadFile
  no_fuel : ReadFile

module _ (R : Reader) where
  -- The loop of `processx__read_file`, with what is in the buffer, `buffer_size` and `rem_size`
  unfoldable pub read_loop : ℕ → List ℕ → ℕ → ℕ → R.World → ReadFile × R.World
  read_loop zero got size rem w = (no_fuel, w)
  read_loop (suc fuel) got size rem w =
      let rem' = if rem == 0 then size else rem in
      let size' = if rem == 0 then size * 2 else size in
      let (r, w') = R.read rem' w in
      elim r [
        | none ↦ (read_failed, w')
        | some piece ↦
            let more = read_loop fuel (got ++ piece) size' (rem' - length piece) w' in
            if ltb rem' (length piece)
            then (overrun, w')
            else if length piece == 0
            then (contents (take (size' - rem') got), w')
            else more
      ]

  -- `processx__read_file`, with the file open
  unfoldable pub read_file : ℕ → ℕ → R.World → ReadFile × R.World
  unfolding read_loop
  read_file fuel buffer_size w = read_loop fuel [] buffer_size buffer_size w

-- `strchr` and `strrchr`: the text from the first or the last `c` on
unfoldable pub strchr : ℕ → List ℕ → Option (List ℕ)
strchr c [] = none
strchr c (x ∷ xs) = let later = strchr c xs in if x == c then some (x ∷ xs) else later

unfoldable pub strrchr : ℕ → List ℕ → Option (List ℕ)
strrchr c [] = none
strrchr c (x ∷ xs) =
    let later = strrchr c xs in
    elim later [ some t ↦ some t | none ↦ if x == c then some (x ∷ xs) else none ]

-- What stands before the first zero
unfoldable pub c_string : List ℕ → List ℕ
c_string [] = []
c_string (x ∷ xs) = let rest = c_string xs in if x == 0 then [] else x ∷ rest

-- The search for the command in the text, and `sscanf` behind it, with `none` for anything but 20
-- fields
unfoldable pub parse_text : (List ℕ → Option ℕ) → List ℕ → Option ℕ
unfolding strchr strrchr
parse_text sscanf text = elim (strchr b'(' text) [
  | none ↦ none
  | some l ↦ elim (strrchr b')' text) [ none ↦ none | some r ↦ sscanf (drop 2 r) ]
]

-- The last byte of the stat file is replaced by a zero. (In an empty file that is a write before the
-- buffer, which is left out here.)
unfoldable pub parse_stat : (List ℕ → Option ℕ) → List ℕ → Option ℕ
unfolding parse_text c_string
parse_stat sscanf bytes = parse_text sscanf (c_string (set bytes (length bytes - 1) 0))

-- `processx__create_time_since_boot`, with the stat file open
unfoldable pub create_time_since_boot :
    (R : Reader) → (List ℕ → Option ℕ) → ℕ → R.World → Option ℕ × R.World
unfolding read_file parse_stat
create_time_since_boot R sscanf fuel w =
    let (file, w') = read_file R fuel 2048 w in
    (
      elim file [
        | contents bytes ↦ parse_stat sscanf bytes
        | read_failed ↦ none
        | overrun ↦ none
        | no_fuel ↦ none
      ],
      w',
    )
