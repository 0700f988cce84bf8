-- ===== src/Windows/Search.antt =====
-- `processx__search_path` of src/win/processx.c and its two helpers, which find the file of a program.
-- A text is the list of its UTF-16 units, with no zero among them; a pointer into a text is what is
-- left of it.
pub mod Order
mod Tests
use processx.Base.{
  ℕ, zero, suc, ◌+◌, ◌-◌, Bool, true, false, not, ◌&&◌, ◌||◌, Option, none, some, List, [], ◌∷◌,
  ◌++◌, Result, ok, throw, ltb, leb, ◌==◌, if◌then◌else◌, length, get_or, take, drop,
}

abbrev pub Text : Type 0
Text = List ℕ

abbrev pub backslash : ℕ
backslash = 92

abbrev pub dot : ℕ
dot = b'.'

abbrev pub semicolon : ℕ
semicolon = b';'

abbrev pub is_slash : ℕ → Bool
is_slash c = c == backslash || c == b'/'

-- The characters of L"\\/:"
abbrev pub is_separator : ℕ → Bool
is_separator c = is_slash c || c == b':'

abbrev pub is_quote : ℕ → Bool
is_quote c = c == b'"' || c == 39

abbrev pub last_char : Text → ℕ
last_char text = get_or text (length text - 1) 0

-- A separator is added if there is a text without one at its end.
unfoldable pub with_separator : Text → Text
with_separator text =
    if length text == 0
    then text
    else if is_separator (last_char text)
    then text
    else text ++ (backslash ∷ [])

-- The file name and the extension, with a dot between them
unfoldable pub with_extension : Text → Text → Text
with_extension name ext =
    if length ext == 0
    then name
    else if not (length name == 0) && not (last_char name == dot)
    then name ++ (dot ∷ ext)
    else name ++ ext

-- What comes before the first `c`, and what comes from it on
unfoldable pub before : ℕ → Text → Text
before c [] = []
before c (x ∷ xs) = let rest = before c xs in if x == c then [] else x ∷ rest

unfoldable pub from_first : ℕ → Text → Text
from_first c [] = []
from_first c (x ∷ xs) = let rest = from_first c xs in if x == c then x ∷ xs else rest

-- The loop that looks for the start of the file name, from its end backwards
unfoldable pub name_start : ℕ → Text → ℕ
name_start zero file = 0
name_start (suc i) file =
    let earlier = name_start i file in if is_separator (get_or file i 0) then suc i else earlier

-- `name_has_ext`
unfoldable pub name_has_ext : Text → Bool
unfolding from_first
name_has_ext name = not (leb (length (from_first dot name)) 1)

-- A part of the path without its quotes. `none` for a single quote: `dir_path[dir_len - 1]` is then
-- that quote again, and the length wraps around below 0.
unfoldable pub adjust : Text → Option Text
adjust dir =
    let dir_path = if is_quote (get_or dir 0 0) then drop 1 dir else dir in
    if length dir_path == 0
    then none
    else if is_quote (last_char dir_path)
    then some (take (length dir_path - 1) dir_path)
    else some dir_path

-- `GetFileAttributesW` finds a file that is no directory, which is taken not to change during the
-- search; `same_drive` is `_wcsnicmp` on two characters.
pub record Files : Type 0 where
  pub is_file : Text → Bool
  pub same_drive : Text → Text → Bool

pub data SearchError : Type 0 where
  wrapped no_fuel : SearchError

module _ (F : Files) where
  -- The part of the current directory that goes before `dir`, and the part of `dir` that is used
  unfoldable pub base : Text → Text → Text × Text
  base dir cwd =
      let n = length dir in
      let first = get_or dir 0 0 in
      let second = get_or dir 1 0 in
      if ltb 2 n && (first == backslash && second == backslash)
      then ([], dir)
      else if leb 1 n && is_slash first
      then (take 2 cwd, dir)
      else if leb 2 n && (second == b':' && (ltb n 3 || not (is_slash (get_or dir 2 0))))
      then (if ltb (length cwd) 2 || not (F.same_drive cwd dir)
          then ([], dir)
          else (cwd, drop 2 dir))
      else if ltb 2 n && second == b':'
      then ([], dir)
      else (cwd, dir)

  unfoldable pub join : Text → Text → Text → Text → Text
  unfolding base with_separator with_extension
  join dir name ext cwd =
      let (cwd', dir') = base dir cwd in
      with_separator cwd' ++ (with_separator dir' ++ with_extension name ext)

  -- `processx__search_path_join_test`
  unfoldable pub join_test : Text → Text → Text → Text → Option Text
  unfolding join
  join_test dir name ext cwd =
      let result = join dir name ext cwd in if F.is_file result then some result else none

  -- `processx__path_search_walk_ext`
  unfoldable pub walk_ext : Text → Text → Text → Bool → Option Text
  unfolding join_test
  walk_ext dir name cwd has_ext = elim (if has_ext then join_test dir name [] cwd else none) [
    | some r ↦ some r
    | none ↦ elim (join_test dir name (b'c' ∷ b'o' ∷ b'm' ∷ []) cwd) [
      | some r ↦ some r
      | none ↦ join_test dir name (b'e' ∷ b'x' ∷ b'e' ∷ []) cwd
    ]
  ]

  module _ (file cwd : Text) (has_ext : Bool) where
    -- The part of the path that `text` starts with is searched; `again` is the rest of the loop.
    unfoldable pub visit_part :
        Text → Result SearchError (Option Text) → Result SearchError (Option Text)
    unfolding before adjust walk_ext
    visit_part text again =
        let dir = before semicolon text in
        if length dir == 0 then again else elim (adjust dir) [
          | none ↦ throw wrapped
          | some dir' ↦ elim (walk_ext dir' file cwd has_ext) [
            | some r ↦ ok (some r)
            | none ↦ again
          ]
        ]

    -- The loop over the path. `text` is the path from `dir_end` on, and `later` is whether `dir_end`
    -- is no more the start of the path.
    unfoldable pub scan : ℕ → Bool → Text → Result SearchError (Option Text)
    unfolding visit_part from_first
    scan zero later text = throw no_fuel
    scan (suc fuel) later [] = ok none
    scan (suc fuel) later (c ∷ cs) =
        let text = if later || c == semicolon then cs else c ∷ cs in
        visit_part text (scan fuel true (from_first semicolon text))

  -- `processx__search_path`. Every round of the loop leaves less of the path.
  unfoldable pub search_path : Text → Text → Text → Result SearchError (Option Text)
  unfolding name_start name_has_ext walk_ext scan
  search_path file cwd path =
      let n = name_start (length file) file in
      let name = drop n file in
      let has_ext = name_has_ext name in
      if length file == 0 || (length file == 1 && get_or file 0 0 == dot)
      then ok none
      else if not (n == 0)
      then ok (walk_ext (take n file) name cwd has_ext)
      else elim (walk_ext [] file cwd has_ext) [
        | some r ↦ ok (some r)
        | none ↦ scan file cwd has_ext (length path + 1) false path
      ]
