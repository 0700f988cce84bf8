-- ===== src/Windows/Search/Order.antt =====
-- The order of the search, as the comment above `processx__search_path` tells it: the texts that are
-- tried, one after the other, and the first that is a file.
use processx.Base.{
  ◌≢◌, Bool, not, ◌||◌, ◌&&◌, Option, none, some, List, [], ◌∷◌, ◌++◌, Result, ok, ◌==◌,
  if◌then◌else◌, length, take, drop, get_or,
}
use processx.Windows.Search.{
  Text, dot, semicolon, name_start, name_has_ext, adjust, Files, SearchError, join,
}

-- The parts of a path, with a semicolon after each but the last
unfoldable pub split : Text → List Text
split [] = [] ∷ []
split (c ∷ cs) =
    let rest = split cs in
    if c == semicolon
    then [] ∷ rest
    else elim rest [ [] ↦ (c ∷ []) ∷ [] | part ∷ parts ↦ (c ∷ part) ∷ parts ]

-- No part is a single quote.
abbrev pub NoLoneQuote : List Text → Type 0
NoLoneQuote [] = Unit
NoLoneQuote (dir ∷ dirs) = (length dir ≢ 0 → adjust dir ≢ none) × NoLoneQuote dirs

module _ (F : Files) where
  abbrev pub first_file : List Text → Option Text
  first_file [] = none
  first_file (text ∷ texts) =
      let later = first_file texts in if F.is_file text then some text else later

  -- What is tried in one directory
  unfoldable pub tries : Text → Text → Text → Bool → List Text
  tries dir name cwd has_ext =
      let appended =
        join F dir name (b'c' ∷ b'o' ∷ b'm' ∷ []) cwd
        ∷ join F dir name (b'e' ∷ b'x' ∷ b'e' ∷ []) cwd
        ∷ [] in
      if has_ext then join F dir name [] cwd ∷ appended else appended

  -- What is tried in the directories of the path; empty ones are skipped.
  abbrev pub path_tries : Text → Text → Bool → List Text → List Text
  path_tries name cwd has_ext [] = []
  path_tries name cwd has_ext (dir ∷ dirs) =
      let rest = path_tries name cwd has_ext dirs in
      if length dir == 0
      then rest
      else elim (adjust dir) [ none ↦ rest | some dir' ↦ tries dir' name cwd has_ext ++ rest ]

  -- All that is tried for a file: one directory if it names one, and otherwise the current one and
  -- then the path.
  unfoldable pub all_tries : Text → Text → Text → List Text
  all_tries file cwd path =
      let n = name_start (length file) file in
      let name = drop n file in
      if length file == 0 || (length file == 1 && get_or file 0 0 == dot)
      then []
      else if not (n == 0)
      then tries (take n file) name cwd (name_has_ext name)
      else tries [] file cwd (name_has_ext name)
        ++ path_tries file cwd (name_has_ext name) (split path)

  abbrev tested : Text → Option Text
  tested text = if F.is_file text then some text else none

  -- What is left of the path holds these parts.
  abbrev parts_from : Text → List Text
  parts_from [] = []
  parts_from (_ ∷ cs) = split cs

  module _ (file cwd : Text) (has_ext : Bool) where
    abbrev found : List Text → Result SearchError (Option Text)
    found dirs = ok (first_file (path_tries file cwd has_ext dirs))
