-- ===== src/Windows/Search/Tests.antt =====
-- A search in which only one file exists.
use processx.Base.{◌≡◌, refl, Bool, true, false, ◌&&◌, some, [], ◌∷◌, ◌==◌, ok, throw}
use processx.Windows.Search.{Text, Files, wrapped, search_path}

abbrev same_text : Text → Text → Bool
same_text [] [] = true
same_text (a ∷ xs) (b ∷ ys) = a == b && same_text xs ys
same_text _ _ = false

-- D:\y\a.b.com
abbrev target : Text
target = b'D' ∷ b':' ∷ 92 ∷ b'y' ∷ 92 ∷ b'a' ∷ b'.' ∷ b'b' ∷ b'.' ∷ b'c' ∷ b'o' ∷ b'm' ∷ []

abbrev files : Files
files = record { is_file = same_text target; same_drive = λ a b. true }

-- a.b
abbrev file : Text
file = b'a' ∷ b'.' ∷ b'b' ∷ []

-- C:\w
abbrev cwd : Text
cwd = b'C' ∷ b':' ∷ 92 ∷ b'w' ∷ []

-- C:\x;;"D:\y"
abbrev path : Text
path = b'C' ∷ b':' ∷ 92 ∷ b'x' ∷ b';' ∷ b';' ∷ b'"' ∷ b'D' ∷ b':' ∷ 92 ∷ b'y' ∷ b'"' ∷ []

found_target : search_path files file cwd path ≡ ok (some target)
unfolding search_path
found_target = refl

-- A part of the path that is a single quote
lone_quote : search_path files file cwd (b'"' ∷ []) ≡ throw wrapped
unfolding search_path
lone_quote = refl
