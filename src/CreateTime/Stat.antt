-- ===== src/CreateTime/Stat.antt =====
-- What is taken from the text of /proc/<pid>/stat.
use processx.Base.{
  ℕ, ◌-◌, ◌<◌, ◌≡◌, ◌≢◌, refl, sym, ap, ◌∙◌, true, false, Bool-cases, Option, none, some, List, [],
  ◌∷◌, ◌++◌, append_assoc, arith, inl, inr, ◌==◌, length, length-append, set,
}
use processx.CreateTime.{
  Reader, strchr, strrchr, c_string, parse_text, parse_stat, create_time_since_boot,
}
use processx.CreateTime.File.{Readable, read_file-left}

-- The byte `c` is not there.
abbrev pub Lacks : ℕ → List ℕ → Type 0
Lacks c [] = Unit
Lacks c (x ∷ xs) = (x ≢ c) × Lacks c xs

Lacks-append : (c : ℕ) (xs ys : List ℕ) → Lacks c xs → Lacks c ys → Lacks c (xs ++ ys)
Lacks-append c [] ys h k = k
Lacks-append c (x ∷ xs) ys h k = (h.0, Lacks-append c xs ys h.1 k)

set-last : (xs : List ℕ) (y v : ℕ) → set (xs ++ (y ∷ [])) (length xs) v ≡ xs ++ (v ∷ [])
set-last [] y v = refl
set-last (x ∷ xs) y v = ap (λ t. x ∷ t) (set-last xs y v)

c_string-append : (xs ys : List ℕ) → Lacks 0 xs → c_string (xs ++ (0 ∷ ys)) ≡ xs
unfolding c_string
c_string-append [] ys h = refl
c_string-append (x ∷ xs) ys h = ground (arith, c_string-append xs ys)

strchr-some : (c : ℕ) (xs ys : List ℕ) → (t : List ℕ) × (strchr c (xs ++ (c ∷ ys)) ≡ some t)
unfolding strchr
strchr-some c [] ys = (c ∷ ys, ground arith)
strchr-some c (x ∷ xs) ys = elim (Bool-cases (x == c)) [
  | inl e ↦ (x ∷ (xs ++ (c ∷ ys)), rw e refl)
  | inr e ↦ let (t, q) = strchr-some c xs ys in (t, rw (e, q) refl)
]

strrchr-none : (c : ℕ) (xs : List ℕ) → Lacks c xs → strrchr c xs ≡ none
unfolding strrchr
strrchr-none c [] h = refl
strrchr-none c (x ∷ xs) h =
    let differ : (x == c) ≡ false = ground (arith, h.0) in rw (strrchr-none c xs h.1, differ) refl

strrchr-append : (c : ℕ) (xs ys : List ℕ) → Lacks c ys → strrchr c (xs ++ (c ∷ ys)) ≡ some (c ∷ ys)
unfolding strrchr
strrchr-append c [] ys h =
    let same : (c == c) ≡ true = ground arith in rw (strrchr-none c ys h, same) refl
strrchr-append c (x ∷ xs) ys h = rw (strrchr-append c xs ys h) refl

-- A line of /proc/<pid>/stat: `pid (command) fields`
abbrev pub stat_line : List ℕ → List ℕ → List ℕ → List ℕ
stat_line pid command fields = (pid ++ (b'(' ∷ (command ++ (b')' ∷ 32 ∷ fields)))) ++ (10 ∷ [])

parse_stat-stat_line :
    (sscanf : List ℕ → Option ℕ) (pid command fields : List ℕ)
    → Lacks 0 pid
    → Lacks 0 command
    → Lacks 0 fields
    → Lacks b')' fields
    → parse_stat sscanf (stat_line pid command fields) ≡ sscanf fields
unfolding parse_stat parse_text
parse_stat-stat_line sscanf pid command fields p c f last =
    let body : List ℕ = pid ++ (b'(' ∷ (command ++ (b')' ∷ 32 ∷ fields))) in
    let size = length-append body (10 ∷ []) in
    let at_last : length (body ++ (10 ∷ [])) - 1 ≡ length body = omega arith in
    let lacks : Lacks 0 body = Lacks-append 0 pid _ p (
      (λ e. absurd (omega arith)),
      Lacks-append 0 command _ c ((λ e. absurd (omega arith)), ((λ e. absurd (omega arith)), f)),
    ) in
    let text : c_string (set (body ++ (10 ∷ [])) (length (body ++ (10 ∷ [])) - 1) 0) ≡ body =
      ap (λ i. c_string (set (body ++ (10 ∷ [])) i 0)) at_last
      ∙ ap c_string (set-last body 10 0)
      ∙ c_string-append body [] lacks in
    let (t, found) = strchr-some b'(' pid (command ++ (b')' ∷ 32 ∷ fields)) in
    let grouped : body ≡ (pid ++ (b'(' ∷ command)) ++ (b')' ∷ 32 ∷ fields) =
      sym (append_assoc pid (b'(' ∷ command) (b')' ∷ 32 ∷ fields)) in
    let found_last : strrchr b')' body ≡ some (b')' ∷ 32 ∷ fields) =
      ap (strrchr b')') grouped
      ∙ strrchr-append b')' (pid ++ (b'(' ∷ command)) (32 ∷ fields)
          ((λ e. absurd (omega arith)), last) in
    rw text (rw (found, found_last, parse_text) refl)

-- If the stat file can be read to its end, in whatever pieces, and is `pid (command) fields` with
-- a newline behind, no zero in it and no `)` in the fields, then processx__create_time_since_boot
-- has room for all of it and hands exactly the fields to sscanf, whatever brackets and spaces are
-- in the command.
pub create_time_since_boot-fields :
    (R : Reader) (F : Readable R) (sscanf : List ℕ → Option ℕ) (fuel : ℕ) (w : R.World)
    (pid command fields : List ℕ)
    → F.left w ≡ stat_line pid command fields
    → Lacks 0 pid
    → Lacks 0 command
    → Lacks 0 fields
    → Lacks b')' fields
    → length (F.left w) < fuel
    → (create_time_since_boot R sscanf fuel w).0 ≡ sscanf fields
unfolding create_time_since_boot
create_time_since_boot-fields R F sscanf fuel w pid command fields file p c f last enough =
    rw (read_file-left R F fuel 2048 w (omega arith) enough, file, create_time_since_boot)
      (parse_stat-stat_line sscanf pid command fields p c f last)
