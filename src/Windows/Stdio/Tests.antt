-- ===== src/Windows/Stdio/Tests.antt =====
-- A buffer with a handle, an invalid one and another handle.
use processx.Base.{ℕ, ◌≡◌, refl, Bool, true, false, none, some, List, [], ◌∷◌, arith, length}
use processx.Windows.Stdio.{
  invalid_handle, stdio_size, stdio_verify, stdio_noinherit, stdio_destroy,
}
use processx.Windows.Stdio.Layout.{layout, only_valid, stdio_verify-safe, stdio_noinherit-layout}

abbrev flags : List ℕ
flags = 0x41 ∷ 0 ∷ 0x09 ∷ []

abbrev handles : List ℕ
handles = 300 ∷ invalid_handle ∷ 7 ∷ []

stdio_noinherit-layout_example :
    (stdio_size (layout flags handles) ≡ some (length (layout flags handles)))
    × (stdio_verify (some (layout flags handles)) (length (layout flags handles)) ≡ some true)
    × (stdio_noinherit (layout flags handles) ≡ some (only_valid handles))
    × (stdio_destroy (layout flags handles) ≡ some (only_valid handles))
stdio_noinherit-layout_example =
    stdio_noinherit-layout flags handles refl (omega arith) (omega arith)

-- The count of 2 asks for 22 bytes.
abbrev short : List ℕ
short = 2 ∷ 0 ∷ 0 ∷ 0 ∷ 1 ∷ 1 ∷ 5 ∷ []

stdio_verify-safe_example :
    (verified : Bool) × (stdio_verify (some short) 7 ≡ some verified)
    × (verified ≡ true → (handles : List ℕ) × (stdio_noinherit short ≡ some handles))
stdio_verify-safe_example = stdio_verify-safe 7 short (omega arith)

short_refused : stdio_verify (some short) 7 ≡ some false
unfolding stdio_verify
short_refused = refl

short_unsafe : stdio_noinherit short ≡ none
unfolding stdio_noinherit
short_unsafe = refl
