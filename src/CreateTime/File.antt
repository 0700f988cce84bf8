-- ===== src/CreateTime/File.antt =====
-- What `processx__read_file` reads.
use processx.Base.{
  ℕ, zero, suc, ◌+◌, ◌-◌, ◌*◌, ◌≤◌, ◌<◌, ◌≡◌, sym, ap, ◌∙◌, Bool-cases, false, some, List, [], ◌++◌,
  append_assoc, append-nil, arith, inl, inr, ltb, ◌==◌, if◌then◌else◌, length, length-append,
  take_all, ge→ltb, ==→eq, ==→ne,
}
use processx.CreateTime.{Reader, contents, read_loop, read_file}

-- A file whose reads do not fail, and give something until its end
pub record Readable (R : Reader) : Type 0 where
  pub left : R.World → List ℕ
  pub reads :
      (room : ℕ) (w : R.World)
      → 0 < room
      → (piece : List ℕ) × ((R.read room w).0 ≡ some piece)
        × (left w ≡ piece ++ left (R.read room w).1)
        × (length piece ≤ room)
        × (length piece ≡ 0 → left w ≡ [])

module _ (R : Reader) (F : Readable R) where
  open F use {left, reads}

  read_loop-left :
      (fuel : ℕ) (got : List ℕ) (size rem : ℕ) (w : R.World)
      → 0 < size
      → length got + rem ≡ size
      → length (left w) < fuel
      → (read_loop R fuel got size rem w).0 ≡ contents (got ++ left w)
  unfolding read_loop
  read_loop-left zero got size rem w pos room enough = absurd (omega arith)
  read_loop-left (suc fuel) got size rem w pos room enough =
      let rem' : ℕ = if rem == 0 then size else rem in
      let size' : ℕ = if rem == 0 then size * 2 else size in
      let pos' : 0 < rem' = ground arith in
      let room' : length got + rem' ≡ size' = ground arith in
      let (piece, q, rest, le, ended) = reads rem' w pos' in
      let w' = (R.read rem' w).1 in
      let fits : ltb rem' (length piece) ≡ false = ge→ltb rem' (length piece) le in
      let size_piece = length-append piece (left w') in
      let size_left : length (left w) ≡ length piece + length (left w') =
        ap length rest ∙ size_piece in
      let later = read_loop-left fuel (got ++ piece) size' (rem' - length piece) w' in
      elim (Bool-cases (length piece == 0)) [
        | inl none_left ↦
            let whole : got ++ left w ≡ got =
              ap (λ t. got ++ t) (ended (==→eq _ 0 none_left)) ∙ append-nil got in
            rw (q, fits, none_left, whole, read_loop)
              (ap contents (take_all (size' - rem') got (omega arith)))
        | inr some_left ↦
            let ne = ==→ne (length piece) 0 some_left in
            rw (q, fits, some_left, read_loop)
              (later (omega arith) (omega (arith, length-append got piece)) (ground arith)
                ∙ ap contents (append_assoc got piece (left w') ∙ ap (λ t. got ++ t) (sym rest)))
      ]

  -- The whole file is read, whatever the pieces, and never more than there is room for.
  pub read_file-left :
      (fuel buffer_size : ℕ) (w : R.World)
      → 0 < buffer_size
      → length (left w) < fuel
      → (read_file R fuel buffer_size w).0 ≡ contents (left w)
  unfolding read_file
  read_file-left fuel buffer_size w pos enough =
      read_loop-left fuel [] buffer_size buffer_size w pos (omega arith) enough
