-- ===== src/Connection/Chars/Served.antt =====
-- `processx_connection_read_chars` serves the front of the UTF-8 buffer and keeps the rest.
use processx.Base.{
  zero, suc, [], ◌∷◌, ◌⊎◌, take, ℕ, ◌≡◌, ◌≢◌, refl, true, false, not, ◌&&◌, ◌||◌, Option, none,
  some, List, ◌++◌, Result, ok, throw, arith, ◌==◌, Bool-cases, inl, inr, length, drop,
  take-append-drop,
}
use processx.Connection.Types.{has_zero, embedded_nul, Conn, Fault, invalid_utf8, Platform, Io}
use processx.Connection.Bytes.{is_open}
use processx.Connection.Chars.Find.{Span}
use processx.Connection.Chars.{
  read_if_empty, find_in, find_chars, leave_buffer, take_string, read_chars,
}
use processx.Connection.Chars.Limits.{Counted, Within-self, find_utf8_chars-Counted}

has_zero-take : (n : ℕ) (bs : List ℕ) → has_zero (take n bs) ≡ true → has_zero bs ≡ true
unfolding has_zero
has_zero-take zero bs h = absurd cc
has_zero-take (suc n) [] h = absurd cc
has_zero-take (suc n) (b ∷ bs) h = elim (Bool-cases (b == 0)) [
  | inl e ↦ rw e
  | inr e ↦ rw e (has_zero-take n bs (rw e at h))
]

module _ (P : Platform) where
  -- Characters without a zero byte are served out of the buffer of `c`, and nothing else changes; or
  -- the buffer has invalid UTF-8 or a zero byte, and nothing changes at all.
  abbrev pub CharsServed : Conn → P.World → Result Fault (List ℕ) × Io P → Type 0
  CharsServed c w (ok bs, io') =
      (rest : List ℕ) × (io' ≡ (record c { utf8 = rest }, w))
      × (bs ++ rest ≡ c.utf8)
      × (has_zero bs ≡ false)
  CharsServed c w (throw e, io') =
      (io' ≡ (c, w)) × ((e ≡ invalid_utf8) ⊎ ((e ≡ embedded_nul) × (has_zero c.utf8 ≡ true)))

  find_in-Counted :
      (mc mb : Option ℕ) (c : Conn)
      → Counted mc mb c.utf8 (record { chars = 0; bytes = 0 }) (find_in P mc mb c)
  unfolding find_in
  find_in-Counted mc mb c =
      let zero_span : Span = record { chars = 0; bytes = 0 } in
      elim (Bool-cases ((length c.utf8 == 0) || elim mc [ none ↦ false | some n ↦ n == 0 ])) [
        | inl nothing ↦ rw nothing (Within-self mc mb c.utf8 zero_span)
        | inr some_work ↦ rw some_work (find_utf8_chars-Counted mc mb c.utf8)
      ]

  take_string-CharsServed :
      (mc mb : Option ℕ) (r : Result Fault Span) (c : Conn) (w : P.World)
      → Counted mc mb c.utf8 (record { chars = 0; bytes = 0 }) r
      → CharsServed c w (take_string P (r, (c, w)))
  unfolding take_string leave_buffer
  take_string-CharsServed mc mb (throw e) c w k = (refl, inl k)
  take_string-CharsServed mc mb (ok s) c w k = elim (Bool-cases (has_zero (take s.bytes c.utf8))) [
    | inl z ↦ rw z (refl, inr (refl, has_zero-take s.bytes c.utf8 z))
    | inr z ↦ rw z (drop s.bytes c.utf8, refl, take-append-drop s.bytes c.utf8, z)
  ]

  full_buffer :
      (c : Conn) (w : P.World)
      → (not c.is_eof && (length c.utf8 == 0)) ≡ false
      → read_if_empty P (c, w) ≡ (ok 0, (c, w))
  unfolding read_if_empty
  full_buffer c w z = rw z

  found_in :
      (mc : Option ℕ) (c : Conn) (w : P.World)
      → is_open c ≡ true
      → (not c.is_eof && (length c.utf8 == 0)) ≡ false
      → find_chars P mc none (c, w) ≡ (find_in P mc none c, (c, w))
  unfolding find_chars
  found_in mc c w o z = let f = full_buffer c w z in rw (find_chars, o, f, f)

  -- On an open connection with characters in its UTF-8 buffer, `read_chars` does not read from
  -- the source: it takes bytes off the front of the buffer, none of them zero, and leaves the others
  -- there, in order; or it throws the error for invalid UTF-8, or that of R for a string with a zero
  -- byte, which the buffer then has, and leaves the connection as it was.
  pub read_chars-CharsServed :
      (nchars : Option ℕ) (c : Conn) (w : P.World)
      → is_open c ≡ true
      → length c.utf8 ≢ 0
      → CharsServed c w (read_chars P nchars (c, w))
  unfolding read_chars
  read_chars-CharsServed nchars c w o ne =
      let z : (not c.is_eof && (length c.utf8 == 0)) ≡ false = ground arith in
      rw (found_in nchars c w o z) (
        take_string-CharsServed nchars none (find_in P nchars none c) c w
          (find_in-Counted nchars none c))
