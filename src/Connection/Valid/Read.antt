-- ===== src/Connection/Valid/Read.antt =====
-- `processx__connection_read` keeps a connection valid.
use processx.Base.{
  ℕ, ◌-◌, ◌≡◌, inl, inr, refl, ◌∙◌, true, false, not, ◌&&◌, none, some, List, ◌++◌, Result, ok,
  throw, arith, ltb, ◌==◌, Bool-cases, length, length-append,
}
use processx.Connection.Types.{
  Conn, Fault, read_error, ReadOutcome, bytes, at_eof, again, io_error, failed, ReadCall, Platform,
  Documented, Io,
}
use processx.Connection.Read.{
  with_buffer, mark_end, read_more, end_of_source, after_read, convert_if_text, read_source,
  connection_read,
}
use processx.Connection.Valid.{IsValid, ReturnsKept, to_utf8-Kept}

module _ (P : Platform) (doc : Documented P) where
  -- What `connection_read` does: it returns a number, or throws the read error; in both cases the
  -- connection stays valid, with the same handle and mode.
  pub data ReadDone (c : Conn) : Result Fault ℕ × Io P → Type 0 where
    returned :
        (n : ℕ) {c' : Conn} {w' : P.World}
        → IsValid c'
        → c'.handle ≡ c.handle
        → c'.raw_mode ≡ c.raw_mode
        → ReadDone c (ok n, (c', w'))
    threw :
        {c' : Conn} {w' : P.World}
        → IsValid c'
        → c'.handle ≡ c.handle
        → c'.raw_mode ≡ c.raw_mode
        → ReadDone c (throw read_error, (c', w'))

  Kept-ReadDone :
      {c c1 : Conn} {out : Result Fault ℕ × Io P}
      → c1.handle ≡ c.handle
      → c1.raw_mode ≡ c.raw_mode
      → ReturnsKept P doc c1 out
      → ReadDone c out
  Kept-ReadDone {c} eh er (n, c', w', run, k) =
      rw run (returned n k.valid (k.same_handle ∙ eh) (k.same_raw_mode ∙ er))

  -- Reading adds to the raw buffer what fits, or ends the source.
  abbrev Same : Conn → Conn → Type 0
  Same c c' = IsValid c' × (c'.handle ≡ c.handle) × (c'.raw_mode ≡ c.raw_mode)

  bytes-Same :
      (b : List ℕ) (c : Conn)
      → IsValid c
      → c.is_eof ≡ false
      → ReadCall (c.buffer_allocated - length c.buffer) (bytes b)
      → Same c (record c { buffer = c.buffer ++ b })
  bytes-Same b c v e h = (
    record {
      buffer_fits = omega (arith, length-append c.buffer b, v.buffer_fits, h.0, h.1);
      utf8_fits = v.utf8_fits;
      paired = v.paired;
      eof_means_raw = v.eof_means_raw;
      eof_means_drained = λ t. absurd (ground arith);
    },
    refl,
    refl,
  )

  end_of_source-Same : (c : Conn) → IsValid c → c.is_eof ≡ false → Same c (end_of_source c)
  unfolding end_of_source
  end_of_source-Same c v e = elim (Bool-cases ((length c.utf8 == 0) && (length c.buffer == 0))) [
    | inl empty ↦ rw empty (
      record {
        buffer_fits = v.buffer_fits;
        utf8_fits = v.utf8_fits;
        paired = v.paired;
        eof_means_raw = λ t. refl;
        eof_means_drained = λ t. ground arith;
      },
      refl,
      refl,
    )
    | inr left ↦ rw left (
      record {
        buffer_fits = v.buffer_fits;
        utf8_fits = v.utf8_fits;
        paired = v.paired;
        eof_means_raw = λ t. refl;
        eof_means_drained = v.eof_means_drained;
      },
      refl,
      refl,
    )
  ]

  convert_if_text-ReadDone :
      (c c1 : Conn) (w : P.World) → Same c c1 → ReadDone c (convert_if_text P (c1, w))
  unfolding convert_if_text
  convert_if_text-ReadDone c c1 w s =
      elim (Bool-cases (not c1.raw_mode && ltb 0 (length c1.buffer))) [
        | inl text ↦ rw text (Kept-ReadDone s.1 s.2 (to_utf8-Kept P doc c1 w s.0))
        | inr raw ↦ rw raw (returned (length c1.buffer) s.0 s.1 s.2)
      ]

  -- The outcome of the read decides.
  outcome-ReadDone :
      (c : Conn) (r : ReadOutcome) (w : P.World)
      → IsValid c
      → c.is_eof ≡ false
      → ReadCall (c.buffer_allocated - length c.buffer) r
      → ReadDone c (elim (after_read r c) [
        | none ↦ (throw read_error, (c, w))
        | some c' ↦ convert_if_text P (c', w)
      ])
  unfolding after_read
  outcome-ReadDone c (bytes b) w v e h =
      convert_if_text-ReadDone c (record c { buffer = c.buffer ++ b }) w (bytes-Same b c v e h)
  outcome-ReadDone c at_eof w v e h =
      convert_if_text-ReadDone c (end_of_source c) w (end_of_source-Same c v e)
  outcome-ReadDone c again w v e h = convert_if_text-ReadDone c c w (v, refl, refl)
  outcome-ReadDone c io_error w v e h =
      convert_if_text-ReadDone c (end_of_source c) w (end_of_source-Same c v e)
  outcome-ReadDone c failed w v e h = threw v refl refl

  read_source-ReadDone :
      (c : Conn) (w : P.World) → IsValid c → c.is_eof ≡ false → ReadDone c (read_source P (c, w))
  unfolding read_source
  read_source-ReadDone c w v e =
      let (r, w') = P.read c.handle (c.buffer_allocated - length c.buffer) w in
      outcome-ReadDone c r w' v e (doc.read_call c.handle (c.buffer_allocated - length c.buffer) w)

  with_buffer-Same : (c : Conn) → IsValid c → Same c (with_buffer c)
  unfolding with_buffer
  with_buffer-Same c v = elim (Bool-cases (c.buffer_allocated == 0)) [
    | inl null ↦ rw null (
      record {
        buffer_fits = omega arith;
        utf8_fits = omega arith;
        paired = λ z. refl;
        eof_means_raw = v.eof_means_raw;
        eof_means_drained = λ t. refl;
      },
      refl,
      refl,
    )
    | inr there ↦ rw there (v, refl, refl)
  ]

  with_buffer-eof : (c : Conn) → (with_buffer c).is_eof ≡ c.is_eof
  unfolding with_buffer
  with_buffer-eof c = ground arith

  mark_end-Same :
      (c : Conn) → IsValid c → c.is_eof_raw ≡ true → length c.buffer ≡ 0 → Same c (mark_end c)
  unfolding mark_end
  mark_end-Same c v er eb = elim (Bool-cases (length c.utf8 == 0)) [
    | inl empty ↦ rw empty (
      record {
        buffer_fits = v.buffer_fits;
        utf8_fits = v.utf8_fits;
        paired = v.paired;
        eof_means_raw = λ t. er;
        eof_means_drained = λ t. eb;
      },
      refl,
      refl,
    )
    | inr there ↦ rw there (v, refl, refl)
  ]

  read_more-ReadDone :
      (c : Conn) (w : P.World) → IsValid c → c.is_eof ≡ false → ReadDone c (read_more P (c, w))
  unfolding read_more
  read_more-ReadDone c w v e = elim (Bool-cases (c.buffer_allocated - length c.buffer == 0)) [
    | inl full ↦ rw full (Kept-ReadDone refl refl (to_utf8-Kept P doc c w v))
    | inr room ↦ rw room (read_source-ReadDone c w v e)
  ]

  ReadDone-Same :
      {c c1 : Conn} {out : Result Fault ℕ × Io P} → Same c c1 → ReadDone c1 out → ReadDone c out
  ReadDone-Same s (returned n v h r) = returned n v (h ∙ s.1) (r ∙ s.2)
  ReadDone-Same s (threw v h r) = threw v (h ∙ s.1) (r ∙ s.2)

  not_at_end :
      (c : Conn) → IsValid c → (c.is_eof_raw && (length c.buffer == 0)) ≡ false → c.is_eof ≡ false
  not_at_end c v e = elim (Bool-cases c.is_eof) [
    | inl t ↦ absurd (ground (arith, v.eof_means_raw t, v.eof_means_drained t))
    | inr f ↦ f
  ]

  -- On a valid connection, `processx__connection_read` returns or throws the read error; either
  -- way the connection stays valid, with no more bytes in a buffer than were allocated, and keeps
  -- its handle and its mode.
  pub connection_read-ReadDone :
      (c : Conn) (w : P.World) → IsValid c → ReadDone c (connection_read P (c, w))
  unfolding connection_read
  connection_read-ReadDone c w v = elim (Bool-cases (c.is_eof_raw && (length c.buffer == 0))) [
    | inl ended ↦
        let s = mark_end-Same c v (ground arith) (ground arith) in rw ended (returned 0 s.0 s.1 s.2)
    | inr more ↦
        let s = with_buffer-Same c v in
        rw more (
          ReadDone-Same s
            (read_more-ReadDone (with_buffer c) w s.0 (with_buffer-eof c ∙ not_at_end c v more)))
  ]
