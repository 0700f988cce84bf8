-- ===== src/Connection/Bytes/Stream.antt =====
-- `processx_connection_read_bytes` as a reader of a stream of bytes.
use processx.Base.{
  ◌≤◌, sym, none, some, some_inj, [], ◌++◌, ◌⊎◌, ltb, ltb→lt, ltb→ge, drop_all, length-take,
  take-append-drop, ℕ, ◌≡◌, refl, Bool, true, false, not, ◌&&◌, ◌||◌, Option, List, Result, ok,
  arith, ◌==◌, Bool-cases, length, take, drop, inl, inr, ap,
}
use processx.Connection.Types.{Conn, Fault, Platform, Io}
use processx.Connection.Bytes.{is_open, up_to, serve_bytes, fill, serve_after, read_bytes}

-- The bytes `bs` and the connection `c'` after a caller that had `c` asked for `n` bytes, or for all
-- of them, out of `data'`, of a source that has or has not ended: they are the front of the data and no
-- more than were asked for, and they are fewer only if no data are left.
pub record Served (n : Option ℕ) (data' : List ℕ) (ended : Bool) (c : Conn) (bs : List ℕ)
    (c' : Conn) : Type 0 where
  pub split : bs ++ c'.buffer ≡ data'
  pub within : (limit : ℕ) → n ≡ some limit → length bs ≤ limit
  pub enough : (c'.buffer ≡ []) ⊎ (n ≡ some (length bs))
  pub eof_raw : c'.is_eof_raw ≡ ended
  pub eof : c'.is_eof ≡ (c.is_eof || (ended && (length data' == 0)))
  pub raw : c'.raw_mode ≡ true
  pub same_text : c'.utf8 ≡ c.utf8

up_to_enough :
    (n : Option ℕ) (xs : List ℕ)
    → (drop (up_to n (length xs)) xs ≡ []) ⊎ (n ≡ some (length (take (up_to n (length xs)) xs)))
up_to_enough none xs = inl (drop_all (length xs) xs (omega arith))
up_to_enough (some limit) xs = elim (Bool-cases (ltb limit (length xs))) [
  | inl e ↦
      let taken : length (take limit xs) ≡ limit =
        omega (arith, length-take limit xs, ltb→lt limit (length xs) e) in
      rw e (inr (ap (λ (x : ℕ). some x) (sym taken)))
  | inr e ↦ rw e (inl (drop_all (length xs) xs (omega arith)))
]

up_to_within :
    (n : Option ℕ) (xs : List ℕ) (limit : ℕ)
    → n ≡ some limit
    → length (take (up_to n (length xs)) xs) ≤ limit
up_to_within none xs limit h = absurd cc
up_to_within (some m) xs limit h =
    let same : m ≡ limit = some_inj h in
    elim (Bool-cases (ltb m (length xs))) [
      | inl e ↦ rw e (omega (arith, length-take m xs, same))
      | inr e ↦ rw e (omega (arith, length-take (length xs) xs, ltb→ge m (length xs) e, same))
    ]

serve_bytes-Served :
    (n : Option ℕ) (c : Conn)
    → c.raw_mode ≡ true
    → Served n c.buffer c.is_eof_raw c (serve_bytes n c).0 (serve_bytes n c).1
unfolding serve_bytes
serve_bytes-Served n c m =
    let k = up_to n (length c.buffer) in
    elim (Bool-cases (c.is_eof_raw && (length c.buffer == 0))) [
      | inl e ↦ rw e (record {
        split = take-append-drop k c.buffer;
        within = up_to_within n c.buffer;
        enough = up_to_enough n c.buffer;
        eof_raw = refl;
        eof = ground arith;
        raw = m;
        same_text = refl;
      })
      | inr e ↦ rw e (record {
        split = take-append-drop k c.buffer;
        within = up_to_within n c.buffer;
        enough = up_to_enough n c.buffer;
        eof_raw = refl;
        eof = ground arith;
        raw = m;
        same_text = refl;
      })
    ]

module _ (P : Platform) where
  -- What a call of `read_bytes` returns on `c`.
  abbrev pub Serves :
      Option ℕ → Conn → Result Fault (List ℕ) × Io P → List ℕ → Bool → P.World → Type 0
  Serves n c out data' ended w' =
      (bs : List ℕ) × (c' : Conn) × (out ≡ (ok bs, (c', w'))) × Served n data' ended c bs c'

  -- On an open connection that has bytes in its raw buffer, or whose source has ended, `read_bytes`
  -- serves the front of this buffer: no more bytes than were asked for, and fewer only if none are
  -- left. The others stay in order, the outside world and the UTF-8 buffer are not touched, and the
  -- connection is at its end if it was, or if the source has ended and there were no bytes.
  pub read_bytes_buffered :
      (n : Option ℕ) (c : Conn) (w : P.World)
      → is_open c ≡ true
      → ((length c.buffer == 0) && not c.is_eof_raw) ≡ false
      → Serves n c (read_bytes P n (c, w)) c.buffer c.is_eof_raw w
  unfolding read_bytes fill serve_after
  read_bytes_buffered n c w o e =
      let c1 = record c { raw_mode = true } in
      let s = serve_bytes-Served n c1 refl in
      (
        (serve_bytes n c1).0,
        (serve_bytes n c1).1,
        rw (o, e),
        record {
          split = s.split;
          within = s.within;
          enough = s.enough;
          eof_raw = s.eof_raw;
          eof = s.eof;
          raw = s.raw;
          same_text = s.same_text;
        },
      )
