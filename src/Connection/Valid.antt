-- ===== src/Connection/Valid.antt =====
-- What holds of a connection between two calls, and that the conversion keeps it.
pub mod Read
use processx.Base.{
  ℕ, zero, suc, ◌+◌, ◌-◌, ◌*◌, ◌≤◌, ◌<◌, ◌≡◌, ◌≢◌, ◌⊎◌, inl, inr, refl, sym, ap, ◌∙◌, Bool, true,
  false, not, ◌&&◌, ◌||◌, Option, none, some, List, [], ◌∷◌, ◌++◌, Result, ok, throw, arith, ltb,
  ◌==◌, if◌then◌else◌, Bool-cases, ltb→lt, ==→eq, ==→ne, length, drop, length-append, length-drop,
}
use processx.Connection.Types.{
  Conn, Fault, read_error, no_fuel, ReadOutcome, bytes, at_eof, again, io_error, failed, ReadCall,
  Status, done, e2big, eilseq, einval, other, Converted, IconvCall, Platform, Documented, Io, M,
}
use processx.Connection.Convert.{
  Progress, encoding_or_empty, convert_loop, open_converter, store_progress, convert_with, to_utf8,
}
use processx.Connection.Read.{
  buffer_size, alloc, with_buffer, mark_end, read_more, end_of_source, after_read, convert_if_text,
  read_source, connection_read,
}

pub record IsValid (c : Conn) : Type 0 where
  pub buffer_fits : length c.buffer ≤ c.buffer_allocated
  pub utf8_fits : length c.utf8 ≤ c.utf8_allocated
  pub paired : c.buffer_allocated ≡ 0 → length c.utf8 ≡ 0
  pub eof_means_raw : c.is_eof ≡ true → c.is_eof_raw ≡ true
  pub eof_means_drained : c.is_eof ≡ true → length c.buffer ≡ 0

-- The loop over iconv stays inside both buffers and ends within its fuel.
pub record Fits (input out : List ℕ) (room : ℕ) (p : Progress) : Type 0 where
  pub shorter : length p.left ≤ length input
  pub in_room : length p.out ≤ length out + room

module _ (P : Platform) (doc : Documented P) where
  -- The loop's promise for given input, output and room.
  abbrev Ends : ℕ → ℕ → Bool → List ℕ → List ℕ → ℕ → P.World → Type 0
  Ends fuel ctx raw_eof input out room w =
      (p : Progress) × (w' : P.World) × (convert_loop P fuel ctx raw_eof input out room w
        ≡ some (p, w'))
      × Fits input out room p

  one_call :
      (ctx : ℕ) (input out : List ℕ) (room : ℕ) (w : P.World)
      → let c = (P.riconv ctx input room w).0 in
        Fits input out room (record { left = drop c.consumed input; out = out ++ c.output })
  one_call ctx input out room w =
      let c = (P.riconv ctx input room w).0 in
      record {
        shorter = omega (arith, length-drop c.consumed input);
        in_room =
            omega (arith, length-append out c.output, (doc.iconv_call ctx input room w).output_le);
      }

  -- A round that is the last one
  last_round :
      (fuel ctx : ℕ) (raw_eof : Bool) (input out : List ℕ) (room : ℕ) (w : P.World)
      → let (c, w') = P.riconv ctx input room w in
        convert_loop P (suc fuel) ctx raw_eof input out room w
          ≡ some (record { left = drop c.consumed input; out = out ++ c.output }, w')
        → Ends (suc fuel) ctx raw_eof input out room w
  last_round fuel ctx raw_eof input out room w run =
      let (c, w') = P.riconv ctx input room w in
      (
        record { left = drop c.consumed input; out = out ++ c.output },
        w',
        run,
        one_call ctx input out room w,
      )

  -- What the next round ends with, if there is one, after an invalid byte
  abbrev Next : ℕ → ℕ → Bool → List ℕ → List ℕ → ℕ → P.World → Type 0
  Next fuel ctx raw_eof input out room w =
      let (c, w') = P.riconv ctx input room w in
      let left = drop 1 (drop c.consumed input) in
      0 < length left → Ends fuel ctx raw_eof left (out ++ c.output) (room - length c.output) w'

  -- A round that drops an invalid byte
  skipped_byte :
      (fuel ctx : ℕ) (raw_eof : Bool) (input out : List ℕ) (room : ℕ) (w : P.World)
      → (P.riconv ctx input room w).0.status ≡ eilseq
      → Next fuel ctx raw_eof input out room w
      → Ends (suc fuel) ctx raw_eof input out room w
  unfolding convert_loop
  skipped_byte fuel ctx raw_eof input out room w e ih =
      let (c, w') = P.riconv ctx input room w in
      let left = drop 1 (drop c.consumed input) in
      let call = doc.iconv_call ctx input room w in
      let len = length-drop 1 (drop c.consumed input) in
      let len' = length-drop c.consumed input in
      let len_out = length-append out c.output in
      elim (Bool-cases (ltb 0 (length left))) [
        | inl more ↦
            let (p, w2, run, fits) = ih (ltb→lt 0 (length left) more) in
            (
              p,
              w2,
              rw (e, convert_loop) (rw more run),
              record {
                shorter = omega (arith, fits.shorter, len, len');
                in_room = omega (arith, fits.in_room, len_out, call.output_le);
              },
            )
        | inr none_left ↦ (
          record { left = left; out = out ++ c.output },
          w',
          rw (e, convert_loop) (rw none_left),
          record {
            shorter = omega (arith, len, len');
            in_room = omega (arith, len_out, call.output_le);
          },
        )
      ]

  -- One round, by the way in which the call of iconv ended.
  convert_round :
      (fuel ctx : ℕ) (raw_eof : Bool) (input out : List ℕ) (room : ℕ) (w : P.World) (s : Status)
      → (P.riconv ctx input room w).0.status ≡ s
      → Next fuel ctx raw_eof input out room w
      → Ends (suc fuel) ctx raw_eof input out room w
  unfolding convert_loop
  convert_round fuel ctx raw_eof input out room w done e ih =
      last_round fuel ctx raw_eof input out room w (rw (e, convert_loop))
  convert_round fuel ctx raw_eof input out room w e2big e ih =
      last_round fuel ctx raw_eof input out room w (rw (e, convert_loop))
  convert_round fuel ctx raw_eof input out room w other e ih =
      last_round fuel ctx raw_eof input out room w (rw (e, convert_loop))
  convert_round fuel ctx false input out room w einval e ih =
      last_round fuel ctx false input out room w (rw (e, convert_loop))
  convert_round fuel ctx true input out room w einval e ih =
      let (c, w') = P.riconv ctx input room w in
      (
        record { left = []; out = out ++ c.output },
        w',
        rw (e, convert_loop),
        record { shorter = omega arith; in_room = (one_call ctx input out room w).in_room },
      )
  convert_round fuel ctx raw_eof input out room w eilseq e ih =
      skipped_byte fuel ctx raw_eof input out room w e ih

  convert_loop-Fits :
      (fuel ctx : ℕ) (raw_eof : Bool) (input out : List ℕ) (room : ℕ) (w : P.World)
      → length input ≤ fuel
      → 0 < length input
      → Ends fuel ctx raw_eof input out room w
  convert_loop-Fits zero ctx raw_eof input out room w h pos = absurd (omega arith)
  convert_loop-Fits (suc fuel) ctx raw_eof input out room w h pos =
      let (c, w') = P.riconv ctx input room w in
      convert_round fuel ctx raw_eof input out room w c.status refl (λ more.
        convert_loop-Fits fuel ctx raw_eof (drop 1 (drop c.consumed input)) (out ++ c.output)
          (room - length c.output) w'
          (omega (arith, length-drop c.consumed input, length-drop 1 (drop c.consumed input))) more)

-- What a conversion leaves of a connection.
pub record Kept (c c' : Conn) : Type 0 where
  pub valid : IsValid c'
  pub same_handle : c'.handle ≡ c.handle
  pub same_raw_mode : c'.raw_mode ≡ c.raw_mode
  pub same_closed : c'.is_closed ≡ c.is_closed
  pub same_eof : c'.is_eof ≡ c.is_eof
  pub same_eof_raw : c'.is_eof_raw ≡ c.is_eof_raw
  pub not_longer : length c'.buffer ≤ length c.buffer

Kept-self : (c : Conn) → IsValid c → Kept c c
Kept-self c v = record {
  valid = v;
  same_handle = refl;
  same_raw_mode = refl;
  same_closed = refl;
  same_eof = refl;
  same_eof_raw = refl;
  not_longer = omega arith;
}

Kept-stored :
    (c : Conn) (p : Progress)
    → IsValid c
    → length c.buffer ≢ 0
    → Fits c.buffer [] (c.utf8_allocated - length c.utf8) p
    → Kept c (record c { buffer = p.left; utf8 = c.utf8 ++ p.out })
Kept-stored c p v ne f = record {
  valid = record {
    buffer_fits = omega (arith, v.buffer_fits, f.shorter);
    utf8_fits = omega (arith, length-append c.utf8 p.out, f.in_room, v.utf8_fits);
    paired = λ z. absurd (ne (omega (arith, v.buffer_fits)));
    eof_means_raw = v.eof_means_raw;
    eof_means_drained = λ e. omega (arith, v.eof_means_drained e, f.shorter);
  };
  same_handle = refl;
  same_raw_mode = refl;
  same_closed = refl;
  same_eof = refl;
  same_eof_raw = refl;
  not_longer = f.shorter;
}

module _ (P : Platform) (doc : Documented P) where
  -- A call that returns a number and keeps the connection in order.
  abbrev pub ReturnsKept : Conn → Result Fault ℕ × Io P → Type 0
  ReturnsKept c out = (n : ℕ) × (c' : Conn) × (w' : P.World) × (out ≡ (ok n, (c', w'))) × Kept c c'

  store_progress-Kept :
      (c : Conn) (p : Progress) (w w' : P.World)
      → Kept c (record c { buffer = p.left; utf8 = c.utf8 ++ p.out })
      → IsValid c
      → ReturnsKept c (store_progress P (some (p, w')) (c, w))
  unfolding store_progress
  store_progress-Kept c p w w' k v =
      elim (Bool-cases (ltb 0 (length p.out) || ltb 0 (length c.buffer - length p.left))) [
        | inl moved ↦
            (length p.out, record c { buffer = p.left; utf8 = c.utf8 ++ p.out }, w', rw moved, k)
        | inr still ↦ (length p.out, c, w', rw still, Kept-self c v)
      ]

  convert_with-Kept :
      (ctx : ℕ) (c : Conn) (w : P.World) → IsValid c → ReturnsKept c (convert_with P ctx (c, w))
  unfolding convert_with
  convert_with-Kept ctx c w v =
      let room = c.utf8_allocated - length c.utf8 in
      elim (Bool-cases ((length c.buffer == 0) || (room == 0))) [
        | inl nothing ↦ (0, c, w, rw nothing, Kept-self c v)
        | inr some_work ↦
            let (p, w', run, fits) =
              convert_loop-Fits P doc (length c.buffer) ctx c.is_eof_raw c.buffer [] room w
                (omega arith) (ground arith) in
            rw (some_work, run)
              (store_progress-Kept c p w w' (Kept-stored c p v (ground arith) fits) v)
      ]

  opened-Kept :
      (o : Option ℕ) (c : Conn) (w : P.World)
      → IsValid c
      → let (ctx, io') = open_converter P o (c, w) in ReturnsKept c (convert_with P ctx io')
  unfolding open_converter
  opened-Kept (some ctx) c w v = convert_with-Kept ctx c w v
  opened-Kept none c w v =
      let (ctx, w') = P.riconv_open (encoding_or_empty c.encoding) w in
      let c1 = record c { iconv_ctx = some ctx } in
      let v1 : IsValid c1 = record {
        buffer_fits = v.buffer_fits;
        utf8_fits = v.utf8_fits;
        paired = v.paired;
        eof_means_raw = v.eof_means_raw;
        eof_means_drained = v.eof_means_drained;
      } in
      let (n, c2, w2, run, k) = convert_with-Kept ctx c1 w' v1 in
      (
        n,
        c2,
        w2,
        run,
        record {
          valid = k.valid;
          same_handle = k.same_handle;
          same_raw_mode = k.same_raw_mode;
          same_closed = k.same_closed;
          same_eof = k.same_eof;
          same_eof_raw = k.same_eof_raw;
          not_longer = k.not_longer;
        },
      )

  -- On a valid connection the conversion returns, stays inside both buffers, and keeps the
  -- connection valid; it needs no more rounds than there are bytes in the raw buffer.
  pub to_utf8-Kept : (c : Conn) (w : P.World) → IsValid c → ReturnsKept c (to_utf8 P (c, w))
  unfolding to_utf8
  to_utf8-Kept c w v = opened-Kept c.iconv_ctx c w v
