-- ===== src/Connection/Poll/Ready.antt =====
-- What the pre-poll of a connection promises.
use processx.Base.{
  ℕ, ◌<◌, ◌≡◌, refl, sym, ap, subst, ◌∙◌, true, false, not, ◌&&◌, Option, none, some, Result, ok,
  ◌⊎◌, inl, inr, arith, ltb, ltb→lt, if◌then◌else◌, Bool-cases, length,
}
use processx.Connection.Types.{Conn, Fault, Platform, Documented, Io}
use processx.Connection.Valid.{IsValid, Kept, to_utf8-Kept}
use processx.Connection.Poll.{Event, is_ready, is_closed, PrePoll, now, handle}
use processx.Connection.Poll.Rounds.{ready_now, as_pre_poll, pre_poll}

-- Something can be served without a wait: the end of the data, or bytes in a buffer that `read_bytes`
-- or the reading of text takes them from.
abbrev pub HasData : Conn → Type 0
HasData c =
    (c.is_eof ≡ true)
    ⊎ ((c.raw_mode ≡ true) × (0 < length c.buffer))
    ⊎ ((c.raw_mode ≡ false) × (0 < length c.utf8))
    ⊎ ((c.is_eof_raw ≡ true) × (0 < length c.buffer))

-- What is true of the connection when the pre-poll has answered.
abbrev pub Promised : Option Event → Conn → Type 0
Promised none c =
    (c.is_closed ≡ false)
    × (c.is_eof ≡ false)
    × ((c.raw_mode && ltb 0 (length c.buffer)) ≡ false)
    × ((not c.raw_mode && ltb 0 (length c.utf8)) ≡ false)
Promised (some is_ready) c = HasData c
Promised (some is_closed) c = c.is_closed ≡ true
Promised (some _) c = ⊥

module _ (P : Platform) (doc : Documented P) where
  -- A call that returns, and keeps its promise.
  abbrev pub Promises : Conn → Result Fault (Option Event) × Io P → Type 0
  Promises c out =
      (o : Option Event) × (c' : Conn) × (w' : P.World) × (out ≡ (ok o, (c', w')))
      × IsValid c'
      × (c'.handle ≡ c.handle)
      × Promised o c'

  -- After a conversion
  converted :
      (c c' : Conn) (w' : P.World)
      → c.is_closed ≡ false
      → c.is_eof ≡ false
      → c.raw_mode ≡ false
      → Kept c c'
      → Promises c (ok (if ltb 0 (length c'.utf8) then some is_ready else none), (c', w'))
  converted c c' w' closed eof raw k = elim (Bool-cases (ltb 0 (length c'.utf8))) [
    | inl u ↦ (
      some is_ready,
      c',
      w',
      rw u,
      k.valid,
      k.same_handle,
      inr (inr (inl (k.same_raw_mode ∙ raw, ltb→lt 0 (length c'.utf8) u))),
    )
    | inr u ↦ (
      none,
      c',
      w',
      rw u,
      k.valid,
      k.same_handle,
      (
        k.same_closed ∙ closed,
        k.same_eof ∙ eof,
        rw (k.same_raw_mode ∙ raw),
        rw (k.same_raw_mode ∙ raw, u),
      ),
    )
  ]

  -- In text mode, on a connection that is neither closed nor at its end
  text_ready :
      (c : Conn) (w : P.World)
      → IsValid c
      → c.is_closed ≡ false
      → c.is_eof ≡ false
      → c.raw_mode ≡ false
      → Promises c (ready_now P (c, w))
  unfolding ready_now
  text_ready c w v closed eof raw = elim (Bool-cases (ltb 0 (length c.utf8))) [
    | inl u ↦ (
      some is_ready,
      c,
      w,
      rw (closed, eof, raw, u),
      v,
      refl,
      inr (inr (inl (raw, ltb→lt 0 (length c.utf8) u))),
    )
    | inr u ↦ elim (Bool-cases (ltb 0 (length c.buffer) && c.is_eof_raw)) [
      | inl b ↦ (
        some is_ready,
        c,
        w,
        rw (closed, eof, raw, u, b),
        v,
        refl,
        inr (inr (inr (ground arith, ground arith))),
      )
      | inr b ↦ elim (Bool-cases (ltb 0 (length c.buffer))) [
        | inr z ↦ (
          none,
          c,
          w,
          rw (closed, eof, raw, u, b, z),
          v,
          refl,
          (closed, eof, rw raw, rw (raw, u)),
        )
        | inl z ↦
            let (n, c', w', run, k) = to_utf8-Kept P doc c w v in
            let kept = converted c c' w' closed eof raw k in
            let not_raw : c.is_eof_raw ≡ false = ground arith in
            let ran : ready_now P (c, w)
                ≡ (ok (if ltb 0 (length c'.utf8) then some is_ready else none), (c', w')) =
              simp (closed, eof, raw, u, z, not_raw, run) in
            subst (λ (out : Result Fault (Option Event) × Io P). Promises c out) (sym ran) kept
      ]
    ]
  ]

  ready_now-Promises : (c : Conn) (w : P.World) → IsValid c → Promises c (ready_now P (c, w))
  unfolding ready_now
  ready_now-Promises c w v = elim (Bool-cases c.is_closed) [
    | inl closed ↦ (some is_closed, c, w, rw closed, v, refl, closed)
    | inr closed ↦ elim (Bool-cases c.is_eof) [
      | inl eof ↦ (some is_ready, c, w, rw (closed, eof), v, refl, inl eof)
      | inr eof ↦ elim (Bool-cases c.raw_mode) [
        | inr raw ↦ text_ready c w v closed eof raw
        | inl raw ↦ elim (Bool-cases (ltb 0 (length c.buffer))) [
          | inl b ↦ (
            some is_ready,
            c,
            w,
            rw (closed, eof, raw, b),
            v,
            refl,
            inr (inl (raw, ltb→lt 0 (length c.buffer) b)),
          )
          | inr b ↦
              (none, c, w, rw (closed, eof, raw, b), v, refl, (closed, eof, rw (raw, b), rw raw))
        ]
      ]
    ]
  ]

  -- What the pre-poll of a connection answers, by what is true of it then.
  abbrev pub as_answer : Option Event → Conn → PrePoll
  as_answer (some e) c = now e
  as_answer none c = handle c.handle

  abbrev pub Answered : Conn → Result Fault PrePoll × Io P → Type 0
  Answered c out =
      (o : Option Event) × (c' : Conn) × (w' : P.World) × (out ≡ (ok (as_answer o c), (c', w')))
      × IsValid c'
      × Promised o c'

  as_pre_poll-answer :
      (o : Option Event) (c c' : Conn) (w' : P.World)
      → c'.handle ≡ c.handle
      → as_pre_poll P (ok o, (c', w')) ≡ (ok (as_answer o c), (c', w'))
  unfolding as_pre_poll
  as_pre_poll-answer (some e) c c' w' h = refl
  as_pre_poll-answer none c c' w' h = ap (λ (x : Option ℕ). (ok (handle x), (c', w'))) h

  -- The pre-poll of a valid connection returns and leaves it valid. It says that the connection is
  -- ready only if it is at its end or holds bytes to serve, and closed only if it is closed; and it
  -- asks for a poll of the handle only if the connection is open, not at its end, and has nothing
  -- in the buffer that its mode serves from.
  pub pre_poll-Answered : (c : Conn) (w : P.World) → IsValid c → Answered c (pre_poll P (c, w))
  unfolding pre_poll
  pre_poll-Answered c w v =
      let (o, c', w', run, valid, same, kept) = ready_now-Promises c w v in
      (o, c', w', ap (as_pre_poll P) run ∙ as_pre_poll-answer o c c' w' same, valid, kept)
