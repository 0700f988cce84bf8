-- ===== src/Process/Socketpair/Made.antt =====
-- The two descriptors of `processx__make_socketpair`.
use processx.Base.{
  ℕ, ◌≡◌, ◌≢◌, refl, sym, ap, ◌∙◌, subst, Bool, true, false, Option, Option-cases, none, some, ◌⊎◌,
  inl, inr,
}
use processx.Process.Child.{FdOs}
use processx.Process.Child.Table.{Slot, Documented}
use processx.Process.Child.Pipes.{Paired}
use processx.Process.Socketpair.{
  SocketOutcome, made, einval, socket_failed, SocketOs, without_cloexec, with_sock_cloexec,
  make_socketpair, sockets_of,
}

-- The descriptor is open, with this flag to close it when a program starts.
abbrev pub OpenWith : Bool → Slot → Type 0
OpenWith flag s = (file : ℕ) × (s ≡ some (file, flag))

-- socketpair(2) takes two free descriptors or changes none, and F_SETFD sets the flag of one.
pub record SocketLaws (O : FdOs) (doc : Documented O) (S : SocketOs O) : Type 0 where
  pub made_ok :
      (flag : Bool) (w : O.World) (a b : ℕ)
      → (S.socketpair flag w).0 ≡ made a b
      → (a ≢ b)
        × (doc.slot w a ≡ none)
        × (doc.slot w b ≡ none)
        × OpenWith flag (doc.slot (S.socketpair flag w).1 a)
        × OpenWith flag (doc.slot (S.socketpair flag w).1 b)
        × ((k : ℕ) → k ≢ a → k ≢ b → doc.slot (S.socketpair flag w).1 k ≡ doc.slot w k)
  pub failed_same :
      (flag : Bool) (w : O.World)
      → ((a b : ℕ) → (S.socketpair flag w).0 ≢ made a b)
      → (k : ℕ) → doc.slot (S.socketpair flag w).1 k ≡ doc.slot w k
  pub set_cloexec :
      (u file : ℕ) (flag : Bool) (w : O.World)
      → doc.slot w u ≡ some (file, flag)
      → doc.slot (O.cloexec_fcntl u true w) u ≡ some (file, true)
  pub cloexec_other :
      (u k : ℕ) (w : O.World) → k ≢ u → doc.slot (O.cloexec_fcntl u true w) k ≡ doc.slot w k

module _ (O : FdOs) (doc : Documented O) (S : SocketOs O) (laws : SocketLaws O doc S) where
  open doc use {slot}

  -- Two descriptors that were free are open and closed when a program starts; nothing else changes.
  abbrev pub Made : ℕ → ℕ → O.World → O.World → Type 0
  Made a b w w' =
      (a ≢ b)
      × (slot w a ≡ none)
      × (slot w b ≡ none)
      × OpenWith true (slot w' a)
      × OpenWith true (slot w' b)
      × ((k : ℕ) → k ≢ a → k ≢ b → slot w' k ≡ slot w k)

  flagged :
      (a b : ℕ) (w w' : O.World)
      → (a ≢ b)
      → OpenWith false (slot w' a)
      → OpenWith false (slot w' b)
      → let w2 = O.cloexec_fcntl b true (O.cloexec_fcntl a true w') in
        OpenWith true (slot w2 a)
        × OpenWith true (slot w2 b)
        × ((k : ℕ) → k ≢ a → k ≢ b → slot w2 k ≡ slot w' k)
  flagged a b w w' ne (fa, qa) (fb, qb) =
      let w1 = O.cloexec_fcntl a true w' in
      let at_a = laws.set_cloexec a fa false w' qa in
      let at_b : slot w1 b ≡ some (fb, false) = laws.cloexec_other a b w' (λ q. ne (sym q)) ∙ qb in
      (
        (fa, laws.cloexec_other b a w1 ne ∙ at_a),
        (fb, laws.set_cloexec b fb false w1 at_b),
        λ k na nb. laws.cloexec_other b k w1 nb ∙ laws.cloexec_other a k w' na,
      )

  SocketOutcome-cases :
      (r : SocketOutcome)
      → ((a : ℕ) × (b : ℕ) × (r ≡ made a b)) ⊎ ((r ≡ einval) ⊎ (r ≡ socket_failed))
  SocketOutcome-cases (made a b) = inl (a, b, refl)
  SocketOutcome-cases einval = inr (inl refl)
  SocketOutcome-cases socket_failed = inr (inr refl)

  not_made : (r : SocketOutcome) → (r ≡ einval) ⊎ (r ≡ socket_failed) → (a b : ℕ) → r ≢ made a b
  not_made r (inl q) a b e = absurd cc
  not_made r (inr q) a b e = absurd cc

  without_cloexec-Made :
      (flag : Bool) (w : O.World) (a b : ℕ)
      → (without_cloexec O S flag w).0.0 ≡ some (a, b)
      → Made a b w (without_cloexec O S flag w).1
  unfolding without_cloexec
  without_cloexec-Made flag w a b h = elim (SocketOutcome-cases (S.socketpair false w).0) [
    | inl (c, d, q) ↦
        let ran = rw (q, without_cloexec) at h in
        let is_a : c ≡ a = cc in
        let is_b : d ≡ b = cc in
        let w' = (S.socketpair false w).1 in
        let (ne, free_c, free_d, open_c, open_d, others) = laws.made_ok false w c d q in
        let (now_c, now_d, rest) = flagged c d w w' ne open_c open_d in
        let end : Made c d w (O.cloexec_fcntl d true (O.cloexec_fcntl c true w')) =
          (ne, free_c, free_d, now_c, now_d, λ k nc nd. rest k nc nd ∙ others k nc nd) in
        rw (q, ← is_a, ← is_b, without_cloexec) end
    | inr (inl q) ↦ let ran = rw (q, without_cloexec) at h in absurd cc
    | inr (inr q) ↦ let ran = rw (q, without_cloexec) at h in absurd cc
  ]

  Made-after :
      (a b : ℕ) (w w1 w' : O.World)
      → ((k : ℕ) → slot w1 k ≡ slot w k)
      → Made a b w1 w'
      → Made a b w w'
  Made-after a b w w1 w' same (ne, free_a, free_b, open_a, open_b, others) = (
    ne,
    sym (same a) ∙ free_a,
    sym (same b) ∙ free_b,
    open_a,
    open_b,
    λ k na nb. others k na nb ∙ same k,
  )

  with_sock_cloexec-Made :
      (w : O.World) (a b : ℕ)
      → (with_sock_cloexec O S w).0.0 ≡ some (a, b)
      → Made a b w (with_sock_cloexec O S w).1
  unfolding with_sock_cloexec
  with_sock_cloexec-Made w a b h = elim (SocketOutcome-cases (S.socketpair true w).0) [
    | inl (c, d, q) ↦
        let ran = rw (q, with_sock_cloexec) at h in
        let is_a : c ≡ a = cc in
        let is_b : d ≡ b = cc in
        rw (q, ← is_a, ← is_b, with_sock_cloexec) (laws.made_ok true w c d q)
    | inr (inl q) ↦
        let ran = rw (q, with_sock_cloexec) at h in
        rw (q, with_sock_cloexec)
          (Made-after a b w (S.socketpair true w).1 _ (laws.failed_same true w (not_made _ (inl q)))
            (without_cloexec-Made true (S.socketpair true w).1 a b ran))
    | inr (inr q) ↦ let ran = rw (q, with_sock_cloexec) at h in absurd cc
  ]

  make_socketpair-Made :
      (no_cloexec : Bool) (w : O.World) (a b : ℕ)
      → (make_socketpair O S no_cloexec w).0.0 ≡ some (a, b)
      → Made a b w (make_socketpair O S no_cloexec w).1
  unfolding make_socketpair
  make_socketpair-Made true w a b h = without_cloexec-Made true w a b h
  make_socketpair-Made false w a b h = with_sock_cloexec-Made w a b h

  without_cloexec-none :
      (flag : Bool) (w : O.World)
      → (without_cloexec O S flag w).0.0 ≡ none
      → (k : ℕ) → slot (without_cloexec O S flag w).1 k ≡ slot w k
  unfolding without_cloexec
  without_cloexec-none flag w h k = elim (SocketOutcome-cases (S.socketpair false w).0) [
    | inl (c, d, q) ↦ let ran = rw (q, without_cloexec) at h in absurd cc
    | inr (inl q) ↦ rw (q, without_cloexec) (laws.failed_same false w (not_made _ (inl q)) k)
    | inr (inr q) ↦ rw (q, without_cloexec) (laws.failed_same false w (not_made _ (inr q)) k)
  ]

  with_sock_cloexec-none :
      (w : O.World)
      → (with_sock_cloexec O S w).0.0 ≡ none
      → (k : ℕ) → slot (with_sock_cloexec O S w).1 k ≡ slot w k
  unfolding with_sock_cloexec
  with_sock_cloexec-none w h k = elim (SocketOutcome-cases (S.socketpair true w).0) [
    | inl (c, d, q) ↦ let ran = rw (q, with_sock_cloexec) at h in absurd cc
    | inr (inl q) ↦
        let ran = rw (q, with_sock_cloexec) at h in
        rw (q, with_sock_cloexec)
          (without_cloexec-none true (S.socketpair true w).1 ran k
            ∙ laws.failed_same true w (not_made _ (inl q)) k)
    | inr (inr q) ↦ rw (q, with_sock_cloexec) (laws.failed_same true w (not_made _ (inr q)) k)
  ]

  make_socketpair-none :
      (no_cloexec : Bool) (w : O.World)
      → (make_socketpair O S no_cloexec w).0.0 ≡ none
      → (k : ℕ) → slot (make_socketpair O S no_cloexec w).1 k ≡ slot w k
  unfolding make_socketpair
  make_socketpair-none true w h k = without_cloexec-none true w h k
  make_socketpair-none false w h k = with_sock_cloexec-none w h k

  -- What a call leaves, by what it returns
  abbrev pub TookPair : Option (ℕ × ℕ) → O.World → O.World → Type 0
  TookPair none w w' = (k : ℕ) → slot w' k ≡ slot w k
  TookPair (some (a, b)) w w' = Made a b w w'

  -- Where `processx__make_socketpair` returns a pair, on an old kernel or a new one and whatever its
  -- static variable is, the two descriptors differ, were free, and are open with the flag that closes
  -- them when a program starts, and every other descriptor is as before; where it throws, no
  -- descriptor has changed.
  pub make_socketpair-TookPair :
      (no_cloexec : Bool) (w : O.World)
      → let (r, w') = make_socketpair O S no_cloexec w in TookPair r.0 w w'
  make_socketpair-TookPair no_cloexec w =
      let w' = (make_socketpair O S no_cloexec w).1 in
      elim (Option-cases (make_socketpair O S no_cloexec w).0.0) [
        | inl e ↦ subst (λ o. TookPair o w w') (sym e) (make_socketpair-none no_cloexec w e)
        | inr ((a, b), e) ↦
            subst (λ o. TookPair o w w') (sym e) (make_socketpair-Made no_cloexec w a b e)
      ]

  open_ne : (flag : Bool) (s : Slot) → OpenWith flag s → s ≢ none
  open_ne flag s (file, q) e = absurd cc

  -- So the function is what the client of Sockets relies on, whatever the static variable is.
  pub sockets_of-Paired : (no_cloexec : Bool) → Paired O doc (sockets_of O S no_cloexec)
  unfolding sockets_of
  sockets_of-Paired no_cloexec = record {
    pair_ok = λ w a b h.
        let (ne, free_a, free_b, open_a, open_b, others) =
          make_socketpair-Made no_cloexec w a b h in
        (
          ne,
          free_a,
          free_b,
          open_ne true _ open_a,
          open_ne true _ open_b,
          λ k busy.
              others k (λ q. busy (ap (slot w) q ∙ free_a)) (λ q. busy (ap (slot w) q ∙ free_b)),
        );
  }
