-- ===== src/Process/Child/Sample/Pair.antt =====
-- Pairs of sockets on the table of descriptors.
use processx.Base.{
  ℕ, ◌≡◌, ◌≢◌, sym, ◌∙◌, ap, subst, false, Option, Option-cases, none, some, arith, inl, inr,
}
use processx.Process.Child.Table.{Slot}
use processx.Process.Child.Pipes.{Sockets, Paired}
use processx.Process.Child.Sample.{
  Fds, slot, first_free, fill_slot, fds, filled_lem, fds_documented,
}

abbrev pub second_of : Option ℕ → Fds → Option (ℕ × ℕ) × Fds
unfolding first_free
second_of none w = (none, w)
second_of (some a) w =
    let (r, w') = fill_slot (first_free 300 0 w) 78 w in
    (elim r [ none ↦ none | some b ↦ some (a, b) ], w')

abbrev pub sockets : Sockets fds
unfolding first_free
sockets = record {
  make_socketpair = λ w. let (r, w') = fill_slot (first_free 300 0 w) 77 w in second_of r w';
}

-- A second free slot is filled.
second_lem :
    (a b : ℕ) (w w1 : Fds)
    → (second_of (some a) w1).0 ≡ some (a, b)
    → slot w a ≡ none
    → slot w1 a ≡ some (77, false)
    → ((k : ℕ) → k ≢ a → slot w1 k ≡ slot w k)
    → let w' = (second_of (some a) w1).1 in
      (a ≢ b)
      × (slot w a ≡ none)
      × (slot w b ≡ none)
      × (slot w' a ≢ none)
      × (slot w' b ≢ none)
      × ((k : ℕ) → slot w k ≢ none → slot w' k ≡ slot w k)
unfolding first_free
second_lem a b w w1 h free used others =
    elim (Option-cases (fill_slot (first_free 300 0 w1) 78 w1).0) [
      | inl e ↦ absurd (ground arith)
      | inr (c, e) ↦
          let is_b : c ≡ b = ground arith in
          let (_, free_c, used_c, others_c) = filled_lem 300 0 78 c w1 e in
          let free_b : slot w1 b ≡ none = ap (slot w1) (sym is_b) ∙ free_c in
          let differ : a ≢ b =
            λ q. absurd (second_differs (slot w1 a) (slot w1 b) used free_b (ap (slot w1) q)) in
          let w' = (second_of (some a) w1).1 in
          let not_c : (k : ℕ) → k ≢ b → k ≢ c = λ k ne q. ne (q ∙ is_b) in
          (
            differ,
            free,
            sym (others b (λ q. differ (sym q))) ∙ free_b,
            λ q. second_differs (slot w1 a) (slot w' a) used q (sym (others_c a (not_c a differ))),
            λ q. absurd (filled_ne (slot w' c) used_c (ap (slot w') is_b ∙ q)),
            λ k busy.
                let not_a : k ≢ a = λ q. busy (ap (slot w) q ∙ free) in
                let same = others k not_a in
                let not_b : k ≢ c = λ q. busy (sym same ∙ ap (slot w1) q ∙ free_c) in
                others_c k not_b ∙ same,
          )
    ]
  where
    second_differs : (x y : Slot) → x ≡ some (77, false) → y ≡ none → x ≡ y → ⊥
    second_differs x y h h' e = cc

    filled_ne : (x : Slot) → x ≡ some (78, false) → x ≡ none → ⊥
    filled_ne x h e = cc

pub first_same : (c a b : ℕ) (w1 : Fds) → (second_of (some c) w1).0 ≡ some (a, b) → c ≡ a
unfolding first_free
first_same c a b w1 h = elim (Option-cases (fill_slot (first_free 300 0 w1) 78 w1).0) [
  | inl e ↦ absurd (ground arith)
  | inr (d, e) ↦ ground arith
]

pub not_none : (w : Fds) (a b : ℕ) → (second_of none w).0 ≡ some (a, b) → ⊥
unfolding first_free
not_none w a b h = let e : none ≡ some (a, b) = h in absurd cc

-- What `Paired` asks of a call that takes `a` and `b`.
abbrev pub Pair : ℕ → ℕ → Fds → Fds → Type 0
Pair a b w w' =
    (a ≢ b)
    × (slot w a ≡ none)
    × (slot w b ≡ none)
    × (slot w' a ≢ none)
    × (slot w' b ≢ none)
    × ((k : ℕ) → slot w k ≢ none → slot w' k ≡ slot w k)

-- `r` is the first descriptor, and `w1` what comes after it.
second-Pair :
    (r : Option ℕ) (a b : ℕ) (w w1 : Fds)
    → (second_of r w1).0 ≡ some (a, b)
    → ((c : ℕ)
        → r ≡ some c
        → (slot w c ≡ none)
          × (slot w1 c ≡ some (77, false))
          × ((k : ℕ) → k ≢ c → slot w1 k ≡ slot w k))
    → Pair a b w (second_of r w1).1
second-Pair none a b w w1 h f = absurd (not_none w1 a b h)
second-Pair (some c) a b w w1 h f =
    let is_a = first_same c a b w1 h in
    let (free, used, others) = f a (ap (λ (x : ℕ). some x) is_a) in
    let h' = ap (λ (x : ℕ). (second_of (some x) w1).0) (sym is_a) ∙ h in
    subst (λ (x : ℕ). Pair a b w (second_of (some x) w1).1) (sym is_a)
      (second_lem a b w w1 h' free used others)

pub sockets_paired : Paired fds fds_documented sockets
unfolding first_free
sockets_paired = record {
  pair_ok = λ w a b h.
      let (r, w1) = fill_slot (first_free 300 0 w) 77 w in
      second-Pair r a b w w1 h
        (λ c e. let (_, free, used, others) = filled_lem 300 0 77 c w e in (free, used, others));
}
