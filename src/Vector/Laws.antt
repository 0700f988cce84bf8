-- ===== src/Vector/Laws.antt =====
-- The operations of src/processx-vector.c against the list of the elements.
use processx.Base.{
  ℕ, zero, suc, ◌+◌, ◌-◌, ◌≤◌, ◌<◌, ◌≡◌, inl, inr, refl, ap, ◌∙◌, List, [], ◌∷◌, ◌++◌, arith, ◌==◌,
  leb, ltb, Bool-cases, length, set, take, replicate, length-append, length-set, length-take,
  length-replicate, take_suc, take-set_ge, get_or-set_self, take-append_le, take-take_le,
  if◌then◌else◌,
}
use processx.Vector.{
  Vector, alloc_size, elements, fresh, init, realloc, reserve, grown_size, push_back,
}

-- No element lies outside the storage, and the storage is never empty.
pub record IsValid (v : Vector) : Type 0 where
  pub fits : v.size ≤ alloc_size v

length-fresh : (mem : ℕ → ℕ) (i n : ℕ) → length (fresh mem i n) ≡ n
unfolding fresh
length-fresh mem i zero = refl
length-fresh mem i (suc n) = ap suc (length-fresh mem (i + 1) n)

-- A new vector is valid, has the size that was asked for, and room for at least one element
-- and for all that were asked for.
pub init_lem :
    (mem : ℕ → ℕ) (size alloc : ℕ)
    → IsValid (init mem size alloc)
      × ((init mem size alloc).size ≡ size)
      × (1 ≤ alloc_size (init mem size alloc))
      × (alloc ≤ alloc_size (init mem size alloc))
unfolding init
init_lem mem size alloc =
    let at_least = if ltb alloc size then size else alloc in
    ground (arith, length-fresh mem 0 (if at_least == 0 then 1 else at_least))

pub length-elements : (v : Vector) → IsValid v → length (elements v) ≡ v.size
length-elements v h = omega (arith, length-take v.size v.stor)

length-realloc : (stor : List ℕ) (size : ℕ) → length (realloc stor size) ≡ size
unfolding realloc
length-realloc stor size = ground (
  arith,
  length-take size stor,
  length-append {0} stor (replicate (size - length stor) 0),
  length-replicate {0} {A = ℕ} (size - length stor) 0,
)

take-realloc :
    (stor : List ℕ) (n size : ℕ)
    → n ≤ length stor
    → n ≤ size
    → take n (realloc stor size) ≡ take n stor
unfolding realloc
take-realloc stor n size h k = elim (Bool-cases (leb size (length stor))) [
  | inl e ↦ rw e (take-take_le n size stor k)
  | inr e ↦ rw e (take-append_le n stor (replicate (size - length stor) 0) h)
]

-- `reserve` keeps the elements and leaves room for as many as were asked for.
pub record Reserved (v : Vector) (size : ℕ) (w : Vector) : Type 0 where
  pub same_size : w.size ≡ v.size
  pub same_elements : elements w ≡ elements v
  pub room : size ≤ alloc_size w
  pub still_fits : w.size ≤ alloc_size w

pub reserve_lem : (v : Vector) (size : ℕ) → IsValid v → Reserved v size (reserve v size)
unfolding reserve
reserve_lem v size h = elim (Bool-cases (leb size v.size)) [
  | inl e ↦
      rw e (record {
        same_size = refl;
        same_elements = refl;
        room = ground arith;
        still_fits = h.fits;
      })
  | inr e ↦ rw e (record {
    same_size = refl;
    same_elements = take-realloc v.stor v.size size h.fits (ground arith);
    room = omega (arith, length-realloc v.stor size);
    still_fits = ground (arith, length-realloc v.stor size);
  })
]

-- Writing the cell past the elements adds one.
elements-write :
    (w : Vector) (e : ℕ)
    → w.size < alloc_size w
    → take (w.size + 1) (set w.stor w.size e) ≡ elements w ++ (e ∷ [])
elements-write w e h = rw (
  take_suc w.size (set w.stor w.size e) 0 (omega (arith, length-set w.stor w.size e)),
  take-set_ge w.size w.stor w.size e (omega arith),
  get_or-set_self w.stor w.size e 0 h,
)

-- What `push_back` makes of a vector.
pub record Pushed (v : Vector) (e : ℕ) (w : Vector) : Type 0 where
  pub one_more : w.size ≡ v.size + 1
  pub at_end : elements w ≡ elements v ++ (e ∷ [])
  pub in_storage : w.size ≤ alloc_size w

write-Pushed :
    (v w : Vector) (e : ℕ)
    → w.size ≡ v.size
    → elements w ≡ elements v
    → w.size < alloc_size w
    → Pushed v e (record { stor = set w.stor w.size e; size = w.size + 1 })
write-Pushed v w e p q h = record {
  one_more = omega arith;
  at_end = elements-write w e h ∙ ap (λ t. t ++ (e ∷ [])) q;
  in_storage = omega (arith, length-set w.stor w.size e);
}

-- `push_back` writes inside the storage, which it grows when it is full, and appends the element.
pub push_back-Pushed : (v : Vector) (e : ℕ) → IsValid v → Pushed v e (push_back v e)
unfolding push_back grown_size
push_back-Pushed v e h = elim (Bool-cases (alloc_size v == v.size)) [
  | inl full ↦
      let r = reserve_lem v (grown_size v.size) h in
      rw full (
        write-Pushed v (reserve v (grown_size v.size)) e r.same_size r.same_elements
          (ground (arith, r.room, r.same_size)))
  | inr room ↦ rw room (write-Pushed v v e refl refl (ground arith))
]

pub push_back-IsValid : (v : Vector) (e : ℕ) → IsValid v → IsValid (push_back v e)
push_back-IsValid v e h = record { fits = (push_back-Pushed v e h).in_storage }
