-- ===== src/Vector/Find.antt =====
-- `processx_vector_find`: the first index of an element, from a position on.
use processx.Base.{
  ℕ, zero, suc, ◌+◌, ◌-◌, ◌≤◌, ◌<◌, ◌≡◌, ◌≢◌, ◌↔◌, inl, inr, refl, sym, ◌∙◌, true, Option, none,
  some, ◌∷◌, arith, ◌==◌, Bool-cases, get_or, drop, In, drop-cons, drop_all, get_or-take, ==→eq,
  ==→ne,
}
use processx.Vector.{Vector, elements, find_loop, find, is_found}
use processx.Vector.Laws.{IsValid, length-elements}

-- What the search for `e` from position `from` may return.
pub data Found (v : Vector) (e from : ℕ) : Option ℕ → Type 0 where
  missing : ¬ (In e (drop from (elements v))) → Found v e from none
  first :
      (i : ℕ)
      → from ≤ i
      → i < v.size
      → get_or (elements v) i 0 ≡ e
      → In e (drop from (elements v))
      → ((k : ℕ) → from ≤ k → k < i → get_or (elements v) k 0 ≢ e)
      → Found v e from (some i)

drop-step :
    (v : Vector) (from : ℕ)
    → IsValid v
    → from < v.size
    → drop from (elements v) ≡ get_or (elements v) from 0 ∷ drop (from + 1) (elements v)
drop-step v from h lt = drop-cons from (elements v) 0 (omega (arith, length-elements v h))

-- A position that does not hold `e` can be put in front of a search.
skip :
    (v : Vector) (e from : ℕ) {r : Option ℕ}
    → IsValid v
    → from < v.size
    → get_or (elements v) from 0 ≢ e
    → Found v e (from + 1) r
    → Found v e from r
skip v e from h lt ne (missing m) = missing (rw (drop-step v from h lt) absent)
  where
    absent : ¬ (In e (get_or (elements v) from 0 ∷ drop (from + 1) (elements v)))
    absent (inl p) = ne (sym p)
    absent (inr q) = m q
skip v e from h lt ne (first i le small at mem min) =
    first i (omega arith) small at (rw (drop-step v from h lt) (inr mem)) earlier
  where
    earlier : (k : ℕ) → from ≤ k → k < i → get_or (elements v) k 0 ≢ e
    earlier k p q = elim (Bool-cases (k == from)) [
      | inl same ↦ rw (==→eq k from same) ne
      | inr other ↦ min k (ground arith) q
    ]

find_loop-Found :
    (v : Vector) (e from n : ℕ)
    → IsValid v
    → v.size - from ≡ n
    → Found v e from (find_loop v e from n)
unfolding find_loop
find_loop-Found v e from zero h k =
    missing (rw (drop_all from (elements v) (omega (arith, length-elements v h))) (λ p. elim p [ ]))
find_loop-Found v e from (suc n) h k =
    let read : get_or (elements v) from 0 ≡ get_or v.stor from 0 =
      get_or-take v.size v.stor from 0 (omega arith) in
    elim (Bool-cases (get_or v.stor from 0 == e)) [
      | inl same ↦
          let at : get_or (elements v) from 0 ≡ e = read ∙ ==→eq _ e same in
          rw same (
            first from (omega arith) (omega arith) at
              (rw (drop-step v from h (omega arith)) (inl (sym at)))
              (λ j p q. absurd (omega arith)))
      | inr other ↦ rw other (
          skip v e from h (omega arith) (rw read (==→ne _ e other))
            (find_loop-Found v e (from + 1) n h (omega arith)))
    ]

-- `find` reads only elements, and returns the first index at or after `from` that holds the
-- element, or nothing if no such element is there.
pub find-Found : (v : Vector) (e from : ℕ) → IsValid v → Found v e from (find v e from)
unfolding find
find-Found v e from h = find_loop-Found v e from (v.size - from) h refl

Found-is_found :
    {v : Vector} {e from : ℕ} {r : Option ℕ}
    → Found v e from r
    → (is_found r ≡ true) ↔ In e (drop from (elements v))
Found-is_found (missing m) = (λ p. cc, λ p. absurd (m p))
Found-is_found (first i le small at mem min) = (λ p. mem, λ p. refl)

-- The test of the tree search: is the element among those from `from` on?
pub is_found-find :
    (v : Vector) (e from : ℕ)
    → IsValid v
    → (is_found (find v e from) ≡ true) ↔ In e (drop from (elements v))
is_found-find v e from h = Found-is_found (find-Found v e from h)
