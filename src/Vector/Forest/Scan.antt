-- ===== src/Vector/Forest/Scan.antt =====
-- One round of `processx_vector_rooted_tree`: it appends the children of what was found.
use processx.Base.{
  ℕ, zero, suc, ◌+◌, ◌≤◌, ◌<◌, ◌≡◌, ◌⊎◌, inl, inr, sym, ap, ◌∙◌, List, [], ◌∷◌, ◌++◌, arith,
  Bool-cases, length, get_or, drop, In, get_or-take, append-nil, append_assoc, In-append,
  In-append_left, drop-append_le, if◌then◌else◌, ◌==◌, ==→eq, length-append,
}
use processx.Vector.{Vector, elements, push_back, find, is_found, scan}
use processx.Vector.Laws.{IsValid, push_back-Pushed, push_back-IsValid}
use processx.Vector.Find.{is_found-find}

-- Position `i` of the two vectors says that `n` is a child of `p`.
pub record Child (nodes parents : Vector) (p n : ℕ) : Type 0 where
  pub at : ℕ
  pub in_range : at < nodes.size
  pub parent_is : get_or (elements parents) at 0 ≡ p
  pub node_is : get_or (elements nodes) at 0 ≡ n

module _ (nodes parents : Vector) (same : parents.size ≡ nodes.size) where
  -- The step of the inner loop for position `i`.
  abbrev pub visit : ℕ → ℕ → Vector → Vector
  visit done i r =
      if is_found (find r (get_or parents.stor i 0) done)
      then push_back r (get_or nodes.stor i 0)
      else r

  -- A step that visits a position of the forest, with what it means.
  pub data Visit (done i : ℕ) (r : Vector) : Vector → Type 0 where
    add :
        {w : Vector} (p n : ℕ)
        → get_or (elements parents) i 0 ≡ p
        → get_or (elements nodes) i 0 ≡ n
        → In p (drop done (elements r))
        → elements w ≡ elements r ++ (n ∷ [])
        → w.size ≡ r.size + 1
        → IsValid w
        → Visit done i r w
    pass : ¬ (In (get_or (elements parents) i 0) (drop done (elements r))) → Visit done i r r

  visit-Visit :
      (done i : ℕ) (r : Vector) → IsValid r → i < nodes.size → Visit done i r (visit done i r)
  visit-Visit done i r h lt =
      let p = get_or parents.stor i 0 in
      let n = get_or nodes.stor i 0 in
      let read_p : get_or (elements parents) i 0 ≡ p =
        get_or-take parents.size parents.stor i 0 (omega arith) in
      let read_n : get_or (elements nodes) i 0 ≡ n = get_or-take nodes.size nodes.stor i 0 lt in
      let f = is_found-find r p done h in
      elim (Bool-cases (is_found (find r p done))) [
        | inl yes' ↦
            let pushed = push_back-Pushed r n h in
            rw yes' (
              add p n read_p read_n (f.0 yes') pushed.at_end pushed.one_more
                (push_back-IsValid r n h))
        | inr no' ↦ rw no' (pass (rw read_p (λ m. cc (f.1 m))))
      ]

  -- What rounds from position `i` on make of a result.
  pub record Grown (done i n : ℕ) (r w : Vector) : Type 0 where
    pub valid : IsValid w
    pub added : List ℕ
    pub extends : elements w ≡ elements r ++ added
    pub complete :
        (k : ℕ)
        → i ≤ k
        → k < i + n
        → In (get_or (elements parents) k 0) (drop done (elements r))
        → In (get_or (elements nodes) k 0) added

  In-drop_extends :
      (x done : ℕ) (r w : Vector) (added : List ℕ)
      → done ≤ length (elements r)
      → elements w ≡ elements r ++ added
      → In x (drop done (elements r))
      → In x (drop done (elements w))
  In-drop_extends x done r w added le e m =
      rw (e, drop-append_le done (elements r) added le)
        (In-append_left x (drop done (elements r)) added m)

  Grown-add :
      {done i n c : ℕ} {r w z : Vector}
      → done ≤ length (elements r)
      → get_or (elements nodes) i 0 ≡ c
      → elements w ≡ elements r ++ (c ∷ [])
      → Grown done (i + 1) n w z
      → Grown done i (suc n) r z
  Grown-add {done} {i} {n} {c = c} {r} {w} {z} le node_is e g = record {
    valid = g.valid;
    added = c ∷ g.added;
    extends = g.extends ∙ ap (λ t. t ++ g.added) e ∙ append_assoc (elements r) (c ∷ []) g.added;
    complete = λ k p q m. reach k p q m;
  }
    where
      reach :
          (k : ℕ)
          → i ≤ k
          → k < i + suc n
          → In (get_or (elements parents) k 0) (drop done (elements r))
          → In (get_or (elements nodes) k 0) (c ∷ g.added)
      reach k p q m = elim (Bool-cases (k == i)) [
        | inl here ↦ inl (rw (==→eq k i here) node_is)
        | inr later ↦ inr (
            g.complete k (ground arith) (omega arith)
              (In-drop_extends (get_or (elements parents) k 0) done r w (c ∷ []) le e m))
      ]

  Grown-pass :
      {done i n : ℕ} {r z : Vector}
      → ¬ (In (get_or (elements parents) i 0) (drop done (elements r)))
      → Grown done (i + 1) n r z
      → Grown done i (suc n) r z
  Grown-pass {done} {i} {n} {r} {z} missing g = record {
    valid = g.valid;
    added = g.added;
    extends = g.extends;
    complete = λ k p q m. reach k p q m;
  }
    where
      reach :
          (k : ℕ)
          → i ≤ k
          → k < i + suc n
          → In (get_or (elements parents) k 0) (drop done (elements r))
          → In (get_or (elements nodes) k 0) g.added
      reach k p q m = elim (Bool-cases (k == i)) [
        | inl here ↦ absurd (missing (rw (==→eq k i here) at m))
        | inr later ↦ g.complete k (ground arith) (omega arith) m
      ]

  Grown-step :
      {done i n : ℕ} {r w z : Vector}
      → done ≤ length (elements r)
      → Visit done i r w
      → Grown done (i + 1) n w z
      → Grown done i (suc n) r z
  Grown-step le (add p c parent_is node_is m e size h) g = Grown-add le node_is e g
  Grown-step le (pass missing) g = Grown-pass missing g

  Visit-IsValid : {done i : ℕ} {r w : Vector} → IsValid r → Visit done i r w → IsValid w
  Visit-IsValid h (add p c parent_is node_is m e size k) = k
  Visit-IsValid h (pass missing) = h

  Visit-le :
      {done i : ℕ} {r w : Vector}
      → done ≤ length (elements r)
      → Visit done i r w
      → done ≤ length (elements w)
  Visit-le {r = r} le (add p c parent_is node_is m e size k) =
      rw e (omega (arith, length-append (elements r) (c ∷ [])))
  Visit-le le (pass missing) = le

  -- The rounds from position `i` on append the children of the elements from `done` on.
  pub scan-Grown :
      (done i n : ℕ) (r : Vector)
      → IsValid r
      → done ≤ length (elements r)
      → i + n ≡ nodes.size
      → Grown done i n r (scan nodes parents done i n r)
  unfolding scan
  scan-Grown done i zero r h le e = record {
    valid = h;
    added = [];
    extends = sym (append-nil (elements r));
    complete = λ k p q m. absurd (omega arith);
  }
  scan-Grown done i (suc n) r h le e =
      let v = visit-Visit done i r h (omega arith) in
      Grown-step le v (
        scan-Grown done (i + 1) n (visit done i r) (Visit-IsValid h v) (Visit-le le v)
          (omega arith))

  -- Every element from position `lo` on has the property.
  abbrev pub AllFrom : ℕ → (ℕ → Type 0) → Vector → Type 0
  AllFrom lo P r = (x : ℕ) → In x (drop lo (elements r)) → P x

  AllFrom-add :
      (P : ℕ → Type 0) (lo c : ℕ) (r w : Vector)
      → lo ≤ length (elements r)
      → elements w ≡ elements r ++ (c ∷ [])
      → P c
      → AllFrom lo P r
      → AllFrom lo P w
  AllFrom-add P lo c r w le e pc all x m = split (
      In-append x (drop lo (elements r)) (c ∷ [])
        (rw (e, drop-append_le lo (elements r) (c ∷ []) le) at m))
    where
      split : In x (drop lo (elements r)) ⊎ In x (c ∷ []) → P x
      split (inl old) = all x old
      split (inr (inl new)) = rw new pc
      split (inr (inr h)) = elim h [ ]

  -- What is found from the elements with `P` has `Q`, if the children of `P` have `Q`.
  module _ (P Q : ℕ → Type 0) (keep : (p c : ℕ) → Child nodes parents p c → P p → Q c)
      (weaken : (x : ℕ) → Q x → P x) (done next : ℕ) where
    Visit-All :
        {i : ℕ} {r w : Vector}
        → i < nodes.size
        → done ≤ length (elements r)
        → next ≤ length (elements r)
        → Visit done i r w
        → AllFrom done P r
        → AllFrom next Q r
        → AllFrom done P w × AllFrom next Q w
    Visit-All {i} {r} {w} lt le le' (add p c parent_is node_is m e size k) all_p all_q =
        let child : Child nodes parents p c = record {
          at = i;
          in_range = lt;
          parent_is = parent_is;
          node_is = node_is;
        } in
        let qc = keep p c child (all_p p m) in
        (AllFrom-add P done c r w le e (weaken c qc) all_p, AllFrom-add Q next c r w le' e qc all_q)
    Visit-All lt le le' (pass missing) all_p all_q = (all_p, all_q)

    pub scan-All :
        (i n : ℕ) (r : Vector)
        → IsValid r
        → done ≤ length (elements r)
        → next ≤ length (elements r)
        → i + n ≡ nodes.size
        → AllFrom done P r
        → AllFrom next Q r
        → AllFrom next Q (scan nodes parents done i n r)
    unfolding scan
    scan-All i zero r h le le' e all_p all_q = all_q
    scan-All i (suc n) r h le le' e all_p all_q =
        let v = visit-Visit done i r h (omega arith) in
        let both = Visit-All {i = i} (omega arith) le le' v all_p all_q in
        scan-All (i + 1) n (visit done i r) (Visit-IsValid h v) (Visit-le le v) (longer v)
          (omega arith) both.0 both.1
      where
        longer : {w : Vector} → Visit done i r w → next ≤ length (elements w)
        longer (add p c parent_is node_is m e' size k) =
            rw e' (omega (arith, length-append (elements r) (c ∷ [])))
        longer (pass missing) = le'
