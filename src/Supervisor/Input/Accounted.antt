-- ===== src/Supervisor/Input/Accounted.antt =====
-- What has become of every child after the input, and where the children come from.
use processx.Base.{
  ◌≤◌, ◌++◌, length-append, append_assoc, In-append_right, subst, ℕ, zero, suc, ◌+◌, ◌<◌, ◌≡◌, refl,
  sym, ◌∙◌, ap, ◌⊎◌, inl, inr, arith, Bool, true, false, Bool-cases, Option-cases, some, List, [],
  ◌∷◌, length, get_or, drop, drop-cons, In, In-append, In-append_left, ℤ, pos, negsuc, ◌==◌, ==→eq,
}
use processx.Process.Types.{esrch}
use processx.Supervisor.Types.{
  System, Documented, Io, Call, called, extracted, FoundStopped, Later, OnlyAsks, OnlyAsks-news,
}
use processx.Supervisor.Array.{
  max_children, array_contains, add_child, remove_child, remove_from, IsValid,
}
use processx.Supervisor.Array.Laws.{length-remove_element, In-remove_element, kept-remove_element}
use processx.Supervisor.Array.Valid.{add_child-IsValid, remove_child-IsValid}
use processx.Supervisor.Input.{
  input_buf_len, is_kill_command, extract_pid, handle_pid, fgets, read_input,
}

-- The command to watch the process has been read.
abbrev pub Asked : ℕ → List Call → Type 0
Asked pid calls = In (extracted (pos pid)) calls

-- The command to forget the process has been read: its pid with a minus sign.
abbrev pub Released : ℕ → List Call → Type 0
Released pid calls = (n : ℕ) × (pid ≡ suc n) × In (extracted (negsuc n)) calls

-- From the children `xs` to the children `ys`, with the calls `news` in between: none is lost, none
-- comes from nowhere, and each that was asked for is there, unless it was found stopped or released, or
-- there may have been too many: for all the children and calls the array has no room.
pub record Accounted (xs : List ℕ) (calls : List Call) (ys : List ℕ) (calls' : List Call)
    : Type 0 where
  pub kept : (c : ℕ) → In c xs → In c ys ⊎ (FoundStopped c calls' ⊎ Released c calls')
  pub known : (c : ℕ) → In c ys → In c xs ⊎ Asked c calls'
  pub later : Later calls calls'
  pub valid : IsValid xs → IsValid ys
  pub news : List Call
  pub split : calls' ≡ news ++ calls
  pub grown : length ys ≤ length xs + length news
  pub added :
      (n : ℕ)
      → Asked (suc n) news
      → In (suc n) ys
        ⊎ ((FoundStopped (suc n) calls' ⊎ Released (suc n) calls')
            ⊎ (max_children ≤ length xs + length news))

pub Accounted-self : (xs : List ℕ) (calls : List Call) → Accounted xs calls xs calls
Accounted-self xs calls = record {
  kept = λ c h. inl h;
  known = λ c h. inl h;
  later = λ c h. h;
  valid = λ v. v;
  news = [];
  split = refl;
  grown = omega arith;
  added = λ n h. elim h [ ];
}

-- Later calls do not undo what was found before.
gone-Later :
    (calls calls' : List Call) (c : ℕ)
    → Later calls calls'
    → FoundStopped c calls ⊎ Released c calls
    → FoundStopped c calls' ⊎ Released c calls'
gone-Later calls calls' c later (inl q) = inl (later (called c 0 esrch) q)
gone-Later calls calls' c later (inr (n, e, q)) = inr (n, e, later (extracted (negsuc n)) q)

pub Accounted-trans :
    {xs ys zs : List ℕ} {calls calls' calls'' : List Call}
    → Accounted xs calls ys calls'
    → Accounted ys calls' zs calls''
    → Accounted xs calls zs calls''
Accounted-trans {calls = calls} a b =
    let size = length-append b.news a.news in
    record {
      kept = λ c h. elim (a.kept c h) [
        | inl p ↦ b.kept c p
        | inr q ↦ inr (gone-Later _ _ c b.later q)
      ];
      known = λ c h. elim (b.known c h) [
        | inl p ↦ elim (a.known c p) [ inl q ↦ inl q | inr q ↦ inr (b.later (extracted (pos c)) q) ]
        | inr q ↦ inr q
      ];
      later = λ c h. b.later c (a.later c h);
      valid = λ v. b.valid (a.valid v);
      news = b.news ++ a.news;
      split =
          b.split
          ∙ ap (λ (l : List Call). b.news ++ l) a.split
          ∙ sym (append_assoc b.news a.news calls);
      grown = omega (arith, a.grown, b.grown, size);
      added = λ n h. elim (In-append (extracted (pos (suc n))) b.news a.news h) [
        | inl new ↦ elim (b.added n new) [
          | inl p ↦ inl p
          | inr (inl q) ↦ inr (inl q)
          | inr (inr full) ↦ inr (inr (omega (arith, full, a.grown, size)))
        ]
        | inr old ↦ elim (a.added n old) [
          | inl p ↦ elim (b.kept (suc n) p) [ inl q ↦ inl q | inr q ↦ inr (inl q) ]
          | inr (inl q) ↦ inr (inl (gone-Later _ _ (suc n) b.later q))
          | inr (inr full) ↦ inr (inr (omega (arith, full, size)))
        ]
      ];
    }

-- Calls that only ask whether processes run, after which as many children are left or fewer
pub asked-Accounted :
    {xs ys : List ℕ} {calls calls' : List Call}
    → OnlyAsks calls calls'
    → ((c : ℕ) → In c xs → In c ys ⊎ FoundStopped c calls')
    → ((c : ℕ) → In c ys → In c xs)
    → Later calls calls'
    → (IsValid xs → IsValid ys)
    → length ys ≤ length xs
    → Accounted xs calls ys calls'
asked-Accounted asks kept known later valid shorter =
    let (news, split, none_in) = OnlyAsks-news asks in
    record {
      kept = λ c h. elim (kept c h) [ inl p ↦ inl p | inr q ↦ inr (inl q) ];
      known = λ c h. inl (known c h);
      later = later;
      valid = valid;
      news = news;
      split = split;
      grown = omega (arith, shorter);
      added = λ n h. absurd (none_in (pos (suc n)) h);
    }

In-add_child : (c pid : ℕ) (xs : List ℕ) → In c (add_child pid xs) → In c xs ⊎ (c ≡ pid)
unfolding add_child
In-add_child c pid xs h = elim (Bool-cases (length xs == max_children)) [
  | inl e ↦ inl (rw e at h)
  | inr e ↦ elim (Bool-cases (array_contains xs pid)) [
    | inl f ↦ inl (rw (e, f) at h)
    | inr f ↦ elim (In-append c xs (pid ∷ []) (rw (e, f) at h)) [
      | inl p ↦ inl p
      | inr (inl q) ↦ inr q
      | inr (inr q) ↦ elim q [ ]
    ]
  ]
]

kept-add_child : (c pid : ℕ) (xs : List ℕ) → In c xs → In c (add_child pid xs)
unfolding add_child
kept-add_child c pid xs h = elim (Bool-cases (length xs == max_children)) [
  | inl e ↦ rw e h
  | inr e ↦ elim (Bool-cases (array_contains xs pid)) [
    | inl f ↦ rw (e, f) h
    | inr f ↦ rw (e, f) (In-append_left c xs (pid ∷ []) h)
  ]
]

-- Where the loop that removes a child stands: at index `i`, before `rest`.
remove_from-kept :
    (c i pid : ℕ) (rest xs : List ℕ)
    → drop i xs ≡ rest
    → (In c (remove_from rest i pid xs) → In c xs)
      × (In c xs → In c (remove_from rest i pid xs) ⊎ (c ≡ pid))
unfolding remove_from
remove_from-kept c i pid [] xs h = (λ p. p, λ p. inl p)
remove_from-kept c i pid (x ∷ rest) xs h =
    let inside = index_inside i x rest xs h in
    let split : (get_or xs i 0 ∷ drop (i + 1) xs) ≡ x ∷ rest = sym (drop-cons i xs 0 inside) ∙ h in
    let here : get_or xs i 0 ≡ x = cc in
    let next : drop (i + 1) xs ≡ rest = cc in
    elim (Bool-cases (x == pid)) [
      | inl e ↦ rw e (
          (
            λ p. In-remove_element c xs i inside p,
            λ p. elim (kept-remove_element c xs i inside p) [
              | inl q ↦ inl q
              | inr q ↦ inr (q ∙ here ∙ ==→eq x pid e)
            ],
          ))
      | inr e ↦ rw e (remove_from-kept c (i + 1) pid rest xs next)
    ]
  where
    index_inside : (i x : ℕ) (rest xs : List ℕ) → drop i xs ≡ x ∷ rest → i < length xs
    index_inside zero x rest [] h = absurd (ground arith)
    index_inside (suc i) x rest [] h = absurd (ground arith)
    index_inside zero x rest (y ∷ ys) h = omega arith
    index_inside (suc i) x rest (y ∷ ys) h = omega (arith, index_inside i x rest ys h)

length-add_child : (pid : ℕ) (xs : List ℕ) → length (add_child pid xs) ≤ length xs + 1
unfolding add_child
length-add_child pid xs = elim (Bool-cases (length xs == max_children)) [
  | inl e ↦ rw e (omega arith)
  | inr e ↦ elim (Bool-cases (array_contains xs pid)) [
    | inl f ↦ rw (e, f) (omega arith)
    | inr f ↦ rw (e, f) (omega (arith, length-append xs (pid ∷ [])))
  ]
]

array_contains-In : (xs : List ℕ) (x : ℕ) → array_contains xs x ≡ true → In x xs
unfolding array_contains
array_contains-In [] x h = absurd cc
array_contains-In (y ∷ xs) x h = elim (Bool-cases (y == x)) [
  | inl e ↦ inl (sym (==→eq y x e))
  | inr e ↦ inr (array_contains-In xs x (rw e at h))
]

-- The process is a child now, or there were too many.
In-added : (pid : ℕ) (xs : List ℕ) → In pid (add_child pid xs) ⊎ (length xs ≡ max_children)
unfolding add_child
In-added pid xs = elim (Bool-cases (length xs == max_children)) [
  | inl e ↦ inr (==→eq (length xs) max_children e)
  | inr e ↦ elim (Bool-cases (array_contains xs pid)) [
    | inl f ↦ rw (e, f) (inl (array_contains-In xs pid f))
    | inr f ↦ rw (e, f) (inl (In-append_right pid xs (pid ∷ []) (inl refl)))
  ]
]

length-remove_from :
    (i pid : ℕ) (rest xs : List ℕ)
    → length rest + i ≤ length xs
    → length (remove_from rest i pid xs) ≤ length xs
unfolding remove_from
length-remove_from i pid [] xs h = omega arith
length-remove_from i pid (x ∷ rest) xs h = elim (Bool-cases (x == pid)) [
  | inl e ↦ rw e (omega (arith, length-remove_element xs i (omega arith)))
  | inr e ↦ rw e (length-remove_from (i + 1) pid rest xs (omega arith))
]

handle_pid-Accounted :
    (pid : ℤ) (xs : List ℕ) (calls : List Call)
    → Accounted xs calls (handle_pid pid xs) (extracted pid ∷ calls)
unfolding handle_pid remove_child
handle_pid-Accounted (pos zero) xs calls = record {
  kept = λ c h. inl h;
  known = λ c h. inl h;
  later = λ c h. inr h;
  valid = λ v. v;
  news = extracted (pos zero) ∷ [];
  split = refl;
  grown = omega arith;
  added = λ n h. elim h [ inl q ↦ absurd (other_pid n q) | inr t ↦ elim t [ ] ];
}
  where
    other_pid : (n : ℕ) → extracted (pos (suc n)) ≡ extracted (pos zero) → ⊥
    other_pid n q = let same : suc n ≡ zero = cc in omega (arith, same)
handle_pid-Accounted (pos (suc n)) xs calls = record {
  kept = λ c h. inl (kept-add_child c (suc n) xs h);
  known = λ c h. elim (In-add_child c (suc n) xs h) [
    | inl p ↦ inl p
    | inr e ↦ inr (inl (ap (λ v. extracted (pos v)) e))
  ];
  later = λ c h. inr h;
  valid = add_child-IsValid (suc n) xs (omega arith);
  news = extracted (pos (suc n)) ∷ [];
  split = refl;
  grown = length-add_child (suc n) xs;
  added = λ m h. elim h [
    | inr t ↦ elim t [ ]
    | inl q ↦
        let same : suc m ≡ suc n = cc in
        elim (In-added (suc n) xs) [
          | inl p ↦ inl (subst (λ (v : ℕ). In v (add_child (suc n) xs)) (sym same) p)
          | inr full ↦ inr (inr (omega (arith, full)))
        ]
  ];
}
handle_pid-Accounted (negsuc n) xs calls = record {
  kept = λ c h. elim ((remove_from-kept c 0 (suc n) xs xs refl).1 h) [
    | inl p ↦ inl p
    | inr e ↦ inr (inr (n, e, inl refl))
  ];
  known = λ c h. inl ((remove_from-kept c 0 (suc n) xs xs refl).0 h);
  later = λ c h. inr h;
  valid = remove_child-IsValid (suc n) xs;
  news = extracted (negsuc n) ∷ [];
  split = refl;
  grown = omega (arith, length-remove_from 0 (suc n) xs xs (omega arith));
  added = λ m h. elim h [ inl q ↦ absurd cc | inr t ↦ elim t [ ] ];
}

module _ (S : System) (doc : Documented S) where
  -- With fuel for every byte that is left the loop returns, and it loses and invents no child.
  pub read_input-Accounted :
      (fuel : ℕ) (xs : List ℕ) (s : Io S)
      → doc.pending s.0 < fuel
      → (killed : Bool) × (ys : List ℕ) × (s' : Io S) × (read_input S fuel xs s
          ≡ some (killed, ys, s'))
        × Accounted xs s.1 ys s'.1
  unfolding read_input extract_pid
  read_input-Accounted zero xs s h = elim h [ ]
  read_input-Accounted (suc fuel) xs s h =
      let (line, s1) = fgets S s in
      elim (Option-cases line) [
        | inl e ↦ (false, xs, s1, rw (e, read_input), Accounted-self xs s.1)
        | inr (buf, e) ↦ elim (Bool-cases (is_kill_command buf)) [
          | inl k ↦ (true, xs, s1, rw (e, k, read_input), Accounted-self xs s.1)
          | inr k ↦
              let (pid, s2) = extract_pid S buf s1 in
              let less = doc.pending-fgets input_buf_len buf s.0 e in
              let same = doc.pending-strtol buf s1.0 in
              let (killed, ys, s', eq, a) =
                read_input-Accounted fuel (handle_pid pid xs) s2 (omega arith) in
              (
                killed,
                ys,
                s',
                rw (e, k, read_input) eq,
                Accounted-trans (handle_pid-Accounted pid xs s.1) a,
              )
        ]
      ]
