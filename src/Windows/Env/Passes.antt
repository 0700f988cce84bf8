-- ===== src/Windows/Env/Passes.antt =====
-- The third and the final pass of `processx__make_program_env` against the merge.
use processx.Base.{
  ℕ, ◌+◌, ◌-◌, ◌≤◌, ◌≡◌, refl, ap, ◌∙◌, subst, false, Option, none, some, List, [], ◌∷◌, ◌++◌,
  append-nil, append_assoc, ok, arith, ◌==◌, length, length-append,
}
use processx.Windows.Search.{Text}
use processx.Windows.Env.{
  ◌>>=◌, record_size, wide_eq, Api, Sizes, put, write_value, var_size, size_of, grown, third_pass,
  read_env, insert_var, final_pass,
}
use processx.Windows.Env.Merge.{entry_of, inherited, merged, merged-nil}

-- The texts with a zero after each
unfoldable pub joined : List Text → Text
joined [] = []
joined (e ∷ es) = (e ++ (0 ∷ [])) ++ joined es

abbrev pub joined_size : List Text → ℕ
joined_size es = length (joined es)

pub joined-append : (xs ys : List Text) → joined (xs ++ ys) ≡ joined xs ++ joined ys
unfolding joined
joined-append [] ys = refl
joined-append (x ∷ xs) ys = simp (joined-append xs ys, append_assoc)

pub joined_size-cons :
    (e : Text) (es : List Text) → joined_size (e ∷ es) ≡ length e + 1 + joined_size es
unfolding joined
joined_size-cons e es =
    omega (arith, length-append (e ++ (0 ∷ [])) (joined es), length-append e (0 ∷ []))

pub joined_size-nil : joined_size [] ≡ 0
unfolding joined
joined_size-nil = refl

pub joined_size-append :
    (xs ys : List Text) → joined_size (xs ++ ys) ≡ joined_size xs + joined_size ys
joined_size-append xs ys = rw (joined-append xs ys) (length-append (joined xs) (joined ys))

put_lem :
    (env_len : ℕ) (dst units : Text) (ahead : ℕ)
    → length dst + length units + ahead ≤ 1 + env_len
    → put env_len dst units ahead ≡ ok (dst ++ units)
put_lem env_len dst units ahead h = ground arith

read_env_lem :
    (W : Api) (name value : Text) (room : ℕ)
    → W.get_env_later name ≡ some value
    → length value + 1 ≤ room
    → read_env W name room ≡ (length value, some value)
unfolding read_env
read_env_lem W name value room g h = rw (g, read_env) (ground arith)

write_value_lem :
    (env_len : ℕ) (dst value : Text)
    → length dst + length value + 1 ≤ 1 + env_len
    → write_value env_len (length value + 1) dst (length value, some value)
      ≡ ok (dst ++ (value ++ (0 ∷ [])))
write_value_lem env_len dst value h = ground (arith, length-append value (0 ∷ []))

entry_size :
    (name value : Text)
    → joined_size (entry_of name (some value)) ≡ length (wide_eq name) + length value + 1
entry_size name value =
    joined_size-cons (wide_eq name ++ value) []
    ∙ omega (arith, length-append (wide_eq name) value, joined_size-nil)

-- A missing variable that this process still has is written whole.
insert_var-some :
    (W : Api) (env_len : ℕ) (name value dst : Text)
    → W.get_env_later name ≡ some value
    → length dst + joined_size (entry_of name (some value)) ≤ env_len
    → insert_var W env_len name (some (length value + 1)) dst
      ≡ ok (dst ++ joined (entry_of name (some value)))
unfolding insert_var joined
insert_var-some W env_len name value dst g h =
    let ptr : Text = dst ++ wide_eq name in
    let z : (length value + 1 == 0) ≡ false = ground arith in
    let size_ptr = length-append dst (wide_eq name) in
    let room : length dst + length (wide_eq name) + length value + 1 ≤ env_len =
      omega (arith, entry_size name value) in
    rw
      (
        z,
        put_lem env_len dst (wide_eq name) 1 (omega arith),
        read_env_lem W name value (env_len - length ptr) g (omega arith),
        write_value_lem env_len ptr value (omega arith),
      )
      (simp (append_assoc, append-nil))

insert_var_lem :
    (W : Api) (env_len : ℕ) (name dst : Text) (found : Option Text)
    → W.get_env_later name ≡ found
    → length dst + joined_size (entry_of name found) ≤ env_len
    → insert_var W env_len name (some (size_of found)) dst
      ≡ ok (dst ++ joined (entry_of name found))
unfolding insert_var joined
insert_var_lem W env_len name dst none g h = rw (append-nil dst) refl
insert_var_lem W env_len name dst (some value) g h = insert_var-some W env_len name value dst g h

grown_lem :
    (env_len : ℕ) (name : Text) (found : Option Text)
    → grown env_len name (size_of found) ≡ env_len + joined_size (entry_of name found)
grown_lem env_len name none = omega (arith, joined_size-nil)
grown_lem env_len name (some value) =
    rw (entry_size name value) (ground (arith, length-append name (b'=' ∷ [])))

joined-cons : (e : Text) (es : List Text) → joined (e ∷ es) ≡ (e ++ (0 ∷ [])) ++ joined es
unfolding joined
joined-cons e es = refl

text_room :
    (cap : ℕ) (e : Text) (es : List Text) (dst : Text)
    → length dst + joined_size (e ∷ es) ≤ cap
    → length (dst ++ (e ++ (0 ∷ []))) + joined_size es ≤ cap
text_room cap e es dst h =
    omega
      (arith, joined_size-cons e es, length-append dst (e ++ (0 ∷ [])), length-append e (0 ∷ []))

put_text :
    (cap : ℕ) (e : Text) (es : List Text) (dst : Text)
    → length dst + joined_size (e ∷ es) ≤ cap
    → put cap dst (e ++ (0 ∷ [])) 0 ≡ ok (dst ++ (e ++ (0 ∷ [])))
put_text cap e es dst h =
    put_lem cap dst (e ++ (0 ∷ [])) 0
      (omega (arith, joined_size-cons e es, length-append e (0 ∷ [])))

regroup : (a b c d : Text) → (a ++ b) ++ (c ++ d) ≡ a ++ ((b ++ c) ++ d)
regroup a b c d = simp append_assoc

-- The names that the sizes stand for
abbrev pub names_of : Sizes → List Text
names_of [] = []
names_of ((name, size) ∷ sizes) = name ∷ names_of sizes

module _ (W : Api) where
  abbrev pub Stable : Text → Type 0
  Stable name = W.get_env_later name ≡ W.get_env name

  -- From here on the third pass returns sizes, and the final pass makes the merge of them.
  abbrev pub Pass : List Text → List Text → ℕ → Type 0
  Pass names es env_len =
      (sizes : Sizes) × (env_len' : ℕ) × (third_pass W names es env_len ≡ ok (sizes, env_len'))
      × (names_of sizes ≡ names)
      × (env_len' + joined_size es ≡ env_len + joined_size (merged W names es))
      × ((cap : ℕ) (dst : Text)
          → length dst + joined_size (merged W names es) ≤ cap
          → final_pass W cap sizes es dst ≡ ok (dst ++ (joined (merged W names es) ++ (0 ∷ []))))

  final_pass-nil :
      (cap : ℕ) (es : List Text) (dst : Text)
      → length dst + joined_size es ≤ cap
      → final_pass W cap [] es dst ≡ ok (dst ++ (joined es ++ (0 ∷ [])))
  unfolding final_pass joined
  final_pass-nil cap [] dst h = put_lem cap dst (0 ∷ []) 0 (omega arith)
  final_pass-nil cap (e ∷ es) dst h = rw (put_text cap e es dst h) (
      final_pass-nil cap es (dst ++ (e ++ (0 ∷ []))) (text_room cap e es dst h)
      ∙ ap ok (regroup dst (e ++ (0 ∷ [])) (joined es) (0 ∷ [])))

  pub Pass-nil : (es : List Text) (env_len : ℕ) → Pass [] es env_len
  unfolding third_pass
  Pass-nil es env_len = (
    [],
    env_len,
    refl,
    refl,
    rw (merged-nil W es) refl,
    λ cap dst h. rw (merged-nil W es) (final_pass-nil cap es dst (rw (← merged-nil W es) h)),
  )

  -- Both passes add a variable of this process.
  pub Pass-insert :
      (name : Text) (names es : List Text) (env_len : ℕ)
      → merged W (name ∷ names) es ≡ inherited W name ++ merged W names es
      → third_pass W (name ∷ names) es env_len
        ≡ record_size name
            (some (var_size W name))
            (third_pass W names es (grown env_len name (var_size W name)))
      → ((cap : ℕ) (sizes : Sizes) (dst : Text)
          → final_pass W cap ((name, some (var_size W name)) ∷ sizes) es dst ≡ (
              insert_var W cap name (some (var_size W name)) dst >>= λ ptr.
              final_pass W cap sizes es ptr))
      → Stable name
      → Pass names es (grown env_len name (var_size W name))
      → Pass (name ∷ names) es env_len
  Pass-insert name names es env_len m t f stable (sizes, env_len', q, heads, total, run) = (
    (name, some (var_size W name)) ∷ sizes,
    env_len',
    rw (t, q) refl,
    ap (λ ns. name ∷ ns) heads,
    rw m (
        omega (
          arith,
          total,
          grown_lem env_len name (W.get_env name),
          joined_size-append (inherited W name) (merged W names es),
        )),
    λ cap dst h.
        let h' : length dst + joined_size (inherited W name ++ merged W names es) ≤ cap =
          subst (λ x. length dst + joined_size x ≤ cap) m h in
        let size = joined_size-append (inherited W name) (merged W names es) in
        let size_dst = length-append dst (joined (inherited W name)) in
        rw
          (
            m,
            f cap sizes dst,
            insert_var_lem W cap name dst (W.get_env name) stable (omega arith),
            run cap (dst ++ joined (inherited W name)) (omega arith),
            joined-append (inherited W name) (merged W names es),
          )
          (ap ok (regroup dst (joined (inherited W name)) (joined (merged W names es)) (0 ∷ []))),
  )

  -- Both passes go over a given text.
  pub Pass-take :
      (e : Text) (names names' es : List Text) (env_len : ℕ) (f : Sizes → Sizes)
      → merged W names (e ∷ es) ≡ e ∷ merged W names' es
      → ((sizes : Sizes) (l : ℕ)
          → third_pass W names' es env_len ≡ ok (sizes, l)
          → third_pass W names (e ∷ es) env_len ≡ ok (f sizes, l))
      → ((sizes : Sizes) → names_of sizes ≡ names' → names_of (f sizes) ≡ names)
      → ((cap : ℕ) (sizes : Sizes) (dst : Text)
          → names_of sizes ≡ names'
          → final_pass W cap (f sizes) (e ∷ es) dst
            ≡ (put cap dst (e ++ (0 ∷ [])) 0 >>= λ ptr. final_pass W cap sizes es ptr))
      → Pass names' es env_len
      → Pass names (e ∷ es) env_len
  Pass-take e names names' es env_len f m t n p (sizes, env_len', q, heads, total, run) = (
    f sizes,
    env_len',
    t sizes env_len' q,
    n sizes heads,
    rw m (omega (arith, total, joined_size-cons e es, joined_size-cons e (merged W names' es))),
    λ cap dst h.
        let h' : length dst + joined_size (e ∷ merged W names' es) ≤ cap =
          subst (λ x. length dst + joined_size x ≤ cap) m h in
        rw
          (
            m,
            p cap sizes dst heads,
            put_text cap e (merged W names' es) dst h',
            run cap (dst ++ (e ++ (0 ∷ []))) (text_room cap e (merged W names' es) dst h'),
            joined-cons e (merged W names' es),
          )
          (ap ok (regroup dst (e ++ (0 ∷ [])) (joined (merged W names' es)) (0 ∷ []))),
  )
