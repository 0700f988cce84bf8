-- ===== src/Windows/Env/TreeId.antt =====
-- The block that `processx__add_tree_id_env` makes.
use processx.Base.{
  ◌+◌, ◌≡◌, ◌≢◌, refl, ◌∙◌, true, false, some, List, [], ◌∷◌, ◌++◌, append_assoc, append-nil, ok,
  arith, ◌==◌, length, length-append, take, take-append_le, take_all,
}
use processx.Windows.Search.{Text}
use processx.Windows.Env.{env_length, add_tree_id_env}
use processx.Windows.Env.Merge.{All}
use processx.Windows.Env.Passes.{joined, joined_size, joined-append}

-- No unit is zero.
abbrev pub NoZero : Text → Type 0
NoZero text = All (λ c. c ≢ 0) text

-- A text of a block of Windows
abbrev pub Entry : Text → Type 0
Entry text = NoZero text × (text ≢ [])

env_length-inside :
    (text rest : Text)
    → NoZero text
    → env_length false (text ++ (0 ∷ rest)) ≡ length text + 1 + env_length true rest
unfolding env_length
env_length-inside [] rest h = omega arith
env_length-inside (c ∷ cs) rest h =
    let z : (c == 0) ≡ false = ground (arith, h.0) in
    rw z (omega (arith, env_length-inside cs rest h.1))

env_length-joined :
    (es : List Text) → All Entry es → env_length true (joined es ++ (0 ∷ [])) ≡ joined_size es
unfolding env_length joined
env_length-joined [] h = refl
env_length-joined ([] ∷ es) h = absurd (h.0.1 refl)
env_length-joined ((c ∷ cs) ∷ es) h =
    let z : (c == 0) ≡ false = ground (arith, h.0.0.0) in
    let grouped : ((cs ++ (0 ∷ [])) ++ joined es) ++ (0 ∷ [])
        ≡ cs ++ (0 ∷ (joined es ++ (0 ∷ []))) =
      simp append_assoc in
    rw (z, grouped)
      (omega (
        arith,
        env_length-inside cs (joined es ++ (0 ∷ [])) h.0.0.1,
        env_length-joined es h.1,
        length-append (cs ++ (0 ∷ [])) (joined es),
        length-append cs (0 ∷ []),
      ))

joined-one : (e : Text) → joined (e ∷ []) ≡ e ++ (0 ∷ [])
unfolding joined
joined-one e = append-nil (e ++ (0 ∷ []))

-- The tree id comes behind the entries of the block of this process.
pub add_tree_id_env-joined :
    (es : List Text) (id : Text)
    → All Entry es
    → add_tree_id_env (some (joined es ++ (0 ∷ []))) (some id)
      ≡ ok (joined (es ++ (id ∷ [])) ++ (0 ∷ []))
unfolding add_tree_id_env
add_tree_id_env-joined es id h =
    let whole : take (joined_size es) (joined es ++ (0 ∷ [])) ≡ joined es =
      take-append_le (joined_size es) (joined es) (0 ∷ []) (omega arith)
      ∙ take_all (joined_size es) (joined es) (omega arith) in
    rw (env_length-joined es h, whole, joined-append es (id ∷ []), joined-one id)
