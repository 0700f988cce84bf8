-- ===== src/Supervisor/Array.antt =====
-- The children: an array of pids in no order. `children` is the part of it that is in use.
pub mod Laws
pub mod Valid
use processx.Base.{
  ℕ, zero, suc, ◌+◌, ◌-◌, ◌≤◌, ◌<◌, ◌≡◌, ◌≢◌, refl, sym, ap, ◌∙◌, Bool, true, false, not, ◌||◌,
  List, [], ◌∷◌, ◌++◌, ◌⊎◌, inl, inr, arith, ltb, leb, ◌==◌, ==→eq, ==→ne, ==-refl, if◌then◌else◌,
  Bool-cases, length, get_or, set, take, In,
}

abbrev pub max_children : ℕ
max_children = 1024

-- `remove_element`
unfoldable pub remove_element : List ℕ → ℕ → List ℕ
remove_element ar idx = let len = length ar in take (len - 1) (set ar idx (get_or ar (len - 1) 0))

-- `array_contains`
unfoldable pub array_contains : List ℕ → ℕ → Bool
array_contains [] value = false
array_contains (x ∷ xs) value = x == value || array_contains xs value

-- A positive number that was read: it becomes a child unless there are too many or it is one.
unfoldable pub add_child : ℕ → List ℕ → List ℕ
unfolding array_contains
add_child pid children =
    if length children == max_children
    then children
    else if array_contains children pid
    then children
    else children ++ (pid ∷ [])

-- The loop that looks for the child to remove, from index `i` on
unfoldable pub remove_from : List ℕ → ℕ → ℕ → List ℕ → List ℕ
unfolding remove_element
remove_from [] i pid children = children
remove_from (x ∷ xs) i pid children =
    let later = remove_from xs (i + 1) pid children in
    if x == pid then remove_element children i else later

-- A negative number that was read
unfoldable pub remove_child : ℕ → List ℕ → List ℕ
unfolding remove_from
remove_child pid children = remove_from children 0 pid children

abbrev pub Distinct : List ℕ → Type 0
Distinct [] = Unit
Distinct (x ∷ xs) = (In x xs → ⊥) × Distinct xs

abbrev pub Positive : List ℕ → Type 0
Positive [] = Unit
Positive (x ∷ xs) = (0 < x) × Positive xs

-- No child is there twice, all have positive pids, and the array holds them.
pub record IsValid (children : List ℕ) : Type 0 where
  pub distinct : Distinct children
  pub positive : Positive children
  pub fits : length children ≤ max_children
