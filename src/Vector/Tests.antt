-- ===== src/Vector/Tests.antt =====
-- Runs of the vector operations on small inputs, and the theorems at concrete vectors.
use processx.Base.{
  ℕ, zero, suc, ◌≤◌, ◌<◌, ◌≡◌, ◌↔◌, refl, none, some, List, [], ◌∷◌, arith, get_or, In,
  if◌then◌else◌, ◌==◌,
}
use processx.Vector.{Vector, init, clear, push_back, find, scan, grow, rooted_tree}
use processx.Vector.Laws.{IsValid}
use processx.Vector.Forest.Scan.{Child}
use processx.Vector.Forest.Loop.{Descends}
use processx.Vector.Forest.Tree.{rooted_tree_iff, rooted_tree_stops, rooted_tree_loops}

-- Process 2 is a child of 1, 3 of 2, and 4 of 9.
abbrev nodes : Vector
nodes = record { stor = 2 ∷ 3 ∷ 4 ∷ []; size = 3 }

abbrev parents : Vector
parents = record { stor = 1 ∷ 2 ∷ 9 ∷ []; size = 3 }

abbrev empty : Vector
empty = record { stor = 0 ∷ []; size = 0 }

-- Process 5 is listed as its own parent.
abbrev self_node : Vector
self_node = record { stor = 5 ∷ []; size = 1 }

-- The grandchild is found in the first round already, by its parent that the same round added,
-- and once more in the next round.
tree_twice :
    rooted_tree 4 1 nodes parents empty ≡ some (record { stor = 1 ∷ 2 ∷ 3 ∷ 3 ∷ []; size = 4 })
unfolding rooted_tree grow push_back clear scan find
tree_twice = refl

push_grows : push_back self_node 7 ≡ record { stor = 5 ∷ 7 ∷ []; size = 2 }
unfolding push_back
push_grows = refl

init_one : init (λ i. i) 0 0 ≡ record { stor = 0 ∷ []; size = 0 }
unfolding init
init_one = refl

nodes-IsValid : IsValid nodes
nodes-IsValid = omega arith

rooted_tree_iff_example :
    ((x : ℕ) → In x (1 ∷ 2 ∷ 3 ∷ 3 ∷ []) ↔ Descends nodes parents 1 x)
    × ((rest : List ℕ) × (◌≡◌ {A = List ℕ} (1 ∷ 2 ∷ 3 ∷ 3 ∷ []) (1 ∷ rest)))
rooted_tree_iff_example =
    rooted_tree_iff nodes parents refl 4 1 empty (record { stor = 1 ∷ 2 ∷ 3 ∷ 3 ∷ []; size = 4 })
      tree_twice

-- A rank that grows from parent to child: the number of the process, but 0 for process 9.
abbrev rank : ℕ → ℕ
rank x = if x == 9 then 0 else x

rank_at :
    (i : ℕ)
    → i < 3
    → (rank (get_or parents.stor i 0) < rank (get_or nodes.stor i 0))
      × (rank (get_or nodes.stor i 0) ≤ 4)
rank_at zero h = omega arith
rank_at (suc zero) h = omega arith
rank_at (suc (suc zero)) h = omega arith
rank_at (suc (suc (suc i))) h = absurd (omega arith)

rank_grows : (p c : ℕ) → Child nodes parents p c → (rank p < rank c) × (rank c ≤ 4)
rank_grows p c ch = rw (← ch.parent_is, ← ch.node_is) (rank_at ch.at ch.in_range)

rooted_tree_stops_example : (w : Vector) × (rooted_tree 6 1 nodes parents empty ≡ some w)
rooted_tree_stops_example =
    rooted_tree_stops nodes parents refl rank 4 6 1 empty rank_grows (omega arith) (omega arith)

rooted_tree_loops_example : rooted_tree 100 5 self_node self_node empty ≡ none
rooted_tree_loops_example =
    rooted_tree_loops self_node self_node refl 100 5 empty
      (record { at = 0; in_range = omega arith; parent_is = refl; node_is = refl })
