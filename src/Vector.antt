-- ===== src/Vector.antt =====
-- src/processx-vector.c: the growable vector of process ids (`processx_vector_t` of
-- src/processx-types.h) and the search for a rooted tree in a forest of processes.
-- The three pointers are the storage (`stor_begin` up to `stor_end`) and the number of
-- elements in use (`end - stor_begin`). Ids are only compared, so a pid is any number.
pub mod Laws
pub mod Find
pub mod Forest
mod Tests
use processx.Base.{
  ℕ, zero, suc, ◌+◌, ◌-◌, ◌*◌, ◌≤◌, ◌≡◌, Bool, true, false, Option, none, some, List, [], ◌∷◌, ◌++◌,
  ltb, leb, ◌==◌, if◌then◌else◌, length, get_or, set, take, replicate,
}

pub record Vector : Type 0 where
  pub stor : List ℕ
  pub size : ℕ

-- `stor_end - stor_begin`
abbrev pub alloc_size : Vector → ℕ
alloc_size v = length v.stor

-- The elements that a reader may see.
abbrev pub elements : Vector → List ℕ
elements v = take v.size v.stor

-- `n` cells from `R_alloc`, which holds `mem i` at position `i`: it is not cleared.
pub fresh : (ℕ → ℕ) → ℕ → ℕ → List ℕ
fresh mem i zero = []
fresh mem i (suc n) = mem i ∷ fresh mem (i + 1) n

-- `processx_vector_init`; `R_alloc` leaves by an R error when memory is out.
pub init : (ℕ → ℕ) → ℕ → ℕ → Vector
unfolding fresh
init mem size alloc =
    let at_least = if ltb alloc size then size else alloc in
    let alloc_size' = if at_least == 0 then 1 else at_least in
    record { stor = fresh mem 0 alloc_size'; size = size }

-- `S_realloc` keeps the block if the new size is no larger, and otherwise copies it and
-- clears the rest. The vector then ends at the new size.
pub realloc : List ℕ → ℕ → List ℕ
realloc stor size =
    if leb size (length stor) then take size stor else stor ++ replicate (size - length stor) 0

pub reserve : Vector → ℕ → Vector
unfolding realloc
reserve v size = if leb size v.size then v else record { stor = realloc v.stor size; size = v.size }

pub clear : Vector → Vector
clear v = record v { size = 0 }

-- The size that a full vector grows to.
pub grown_size : ℕ → ℕ
grown_size size = let new_size = size * 2 in if new_size == 0 then 1 else new_size

pub push_back : Vector → ℕ → Vector
unfolding reserve grown_size
push_back v e =
    let w = if alloc_size v == v.size then reserve v (grown_size v.size) else v in
    record { stor = set w.stor w.size e; size = w.size + 1 }

-- The loop of `processx_vector_find`, with the number of rounds left.
find_loop : Vector → ℕ → ℕ → ℕ → Option ℕ
find_loop v e from zero = none
find_loop v e from (suc n) =
    let later = find_loop v e (from + 1) n in if get_or v.stor from 0 == e then some from else later

-- The result is the index that is stored in `*idx`; `none` is the return value 0.
pub find : Vector → ℕ → ℕ → Option ℕ
unfolding find_loop
find v e from = find_loop v e from (v.size - from)

abbrev pub is_found : Option ℕ → Bool
is_found none = false
is_found (some i) = true

-- The inner loop of `processx_vector_rooted_tree`, from node `i` with `n` nodes left.
pub scan : Vector → Vector → ℕ → ℕ → ℕ → Vector → Vector
scan nodes parents done i zero result = result
scan nodes parents done i (suc n) result = scan nodes parents done (i + 1) n (
    if is_found (find result (get_or parents.stor i 0) done)
    then push_back result (get_or nodes.stor i 0)
    else result)

-- The outer loop. `none` means that the fuel ran out.
pub grow : ℕ → Vector → Vector → ℕ → ℕ → Vector → Option Vector
unfolding scan
grow zero nodes parents done next_done result = none
grow (suc fuel) nodes parents done next_done result =
    let result' = scan nodes parents done 0 nodes.size result in
    let more = grow fuel nodes parents next_done result'.size result' in
    if ltb done next_done then more else some result

pub rooted_tree : ℕ → ℕ → Vector → Vector → Vector → Option Vector
rooted_tree fuel root nodes parents result =
    grow fuel nodes parents 0 1 (push_back (clear result) root)
