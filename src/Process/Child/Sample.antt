-- ===== src/Process/Child/Sample.antt =====
-- A table of 300 file descriptors, with the system calls on it.
pub mod Pair
use processx.Base.{
  ℕ, zero, suc, ◌+◌, ◌≤◌, ◌<◌, ◌≡◌, ◌≢◌, refl, sym, ◌∙◌, ap, subst, Bool, true, false, Bool-cases,
  Option, Option-cases, none, some, some_inj, arith, inl, inr, ltb, ltb→lt, ◌==◌, if◌then◌else◌,
}
use processx.Process.Child.{FdOs}
use processx.Process.Child.Table.{Slot, Shares, Documented}
use processx.Process.Child.Pipes.{Sockets, Paired}

abbrev pub Fds : Type 0
Fds = ℕ → Slot

abbrev pub slot : Fds → ℕ → Slot
slot w k = if ltb k 300 then w k else none

abbrev pub put : ℕ → Slot → Fds → Fds
put k x w j = if j == k then x else w j

-- The least free descriptor from `k` on
unfoldable pub first_free : ℕ → ℕ → Fds → Option ℕ
first_free zero k w = none
first_free (suc n) k w =
    let later = first_free n (k + 1) w in
    if ltb k 300 then elim (w k) [ none ↦ some k | some _ ↦ later ] else none

abbrev pub fill_slot : Option ℕ → ℕ → Fds → Option ℕ × Fds
fill_slot none file w = (none, w)
fill_slot (some k) file w = (some k, put k (some (file, false)) w)

abbrev pub fd_open : Fds → Option ℕ × Fds
unfolding first_free
fd_open w = fill_slot (first_free 300 0 w) 99 w

abbrev pub dup2_of : Slot → ℕ → Fds → Option ℕ × Fds
dup2_of none fd w = (none, w)
dup2_of (some (file, flag)) fd w = fill_slot (if ltb fd 300 then some fd else none) file w

abbrev pub dup_of : Slot → ℕ → Fds → Option ℕ × Fds
unfolding first_free
dup_of none least w = (none, w)
dup_of (some (file, flag)) least w = fill_slot (first_free 300 least w) file w

abbrev pub flag_of : Slot → ℕ → Bool → Fds → Fds
flag_of none u b w = w
flag_of (some (file, _)) u b w = put u (some (file, b)) w

abbrev pub is_some : Slot → Bool
is_some none = false
is_some (some _) = true

abbrev pub fd_close : ℕ → Fds → Bool × Fds
fd_close k w = (is_some (slot w k), put k none w)

abbrev pub fds : FdOs
fds = record {
  World = Fds;
  open_file = λ path mode w. fd_open w;
  dup2 = λ u fd w. dup2_of (slot w u) fd w;
  dup_from = λ u least w. dup_of (slot w u) least w;
  close = fd_close;
  cloexec_fcntl = λ u b w. flag_of (slot w u) u b w;
  nonblock_fcntl = λ u b w. w;
  report = λ w. w;
}

slot-put : (k : ℕ) (x : Slot) (w : Fds) → k < 300 → slot (put k x w) k ≡ x
slot-put k x w h = ground arith

pub slot-put_other : (k j : ℕ) (x : Slot) (w : Fds) → j ≢ k → slot (put k x w) j ≡ slot w j
slot-put_other k j x w h = ground arith

pub free_lem :
    (n k f : ℕ) (w : Fds) → first_free n k w ≡ some f → (k ≤ f) × (slot w f ≡ none) × (f < 300)
unfolding first_free
free_lem zero k f w h = absurd cc
free_lem (suc n) k f w h = elim (Bool-cases (ltb k 300)) [
  | inr e ↦ absurd (ground arith)
  | inl e ↦ elim (Option-cases (w k)) [
    | inl q ↦
        let same : k ≡ f = some_inj (rw (e, q) at h) in
        rw (← same) (omega arith, rw (e, q), ltb→lt k 300 e)
    | inr (x, q) ↦ let (a, b, c) = free_lem n (k + 1) f w (rw (e, q) at h) in (omega arith, b, c)
  ]
]

fill_lem :
    (o : Option ℕ) (file f : ℕ) (w : Fds)
    → (fill_slot o file w).0 ≡ some f
    → (o ≡ some f) × ((fill_slot o file w).1 ≡ put f (some (file, false)) w)
fill_lem none file f w h = absurd cc
fill_lem (some k) file f w h = (h, ap (λ (x : ℕ). put x (some (file, false)) w) (some_inj h))

-- A free slot is filled.
pub filled_lem :
    (n least file f : ℕ) (w : Fds)
    → let out = fill_slot (first_free n least w) file w in
      out.0 ≡ some f
      → (least ≤ f)
        × (slot w f ≡ none)
        × (slot out.1 f ≡ some (file, false))
        × ((k : ℕ) → k ≢ f → slot out.1 k ≡ slot w k)
filled_lem n least file f w h =
    let (found, same) = fill_lem (first_free n least w) file f w h in
    let (le, free, lt) = free_lem n least f w found in
    (
      le,
      free,
      ap (λ (v : Fds). slot v f) same ∙ slot-put f (some (file, false)) w lt,
      λ k ne. ap (λ (v : Fds). slot v k) same ∙ slot-put_other f k (some (file, false)) w ne,
    )

pub open_lem :
    (w : Fds) (f : ℕ)
    → (fd_open w).0 ≡ some f
    → (slot w f ≡ none)
      × (slot (fd_open w).1 f ≢ none)
      × ((k : ℕ) → k ≢ f → slot (fd_open w).1 k ≡ slot w k)
unfolding first_free
open_lem w f h =
    let (_, free, new, others) = filled_lem 300 0 99 f w h in (free, λ q. absurd cc, others)

pub dup2_lem :
    (x : Slot) (fd : ℕ) (w : Fds) (f : ℕ)
    → (dup2_of x fd w).0 ≡ some f
    → Shares x (slot (dup2_of x fd w).1 fd)
      × ((k : ℕ) → k ≢ fd → slot (dup2_of x fd w).1 k ≡ slot w k)
dup2_lem none fd w f h = absurd cc
dup2_lem (some (file, flag)) fd w f h =
    let (found, same) = fill_lem (if ltb fd 300 then some fd else none) file f w h in
    let lt : fd < 300 = ground arith in
    let at_fd : f ≡ fd = ground arith in
    let written = same ∙ ap (λ (x : ℕ). put x (some (file, false)) w) at_fd in
    (
      (
        file,
        flag,
        refl,
        ap (λ (v : Fds). slot v fd) written ∙ slot-put fd (some (file, false)) w lt,
      ),
      λ k ne. ap (λ (v : Fds). slot v k) written ∙ slot-put_other fd k (some (file, false)) w ne,
    )

pub dup_lem :
    (x : Slot) (least : ℕ) (w : Fds) (f : ℕ)
    → (dup_of x least w).0 ≡ some f
    → (least ≤ f)
      × (slot w f ≡ none)
      × Shares x (slot (dup_of x least w).1 f)
      × ((k : ℕ) → k ≢ f → slot (dup_of x least w).1 k ≡ slot w k)
unfolding first_free
dup_lem none least w f h = absurd cc
dup_lem (some (file, flag)) least w f h =
    let (le, free, new, others) = filled_lem 300 least file f w h in
    (le, free, (file, flag, refl, new), others)

below_limit : (k : ℕ) (x : ℕ × Bool) (w : Fds) → slot w k ≡ some x → k < 300
below_limit k x w h = ground arith

pub flag_lem :
    (x : Slot) (u : ℕ) (w : Fds)
    → x ≡ slot w u
    → (x ≢ none → Shares x (slot (flag_of x u false w) u))
      × ((k : ℕ) → k ≢ u → slot (flag_of x u false w) k ≡ slot w k)
flag_lem none u w h = (λ q. absurd (q refl), λ k ne. refl)
flag_lem (some (file, flag)) u w h = (
  λ _. (file, flag, refl, slot-put u (some (file, false)) w (below_limit u (file, flag) w (sym h))),
  λ k ne. slot-put_other u k (some (file, false)) w ne,
)

pub close_lem : (k : ℕ) (w : Fds) → slot (put k none w) k ≡ none
close_lem k w = ground arith

pub limit_lem : (k : ℕ) (w : Fds) → 300 ≤ k → slot w k ≡ none
limit_lem k w h = ground arith

abbrev pub fds_documented : Documented fds
fds_documented = record {
  slot = slot;
  open_ok = λ path mode w f h. open_lem w f h;
  dup2_ok = λ u fd w f h. dup2_lem (slot w u) fd w f h;
  dup_from_ok = λ u least w f h. dup_lem (slot w u) least w f h;
  close_all = λ c w. (close_lem c w, λ k ne. slot-put_other c k none w ne);
  limit = 300;
  limit_empty = limit_lem;
  close_empty = λ k w h. ap is_some h;
  cloexec_clear = λ u w. flag_lem (slot w u) u w refl;
  nonblock_same = λ u k b w. refl;
}
