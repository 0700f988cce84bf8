-- ===== src/Process/Socketpair/Tests.antt =====
-- An old kernel with two descriptors for a pair of sockets, and an instance of the theorem.
use processx.Base.{ℕ, ◌≡◌, ◌≢◌, refl, ◌∙◌, Bool, true, false, ltb, none, some, arith}
use processx.Process.Child.Table.{Slot}
use processx.Process.Child.Sample.{Fds, slot, put, flag_of, fds, slot-put_other, fds_documented}
use processx.Process.Socketpair.{
  SocketOutcome, made, einval, socket_failed, SocketOs, make_socketpair,
}
use processx.Process.Socketpair.Made.{OpenWith, SocketLaws, TookPair, make_socketpair-TookPair}

-- Numbers 10 and 11, if both are free
abbrev pair_of : Slot → Slot → Fds → SocketOutcome × Fds
pair_of none none w = (made 10 11, put 11 (some (78, false)) (put 10 (some (77, false)) w))
pair_of (some _) _ w = (socket_failed, w)
pair_of none (some _) w = (socket_failed, w)

abbrev old_kernel : SocketOs fds
old_kernel = record {
  socketpair =
      λ flag w. elim flag [ true ↦ (einval, w) | false ↦ pair_of (slot w 10) (slot w 11) w ];
}

abbrev Taken : Bool → Fds → ℕ → ℕ → SocketOutcome × Fds → Type 0
Taken flag w a b out =
    (a ≢ b)
    × (slot w a ≡ none)
    × (slot w b ≡ none)
    × OpenWith flag (slot out.1 a)
    × OpenWith flag (slot out.1 b)
    × ((k : ℕ) → k ≢ a → k ≢ b → slot out.1 k ≡ slot w k)

numbers : (a b : ℕ) → made 10 11 ≡ made a b → (10 ≡ a) × (11 ≡ b)
numbers a b h = (cc, cc)

pair-Taken :
    (x y : Slot) (w : Fds) (a b : ℕ)
    → slot w 10 ≡ x
    → slot w 11 ≡ y
    → (pair_of x y w).0 ≡ made a b
    → Taken false w a b (pair_of x y w)
pair-Taken (some _) y w a b hx hy h = absurd cc
pair-Taken none (some _) w a b hx hy h = absurd cc
pair-Taken none none w a b hx hy h =
    let (is_a, is_b) = numbers a b h in
    let first = put 10 (some (77, false)) w in
    rw (← is_a, ← is_b)
      (
        omega arith,
        hx,
        hy,
        (77, refl),
        (78, refl),
        λ k na nb.
            slot-put_other 11 k (some (78, false)) first nb
            ∙ slot-put_other 10 k (some (77, false)) w na,
      )

flag_set :
    (u file : ℕ) (flag : Bool) (w : Fds)
    → slot w u ≡ some (file, flag)
    → slot (flag_of (slot w u) u true w) u ≡ some (file, true)
flag_set u file flag w h = rw h (ground arith)

flag_other : (x : Slot) (u k : ℕ) (w : Fds) → k ≢ u → slot (flag_of x u true w) k ≡ slot w k
flag_other none u k w ne = refl
flag_other (some (file, flag)) u k w ne = slot-put_other u k (some (file, true)) w ne

kernel-made :
    (flag : Bool) (w : Fds) (a b : ℕ)
    → (old_kernel.socketpair flag w).0 ≡ made a b
    → Taken flag w a b (old_kernel.socketpair flag w)
kernel-made true w a b h = absurd cc
kernel-made false w a b h = pair-Taken (slot w 10) (slot w 11) w a b refl refl h

failed-same :
    (x y : Slot) (w : Fds)
    → ((a b : ℕ) → (pair_of x y w).0 ≢ made a b)
    → (k : ℕ) → slot (pair_of x y w).1 k ≡ slot w k
failed-same none none w h k = absurd (h 10 11 refl)
failed-same none (some _) w h k = refl
failed-same (some _) y w h k = refl

kernel-failed :
    (flag : Bool) (w : Fds)
    → ((a b : ℕ) → (old_kernel.socketpair flag w).0 ≢ made a b)
    → (k : ℕ) → slot (old_kernel.socketpair flag w).1 k ≡ slot w k
kernel-failed true w h k = refl
kernel-failed false w h k = failed-same (slot w 10) (slot w 11) w h k

abbrev old_laws : SocketLaws fds fds_documented old_kernel
old_laws = record {
  made_ok = λ flag w a b h. kernel-made flag w a b h;
  failed_same = λ flag w h k. kernel-failed flag w h k;
  set_cloexec = flag_set;
  cloexec_other = λ u k w ne. flag_other (slot w u) u k w ne;
}

-- Only the standard streams are open.
abbrev only_std : Fds
only_std k = elim (ltb k 3) [ true ↦ some (k, false) | false ↦ none ]

make_socketpair-TookPair_example :
    let (r, w') = make_socketpair fds old_kernel false only_std in
    TookPair fds fds_documented old_kernel old_laws r.0 only_std w'
make_socketpair-TookPair_example =
    make_socketpair-TookPair fds fds_documented old_kernel old_laws false only_std

took_10_and_11 : (make_socketpair fds old_kernel false only_std).0 ≡ (some (10, 11), true)
unfolding make_socketpair
took_10_and_11 = refl
