-- ===== src/Process/Exec/Tests.antt =====
-- `processx_exec` on the table of Child.Sample, and instances of the theorems.
use processx.Base.{
  ℕ, ◌≡◌, ◌≢◌, refl, sym, ap, ◌∙◌, subst, Bool, Bool-cases, ==→eq, ==→ne, true, false, Option,
  Option-cases, none, some, List, [], ◌∷◌, ok, throw, arith, inl, inr, ◌⊎◌, ◌==◌,
}
use processx.Process.Child.Pipes.{Target, text, ignored, make_pipes}
use processx.Process.Child.Sample.{
  Fds, slot, put, first_free, fill_slot, fd_open, fds, slot-put_other, free_lem, fds_documented,
}
use processx.Process.Child.Sample.Pair.{sockets_paired, second_of, sockets, first_same, not_none}
use processx.Process.Children.{child_add}
use processx.Process.Exec.{ErrnoRead, ExecOs, ExecState, pty_main_open, open_pty, exec, not_started}
use processx.Process.Exec.Account.{
  Is, ◌or◌, Free, Account, Account-widen, Account-open, free_before,
}
use processx.Process.Exec.Pipes.{ExecLaws}
use processx.Process.Exec.Outcome.{Ended}
use processx.Process.Exec.Whole.{Opened, Closing, pty_main_open-Opened, exec-Ended}

-- A new process that cannot start its program
abbrev calls : ExecOs fds
unfolding first_free
calls = record {
  pipe = sockets.make_socketpair;
  openpt = fd_open;
  grantpt = λ fd w. (true, w);
  unlockpt = λ fd w. (true, w);
  ptsname = λ fd w. (some (b'/' ∷ []), w);
  open_tty = λ name w. fd_open w;
  fork = λ w. (some 7, w);
  calloc_ok = λ w. (true, w);
  read = λ fd w. (ErrnoRead.errno 2, w);
  waitpid = λ pid w. w;
}

abbrev Filled : Fds → Option ℕ × Fds → Type 0
Filled w (o, w') = Account fds fds_documented w w' (Is o) × Free fds fds_documented w (Is o)

fill-Filled :
    (o : Option ℕ) (file : ℕ) (w : Fds) → first_free 300 0 w ≡ o → Filled w (fill_slot o file w)
fill-Filled none file w h = (λ k. inl refl, λ k x. elim x [ ])
fill-Filled (some f) file w h =
    let (_, free, lt) = free_lem 300 0 f w h in
    (
      λ k. elim (ℕ-split k f) [
        | inl e ↦ inr (e, ap (slot w) e ∙ free)
        | inr ne ↦ inl (slot-put_other f k (some (file, false)) w ne)
      ],
      λ k x. ap (slot w) x ∙ free,
    )
  where
    ℕ-split : (a b : ℕ) → (a ≡ b) ⊎ (a ≢ b)
    ℕ-split a b = elim (Bool-cases (a == b)) [
      | inl e ↦ inl (==→eq a b e)
      | inr n ↦ inr (==→ne a b n)
    ]

open-Filled : (w : Fds) → Filled w (fd_open w)
unfolding first_free
open-Filled w = fill-Filled (first_free 300 0 w) 99 w refl

abbrev Two : ℕ → ℕ → Fds → Fds → Type 0
Two a b w w' =
    Account fds fds_documented w w' (Is (some a) or Is (some b))
    × Free fds fds_documented w (Is (some a) or Is (some b))

second_of-Two :
    (r : Option ℕ) (a b : ℕ) (w w1 : Fds)
    → Filled w (r, w1)
    → (second_of r w1).0 ≡ some (a, b)
    → Two a b w (second_of r w1).1
unfolding first_free
second_of-Two none a b w w1 f h = absurd (not_none w1 a b h)
second_of-Two (some c) a b w w1 f h =
    let is_a = first_same c a b w1 h in
    let out = fill_slot (first_free 300 0 w1) 78 w1 in
    let second = fill-Filled (first_free 300 0 w1) 78 w1 refl in
    elim (Option-cases out.0) [
      | inl e ↦ absurd (ground arith)
      | inr (d, e) ↦
          let is_b : d ≡ b = ground arith in
          let both =
            Account-open fds fds_documented w w1 out.1 (Is (some c)) f.0 (Is out.0) second.0 in
          let back = λ (k : ℕ) (x : Is out.0 k). subst (λ o. Is o k) e x ∙ is_b in
          (
            Account-widen fds fds_documented w out.1 out.1 _ both _
                (λ k x. elim x [ inl y ↦ inr (back k y) | inr y ↦ inl (y ∙ is_a) ]),
            λ k x. elim x [
              | inl y ↦ f.1 k (y ∙ sym is_a)
              | inr y ↦
                  free_before fds fds_documented w w1 w1 _ f.0 k
                    (second.1 k (subst (λ o. Is o k) (sym e) (y ∙ sym is_b)))
            ],
          )
    ]

pair-Two :
    (w : Fds) (a b : ℕ)
    → (sockets.make_socketpair w).0 ≡ some (a, b)
    → Two a b w (sockets.make_socketpair w).1
unfolding first_free
pair-Two w a b h =
    let out = fill_slot (first_free 300 0 w) 77 w in
    second_of-Two out.0 a b w out.1 (fill-Filled (first_free 300 0 w) 77 w refl) h

flag_other :
    (u : ℕ) (b : Bool) (w : Fds) (k : ℕ) → k ≢ u → slot (fds.cloexec_fcntl u b w) k ≡ slot w k
flag_other u b w k ne = elim (Option-cases (slot w u)) [
  | inl e ↦ rw e refl
  | inr ((file, flag), e) ↦ rw e (slot-put_other u k (some (file, b)) w ne)
]

pair-taken :
    (w : Fds) (a b : ℕ)
    → (sockets.make_socketpair w).0 ≡ some (a, b)
    → (k : ℕ) → (Is (some a) or Is (some b)) k
    → slot (sockets.make_socketpair w).1 k ≢ none
pair-taken w a b h k x =
    let (_, _, _, open_a, open_b, _) = sockets_paired.pair_ok w a b h in
    let w' = (sockets.make_socketpair w).1 in
    elim x [
      | inl e ↦ subst (λ j. slot w' j ≢ none) (sym e) open_a
      | inr e ↦ subst (λ j. slot w' j ≢ none) (sym e) open_b
    ]

calls_lawful : ExecLaws fds fds_documented sockets calls
unfolding first_free
calls_lawful = record {
  pipe_opens = pair-Two;
  pair_opens = pair-Two;
  pair_taken = pair-taken;
  openpt_opens = open-Filled;
  tty_opens = λ name w. open-Filled w;
  cloexec_other = λ fd b w k ne. flag_other fd b w k ne;
  grantpt_same = λ fd w k. refl;
  unlockpt_same = λ fd w k. refl;
  ptsname_same = λ fd w k. refl;
  fork_same = λ w k. refl;
  calloc_same = λ w k. refl;
  read_same = λ fd w k. refl;
  waitpid_same = λ pid w k. refl;
}

-- The standard streams are open.
abbrev start_fds : Fds
start_fds = put 0 (some (0, false)) (put 1 (some (1, false)) (put 2 (some (2, false)) (λ k. none)))

abbrev start : ExecState fds
start = record { blocked = false; lists = record { children = []; free = [] }; world = start_fds }

-- A pipe for the input, the output inherited, and the errors nowhere
abbrev targets : List Target
targets = text (b'|' ∷ []) ∷ text [] ∷ ignored ∷ []

exec_fails : (exec fds calls sockets 1 true targets start).0 ≡ throw (not_started 2)
unfolding exec first_free
exec_fails = refl

abbrev flagged_fds : Fds
flagged_fds = fds.cloexec_fcntl 4 true (fds.cloexec_fcntl 3 true (calls.pipe start_fds).1)

pty_opened : (open_pty fds calls true flagged_fds).0 ≡ some (some (5, b'/' ∷ []))
unfolding open_pty first_free
pty_opened = refl

pipes_made :
    (make_pipes fds sockets 0 targets (open_pty fds calls true flagged_fds).1).0
    ≡ ok (
        record { parent_end = some 6; child_end = some 7; output = some (b'|' ∷ []) }
        ∷ record { parent_end = none; child_end = some 1; output = some [] }
        ∷ record { parent_end = none; child_end = none; output = none }
        ∷ [])
unfolding open_pty make_pipes first_free
pipes_made = refl

exec-Ended_example :
    (tty : Option ℕ) × (pid : ℕ) × Ended fds fds_documented start_fds
      (record { parent_end = some 6; child_end = some 7; output = some (b'|' ∷ []) }
        ∷ record { parent_end = none; child_end = some 1; output = some [] }
        ∷ record { parent_end = none; child_end = none; output = none }
        ∷ [])
      3
      (some 5)
      tty
      pid
      (child_add pid 1 (start.lists))
      (exec fds calls sockets 1 true targets start)
    × Closing fds fds_documented sockets calls calls_lawful 1 true targets start 3 4
        (some (5, b'/' ∷ []))
        (record { parent_end = some 6; child_end = some 7; output = some (b'|' ∷ []) }
          ∷ record { parent_end = none; child_end = some 1; output = some [] }
          ∷ record { parent_end = none; child_end = none; output = none }
          ∷ [])
        (make_pipes fds sockets 0 targets (open_pty fds calls true flagged_fds).1).1
exec-Ended_example =
    unfold first_free in
    exec-Ended fds fds_documented sockets calls calls_lawful 1 true targets start 3 4
      (some (5, b'/' ∷ []))
      (record { parent_end = some 6; child_end = some 7; output = some (b'|' ∷ []) }
        ∷ record { parent_end = none; child_end = some 1; output = some [] }
        ∷ record { parent_end = none; child_end = none; output = none }
        ∷ [])
      (omega arith) refl pty_opened pipes_made

pty_main_open-Opened_example :
    Opened fds fds_documented start_fds (pty_main_open fds calls start_fds)
pty_main_open-Opened_example =
    pty_main_open-Opened fds fds_documented sockets calls calls_lawful start_fds
