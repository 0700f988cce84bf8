-- ===== src/Supervisor/Kill/Ended.antt =====
-- What has been done to every child when `kill_children` returns.
pub mod Grace
use processx.Base.{
  ℕ, zero, suc, ◌+◌, ◌*◌, ◌≤◌, ◌<◌, ◌≡◌, refl, sym, ap, subst, ◌⊎◌, inl, inr, arith, Bool, true,
  false, Bool-cases, some, List, [], ◌∷◌, ltb, ltb→lt, ltb→ge, ◌==◌, if◌then◌else◌, length, get_or,
  In,
}
use processx.Process.Types.{KillOutcome, sent, esrch, eperm, kill_error}
use processx.Process.Kill.{sigkill, sigterm}
use processx.Supervisor.Types.{
  System, Documented, Io, Call, called, kill, sleep_ms, time, pid_is_running, FoundStopped,
  Signalled, Later, OnlyAsks, no_call, one_more, OnlyAsks-trans,
}
use processx.Supervisor.Array.{remove_element, IsValid}
use processx.Supervisor.Array.Laws.{length-remove_element, In-remove_element, kept-remove_element}
use processx.Supervisor.Array.Valid.{remove_element-IsValid}
use processx.Supervisor.Kill.{
  poll_ms, drop_loop, drop_stopped, terminate, wait_loop, hard_kill, kill_children,
}

-- How one list of children comes from another by dropping those that were found stopped
pub record Dropped (xs ys : List ℕ) (calls : List Call) : Type 0 where
  pub no_other : (c : ℕ) → In c ys → In c xs
  pub dropped_stopped : (c : ℕ) → In c xs → In c ys ⊎ FoundStopped c calls

Dropped-self : (xs : List ℕ) (calls : List Call) → Dropped xs xs calls
Dropped-self xs calls = record { no_other = λ c h. h; dropped_stopped = λ c h. inl h }

Dropped-trans :
    {xs ys zs : List ℕ} {calls calls' : List Call}
    → Dropped xs ys calls
    → Dropped ys zs calls'
    → Later calls calls'
    → Dropped xs zs calls'
Dropped-trans d e later = record {
  no_other = λ c h. d.no_other c (e.no_other c h);
  dropped_stopped = λ c h. elim (d.dropped_stopped c h) [
    | inl p ↦ e.dropped_stopped c p
    | inr q ↦ inr (later (called c 0 esrch) q)
  ];
}

Dropped-remove_element :
    (xs : List ℕ) (i : ℕ) (calls : List Call)
    → i < length xs
    → FoundStopped (get_or xs i 0) calls
    → Dropped xs (remove_element xs i) calls
Dropped-remove_element xs i calls h f = record {
  no_other = λ c p. In-remove_element c xs i h p;
  dropped_stopped = λ c p. elim (kept-remove_element c xs i h p) [
    | inl q ↦ inl q
    | inr e ↦ inr (subst (λ (v : ℕ). FoundStopped v calls) (sym e) f)
  ];
}

pub no_elements : (xs : List ℕ) → (length xs == 0) ≡ true → xs ≡ []
no_elements [] e = refl
no_elements (x ∷ xs) e = absurd (ground arith)

-- The last look at a child: it is killed, or has been found stopped.
abbrev pub Ended : ℕ → List Call → Type 0
Ended c calls = Signalled c sigkill calls ⊎ FoundStopped c calls

-- What the loops that look at the children keep.
pub record Looked (xs : List ℕ) (calls : List Call) (ys : List ℕ) (calls' : List Call)
    : Type 0 where
  pub dropped : Dropped xs ys calls'
  pub later : Later calls calls'
  pub valid : IsValid xs → IsValid ys
  pub asks : OnlyAsks calls calls'
  pub shorter : length ys ≤ length xs

Looked-self : (xs : List ℕ) (calls : List Call) → Looked xs calls xs calls
Looked-self xs calls = record {
  dropped = Dropped-self xs calls;
  later = λ c h. h;
  valid = λ v. v;
  asks = no_call;
  shorter = omega arith;
}

Looked-trans :
    {xs ys zs : List ℕ} {calls calls' calls'' : List Call}
    → Looked xs calls ys calls'
    → Looked ys calls' zs calls''
    → Looked xs calls zs calls''
Looked-trans a b = record {
  dropped = Dropped-trans a.dropped b.dropped b.later;
  later = λ c h. b.later c (a.later c h);
  valid = λ v. b.valid (a.valid v);
  asks = OnlyAsks-trans a.asks b.asks;
  shorter = omega (arith, a.shorter, b.shorter);
}

-- One child is looked at, and removed if it is not running.
Looked-at :
    (xs : List ℕ) (i : ℕ) (calls calls' : List Call) (running : Bool)
    → i < length xs
    → Later calls calls'
    → OnlyAsks calls calls'
    → (running ≡ false → FoundStopped (get_or xs i 0) calls')
    → Looked xs calls (if running then xs else remove_element xs i) calls'
Looked-at xs i calls calls' true h later asks f = record {
  dropped = Dropped-self xs calls';
  later = later;
  valid = λ v. v;
  asks = asks;
  shorter = omega arith;
}
Looked-at xs i calls calls' false h later asks f = record {
  dropped = Dropped-remove_element xs i calls' h (f refl);
  later = later;
  valid = remove_element-IsValid xs i h;
  asks = asks;
  shorter = omega (arith, length-remove_element xs i h);
}

Ended-Later :
    (c : ℕ) (calls calls' : List Call) → Later calls calls' → Ended c calls → Ended c calls'
Ended-Later c calls calls' l (inl (r, p)) = inl (r, l (called c sigkill r) p)
Ended-Later c calls calls' l (inr p) = inr (l (called c 0 esrch) p)

module _ (S : System) where
  -- A call of `pid_is_running` is recorded, and its answer is that of the call of kill(2).
  pub pid_is_running-calls :
      (pid : ℕ) (s : Io S)
      → Later s.1 (pid_is_running S pid s).1.1
        × ((pid_is_running S pid s).0 ≡ false → FoundStopped pid (pid_is_running S pid s).1.1)
  unfolding pid_is_running kill
  pid_is_running-calls pid (w, calls) = by_outcome (S.kill pid 0 w).0
    where
      by_outcome :
          (r : KillOutcome)
          → Later calls (called pid 0 r ∷ calls)
            × (elim r [ esrch ↦ false | _ ↦ true ] ≡ false
                → FoundStopped pid (called pid 0 r ∷ calls))
      by_outcome esrch = (λ c h. inr h, λ e. inl refl)
      by_outcome sent = (λ c h. inr h, λ e. absurd (ground arith))
      by_outcome eperm = (λ c h. inr h, λ e. absurd (ground arith))
      by_outcome kill_error = (λ c h. inr h, λ e. absurd (ground arith))

  pub pid_is_running-OnlyAsks : (pid : ℕ) (s : Io S) → OnlyAsks s.1 (pid_is_running S pid s).1.1
  unfolding pid_is_running kill
  pid_is_running-OnlyAsks pid s = one_more pid (S.kill pid 0 s.0).0 no_call

  drop_loop-Looked :
      (fuel i : ℕ) (xs : List ℕ) (s : Io S)
      → Looked xs s.1 (drop_loop S fuel i xs s).0 (drop_loop S fuel i xs s).1.1
  unfolding drop_loop
  drop_loop-Looked zero i xs s = Looked-self xs s.1
  drop_loop-Looked (suc fuel) i xs s =
      let (running, s') = pid_is_running S (get_or xs i 0) s in
      let left = if running then xs else remove_element xs i in
      elim (Bool-cases (ltb i (length xs))) [
        | inl e ↦
            let (later, found) = pid_is_running-calls (get_or xs i 0) s in
            rw e (
              Looked-trans
                (Looked-at xs i s.1 s'.1 running (ltb→lt i (length xs) e) later
                  (pid_is_running-OnlyAsks (get_or xs i 0) s) found)
                (drop_loop-Looked fuel (i + 1) left s'))
        | inr e ↦ rw e (Looked-self xs s.1)
      ]

  pub drop_stopped-Looked :
      (xs : List ℕ) (s : Io S) → Looked xs s.1 (drop_stopped S xs s).0 (drop_stopped S xs s).1.1
  unfolding drop_stopped
  drop_stopped-Looked xs s = drop_loop-Looked (length xs) 0 xs s

  terminate-Later : (xs : List ℕ) (s : Io S) → Later s.1 (terminate S xs s).1
  unfolding terminate kill
  terminate-Later [] s c h = h
  terminate-Later (x ∷ xs) s c h = terminate-Later xs (kill S x sigterm s).1 c (inr h)

  -- Every child gets SIGTERM.
  terminate-Signalled :
      (xs : List ℕ) (s : Io S) (c : ℕ) → In c xs → Signalled c sigterm (terminate S xs s).1
  unfolding terminate kill
  terminate-Signalled [] s c h = elim h [ ]
  terminate-Signalled (x ∷ xs) s c (inl e) =
      let (r, s') = kill S x sigterm s in
      (r, terminate-Later xs s' (called c sigterm r) (inl (ap (λ v. called v sigterm r) e)))
  terminate-Signalled (x ∷ xs) s c (inr h) = terminate-Signalled xs (kill S x sigterm s).1 c h

  -- A round of `hard_kill`
  killed_if :
      (x : ℕ) (s : Io S) (running : Bool)
      → (running ≡ false → FoundStopped x s.1)
      → Later s.1 (if running then (kill S x sigkill s).1 else s).1
        × Ended x (if running then (kill S x sigkill s).1 else s).1
  unfolding kill
  killed_if x s true f = (λ c h. inr h, inl ((kill S x sigkill s).0, inl refl))
  killed_if x s false f = (λ c h. h, inr (f refl))

  hard_kill-Later : (xs : List ℕ) (s : Io S) → Later s.1 (hard_kill S xs s).1
  unfolding hard_kill
  hard_kill-Later [] s c h = h
  hard_kill-Later (x ∷ xs) s c h =
      let (running, s') = pid_is_running S x s in
      let (later, found) = pid_is_running-calls x s in
      let s2 = if running then (kill S x sigkill s').1 else s' in
      hard_kill-Later xs s2 c ((killed_if x s' running found).0 c (later c h))

  hard_kill-Ended : (xs : List ℕ) (s : Io S) (c : ℕ) → In c xs → Ended c (hard_kill S xs s).1
  unfolding hard_kill
  hard_kill-Ended [] s c h = elim h [ ]
  hard_kill-Ended (x ∷ xs) s c (inr h) =
      let (running, s') = pid_is_running S x s in
      hard_kill-Ended xs (if running then (kill S x sigkill s').1 else s') c h
  hard_kill-Ended (x ∷ xs) s c (inl same) =
      let (running, s') = pid_is_running S x s in
      let s2 = if running then (kill S x sigkill s').1 else s' in
      Ended-Later c s2.1 (hard_kill S xs s2).1 (hard_kill-Later xs s2) (
        subst (λ (v : ℕ). Ended v s2.1) (sym same)
          ((killed_if x s' running (pid_is_running-calls x s).1).1))

  module _ (doc : Documented S) where
    drop_loop-clock :
        (fuel i : ℕ) (xs : List ℕ) (s : Io S)
        → doc.clock s.0 ≤ doc.clock (drop_loop S fuel i xs s).1.0
    unfolding drop_loop pid_is_running kill
    drop_loop-clock zero i xs s = omega arith
    drop_loop-clock (suc fuel) i xs s =
        let (running, s') = pid_is_running S (get_or xs i 0) s in
        let left = if running then xs else remove_element xs i in
        elim (Bool-cases (ltb i (length xs))) [
          | inl e ↦ rw e (
              omega
                (arith, doc.clock-kill (get_or xs i 0) 0 s.0, drop_loop-clock fuel (i + 1) left s'))
          | inr e ↦ rw e (omega arith)
        ]

    -- With a round left for every fifth of a second up to the stop time the loop ends. After that
    -- time it needs one round. It goes on to the stop time, unless no child is left.
    pub wait_loop-Looked :
        (fuel stop_time : ℕ) (xs : List ℕ) (s : Io S)
        → stop_time * 1000 ≤ doc.clock s.0 + fuel * 200
        → (stop_time * 1000 ≤ doc.clock s.0 → 0 < fuel)
        → (ys : List ℕ) × (s' : Io S) × (wait_loop S fuel stop_time xs s ≡ some (ys, s'))
          × Looked xs s.1 ys s'.1
          × ((ys ≡ []) ⊎ (stop_time * 1000 ≤ doc.clock s'.0))
    unfolding wait_loop drop_stopped
    wait_loop-Looked zero stop_time xs s h one = absurd (omega (arith, one (omega arith)))
    wait_loop-Looked (suc fuel) stop_time xs s h _ =
        let s0 = sleep_ms S poll_ms s in
        let (left, s1) = drop_stopped S xs s0 in
        let (now, s2) = time S s1 in
        let look = drop_stopped-Looked xs s0 in
        elim (Bool-cases (length left == 0)) [
          | inl e ↦ (left, s1, rw e, look, inl (no_elements left e))
          | inr e ↦ elim (Bool-cases (ltb now stop_time)) [
            | inl lt ↦
                let slept = doc.clock-sleep poll_ms s.0 in
                let dropped = drop_loop-clock (length xs) 0 xs s0 in
                let (said, later) = doc.clock-time s1.0 in
                let early = ltb→lt now stop_time lt in
                let (ys, s', eq, l, ended) =
                  wait_loop-Looked fuel stop_time left s2 (omega arith) (λ late. omega arith) in
                (ys, s', rw (e, lt) eq, Looked-trans look l, ended)
            | inr ge ↦
                let (said, later) = doc.clock-time s1.0 in
                let late = ltb→ge now stop_time ge in
                (left, s2, rw (e, ge), look, inr (omega (arith, said, later, late)))
          ]
        ]

    -- After `kill_children` every child has got SIGTERM, and then SIGKILL unless it was found stopped.
    pub kill_children-Ended :
        (xs : List ℕ) (s : Io S)
        → (s' : Io S) × (kill_children S xs s ≡ some s')
          × Later s.1 s'.1
          × ((c : ℕ) → In c xs → Signalled c sigterm s'.1 × Ended c s'.1)
    unfolding kill_children
    kill_children-Ended [] s = (s, refl, λ c h. h, λ c h. elim h [ ])
    kill_children-Ended (x ∷ xs) s =
        let s1 = terminate S (x ∷ xs) s in
        let (now, s2) = time S s1 in
        let (said, later) = doc.clock-time s1.0 in
        let (left, s3, eq, l, _) =
          wait_loop-Looked 25 (now + 5) (x ∷ xs) s2 (omega arith) (λ _. omega arith) in
        let s' = hard_kill S left s3 in
        (
          s',
          rw eq,
          λ c h. hard_kill-Later left s3 c (l.later c (terminate-Later (x ∷ xs) s c h)),
          λ c h.
              let (r, p) = terminate-Signalled (x ∷ xs) s c h in
              (
                (r, hard_kill-Later left s3 (called c sigterm r) (l.later (called c sigterm r) p)),
                elim (l.dropped.dropped_stopped c h) [
                  | inl q ↦ hard_kill-Ended left s3 c q
                  | inr q ↦ inr (hard_kill-Later left s3 (called c 0 esrch) q)
                ],
              ),
        )
