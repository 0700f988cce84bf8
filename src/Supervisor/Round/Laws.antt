-- ===== src/Supervisor/Round/Laws.antt =====
-- What a round does with the children, and when the supervisor exits.
use processx.Base.{
  ℕ, ◌<◌, ◌≡◌, sym, ◌∙◌, subst, inl, inr, arith, true, false, Bool-cases, Option, some, some_inj,
  List, [], In, pos,
}
use processx.Process.Types.{esrch}
use processx.Process.Kill.{sigterm}
use processx.Supervisor.Types.{
  System, Documented, Io, Call, extracted, kill, sleep_ms, pid_is_running, Signalled, Later,
  OnlyAsks,
}
use processx.Supervisor.Array.{IsValid}
use processx.Supervisor.Input.Accounted.{
  Asked, Accounted, Accounted-self, Accounted-trans, asked-Accounted, read_input-Accounted,
}
use processx.Supervisor.Kill.{poll_ms, drop_stopped}
use processx.Supervisor.Kill.Ended.{
  Ended, Looked, drop_stopped-Looked, kill_children-Ended, pid_is_running-calls,
  pid_is_running-OnlyAsks,
}
use processx.Supervisor.Round.{Outcome, exited, watching, end_children, look_around, round}

-- What was called with the children `ys` when the supervisor exits
abbrev pub AllEnded : List ℕ → List Call → Type 0
AllEnded ys calls = (c : ℕ) → In c ys → Signalled c sigterm calls × Ended c calls

-- What a round leaves of the children `xs`. At an exit they have first been accounted for, and
-- the rest `ys` has been ended.
abbrev pub Rounded : List ℕ → List Call → Outcome → List Call → Type 0
Rounded xs calls exited calls'' =
    (ys : List ℕ) × (calls' : List Call) × Accounted xs calls ys calls'
    × Later calls' calls''
    × AllEnded ys calls''
Rounded xs calls (watching ys) calls' = Accounted xs calls ys calls'

Looked→Accounted :
    {xs ys : List ℕ} {calls calls' : List Call}
    → Looked xs calls ys calls'
    → Accounted xs calls ys calls'
Looked→Accounted l =
    asked-Accounted l.asks l.dropped.dropped_stopped l.dropped.no_other l.later l.valid l.shorter

-- A question about another process changes nothing.
asked-after :
    {xs ys : List ℕ} {calls calls' calls'' : List Call}
    → Accounted xs calls ys calls'
    → OnlyAsks calls' calls''
    → Later calls' calls''
    → Accounted xs calls ys calls''
asked-after a asks l =
    Accounted-trans a (asked-Accounted asks (λ c h. inl h) (λ c h. h) l (λ v. v) (omega arith))

module _ (S : System) where
  -- Some outcome, in which the children `xs` are accounted for
  abbrev pub Ends : List ℕ → List Call → Option (Outcome × Io S) → Type 0
  Ends xs calls result =
      (out : Outcome) × (s' : Io S) × (result ≡ some (out, s')) × Rounded xs calls out s'.1

  abbrev pub Exits : List ℕ → List Call → Option (Outcome × Io S) → Type 0
  Exits xs calls result = (s' : Io S) × (result ≡ some (exited, s')) × Rounded xs calls exited s'.1

module _ (S : System) (doc : Documented S) where
  end_children-Exits :
      (xs ys : List ℕ) (calls : List Call) (s : Io S)
      → Accounted xs calls ys s.1
      → Exits S xs calls (end_children S ys s)
  unfolding end_children
  end_children-Exits xs ys calls s a =
      let (s', eq, later, ended) = kill_children-Ended S doc ys s in
      (s', rw eq, (ys, s.1, a, later, ended))

  Exits→Ends :
      {xs : List ℕ} {calls : List Call} {r : Option (Outcome × Io S)}
      → Exits S xs calls r
      → Ends S xs calls r
  Exits→Ends (s', eq, r) = (exited, s', eq, r)

  look_around-Ends :
      (parent_pid : ℕ) (xs ys : List ℕ) (calls : List Call) (s : Io S)
      → Accounted xs calls ys s.1
      → Ends S xs calls (look_around S parent_pid ys s)
  unfolding look_around
  look_around-Ends parent_pid xs ys calls s a =
      let (left, s1) = drop_stopped S ys s in
      let (running, s2) = pid_is_running S parent_pid s1 in
      let all =
        asked-after (Accounted-trans a (Looked→Accounted (drop_stopped-Looked S ys s)))
          (pid_is_running-OnlyAsks S parent_pid s1) (pid_is_running-calls S parent_pid s1).0 in
      elim (Bool-cases running) [
        | inl e ↦ (watching left, sleep_ms S poll_ms s2, rw e, all)
        | inr e ↦ rw e (Exits→Ends (end_children-Exits xs left calls s2 all))
      ]

  pub round-Ends :
      (fuel parent_pid : ℕ) (xs : List ℕ) (s : Io S)
      → doc.pending s.0 < fuel
      → Ends S xs s.1 (round S fuel parent_pid xs s)
  unfolding round
  round-Ends fuel parent_pid xs s h = elim (Bool-cases (S.signal_received s.0)) [
    | inl e ↦ rw e (Exits→Ends (end_children-Exits xs xs s.1 s (Accounted-self xs s.1)))
    | inr e ↦
        let (killed, ys, s', eq, a) = read_input-Accounted S doc fuel xs s h in
        elim (Bool-cases killed) [
          | inl k ↦ rw (e, eq, k) (Exits→Ends (end_children-Exits xs ys s.1 s' a))
          | inr k ↦ rw (e, eq, k) (look_around-Ends parent_pid xs ys s.1 s' a)
        ]
  ]

  -- After a signal the next round exits, and every child has been ended.
  pub round-Exits :
      (fuel parent_pid : ℕ) (xs : List ℕ) (s : Io S)
      → S.signal_received s.0 ≡ true
      → (s' : Io S) × (round S fuel parent_pid xs s ≡ some (exited, s')) × AllEnded xs s'.1
  unfolding round end_children
  round-Exits fuel parent_pid xs s h =
      let (s', eq, later, ended) = kill_children-Ended S doc xs s in (s', rw (h, eq), ended)

  pid_is_running-gone :
      (pid : ℕ) (s : Io S) → (S.kill pid 0 s.0).0 ≡ esrch → (pid_is_running S pid s).0 ≡ false
  unfolding pid_is_running kill
  pid_is_running-gone pid s h = rw (h, pid_is_running)

  look_around-Exits :
      (parent_pid : ℕ) (xs ys : List ℕ) (calls : List Call) (s : Io S)
      → ((w : S.World) → (S.kill parent_pid 0 w).0 ≡ esrch)
      → Accounted xs calls ys s.1
      → Exits S xs calls (look_around S parent_pid ys s)
  unfolding look_around
  look_around-Exits parent_pid xs ys calls s gone a =
      let (left, s1) = drop_stopped S ys s in
      let (running, s2) = pid_is_running S parent_pid s1 in
      let all =
        asked-after (Accounted-trans a (Looked→Accounted (drop_stopped-Looked S ys s)))
          (pid_is_running-OnlyAsks S parent_pid s1) (pid_is_running-calls S parent_pid s1).0 in
      rw (pid_is_running-gone parent_pid s1 (gone s1.0)) (end_children-Exits xs left calls s2 all)

  -- When the parent is gone the next round exits, whatever it reads, and the children that are left
  -- have been ended.
  pub orphan-Exits :
      (fuel parent_pid : ℕ) (xs : List ℕ) (s : Io S)
      → doc.pending s.0 < fuel
      → ((w : S.World) → (S.kill parent_pid 0 w).0 ≡ esrch)
      → Exits S xs s.1 (round S fuel parent_pid xs s)
  unfolding round
  orphan-Exits fuel parent_pid xs s h gone = elim (Bool-cases (S.signal_received s.0)) [
    | inl e ↦ rw e (end_children-Exits xs xs s.1 s (Accounted-self xs s.1))
    | inr e ↦
        let (killed, ys, s', eq, a) = read_input-Accounted S doc fuel xs s h in
        elim (Bool-cases killed) [
          | inl k ↦ rw (e, eq, k) (end_children-Exits xs ys s.1 s' a)
          | inr k ↦ rw (e, eq, k) (look_around-Exits parent_pid xs ys s.1 s' gone a)
        ]
  ]

  -- The states of the main loop. It starts with no child; `next` is a round that goes on.
  pub data Reached (parent_pid : ℕ) : List ℕ → Io S → Type 0 where
    start : (w : S.World) → Reached parent_pid [] (w, [])
    next :
        {xs ys : List ℕ} {s s' : Io S} (fuel : ℕ)
        → Reached parent_pid xs s
        → doc.pending s.0 < fuel
        → round S fuel parent_pid xs s ≡ some (watching ys, s')
        → Reached parent_pid ys s'

  -- In the main loop the children are always valid, and each is one that it was asked to watch.
  pub Reached-IsValid :
      (parent_pid : ℕ) (xs : List ℕ) (s : Io S)
      → Reached parent_pid xs s
      → IsValid xs × ((c : ℕ) → In c xs → Asked c s.1)
  Reached-IsValid parent_pid [] _ (start w) =
      (record { distinct = tt; positive = tt; fits = omega arith }, λ c h. elim h [ ])
  Reached-IsValid parent_pid ys s' (next {xs = xs} {s = s} fuel r h e) =
      let (valid, asked) = Reached-IsValid parent_pid xs s r in
      let (out, s'', eq, rounded) = round-Ends fuel parent_pid xs s h in
      let same : (out, s'') ≡ (watching ys, s') = some_inj (sym eq ∙ e) in
      let a : Accounted xs s.1 ys s'.1 =
        subst (λ (o : Outcome × Io S). Rounded xs s.1 o.0 o.1.1) same rounded in
      (
        a.valid valid,
        λ c p. elim (a.known c p) [ inl q ↦ a.later (extracted (pos c)) (asked c q) | inr q ↦ q ],
      )
