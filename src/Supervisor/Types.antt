-- ===== src/Supervisor/Types.antt =====
-- What the supervisor uses of the system.
use processx.Base.{
  refl, ap, [], ◌++◌, inl, inr, ℕ, ◌+◌, ◌/◌, ◌≤◌, ◌<◌, ◌≡◌, Bool, true, false, Option, some, List,
  ◌∷◌, ℤ, In,
}
use processx.Process.Types.{KillOutcome, esrch}

-- A call of kill(2) with the process, the signal and the outcome, or one of `extract_pid` with the
-- number that it returned
pub data Call : Type 0 where
  called : ℕ → ℕ → KillOutcome → Call
  extracted : ℤ → Call

-- System calls and C library functions, over a state of the outside world, in which also errno, the
-- input and the flags of the signal handler are. `fgets` is `none` for a null pointer, and otherwise
-- the bytes before the zero; `strtol` reads a number in base 10; `time` is in seconds.
pub record System : Type 1 where
  pub World : Type 0
  pub kill : ℕ → ℕ → World → KillOutcome × World
  pub sleep_ms : ℕ → World → World
  pub time : World → ℕ × World
  pub fgets : ℕ → World → Option (List ℕ) × World
  pub strtol : List ℕ → World → ℤ × World
  pub is_erange : World → Bool
  pub signal_received : World → Bool

-- What the documentation promises of a clock in milliseconds, for sleeps that no signal interrupts,
-- and of an input in which `pending` bytes are left to read.
pub record Documented (S : System) : Type 0 where
  pub clock : S.World → ℕ
  pub clock-time : (w : S.World) → ((S.time w).0 ≡ clock w / 1000) × (clock w ≤ clock (S.time w).1)
  pub clock-sleep : (n : ℕ) (w : S.World) → clock w + n ≤ clock (S.sleep_ms n w)
  pub clock-kill : (p n : ℕ) (w : S.World) → clock w ≤ clock (S.kill p n w).1
  pub pending : S.World → ℕ
  pub pending-fgets :
      (n : ℕ) (l : List ℕ) (w : S.World)
      → (S.fgets n w).0 ≡ some l
      → pending (S.fgets n w).1 < pending w
  pub pending-strtol : (l : List ℕ) (w : S.World) → pending (S.strtol l w).1 ≤ pending w

module _ (S : System) where
  -- The world, and the calls so far, the last one first
  abbrev pub Io : Type 0
  Io = S.World × List Call

  unfoldable pub kill : ℕ → ℕ → Io → KillOutcome × Io
  kill pid signal (w, calls) =
      let (r, w') = S.kill pid signal w in (r, (w', called pid signal r ∷ calls))

  -- `sleep_ms`
  abbrev pub sleep_ms : ℕ → Io → Io
  sleep_ms n (w, calls) = (S.sleep_ms n w, calls)

  abbrev pub time : Io → ℕ × Io
  time (w, calls) = let (t, w') = S.time w in (t, (w', calls))

  -- `pid_is_running`
  unfoldable pub pid_is_running : ℕ → Io → Bool × Io
  unfolding kill
  pid_is_running pid s = let (r, s') = kill pid 0 s in (elim r [ esrch ↦ false | _ ↦ true ], s')

-- The process has been asked for by signal 0, and was gone.
abbrev pub FoundStopped : ℕ → List Call → Type 0
FoundStopped pid calls = In (called pid 0 esrch) calls

-- The signal has been sent to the process, whatever came of it.
abbrev pub Signalled : ℕ → ℕ → List Call → Type 0
Signalled pid signal calls = (r : KillOutcome) × In (called pid signal r) calls

-- `calls'` has the calls of `calls`, and later ones.
abbrev pub Later : List Call → List Call → Type 0
Later calls calls' = (c : Call) → In c calls → In c calls'

-- The later calls only ask whether processes run: they are all kill(2) with signal 0.
pub data OnlyAsks (calls : List Call) : List Call → Type 0 where
  no_call : OnlyAsks calls calls
  one_more :
      {calls' : List Call} (pid : ℕ) (r : KillOutcome)
      → OnlyAsks calls calls'
      → OnlyAsks calls (called pid 0 r ∷ calls')

pub OnlyAsks-trans :
    {calls calls' calls'' : List Call}
    → OnlyAsks calls calls'
    → OnlyAsks calls' calls''
    → OnlyAsks calls calls''
OnlyAsks-trans a no_call = a
OnlyAsks-trans a (one_more pid r b) = one_more pid r (OnlyAsks-trans a b)

-- So they are calls in front of the others, and no pid is among them.
pub OnlyAsks-news :
    {calls calls' : List Call}
    → OnlyAsks calls calls'
    → (news : List Call) × (calls' ≡ news ++ calls) × ((z : ℤ) → In (extracted z) news → ⊥)
OnlyAsks-news no_call = ([], refl, λ z h. elim h [ ])
OnlyAsks-news (one_more pid r a) =
    let (news, e, none_in) = OnlyAsks-news a in
    (
      called pid 0 r ∷ news,
      ap (λ (l : List Call). called pid 0 r ∷ l) e,
      λ z h. elim h [ inl q ↦ absurd cc | inr t ↦ none_in z t ],
    )
