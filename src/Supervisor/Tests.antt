-- ===== src/Supervisor/Tests.antt =====
-- A small system, in which the supervisor watches the processes 5 and 7.
use processx.Base.{
  ℕ, ◌+◌, ◌-◌, ◌*◌, ◌/◌, ◌≤◌, ◌<◌, ◌≡◌, refl, Bool, true, false, Option, none, some, List, [], ◌∷◌,
  arith, ◌==◌, if◌then◌else◌, length, In, ℤ, pos, negsuc, neg,
}
use processx.Process.Types.{KillOutcome, sent, esrch}
use processx.Supervisor.Types.{System, Documented, Io, called, extracted}
use processx.Supervisor.Array.{IsValid}
use processx.Supervisor.Input.Accounted.{Asked}
use processx.Supervisor.Round.{watching, round}
use processx.Supervisor.Round.Laws.{Exits, start, next, orphan-Exits, Reached-IsValid}

-- The time, the lines to read, the processes that run, and whether a signal has come.
record Machine : Type 0 where
  ms : ℕ
  input : List (List ℕ)
  alive : List ℕ
  stale : Bool
  signalled : Bool

abbrev lives : ℕ → List ℕ → Bool
lives pid [] = false
lives pid (x ∷ xs) = if x == pid then true else lives pid xs

abbrev without : ℕ → List ℕ → List ℕ
without pid [] = []
without pid (x ∷ xs) = if x == pid then without pid xs else x ∷ without pid xs

-- SIGKILL ends a process, and no other signal does. There is no process 99.
abbrev machine_kill : ℕ → ℕ → Machine → KillOutcome × Machine
machine_kill pid signal m =
    if pid == 99
    then (esrch, m)
    else if lives pid m.alive
    then (sent, if signal == 9 then record m { alive = without pid m.alive } else m)
    else (esrch, m)

abbrev digits : ℕ → List ℕ → ℕ
digits acc [] = acc
digits acc (c ∷ cs) = if c == 10 then acc else digits (acc * 10 + (c - 48)) cs

abbrev number : List ℕ → ℤ
number [] = pos 0
number (c ∷ cs) = if c == 45 then neg (digits 0 cs) else pos (digits 0 (c ∷ cs))

abbrev machine_fgets : Machine → Option (List ℕ) × Machine
machine_fgets m = elim m.input [ [] ↦ (none, m) | l ∷ ls ↦ (some l, record m { input = ls }) ]

abbrev machine : System
machine = record {
  World = Machine;
  kill = machine_kill;
  sleep_ms = λ n m. record m { ms = m.ms + n };
  time = λ m. (m.ms / 1000, m);
  fgets = λ n m. machine_fgets m;
  strtol = λ l m. (number l, m);
  is_erange = λ m. m.stale;
  signal_received = λ m. m.signalled;
}

ms-kill : (pid signal : ℕ) (m : Machine) → m.ms ≤ (machine_kill pid signal m).1.ms
ms-kill pid signal m = ground arith

input-fgets :
    (l : List ℕ) (m : Machine)
    → (machine_fgets m).0 ≡ some l
    → length (machine_fgets m).1.input < length m.input
input-fgets l m h = ground arith

abbrev machine_documented : Documented machine
machine_documented = record {
  clock = λ m. m.ms;
  clock-time = λ m. (refl, omega arith);
  clock-sleep = λ n m. omega arith;
  clock-kill = ms-kill;
  pending = λ m. length m.input;
  pending-fgets = λ n l m h. input-fgets l m h;
  pending-strtol = λ l m. omega arith;
}

-- "5\n", "7\n" and "-5\n" are there to read.
abbrev initial : Machine
initial = record {
  ms = 0;
  input = (53 ∷ 10 ∷ []) ∷ (55 ∷ 10 ∷ []) ∷ (45 ∷ 53 ∷ 10 ∷ []) ∷ [];
  alive = 1 ∷ 5 ∷ 7 ∷ [];
  stale = false;
  signalled = false;
}

abbrev interrupted : Machine
interrupted = record initial { signalled = true }

-- After the first round
abbrev later : Io machine
later = (
  record initial { ms = 200; input = [] },
  called 1 0 sent
      ∷ called 7 0 sent
      ∷ extracted (negsuc 4)
      ∷ extracted (pos 7)
      ∷ extracted (pos 5)
      ∷ [],
)

orphan-Exits_example : Exits machine (5 ∷ []) [] (round machine 4 99 (5 ∷ []) (initial, []))
orphan-Exits_example =
    orphan-Exits machine machine_documented 4 99 (5 ∷ []) (initial, []) (omega arith) (λ m. refl)

first_round : round machine 4 1 [] (initial, []) ≡ some (watching (7 ∷ []), later)
unfolding round
first_round = refl

Reached-IsValid_example : IsValid (7 ∷ []) × ((c : ℕ) → In c (7 ∷ []) → Asked c (later.1))
Reached-IsValid_example =
    Reached-IsValid machine machine_documented 1 (7 ∷ []) later
      (next 4 (start initial) (omega arith) first_round)
