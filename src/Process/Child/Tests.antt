-- ===== src/Process/Child/Tests.antt =====
-- A child whose standard output and error are exchanged.
use processx.Base.{
  ◌+◌, ◌≡◌, refl, true, false, Option, none, some, List, [], ◌∷◌, Result, ok, ltb, ◌==◌,
  if◌then◌else◌,
}
use processx.Process.Child.{Stdio, Died, child_fds}
use processx.Process.Child.Table.{Slot}
use processx.Process.Child.Failure.{Failure}
use processx.Process.Child.Pipes.{Target, text, connection}
use processx.Process.Child.Sample.{Fds, slot, first_free, fds}

-- The descriptors 0, 1, 2, 3, 4 and 6 are open, with the files 10 to 16.
abbrev parent : Fds
parent k = if ltb 6 k then none else if k == 5 then none else some (k + 10, true)

-- A pipe for the input; the output goes to 2 and the error to 1.
abbrev exchanged : List Stdio
exchanged =
    record { parent_end = some 4; child_end = some 3; output = some (b'|' ∷ []) }
    ∷ record { parent_end = none; child_end = some 2; output = none }
    ∷ record { parent_end = none; child_end = some 1; output = none }
    ∷ []

abbrev standard : Result Died (Option Fds) → List Slot
standard (ok (some w)) = slot w 0 ∷ slot w 1 ∷ slot w 2 ∷ slot w 3 ∷ slot w 6 ∷ []
standard _ = []

-- Output and error are exchanged.
exchanged_files :
    standard (child_fds fds 401 0 3 exchanged 6 parent)
    ≡ some (13, false) ∷ some (12, false) ∷ some (11, false) ∷ none ∷ some (16, true) ∷ []
unfolding child_fds first_free
exchanged_files = refl

-- A pipe for the input; the output goes to 2, and the error to 1.
abbrev targets : List Target
targets = text (b'|' ∷ []) ∷ connection 2 ∷ connection 1 ∷ []

abbrev piped : List Stdio
piped =
    record { parent_end = some 5; child_end = some 7; output = some (b'|' ∷ []) }
    ∷ record { parent_end = none; child_end = some 2; output = none }
    ∷ record { parent_end = none; child_end = some 1; output = none }
    ∷ []
