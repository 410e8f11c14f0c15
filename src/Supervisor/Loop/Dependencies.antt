-- ===== src/Supervisor/Loop/Dependencies.antt =====
-- The order of start-up: a process waits for those it depends on.
use gopm.Base.{◌≡◌, ◌⊎◌, Option, some, Bool, false, List, [], ◌∷◌, Str}
use gopm.Supervisor.Process.{ManagedProcess, Status, online, ready}
use gopm.Supervisor.Loop.{Task, Event, poll, waiting_deps, deps_ready}

-- A round over the dependencies that finds each of them online or ready.
abbrev finds_up : List Str → Event → Bool
finds_up deps (poll view) = deps_ready view deps
finds_up deps _ = false

-- Each of the names is online or ready.
abbrev pub AllUp : (Str → Option Status) → List Str → Type 0
AllUp view [] = Unit
AllUp view (dep ∷ deps) = ((view dep ≡ some online) ⊎ (view dep ≡ some ready)) × AllUp view deps

-- One of the events is a round over the names at which each of them is online or ready.
abbrev pub SeenUp : List Str → List Event → Type 0
SeenUp deps [] = ⊥
SeenUp deps (poll view ∷ es) = AllUp view deps ⊎ SeenUp deps es
SeenUp deps (_ ∷ es) = SeenUp deps es

abbrev waiting : ManagedProcess → Task
waiting mp = record { mp = mp; phase = waiting_deps }
