-- ===== src/Supervisor.antt =====
-- runner/supervisor.py: the registry of running fleets. A FleetHandle is a number, and a child process
-- lives while its handle is among the live ones; ProcessLauncher.start either raises or gives a new
-- handle, which the operation is told. Each operation is one call; calls do not overlap.
use tig_swarm_demo.Prelude.{
  ℕ, ◌+◌, Bool, true, false, not, ◌&&◌, ◌||◌, Option, none, some, List, [], ◌∷◌, ◌++◌, ◌==◌,
  if◌then◌else◌, is_some,
}
pub mod Registry
pub mod Refinement
pub mod Steps
mod Tests

-- Supervisor._fleets, the next handle, and the handles whose process runs
pub record Supervisor : Type 0 where
  pub fleets : List (ℕ × ℕ)
  pub next : ℕ
  pub live : List ℕ

-- self._fleets.get(username)
unfoldable pub find_fleet : ℕ → List (ℕ × ℕ) → Option ℕ
find_fleet username [] = none
find_fleet username ((u, h) ∷ fleets) = if u == username then some h else find_fleet username fleets

-- self._fleets.pop(username, None), what is left of the map
unfoldable pub pop_fleet : ℕ → List (ℕ × ℕ) → List (ℕ × ℕ)
pop_fleet username [] = []
pop_fleet username ((u, h) ∷ fleets) =
    let rest = pop_fleet username fleets in if u == username then rest else (u, h) ∷ rest

-- FleetHandle.running
unfoldable pub is_live : List ℕ → ℕ → Bool
is_live [] h = false
is_live (g ∷ live) h = g == h || is_live live h

-- ProcessLauncher.stop: terminate, or else kill
unfoldable pub kill : List ℕ → ℕ → List ℕ
kill [] h = []
kill (g ∷ live) h = let rest = kill live h in if g == h then rest else g ∷ rest

abbrev pub stop_existing : List ℕ → Option ℕ → List ℕ
stop_existing live none = live
stop_existing live (some h) = kill live h

-- what a caller sees
pub data Answer : Type 0 where
  done raised : Answer
  said : Bool → Answer
  listed : List ℕ → Answer

-- Supervisor.start; the flag says whether the launcher succeeds
unfoldable pub start_fleet : Supervisor → ℕ → Bool → Answer × Supervisor
unfolding find_fleet pop_fleet kill
start_fleet s username launches =
    let popped = pop_fleet username s.fleets in
    let live = stop_existing s.live (find_fleet username s.fleets) in
    if launches
    then (
      done,
      record {
        fleets = popped ++ (username, s.next) ∷ [];
        next = s.next + 1;
        live = s.next ∷ live;
      },
    )
    else (raised, record s { fleets = popped; live = live })

-- Supervisor.stop
unfoldable pub stop_fleet : Supervisor → ℕ → Answer × Supervisor
unfolding find_fleet pop_fleet kill
stop_fleet s username = elim (find_fleet username s.fleets) [
  | none ↦ (said false, s)
  | some h ↦ (said true, record s { fleets = pop_fleet username s.fleets; live = kill s.live h })
]

-- Supervisor.is_running
unfoldable pub is_running : Supervisor → ℕ → Bool
unfolding find_fleet is_live
is_running s username = elim (find_fleet username s.fleets) [
  | none ↦ false
  | some h ↦ is_live s.live h
]

-- Supervisor.running_usernames
unfoldable pub running_in : List ℕ → List (ℕ × ℕ) → List ℕ
unfolding is_live
running_in live [] = []
running_in live ((u, h) ∷ fleets) =
    let rest = running_in live fleets in if is_live live h then u ∷ rest else rest

-- the loop of Supervisor.stop_all
unfoldable pub stop_handles : List ℕ → List (ℕ × ℕ) → List ℕ
unfolding kill
stop_handles live [] = live
stop_handles live ((u, h) ∷ fleets) = stop_handles (kill live h) fleets

-- the calls of a client, and the one thing that happens by itself: a fleet's process ends
pub data Op : Type 0 where
  start : ℕ → Bool → Op
  stop : ℕ → Op
  ask : ℕ → Op
  running_usernames : Op
  stop_all : Op
  exits : ℕ → Op

unfoldable pub step : Op → Supervisor → Answer × Supervisor
unfolding start_fleet stop_fleet is_running running_in stop_handles find_fleet kill
step (start username launches) s = start_fleet s username launches
step (stop username) s = stop_fleet s username
step (ask username) s = (said (is_running s username), s)
step running_usernames s = (listed (running_in s.live s.fleets), s)
step stop_all s = (done, record s { fleets = []; live = stop_handles s.live s.fleets })
step (exits username) s =
    (done, record s { live = stop_existing s.live (find_fleet username s.fleets) })
