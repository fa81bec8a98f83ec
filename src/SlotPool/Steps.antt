-- ===== src/SlotPool/Steps.antt =====
-- The processes of a fleet on one pool directory: each operation holds the grant lock, or unlinks one
-- file, so every interleaving is a sequence of these steps. `alive` is what _pid_alive answers at one
-- poll, and differs from poll to poll. A process may die at any time, also within an operation; the lock
-- is then released, and the directory stays as the last system call left it.
use tig_swarm_demo.Prelude.{ℕ, ◌+◌, Bool, true, ◌≡◌, none, some}
use tig_swarm_demo.SlotPool.Slots.{
  Slots, no_slots, next_ticket, pool_size, claim_ticket, try_grant, release,
}

-- `truncating` says whether a process may die, or fail to write, between the truncation and the write of
-- the counter. A claim
-- by the pid 0 stands for a death before the pid is written, for _reap reads the empty file as a 0; a
-- death within _reap leaves the directory as some unlinks of single files do.
pub data Step (truncating : Bool) (size : ℕ) (s : Slots) : Slots → Type 0 where
  claims : (pid : ℕ) → Step truncating size s (claim_ticket s pid).1
  polls :
      (alive : ℕ → Bool) (ticket : ℕ)
      → Step truncating size s (try_grant alive (pool_size size) s ticket).1
  leaves : (ticket : ℕ) (granted : Bool) → Step truncating size s (release s ticket granted)
  dies_counted : Step truncating size s (record s { counter = some (next_ticket s + 1) })
  dies_truncating : truncating ≡ true → Step truncating size s (record s { counter = none })

-- any number of steps
pub data Steps (truncating : Bool) (size : ℕ) (s : Slots) : Slots → Type 0 where
  stay : Steps truncating size s s
  then_step :
      {t u : Slots}
      → Steps truncating size s t
      → Step truncating size t u
      → Steps truncating size s u

-- the states that a fresh directory gets into
abbrev pub Reachable : Bool → ℕ → Slots → Type 0
Reachable truncating size s = Steps truncating size no_slots s
