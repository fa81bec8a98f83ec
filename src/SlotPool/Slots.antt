-- ===== src/SlotPool/Slots.antt =====
-- C3SlotPool (scripts/c3_pool.py): the directories queue and active, the counter file, and the
-- operations that run under the grant lock.
use tig_swarm_demo.Prelude.{
  ℕ, ◌+◌, Bool, true, false, not, Option, none, some, List, [], ◌∷◌, ◌++◌, ◌==◌, leb, if◌then◌else◌,
  length, min, or_else, is_some, select, delete,
}

-- one file: its name is the ticket, its content the pid of the owner
pub record Entry : Type 0 where
  pub ticket : ℕ
  pub pid : ℕ

-- The shared directory. The counter is absent while its file is missing or no number.
pub record Slots : Type 0 where
  pub counter : Option ℕ
  pub queue : List Entry
  pub active : List Entry

-- `max(1, int(size))`
abbrev pub pool_size : ℕ → ℕ
pool_size size = if leb 1 size then size else 1

-- the freshly made directory
abbrev pub no_slots : Slots
no_slots = record { counter = none; queue = []; active = [] }

-- the number that _claim_ticket reads
abbrev pub next_ticket : Slots → ℕ
next_ticket s = or_else s.counter 0

-- os.unlink, with a missing file ignored
unfoldable pub unlink : ℕ → List Entry → List Entry
unlink ticket entries = delete (λ e. e.ticket == ticket) entries

unfoldable pub has_ticket : ℕ → List Entry → Bool
has_ticket ticket entries = is_some (select (λ e. e.ticket == ticket) entries)

-- _reap
unfoldable pub reap : (ℕ → Bool) → Slots → Slots
reap alive s = record s {
  queue = delete (λ e. not (alive e.pid)) s.queue;
  active = delete (λ e. not (alive e.pid)) s.active;
}

-- _claim_ticket; none where os.open with O_EXCL raises, which is after the counter is written
unfoldable pub claim_ticket : Slots → ℕ → Option ℕ × Slots
unfolding has_ticket
claim_ticket s pid =
    let n = next_ticket s in
    let counted = record s { counter = some (n + 1) } in
    if has_ticket n s.queue
    then (none, counted)
    else (some n, record counted { queue = s.queue ++ record { ticket = n; pid = pid } ∷ [] })

-- `min(queued)`
unfoldable pub lowest : List Entry → Option ℕ
lowest [] = none
lowest (e ∷ entries) = some (elim (lowest entries) [ none ↦ e.ticket | some m ↦ min e.ticket m ])

-- os.replace of the queued file; false where it raises
unfoldable pub promote : Slots → ℕ → Bool × Slots
unfolding unlink
promote s ticket = elim (select (λ e. e.ticket == ticket) s.queue) [
  | none ↦ (false, s)
  | some e ↦
      (true, record s { queue = unlink ticket s.queue; active = unlink ticket s.active ++ e ∷ [] })
]

-- `not (not queued or min(queued) != ticket)`
unfoldable pub is_lowest : ℕ → List Entry → Bool
unfolding lowest
is_lowest ticket entries = elim (lowest entries) [ none ↦ false | some m ↦ m == ticket ]

-- _try_grant, of a pool with `size` slots
unfoldable pub try_grant : (ℕ → Bool) → ℕ → Slots → ℕ → Bool × Slots
unfolding reap promote is_lowest
try_grant alive size s ticket =
    let r = reap alive s in
    if leb size (length r.active)
    then (false, r)
    else if is_lowest ticket r.queue
    then promote r ticket
    else (false, r)

-- the `finally` of lease: the held file is in active once granted, and else in queue
unfoldable pub release : Slots → ℕ → Bool → Slots
unfolding unlink
release s ticket granted =
    if granted
    then record s { active = unlink ticket s.active }
    else record s { queue = unlink ticket s.queue }
