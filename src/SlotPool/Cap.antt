-- ===== src/SlotPool/Cap.antt =====
-- The cap of the pool, and the freshness of its tickets.
use tig_swarm_demo.Prelude.{
  ℕ, ◌+◌, ◌≤◌, ◌<◌, ◌≡◌, refl, Bool, true, false, not, some, [], ◌∷◌, arith, ◌==◌, length,
  length-append, select, All-select, All-append, All-delete, Bool-cases, Option-cases, inl, inr,
  leb,
}
use tig_swarm_demo.SlotPool.Slots.{
  Slots, pool_size, next_ticket, reap, claim_ticket, promote, try_grant, release, unlink,
  has_ticket, is_lowest,
}
use tig_swarm_demo.SlotPool.Steps.{
  Step, claims, polls, leaves, dies_counted, dies_truncating, stay, then_step, Reachable,
}
use tig_swarm_demo.SlotPool.Lists.{length-delete, AllBelow, AllBelow-suc, has_ticket-AllBelow}

-- At most `size` slots are taken, and no ticket has reached the counter.
pub record IsSound (size : ℕ) (s : Slots) : Type 0 where
  pub capped : length s.active ≤ size
  pub waiting : AllBelow (next_ticket s) s.queue
  pub running : AllBelow (next_ticket s) s.active

module _ (size : ℕ) where
  claim_ticket-IsSound :
      (s : Slots) (pid : ℕ) → IsSound size s → IsSound size (claim_ticket s pid).1
  unfolding claim_ticket
  claim_ticket-IsSound s pid v =
      let n = next_ticket s in
      rw (has_ticket-AllBelow n s.queue v.waiting) record {
        capped = v.capped;
        waiting =
            All-append (λ e. e.ticket < n + 1) s.queue (record { ticket = n; pid = pid } ∷ [])
              (AllBelow-suc n s.queue v.waiting) (omega arith, tt);
        running = AllBelow-suc n s.active v.running;
      }

  reap-IsSound : (alive : ℕ → Bool) (s : Slots) → IsSound size s → IsSound size (reap alive s)
  unfolding reap
  reap-IsSound alive s v = record {
    capped = omega (arith, v.capped, length-delete (λ e. not (alive e.pid)) s.active);
    waiting = All-delete (λ e. e.ticket < next_ticket s) (λ e. not (alive e.pid)) s.queue v.waiting;
    running =
        All-delete (λ e. e.ticket < next_ticket s) (λ e. not (alive e.pid)) s.active v.running;
  }

  promote-IsSound :
      (s : Slots) (ticket : ℕ)
      → length s.active < size
      → IsSound size s
      → IsSound size (promote s ticket).1
  unfolding promote unlink
  promote-IsSound s ticket room v = elim (Option-cases (select (λ e. e.ticket == ticket) s.queue)) [
    | inl missing ↦ rw (promote, missing) v
    | inr (e, found) ↦
        let rest = length-delete (λ x. x.ticket == ticket) s.active in
        let one = length-append (unlink ticket s.active) (e ∷ []) in
        rw (promote, found)
          record {
            capped = omega (arith, room, rest, one);
            waiting =
                All-delete (λ x. x.ticket < next_ticket s) (λ x. x.ticket == ticket) s.queue
                  v.waiting;
            running =
                All-append (λ x. x.ticket < next_ticket s) (unlink ticket s.active) (e ∷ [])
                  (All-delete (λ x. x.ticket < next_ticket s) (λ x. x.ticket == ticket) s.active
                    v.running)
                  (
                    All-select (λ x. x.ticket < next_ticket s) (λ x. x.ticket == ticket) s.queue
                        v.waiting found,
                    tt,
                  );
          }
  ]

  try_grant-IsSound :
      (alive : ℕ → Bool) (s : Slots) (ticket : ℕ)
      → IsSound size s
      → IsSound size (try_grant alive size s ticket).1
  unfolding try_grant
  try_grant-IsSound alive s ticket v =
      let r = reap alive s in
      let after = reap-IsSound alive s v in
      elim (Bool-cases (leb size (length r.active))) [
        | inl full ↦ rw full after
        | inr room ↦ elim (Bool-cases (is_lowest ticket r.queue)) [
          | inl first ↦ rw (room, first) (promote-IsSound r ticket (ground (arith, room)) after)
          | inr later ↦ rw (room, later) after
        ]
      ]

  release-IsSound :
      (s : Slots) (ticket : ℕ) (granted : Bool)
      → IsSound size s
      → IsSound size (release s ticket granted)
  unfolding release unlink
  release-IsSound s ticket true v = record {
    capped = omega (arith, v.capped, length-delete (λ e. e.ticket == ticket) s.active);
    waiting = v.waiting;
    running =
        All-delete (λ e. e.ticket < next_ticket s) (λ e. e.ticket == ticket) s.active v.running;
  }
  release-IsSound s ticket false v = record {
    capped = v.capped;
    waiting =
        All-delete (λ e. e.ticket < next_ticket s) (λ e. e.ticket == ticket) s.queue v.waiting;
    running = v.running;
  }

counted-IsSound :
    (size : ℕ) (s : Slots)
    → IsSound size s
    → IsSound size (record s { counter = some (next_ticket s + 1) })
counted-IsSound size s v = record {
  capped = v.capped;
  waiting = AllBelow-suc (next_ticket s) s.queue v.waiting;
  running = AllBelow-suc (next_ticket s) s.active v.running;
}

Step-IsSound :
    {size : ℕ} {s t : Slots}
    → Step false size s t
    → IsSound (pool_size size) s
    → IsSound (pool_size size) t
Step-IsSound {size} {s} (claims pid) v = claim_ticket-IsSound (pool_size size) s pid v
Step-IsSound {size} {s} (polls alive ticket) v = try_grant-IsSound (pool_size size) alive s ticket v
Step-IsSound {size} {s} (leaves ticket granted) v =
    release-IsSound (pool_size size) s ticket granted v
Step-IsSound {size} {s} dies_counted v = counted-IsSound (pool_size size) s v
Step-IsSound (dies_truncating e) v = absurd (cc e)

-- Whatever the interleaving of the processes, and whichever of them die and when, at most `size` leases are
-- active at once (one where `size` is 0), and every ticket in the directory is below the counter, provided
-- that no process dies or fails between the truncation and the write of the counter file.
pub Reachable-IsSound : {size : ℕ} {s : Slots} → Reachable false size s → IsSound (pool_size size) s
Reachable-IsSound stay = record { capped = omega arith; waiting = tt; running = tt }
Reachable-IsSound (then_step before step) = Step-IsSound step (Reachable-IsSound before)

-- In every state that the processes reach without such a death, claiming a ticket succeeds; the ticket is new among the
-- waiting and the active ones, and the counter has passed it afterwards.
pub claim_always_fresh :
    {size : ℕ} {s : Slots}
    → Reachable false size s
    → (pid : ℕ)
    → (n : ℕ) × ((claim_ticket s pid).0 ≡ some n)
      × (has_ticket n s.queue ≡ false)
      × (has_ticket n s.active ≡ false)
      × (n < next_ticket (claim_ticket s pid).1)
unfolding claim_ticket
claim_always_fresh {size} {s} reached pid =
    let v = Reachable-IsSound reached in
    let free = has_ticket-AllBelow (next_ticket s) s.queue v.waiting in
    (
      next_ticket s,
      rw free refl,
      free,
      has_ticket-AllBelow (next_ticket s) s.active v.running,
      rw free (omega arith),
    )
