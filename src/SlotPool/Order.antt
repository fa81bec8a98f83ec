-- ===== src/SlotPool/Order.antt =====
-- First come, first served: grants follow the order of the tickets.
use tig_swarm_demo.Prelude.{
  ℕ, ◌<◌, ◌≡◌, sym, subst, Bool, true, false, not, [], ◌∷◌, arith, ◌==◌, length, select, All-select,
  All-append, All-delete, Bool-cases, Option-cases, inl, inr, leb, select_sound,
}
use tig_swarm_demo.SlotPool.Slots.{
  Slots, pool_size, next_ticket, reap, claim_ticket, promote, try_grant, release, unlink,
  has_ticket, is_lowest,
}
use tig_swarm_demo.SlotPool.Steps.{
  claims, polls, leaves, dies_counted, dies_truncating, Steps, stay, then_step, Reachable,
}
use tig_swarm_demo.SlotPool.Lists.{AllBelow, AllAbove, AllAbove-delete, lowest-AtLeast}
use tig_swarm_demo.SlotPool.Grants.{granted_iff, granted-moved}
use tig_swarm_demo.SlotPool.Cap.{Reachable-IsSound}

-- Every ticket that waits, or is still to be claimed, comes after `ticket`.
record IsPast (ticket : ℕ) (s : Slots) : Type 0 where
  waiting : AllAbove ticket s.queue
  counted : ticket < next_ticket s

module _ (t : ℕ) where
  claim_ticket-IsPast : (s : Slots) (pid : ℕ) → IsPast t s → IsPast t (claim_ticket s pid).1
  unfolding claim_ticket
  claim_ticket-IsPast s pid v = elim (Bool-cases (has_ticket (next_ticket s) s.queue)) [
    | inl taken ↦ rw taken record { waiting = v.waiting; counted = omega (arith, v.counted) }
    | inr free ↦ rw free record {
      waiting =
          All-append (λ e. t < e.ticket) s.queue (record { ticket = next_ticket s; pid = pid } ∷ [])
            v.waiting (v.counted, tt);
      counted = omega (arith, v.counted);
    }
  ]

  reap-IsPast : (alive : ℕ → Bool) (s : Slots) → IsPast t s → IsPast t (reap alive s)
  unfolding reap
  reap-IsPast alive s v = record {
    waiting = All-delete (λ e. t < e.ticket) (λ e. not (alive e.pid)) s.queue v.waiting;
    counted = v.counted;
  }

  promote-IsPast : (s : Slots) (ticket : ℕ) → IsPast t s → IsPast t (promote s ticket).1
  unfolding promote unlink
  promote-IsPast s ticket v = elim (Option-cases (select (λ e. e.ticket == ticket) s.queue)) [
    | inl missing ↦ rw (promote, missing) v
    | inr (e, found) ↦
        rw (promote, found)
          record {
            waiting = All-delete (λ x. t < x.ticket) (λ x. x.ticket == ticket) s.queue v.waiting;
            counted = v.counted;
          }
  ]

  try_grant-IsPast :
      (alive : ℕ → Bool) (size : ℕ) (s : Slots) (ticket : ℕ)
      → IsPast t s
      → IsPast t (try_grant alive size s ticket).1
  unfolding try_grant
  try_grant-IsPast alive size s ticket v =
      let r = reap alive s in
      let after = reap-IsPast alive s v in
      elim (Bool-cases (leb size (length r.active))) [
        | inl full ↦ rw full after
        | inr room ↦ elim (Bool-cases (is_lowest ticket r.queue)) [
          | inl first ↦ rw (room, first) (promote-IsPast r ticket after)
          | inr later ↦ rw (room, later) after
        ]
      ]

  release-IsPast :
      (s : Slots) (ticket : ℕ) (granted : Bool) → IsPast t s → IsPast t (release s ticket granted)
  unfolding release unlink
  release-IsPast s ticket true v = record { waiting = v.waiting; counted = v.counted }
  release-IsPast s ticket false v = record {
    waiting = All-delete (λ e. t < e.ticket) (λ e. e.ticket == ticket) s.queue v.waiting;
    counted = v.counted;
  }

  Steps-IsPast : {size : ℕ} {s u : Slots} → Steps false size s u → IsPast t s → IsPast t u
  Steps-IsPast stay v = v
  Steps-IsPast (then_step before (claims pid)) v = claim_ticket-IsPast _ pid (Steps-IsPast before v)
  Steps-IsPast {size} (then_step before (polls alive ticket)) v =
      try_grant-IsPast alive (pool_size size) _ ticket (Steps-IsPast before v)
  Steps-IsPast (then_step before (leaves ticket granted)) v =
      release-IsPast _ ticket granted (Steps-IsPast before v)
  Steps-IsPast (then_step before dies_counted) v =
      let w = Steps-IsPast before v in
      record { waiting = w.waiting; counted = omega (arith, w.counted) }
  Steps-IsPast (then_step before (dies_truncating e)) v = absurd (cc e)

module _ (alive : ℕ → Bool) (size : ℕ) (s : Slots) (ticket : ℕ) where
  granted-IsPast :
      AllBelow (next_ticket s) s.queue
      → (try_grant alive size s ticket).0 ≡ true
      → IsPast ticket (try_grant alive size s ticket).1
  unfolding reap unlink
  granted-IsPast below h =
      let (e, found, moved, same) = granted-moved alive size s ticket h in
      let first =
        lowest-AtLeast (reap alive s).queue ticket ((granted_iff alive size s ticket).0 h).1 in
      let hit = select_sound (λ x. x.ticket == ticket) (reap alive s).queue found in
      let low =
        All-select (λ x. x.ticket < next_ticket s) (λ x. x.ticket == ticket) (reap alive s).queue
          (All-delete (λ x. x.ticket < next_ticket s) (λ x. not (alive x.pid)) s.queue below)
          found in
      record {
        waiting =
            subst (AllAbove ticket) (sym moved) (AllAbove-delete ticket (reap alive s).queue first);
        counted = ground (arith, low, hit, same);
      }

  granted-above : {t : ℕ} → IsPast t s → (try_grant alive size s ticket).0 ≡ true → t < ticket
  granted-above {t} v h =
      let (e, found, _, _) = granted-moved alive size s ticket h in
      let hit = select_sound (λ x. x.ticket == ticket) (reap alive s).queue found in
      let past =
        All-select (λ x. t < x.ticket) (λ x. x.ticket == ticket) (reap alive s).queue
          (reap-IsPast t alive s v).waiting found in
      ground (arith, past, hit)

-- Slots are granted in the order of the tickets: after a grant in a reachable state, any later grant,
-- whatever the processes do in between and whichever of them die, is of a later ticket, provided that
-- no process, at any time, dies or fails between the truncation and the write of the counter file.
pub grants_in_ticket_order :
    {size : ℕ} {s u : Slots}
    → Reachable false size s
    → (alive alive' : ℕ → Bool) (first next : ℕ)
    → (try_grant alive (pool_size size) s first).0 ≡ true
    → Steps false size (try_grant alive (pool_size size) s first).1 u
    → (try_grant alive' (pool_size size) u next).0 ≡ true
    → first < next
grants_in_ticket_order {size} {s} {u} reached alive alive' first next granted between again =
    granted-above alive' (pool_size size) u next
      (Steps-IsPast first between
        (granted-IsPast alive (pool_size size) s first (Reachable-IsSound reached).waiting granted))
      again
