-- ===== src/SlotPool/Tests.antt =====
-- Runs of a pool with one slot.
use tig_swarm_demo.Prelude.{
  ℕ, ◌<◌, ◌≡◌, refl, Bool, true, false, some, [], ◌∷◌, arith, select, delete, none,
}
use tig_swarm_demo.SlotPool.Slots.{
  Slots, no_slots, pool_size, has_ticket, reap, claim_ticket, try_grant, release,
}
use tig_swarm_demo.SlotPool.Steps.{
  Reachable, stay, then_step, claims, polls, leaves, dies_truncating,
}
use tig_swarm_demo.SlotPool.Cap.{IsSound, Reachable-IsSound}
use tig_swarm_demo.SlotPool.Grants.{free_slot_is_granted}
use tig_swarm_demo.SlotPool.Order.{grants_in_ticket_order}

abbrev all_alive : ℕ → Bool
all_alive pid = true

-- two processes have claimed a ticket
abbrev two_waiting : Slots
two_waiting = (claim_ticket (claim_ticket no_slots 11).1 12).1

two_waiting_reached : Reachable false 1 two_waiting
two_waiting_reached = then_step (then_step stay (claims 11)) (claims 12)

Reachable-IsSound_example : IsSound (pool_size 1) (try_grant all_alive 1 two_waiting 0).1
Reachable-IsSound_example = Reachable-IsSound (then_step two_waiting_reached (polls all_alive 0))

abbrev first_granted : Slots
first_granted = (try_grant all_alive 1 two_waiting 0).1

abbrev first_gone : Slots
first_gone = release first_granted 0 true

first_is_granted : (try_grant all_alive 1 two_waiting 0).0 ≡ true
unfolding try_grant claim_ticket has_ticket select delete
first_is_granted = refl

second_is_granted : (try_grant all_alive 1 first_gone 1).0 ≡ true
unfolding try_grant claim_ticket has_ticket select delete release
second_is_granted = refl

grants_in_ticket_order_example : 0 < 1
grants_in_ticket_order_example =
    grants_in_ticket_order {size = 1} {s = two_waiting} {u = first_gone} two_waiting_reached
      all_alive all_alive 0 1 first_is_granted (then_step stay (leaves 0 true)) second_is_granted

free_slot_is_granted_example :
    (ticket : ℕ) × (has_ticket ticket (reap all_alive two_waiting).queue ≡ true)
    × ((try_grant all_alive 1 two_waiting ticket).0 ≡ true)
unfolding claim_ticket has_ticket select delete reap
free_slot_is_granted_example =
    free_slot_is_granted all_alive 1 two_waiting (record { ticket = 0; pid = 11 })
      (record { ticket = 1; pid = 12 } ∷ []) (omega arith) refl

-- A death between the truncation and the write sets the counter back: the next claim gets the ticket 0 of
-- the active lease once more.
abbrev lost_counter : Slots
lost_counter = record first_granted { counter = none }

lost_counter_reached : Reachable true 1 lost_counter
lost_counter_reached =
    then_step (then_step (then_step (then_step stay (claims 11)) (claims 12)) (polls all_alive 0))
      (dies_truncating refl)

lost_counter_reuses_ticket :
    ((claim_ticket lost_counter 13).0 ≡ some 0) × (has_ticket 0 lost_counter.active ≡ true)
unfolding try_grant claim_ticket has_ticket select delete
lost_counter_reuses_ticket = (refl, refl)
