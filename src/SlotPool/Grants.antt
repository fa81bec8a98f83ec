-- ===== src/SlotPool/Grants.antt =====
-- What a poll grants.
use tig_swarm_demo.Prelude.{
  ℕ, ◌<◌, ◌≡◌, refl, Bool, true, false, some, List, [], ◌∷◌, arith, ◌==◌, length, select,
  Bool-cases, Option-cases, inl, inr, leb, is_some, ◌↔◌, ◌∙◌, ap, eqb_refl,
}
use tig_swarm_demo.SlotPool.Slots.{
  Entry, Slots, next_ticket, reap, promote, try_grant, unlink, has_ticket, is_lowest, lowest,
}

-- The lowest ticket is in the queue, so os.replace finds its file.
lowest-found :
    (entries : List Entry) (m : ℕ)
    → lowest entries ≡ some m
    → is_some (select (λ e. e.ticket == m) entries) ≡ true
unfolding lowest select
lowest-found [] m h = absurd (cc h)
lowest-found (e ∷ entries) m h = elim (Option-cases (lowest entries)) [
  | inl nothing ↦ ground (arith, nothing, h)
  | inr (low, found) ↦ ground (arith, found, h, lowest-found entries low found)
]

is_lowest_sound :
    (ticket : ℕ) (entries : List Entry)
    → is_lowest ticket entries ≡ true
    → lowest entries ≡ some ticket
unfolding is_lowest
is_lowest_sound ticket entries h = elim (Option-cases (lowest entries)) [
  | inl nothing ↦ absurd (cc (rw (is_lowest, nothing) at h))
  | inr (m, found) ↦ found ∙ ap some (ground (arith, rw (is_lowest, found) at h))
]

is_lowest_complete :
    (ticket : ℕ) (entries : List Entry)
    → lowest entries ≡ some ticket
    → is_lowest ticket entries ≡ true
unfolding is_lowest
is_lowest_complete ticket entries h = rw (is_lowest, h) (eqb_refl ticket)

module _ (alive : ℕ → Bool) (size : ℕ) (s : Slots) (ticket : ℕ) where
  -- A poll grants the slot exactly if, with the files of dead processes removed, an active slot is
  -- free and the ticket is the lowest one that waits.
  pub granted_iff :
      (try_grant alive size s ticket).0 ≡ true
      ↔ (length (reap alive s).active < size) × (lowest (reap alive s).queue ≡ some ticket)
  unfolding try_grant promote
  granted_iff =
      let r = reap alive s in
      elim (Bool-cases (leb size (length r.active))) [
        | inl full ↦ rw full (λ never. absurd (cc never), λ both. ground (arith, both.0, full))
        | inr room ↦ elim (Bool-cases (is_lowest ticket r.queue)) [
          | inr later ↦
              rw (room, later)
                (
                  λ never. absurd (cc never),
                  λ both. absurd (cc (is_lowest_complete ticket r.queue both.1, later)),
                )
          | inl first ↦
              let is = is_lowest_sound ticket r.queue first in
              elim (Option-cases (select (λ e. e.ticket == ticket) r.queue)) [
                | inl missing ↦ absurd (cc (ap is_some missing, lowest-found r.queue ticket is))
                | inr (e, found) ↦
                    rw (room, first, promote, found)
                      (λ granted. (ground (arith, room), is), λ both. refl)
              ]
        ]
      ]

module _ (alive : ℕ → Bool) (size : ℕ) (s : Slots) (ticket : ℕ) where
  -- A granted ticket was waiting, and the poll took it from the queue.
  pub granted-moved :
      (try_grant alive size s ticket).0 ≡ true
      → (e : Entry) × (select (λ x. x.ticket == ticket) (reap alive s).queue ≡ some e)
        × ((try_grant alive size s ticket).1.queue ≡ unlink ticket (reap alive s).queue)
        × (next_ticket (try_grant alive size s ticket).1 ≡ next_ticket s)
  unfolding try_grant promote reap
  granted-moved h =
      let r = reap alive s in
      let (room, is) = (granted_iff alive size s ticket).0 h in
      elim (Option-cases (select (λ e. e.ticket == ticket) r.queue)) [
        | inl missing ↦ absurd (cc (ap is_some missing, lowest-found r.queue ticket is))
        | inr (e, found) ↦
            let roomy : leb size (length r.active) ≡ false = ground (arith, room) in
            (
              e,
              found,
              rw (roomy, is_lowest_complete ticket r.queue is, promote, found) refl,
              rw (roomy, is_lowest_complete ticket r.queue is, promote, found) refl,
            )
      ]

lowest-some : (e : Entry) (entries : List Entry) → (m : ℕ) × (lowest (e ∷ entries) ≡ some m)
unfolding lowest
lowest-some e entries = (_, refl)

-- No slot stays free while a live process waits: if fewer than `size` leases and some ticket are left
-- once the files of dead processes are removed, the poll for one of the waiting tickets is granted.
pub free_slot_is_granted :
    (alive : ℕ → Bool) (size : ℕ) (s : Slots) (e : Entry) (waiting : List Entry)
    → length (reap alive s).active < size
    → (reap alive s).queue ≡ e ∷ waiting
    → (ticket : ℕ) × (has_ticket ticket (reap alive s).queue ≡ true)
      × ((try_grant alive size s ticket).0 ≡ true)
unfolding has_ticket
free_slot_is_granted alive size s e waiting room queued =
    let (m, low) = lowest-some e waiting in
    let is = ap lowest queued ∙ low in
    (m, lowest-found (reap alive s).queue m is, (granted_iff alive size s m).1 (room, is))
