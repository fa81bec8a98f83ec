-- ===== src/Iteration/Claiming.antt =====
-- claim_mainnet_measurement (server/db.py): two agents do not measure one baseline at a time.
use tig_swarm_demo.Prelude.{
  ℕ, ◌≤◌, ◌≡◌, refl, Bool, true, false, ◌&&◌, some, List, [], ◌∷◌, arith, ◌==◌, select, select_all,
  update, is_some, Bool-cases, inl, inr, length,
}
use tig_swarm_demo.Db.Rows.{measuring, Baseline, Db}
use tig_swarm_demo.Db.Baseline.{is_baseline, is_claimable, claim_mainnet_measurement}

-- the row that a claim leaves
abbrev claimed : ℕ → ℕ → Baseline → Baseline
claimed agent_id now_ts r = record r {
  status = measuring;
  measured_by = some agent_id;
  benchmarked_at = some now_ts;
}

abbrev claims_of : ℕ → ℕ → Baseline → Bool
claims_of challenge stale_before r = r.challenge == challenge && is_claimable stale_before r

module _ (challenge agent_id now_ts stale_before stale_before' : ℕ) where
  abbrev updated : List Baseline → List Baseline
  updated rows = update (claims_of challenge stale_before) (claimed agent_id now_ts) rows

  none_left :
      (rows : List Baseline)
      → length (select_all (is_baseline challenge) rows) ≡ 0
      → (is_some (select (claims_of challenge stale_before) rows) ≡ false)
        × (is_some (select (claims_of challenge stale_before') (updated rows)) ≡ false)
  unfolding select select_all update
  none_left [] h = (refl, refl)
  none_left (r ∷ rows) h = elim (Bool-cases (r.challenge == challenge)) [
    | inl same ↦ absurd (ground (arith, h, same))
    | inr other ↦ rw (other, other) (none_left rows (rw other at h))
  ]

  claimed-is_claimable :
      (r : Baseline)
      → stale_before' ≤ now_ts
      → is_claimable stale_before' (claimed agent_id now_ts r) ≡ false
  unfolding is_claimable
  claimed-is_claimable r h = ground arith

  claimed_once :
      (rows : List Baseline)
      → length (select_all (is_baseline challenge) rows) ≤ 1
      → stale_before' ≤ now_ts
      → is_some (select (claims_of challenge stale_before) rows) ≡ true
      → is_some (select (claims_of challenge stale_before') (updated rows)) ≡ false
  unfolding select select_all update
  claimed_once [] few fresh won = absurd (cc won)
  claimed_once (r ∷ rows) few fresh won = elim (Bool-cases (r.challenge == challenge)) [
    | inr other ↦ rw (other, other) (claimed_once rows (rw other at few) fresh (rw other at won))
    | inl same ↦
        let (nobody, nobody') = none_left rows (let k = rw same at few in omega (arith, k)) in
        elim (Bool-cases (is_claimable stale_before r)) [
          | inl can ↦ rw (same, can, same, claimed-is_claimable r fresh) nobody'
          | inr cannot ↦ absurd (cc (rw (same, cannot) at won, nobody))
        ]
  ]

-- After a successful claim, another claim of the same challenge fails until the first one is stale:
-- its stale limit has to be later than the time of the first claim. The table has at most one row for
-- the challenge, which is its primary key.
pub claim_is_exclusive :
    (db : Db) (challenge first second now_ts later_ts stale_before stale_before' : ℕ)
    → length (select_all (is_baseline challenge) db.mainnet_baselines) ≤ 1
    → (claim_mainnet_measurement db challenge first now_ts stale_before).1 ≡ true
    → stale_before' ≤ now_ts
    → (claim_mainnet_measurement
        (claim_mainnet_measurement db challenge first now_ts stale_before).0
        challenge
        second
        later_ts
        stale_before').1
      ≡ false
unfolding claim_mainnet_measurement
claim_is_exclusive db challenge first second now_ts later_ts stale_before stale_before' few won
      fresh =
    claimed_once challenge first now_ts stale_before stale_before' db.mainnet_baselines few fresh
      won
