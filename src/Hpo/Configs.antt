-- ===== src/Hpo/Configs.antt =====
-- The set of configurations that a search evaluates (build_config_set in scripts/hpo.py).
use tig_swarm_demo.Prelude.{
  ℕ, zero, suc, ◌+◌, ◌≤◌, ◌<◌, ◌≡◌, refl, ap, inl, inr, false, ◌||◌, Option, List, [], ◌∷◌, ◌++◌,
  max, arith, ◌==◌, ltb, leb, ltb→lt, Bool-cases, Option-cases, length, length-append, take,
}
use tig_swarm_demo.Hpo.{is_seen, add_config, add_suggested, add_random, build_config_set}

module _ (key : ℕ → ℕ) where
  -- No two configurations have one key.
  abbrev pub IsDistinct : List ℕ → Type 0
  IsDistinct [] = Unit
  IsDistinct (c ∷ configs) = (is_seen key configs c ≡ false) × IsDistinct configs

  seen-append :
      (configs : List ℕ) (x c : ℕ)
      → is_seen key (configs ++ x ∷ []) c ≡ (is_seen key configs c || key x == key c)
  unfolding is_seen
  seen-append [] x c = ground arith
  seen-append (d ∷ configs) x c = ground (arith, seen-append configs x c)

  append-IsDistinct :
      (configs : List ℕ) (x : ℕ)
      → IsDistinct configs
      → is_seen key configs x ≡ false
      → IsDistinct (configs ++ x ∷ [])
  unfolding is_seen
  append-IsDistinct [] x h new = (refl, tt)
  append-IsDistinct (c ∷ configs) x h new = (
    ground (arith, h.0, new, seen-append configs x c),
    append-IsDistinct configs x h.1 (ground (arith, new)),
  )

  -- The empty configuration first, no two with one key, and at most n, or one.
  pub record IsConfigSet (n : ℕ) (configs : List ℕ) : Type 0 where
    pub rest : List ℕ
    pub first : configs ≡ 0 ∷ rest
    pub distinct : IsDistinct configs
    pub few : length configs ≤ max n 1

  add-IsConfigSet :
      (n : ℕ) (configs : List ℕ) (cfg : ℕ)
      → length configs < n
      → IsConfigSet n configs
      → IsConfigSet n (add_config key configs cfg)
  unfolding add_config
  add-IsConfigSet n configs cfg room h = elim (Bool-cases (is_seen key configs cfg)) [
    | inl old ↦ rw old h
    | inr new ↦ rw new (record {
      rest = h.rest ++ cfg ∷ [];
      first = ap (λ cs. cs ++ cfg ∷ []) h.first;
      distinct = append-IsDistinct configs cfg h.distinct new;
      few = omega (arith, length-append configs (cfg ∷ []), room);
    })
  ]

  suggested-IsConfigSet :
      (n : ℕ) (configs : List ℕ) (suggested : List ℕ)
      → IsConfigSet n configs
      → IsConfigSet n (add_suggested key n configs suggested)
  unfolding add_suggested
  suggested-IsConfigSet n configs [] h = h
  suggested-IsConfigSet n configs (cfg ∷ suggested) h = elim (Bool-cases (leb n (length configs))) [
    | inl full ↦ rw full h
    | inr room ↦ rw room (
        suggested-IsConfigSet n (add_config key configs cfg) suggested
          (add-IsConfigSet n configs cfg (ground (arith, room)) h))
  ]

  random-IsConfigSet :
      (n : ℕ) (draws : ℕ → Option ℕ) (left attempts : ℕ) (configs : List ℕ)
      → IsConfigSet n configs
      → IsConfigSet n (add_random key n draws left attempts configs)
  unfolding add_random
  random-IsConfigSet n draws zero attempts configs h = h
  random-IsConfigSet n draws (suc left) attempts configs h =
      elim (Bool-cases (ltb (length configs) n)) [
        | inr full ↦ rw full h
        | inl room ↦ (elim (Option-cases (draws attempts)) [
          | inl e ↦ rw (room, e) h
          | inr (cfg, e) ↦
              rw (room, e)
                (random-IsConfigSet n draws left (attempts + 1) _
                  (add-IsConfigSet n configs cfg (ltb→lt _ _ room) h))
        ])
      ]

  default-IsConfigSet : (n : ℕ) → IsConfigSet n (add_config key [] 0)
  unfolding add_config is_seen
  default-IsConfigSet n = record {
    rest = [];
    first = refl;
    distinct = (refl, tt);
    few = omega arith;
  }

  pub build-IsConfigSet :
      (n num_suggested : ℕ) (suggested : List ℕ) (draws : ℕ → Option ℕ)
      → IsConfigSet n (build_config_set key n num_suggested suggested draws)
  unfolding build_config_set
  build-IsConfigSet n num_suggested suggested draws =
      random-IsConfigSet n draws _ 0 _
        (suggested-IsConfigSet n _ (take num_suggested suggested) (default-IsConfigSet n))
