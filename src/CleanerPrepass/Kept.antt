-- ===== src/CleanerPrepass/Kept.antt =====
-- Which files remove_unreachable_files (scripts/cleaner_prepass.py) keeps.
use tig_swarm_demo.Prelude.{
  ℕ, zero, suc, ◌+◌, ◌≡◌, ◌⊎◌, ◌↔◌, inl, inr, refl, sym, ap, ◌∙◌, subst, Bool, true, false, not,
  ◌&&◌, List, [], ◌∷◌, arith, IsIn, All, Bool-cases, is_some,
}
use tig_swarm_demo.SearchReplace.Text.{Text}
use tig_swarm_demo.SearchReplace.Apply.{FileMap, lookup}
use tig_swarm_demo.CleanerPrepass.{
  contains, candidates_from, rs_files, reach, pushes, reachable_files, keep_files, is_rs,
  remove_unreachable_files,
}
use tig_swarm_demo.CleanerPrepass.Closure.{
  contains_inv, push-All, IsChild, IsClosed, reach-IsClosed, weight_nil,
}

module _ (declared_mods : Text → List Text) (files : FileMap) where
  abbrev Child : Text → Text → Type 0
  Child n child = IsChild declared_mods files n child

  -- The files that the entry reaches: itself, if it is there, and every candidate file of a `mod`
  -- declaration in a file that it reaches.
  pub data Reachable (entry : Text) : Text → Type 0 where
    start : is_some (lookup entry files) ≡ true → Reachable entry entry
    declared : {n child : Text} → Reachable entry n → Child n child → Reachable entry child

  reach_sound :
      (entry : Text) (fuel : ℕ) (r frontier : List Text)
      → ((n : Text) → contains r n ≡ true → Reachable entry n)
      → All (Reachable entry) frontier
      → (n : Text) → contains (reach declared_mods files fuel r frontier) n ≡ true
      → Reachable entry n
  unfolding reach
  reach_sound entry zero r frontier h f = h
  reach_sound entry (suc fuel) r [] h f = h
  reach_sound entry (suc fuel) r (name ∷ frontier) h f = elim (Bool-cases (contains r name)) [
    | inl old ↦ rw (reach, old) (reach_sound entry fuel r frontier h f.1)
    | inr new ↦
        rw (reach, new)
          (reach_sound entry fuel (name ∷ r) _ (λ n i. grown n (contains_inv name n r i))
            (push-All (rs_files files) (name ∷ r) (Reachable entry)
              (candidates_from declared_mods files name) frontier f.1
              (λ c i file. declared f.0 (record { candidate = i; file = file }))))
  ]
    where
      grown : (n : Text) → (name ≡ n) ⊎ (contains r n ≡ true) → Reachable entry n
      grown n (inl same) = subst (Reachable entry) same f.0
      grown n (inr old) = h n old

  reach_complete :
      (entry : Text) (result : List Text)
      → IsClosed declared_mods files [] (entry ∷ []) result
      → (n : Text) → Reachable entry n
      → contains result n ≡ true
  reach_complete entry result k n (start e) = k.takes entry (inl refl)
  reach_complete entry result k n (declared {n = m} r c) =
      k.closed m n (reach_complete entry result k m r) c

  run_IsClosed :
      (entry : Text)
      → IsClosed declared_mods files []
          (entry ∷ [])
          (reach declared_mods files (pushes declared_mods files files + 2) [] (entry ∷ []))
  unfolding contains
  run_IsClosed entry =
      reach-IsClosed declared_mods files _ [] (entry ∷ [])
        (omega (arith, weight_nil declared_mods files files)) (λ n child i. absurd (cc (i)))

  -- no entry, nothing reached
  reachable_start : (entry n : Text) → Reachable entry n → is_some (lookup entry files) ≡ true
  reachable_start entry n (start e) = e
  reachable_start entry n (declared {n = m} r c) = reachable_start entry m r

  reachable_files_iff :
      (entry n : Text)
      → (contains (reachable_files declared_mods files entry) n ≡ true) ↔ Reachable entry n
  unfolding reachable_files contains
  reachable_files_iff entry n = elim (Bool-cases (is_some (lookup entry files))) [
    | inl e ↦ rw e (
      reach_sound entry _ [] (entry ∷ []) (λ m i. absurd (cc (i))) (start e, tt) n,
      reach_complete entry _ (run_IsClosed entry) n,
    )
    | inr e ↦ rw e (λ i. absurd (cc (i)), λ r. absurd (cc (e, reachable_start entry n r)))
  ]

-- the test under which a file is dropped
abbrev is_dropped : List Text → Text × Text → Bool
is_dropped reachable f = is_rs f.0 && not (contains reachable f.0)

in_kept :
    (reachable : List Text) (files : FileMap) (f : Text × Text)
    → IsIn f files
    → is_dropped reachable f ≡ false
    → IsIn f (keep_files reachable files)
unfolding keep_files
in_kept reachable [] f i kept = i
in_kept reachable ((n, code) ∷ files) f (inl e) kept =
    rw (ap (is_dropped reachable) (sym e) ∙ kept) (inl e)
in_kept reachable ((n, code) ∷ files) f (inr i) kept =
    elim (Bool-cases (is_dropped reachable (n, code))) [
      | inl gone ↦ rw gone (in_kept reachable files f i kept)
      | inr stays ↦ rw stays (inr (in_kept reachable files f i kept))
    ]

kept_in :
    (reachable : List Text) (files : FileMap) (f : Text × Text)
    → IsIn f (keep_files reachable files)
    → IsIn f files × (is_dropped reachable f ≡ false)
unfolding keep_files
kept_in reachable [] f i = absurd i
kept_in reachable ((n, code) ∷ files) f i = elim (Bool-cases (is_dropped reachable (n, code))) [
  | inl gone ↦ let (j, stays) = kept_in reachable files f (rw gone at i) in (inr j, stays)
  | inr stays ↦ head stays (kept_in reachable files f) (rw stays at i)
]
  where
    head :
        is_dropped reachable (n, code) ≡ false
        → (IsIn f (keep_files reachable files) → IsIn f files × (is_dropped reachable f ≡ false))
        → IsIn f ((n, code) ∷ keep_files reachable files)
        → IsIn f ((n, code) ∷ files) × (is_dropped reachable f ≡ false)
    head stays rest (inl e) = (inl e, ap (is_dropped reachable) e ∙ stays)
    head stays rest (inr j) = (inr (rest j).0, (rest j).1)

not_dropped : (rs reached : Bool) → (rs && not reached) ≡ false → (rs ≡ false) ⊎ (reached ≡ true)
not_dropped false reached h = inl refl
not_dropped true true h = inr refl
not_dropped true false h = absurd (cc (h))

is_kept : (rs reached : Bool) → (rs ≡ false) ⊎ (reached ≡ true) → (rs && not reached) ≡ false
is_kept rs reached (inl e) = rw e refl
is_kept true reached (inr e) = rw e refl
is_kept false reached (inr e) = refl

module _ (declared_mods : Text → List Text) (files : FileMap) (entry : Text) where
  -- Removing unreachable files keeps exactly the right ones, and the fuel of its worklist is enough for
  -- that, whatever the declarations are, cycles included: a file, under its name and with its content,
  -- is in the result exactly if it was there and is no .rs file, or is one that the entry reaches
  -- through `mod` declarations of files that it reaches.
  pub remove_unreachable_files_lem :
      (f : Text × Text)
      → IsIn f (remove_unreachable_files declared_mods files entry)
        ↔ IsIn f files × ((is_rs f.0 ≡ false) ⊎ Reachable declared_mods files entry f.0)
  unfolding remove_unreachable_files
  remove_unreachable_files_lem f = (to, from)
    where
      reached :
          (contains (reachable_files declared_mods files entry) f.0 ≡ true)
          ↔ Reachable declared_mods files entry f.0
      reached = reachable_files_iff declared_mods files entry f.0

      named :
          (is_rs f.0 ≡ false) ⊎ (contains (reachable_files declared_mods files entry) f.0 ≡ true)
          → (is_rs f.0 ≡ false) ⊎ Reachable declared_mods files entry f.0
      named (inl e) = inl e
      named (inr e) = inr (reached.0 e)

      found :
          (is_rs f.0 ≡ false) ⊎ Reachable declared_mods files entry f.0
          → (is_rs f.0 ≡ false) ⊎ (contains (reachable_files declared_mods files entry) f.0 ≡ true)
      found (inl e) = inl e
      found (inr r) = inr (reached.1 r)

      to :
          IsIn f (keep_files (reachable_files declared_mods files entry) files)
          → IsIn f files × ((is_rs f.0 ≡ false) ⊎ Reachable declared_mods files entry f.0)
      to i =
          let (j, stays) = kept_in (reachable_files declared_mods files entry) files f i in
          (j, named (not_dropped (is_rs f.0) _ stays))

      from :
          IsIn f files × ((is_rs f.0 ≡ false) ⊎ Reachable declared_mods files entry f.0)
          → IsIn f (keep_files (reachable_files declared_mods files entry) files)
      from (i, why) =
          in_kept (reachable_files declared_mods files entry) files f i
            (is_kept (is_rs f.0) _ (found why))
