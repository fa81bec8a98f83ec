-- ===== src/Hpo/Winners.antt =====
-- The winner of each track (scripts/hpo.py) against all scores that were seen on it.
use tig_swarm_demo.Prelude.{
  ℕ, ◌≡◌, refl, sym, subst, inl, inr, ℤ, Bool, true, false, Option, none, some, List, [], ◌∷◌,
  arith, IsIn, ◌==◌, Bool-cases, if◌then◌else◌,
}
use tig_swarm_demo.Db.Rows.{Direction}
use tig_swarm_demo.Db.States.{is_better}
use tig_swarm_demo.StateView.Starts.{better_asym, worse_trans, better_irrefl}
use tig_swarm_demo.Hpo.{Trial, find_track, set_track, improves, note_scores, per_track_winners}

find-set_track :
    (tk t : ℕ) (v : ℕ × ℤ) (winners : List (ℕ × ℕ × ℤ))
    → find_track t (set_track tk v winners) ≡ (if tk == t then some v else find_track t winners)
unfolding find_track set_track
find-set_track tk t (c, s) [] = refl
find-set_track tk t (c, s) ((u, d, r) ∷ winners) =
    ground (arith, find-set_track tk t (c, s) winners)

-- A winner, with its score, among the scores seen on its track: it is one of them, and none is better;
-- without a winner none was seen.
abbrev pub Tops : Direction → Option (ℕ × ℤ) → List (ℕ × ℤ) → Type 0
Tops d none seen = seen ≡ []
Tops d (some w) seen = IsIn w seen × ((x : ℕ × ℤ) → IsIn x seen → is_better d x.1 w.1 ≡ false)

Tops-cons :
    (d : Direction) (w : Option (ℕ × ℤ)) (seen : List (ℕ × ℤ)) (x : ℕ × ℤ)
    → Tops d w seen
    → Tops d (if improves d w x.1 then some x else w) (x ∷ seen)
Tops-cons d none seen x h = (inl refl, λ y i. only (subst (λ l. IsIn y (x ∷ l)) h i))
  where
    only : {y : ℕ × ℤ} → IsIn y (x ∷ []) → is_better d y.1 x.1 ≡ false
    only {y} (inl e) = rw e (better_irrefl d x.1)
    only {y} (inr i) = absurd i
Tops-cons d (some (c, s)) seen x (i, top) = elim (Bool-cases (is_better d x.1 s)) [
  | inl e ↦ rw e (inl refl, λ y j. ahead e y j)
  | inr e ↦ rw e (inr i, λ y j. behind e y j)
]
  where
    ahead : is_better d x.1 s ≡ true → (y : ℕ × ℤ) → IsIn y (x ∷ seen) → is_better d y.1 x.1 ≡ false
    ahead e y (inl same) = rw same (better_irrefl d x.1)
    ahead e y (inr j) = worse_trans d y.1 s x.1 (top y j) (better_asym d x.1 s e)

    behind : is_better d x.1 s ≡ false → (y : ℕ × ℤ) → IsIn y (x ∷ seen) → is_better d y.1 s ≡ false
    behind e y (inl same) = rw same e
    behind e y (inr j) = top y j

-- The scores on a track: of one trial, and of all, the latest first.
unfoldable pub scores_of : ℕ → ℕ → List (ℕ × Option ℤ) → List (ℕ × ℤ) → List (ℕ × ℤ)
scores_of t cfg [] seen = seen
scores_of t cfg ((tk, none) ∷ scores) seen = scores_of t cfg scores seen
scores_of t cfg ((tk, some sc) ∷ scores) seen =
    scores_of t cfg scores (if tk == t then (cfg, sc) ∷ seen else seen)

unfoldable pub scores_on : ℕ → List Trial → List (ℕ × ℤ) → List (ℕ × ℤ)
unfolding scores_of
scores_on t [] seen = seen
scores_on t (x ∷ trials) seen = scores_on t trials (scores_of t x.config x.track_scores seen)

find-noted :
    (tk t : ℕ) (v : ℕ × ℤ) (winners : List (ℕ × ℕ × ℤ)) (b : Bool)
    → find_track t (if b then set_track tk v winners else winners)
      ≡ (if tk == t then (if b then some v else find_track t winners) else find_track t winners)
find-noted tk t v winners true = find-set_track tk t v winners
find-noted tk t v winners false = elim (Bool-cases (tk == t)) [
  | inl e ↦ rw e refl
  | inr e ↦ rw e refl
]

module _ (d : Direction) (t : ℕ) where
  note_one :
      (tk cfg : ℕ) (sc : ℤ) (winners : List (ℕ × ℕ × ℤ)) (seen : List (ℕ × ℤ)) (same : Bool)
      → (same ≡ true → tk ≡ t)
      → Tops d (find_track t winners) seen
      → Tops d
          (if same
            then (if improves d (find_track tk winners) sc
                then some (cfg, sc)
                else find_track t winners)
            else find_track t winners)
          (if same then (cfg, sc) ∷ seen else seen)
  note_one tk cfg sc winners seen true at h =
      subst
        (λ k.
          Tops d
            (if improves d (find_track k winners) sc then some (cfg, sc) else find_track t winners)
            ((cfg, sc) ∷ seen))
        (sym (at refl)) (Tops-cons d (find_track t winners) seen (cfg, sc) h)
  note_one tk cfg sc winners seen false at h = h

  note-Tops :
      (cfg : ℕ) (scores : List (ℕ × Option ℤ)) (winners : List (ℕ × ℕ × ℤ)) (seen : List (ℕ × ℤ))
      → Tops d (find_track t winners) seen
      → Tops d (find_track t (note_scores d cfg scores winners)) (scores_of t cfg scores seen)
  unfolding note_scores scores_of
  note-Tops cfg [] winners seen h = h
  note-Tops cfg ((tk, none) ∷ scores) winners seen h = note-Tops cfg scores winners seen h
  note-Tops cfg ((tk, some sc) ∷ scores) winners seen h = note-Tops cfg scores _ _ noted
    where
      noted :
          Tops d
            (find_track t (
              if improves d (find_track tk winners) sc
              then set_track tk (cfg, sc) winners
              else winners))
            (if tk == t then (cfg, sc) ∷ seen else seen)
      noted =
          rw (find-noted tk t (cfg, sc) winners (improves d (find_track tk winners) sc))
            (note_one tk cfg sc winners seen (tk == t) (λ e. ground (arith, e)) h)

  pub winners-Tops :
      (trials : List Trial) (winners : List (ℕ × ℕ × ℤ)) (seen : List (ℕ × ℤ))
      → Tops d (find_track t winners) seen
      → Tops d (find_track t (per_track_winners d trials winners)) (scores_on t trials seen)
  unfolding per_track_winners scores_on
  winners-Tops [] winners seen h = h
  winners-Tops (x ∷ trials) winners seen h =
      winners-Tops trials _ _ (note-Tops x.config x.track_scores winners seen h)
