-- ===== src/CleanerPrepass/Closure.antt =====
-- The worklist of remove_unreachable_files (scripts/cleaner_prepass.py) ends within its fuel, and what
-- it has reached is closed under the declarations.
use tig_swarm_demo.Prelude.{
  ℕ, zero, suc, ◌+◌, ◌≤◌, ◌<◌, ◌≡◌, ◌⊎◌, inl, inr, refl, sym, ap, subst, true, false, not, ◌&&◌,
  none, some, List, [], ◌∷◌, arith, IsIn, All, Bool-cases, Option-cases, if◌then◌else◌, length,
}
use tig_swarm_demo.SearchReplace.Text.{Text, eq_text}
use tig_swarm_demo.SearchReplace.Apply.{FileMap, lookup}
use tig_swarm_demo.CleanerPrepass.{contains, push, candidates_from, rs_files, reach, pushes}

pub eq_text_sound : (s t : Text) → eq_text s t ≡ true → s ≡ t
unfolding eq_text
eq_text_sound [] [] h = refl
eq_text_sound [] (b ∷ t) h = absurd (cc (h))
eq_text_sound (a ∷ s) [] h = absurd (cc (h))
eq_text_sound (a ∷ s) (b ∷ t) h = ground (arith, eq_text_sound s t)

pub eq_text_refl : (s : Text) → eq_text s s ≡ true
unfolding eq_text
eq_text_refl [] = refl
eq_text_refl (a ∷ s) = ground (arith, eq_text_refl s)

contains-cons : (m n : Text) (r : List Text) → contains r n ≡ true → contains (m ∷ r) n ≡ true
unfolding contains
contains-cons m n r h = ground (arith, h)

contains-head : (n : Text) (r : List Text) → contains (n ∷ r) n ≡ true
unfolding contains
contains-head n r = rw (eq_text_refl n) refl

-- A name of a longer list is its head or stands in the rest.
pub contains_inv :
    (m n : Text) (r : List Text) → contains (m ∷ r) n ≡ true → (m ≡ n) ⊎ (contains r n ≡ true)
unfolding contains
contains_inv m n r h = elim (Bool-cases (eq_text m n)) [
  | inl e ↦ inl (eq_text_sound m n e)
  | inr e ↦ inr (rw e at h)
]

module _ (rs r : List Text) where
  push-length :
      (cs frontier : List Text) → length (push rs r cs frontier) ≤ length cs + length frontier
  unfolding push
  push-length [] frontier = omega arith
  push-length (c ∷ cs) frontier = elim (Bool-cases (contains rs c && not (contains r c))) [
    | inl e ↦ rw e (omega (arith, push-length cs (c ∷ frontier)))
    | inr e ↦ rw e (omega (arith, push-length cs frontier))
  ]

  push-keeps :
      (cs frontier : List Text) (n : Text) → IsIn n frontier → IsIn n (push rs r cs frontier)
  unfolding push
  push-keeps [] frontier n i = i
  push-keeps (c ∷ cs) frontier n i = elim (Bool-cases (contains rs c && not (contains r c))) [
    | inl e ↦ rw e (push-keeps cs (c ∷ frontier) n (inr i))
    | inr e ↦ rw e (push-keeps cs frontier n i)
  ]

  push-adds :
      (cs frontier : List Text) (n : Text)
      → IsIn n cs
      → contains rs n ≡ true
      → (contains r n ≡ true) ⊎ IsIn n (push rs r cs frontier)
  unfolding push
  push-adds [] frontier n i file = absurd i
  push-adds (c ∷ cs) frontier n (inr i) file = push-adds cs _ n i file
  push-adds (c ∷ cs) frontier n (inl e) file = elim (Bool-cases (contains r n)) [
    | inl old ↦ inl old
    | inr new ↦ inr (rw (← e) (rw (file, new) (push-keeps cs (n ∷ frontier) n (inl refl))))
  ]

  pub push-All :
      (Q : Text → Type 0) (cs frontier : List Text)
      → All Q frontier
      → ((c : Text) → IsIn c cs → contains rs c ≡ true → Q c)
      → All Q (push rs r cs frontier)
  unfolding push
  push-All Q [] frontier h new = h
  push-All Q (c ∷ cs) frontier h new = elim (Bool-cases (contains rs c && not (contains r c))) [
    | inl e ↦ rw e (
        push-All Q cs (c ∷ frontier) (new c (inl refl) (ground (arith, e)), h)
          (λ d i file. new d (inr i) file))
    | inr e ↦ rw e (push-All Q cs frontier h (λ d i file. new d (inr i) file))
  ]

module _ (declared_mods : Text → List Text) (files : FileMap) where
  abbrev cands : Text → List Text
  cands name = candidates_from declared_mods files name

  -- the candidates that the files not yet reached may still push
  pub weight : List Text → FileMap → ℕ
  weight r [] = 0
  weight r ((n, code) ∷ fs) = (if contains r n then 0 else length (cands n)) + weight r fs

  weight_mono : (name : Text) (r : List Text) (fs : FileMap) → weight (name ∷ r) fs ≤ weight r fs
  unfolding weight contains
  weight_mono name r [] = omega arith
  weight_mono name r ((n, code) ∷ fs) = ground (arith, weight_mono name r fs)

  pub weight_nil : (fs : FileMap) → weight [] fs ≡ pushes declared_mods files fs
  unfolding weight contains pushes
  weight_nil [] = refl
  weight_nil ((n, code) ∷ fs) = ap (λ k. length (cands n) + k) (weight_nil fs)

  -- Reaching a file of the map takes its candidates off the weight.
  weight_drop :
      (name : Text) (r : List Text) (fs : FileMap) (code : Text)
      → contains r name ≡ false
      → lookup name fs ≡ some code
      → weight (name ∷ r) fs + length (cands name) ≤ weight r fs
  unfolding weight lookup contains
  weight_drop name r [] code new e = absurd (cc (e))
  weight_drop name r ((n, c) ∷ fs) code new e = elim (Bool-cases (eq_text n name)) [
    | inl same ↦
        let at : n ≡ name = eq_text_sound n name same in
        rw at (rw (eq_text_refl name, new) (omega (arith, weight_mono name r fs)))
    | inr other ↦ ground (arith, other, e, weight_drop name r fs code new)
  ]

  -- A candidate of n that is a file.
  pub record IsChild (n child : Text) : Type 0 where
    pub candidate : IsIn child (cands n)
    pub file : contains (rs_files files) child ≡ true

  -- What is reached has its children reached, or on the frontier.
  abbrev IsOpen : List Text → List Text → Type 0
  IsOpen r frontier =
      (n child : Text)
      → contains r n ≡ true
      → IsChild n child
      → (contains r child ≡ true) ⊎ IsIn child frontier

  IsOpen-pop :
      (r : List Text) (name : Text) (frontier : List Text)
      → contains r name ≡ true
      → IsOpen r (name ∷ frontier)
      → IsOpen r frontier
  IsOpen-pop r name frontier old h n child i c = elim (h n child i c) [
    | inl e ↦ inl e
    | inr (inl same) ↦ inl (subst (λ m. contains r m ≡ true) (sym same) old)
    | inr (inr later) ↦ inr later
  ]

  IsOpen-push :
      (r : List Text) (name : Text) (frontier : List Text)
      → IsOpen r (name ∷ frontier)
      → IsOpen (name ∷ r) (push (rs_files files) (name ∷ r) (cands name) frontier)
  IsOpen-push r name frontier h n child i c = elim (contains_inv name n r i) [
    | inl same ↦
        push-adds (rs_files files) (name ∷ r) (cands name) frontier child
          (subst (λ m. IsIn child (cands m)) (sym same) c.candidate) c.file
    | inr old ↦ (elim (h n child old c) [
      | inl e ↦ inl (contains-cons name child r e)
      | inr (inl at) ↦
          inl (subst (λ m. contains (name ∷ r) m ≡ true) (sym at) (contains-head name r))
      | inr (inr later) ↦
          inr (push-keeps (rs_files files) (name ∷ r) (cands name) frontier child later)
    ])
  ]

  unknown_pushes_nothing : (name : Text) → lookup name files ≡ none → cands name ≡ []
  unfolding candidates_from
  unknown_pushes_nothing name e = rw (candidates_from, e) refl

  -- The measure of the loop falls when a new name is reached.
  weight-push :
      (r : List Text) (name : Text) (frontier : List Text)
      → contains r name ≡ false
      → weight (name ∷ r) files + length (push (rs_files files) (name ∷ r) (cands name) frontier)
        ≤ weight r files + length frontier
  weight-push r name frontier new = elim (Option-cases (lookup name files)) [
    | inl e ↦ omega (
      arith,
      push-length (rs_files files) (name ∷ r) (cands name) frontier,
      ap (length {A = Text}) (unknown_pushes_nothing name e),
      weight_mono name r files,
    )
    | inr (code, e) ↦ omega (
      arith,
      push-length (rs_files files) (name ∷ r) (cands name) frontier,
      weight_drop name r files code new e,
    )
  ]

  -- What a run of the loop gives: a closed set that holds all that was reached or waiting.
  pub record IsClosed (r frontier result : List Text) : Type 0 where
    pub closed :
        (n child : Text) → contains result n ≡ true → IsChild n child → contains result child ≡ true
    pub keeps : (n : Text) → contains r n ≡ true → contains result n ≡ true
    pub takes : (n : Text) → IsIn n frontier → contains result n ≡ true

  pub reach-IsClosed :
      (fuel : ℕ) (r frontier : List Text)
      → weight r files + length frontier < fuel
      → IsOpen r frontier
      → IsClosed r frontier (reach declared_mods files fuel r frontier)
  unfolding reach
  reach-IsClosed zero r frontier enough h = absurd (omega (arith, enough))
  reach-IsClosed (suc fuel) r [] enough h = record {
    closed = λ n child i c. none_left child (h n child i c);
    keeps = λ n i. i;
    takes = λ n i. absurd i;
  }
    where
      none_left : (child : Text) → (contains r child ≡ true) ⊎ ⊥ → contains r child ≡ true
      none_left child (inl e) = e
      none_left child (inr i) = absurd i
  reach-IsClosed (suc fuel) r (name ∷ frontier) enough h = elim (Bool-cases (contains r name)) [
    | inl old ↦
        rw (reach, old)
          (old_round old (
            reach-IsClosed fuel r frontier (omega (arith, enough))
              (IsOpen-pop r name frontier old h)))
    | inr new ↦
        rw (reach, new)
          (new_round (
            reach-IsClosed fuel (name ∷ r) _
              (omega (arith, enough, weight-push r name frontier new))
              (IsOpen-push r name frontier h)))
  ]
    where
      old_round :
          contains r name ≡ true
          → {result : List Text} → IsClosed r frontier result
          → IsClosed r (name ∷ frontier) result
      old_round old k = record {
        closed = k.closed;
        keeps = k.keeps;
        takes = λ n i. (elim i [
          | inl same ↦ k.keeps n (subst (λ m. contains r m ≡ true) (sym same) old)
          | inr later ↦ k.takes n later
        ]);
      }

      new_round :
          {result : List Text}
          → IsClosed (name ∷ r) (push (rs_files files) (name ∷ r) (cands name) frontier) result
          → IsClosed r (name ∷ frontier) result
      new_round {result} k = record {
        closed = k.closed;
        keeps = λ n i. k.keeps n (contains-cons name n r i);
        takes = λ n i. (elim i [
          | inl same ↦
              subst (λ m. contains result m ≡ true) (sym same) (k.keeps name (contains-head name r))
          | inr later ↦
              k.takes n (push-keeps (rs_files files) (name ∷ r) (cands name) frontier n later)
        ]);
      }
