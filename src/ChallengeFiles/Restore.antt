-- ===== src/ChallengeFiles/Restore.antt =====
-- What write_files (scripts/challenge_files.py) leaves in the directory.
use tig_swarm_demo.Prelude.{
  ◌≡◌, refl, sym, ap, ◌∙◌, inl, inr, Bool, true, false, ◌||◌, List, [], ◌∷◌, ◌++◌, arith,
  Bool-cases, All,
}
use mathlib.Core.List.{append-nil, append_assoc}
use tig_swarm_demo.SearchReplace.Text.{Text, eq_text}
use tig_swarm_demo.SearchReplace.Apply.{FileMap}
use tig_swarm_demo.CleanerPrepass.{contains}
use tig_swarm_demo.CleanerPrepass.Closure.{eq_text_refl}
use tig_swarm_demo.ChallengeFiles.{
  sanitize_source, path_names, without, safe_write, write_each, prune, write_files,
}
use tig_swarm_demo.ChallengeFiles.Sanitize.{IsPlain, sanitize_source-id}

-- Every path once.
abbrev pub IsDistinct : FileMap → Type 0
IsDistinct [] = Unit
IsDistinct ((k, v) ∷ files) = (contains (path_names files) k ≡ false) × IsDistinct files

-- Every content as sanitize_source leaves it.
abbrev pub IsClean : FileMap → Type 0
IsClean files = All (λ f. All IsPlain f.1) files

-- every content sanitized
unfoldable pub clean : FileMap → FileMap
clean [] = []
clean ((k, v) ∷ files) = (k, sanitize_source v) ∷ clean files

without-absent :
    (k : Text) (files : FileMap) → contains (path_names files) k ≡ false → without k files ≡ files
unfolding without path_names contains
without-absent k [] h = refl
without-absent k ((j, v) ∷ files) h = ground (arith, without-absent k files)

without-append : (k : Text) (xs ys : FileMap) → without k (xs ++ ys) ≡ without k xs ++ without k ys
unfolding without
without-append k [] ys = refl
without-append k ((j, v) ∷ xs) ys = ground (arith, without-append k xs ys)

path_names-clean : (files : FileMap) → path_names (clean files) ≡ path_names files
unfolding path_names clean
path_names-clean [] = refl
path_names-clean ((k, v) ∷ files) = ap (λ ks. k ∷ ks) (path_names-clean files)

-- the directory without the paths of a list
without_all : List Text → FileMap → FileMap
without_all [] disk = disk
without_all (k ∷ keys) disk = without_all keys (without k disk)

without_all-append :
    (keys : List Text) (xs ys : FileMap)
    → without_all keys (xs ++ ys) ≡ without_all keys xs ++ without_all keys ys
unfolding without_all
without_all-append [] xs ys = refl
without_all-append (k ∷ keys) xs ys =
    ap (without_all keys) (without-append k xs ys)
    ∙ without_all-append keys (without k xs) (without k ys)

pub eq_text_sym : (s t : Text) → eq_text s t ≡ eq_text t s
unfolding eq_text
eq_text_sym [] [] = refl
eq_text_sym [] (b ∷ t) = refl
eq_text_sym (a ∷ s) [] = refl
eq_text_sym (a ∷ s) (b ∷ t) = ground (arith, eq_text_sym s t)

without_all-one :
    (keys : List Text) (k : Text) (v : Text)
    → contains keys k ≡ false
    → without_all keys ((k, v) ∷ []) ≡ (k, v) ∷ []
unfolding without_all without contains
without_all-one [] k v h = refl
without_all-one (j ∷ keys) k v h = ground (arith, eq_text_sym j k, without_all-one keys k v)

write_each_lem :
    (files disk : FileMap)
    → IsDistinct files
    → write_each files disk ≡ without_all (path_names files) disk ++ clean files
unfolding write_each path_names without_all clean safe_write
write_each_lem [] disk h = sym (append-nil disk)
write_each_lem ((k, v) ∷ files) disk h =
    write_each_lem files (without k disk ++ (k, sanitize_source v) ∷ []) h.1
    ∙ ap (λ d. d ++ clean files)
        (without_all-append ns (without k disk) ((k, sanitize_source v) ∷ []))
    ∙ ap (λ d. (without_all ns (without k disk) ++ d) ++ clean files)
        (without_all-one ns k (sanitize_source v) h.0)
    ∙ append_assoc (without_all ns (without k disk)) ((k, sanitize_source v) ∷ []) (clean files)
  where
    ns : List Text
    ns = path_names files

pub without-All {κ} :
    (P : Text × Text → Type κ) (k : Text) (disk : FileMap) → All P disk → All P (without k disk)
unfolding without
without-All P k [] h = tt
without-All P k ((j, v) ∷ disk) h = elim (Bool-cases (eq_text j k)) [
  | inl e ↦ rw (without, e) (without-All P k disk h.1)
  | inr e ↦ rw (without, e) (h.0, without-All P k disk h.1)
]

without_all-All {κ} :
    (P : Text × Text → Type κ) (keys : List Text) (disk : FileMap)
    → All P disk
    → All P (without_all keys disk)
unfolding without_all
without_all-All P [] disk h = h
without_all-All P (k ∷ keys) disk h =
    without_all-All P keys (without k disk) (without-All P k disk h)

without_miss : (k : Text) (disk : FileMap) → All (λ f. eq_text k f.0 ≡ false) (without k disk)
unfolding without
without_miss k [] = tt
without_miss k ((j, v) ∷ disk) = elim (Bool-cases (eq_text j k)) [
  | inl e ↦ rw (without, e) (without_miss k disk)
  | inr e ↦ rw (without, e) (eq_text_sym k j ∙ e, without_miss k disk)
]

agreed :
    (k : Text) (keys every : List Text) (disk : FileMap)
    → All (λ f. contains every f.0 ≡ contains (k ∷ keys) f.0) disk
    → All (λ f. eq_text k f.0 ≡ false) disk
    → All (λ f. contains every f.0 ≡ contains keys f.0) disk
unfolding contains
agreed k keys every [] h g = tt
agreed k keys every ((j, v) ∷ disk) h g =
    (h.0 ∙ ap (λ b. b || contains keys j) g.0, agreed k keys every disk h.1 g.1)

-- Nothing of the directory is left at the paths taken out, so pruning to these paths leaves none of it.
prune-without_all :
    (keys every : List Text) (disk : FileMap)
    → All (λ f. contains every f.0 ≡ contains keys f.0) disk
    → prune every (without_all keys disk) ≡ []
unfolding without_all prune contains
prune-without_all [] every [] h = refl
prune-without_all [] every ((k, v) ∷ disk) h = rw h.0 (prune-without_all [] every disk h.1)
prune-without_all (k ∷ keys) every disk h =
    prune-without_all keys every (without k disk)
      (agreed k keys every (without k disk) (without-All _ k disk h) (without_miss k disk))

prune-append :
    (keys : List Text) (xs ys : FileMap) → prune keys (xs ++ ys) ≡ prune keys xs ++ prune keys ys
unfolding prune
prune-append keys [] ys = refl
prune-append keys ((k, v) ∷ xs) ys = ground (arith, prune-append keys xs ys)

-- Of the files just written none is pruned.
prune-clean :
    (files : FileMap) (every : List Text)
    → ((k : Text) → contains (path_names files) k ≡ true → contains every k ≡ true)
    → prune every (clean files) ≡ clean files
unfolding prune clean path_names contains
prune-clean [] every h = refl
prune-clean ((k, v) ∷ files) every h = rw (h k (ground (arith, eq_text_refl k))) (
    ap (λ d. (k, sanitize_source v) ∷ d) (prune-clean files every (λ j i. h j (ground (arith, i)))))

refl_All : (P : Text → Bool) (disk : FileMap) → All (λ f. P f.0 ≡ P f.0) disk
refl_All P [] = tt
refl_All P (f ∷ disk) = (refl, refl_All P disk)

pub nothing : (k : Text) → contains (path_names []) k ≡ true → ⊥
unfolding path_names contains
nothing k e = cc

-- Writing a files-map that has the entry leaves exactly its files, sanitized, whatever was there.
pub write_files_lem :
    (entry : Text) (files disk : FileMap)
    → IsDistinct files
    → contains (path_names files) entry ≡ true
    → write_files entry files disk ≡ clean files
unfolding write_files
write_files_lem entry [] disk h e = absurd (nothing entry e)
write_files_lem entry (f ∷ files) disk h e = rw e (
    ap (prune ns) (write_each_lem (f ∷ files) disk h)
    ∙ prune-append ns (without_all ns disk) (clean (f ∷ files))
    ∙ ap (λ d. d ++ prune ns (clean (f ∷ files)))
        (prune-without_all ns ns disk (refl_All (contains ns) disk))
    ∙ prune-clean (f ∷ files) ns (λ k i. i))
  where
    ns : List Text
    ns = path_names (f ∷ files)

pub clean-id : (files : FileMap) → IsClean files → clean files ≡ files
unfolding clean
clean-id [] h = refl
clean-id ((k, v) ∷ files) h = rw (sanitize_source-id v h.0, clean-id files h.1)
