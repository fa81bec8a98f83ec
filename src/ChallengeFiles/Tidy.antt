-- ===== src/ChallengeFiles/Tidy.antt =====
-- The well-formed directories of scripts/challenge_files.py, and what keeps them so.
use tig_swarm_demo.Prelude.{
  ◌≡◌, ◌⊎◌, refl, ap, subst, ◌∙◌, inl, inr, true, false, not, ◌&&◌, ◌||◌, List, [], ◌∷◌, ◌++◌,
  arith, Bool-cases, All-append,
}
use tig_swarm_demo.SearchReplace.Text.{Text, is_empty, eq_text}
use tig_swarm_demo.SearchReplace.Apply.{FileMap}
use tig_swarm_demo.CleanerPrepass.{contains}
use tig_swarm_demo.CleanerPrepass.Closure.{eq_text_sound, eq_text_refl}
use tig_swarm_demo.ChallengeFiles.{
  sanitize_source, path_names, without, safe_write, write_each, prune, write_files, FilesConfig,
  write,
}
use tig_swarm_demo.ChallengeFiles.Sanitize.{sanitize_source-IsPlain}
use tig_swarm_demo.ChallengeFiles.Restore.{
  IsDistinct, IsClean, eq_text_sym, without-All, write_files_lem, clean-id, nothing,
}

contains-without :
    (k j : Text) (disk : FileMap)
    → contains (path_names disk) j ≡ false
    → contains (path_names (without k disk)) j ≡ false
unfolding without path_names contains
contains-without k j [] h = refl
contains-without k j ((i, v) ∷ disk) h = ground (arith, contains-without k j disk)

contains-without_self :
    (k : Text) (disk : FileMap) → contains (path_names (without k disk)) k ≡ false
unfolding without path_names contains
contains-without_self k [] = refl
contains-without_self k ((i, v) ∷ disk) = ground (arith, contains-without_self k disk)

pub contains-snoc :
    (k j v : Text) (disk : FileMap)
    → contains (path_names (disk ++ (k, v) ∷ [])) j ≡ (contains (path_names disk) j || eq_text k j)
unfolding path_names contains
contains-snoc k j v [] = ground arith
contains-snoc k j v ((i, w) ∷ disk) = ground (arith, contains-snoc k j v disk)

IsDistinct-without : (k : Text) (disk : FileMap) → IsDistinct disk → IsDistinct (without k disk)
unfolding without
IsDistinct-without k [] h = tt
IsDistinct-without k ((j, v) ∷ disk) h = elim (Bool-cases (eq_text j k)) [
  | inl e ↦ rw (without, e) (IsDistinct-without k disk h.1)
  | inr e ↦ rw (without, e) (contains-without k j disk h.0, IsDistinct-without k disk h.1)
]

IsDistinct-snoc :
    (k v : Text) (disk : FileMap)
    → IsDistinct disk
    → contains (path_names disk) k ≡ false
    → IsDistinct (disk ++ (k, v) ∷ [])
unfolding path_names contains
IsDistinct-snoc k v [] h e = (refl, tt)
IsDistinct-snoc k v ((j, w) ∷ disk) h e = (
  ground (arith, h.0, contains-snoc k j v disk, eq_text_sym k j),
  IsDistinct-snoc k v disk h.1 (ground arith),
)

-- A directory with every path once and every content sanitized.
pub record IsTidy (disk : FileMap) : Type 0 where
  pub distinct : IsDistinct disk
  pub plain : IsClean disk

pub safe_write-IsTidy : (k v : Text) (disk : FileMap) → IsTidy disk → IsTidy (safe_write k v disk)
unfolding safe_write
safe_write-IsTidy k v disk h = record {
  distinct =
      IsDistinct-snoc k (sanitize_source v) (without k disk) (IsDistinct-without k disk h.distinct)
        (contains-without_self k disk);
  plain =
      All-append _ (without k disk) ((k, sanitize_source v) ∷ []) (without-All _ k disk h.plain)
        (sanitize_source-IsPlain v, tt);
}

write_each-IsTidy : (files disk : FileMap) → IsTidy disk → IsTidy (write_each files disk)
unfolding write_each
write_each-IsTidy [] disk h = h
write_each-IsTidy ((k, v) ∷ files) disk h =
    write_each-IsTidy files (safe_write k v disk) (safe_write-IsTidy k v disk h)

contains-prune :
    (keys : List Text) (j : Text) (disk : FileMap)
    → contains (path_names disk) j ≡ false
    → contains (path_names (prune keys disk)) j ≡ false
unfolding prune path_names contains
contains-prune keys j [] h = refl
contains-prune keys j ((i, v) ∷ disk) h = ground (arith, contains-prune keys j disk)

prune-IsTidy : (keys : List Text) (disk : FileMap) → IsTidy disk → IsTidy (prune keys disk)
unfolding prune
prune-IsTidy keys [] h = h
prune-IsTidy keys ((k, v) ∷ disk) h =
    let rest = prune-IsTidy keys disk (record { distinct = h.distinct.1; plain = h.plain.1 }) in
    elim (Bool-cases (contains keys k)) [
      | inl e ↦
          rw (prune, e)
            (record {
              distinct = (contains-prune keys k disk h.distinct.0, rest.distinct);
              plain = (h.plain.0, rest.plain);
            })
      | inr e ↦ rw (prune, e) rest
    ]

pub write_files-IsTidy :
    (entry : Text) (files disk : FileMap) → IsTidy disk → IsTidy (write_files entry files disk)
unfolding write_files
write_files-IsTidy entry [] disk h = h
write_files-IsTidy entry (f ∷ files) disk h =
    elim (Bool-cases (contains (path_names (f ∷ files)) entry)) [
      | inl e ↦
          rw e (prune-IsTidy (path_names (f ∷ files)) _ (write_each-IsTidy (f ∷ files) disk h))
      | inr e ↦ rw e (write_each-IsTidy (f ∷ files) disk h)
    ]

pub write-IsTidy :
    (cfg : FilesConfig) (code kernel : Text) (disk : FileMap)
    → IsTidy disk
    → IsTidy (write cfg code kernel disk)
unfolding write
write-IsTidy cfg code kernel disk h = elim (Bool-cases (cfg.is_gpu && not (is_empty kernel))) [
  | inl e ↦ rw e (safe_write-IsTidy cfg.kernel_name kernel _ first)
  | inr e ↦ rw e first
]
  where
    first : IsTidy (safe_write cfg.entry_name code disk)
    first = safe_write-IsTidy cfg.entry_name code disk h

-- Writing back what read_files gave restores the directory, whatever was written in between, if the
-- directory is tidy and has the entry.
pub write_files-restores :
    (entry : Text) (saved disk : FileMap)
    → IsTidy saved
    → contains (path_names saved) entry ≡ true
    → write_files entry saved disk ≡ saved
write_files-restores entry saved disk h e =
    write_files_lem entry saved disk h.distinct e ∙ clean-id saved h.plain

eq_text_trans : (i k j : Text) → eq_text i k ≡ true → eq_text i j ≡ true → eq_text k j ≡ true
eq_text_trans i k j h g = subst (λ t. eq_text t j ≡ true) (eq_text_sound i k h) g

contains-without_or :
    (k j : Text) (disk : FileMap)
    → contains (path_names disk) j ≡ true
    → (contains (path_names (without k disk)) j || eq_text k j) ≡ true
unfolding without path_names contains
contains-without_or k j [] h = cc
contains-without_or k j ((i, v) ∷ disk) h =
    ground (arith, eq_text_trans i k j, contains-without_or k j disk)

-- A written file is there, and the others stay.
pub safe_write-has :
    (k v j : Text) (disk : FileMap)
    → (eq_text k j ≡ true) ⊎ (contains (path_names disk) j ≡ true)
    → contains (path_names (safe_write k v disk)) j ≡ true
unfolding safe_write
safe_write-has k v j disk (inl e) =
    ground (arith, contains-snoc k j (sanitize_source v) (without k disk))
safe_write-has k v j disk (inr e) =
    contains-snoc k j (sanitize_source v) (without k disk) ∙ contains-without_or k j disk e

pub write-has_entry :
    (cfg : FilesConfig) (code kernel : Text) (disk : FileMap)
    → contains (path_names (write cfg code kernel disk)) cfg.entry_name ≡ true
unfolding write
write-has_entry cfg code kernel disk = elim (Bool-cases (cfg.is_gpu && not (is_empty kernel))) [
  | inl e ↦ rw e (safe_write-has cfg.kernel_name kernel cfg.entry_name _ (inr first))
  | inr e ↦ rw e first
]
  where
    first : contains (path_names (safe_write cfg.entry_name code disk)) cfg.entry_name ≡ true
    first =
        safe_write-has cfg.entry_name code cfg.entry_name disk (inl (eq_text_refl cfg.entry_name))

write_each-has :
    (files disk : FileMap) (j : Text)
    → (contains (path_names files) j ≡ true) ⊎ (contains (path_names disk) j ≡ true)
    → contains (path_names (write_each files disk)) j ≡ true
unfolding write_each path_names contains
write_each-has [] disk j (inl e) = cc
write_each-has [] disk j (inr e) = e
write_each-has ((k, v) ∷ files) disk j (inr e) =
    write_each-has files (safe_write k v disk) j (inr (safe_write-has k v j disk (inr e)))
write_each-has ((k, v) ∷ files) disk j (inl e) = elim (Bool-cases (eq_text k j)) [
  | inl same ↦
      write_each-has files (safe_write k v disk) j (inr (safe_write-has k v j disk (inl same)))
  | inr other ↦ write_each-has files (safe_write k v disk) j (inl (rw other at e))
]

prune-has :
    (keys : List Text) (j : Text) (disk : FileMap)
    → contains keys j ≡ true
    → contains (path_names disk) j ≡ true
    → contains (path_names (prune keys disk)) j ≡ true
unfolding prune path_names contains
prune-has keys j [] h e = e
prune-has keys j ((i, v) ∷ disk) h e =
    ground (arith, ap (contains keys), eq_text_sound i j, prune-has keys j disk)

-- The entry is there after write_files if it was, or if it is written.
pub write_files-has_entry :
    (entry : Text) (files disk : FileMap)
    → (contains (path_names files) entry ≡ true) ⊎ (contains (path_names disk) entry ≡ true)
    → contains (path_names (write_files entry files disk)) entry ≡ true
unfolding write_files
write_files-has_entry entry [] disk (inl e) = absurd (nothing entry e)
write_files-has_entry entry [] disk (inr e) = e
write_files-has_entry entry (f ∷ files) disk h =
    elim (Bool-cases (contains (path_names (f ∷ files)) entry)) [
      | inl e ↦
          rw e
            (prune-has (path_names (f ∷ files)) entry _ e (write_each-has (f ∷ files) disk entry h))
      | inr e ↦ rw e (write_each-has (f ∷ files) disk entry h)
    ]
