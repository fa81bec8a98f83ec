-- ===== src/SearchReplace/Misses.antt =====
-- What apply_blocks (scripts/search_replace.py) does with the blocks that it misses.
use tig_swarm_demo.Prelude.{
  ◌≡◌, inl, inr, refl, subst, ◌∙◌, Option, none, some, List, [], ◌∷◌, map, arith, Bool-cases,
}
use tig_swarm_demo.SearchReplace.Text.{Text, strip, is_empty, eq_text}
use tig_swarm_demo.SearchReplace.Parse.{Block}
use tig_swarm_demo.SearchReplace.Apply.{
  FileMap, Edit, edited, missed, MissReason, Miss, put, lookup, edit_file, store, apply_resolved,
  resolve_file, apply_block, apply_blocks, add_miss,
}

-- The blocks, split in order into those that were applied and the misses.
pub data IsSplit : List Block → List Block → List Miss → Type 0 where
  nothing : IsSplit [] [] []
  applied :
      (b : Block) {blocks kept : List Block} {misses : List Miss}
      → IsSplit blocks kept misses
      → IsSplit (b ∷ blocks) (b ∷ kept) misses
  skipped :
      (b : Block) (reason : MissReason) {blocks kept : List Block} {misses : List Miss}
      → IsSplit blocks kept misses
      → IsSplit (b ∷ blocks) kept (record { block = b; reason = reason } ∷ misses)

abbrev pub names : FileMap → List Text
names files = map (λ (f : Text × Text). f.0) files

names-put : (k v : Text) (files : FileMap) → names (put k v files) ≡ names files
unfolding put
names-put k v [] = refl
names-put k v ((j, w) ∷ files) = elim (Bool-cases (eq_text j k)) [
  | inl e ↦ ground (arith, e)
  | inr e ↦ ground (arith, e, names-put k v files)
]

-- A round either misses and leaves the files alone, or keeps their names.
record IsRound (files : FileMap) (r : FileMap × Option MissReason) : Type 0 where
  same_names : names r.0 ≡ names files
  untouched : (reason : MissReason) → r.1 ≡ some reason → r.0 ≡ files

store-IsRound : (fname : Text) (files : FileMap) (e : Edit) → IsRound files (store fname files e)
store-IsRound fname files (edited content) = record {
  same_names = names-put fname content files;
  untouched = λ r h. absurd (cc (h));
}
store-IsRound fname files (missed reason) = record { same_names = refl; untouched = λ r h. refl }

resolved-IsRound :
    (b : Block) (files : FileMap) (fname : Option Text)
    → IsRound files (apply_resolved b files fname)
resolved-IsRound b files none = record { same_names = refl; untouched = λ r h. refl }
resolved-IsRound b files (some fname) =
    store-IsRound fname files (edit_file b fname (lookup fname files))

apply_block-IsRound : (b : Block) (files : FileMap) → IsRound files (apply_block b files)
unfolding apply_block
apply_block-IsRound b files = elim (Bool-cases (is_empty (strip b.search))) [
  | inl e ↦ rw e (record { same_names = refl; untouched = λ r h. refl })
  | inr e ↦ rw e (resolved-IsRound b files (resolve_file b.file files))
]

-- The kept blocks of a run with the given result: they alone give the same files and no miss.
pub record IsKept (files : FileMap) (blocks : List Block) (result : FileMap × List Miss)
    : Type 0 where
  pub kept : List Block
  pub split : IsSplit blocks kept result.1
  pub again : apply_blocks files kept ≡ (result.0, [])
  pub same_names : names result.0 ≡ names files

-- the result of a run whose first round gave `r` and whose rest gave `rest`
abbrev joined : Block → FileMap × Option MissReason → FileMap × List Miss → FileMap × List Miss
joined b r rest = (rest.0, add_miss b r.1 rest.1)

again-cons :
    (b : Block) (files after : FileMap) (kept : List Block) (result : FileMap)
    → apply_block b files ≡ (after, none)
    → apply_blocks after kept ≡ (result, [])
    → apply_blocks files (b ∷ kept) ≡ (result, [])
unfolding apply_blocks
again-cons b files after kept result e again = rw e (rw again refl)

extend :
    (b : Block) (blocks : List Block) (files : FileMap) (r : FileMap × Option MissReason)
    (rest : FileMap × List Miss)
    → apply_block b files ≡ r
    → IsRound files r
    → IsKept r.0 blocks rest
    → IsKept files (b ∷ blocks) (joined b r rest)
extend b blocks files (after, none) rest e round k = record {
  kept = b ∷ k.kept;
  split = applied b k.split;
  again = again-cons b files after k.kept rest.0 e k.again;
  same_names = k.same_names ∙ round.same_names;
}
extend b blocks files (after, some reason) rest e round k = record {
  kept = k.kept;
  split = skipped b reason k.split;
  again =
      subst (λ (fs : FileMap). apply_blocks fs k.kept ≡ (rest.0, [])) (round.untouched reason refl)
        k.again;
  same_names = k.same_names ∙ round.same_names;
}

-- A block that is missed changes nothing. The blocks of a run split, in order, into the misses that it
-- reports and the rest; applying only the rest to the same files gives the same result, with no miss;
-- and no run adds, drops or renames a file.
pub apply_blocks_lem :
    (files : FileMap) (blocks : List Block) → IsKept files blocks (apply_blocks files blocks)
unfolding apply_blocks
apply_blocks_lem files [] = record { kept = []; split = nothing; again = refl; same_names = refl }
apply_blocks_lem files (b ∷ blocks) =
    extend b blocks files (apply_block b files) (apply_blocks (apply_block b files).0 blocks) refl
      (apply_block-IsRound b files) (apply_blocks_lem (apply_block b files).0 blocks)
