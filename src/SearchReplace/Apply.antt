-- ===== src/SearchReplace/Apply.antt =====
-- apply_blocks (scripts/search_replace.py) and its helpers.
use tig_swarm_demo.Prelude.{
  ℕ, ◌+◌, true, false, Option, none, some, List, [], ◌∷◌, ◌++◌, if◌then◌else◌, is_some, length,
  take, drop,
}
use tig_swarm_demo.SearchReplace.Text.{
  Text, newline, strip, is_empty, eq_text, after_prefix, splitlines, join, basename,
  ends_with_newline,
}
use tig_swarm_demo.SearchReplace.Parse.{Block}

-- a files-map, in the order of insertion
abbrev pub FileMap : Type 0
FileMap = List (Text × Text)

unfoldable pub lookup : Text → FileMap → Option Text
unfolding eq_text
lookup k [] = none
lookup k ((j, v) ∷ files) = elim (eq_text j k) [ true ↦ some v | false ↦ lookup k files ]

-- out[fname] = content, for a name that is there
unfoldable pub put : Text → Text → FileMap → FileMap
unfolding eq_text
put k v [] = []
put k v ((j, w) ∷ files) = elim (eq_text j k) [
  | true ↦ (j, v) ∷ files
  | false ↦ (j, w) ∷ put k v files
]

-- _norm_lines
unfoldable pub norm_lines : List Text → List Text
unfolding strip
norm_lines [] = []
norm_lines (l ∷ lines) =
    let rest = norm_lines lines in if is_empty (strip l) then rest else strip l ∷ rest

-- _exact_spans: str.find goes on behind its last match, so every offset is tried once
unfoldable pub exact_spans : ℕ → Text → Text → List ℕ
unfolding after_prefix
exact_spans i [] needle = if is_some (after_prefix needle []) then i ∷ [] else []
exact_spans i (c ∷ t) needle =
    let rest = exact_spans (i + 1) t needle in
    if is_some (after_prefix needle (c ∷ t)) then i ∷ rest else rest

-- `idx_norm`, from the line number i
unfoldable pub idx_norm : ℕ → List Text → List (ℕ × Text)
unfolding strip
idx_norm i [] = []
idx_norm i (l ∷ lines) =
    let rest = idx_norm (i + 1) lines in if is_empty (strip l) then rest else (i, strip l) ∷ rest

-- `window == target`, with the number of the last line of the window
unfoldable pub window_end : List Text → List (ℕ × Text) → ℕ → Option ℕ
unfolding eq_text
window_end [] idx last = some last
window_end (t ∷ target) [] last = none
window_end (t ∷ target) ((i, l) ∷ idx) last = elim (eq_text l t) [
  | true ↦ window_end target idx i
  | false ↦ none
]

-- the loop over k; a window that is cut short at the end is not equal to the target
unfoldable pub window_spans : List Text → List (ℕ × Text) → List (ℕ × ℕ)
unfolding window_end
window_spans target [] = []
window_spans target ((i, l) ∷ idx) =
    let rest = window_spans target idx in
    elim (window_end target ((i, l) ∷ idx) i) [ none ↦ rest | some last ↦ (i, last) ∷ rest ]

-- _fuzzy_line_spans
unfoldable pub fuzzy_line_spans : List Text → Text → List (ℕ × ℕ)
unfolding norm_lines idx_norm window_spans splitlines
fuzzy_line_spans hay_lines needle =
    let target = norm_lines (splitlines needle) in
    if is_empty target then [] else window_spans target (idx_norm 0 hay_lines)

-- the names with the same basename
unfoldable pub same_basename : Text → FileMap → List Text
unfolding basename eq_text
same_basename name [] = []
same_basename name ((k, v) ∷ files) =
    let rest = same_basename name files in
    if eq_text (basename k) (basename name) then k ∷ rest else rest

abbrev pub only {ℓ} : {A : Type ℓ} → List A → Option A
only (x ∷ []) = some x
only _ = none

abbrev pub sole_file : FileMap → Option Text
sole_file ((k, v) ∷ []) = some k
sole_file _ = none

-- _resolve_file
unfoldable pub resolve_file : Option Text → FileMap → Option Text
unfolding lookup same_basename
resolve_file none files = sole_file files
resolve_file (some []) files = sole_file files
resolve_file (some (c ∷ name)) files =
    if is_some (lookup (c ∷ name) files)
    then some (c ∷ name)
    else only (same_basename (c ∷ name) files)

-- Miss.reason
pub data MissReason : Type 0 where
  not_found ambiguous no_file empty_search : MissReason

pub record Miss : Type 0 where
  pub block : Block
  pub reason : MissReason

-- the content behind one edit, or the reason why there is none
pub data Edit : Type 0 where
  edited : Text → Edit
  missed : MissReason → Edit

-- content[:i] + replace + content[i + len(search):]
unfoldable pub splice : Text → Text → Text → ℕ → Text
splice content search replace i = take i content ++ (replace ++ drop (i + length search) content)

-- the lines from `start` to `end` replaced
unfoldable pub splice_lines : Text → Text → ℕ × ℕ → Text
unfolding splitlines join ends_with_newline
splice_lines content replace (start, end_line) =
    let hay_lines = splitlines content in
    join (take start hay_lines ++ (splitlines replace ++ drop (end_line + 1) hay_lines))
    ++ (if ends_with_newline content then newline ∷ [] else [])

abbrev pub fuzzy_edit : Text → Block → List (ℕ × ℕ) → Edit
fuzzy_edit content b [] = missed not_found
fuzzy_edit content b (span ∷ []) = edited (splice_lines content b.replace span)
fuzzy_edit content b (span ∷ other ∷ spans) = missed ambiguous

abbrev pub exact_edit : Text → Block → List ℕ → Edit
exact_edit content b [] = fuzzy_edit content b (fuzzy_line_spans (splitlines content) b.search)
exact_edit content b (i ∷ []) = edited (splice content b.search b.replace i)
exact_edit content b (i ∷ j ∷ spans) = missed ambiguous

-- a block on the content of its file
unfoldable pub edit_content : Text → Block → Edit
unfolding exact_spans fuzzy_line_spans splice splice_lines
edit_content content b = exact_edit content b (exact_spans 0 content b.search)

-- a resolved name is in the map, so its content is there
abbrev pub edit_file : Block → Text → Option Text → Edit
edit_file b fname none = missed no_file
edit_file b fname (some content) = edit_content content b

-- the new files, or the reason of the miss
abbrev pub store : Text → FileMap → Edit → FileMap × Option MissReason
store fname files (edited content) = (put fname content files, none)
store fname files (missed reason) = (files, some reason)

abbrev pub apply_resolved : Block → FileMap → Option Text → FileMap × Option MissReason
apply_resolved b files none = (files, some no_file)
apply_resolved b files (some fname) = store fname files (edit_file b fname (lookup fname files))

-- one round of the loop
unfoldable pub apply_block : Block → FileMap → FileMap × Option MissReason
unfolding strip resolve_file edit_content put lookup
apply_block b files =
    if is_empty (strip b.search)
    then (files, some empty_search)
    else apply_resolved b files (resolve_file b.file files)

abbrev pub add_miss : Block → Option MissReason → List Miss → List Miss
add_miss b none misses = misses
add_miss b (some reason) misses = record { block = b; reason = reason } ∷ misses

-- apply_blocks
unfoldable pub apply_blocks : FileMap → List Block → FileMap × List Miss
unfolding apply_block
apply_blocks files [] = (files, [])
apply_blocks files (b ∷ blocks) =
    let (after, reason) = apply_block b files in
    let (last, misses) = apply_blocks after blocks in (last, add_miss b reason misses)
