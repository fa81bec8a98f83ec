-- ===== src/ChallengeFiles.antt =====
-- scripts/challenge_files.py: the algorithm's source files. The directory is the list of its source files,
-- each path once, in no order. Reading it gives the list; the names of a files-map stay inside the
-- directory (any other raises).
use tig_swarm_demo.Prelude.{
  ℕ, Bool, true, false, not, ◌&&◌, Option, none, some, List, [], ◌∷◌, ◌++◌, map, ◌==◌, length,
  if◌then◌else◌, or_else,
}
use tig_swarm_demo.SearchReplace.Text.{Text, is_empty, eq_text}
use tig_swarm_demo.SearchReplace.Apply.{FileMap, lookup}
use tig_swarm_demo.CleanerPrepass.{contains}
pub mod Sanitize
pub mod Restore
pub mod Tidy
mod Tests

-- _CONFUSABLE_MAP
abbrev pub confusables : List (ℕ × Text)
confusables =
    (8216, b'\'' ∷ [])
    ∷ (8217, b'\'' ∷ [])
    ∷ (8218, b'\'' ∷ [])
    ∷ (8219, b'\'' ∷ [])
    ∷ (8220, b'"' ∷ [])
    ∷ (8221, b'"' ∷ [])
    ∷ (8222, b'"' ∷ [])
    ∷ (8223, b'"' ∷ [])
    ∷ (8242, b'\'' ∷ [])
    ∷ (8243, b'"' ∷ [])
    ∷ (8211, b'-' ∷ [])
    ∷ (8212, b'-' ∷ [])
    ∷ (8213, b'-' ∷ [])
    ∷ (8722, b'-' ∷ [])
    ∷ (160, b' ' ∷ [])
    ∷ (8239, b' ' ∷ [])
    ∷ (8199, b' ' ∷ [])
    ∷ (8201, b' ' ∷ [])
    ∷ (8203, [])
    ∷ (65279, [])
    ∷ (8230, b'.' ∷ b'.' ∷ b'.' ∷ [])
    ∷ []

-- str.translate of one character
unfoldable pub translate_char : List (ℕ × Text) → ℕ → Text
translate_char [] c = c ∷ []
translate_char ((d, t) ∷ table) c = if c == d then t else translate_char table c

unfoldable pub translate : List (ℕ × Text) → Text → Text
unfolding translate_char
translate table [] = []
translate table (c ∷ t) = translate_char table c ++ translate table t

-- text.replace("\r\n", "\n")
unfoldable pub join_crlf : Text → Text
join_crlf [] = []
join_crlf (c ∷ []) = c ∷ []
join_crlf (c ∷ d ∷ t) = elim (c == 13 && d == 10) [
  | true ↦ 10 ∷ join_crlf t
  | false ↦ c ∷ join_crlf (d ∷ t)
]

-- text.replace("\r", "\n")
unfoldable pub replace_cr : Text → Text
replace_cr [] = []
replace_cr (c ∷ t) = (if c == 13 then 10 else c) ∷ replace_cr t

unfoldable pub sanitize_source : Text → Text
unfolding join_crlf replace_cr translate
sanitize_source t = translate confusables (replace_cr (join_crlf t))

unfoldable pub path_names : FileMap → List Text
path_names [] = []
path_names ((k, v) ∷ files) = k ∷ path_names files

-- the files that are not at a path
unfoldable pub without : Text → FileMap → FileMap
unfolding eq_text
without k [] = []
without k ((j, v) ∷ files) =
    let rest = without k files in if eq_text j k then rest else (j, v) ∷ rest

-- _safe_write
unfoldable pub safe_write : Text → Text → FileMap → FileMap
unfolding without sanitize_source
safe_write k v disk = without k disk ++ (k, sanitize_source v) ∷ []

-- the loop of write_files
unfoldable pub write_each : FileMap → FileMap → FileMap
unfolding safe_write
write_each [] disk = disk
write_each ((k, v) ∷ files) disk = write_each files (safe_write k v disk)

-- the pruning of write_files
unfoldable pub prune : List Text → FileMap → FileMap
unfolding contains
prune keys [] = []
prune keys ((k, v) ∷ disk) =
    let rest = prune keys disk in if contains keys k then (k, v) ∷ rest else rest

unfoldable pub write_files : Text → FileMap → FileMap → FileMap
unfolding write_each prune path_names contains
write_files entry files disk =
    if is_empty files
    then disk
    else let written = write_each files disk in
      if contains (path_names files) entry then prune (path_names files) written else written

-- what the configuration says of the files: the entry's name, the kernel's, and whether there is one
pub record FilesConfig : Type 0 where
  pub entry_name : Text
  pub kernel_name : Text
  pub is_gpu : Bool

-- read_algorithm, read_kernel: the empty text where there is no file
unfoldable pub read_text : Text → FileMap → Text
unfolding lookup
read_text name disk = or_else (lookup name disk) []

-- ChallengeFiles.read
unfoldable pub read : FilesConfig → FileMap → Text × Text
unfolding read_text
read cfg disk =
    (read_text cfg.entry_name disk, if cfg.is_gpu then read_text cfg.kernel_name disk else [])

-- ChallengeFiles.write
unfoldable pub write : FilesConfig → Text → Text → FileMap → FileMap
unfolding safe_write
write cfg code kernel disk =
    let written = safe_write cfg.entry_name code disk in
    if cfg.is_gpu && not (is_empty kernel)
    then safe_write cfg.kernel_name kernel written
    else written
