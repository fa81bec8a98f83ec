-- ===== src/CleanerPrepass.antt =====
-- scripts/cleaner_prepass.py: the files of an algorithm that its entry reaches. The pattern of a `mod`
-- declaration is a parameter: a list of the names that a code declares.
use tig_swarm_demo.Prelude.{
  ℕ, zero, suc, ◌+◌, Bool, true, false, not, ◌&&◌, ◌||◌, Option, none, some, List, [], ◌∷◌, ◌++◌,
  ◌==◌, if◌then◌else◌, is_some, length,
}
use tig_swarm_demo.SearchReplace.Text.{Text, eq_text, is_empty}
use tig_swarm_demo.SearchReplace.Apply.{FileMap, lookup}
pub mod Closure
pub mod Kept
mod Tests

-- str.rsplit(c, 1): the parts around the last c
unfoldable pub rsplit : ℕ → Text → Option (Text × Text)
rsplit c [] = none
rsplit c (d ∷ t) = elim (rsplit c t) [
  | some (before, after) ↦ some (d ∷ before, after)
  | none ↦ if d == c then some ([], t) else none
]

-- _dir
unfoldable pub dir_of : Text → Text
unfolding rsplit
dir_of name = elim (rsplit b'/' name) [ none ↦ [] | some (dir, base) ↦ dir ]

-- name.rsplit("/", 1)[-1]
unfoldable pub base_of : Text → Text
unfolding rsplit
base_of name = elim (rsplit b'/' name) [ none ↦ name | some (dir, base) ↦ base ]

-- _stem
unfoldable pub stem : Text → Text
unfolding base_of rsplit
stem name = elim (rsplit b'.' (base_of name)) [ none ↦ base_of name | some (s, ext) ↦ s ]

abbrev pub mod_word : Text
mod_word = b'm' ∷ b'o' ∷ b'd' ∷ []

abbrev pub lib_word : Text
lib_word = b'l' ∷ b'i' ∷ b'b' ∷ []

abbrev pub main_word : Text
main_word = b'm' ∷ b'a' ∷ b'i' ∷ b'n' ∷ []

abbrev pub rs_ending : Text
rs_ending = b'.' ∷ b'r' ∷ b's' ∷ []

-- f"{d}/" if d else ""
abbrev pub prefix_of : Text → Text
prefix_of [] = []
prefix_of (c ∷ d) = (c ∷ d) ++ b'/' ∷ []

-- _module_dir
unfoldable pub module_dir : Text → Text
unfolding stem dir_of eq_text
module_dir name =
    let s = stem name in
    if eq_text s mod_word || eq_text s lib_word || eq_text s main_word
    then dir_of name
    else prefix_of (dir_of name) ++ s

-- the two candidates in one directory
unfoldable pub candidates_in : Text → Text → List Text
candidates_in mod_name d =
    (prefix_of d ++ (mod_name ++ rs_ending))
    ∷ (prefix_of d ++ (mod_name ++ (b'/' ∷ (mod_word ++ rs_ending))))
    ∷ []

-- _mod_candidates
unfoldable pub mod_candidates : Text → Text → List Text
unfolding module_dir dir_of candidates_in eq_text
mod_candidates declaring mod_name =
    candidates_in mod_name (module_dir declaring)
    ++ (if eq_text (dir_of declaring) (module_dir declaring)
        then []
        else candidates_in mod_name (dir_of declaring))

-- str.endswith(".rs")
unfoldable pub is_rs : Text → Bool
unfolding eq_text
is_rs [] = false
is_rs (c ∷ t) = eq_text (c ∷ t) rs_ending || is_rs t

-- `in`, on a set
unfoldable pub contains : List Text → Text → Bool
unfolding eq_text
contains [] n = false
contains (m ∷ names) n = eq_text m n || contains names n

-- `rs`
unfoldable pub rs_files : FileMap → List Text
unfolding is_rs
rs_files [] = []
rs_files ((n, code) ∷ files) = let rest = rs_files files in if is_rs n then n ∷ rest else rest

-- frontier.append, for the candidates that are files and not reached; the top of the stack stands
-- first
unfoldable pub push : List Text → List Text → List Text → List Text → List Text
unfolding contains
push rs reachable [] frontier = frontier
push rs reachable (child ∷ rest) frontier =
    push rs reachable rest
      (if contains rs child && not (contains reachable child) then child ∷ frontier else frontier)

-- the files that are kept: all but the .rs files that are not reached
unfoldable pub keep_files : List Text → FileMap → FileMap
unfolding is_rs contains
keep_files reachable [] = []
keep_files reachable ((n, code) ∷ files) =
    let rest = keep_files reachable files in
    if is_rs n && not (contains reachable n) then rest else (n, code) ∷ rest

module _ (declared_mods : Text → List Text) where
  -- the candidates of every declaration of a file, in the order of the two loops
  unfoldable pub candidates_of : Text → List Text → List Text
  unfolding mod_candidates
  candidates_of name [] = []
  candidates_of name (m ∷ mods) = mod_candidates name m ++ candidates_of name mods

  -- the code of a file of the frontier, which is always in the map
  unfoldable pub candidates_from : FileMap → Text → List Text
  unfolding candidates_of lookup
  candidates_from files name = elim (lookup name files) [
    | none ↦ []
    | some code ↦ candidates_of name (declared_mods code)
  ]

  -- the while loop, on fuel
  unfoldable pub reach : FileMap → ℕ → List Text → List Text → List Text
  unfolding contains push candidates_from rs_files
  reach files zero reachable frontier = reachable
  reach files (suc fuel) reachable [] = reachable
  reach files (suc fuel) reachable (name ∷ frontier) = elim (contains reachable name) [
    | true ↦ reach files fuel reachable frontier
    | false ↦
        reach files fuel (name ∷ reachable)
          (push (rs_files files) (name ∷ reachable) (candidates_from files name) frontier)
  ]

  -- every round pops a name, and the names that are pushed are candidates of a file
  unfoldable pub pushes : FileMap → FileMap → ℕ
  unfolding candidates_from
  pushes all [] = 0
  pushes all ((n, code) ∷ files) = length (candidates_from all n) + pushes all files

  -- `reachable` after the loop
  unfoldable pub reachable_files : FileMap → Text → List Text
  unfolding reach pushes lookup
  reachable_files files entry =
      if is_some (lookup entry files)
      then reach files (pushes files files + 2) [] (entry ∷ [])
      else []

  -- remove_unreachable_files, without the log of what was dropped
  unfoldable pub remove_unreachable_files : FileMap → Text → FileMap
  unfolding keep_files reachable_files
  remove_unreachable_files files entry = keep_files (reachable_files files entry) files
