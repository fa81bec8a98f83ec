-- ===== src/AgentLoop/Generating.antt =====
-- _use_search_replace, _generate_code_search_replace and _generate_code (scripts/run_loop.py). Prompts
-- are left out, so the budget of characters that only they use is too.
use tig_swarm_demo.Prelude.{
  ℕ, zero, suc, ◌-◌, Bool, true, false, not, ◌&&◌, ◌||◌, Option, none, some, List, [], ◌∷◌, ltb,
  if◌then◌else◌, length,
}
use tig_swarm_demo.SearchReplace.Text.{Text, is_empty}
use tig_swarm_demo.SearchReplace.Parse.{Block, parse_blocks}
use tig_swarm_demo.SearchReplace.Apply.{FileMap, Miss, apply_blocks}
use tig_swarm_demo.ChallengeFiles.{read_text}
use tig_swarm_demo.AgentLoop.{Outside, World, ask_code, with_entry, validate_entry}
use tig_swarm_demo.AgentLoop.Tuning.{write_map}

-- what an iteration knows of its agent: whether it is an exploiter, and edit_mode: search_replace
pub record EditMode : Type 0 where
  pub exploiter : Bool
  pub search_replace : Bool

-- _use_search_replace
unfoldable pub use_search_replace : Outside → EditMode → FileMap → Bool
use_search_replace env mode [] = false
use_search_replace env mode ((k, v) ∷ []) =
    if env.is_stub v then false else mode.exploiter || mode.search_replace
use_search_replace env mode (f ∷ g ∷ files) = true

-- the blocks of an answer; none for an answer that did not come
abbrev pub blocks_of : Option Text → List Block
blocks_of none = []
blocks_of (some response) = parse_blocks response

abbrev pub some_applied : List Block → List Miss → Bool
some_applied blocks misses = ltb 0 (length blocks - length misses)

-- the rounds of _generate_code_search_replace, with those that are left; the flag says that a block was
-- applied
unfoldable pub edit_rounds : Outside → ℕ → Bool → FileMap → World → Bool × FileMap × World
unfolding ask_code apply_blocks parse_blocks
edit_rounds env zero applied_any files w = (applied_any, files, w)
edit_rounds env (suc left) applied_any files w =
    let (response, asked) = ask_code env w in
    let blocks = blocks_of response in
    let (edited_files, misses) = apply_blocks files blocks in
    let applied = applied_any || some_applied blocks misses in
    if is_empty blocks then (applied_any, files, asked) else elim misses [
      | [] ↦ (applied, edited_files, asked)
      | m ∷ ms ↦ edit_rounds env left applied edited_files asked
    ]

-- the code and the kernel that are left on disk, or nothing
abbrev pub finish_edits : Outside → Bool → FileMap → World → Option (Text × Text) × World
finish_edits env false files w = (none, w)
finish_edits env true files w =
    let entry_code =
      env.common_imports (env.challenge_import (read_text env.files.entry_name files)) in
    let edited_files = with_entry env entry_code files in
    if env.violation entry_code edited_files then (none, w) else (
      some (entry_code, read_text env.files.kernel_name edited_files),
      write_map env edited_files w,
    )

-- _generate_code_search_replace
unfoldable pub generate_search_replace : Outside → World → Option (Text × Text) × World
unfolding edit_rounds with_entry write_map read_text
generate_search_replace env w =
    let (applied_any, files, asked) = edit_rounds env 3 false w.disk w in
    if is_empty w.disk then (none, w) else finish_edits env applied_any files asked

-- an attempt of _generate_code: an answer that ends the loop, or one that is rejected
pub data Attempt : Type 0 where
  given_up : Attempt
  rejected : Attempt
  accepted : Text → Text → Attempt

unfoldable pub attempt_of : Outside → World → Option Text → Attempt
unfolding validate_entry
attempt_of env w none = given_up
attempt_of env w (some response) =
    let parsed = env.parse_response response in
    if is_empty parsed.0
    then given_up
    else if validate_entry env parsed.0 w
    then rejected
    else accepted (env.common_imports parsed.0) parsed.1

-- the full rewrite, with the attempts that are left
unfoldable pub generate_full : Outside → ℕ → World → Option (Text × Text) × World
unfolding ask_code attempt_of
generate_full env zero w = (none, w)
generate_full env (suc left) w =
    let (response, asked) = ask_code env w in
    elim (attempt_of env asked response) [
      | given_up ↦ (none, asked)
      | rejected ↦ generate_full env left asked
      | accepted code kernel ↦ (some (code, kernel), asked)
    ]

-- _generate_code
unfoldable pub generate_code : Outside → EditMode → Bool → World → Option (Text × Text) × World
unfolding use_search_replace generate_search_replace generate_full
generate_code env mode force_full w =
    if not force_full && use_search_replace env mode w.disk
    then generate_search_replace env w
    else generate_full env 3 w
