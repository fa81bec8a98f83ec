-- ===== src/AgentLoop/Generated.antt =====
-- The generation of code (scripts/run_loop.py) publishes nothing.
use tig_swarm_demo.Prelude.{
  ℕ, zero, suc, inl, inr, Bool, true, false, not, ◌&&◌, ◌||◌, Option, none, some, List, [], ◌∷◌,
  Bool-cases, if◌then◌else◌,
}
use tig_swarm_demo.SearchReplace.Text.{Text, is_empty}
use tig_swarm_demo.SearchReplace.Parse.{Block}
use tig_swarm_demo.SearchReplace.Apply.{FileMap, Miss, apply_blocks}
use tig_swarm_demo.ChallengeFiles.{read_text}
use tig_swarm_demo.AgentLoop.{Outside, World, after_ask, ask_code, with_entry}
use tig_swarm_demo.AgentLoop.Generating.{
  EditMode, blocks_of, some_applied, edit_rounds, finish_edits, generate_search_replace, Attempt,
  given_up, rejected, accepted, attempt_of, generate_full, use_search_replace, generate_code,
}
use tig_swarm_demo.AgentLoop.Growth.{Grows, Grows-refl, Grows-trans, after_ask-Grows}
use tig_swarm_demo.AgentLoop.Tuned.{write_map-Grows}

edit_rounds-Grows :
    (env : Outside) (left : ℕ) (applied_any : Bool) (files : FileMap) (w : World)
    → Grows env w (edit_rounds env left applied_any files w).2
unfolding edit_rounds ask_code
edit_rounds-Grows env zero applied_any files w = Grows-refl env w
edit_rounds-Grows env (suc left) applied_any files w =
    go (λ a f. edit_rounds-Grows env left a f (after_ask w)) (is_empty blocks) edited.1
  where
    asked : World
    asked = after_ask w

    blocks : List Block
    blocks = blocks_of (env.answer w.calls)

    edited : FileMap × List Miss
    edited = apply_blocks files blocks

    go :
        ((a : Bool) (f : FileMap) → Grows env asked (edit_rounds env left a f asked).2)
        → (empty : Bool) (misses : List Miss)
        → Grows env w
            (if empty
              then (applied_any, files, asked)
              else elim misses as (λ _. Bool × FileMap × World) [
                | [] ↦ (applied_any || some_applied blocks misses, edited.0, asked)
                | m ∷ ms ↦
                    edit_rounds env left (applied_any || some_applied blocks misses) edited.0 asked
              ]).2
    go again true misses = after_ask-Grows env w
    go again false [] = after_ask-Grows env w
    go again false (m ∷ ms) = Grows-trans (after_ask-Grows env w) (again _ edited.0)

finish_edits-Grows :
    (env : Outside) (applied_any : Bool) (files : FileMap) (w : World)
    → Grows env w (finish_edits env applied_any files w).1
finish_edits-Grows env false files w = Grows-refl env w
finish_edits-Grows env true files w =
    elim (Bool-cases (env.violation entry_code (with_entry env entry_code files))) [
      | inl e ↦ rw e (Grows-refl env w)
      | inr e ↦ rw e (write_map-Grows env (with_entry env entry_code files) w)
    ]
  where
    entry_code : Text
    entry_code = env.common_imports (env.challenge_import (read_text env.files.entry_name files))

generate_search_replace-Grows :
    (env : Outside) (w : World) → Grows env w (generate_search_replace env w).1
unfolding generate_search_replace
generate_search_replace-Grows env w = elim (Bool-cases (is_empty w.disk)) [
  | inl e ↦ rw e (Grows-refl env w)
  | inr e ↦
      rw e (Grows-trans (edit_rounds-Grows env 3 false w.disk w) (finish_edits-Grows env _ _ _))
]

generate_full-Grows :
    (env : Outside) (left : ℕ) (w : World) → Grows env w (generate_full env left w).1
unfolding generate_full ask_code
generate_full-Grows env zero w = Grows-refl env w
generate_full-Grows env (suc left) w =
    go (generate_full-Grows env left (after_ask w))
      (attempt_of env (after_ask w) (env.answer w.calls))
  where
    go :
        Grows env (after_ask w) (generate_full env left (after_ask w)).1
        → (a : Attempt)
        → Grows env w
            (elim a as (λ _. Option (Text × Text) × World) [
              | given_up ↦ (none, after_ask w)
              | rejected ↦ generate_full env left (after_ask w)
              | accepted code kernel ↦ (some (code, kernel), after_ask w)
            ]).1
    go again given_up = after_ask-Grows env w
    go again rejected = Grows-trans (after_ask-Grows env w) again
    go again (accepted code kernel) = after_ask-Grows env w

pub generate_code-Grows :
    (env : Outside) (mode : EditMode) (force_full : Bool) (w : World)
    → Grows env w (generate_code env mode force_full w).1
unfolding generate_code
generate_code-Grows env mode force_full w =
    elim (Bool-cases (not force_full && use_search_replace env mode w.disk)) [
      | inl e ↦ rw e (generate_search_replace-Grows env w)
      | inr e ↦ rw e (generate_full-Grows env 3 w)
    ]
