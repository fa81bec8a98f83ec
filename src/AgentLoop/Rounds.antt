-- ===== src/AgentLoop/Rounds.antt =====
-- A whole iteration of scripts/run_loop.py, from the freeze guard on.
use tig_swarm_demo.Prelude.{
  ◌≡◌, refl, inl, inr, Bool, true, false, not, ◌&&◌, ◌||◌, Option, none, some, arith, Bool-cases,
  if◌then◌else◌,
}
use tig_swarm_demo.SearchReplace.Text.{Text, is_empty}
use tig_swarm_demo.SearchReplace.Apply.{FileMap}
use tig_swarm_demo.CleanerPrepass.{contains}
use tig_swarm_demo.CleanerPrepass.Closure.{eq_text_refl}
use tig_swarm_demo.ChallengeFiles.{path_names, without, read_text}
use tig_swarm_demo.ChallengeFiles.Tidy.{IsTidy, contains-snoc, write_files-has_entry}
use tig_swarm_demo.AgentLoop.{
  defaults, Built, built, failed, Outside, World, note_run, run_benchmark, after_ask, with_entry,
  validate_entry,
}
use tig_swarm_demo.AgentLoop.Tuning.{write_map}
use tig_swarm_demo.AgentLoop.Cleaning.{publish_results}
use tig_swarm_demo.AgentLoop.Iterations.{
  State, Input, Loop, Outcome, continues, note_success, best_pair, after_agent_run,
  take_agent_files, mutate, wants_clean, clean_or_mutate, after_seed_run, start_from_best,
  with_state, state_files_map,
}
use tig_swarm_demo.AgentLoop.Growth.{
  HasEntry, Grows, Grows-trans, note_run-Grows, after_ask-Grows, restore_best-Grows,
}
use tig_swarm_demo.AgentLoop.Tuned.{write_map-Grows}
use tig_swarm_demo.AgentLoop.Honest.{
  Advances, Advances-refl, Advances-trans, Grows-Advances, publish_results-Advances,
}
use tig_swarm_demo.AgentLoop.Cleaned.{CleanGives, run_cleaner_iteration_lem}
use tig_swarm_demo.AgentLoop.Turns.{
  Pays, Pays-after, note_failure-Pays, scored-Pays, Turn, Pays-Turn, Turn-after, note_success-Turn,
  complete-Turn,
}

with_entry-has :
    (env : Outside) (code : Text) (files : FileMap)
    → contains (path_names (with_entry env code files)) env.files.entry_name ≡ true
unfolding with_entry
with_entry-has env code files = ground (
  arith,
  contains-snoc env.files.entry_name env.files.entry_name code (without env.files.entry_name files),
  eq_text_refl env.files.entry_name,
)

after_agent_run-Pays :
    (env : Outside) (inp : Input) (st : State) (s : Loop) (result : Built) (w v : World)
    → IsTidy w.disk
    → Grows env w v
    → HasEntry env v
    → Pays env w s (after_agent_run env inp st s result (note_run defaults result v))
after_agent_run-Pays env inp st s (failed err) w v tidy g has = note_failure-Pays env s w _ (
    Grows-trans g (
      Grows-trans (note_run-Grows env defaults (failed err) v)
        (restore_best-Grows env (best_pair st) _)))
after_agent_run-Pays env inp st s (built b) w v tidy g has =
    scored-Pays env inp st s b w _ tidy (Grows-trans g (note_run-Grows env defaults (built b) v))
      has (inl refl) (omega (arith, g.more))

take_agent_files-Pays :
    (env : Outside) (inp : Input) (st : State) (s : Loop) (left : FileMap) (w : World)
    → IsTidy w.disk
    → Pays env w s (take_agent_files env inp st s left w)
unfolding take_agent_files run_benchmark write_map
take_agent_files-Pays env inp st s left w tidy =
    elim (Bool-cases (is_empty raw || validate_entry env code w)) [
      | inl e ↦ rw e (note_failure-Pays env s w _ (restore_best-Grows env (best_pair st) w))
      | inr e ↦ rw e (
          after_agent_run-Pays env inp st s (env.benchmark w.calls written.disk defaults) w written
            tidy (write_map-Grows env (with_entry env code left) w)
            (write_files-has_entry env.files.entry_name (with_entry env code left) w.disk
              (inl (with_entry-has env code left))))
    ]
  where
    raw : Text
    raw = read_text env.files.entry_name left

    code : Text
    code = env.common_imports (env.challenge_import raw)

    written : World
    written = write_map env (with_entry env code left) w

mutate-Turn :
    (env : Outside) (inp : Input) (st : State) (s : Loop) (w : World)
    → IsTidy w.disk
    → Turn env w s (mutate env inp st s w)
unfolding mutate
mutate-Turn env inp st s w tidy = elim (Bool-cases inp.agentic) [
  | inl e ↦ simp e (
      Pays-Turn s _ (
        Pays-after s _ (Grows-Advances (after_ask-Grows env w))
          (take_agent_files-Pays env inp st s (env.agent w.calls) (after_ask w) tidy)))
  | inr e ↦ simp e (complete-Turn env inp st s w tidy)
]

-- The cleaner's note of its last attempt leaves the counter alone.
noted :
    (env : Outside) (w : World) (s : Loop) (out : Outcome × Loop)
    → Turn env w (record s { cleaner_last_attempt = some s.iteration }) out
    → Turn env w s out
noted env w s out t = record {
  advances = t.advances;
  at_most = t.at_most;
  kept = t.kept;
  fair = t.fair;
}

-- An iteration that ends before it does anything.
idle : (env : Outside) (s : Loop) → Turn env s.world s (continues, s)
idle env s = record {
  advances = Advances-refl env s.world;
  at_most = omega arith;
  kept = refl;
  fair = inr (omega arith, inl refl);
}

cleaned-Turn :
    (env : Outside) (inp : Input) (st : State) (s : Loop) (w v : World) (cleaned : Bool)
    → IsTidy w.disk
    → Advances env w v
    → v.code_asked ≡ w.code_asked
    → CleanGives env inp.clean st.trajectory_best w (cleaned, v)
    → Turn env w s (
        if cleaned
        then note_success (record s { cleaner_last_attempt = some s.iteration }) v
        else mutate env inp st (record s { cleaner_last_attempt = some s.iteration }) v)
cleaned-Turn env inp st s w v true tidy g a c =
    noted env w s _
      (note_success-Turn env (record s { cleaner_last_attempt = some s.iteration }) w v g c.more)
cleaned-Turn env inp st s w v false tidy g a c = noted env w s _ (
    Turn-after (record s { cleaner_last_attempt = some s.iteration }) _ g a
      (mutate-Turn env inp st (record s { cleaner_last_attempt = some s.iteration }) v
        (g.tidy tidy)))

clean_or_mutate-Turn :
    (env : Outside) (inp : Input) (st : State) (s : Loop) (w : World)
    → IsTidy w.disk
    → Turn env w s (clean_or_mutate env inp st s w)
unfolding clean_or_mutate
clean_or_mutate-Turn env inp st s w tidy =
    let (g, a, c) = run_cleaner_iteration_lem env inp.clean st.trajectory_best w in
    elim (Bool-cases (wants_clean env inp st s)) [
      | inl e ↦ simp e (cleaned-Turn env inp st s w _ _ tidy g a c)
      | inr e ↦ simp e (mutate-Turn env inp st s w tidy)
    ]

after_seed_run-Turn :
    (env : Outside) (inp : Input) (st : State) (s : Loop) (result : Built) (w : World)
    → IsTidy w.disk
    → Turn env w s (after_seed_run env inp st s result (note_run defaults result w))
unfolding publish_results
after_seed_run-Turn env inp st s (failed err) w tidy =
    Turn-after s _ (Grows-Advances (note_run-Grows env defaults (failed err) w)) refl
      (clean_or_mutate-Turn env inp st s _ tidy)
after_seed_run-Turn env inp st s (built b) w tidy =
    note_success-Turn env s w _
      (Advances-trans (Grows-Advances (note_run-Grows env defaults (built b) w))
        (publish_results-Advances env defaults b _ (inl refl)))
      (omega arith)

start_from_best-Turn :
    (env : Outside) (inp : Input) (st : State) (s : Loop) (w : World)
    → IsTidy w.disk
    → Turn env w s (start_from_best env inp st s w)
unfolding start_from_best run_benchmark
start_from_best-Turn env inp st s w tidy =
    elim (Bool-cases
      (st.needs_benchmark && not (is_empty st.best_code) && not (env.is_stub st.best_code))) [
        | inl e ↦
            rw e (after_seed_run-Turn env inp st s (env.benchmark w.calls w.disk defaults) w tidy)
        | inr e ↦ rw e (clean_or_mutate-Turn env inp st s w tidy)
      ]

pub with_state-Turn :
    (env : Outside) (inp : Input) (s : Loop) (state : Option State)
    → IsTidy s.world.disk
    → Turn env s.world s (with_state env inp s state)
unfolding write_map
with_state-Turn env inp s none tidy = idle env s
with_state-Turn env inp s (some st) tidy =
    elim (Bool-cases (inp.mode.exploiter && env.is_stub st.best_code)) [
      | inl e ↦ rw e (idle env s)
      | inr e ↦
          rw e (elim (Bool-cases (not (is_empty st.best_code) && not (env.is_stub st.best_code))) [
            | inl f ↦ rw f (
                Turn-after s _
                  (Grows-Advances (write_map-Grows env (state_files_map env st) s.world)) refl
                  (start_from_best-Turn env inp st s _ (written.tidy tidy)))
            | inr f ↦ rw f (start_from_best-Turn env inp st s s.world tidy)
          ])
    ]
  where
    written : Grows env s.world (write_map env (state_files_map env st) s.world)
    written = write_map-Grows env (state_files_map env st) s.world
