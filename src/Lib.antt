-- ===== src/Lib.antt =====
-- The swarm: agents that mutate optimisation algorithms, benchmark them, and publish the results to a
-- server that keeps their trajectories, resets them when they stagnate, and shares what works.
--
-- Parts and files:
-- - Prelude: the names of the libraries that the rest uses, lists, integers, and the statements of SQL
--   on a table that is the list of its rows (Prelude/Table).
-- - Db: server/db.py. Db/Rows has a record for each table, and the other files one function for each
--   statement, under the name of its Python function, from one database to the next. Db/Valid states
--   when a database is well-formed, and that every statement keeps it so.
-- - Reset: server/trajectory_reset.py. Reset/Trip is the re-check under the write lock, Reset/Launching
--   the choice between a fresh start and the adoption of a pooled entry, and Reset/Machine the whole of
--   maybe_reset_trajectory, with `none` for a rollback.
-- - Sweep: deactivate_inactive_agent_trajectories of server/db.py, which frees the trajectories of
--   silent agents, one round for each row of its snapshot.
-- - SeedPool: server/seed_diversity.py, the admission of a seed.
-- - Iteration: create_iteration in server/server.py and IterationCreate in server/models.py. One file
--   for each phase: Verdict, Recording, Outcome, Capture, Harvest, and Publish for their composition.
--   A publish calls the statements of Db and the admission of SeedPool; a reset reads the counters and
--   the bests that publishes write, and both move rows of the pool of inactive algorithms.
-- - StateView: the authenticated GET /api/state in server/server.py. Peers and Seeding choose the code of
--   a fresh start (seed_for_agent), Tripping decides whether to call the reset, Hints gives a stagnating
--   agent its hint, and Poll composes them to _agent_state. Heartbeat is the endpoint that keeps an agent
--   alive between polls. A poll calls Reset, and what it stashes is read by the next Iteration.
-- - SlotPool: scripts/c3_pool.py, the shared directory of job slots. SlotPool/Slots has the
--   operations under the grant lock, and SlotPool/Steps the interleavings of the processes.
-- - Shards: scripts/c3_compute.py, the split of a benchmark over machines: Shards/Plan has
--   _instance_units, _balanced_sizes and _plan_shards.
-- - SearchReplace: scripts/search_replace.py, the edits of a model's answer. Text has what it uses of
--   Python's str, on code points, Parse the markers and parse_blocks, and Apply the exact match, the
--   match by lines and apply_blocks.
-- - CleanerPrepass: scripts/cleaner_prepass.py, the paths that a module declaration stands for and the
--   removal of the files that the entry does not reach. It takes texts and files from SearchReplace.
-- - Supervisor: runner/supervisor.py, the registry of the hosted fleets. Its Refinement has the map
--   that a client sees, and Steps the proof that every call agrees with it.
-- - Hpo: scripts/hpo.py, the configurations of a hyperparameter search, its trials, and the winner of
--   each track. The benchmark and the random draws are parameters.
-- - Enrollment: runner/validation.py, the writes of runner/store.py and, in Service, the calls of
--   runner/service.py that enrol a contributor and undo it. They drive Supervisor. Admitted is about
--   one plan or write, Limits about any sequence of these calls.
-- - ChallengeFiles: scripts/challenge_files.py, the reading and writing of the algorithm's files.
--   Sanitize and Restore are about sanitize_source and write_files, Tidy about well-formed directories.
-- - AgentLoop: scripts/run_loop.py, the loop of an agent. The file itself has the benchmark,
--   Fixing the compile and runtime fixes, Tuning the hyperparameter search (with Hpo), Cleaning the cleaner,
--   Generating the generation of code (with SearchReplace) and Iterations the while loop. The other
--   modules have the proofs, from Growth for the parts to Freeze for whole runs; Failing
--   and Broken are about a benchmark that never builds.
-- - Samples and the Tests modules: concrete data, and the theorems applied to it.
--
-- A publish and a reset start with BEGIN IMMEDIATE, so concurrent calls are sequences of whole
-- transactions, and each is a function on the database. The sweep is one function for each round, on
-- whatever database the round finds. A poll commits several times: Meanwhile in StateView/Poll
-- stands for what other connections commit in between. Identifiers and timestamps are
-- numbers that are only compared, and a score is an integer that keeps the order and the sign of the
-- double (Db/Rows says how). What comes from outside stands in the arguments: fresh identifiers, the
-- clock, the random draw, the digest of a text, the lines and the similarity of two codes, the seed
-- function, whether a process lives, and the answers of the model, the benchmark and the server. Two loops run on fuel. Every
-- round of the while loop of _plan_shards places an instance, so the count of the track is enough; every
-- round of the worklist of the cleaner takes off a name, and each file pushes its candidates once, so
-- their number is enough. The attempts of build_config_set and the retries of the agent's loop are the
-- source's own bounds. All other loops run over a list.
--
-- Not modelled: the schema's creation and migrations, what the server reads off for the dashboard and
-- broadcasts, the percentages and running costs that only reports show, and the scripts that drive
-- compilers, containers, model services and remote machines.
pub mod Prelude
pub mod Db
pub mod Reset
pub mod Sweep
pub mod SeedPool
pub mod Iteration
pub mod StateView
pub mod SearchReplace
pub mod CleanerPrepass
pub mod ChallengeFiles
pub mod Supervisor
pub mod Enrollment
pub mod Hpo
pub mod AgentLoop
pub mod SlotPool
pub mod Shards
pub mod Samples
