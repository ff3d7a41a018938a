-- ===== src/Lib.antt =====
-- Verification of ResuAlign-Lite, a local workbench that aligns resumes with job descriptions.
--
-- The program is a FastAPI service over SQLite stores. A request to align a resume passes the
-- guard of the daily budget, becomes a row of the registry of analysis jobs, is claimed by a
-- worker and ends in a terminal row; a watchdog fails the rows of stuck workers. The worker and
-- the watchdog mirror its state into the alignment badge of the library job. A library job also
-- has a delivery stage with a timeline of dates, moved by single and bulk edits, and snapshots of
-- what was sent. The calls of language models go to nodes that roles are bound to, with a breaker
-- per node and a fallback to other nodes. Rules of the user strike jobs out, a batch aligns many
-- jobs at once, a cache spares repeated model calls, and a limiter bounds the requests of a
-- client.
--
-- * Registry (src/resualign/jobs.py): `JobRegistry`. Registry.Rows holds the tables `jobs` and
--   `job_payloads`; Housekeeping the purge and the row cap; Methods the writes, from `create` to
--   `delete`; Reads the queries; FailStreak `recent_fail_streak` with SQLite's LIKE. Operations
--   puts the writes in one type of calls, so that a trace of calls is any interleaving that the
--   lock admits.
-- * Delivery (src/resualign/job_library/): Vocabulary, Transitions and Timeline are models.py and
--   status_lifecycle.py; Writes is `bulk_update_status` with `_insert_application_snapshot`; Edit
--   is the part of `update_job` that decides the stage, the timeline and the snapshot.
-- * Alignment (src/resualign/alignment_lifecycle.py): the machine of the alignment badge, with
--   what `update_job` stores of a transition.
-- * Budget (src/resualign/llm_usage.py, src/resualign/api/services/cost_guard.py): Usage is
--   `LLMUsageStore`, Guard the checks before a task is queued. Guard reads the registry's fail
--   streak.
-- * RateLimit (src/resualign/app/rate_limit.py), Cache (src/resualign/cache.py) and Watchdog
--   (src/resualign/api/services/watchdog.py), which sweeps the registry through `fail`.
-- * Outcome (src/resualign/api/services/alignment_rules.py): the gate between raw and verified
--   edits, and how a run ends.
-- * Batch (src/resualign/batch.py): the in-memory store of batches of alignments, and their
--   summary.
-- * Orchestration (src/resualign/api/services/batch.py): the refresh of the rows of a batch from
--   the registry, the view of a batch, its cancellation and the selection of the jobs that wait
--   for a run.
-- * Runner (src/resualign/api/services/jobs.py): the queueing of a job, which goes through Budget
--   into Registry; Worker the claim, the run and what is released after it. Ends is about the job
--   and Slots about the reserved call after a run.
-- * Nodes (src/resualign/engine/llm_nodes.py): `LLMNodeStore`. Nodes has the rows and the reads;
--   Breaker the counters of calls and the circuit breaker, Writes the writes of nodes, Bindings
--   those of roles. Its other modules have the theorems.
-- * Router (src/resualign/engine/role_router.py): Calls is `call_with_role`, which asks Nodes for
--   the node of a role and counts each call there; Cooldown has the marks of nodes that timed out,
--   Warmth the scheduling of warmups. The others have the theorems.
-- * SecretBox (src/resualign/secret_box.py): the encryption of API keys that the node store uses,
--   with the key file that processes share. KeyFile is about loads of the key, Recovery about
--   reading a secret later, Stable about encrypting twice.
-- * Rules (src/resualign/rules.py, and the rule methods of src/resualign/job_library/): the
--   evaluation of the rules on a job; Store the table of rules.
-- * Prelude holds the shared vocabulary: tables as lists of rows with the effect of UPDATE, DELETE
--   and SELECT on a key, stable sorting for ORDER BY, Python's strip and truth of a text, signed
--   numbers.
-- * Tests holds concrete inputs.
--
-- Conventions. A table is the list of its rows in rowid order. A lock makes each method one step
-- from a table to a table, with its result. Where the code takes the lock more than once, what
-- other threads write in between is a parameter (Alignment, the cancellation of Orchestration), or
-- the model is of a call that no other write interrupts (`update_job` of Delivery.Edit, the
-- refresh of Orchestration, a run of Runner under the gate of its tenant); exceptions are values.
-- The clock, fresh ids and random draws are arguments. Times are whole ticks of a clock, a
-- thousand to the second, and `a - b > c` is written `b + c < a`; the differences the program
-- shows are signed. JSON stays text. Money is counted in millionths, where the program uses binary
-- floating point. SHA-256, `float` with the order of its values, `str.lower`, the members of a
-- JSON object, the encryption of keys in Nodes and Fernet in SecretBox, the environment, the
-- stages of a run, the score in its result and the function that is called with a client are
-- parameters. Every loop is a recursion on a list of rows, ids or calls, except that of the row
-- cap, which runs on fuel: the number of rows, since each turn deletes one.
--
-- Not modelled: the language-model stages and their prompts, HTTP routing, the stores of settings,
-- resumes and applications, the start of a batch (`queue_batch_align`), the batches of preanalysis
-- and import, exports, logging, the front end and the browser extension, and the vendored
-- src/resualign/gate.py. Of src/resualign/job_library/__init__.py, the columns outside the stage,
-- the timeline, the badge and the snapshots are not modelled.
pub mod Prelude
pub mod Registry
pub mod Delivery
pub mod Budget
pub mod RateLimit
pub mod Cache
pub mod Alignment
pub mod Watchdog
pub mod Outcome
pub mod Batch
pub mod Nodes
pub mod Router
pub mod Rules
pub mod Runner
pub mod SecretBox
pub mod Orchestration
pub mod Tests
