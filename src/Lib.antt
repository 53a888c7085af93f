-- ===== src/Lib.antt =====
-- WUDup turns image update notices of What's Up Docker into reviewed Docker Compose updates. This
-- library models the core logic of its Python package (src/wudup) as functions and proves what
-- they promise to one another.
--
-- Text is the list of its code points (Text in Prelude/Chars), a Python dict is an association
-- list in the order of insertion (Prelude/Dict), a set of numbers is a list without repetition,
-- and a raised error is a value of a result type. What the program takes from Python's Unicode
-- tables, str.strip() and str.lower(), is the record Unicode of Prelude/Unicode, whose laws are
-- the documented behaviour on ASCII text.
--
-- - Images (src/wudup/images.py): image references. Digest, Parts, Tag, Key and Trim prove what
--   the helpers do; the names are those of the source.
-- - Platforms (src/wudup/platforms.py): parse_platform and value, over the Unicode tables.
-- - LineSpecs (src/wudup/line_specs.py): line selections such as 1,3-5. The regular expressions
--   are scanners: a hyphen is no digit, so a range is cut at its first hyphen. Numbers are
--   unbounded; the interpreter's limit on the digits of int() is not modelled.
-- - WudFile (src/wudup/wud_file.py): Lines splits and joins the text, Target reads one line
--   (_parse_target), Parse reads the file (parse_wud_text), and Rewrite removes lines before a
--   run and brings failed lines back. A rewrite is a function from the file's text to its new
--   text, with the lock around it in Locks.
-- - Jobs (src/wudup/web_job_registry.py, the submission of web_jobs.py, the scan jobs of
--   web_security.py, data of web_models.py and updater_models.py): Status evicts finished jobs,
--   Model is the data, Gate has the operations that reserve, submit, update and release, and
--   Gate/Exclusion the relation of the steps that they make on the application's state. An
--   operation is one step because it runs under web_apply_condition. Responses, notifications,
--   the executor's shutdown and what a worker does between its updates are not modelled.
-- - Matching (src/wudup/updater_matching.py): Unique drops repeated matches and services, Lines
--   says which lines failed, with which match and which reason, Select picks the matches, stacks
--   and reasons of the plan and the report. A stack is its index and its name, the fields that
--   are read here. Network expands a selection of services by those that share their network:
--   Network/Visit follows the variables of the visit, Network/Visit/Expanded draws the
--   conclusions.
-- - Scope (src/wudup/updater_lifecycle_scope.py): which services an update pulls, stops and
--   starts. What Docker answers is the record Docker, in which a failed command is none; with
--   strict a failure is an error (Outcome), without it an empty answer. Laws and Lenient prove
--   what a scope contains and that there is one. A scope's reason is the container's name in
--   place of a sentence.
-- - Skips (src/wudup/release_skips.py): which release skip holds back an offered release, and
--   the labels of skips. Version reads the version of a tag (the regular expressions are
--   scanners, a number is its digits without leading zeros) and gives the key of an offered
--   release. Groups is the grouping of the stored skips by service (skips_by_service), and
--   Newest has its order; the reading of their rows is not modelled.
-- - Lifecycle (src/wudup/updater_lifecycle.py with updater_lifecycle_rewrite.py,
--   updater_lifecycle_recreate.py, updater_lifecycle_state.py, updater_lifecycle_health.py, and
--   compose_persistence.py): _update_stack behind its built state. Run has the state
--   (_StackUpdateState, with the Compose file, its backup, and what the runner records), the
--   record Env of what Docker and the file system answer or raise at each call, and programs
--   over both (M). Persistence, Rollback, Rewrite, Pull, Recreate and Update follow the files of
--   the source; names are kept. The file is that of the state, and the hash is a parameter: that
--   nobody else writes the file meanwhile is assumed, that the hash is checked before each
--   replacement is modelled. Rules has one rule for each way to build a program, and Safety
--   follows the old Compose file through every program: Back for rollbacks, Write and Rewrites
--   for the rewrites, Pulls, Calls, Recreates, Ends for aborts and the backup, and Laws with the
--   results; what a verified update is stands in Safety itself (IsGated). Health and
--   ContainerImages are the health gate, the wait for it (Health/Wait) and the check of the
--   containers' images, which reach the steps as answers of Env, as do the renderings of
--   compose_rewrite.py and the checks of digests. How the state is built
--   (_build_stack_update_state), log lines, progress events and the texts of failure records but
--   for phase and reason are not modelled.
-- - Locks (src/wudup/locks.py, and _rewrite_wud_file of src/wudup/wud_file.py): the timeout and
--   the acquisition of the lock directory, with the answer of mkdir to each attempt as a
--   parameter. Clients has any number of clients that rewrite one file under the lock, one
--   system call at a time in any order, each of which may fail; Clients/Safety is their
--   invariant and Clients/Refinement the specification that they meet.
-- - Logins (the throttle of src/wudup/web_auth.py): the failures and the attempts in flight by
--   user and address and by address alone, in four dictionaries. An operation is one step
--   because it runs under the throttle's lock; Steps is the relation of the steps that
--   interleaved calls of api_auth_login make, Safety and Bounds prove the limits, over the
--   lemmas of Laws. Times are natural numbers of ticks. The folded name of the user and the
--   client's address are arguments; the check of the password and the session are answers.
-- - Lsio (src/wudup/lsio_updates.py): the parts of a linuxserver.io tag and the kind of an
--   update, over the Unicode tables. The regular expressions are scanners; an index into the
--   tokens is the pair of the tokens before it and those from it on. Versions has what is known
--   of a tag's version, and Classes describes the classification by it. The reading of stored
--   classifications is not modelled.
--
-- The loops of the source that are modelled run over collections and are structural recursions.
-- There are three exceptions. The acquisition of Locks recurs on fuel, one more than the seconds
-- of the timeout, which is enough because each attempt adds a second. The wait for health recurs
-- on fuel, one more than the seconds it may last, which is enough because the sleep between two
-- rounds takes a second at least. The visit of Matching/Network, a depth-first search, recurs on
-- fuel, one more than the names that can stand in the result, which is enough because a visit goes
-- deeper only where it sees a new name. Not modelled are the routes of the web interface, the
-- database, the calls of the docker command and of registries, and the writing of files; they
-- reach the modelled code as arguments.
pub mod Prelude
pub mod Images
pub mod Platforms
pub mod LineSpecs
pub mod WudFile
pub mod Jobs
pub mod Matching
pub mod Scope
pub mod Skips
pub mod Lifecycle
pub mod Locks
pub mod Logins
pub mod Lsio
