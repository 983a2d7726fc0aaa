-- ===== src/Lib.antt =====
-- The core of Condora, which turns production requests into DAGs of jobs on HTCondor, watches them
-- and recovers from their failures.
--
-- Parts, and how they interact. A cycle of the lifecycle manager evaluates each request that is not
-- terminal: by the status of the request it imports it, admits it, polls its pilot, follows its
-- stop, or makes a recovery DAG. It reads and writes the tables of the repository and calls the
-- HTCondor adapter. A DAG that ends with failures goes to the error handler, which reads the side
-- files of its jobs, asks the site manager to ban sites, and either creates a rescue DAG or leaves
-- the request to an operator. The side files carry the category that the post script's classifier
-- gave each job. The DAG monitor reads the status files of
-- a DAG and detects its finished work units. A finished work unit goes to the output manager, which registers its files in DBS
-- and Rucio and archives the blocks that are complete. The splitters turn the input files of a request into processing nodes.
--
-- Files, and the code that they model:
--   Classify, Classify/Collector: src/condora/core/post_classifier.py, `classify_error` of the
--     host, and the copy in the script that `generate_collector_script` writes, with the
--     classification of its `main`. Reports, logs and messages are texts; their parsing is left out.
--   Splitters: src/condora/core/splitters.py, both splitters and `get_splitter`.
--   Enums, Rows, Repository: src/condora/models/enums.py, src/condora/db/tables.py and
--     src/condora/db/repository.py. A table is the list of its rows by the time of their creation;
--     the columns are those that the modelled code reads or writes. A session commits at the end of
--     a request's evaluation, so a query sees the writes before it.
--   Config: src/condora/config.py, with fractions in percent.
--   Effects: the calls of src/condora/adapters/base.py and exceptions. A handler is a function on
--     the database and the calls made so far; the answers of the pool are a parameter.
--   Sites: src/condora/core/site_manager.py, bans, promotion and removal; TempRses: the cache of
--     temporary storage.
--   ErrorHandler: src/condora/core/error_handler.py, `handle_dag_completion` and what it calls.
--   Services: DBS and Rucio of src/condora/adapters/base.py; what they answer is a parameter.
--   Output: src/condora/core/output_manager.py. Output itself: when a failed call is tried again.
--     Rucio: `_register_files_in_rucio`. Blocks: `handle_work_unit_completion` and `_complete_block`.
--     Cycle: `process_blocks_for_workflow` with its retries, and `invalidate_blocks`. An update of a
--     row refreshes the loaded block, as a session of SQLAlchemy does.
--   Monitor: src/condora/core/dag_monitor.py. Monitor itself: the counts of a status file, the
--     detection of finished work units and their events. Poll: `poll_dag`,
--     `_handle_dag_completion` and `_handle_held_oom_jobs`.
--   Planner: src/condora/core/dag_planner.py, `_plan_gen_nodes`, `_plan_merge_groups`, the batches of
--     the merge script and small settings. What the code computes with floats is exact here.
--   Fractions, Adaptive: src/condora/core/adaptive.py, with floats as exact fractions. Collect and Merge:
--     the metrics of work units and rounds. Split: `compute_job_split`. Threads:
--     `compute_per_step_nthreads`. Throughput: `compute_throughput_optimization`. Round:
--     `compute_round_optimization`. What the code raises by accident is `none`.
--   Lifecycle: src/condora/core/lifecycle_manager.py. Transitions: `transition`, the timeouts and
--     `_target_reached`. Stop: `initiate_clean_stop` and `_handle_stopping`. Resubmit:
--     `_handle_submitted`, `_handle_resubmitting`, `_prepare_recovery`. Admission: `_handle_queued`
--     and `_handle_pilot_running`. Evaluate: `evaluate_request`, `_handle_stuck` and
--     `_handle_single_dag_failure`. Active: `_handle_active`, the advance of rounds and the tail
--     escalation; Active/Round: `_handle_dag_round_completion`; Active/Units:
--     `_process_completed_wus`. MainLoop: one cycle of `main_loop`, with the rollback of an
--     evaluation that raises. Operator: `release_held_request`, `fail_request` and
--     `restart_request`.
--   Api: src/condora/api/requests.py, the endpoints that abort, stop, release and fail a request;
--     Api/Outcome has the table of what each does to a request in each status.
--   AdmissionController: src/condora/core/admission_controller.py.
--   Base: lists, dictionaries and texts on native numbers. Samples: a small database for tests.
--
-- Fuel. A cycle of `main_loop` has the number of the requests plus its square: each failure takes one
-- request out for the rest of the cycle. `rescue_chain` walks from a DAG to its parents. A parent has
-- the smaller identifier, so the identifier of the DAG is fuel enough. `split_file` has the events of the file, and each round
-- takes at least one of them; `chunks_from` has the number of the elements, and each round takes at
-- least one; `power_from` doubles six times from 1 to 64; `double_until` has the
-- original threads, and doubling passes them before; `find_from` counts down from 99 as the code
-- does; `decimal_from` divides by ten, and the number is fuel enough. Everything else is structural recursion.
--
-- Not modelled. What `_handle_active` calls for the metrics of a round
-- (`complete_round`), for the exclusion of sites in submit files and for the removal of a pilot's
-- output is a record of operations, and so is the rest of the DAG planner. The parsing of files, the
-- copying of spool directories, the rewriting of submit files, the other endpoints of the HTTP interface (a
-- deletion depends on the foreign keys of the tables, which the tables of the model do not have), the command line,
-- and the adapters of HTCondor, Rucio, DBS and CRIC are left out.
pub mod Base
pub mod Classify
pub mod Splitters
pub mod Enums
pub mod Rows
pub mod Repository
pub mod Effects
pub mod Config
pub mod Lifecycle
pub mod Sites
pub mod ErrorHandler
pub mod Output
pub mod Monitor
pub mod Planner
pub mod Fractions
pub mod Adaptive
pub mod Services
pub mod Api
pub mod AdmissionController
pub mod Samples
