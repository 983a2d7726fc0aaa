-- ===== src/Rows.antt =====
-- src/condora/db/tables.py: the rows of the database, with the columns that the modelled code reads
-- or writes. Identifiers are numbers, and moments are counted in seconds.
use condora.Base.{ℕ, String, Bool, List, Option}
use condora.Services.{OutputFile}
use condora.Enums.{RequestStatus, WorkflowStatus, DagStatus, BlockStatus}

-- An entry of `status_transitions`.
pub record Transition : Type 0 where
  pub from : RequestStatus
  pub to : RequestStatus
  pub timestamp : ℕ

-- A step of `production_steps`; the fraction is in percent.
pub record ProductionStep : Type 0 where
  pub fraction : ℕ
  pub priority : ℕ

pub record RequestRow : Type 0 where
  pub request_name : String
  pub requestor : String
  pub campaign : String
  pub input_dataset : String
  pub processing_version : Option ℕ
  pub priority : ℕ
  pub urgent : Bool
  pub adaptive : Bool
  pub production_steps : List ProductionStep
  pub status : RequestStatus
  pub status_transitions : List Transition
  pub previous_version_request : Option String
  pub superseded_by_request : Option String
  pub created_at : ℕ
  pub updated_at : ℕ

-- The columns that may be NULL and are read as `… or 0` are numbers, 0 for NULL.
pub record WorkflowRow : Type 0 where
  pub id : ℕ
  pub request_name : String
  pub is_gen : Bool
  pub condor_pool : String
  pub dag_id : Option ℕ
  pub pilot_cluster_id : Option ℕ
  pub pilot_schedd : Option String
  pub current_round : ℕ
  pub target_events : ℕ
  pub events_produced : ℕ
  pub total_input_files : ℕ
  pub files_processed : ℕ
  pub total_nodes : ℕ
  pub nodes_done : ℕ
  pub nodes_failed : ℕ
  pub nodes_running : ℕ
  pub nodes_queued : ℕ
  pub status : WorkflowStatus

-- An item of `completed_work_units`: a name, in the old format, or a name with its events.
pub data WorkUnit : Type 0 where
  bare : String → WorkUnit
  enriched : String → ℕ → WorkUnit

pub record DagRow : Type 0 where
  pub id : ℕ
  pub workflow_id : ℕ
  pub dag_file_path : String
  pub submit_dir : String
  pub rescue_dag_path : Option String
  pub dagman_cluster_id : Option ℕ
  pub schedd_name : Option String
  pub parent_dag_id : Option ℕ
  pub stop_requested_at : Option ℕ
  pub stop_reason : String
  pub total_nodes : ℕ
  pub total_edges : ℕ
  pub node_counts : List (String × ℕ)
  pub nodes_idle : ℕ
  pub nodes_running : ℕ
  pub nodes_done : ℕ
  pub nodes_failed : ℕ
  pub nodes_held : ℕ
  pub total_work_units : ℕ
  pub completed_work_units : List WorkUnit
  pub round_number : ℕ
  pub status : DagStatus

pub record BlockRow : Type 0 where
  pub id : ℕ
  pub workflow_id : ℕ
  pub dataset_name : String
  pub block_index : ℕ
  pub total_work_units : ℕ
  pub completed_work_units : List String
  pub dbs_block_name : Option String
  pub dbs_block_open : Bool
  pub dbs_block_closed : Bool
  pub source_rule_ids : List (String × String)
  pub tape_rule_id : Option String
  pub consolidation_rule_id : Option String
  pub output_files : List OutputFile
  pub site : Option String
  pub last_rucio_attempt : Option ℕ
  pub rucio_attempt_count : ℕ
  pub rucio_last_error : Option String
  pub status : BlockStatus
  pub created_at : ℕ

pub record SiteBanRow : Type 0 where
  pub site_name : String
  pub workflow_id : Option ℕ
  pub reason : String
  pub expires_at : ℕ
  pub removed_at : Option ℕ
  pub removed_by : String

-- A row of `dag_history`, with the numbers of its `detail`.
pub record DagHistoryRow : Type 0 where
  pub dag_id : ℕ
  pub event_type : String
  pub from_status : DagStatus
  pub failed_work_units : ℕ
  pub completed_work_units : ℕ
  pub total_work_units : ℕ
