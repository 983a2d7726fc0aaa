-- ===== src/Samples.antt =====
-- A small database and a pool that answers, for the tests.
use condora.Base.{ℕ, String, true, false, [], ◌∷◌, Option, none, some}
use condora.Enums.{RequestStatus, WorkflowStatus, DagStatus}
use condora.Rows.{RequestRow, WorkflowRow, DagRow, SiteBanRow}
use condora.Repository.{Db}
use condora.Effects.{State, Condor, answer, return}
use condora.Lifecycle.Admission.{Planner, Disk}
use condora.Lifecycle.Evaluate.{Workers}

abbrev pub sample_request : RequestStatus → RequestRow
sample_request status = record {
  request_name = "gen_1";
  requestor = "operator";
  campaign = "Run3";
  input_dataset = "";
  processing_version = some 2;
  priority = 80;
  urgent = false;
  adaptive = true;
  production_steps = [];
  status = status;
  status_transitions = [];
  previous_version_request = none;
  superseded_by_request = none;
  created_at = 10;
  updated_at = 100;
}

abbrev pub sample_workflow : WorkflowRow
sample_workflow = record {
  id = 7;
  request_name = "gen_1";
  is_gen = true;
  condor_pool = "local";
  dag_id = some 2;
  pilot_cluster_id = none;
  pilot_schedd = none;
  current_round = 1;
  target_events = 1000;
  events_produced = 400;
  total_input_files = 0;
  files_processed = 0;
  total_nodes = 0;
  nodes_done = 0;
  nodes_failed = 0;
  nodes_running = 0;
  nodes_queued = 0;
  status = WorkflowStatus.active;
}

-- A DAG and its parent: ten work units, and none of them done.
abbrev pub sample_dag : ℕ → Option ℕ → DagStatus → DagRow
sample_dag id parent status = record {
  id = id;
  workflow_id = 7;
  dag_file_path = "/spool/workflow.dag";
  submit_dir = "/spool";
  rescue_dag_path = none;
  dagman_cluster_id = some 4711;
  schedd_name = some "schedd";
  parent_dag_id = parent;
  stop_requested_at = none;
  stop_reason = "";
  total_nodes = 40;
  total_edges = 39;
  node_counts = [];
  nodes_idle = 0;
  nodes_running = 0;
  nodes_done = 0;
  nodes_failed = 0;
  nodes_held = 0;
  total_work_units = 10;
  completed_work_units = [];
  round_number = 1;
  status = status;
}

abbrev pub sample_ban : String → Option ℕ → SiteBanRow
sample_ban site_name workflow_id = record {
  site_name = site_name;
  workflow_id = workflow_id;
  reason = "";
  expires_at = 5000;
  removed_at = none;
  removed_by = "";
}

abbrev pub sample_db : RequestStatus → DagStatus → Db
sample_db request_status dag_status = record {
  requests = sample_request request_status ∷ [];
  workflows = sample_workflow ∷ [];
  dags = sample_dag 1 none DagStatus.failed ∷ sample_dag 2 (some 1) dag_status ∷ [];
  blocks = [];
  sites = "T2_A" ∷ "T2_B" ∷ [];
  bans = sample_ban "T2_A" (some 3) ∷ sample_ban "T2_A" (some 4) ∷ sample_ban "T2_B" none ∷ [];
  history = [];
  next_id = 3;
}

abbrev pub sample_state : RequestStatus → DagStatus → State
sample_state request_status dag_status = record {
  db = sample_db request_status dag_status;
  calls = [];
  data_calls = [];
  registered = [];
}

-- No job is left in the pool, and it takes every call.
abbrev pub idle_pool : Condor
idle_pool = record {
  job_exists = λ calls schedd_name cluster_id. answer false;
  job_completed = λ calls schedd_name cluster_id. answer true;
  removes = λ calls call. answer tt;
  submits = λ calls call. answer (5000, "schedd");
  job_iwd = λ calls cluster_id schedd. answer none;
  ping_schedd = λ calls schedd_name. true;
}

abbrev pub sample_disk : Disk
sample_disk = record {
  has_spool = false;
  drawn_schedd = none;
  is_dir = λ path. true;
  has_pilot_metrics = λ w. false;
  copy_of = λ path. path;
  mounted = λ path. path;
}

-- A planner with nothing left to plan.
abbrev pub done_planner : Planner
done_planner = record {
  plan_production_dag = λ w adaptive s. (return none, s);
  handle_pilot_completion = λ w adaptive s. (return tt, s);
}

abbrev pub sample_workers : Workers
sample_workers = record {
  condor = idle_pool;
  disk = sample_disk;
  import_request = none;
  planner = some done_planner;
  handle_active = λ r s. (return tt, s);
}
