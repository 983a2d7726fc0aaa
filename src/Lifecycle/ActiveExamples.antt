-- ===== src/Lifecycle/ActiveExamples.antt =====
-- A cycle of an active request, at a small input.
use condora.Base.{true, false, [], map, none, some, ◌≡◌, refl}
use condora.Enums.{RequestStatus, DagStatus}
use condora.Config.{Settings, default_settings}
use condora.Effects.{State, answer, return}
use condora.Monitor.Poll.{Monitor}
use condora.Samples.{sample_request, sample_state, idle_pool, done_planner}
use condora.Lifecycle.View.{views, move_view}
use condora.Lifecycle.AdmissionMoves.{IsQuiet}
use condora.Lifecycle.Active.{ActiveWork, RoundSettings}
use condora.Lifecycle.Active.Cycle.{handle_active}
use condora.Lifecycle.ActiveMoves.{Run}
use condora.Lifecycle.ActiveRun.{AreQuietRounds}
use condora.Lifecycle.ActiveCycle.{handle_active-IsRun}

-- DAGMan is gone, and all ten work units are done.
abbrev pub ended_dag : Monitor
ended_dag = record {
  condor = idle_pool;
  scheduler = record {
    job_status = λ calls schedd_name cluster_id. answer none;
    count_dag_jobs = λ calls cluster_id schedd_name. answer none;
    held_jobs = λ calls cluster_id schedd_name. answer [];
  };
  files = record {
    status_blocks = λ path. none;
    metrics = λ path.
        some
          (record { idle = 0; running = 0; done = 10; failed = 0; held = 0; node_statuses = [] });
    exists = λ path. true;
    manifest = λ directory name. none;
    unit_metrics = λ directory name. none;
  };
  max_memory_per_core = 4000;
}

abbrev pub work : ActiveWork
work = record {
  condor = idle_pool;
  monitor = some ended_dag;
  output_manager = none;
  planner = some done_planner;
  error_handler = none;
  has_site_manager = false;
  stageout =
      λ w. record { stageout_mode = "production"; rucio_test_account = ""; consolidation_rse = "" };
  pilot_throwaway = λ w. false;
  is_recorded = λ w d. false;
  complete_round = λ w d s. (return false, s);
  cleanup_pilot_output = λ w d s. (return tt, s);
  update_round_wu_metrics = λ w d s. (return tt, s);
  check_site_exclusions = λ d w s. (return tt, s);
}

done_planner-IsQuiet : IsQuiet done_planner
done_planner-IsQuiet = record {
  plan-Keeps = λ w adaptive s. refl;
  pilot-Keeps = λ w adaptive s. refl;
}

pub work-AreQuietRounds : AreQuietRounds work
work-AreQuietRounds = record {
  planner-IsQuiet = done_planner-IsQuiet;
  rounds-Keep = λ w d s. refl;
  outputs-Keep = λ w d s. refl;
  metrics-Keep = λ w d s. refl;
  exclusions-Keep = λ d w s. refl;
}

abbrev pub rounds : RoundSettings
rounds = record {
  round_advance_completion_fraction = 50;
  round_advance_running_fraction = 30;
  tail_escalation_threshold = 90;
  tail_escalation_priority = 10;
}

-- Rounds do not overlap.
abbrev one_round : Settings
one_round = record default_settings { max_concurrent_rounds = 1 }

abbrev active_state : State
active_state = sample_state RequestStatus.active DagStatus.running

-- The round is over and the target is not reached: the request is QUEUED.
handle_active_run :
    views
      (handle_active work one_round rounds 500
        (some ended_dag)
        (sample_request RequestStatus.active)
        active_state).1
    ≡ map (move_view 500 "gen_1" RequestStatus.queued) (views active_state)
unfolding handle_active
handle_active_run = refl

handle_active-IsRun_example : Run 500 "gen_1" (views active_state) (
    views
      (handle_active work one_round rounds 500
        (some ended_dag)
        (sample_request RequestStatus.active)
        active_state).1)
handle_active-IsRun_example =
    handle_active-IsRun work work-AreQuietRounds one_round rounds 500 (some ended_dag)
      (sample_request RequestStatus.active) active_state
