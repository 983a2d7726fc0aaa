-- ===== src/Lifecycle/Examples.antt =====
-- The theorems on the life of a request, at small inputs.
use condora.Base.{false, true, [], map, some, ◌≡◌}
use condora.Enums.{RequestStatus, DagStatus}
use condora.Config.{default_settings}
use condora.ErrorHandler.{count_rescue_chain, failed_work_units}
use condora.Lifecycle.Failure.{views-handle_single_dag_failure}
use condora.Samples.{sample_workflow, sample_dag, sample_request, sample_state, idle_pool}
use condora.Repository.{get_request}
use condora.Lifecycle.Operator.{release_held_request, fail_request}
use condora.Lifecycle.Evaluate.{FailureFiles, handle_single_dag_failure}
use condora.Lifecycle.View.{move_view, views}
use condora.Lifecycle.Actions.{IsAction, release_held_request-IsAction, fail_request-IsAction}

fail_request-IsAction_example :
    IsAction true 200 "gen_1" RequestStatus.failed
      (sample_state RequestStatus.paused DagStatus.stopped)
      (fail_request idle_pool 200 "gen_1" (sample_state RequestStatus.paused DagStatus.stopped))
unfolding get_request
fail_request-IsAction_example =
    fail_request-IsAction idle_pool 200 "gen_1"
      (sample_state RequestStatus.paused DagStatus.stopped)

release_held_request-IsAction_example :
    IsAction true 200 "gen_1" RequestStatus.queued
      (sample_state RequestStatus.held DagStatus.failed)
      (release_held_request idle_pool 200 "gen_1"
        (sample_state RequestStatus.held DagStatus.failed))
unfolding get_request
release_held_request-IsAction_example =
    release_held_request-IsAction idle_pool 200 "gen_1"
      (sample_state RequestStatus.held DagStatus.failed)

abbrev no_files : FailureFiles
no_files = record { exists = λ path. false; post_data = λ dir. [] }

-- Nothing of the DAG is done: the request is HELD.
views-handle_single_dag_failure_example :
    views
      (handle_single_dag_failure default_settings 500
        (some no_files)
        true
        (sample_request RequestStatus.active)
        sample_workflow
        (sample_dag 2 (some 1) DagStatus.failed)
        (sample_state RequestStatus.active DagStatus.failed)).1
    ≡ map
        (move_view 500 "gen_1" RequestStatus.held)
        (views (sample_state RequestStatus.active DagStatus.failed))
unfolding count_rescue_chain failed_work_units
views-handle_single_dag_failure_example =
    views-handle_single_dag_failure default_settings 500 no_files true
      (sample_request RequestStatus.active) sample_workflow (sample_dag 2 (some 1) DagStatus.failed)
      (sample_state RequestStatus.active DagStatus.failed)
