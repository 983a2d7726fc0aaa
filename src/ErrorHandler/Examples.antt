-- ===== src/ErrorHandler/Examples.antt =====
-- The theorems on failed DAGs, at small inputs.
use condora.Base.{
  suc, String, true, false, List, [], ◌∷◌, some, ◌≡◌, ◌↔◌, ◌*◌, ◌<◌, max, contains, string_eq, refl,
  arith,
}
use condora.Enums.{RequestStatus, DagStatus}
use condora.Rows.{DagRow}
use condora.Config.{default_settings}
use condora.Repository.{Db, get_dag}
use condora.Samples.{sample_request, sample_workflow, sample_dag, sample_db}
use condora.ErrorHandler.{
  PostEntry, rescue, analyze_site_failures, count_rescue_chain, failed_work_units, find_rescue_dag,
  handle_dag_completion,
}
use condora.ErrorHandler.SiteFailures.{contains-analyze_site_failures}
use condora.ErrorHandler.RescueChain.{AreChained, after, child, count_rescue_chain-create_rescue}
use condora.ErrorHandler.Completion.{
  child_of, with_child, handle_dag_completion-rescue_iff, dags-handle_dag_completion,
}

abbrev failed_at : String → PostEntry
failed_at site = record { site = some site; category = some "infrastructure" }

abbrev entries : List PostEntry
entries = failed_at "T2_A" ∷ failed_at "T2_A" ∷ failed_at "T2_B" ∷ failed_at "T2_A" ∷ []

contains-analyze_site_failures_example : contains "T2_A" (analyze_site_failures entries) ≡ true
contains-analyze_site_failures_example = contains-analyze_site_failures "T2_A" entries

abbrev db : Db
db = sample_db RequestStatus.active DagStatus.failed

abbrev head : DagRow
head = sample_dag 2 (some 1) DagStatus.failed

db-AreChained : AreChained db
unfolding AreChained
db-AreChained = ((omega arith, tt), (((omega arith), (omega arith)), tt))

count_rescue_chain-create_rescue_example :
    (get_dag 3 (after db 7 head "rescue") ≡ some (child db 7 head "rescue"))
    × ((count_rescue_chain (after db 7 head "rescue") (child db 7 head "rescue")
          ≡ suc (count_rescue_chain db head))
        × AreChained (after db 7 head "rescue"))
unfolding get_dag
count_rescue_chain-create_rescue_example =
    count_rescue_chain-create_rescue db 7 head "rescue" db-AreChained refl

handle_dag_completion-rescue_iff_example :
    ((handle_dag_completion default_settings 500
        (λ path. false)
        true
        entries
        head
        (sample_request RequestStatus.active)
        sample_workflow
        db).1.action
      ≡ rescue)
    ↔ ((count_rescue_chain db head < 3) × (100 * failed_work_units head < 20 * max 10 1))
handle_dag_completion-rescue_iff_example =
    handle_dag_completion-rescue_iff default_settings 500 (λ path. false) true entries head
      (sample_request RequestStatus.active) sample_workflow db

dags-handle_dag_completion_example :
    (handle_dag_completion default_settings 500
      (λ path. false)
      true
      entries
      head
      (sample_request RequestStatus.active)
      sample_workflow
      db).0.dags
    ≡ with_child
        (handle_dag_completion default_settings 500
          (λ path. false)
          true
          entries
          head
          (sample_request RequestStatus.active)
          sample_workflow
          db).1.action
        (child_of 7 head (find_rescue_dag (λ path. false) head))
        3
        db.dags
dags-handle_dag_completion_example =
    dags-handle_dag_completion default_settings 500 (λ path. false) true entries head
      (sample_request RequestStatus.active) sample_workflow db
