-- ===== src/Monitor/Ending.antt =====
-- How a DAG ends, and how a job that ran out of memory is helped.
use condora.Base.{
  ℕ, suc, string_eq, ◌++◌, map, Option, none, some, ◌≡◌, refl, ◌⊎◌, inl, inr, ◌<◌, ◌≤◌, ◌*◌, ◌/◌,
  min, Bool-cases, ltb, leb, ◌==◌, ◌&&◌, nat_eq, arith,
}
use condora.Enums.{DagStatus}
use condora.Base.Dict.{insert}
use condora.Rows.{DagRow, enriched}
use condora.Repository.{update_dag}
use condora.Effects.{State, Result, return}
use condora.Monitor.{NodeSummary}
use condora.Monitor.Poll.{
  HeldJob, Monitor, DagPollResult, unchanged, bump_memory, final_status, final_summary, end_dag,
  with_wu_counts, end_result, end_with, handle_dag_completion,
}

-- The counts that each final status stands for.
abbrev pub IsFinal : NodeSummary → DagStatus → Type 0
IsFinal summary DagStatus.completed = (0 < summary.done) × (summary.failed ≡ 0)
IsFinal summary DagStatus.partial = (0 < summary.done) × (0 < summary.failed)
IsFinal summary DagStatus.failed = (summary.done ≡ 0) × (0 < summary.failed)
IsFinal summary _ = 0 ≡ suc 0

-- The row of a DAG that has ended: the status and the counts of the poll's result, no node under way,
-- and the units that the poll found besides those that were done before.
abbrev pub ended_row : NodeSummary → DagRow → DagPollResult → DagRow → DagRow
ended_row summary dag r d = record d {
  status = r.status;
  nodes_done = r.nodes_done;
  nodes_failed = r.nodes_failed;
  nodes_running = 0;
  nodes_idle = 0;
  nodes_held = 0;
  node_counts = insert "wus_failed" summary.failed (insert "wus_done" summary.done dag.node_counts);
  completed_work_units =
      dag.completed_work_units
      ++ map (λ wu. enriched wu.group_name wu.output_events) r.newly_completed_work_units;
}

-- What the end of DAGMan's job leaves behind.
abbrev pub IsEnding : NodeSummary → DagRow → State → Result DagPollResult × State → Type 0
IsEnding summary dag s after =
    ((summary.done ≡ 0) × ((summary.failed ≡ 0) × (after ≡ (return (unchanged dag), s))))
    ⊎ ((r : DagPollResult) × ((after.0 ≡ return r)
          × (IsFinal summary r.status
              × ((after.1 ≡ record s { db = update_dag dag.id (ended_row summary dag r) s.db })
                  × ((r.nodes_running ≡ 0) × ((r.nodes_idle ≡ 0) × (r.nodes_held ≡ 0)))))))

final_status-cases :
    (summary : NodeSummary)
    → ((final_status summary ≡ none) × ((summary.done ≡ 0) × (summary.failed ≡ 0)))
      ⊎ ((status : DagStatus) × ((final_status summary ≡ some status) × IsFinal summary status))
unfolding final_status
final_status-cases summary = elim (Bool-cases (summary.failed == 0 && ltb 0 summary.done)) [
  | inl all ↦ inr (DagStatus.completed, (rw (all) refl, ground (arith, all)))
  | inr not_all ↦ elim (Bool-cases (ltb 0 summary.done && ltb 0 summary.failed)) [
    | inl mixed ↦ inr (DagStatus.partial, (rw (not_all, mixed) refl, ground (arith, mixed)))
    | inr not_mixed ↦ elim (Bool-cases (ltb 0 summary.failed && summary.done == 0)) [
      | inl lost ↦
          inr (DagStatus.failed, (rw (not_all, not_mixed, lost) refl, ground (arith, lost)))
      | inr nothing ↦
          inl (rw (not_all, not_mixed, nothing) refl, ground (arith, not_all, not_mixed, nothing))
    ]
  ]
]

-- Where the files show no finished and no failed node, the poll says that the DAG runs on, and the
-- state is as before. Otherwise the DAG is COMPLETED where some nodes are done and none failed,
-- PARTIAL where some are done and some failed, and FAILED where none is done. The result and the row
-- in the database tell that status and the same counts, with no node running, idle or held; the row
-- has the units that were found too; and nothing else in the database changes, nor the pool.
pub handle_dag_completion-IsEnding :
    (monitor : Monitor) (dag : DagRow) (s : State)
    → IsEnding (final_summary monitor dag) dag s (handle_dag_completion monitor dag s)
unfolding handle_dag_completion end_with end_dag with_wu_counts
handle_dag_completion-IsEnding monitor dag s =
    let summary = final_summary monitor dag in
    elim (final_status-cases summary) [
      | inl (nothing, (no_done, no_failed)) ↦ rw (nothing) (inl (no_done, (no_failed, refl)))
      | inr (status, (found, final)) ↦ rw (found) (
          inr
            (end_result monitor dag summary status, (refl, (final, (refl, (refl, (refl, refl)))))))
    ]

-- A memory that is raised.
abbrev pub IsBump : ℕ → HeldJob → Option ℕ → Type 0
IsBump max_memory_per_core job none =
    (max_memory_per_core * job.request_cpus ≤ job.request_memory) ⊎ (job.request_memory ≤ 1)
IsBump max_memory_per_core job (some new_mem) =
    (job.request_memory < new_mem)
    × ((new_mem ≤ max_memory_per_core * job.request_cpus) × (2 * new_mem ≤ 3 * job.request_memory))

-- The memory of a job that ran out of it is raised to more than it had, by at most the half of it
-- and not above what its cores allow; it stays exactly where that leaves no room, because the job
-- has what its cores allow or at most 1 MB.
pub bump_memory-IsBump :
    (max_memory_per_core : ℕ) (job : HeldJob)
    → IsBump max_memory_per_core job (bump_memory max_memory_per_core job)
unfolding bump_memory
bump_memory-IsBump max_memory_per_core job =
    let cap = max_memory_per_core * job.request_cpus in
    let new_mem = min (job.request_memory * 3 / 2) cap in
    elim (Bool-cases (leb new_mem job.request_memory)) [
      | inl full ↦ rw (full) (ground (arith, full))
      | inr room ↦ rw (room) (ground (arith, room))
    ]
