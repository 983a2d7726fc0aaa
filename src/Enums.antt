-- ===== src/Enums.antt =====
-- src/condora/models/enums.py: the states of requests, workflows, DAGs and output blocks.
use condora.Base.{Bool, true, false}

pub data RequestStatus : Type 0 where
  new submitted queued pilot_running planning active stopping resubmitting : RequestStatus
  paused held completed partial failed aborted : RequestStatus

pub data WorkflowStatus : Type 0 where
  new pilot_running planning active stopping resubmitting : WorkflowStatus
  completed partial failed aborted : WorkflowStatus

pub data DagStatus : Type 0 where
  planning ready submitted running completed partial failed removed halted stopped : DagStatus

pub data BlockStatus : Type 0 where
  open_block complete archived failed_block invalidated : BlockStatus

-- `dag.status in ("submitted", "running")`
abbrev pub is_live : DagStatus → Bool
is_live DagStatus.submitted = true
is_live DagStatus.running = true
is_live _ = false

-- `dag.status in ("failed", "completed")`
abbrev pub is_settled : DagStatus → Bool
is_settled DagStatus.failed = true
is_settled DagStatus.completed = true
is_settled _ = false

abbrev pub is_stopped : DagStatus → Bool
is_stopped DagStatus.stopped = true
is_stopped _ = false

abbrev pub is_open_block : BlockStatus → Bool
is_open_block open_block = true
is_open_block _ = false

-- The requests that `get_non_terminal_requests` leaves out.
abbrev pub is_terminal : RequestStatus → Bool
is_terminal RequestStatus.completed = true
is_terminal RequestStatus.failed = true
is_terminal RequestStatus.aborted = true
is_terminal _ = false
