-- ===== src/Lifecycle.antt =====
-- src/condora/core/lifecycle_manager.py: the state machine of a request. A handler is given the name
-- of the request whose row it works on, and the moment `now` of the cycle.
pub mod Transitions
pub mod Stop
pub mod Resubmit
pub mod Operator
pub mod Admission
pub mod Evaluate
pub mod Active
pub mod View
pub mod StopMoves
pub mod ResubmitMoves
pub mod AdmissionMoves
pub mod Edges
pub mod ActiveMoves
pub mod ActiveRun
pub mod ActiveUnits
pub mod ActiveOwn
pub mod ActiveDags
pub mod ActiveCycle
pub mod MainLoop
pub mod Actions
pub mod Failure
mod Examples
mod ActiveExamples
