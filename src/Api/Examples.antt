-- ===== src/Api/Examples.antt =====
-- The endpoints, at a small database.
use condora.Base.{some}
use condora.Enums.{RequestStatus, DagStatus}
use condora.Repository.{get_request}
use condora.Samples.{sample_state, idle_pool}
use condora.Api.Outcome.{fail, moves, serve, IsOutcome}
use condora.Api.Serve.{serve-IsOutcome}

-- A running request is failed: it stops first.
serve-IsOutcome_example :
    IsOutcome
      (moves RequestStatus.stopping)
      200
      "gen_1"
      (sample_state RequestStatus.active DagStatus.running)
      (serve fail
        (some idle_pool)
        200
        "gen_1"
        (sample_state RequestStatus.active DagStatus.running))
unfolding get_request
serve-IsOutcome_example =
    serve-IsOutcome fail (some idle_pool) 200 "gen_1"
      (sample_state RequestStatus.active DagStatus.running)
