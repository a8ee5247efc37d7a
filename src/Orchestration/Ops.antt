-- ===== src/Orchestration/Ops.antt =====
-- The operations of an orchestrator as data, and a history of them. A call that raises ends itself
-- and leaves what it had written.
use agentic_sdlc.Base.Int.{ℤ}
use agentic_sdlc.Base.{String, Bool, List, [], ◌∷◌}
use agentic_sdlc.Orchestration.State.{State}
use agentic_sdlc.Orchestration.Store.{Orchestrator, Cause, create_unit}
use agentic_sdlc.Orchestration.Transition.{transition, cancel, supersede, manual_override}
use agentic_sdlc.Orchestration.Runs.{Envelope, Finish, start_run, finish_run}
use agentic_sdlc.Orchestration.Review.{record_verification, record_review, record_repair_complete}

pub data Op : Type 0 where
  create : (unit_id event_key timestamp group : String) → List String → Op
  move_to : (unit_id : String) → State → Cause → Op
  cancels : (unit_id : String) → Cause → Op
  supersedes : (unit_id by : String) → Cause → Op
  overrides : (unit_id : String) → State → Cause → Op
  start : (unit_id kind : String) → Envelope → (event_key timestamp : String) → Op
  finish : (unit_id run_id : String) → Finish → Op
  verify : (unit_id : String) → Bool → (event_key timestamp actor : String) → Op
  review : (unit_id run_id : String) → ℤ → (event_key timestamp digest : String) → Op
  repaired : (unit_id event_key timestamp actor : String) → Op

unfoldable pub step : Orchestrator → Op → Orchestrator
step o (create u k t g ds) = (create_unit u k t g ds o).1
step o (move_to u s c) = (transition u s c o).1
step o (cancels u c) = (cancel u c o).1
step o (supersedes u by c) = (supersede u by c o).1
step o (overrides u s c) = (manual_override u s c o).1
step o (start u kind e k t) = (start_run u kind e k t o).1
step o (finish u r f) = (finish_run u r f o).1
step o (verify u passed k t a) = (record_verification u passed k t a o).1
step o (review u r n k t d) = (record_review u r n k t d o).1
step o (repaired u k t a) = (record_repair_complete u k t a o).1

unfoldable pub run_ops : Orchestrator → List Op → Orchestrator
run_ops o [] = o
run_ops o (op ∷ ops) = run_ops (step o op) ops
