-- ===== src/Orders.antt =====
-- apps/api/src/order/order.service.ts (submit, cancel) and apps/api/src/task/task.service.ts (retry,
-- cancel): what an operator does to an order and to a task. The validator's answer is an input.
pub mod Submission
pub mod Cancelling
mod Tests
use Prim.Native.String.{String}
use contents_factory.Common.{
  map, ℕ, ◌+◌, Bool, true, false, Option, none, some, List, [], ◌∷◌, ◌&&◌, ◌==◌, nat_eq, leb, not,
  includes, if◌then◌else◌,
}
use contents_factory.Enums.{OrderStatus, TaskState, TaskKind, order_status_eq, task_state_eq}
use contents_factory.Errors.{ErrorCode, Thrown, Result, ok, err}
use contents_factory.StateMachine.{can_transition_order}
use contents_factory.Store.{
  RejectReason, failed_check, withdrawn, Order, Task, Db, Env, M, ◌>>=◌, ◌>>◌, return, throw, fail,
  modify, update, replace, find_order, find_task, opt_beq, set_order_status, save_task,
}
use contents_factory.TaskFactory.{CreateTaskInput, create_task, transition, record_event, enqueue}

-- `ValidationResult`; the errors by their codes
pub record Validation : Type 0 where
  pub is_ok : Bool
  pub errors : List ErrorCode

abbrev pub put_order : ℕ → OrderStatus → Option (List RejectReason) → M (Unit {0})
put_order id status reason = modify (λ db. record db {
  orders =
      update (λ o. o.id == id) (λ o. record o { status = status; reject_reason = reason })
        db.orders;
})

-- the task that `submit` asks for
unfoldable pub selection_input : Order → CreateTaskInput
selection_input order = record {
  kind = TaskKind.selection;
  order_id = some order.id;
  content_id = none;
  scene_id = none;
  agent_id = order.agent_id;
  priority = some (if leb 2 order.approval_level then 3 else 2);
  attempt = none;
  max_retry = none;
  budget_cap_krw = some order.budget_cap;
  channel_id = none;
}

-- the end of `submit`, after the attempt to create the task
unfoldable pub settle_submission : ℕ → Result Task → M (Unit {0})
settle_submission id (ok task) = put_order id OrderStatus.queued none
settle_submission id (err e) = do set_order_status id OrderStatus.draft; throw e

unfoldable pub submit_valid : Env → Order → M (Unit {0})
unfolding settle_submission
submit_valid env order db =
    let r = create_task env (selection_input order) db in settle_submission order.id r.0 r.1

unfoldable pub submit : Env → Validation → ℕ → M (Unit {0})
unfolding submit_valid
submit env validation id db = elim (find_order id db) [
  | none ↦ fail ErrorCode.order_not_found db
  | some order ↦
      if not (can_transition_order order.status OrderStatus.validating)
      then fail ErrorCode.order_invalid_state db
      else (do
        set_order_status id OrderStatus.validating
        (if validation.is_ok
            then submit_valid env order
            else put_order id OrderStatus.rejected (some (map failed_check validation.errors))))
          db
]

abbrev pub cancellable : List TaskState
cancellable = TaskState.queued ∷ TaskState.retry ∷ TaskState.fallback ∷ []

-- the stored reason of a cancellation; an empty text counts as none
abbrev pub rejection : Option ℕ → Option (List RejectReason)
rejection none = none
rejection (some reason) = some (withdrawn reason ∷ [])

unfoldable pub cancel : Env → ℕ → Option ℕ → M (Unit {0})
cancel env id reason db = elim (find_order id db) [
  | none ↦ fail ErrorCode.order_not_found db
  | some order ↦
      if not (can_transition_order order.status OrderStatus.cancelled)
      then fail ErrorCode.order_invalid_state db
      else (do
        put_order id OrderStatus.cancelled (rejection reason)
        modify (λ db. record db {
          tasks =
              update (λ t. opt_beq t.order_id (some id) && includes cancellable t.state)
                (λ t. record t { state = TaskState.cancelled; finished_at = some env.now })
                db.tasks;
        }))
          db
]

abbrev pub retryable : List TaskState
retryable = TaskState.escalated ∷ TaskState.failed ∷ TaskState.retry ∷ TaskState.fallback ∷ []

abbrev pub booked_retry : Task → Task
booked_retry task = record task {
  retry_count = task.retry_count + 1;
  error = none;
  finished_at = none;
}

-- `TaskService.retry`
unfoldable pub retry_task : Env → ℕ → M (Unit {0})
retry_task env id db = elim (find_task id db) [
  | none ↦ fail ErrorCode.task_not_found db
  | some task ↦
      if not (includes retryable task.state)
      then fail ErrorCode.task_invalid_state db
      else (do
        save_task (booked_retry task)
        transition env id TaskState.running "manual_retry" none
        modify (λ db. record db {
          tasks =
              update (λ t. t.id == id)
                (λ t. record t { state = TaskState.queued; started_at = none }) db.tasks;
        })
        record_event id (some TaskState.running) TaskState.queued "manual_retry_requeued"
        enqueue env (booked_retry task) (task.retry_count + 2) 0)
          db
]

-- `TaskService.cancel`
unfoldable pub cancel_task : Env → ℕ → M Task
cancel_task env id = transition env id TaskState.cancelled "manual_cancel" none
