-- ===== src/Worker.antt =====
-- apps/worker/src/worker-runner.service.ts: taking a task and running its processor. The processor is
-- a step that may throw; what is reported to the orchestrator is the result of the run.
pub mod Claims
mod Tests
use contents_factory.Common.{
  ℕ, Bool, true, false, Option, none, some, List, [], ◌∷◌, ◌&&◌, ◌==◌, nat_eq, includes, some_of,
  if◌then◌else◌,
}
use contents_factory.Enums.{TaskState, task_state_eq}
use contents_factory.Errors.{FailureClass, Thrown, Result, ok, err, classify}
use contents_factory.Store.{Task, Job, Db, Env, M, ◌>>=◌, ◌>>◌, return, modify, update, find_task}
use contents_factory.TaskFactory.{record_event}

abbrev pub claimable : List TaskState
claimable = TaskState.queued ∷ TaskState.retry ∷ TaskState.fallback ∷ []

abbrev pub is_claimable : ℕ → Task → Bool
is_claimable id t = t.id == id && includes claimable t.state

-- `claim`: the conditional UPDATE, and whether it changed a row
unfoldable pub claim : Env → ℕ → M Bool
claim env id db = (
  ok (some_of (is_claimable id) db.tasks),
  record db {
    tasks =
        update (is_claimable id)
          (λ t. record t { state = TaskState.running; started_at = some env.now }) db.tasks;
  },
)

-- what the orchestrator is told
pub data Outcome : Type 0 where
  done : Outcome
  failed : FailureClass → Thrown → Outcome

abbrev pub update_task : ℕ → (Task → Task) → M (Unit {0})
update_task id f = modify (λ db. record db { tasks = update (λ t. t.id == id) f db.tasks })

unfoldable pub settle : Env → ℕ → Result (Unit {0}) → M (Option Outcome)
settle env id (ok a) = do
  update_task id
      (λ t. record t { state = TaskState.done; finished_at = some env.now; error = none })
  record_event id (some TaskState.running) TaskState.done "completed"
  return (some done)
settle env id (err e) = do
  update_task id (λ t. record t { error = some e })
  return (some (failed (classify e) e))

unfoldable pub run_claimed : Env → (Job → M (Unit {0})) → Job → Bool → M (Option Outcome)
unfolding settle
run_claimed env processor job false = return none
run_claimed env processor job true = do
  record_event job.task_id (some TaskState.queued) TaskState.running "claimed"
  (λ db. let r = processor job db in settle env job.task_id r.0 r.1)

unfoldable pub run : Env → (Job → M (Unit {0})) → Job → M (Option Outcome)
unfolding claim run_claimed
run env processor job = do claimed ← claim env job.task_id; run_claimed env processor job claimed
