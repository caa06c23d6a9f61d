-- ===== src/Pipeline/Reachable.antt =====
-- What holds in every state that the steps of the parts lead to, in any order.
use Prim.Native.String.{String}
use contents_factory.Common.{ℕ, Bool, Option, none}
use contents_factory.Enums.{TaskState}
use contents_factory.Errors.{FailureClass, Thrown}
use contents_factory.Store.{Db, Env, Config, Job, M}
use contents_factory.TaskFactory.{CreateTaskInput, create_task, transition}
use contents_factory.TaskFactory.Keys.{IsKeyed, create_task-IsKeyed}
use contents_factory.Worker.{run}
use contents_factory.Sla.{scan}
use contents_factory.Orders.{submit, Validation, cancel, retry_task, cancel_task}
use contents_factory.FailureHandler.{handle}
use contents_factory.Pipeline.Failures.{handle-Preserves}
use contents_factory.Pipeline.Columns.{
  Preserves, IsSame-IsKeyed, transition-Preserves, run-Preserves, submit-IsKeyed, scan-Preserves,
  cancel-Preserves, retry_task-Preserves,
}

-- One call of a part, whatever it returns or throws.
pub data Step : Db → Db → Type 0 where
  create : (db : Db) (env : Env) (input : CreateTaskInput) → Step db (create_task env input db).1
  move :
      (db : Db) (env : Env) (id : ℕ) (to : TaskState) (reason : String) (error : Option Thrown)
      → Step db (transition env id to reason error db).1
  work :
      (db : Db) (env : Env) (processor : Job → M (Unit {0})) (job : Job)
      → ((j : Job) → Preserves (processor j))
      → Step db (run env processor job db).1
  submit_order :
      (db : Db) (env : Env) (validation : Validation) (id : ℕ)
      → Step db (submit env validation id db).1
  fail_run :
      (db : Db) (env : Env) (config : Config) (id : ℕ) (class : FailureClass)
      (error : Option Thrown)
      → Step db (handle env config id class error db).1
  watch : (db : Db) (env : Env) (acquired : Bool) → Step db (scan env acquired db).1
  cancel_order :
      (db : Db) (env : Env) (id : ℕ) (reason : Option ℕ) → Step db (cancel env id reason db).1
  retry_one : (db : Db) (env : Env) (id : ℕ) → Step db (retry_task env id db).1
  cancel_one : (db : Db) (env : Env) (id : ℕ) → Step db (cancel_task env id db).1

-- the states that a run of steps leads to
pub data IsReachable : Db → Db → Type 0 where
  start : (db : Db) → IsReachable db db
  then_step : (db db' db'' : Db) → IsReachable db db' → Step db' db'' → IsReachable db db''

Step-IsKeyed : (db db' : Db) → Step db db' → IsKeyed db → IsKeyed db'
unfolding cancel_task
Step-IsKeyed _ _ (create db env input) h = create_task-IsKeyed env input db h
Step-IsKeyed _ _ (move db env id to reason error) h =
    IsSame-IsKeyed db (transition env id to reason error db).1 h
      (transition-Preserves env id to reason error db h)
Step-IsKeyed _ _ (work db env processor job k) h =
    IsSame-IsKeyed db (run env processor job db).1 h (run-Preserves env processor job k db h)
Step-IsKeyed _ _ (submit_order db env validation id) h = submit-IsKeyed env validation id db h
Step-IsKeyed _ _ (fail_run db env config id class error) h =
    IsSame-IsKeyed db (handle env config id class error db).1 h
      (handle-Preserves env config id class error db h)
Step-IsKeyed _ _ (watch db env acquired) h =
    IsSame-IsKeyed db (scan env acquired db).1 h (scan-Preserves env acquired db h)
Step-IsKeyed _ _ (cancel_order db env id reason) h =
    IsSame-IsKeyed db (cancel env id reason db).1 h (cancel-Preserves env id reason db h)
Step-IsKeyed _ _ (retry_one db env id) h =
    IsSame-IsKeyed db (retry_task env id db).1 h (retry_task-Preserves env id db h)
Step-IsKeyed _ _ (cancel_one db env id) h =
    IsSame-IsKeyed db (cancel_task env id db).1 h
      (transition-Preserves env id TaskState.cancelled "manual_cancel" none db h)

-- From a state in which the tasks have distinct ids and distinct idempotency keys, every state is such
-- that is reached by calls of createTask and transition, runs of workers, the failure handler, scans of
-- the SLA monitor, the submission and the cancelling of orders, and retries and cancellations by
-- operators, in any order and whether or not the calls succeed, as long as the workers' processors leave
-- the ids and keys of the tasks alone.
pub reachable-IsKeyed : (db db' : Db) → IsReachable db db' → IsKeyed db → IsKeyed db'
reachable-IsKeyed _ _ (start db) h = h
reachable-IsKeyed _ _ (then_step db db' db'' run_to step) h =
    Step-IsKeyed db' db'' step (reachable-IsKeyed db db' run_to h)
