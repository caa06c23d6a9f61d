-- ===== src/Pipeline/Failures.antt =====
-- The failure handler leaves the ids and the idempotency keys of the tasks as they are.
use Prim.Native.String.{String}
use contents_factory.Common.{
  ℕ, ◌+◌, ◌≡◌, refl, inl, inr, Bool, true, false, Option, none, some, arith, Bool-cases,
  Option-cases, ltb, leb, ◌==◌, nat_eq, if◌then◌else◌,
}
use contents_factory.Enums.{TaskState, TaskKind, task_kind_eq}
use contents_factory.Errors.{FailureClass, Thrown}
use contents_factory.Store.{
  Db, Env, Config, M, Task, ◌>>◌, find_task, save_task, update, modify, alert,
}
use contents_factory.TaskFactory.{transition, enqueue}
use contents_factory.TaskFactory.Keys.{IsKeyed}
use contents_factory.FailureHandler.{
  fail_scene, fail_content, fail_order, mark_content_failed, handle_deferred, pause_agent,
  block_content, handle_retry, handle_task, handle, backoff_ms, max_deferrals, next_slot_delay_ms,
}
use contents_factory.Pipeline.Columns.{
  IsSame, Preserves, bind-IsSame, transition-Preserves, enqueue-Preserves, save_task-IsSame,
  update-IsSame,
}

fail_scene-Preserves : (task : Task) → Preserves (fail_scene task)
unfolding fail_scene
fail_scene-Preserves task db h = ground arith

fail_content-Preserves : (task : Task) → Preserves (fail_content task)
unfolding fail_content
fail_content-Preserves task db h = ground arith

fail_order-Preserves : (task : Task) → Preserves (fail_order task)
unfolding fail_order
fail_order-Preserves task db h = ground arith

mark_content_failed-Preserves : (task : Task) → Preserves (mark_content_failed task)
unfolding mark_content_failed
mark_content_failed-Preserves task db h = elim (Bool-cases (task.kind == TaskKind.publish)) [
  | inl skipped ↦ rw (skipped, mark_content_failed) (refl, refl, refl)
  | inr marked ↦
      rw (marked, mark_content_failed)
        (bind-IsSame (fail_scene task) (λ _. fail_content task >> fail_order task) db h
          (fail_scene-Preserves task db h)
          (λ _ db1 h1.
            bind-IsSame (fail_content task) (λ _. fail_order task) db1 h1
              (fail_content-Preserves task db1 h1) (λ _. fail_order-Preserves task)))
]

alert-Preserves : (name : String) → Preserves (alert name)
alert-Preserves name db h = (refl, refl, refl)

pause_agent-Preserves : (task : Task) → Preserves (pause_agent task)
unfolding pause_agent
pause_agent-Preserves task db h = ground arith

block_content-Preserves : (task : Task) → Preserves (block_content task)
unfolding block_content
block_content-Preserves task db h = ground arith

-- one step after the other
then-Preserves : {A B : Type 0} (m : M A) (n : M B) → Preserves m → Preserves n → Preserves (m >> n)
then-Preserves m n p q db h = bind-IsSame m (λ _. n) db h (p db h) (λ _. q)

handle_retry-IsSame :
    (env : Env) (id : ℕ) (task : Task) (fallback : Bool) (reason : String) (error : Option Thrown)
    (db : Db)
    → IsKeyed db
    → find_task id db ≡ some task
    → IsSame db (handle_retry env task fallback reason error db).1
unfolding handle_retry
handle_retry-IsSame env id task fallback reason error db h found =
    elim (Bool-cases (leb task.max_retry task.retry_count)) [
      | inl spent ↦
          rw (spent, handle_retry)
            (then-Preserves (transition env task.id TaskState.escalated "retry_exhausted" error)
              (alert "retry_exhausted" >> mark_content_failed task)
              (transition-Preserves env task.id TaskState.escalated "retry_exhausted" error)
              (then-Preserves (alert "retry_exhausted") (mark_content_failed task)
                (alert-Preserves "retry_exhausted") (mark_content_failed-Preserves task))
              db h)
      | inr left ↦
          let attempt = task.retry_count + 1 in
          let again : Task = record task { retry_count = attempt; error = error } in
          let to = if fallback then TaskState.fallback else TaskState.retry in
          let delay = if fallback then 0 else backoff_ms attempt in
          let move = transition env task.id to reason error in
          rw (left, handle_retry)
            (bind-IsSame (save_task again) (λ _. move >> enqueue env again (attempt + 1) delay) db h
              (save_task-IsSame id task again db h found refl refl)
              (λ _.
                then-Preserves move (enqueue env again (attempt + 1) delay)
                  (transition-Preserves env task.id to reason error)
                  (enqueue-Preserves env again (attempt + 1) delay)))
    ]

handle_deferred-IsSame :
    (env : Env) (config : Config) (id : ℕ) (task : Task) (error : Option Thrown) (db : Db)
    → IsKeyed db
    → find_task id db ≡ some task
    → IsSame db (handle_deferred env config task error db).1
unfolding handle_deferred
handle_deferred-IsSame env config id task error db h found =
    let deferrals = task.payload.deferrals + 1 in
    let delay_ms = next_slot_delay_ms config task db in
    let later : Task = record task { payload = record (task.payload) { deferrals = deferrals } } in
    elim (Bool-cases (ltb max_deferrals deferrals)) [
      | inl spent ↦
          rw (spent, handle_deferred)
            (then-Preserves (transition env task.id TaskState.escalated "deferral_limit" error)
              (alert "publish_deferral_exhausted")
              (transition-Preserves env task.id TaskState.escalated "deferral_limit" error)
              (alert-Preserves "publish_deferral_exhausted") db h)
      | inr left ↦
          let move = transition env task.id TaskState.retry "channel_headroom" none in
          let extend : M (Unit {0}) = modify (λ db. record db {
            tasks =
                update (λ t. t.id == task.id)
                  (λ t. record t { sla_deadline = some (env.now + delay_ms + 600000) }) db.tasks;
          }) in
          let queue = enqueue env later (task.retry_count + 1) delay_ms in
          rw (left, handle_deferred)
            (bind-IsSame (save_task later) (λ _. move >> (extend >> queue)) db h
              (save_task-IsSame id task later db h found refl refl)
              (λ _.
                then-Preserves move (extend >> queue)
                  (transition-Preserves env task.id TaskState.retry "channel_headroom" none)
                  (then-Preserves extend queue
                    (λ db' h'. update-IsSame _ _ (λ t. refl) (λ t. refl) db')
                    (enqueue-Preserves env later (task.retry_count + 1) delay_ms))))
    ]

-- a task that is failed for good
fail_task-Preserves :
    (env : Env) (task : Task) (to : TaskState) (reason : String) (error : Option Thrown)
    (rest : M (Unit {0}))
    → Preserves rest
    → Preserves (transition env task.id to reason error >> rest)
fail_task-Preserves env task to reason error rest k =
    then-Preserves (transition env task.id to reason error) rest
      (transition-Preserves env task.id to reason error) k

handle_task-IsSame :
    (env : Env) (config : Config) (id : ℕ) (task : Task) (class : FailureClass)
    (error : Option Thrown) (db : Db)
    → IsKeyed db
    → find_task id db ≡ some task
    → IsSame db (handle_task env config task class error db).1
unfolding handle_task
handle_task-IsSame env config id task FailureClass.deferred error db h found =
    handle_deferred-IsSame env config id task error db h found
handle_task-IsSame env config id task FailureClass.policy_violation error db h found =
    fail_task-Preserves env task TaskState.failed "policy_violation" error
      (block_content task >> alert "policy_violation")
      (then-Preserves (block_content task) (alert "policy_violation") (block_content-Preserves task)
        (alert-Preserves "policy_violation"))
      db h
handle_task-IsSame env config id task FailureClass.budget_exceeded error db h found =
    let end = alert "budget_exceeded" >> mark_content_failed task in
    then-Preserves (pause_agent task)
      (transition env task.id TaskState.escalated "budget_exceeded" error >> end)
      (pause_agent-Preserves task)
      (fail_task-Preserves env task TaskState.escalated "budget_exceeded" error end (
        then-Preserves (alert "budget_exceeded") (mark_content_failed task)
          (alert-Preserves "budget_exceeded") (mark_content_failed-Preserves task)))
      db h
handle_task-IsSame env config id task FailureClass.invalid_input error db h found =
    fail_task-Preserves env task TaskState.failed "invalid_input" error (mark_content_failed task)
      (mark_content_failed-Preserves task) db h
handle_task-IsSame env config id task FailureClass.backend_unavailable error db h found =
    handle_retry-IsSame env id task true "backend_unavailable" error db h found
handle_task-IsSame env config id task FailureClass.transient error db h found =
    handle_retry-IsSame env id task false "transient" error db h found
handle_task-IsSame env config id task FailureClass.retry_exhausted error db h found =
    handle_retry-IsSame env id task false "retry_exhausted" error db h found

pub handle-Preserves :
    (env : Env) (config : Config) (id : ℕ) (class : FailureClass) (error : Option Thrown)
    → Preserves (handle env config id class error)
unfolding handle
handle-Preserves env config id class error db h = elim (Option-cases (find_task id db)) [
  | inl absent ↦ rw (absent, handle) (refl, refl, refl)
  | inr (task, found) ↦
      rw (found, handle) (handle_task-IsSame env config id task class error db h found)
]
