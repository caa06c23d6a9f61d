-- ===== src/FailureHandler/Outcomes.antt =====
-- What the failure handler does to a running task, its retry budget and its content.
use Prim.Native.String.{String}
use native.Mathlib.Decide.{dec_lt}
use contents_factory.Common.{
  ◌+◌, ◌≤◌, ◌<◌, ◌≡◌, refl, ◌⊎◌, inl, inr, Bool, true, false, Option, none, some, [], ◌∷◌, ◌++◌,
  arith, ◌==◌, nat_eq, if◌then◌else◌,
}
use contents_factory.Enums.{TaskState, task_kind_eq}
use contents_factory.Errors.{FailureClass, Thrown, ok}
use contents_factory.StateMachine.{can_transition_task}
use contents_factory.Store.{
  Db, Env, Config, Task, find_task, replace, find-some, find_of_replace, M, for_some,
}
use contents_factory.TaskFactory.{transition, enqueue, moved_task, envelope}
use contents_factory.TaskFactory.Transition.{transition_allowed, transition_frame}
use contents_factory.FailureHandler.{
  handle, handle_task, handle_retry, backoff_ms, mark_content_failed, fail_scene, fail_content,
  fail_order,
}

module _ (env : Env) (task : Task) (db : Db) where
  -- the row that a retry leaves
  abbrev retried : Bool → Option Thrown → Task
  retried fallback error =
      moved_task env (record task { retry_count = task.retry_count + 1; error = error })
        (if fallback then TaskState.fallback else TaskState.retry) error

  handle_retry_again :
      (fallback : Bool) (reason : String) (error : Option Thrown)
      → find_task task.id db ≡ some task
      → task.state ≡ TaskState.running
      → task.retry_count < task.max_retry
      → env.queue_up ≡ true
      → let r = handle_retry env task fallback reason error db in
        (r.0 ≡ ok tt)
        × (find_task task.id r.1 ≡ some (retried fallback error))
        × (r.1.jobs
            ≡ db.jobs
              ++ envelope env
                  (record task { retry_count = task.retry_count + 1; error = error })
                  (task.retry_count + 2)
                  (if fallback then 0 else backoff_ms (task.retry_count + 1))
                ∷ [])
        × (r.1.contents ≡ db.contents)
  unfolding handle_retry transition enqueue can_transition_task
  handle_retry_again fallback reason error found running room up =
      let again = record task { retry_count = task.retry_count + 1; error = error } in
      let hit = (find-some (λ (u : Task). u.id == task.id) db.tasks found).0 in
      let saved =
        find_of_replace (λ (u : Task). u.id) (λ (u : Task). u.id == task.id) task again db.tasks
          found refl hit in
      let moved =
        find_of_replace (λ (u : Task). u.id) (λ (u : Task). u.id == task.id) again
          (retried fallback error) (replace (λ (u : Task). u.id) again db.tasks) saved refl hit in
      ground (arith, saved, moved)

-- The step returns, and leaves the tasks and the queues alone.
abbrev IsQuiet : M (Unit {0}) → Db → Type 0
IsQuiet m db = ((m db).0 ≡ ok tt) × ((m db).1.tasks ≡ db.tasks) × ((m db).1.jobs ≡ db.jobs)

fail_scene-IsQuiet : (task : Task) (db : Db) → IsQuiet (fail_scene task) db
unfolding fail_scene
fail_scene-IsQuiet task db = ground arith

fail_content-IsQuiet : (task : Task) (db : Db) → IsQuiet (fail_content task) db
unfolding fail_content
fail_content-IsQuiet task db = ground arith

fail_order-IsQuiet : (task : Task) (db : Db) → IsQuiet (fail_order task) db
unfolding fail_order
fail_order-IsQuiet task db = ground arith

mark_content_failed-IsQuiet : (task : Task) (db : Db) → IsQuiet (mark_content_failed task) db
unfolding mark_content_failed
mark_content_failed-IsQuiet task db = ground (
  arith,
  fail_scene-IsQuiet task db,
  fail_content-IsQuiet task (fail_scene task db).1,
  fail_order-IsQuiet task (fail_content task (fail_scene task db).1).1,
)

module _ (env : Env) (task : Task) (db : Db) (found : find_task task.id db ≡ some task) where
  handle_retry_exhausted :
      (fallback : Bool) (reason : String) (error : Option Thrown)
      → task.state ≡ TaskState.running
      → task.max_retry ≤ task.retry_count
      → let r = handle_retry env task fallback reason error db in
        (r.0 ≡ ok tt)
        × (find_task task.id r.1 ≡ some (moved_task env task TaskState.escalated error))
        × (r.1.jobs ≡ db.jobs)
  unfolding handle_retry can_transition_task
  handle_retry_exhausted fallback reason error running spent =
      let moved =
        transition_allowed env task.id TaskState.escalated "retry_exhausted" error db task found
          (ground arith) in
      let frame = transition_frame env task.id TaskState.escalated "retry_exhausted" error db in
      let db1 = (transition env task.id TaskState.escalated "retry_exhausted" error db).1 in
      ground (
        arith,
        moved,
        frame,
        mark_content_failed-IsQuiet task (record db1 { alerts = "retry_exhausted" ∷ db1.alerts }),
      )

handle_retry_outcome :
    (env : Env) (task : Task) (db : Db) (fallback : Bool) (reason : String) (error : Option Thrown)
    → find_task task.id db ≡ some task
    → task.state ≡ TaskState.running
    → env.queue_up ≡ true
    → let r = handle_retry env task fallback reason error db in
      (r.0 ≡ ok tt)
      × (((task.retry_count < task.max_retry)
            × (find_task task.id r.1 ≡ some (retried env task db fallback error))
            × (r.1.jobs
                ≡ db.jobs
                  ++ envelope env
                      (record task { retry_count = task.retry_count + 1; error = error })
                      (task.retry_count + 2)
                      (if fallback then 0 else backoff_ms (task.retry_count + 1))
                    ∷ [])
            × (r.1.contents ≡ db.contents))
          ⊎ ((task.max_retry ≤ task.retry_count)
              × (find_task task.id r.1 ≡ some (moved_task env task TaskState.escalated error))
              × (r.1.jobs ≡ db.jobs)))
handle_retry_outcome env task db fallback reason error found running up =
    elim (dec_lt task.retry_count task.max_retry) [
      | yes room ↦
          let (returned, row, jobs, contents) =
            handle_retry_again env task db fallback reason error found running room up in
          (returned, inl (room, row, jobs, contents))
      | no spent ↦
          let (returned, row, jobs) =
            handle_retry_exhausted env task db found fallback reason error running (omega arith) in
          (returned, inr (omega arith, row, jobs))
    ]

-- the classes that are retried, with whether the retry is a fallback
abbrev pub retried_as : FailureClass → Option Bool
retried_as FailureClass.backend_unavailable = some true
retried_as FailureClass.transient = some false
retried_as FailureClass.retry_exhausted = some false
retried_as _ = none

-- A running task fails with a class that is retried. While its retry budget lasts, one retry is
-- booked, its state becomes FALLBACK for an unavailable backend and RETRY otherwise, and one job is
-- queued, at once for a fallback and else with the delay of that retry; no content changes. A task
-- that has used its budget up is escalated with its retries as they were, and no job is queued.
pub handle_retry_budget :
    (env : Env) (config : Config) (task : Task) (cls : FailureClass) (fallback : Bool)
    (error : Option Thrown) (db : Db)
    → find_task task.id db ≡ some task
    → task.state ≡ TaskState.running
    → env.queue_up ≡ true
    → retried_as cls ≡ some fallback
    → let r = handle env config task.id cls error db in
      (r.0 ≡ ok tt)
      × ((t : Task) × (find_task task.id r.1 ≡ some t)
          × (((task.retry_count < task.max_retry)
                × (t.retry_count ≡ task.retry_count + 1)
                × (t.state ≡ (if fallback then TaskState.fallback else TaskState.retry))
                × (r.1.contents ≡ db.contents)
                × (r.1.jobs
                    ≡ db.jobs
                      ++ envelope env
                          (record task { retry_count = task.retry_count + 1; error = error })
                          (task.retry_count + 2)
                          (if fallback then 0 else backoff_ms (task.retry_count + 1))
                        ∷ []))
              ⊎ ((task.max_retry ≤ task.retry_count)
                  × (t.retry_count ≡ task.retry_count)
                  × (t.state ≡ TaskState.escalated)
                  × (r.1.jobs ≡ db.jobs))))
unfolding handle handle_task moved_task
handle_retry_budget env config task cls fallback error db found running up h =
    let (reason, same) = through cls h in
    let (returned, rest) =
      handle_retry_outcome env task db fallback reason error found running up in
    rw same (
      returned,
      elim rest [
        | inl (room, row, jobs, contents) ↦
            (retried env task db fallback error, row, inl (room, refl, refl, contents, jobs))
        | inr (spent, row, jobs) ↦
            (moved_task env task TaskState.escalated error, row, inr (spent, refl, refl, jobs))
      ],
    )
  where
    through :
        (c : FailureClass)
        → retried_as c ≡ some fallback
        → (reason : String) × (handle env config task.id c error db
            ≡ handle_retry env task fallback reason error db)
    through FailureClass.backend_unavailable e =
        (let f : true ≡ fallback = ground arith in
          ("backend_unavailable", rw (found, for_some) (rw (← f))))
    through FailureClass.transient e =
        (let f : false ≡ fallback = ground arith in ("transient", rw (found, for_some) (rw (← f))))
    through FailureClass.retry_exhausted e =
        (let f : false ≡ fallback = ground arith in
          ("retry_exhausted", rw (found, for_some) (rw (← f))))
    through FailureClass.deferred e = cc
    through FailureClass.policy_violation e = cc
    through FailureClass.budget_exceeded e = cc
    through FailureClass.invalid_input e = cc
