-- ===== src/TaskFactory/Transition.antt =====
-- The one method through which states are meant to change.
use Prim.Native.String.{String}
use contents_factory.Common.{
  ℕ, ◌≡◌, refl, ◌⊎◌, true, false, Option, none, some, inl, inr, arith, ◌==◌, nat_eq, Option-cases,
  Bool-cases,
}
use contents_factory.Enums.{TaskState}
use contents_factory.Errors.{ok, err, Thrown, app, app_error, ErrorCode}
use contents_factory.StateMachine.{can_transition_task}
use contents_factory.Store.{Db, Env, Task, find_task, replace, find-some, find_of_replace}
use contents_factory.TaskFactory.{transition, moved_task}

module _ (env : Env) (id : ℕ) (to : TaskState) (reason : String) (error : Option Thrown)
    (db : Db) where
  pub transition_missing :
      find_task id db ≡ none
      → transition env id to reason error db ≡ (err (app (app_error ErrorCode.task_not_found)), db)
  unfolding transition
  transition_missing e = rw (e, transition)

  pub transition_refused :
      (t : Task)
      → find_task id db ≡ some t
      → can_transition_task t.state to ≡ false
      → transition env id to reason error db
        ≡ (err (app (app_error ErrorCode.task_invalid_state)), db)
  unfolding transition
  transition_refused t e f = rw (e, transition) (rw f)

  pub transition_allowed :
      (t : Task)
      → find_task id db ≡ some t
      → can_transition_task t.state to ≡ true
      → let r = transition env id to reason error db in
        (r.0 ≡ ok (moved_task env t to error))
        × (r.1.tasks ≡ replace (λ u. u.id) (moved_task env t to error) db.tasks)
        × (find_task id r.1 ≡ some (moved_task env t to error))
  unfolding transition moved_task
  transition_allowed t e f =
      let hit = (find-some (λ (u : Task). u.id == id) db.tasks e).0 in
      rw (e, transition)
        (rw f (
          refl,
          refl,
          find_of_replace (λ (u : Task). u.id) (λ (u : Task). u.id == id) t
              (moved_task env t to error) db.tasks e refl hit,
        ))

  -- A transition writes only tasks and events.
  pub transition_frame :
      let r = transition env id to reason error db in
      (r.1.jobs ≡ db.jobs)
      × (r.1.contents ≡ db.contents)
      × (r.1.orders ≡ db.orders)
      × (r.1.scenes ≡ db.scenes)
      × (r.1.channels ≡ db.channels)
      × (r.1.publications ≡ db.publications)
  unfolding transition
  transition_frame = ground arith

-- A transition that returns found the task, in a state from which the table allows the new one; it
-- replaces that row by the moved one and records the step. One that throws changes nothing, and the
-- error says that the task is unknown or that the table forbids the step.
pub transition_outcome :
    (env : Env) (id : ℕ) (to : TaskState) (reason : String) (error : Option Thrown) (db : Db)
    → let r = transition env id to reason error db in
      ((t : Task) × (find_task id db ≡ some t)
        × (can_transition_task t.state to ≡ true)
        × (r.0 ≡ ok (moved_task env t to error))
        × (r.1.tasks ≡ replace (λ u. u.id) (moved_task env t to error) db.tasks)
        × (find_task id r.1 ≡ some (moved_task env t to error)))
      ⊎ (((r.0 ≡ err (app (app_error ErrorCode.task_not_found)))
            ⊎ (r.0 ≡ err (app (app_error ErrorCode.task_invalid_state))))
          × (r.1 ≡ db))
transition_outcome env id to reason error db = elim (Option-cases (find_task id db)) [
  | inl missing ↦ inr (ground (arith, transition_missing env id to reason error db missing))
  | inr (t, found) ↦ elim (Bool-cases (can_transition_task t.state to)) [
    | inl legal ↦
        let (returned, rows, after) = transition_allowed env id to reason error db t found legal in
        inl (t, found, legal, returned, rows, after)
    | inr illegal ↦
        inr (ground (arith, transition_refused env id to reason error db t found illegal))
  ]
]
