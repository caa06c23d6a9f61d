-- ===== src/FailureHandler/Deferral.antt =====
-- A publication that its channel has no room for is put off, which is no failure.
use native.Mathlib.Decide.{dec_lt}
use contents_factory.Common.{
  ◌+◌, ◌≤◌, ◌<◌, ◌≡◌, refl, ◌⊎◌, inl, inr, true, Option, none, some, [], ◌∷◌, ◌++◌, arith, ◌==◌,
  nat_eq,
}
use contents_factory.Enums.{TaskState}
use contents_factory.Errors.{FailureClass, Thrown, ok}
use contents_factory.StateMachine.{can_transition_task}
use contents_factory.Store.{
  Db, Env, Config, Task, find_task, replace, find-some, find_of_replace, find-update, for_some,
}
use contents_factory.TaskFactory.{transition, enqueue, moved_task, envelope}
use contents_factory.TaskFactory.Transition.{transition_allowed, transition_frame}
use contents_factory.FailureHandler.{
  handle, handle_task, handle_deferred, next_slot_delay_ms, max_deferrals,
}

-- the task with one more deferral counted, and the row that the handler leaves for it
abbrev pub put_off : Task → Task
put_off task = record task {
  payload = record (task.payload) { deferrals = task.payload.deferrals + 1 };
}

abbrev pub deferred_row : Env → Config → Task → Db → Task
deferred_row env config task db = record (moved_task env (put_off task) TaskState.retry none) {
  sla_deadline = some (env.now + next_slot_delay_ms config task db + 600000);
}

module _ (env : Env) (config : Config) (task : Task) (error : Option Thrown) (db : Db)
    (found : find_task task.id db ≡ some task) (running : task.state ≡ TaskState.running) where
  deferred_within :
      task.payload.deferrals < max_deferrals
      → env.queue_up ≡ true
      → let r = handle_deferred env config task error db in
        (r.0 ≡ ok tt)
        × (find_task task.id r.1 ≡ some (deferred_row env config task db))
        × (r.1.jobs
            ≡ db.jobs
              ++ envelope env
                  (put_off task)
                  (task.retry_count + 1)
                  (next_slot_delay_ms config task db)
                ∷ [])
        × (r.1.contents ≡ db.contents)
  unfolding handle_deferred transition enqueue can_transition_task moved_task
  deferred_within room up =
      let p = λ (u : Task). u.id == task.id in
      let hit = (find-some p db.tasks found).0 in
      let moved = moved_task env (put_off task) TaskState.retry none in
      let rows1 = replace (λ (u : Task). u.id) (put_off task) db.tasks in
      let saved =
        find_of_replace (λ (u : Task). u.id) p task (put_off task) db.tasks found refl hit in
      let stepped =
        find_of_replace (λ (u : Task). u.id) p (put_off task) moved rows1 saved refl hit in
      let dated =
        find-update p
          (λ (t : Task). record t {
            sla_deadline = some (env.now + next_slot_delay_ms config task db + 600000);
          })
          (replace (λ (u : Task). u.id) moved rows1) moved stepped hit in
      ground (arith, saved, dated)

  deferred_over :
      max_deferrals ≤ task.payload.deferrals
      → let r = handle_deferred env config task error db in
        (r.0 ≡ ok tt)
        × (find_task task.id r.1 ≡ some (moved_task env task TaskState.escalated error))
        × (r.1.jobs ≡ db.jobs)
        × (r.1.contents ≡ db.contents)
  unfolding handle_deferred can_transition_task
  deferred_over spent = ground (
    arith,
    transition_allowed env task.id TaskState.escalated "deferral_limit" error db task found
        (ground arith),
    transition_frame env task.id TaskState.escalated "deferral_limit" error db,
  )

-- A running task whose failure is a deferral spends none of its retries and changes no content. Up
-- to 24 deferrals are booked, each with a job that waits for the channel's next slot and a deadline
-- moved behind it; after that the task is escalated and no job is queued.
pub handle_deferral_outcome :
    (env : Env) (config : Config) (task : Task) (error : Option Thrown) (db : Db)
    → find_task task.id db ≡ some task
    → task.state ≡ TaskState.running
    → env.queue_up ≡ true
    → let r = handle env config task.id FailureClass.deferred error db in
      (r.0 ≡ ok tt)
      × (r.1.contents ≡ db.contents)
      × ((t : Task) × (find_task task.id r.1 ≡ some t)
          × (t.retry_count ≡ task.retry_count)
          × (((task.payload.deferrals < 24)
                × (t.state ≡ TaskState.retry)
                × (t.payload.deferrals ≡ task.payload.deferrals + 1)
                × (t.sla_deadline ≡ some (env.now + next_slot_delay_ms config task db + 600000))
                × (r.1.jobs
                    ≡ db.jobs
                      ++ envelope env
                          (put_off task)
                          (task.retry_count + 1)
                          (next_slot_delay_ms config task db)
                        ∷ []))
              ⊎ ((24 ≤ task.payload.deferrals)
                  × (t.state ≡ TaskState.escalated)
                  × (r.1.jobs ≡ db.jobs))))
unfolding handle handle_task moved_task
handle_deferral_outcome env config task error db found running up =
    rw (found, handle, for_some)
      (elim (dec_lt task.payload.deferrals max_deferrals) [
        | yes room ↦
            let (returned, row, jobs, contents) =
              deferred_within env config task error db found running room up in
            (
              returned,
              contents,
              (deferred_row env config task db, row, refl, inl (room, refl, refl, refl, jobs)),
            )
        | no spent ↦
            let (returned, row, jobs, contents) =
              deferred_over env config task error db found running (omega arith) in
            (
              returned,
              contents,
              (
                moved_task env task TaskState.escalated error,
                row,
                refl,
                inr (omega arith, refl, jobs),
              ),
            )
      ])
