-- ===== src/FailureHandler/Tests.antt =====
-- Failures of a running task.
use contents_factory.Common.{
  [], false, if◌then◌else◌, nat_eq, none, refl, some, ◌++◌, ◌+◌, ◌<◌, ◌∷◌, ◌≡◌, ◌≤◌, ◌⊎◌,
}
use contents_factory.Enums.{TaskState, task_kind_eq}
use contents_factory.Errors.{FailureClass, ok}
use contents_factory.FailureHandler.{backoff_ms, handle, next_slot_delay_ms}
use contents_factory.FailureHandler.Deferral.{handle_deferral_outcome, put_off}
use contents_factory.FailureHandler.Outcomes.{handle_retry_budget}
use contents_factory.Samples.{config, db_running, env_up, running_task}
use contents_factory.Store.{Task, find_task}
use contents_factory.TaskFactory.{envelope}

handle_retry_budget_example :
    let r = handle env_up config running_task.id FailureClass.transient none db_running in
    (r.0 ≡ ok tt)
    × ((t : Task) × (find_task running_task.id r.1 ≡ some t)
        × (((running_task.retry_count < running_task.max_retry)
              × (t.retry_count ≡ running_task.retry_count + 1)
              × (t.state ≡ (if false then TaskState.fallback else TaskState.retry))
              × (r.1.contents ≡ db_running.contents)
              × (r.1.jobs
                  ≡ db_running.jobs
                    ++ envelope env_up
                        (record running_task {
                          retry_count = running_task.retry_count + 1;
                          error = none;
                        })
                        (running_task.retry_count + 2)
                        (if false then 0 else backoff_ms (running_task.retry_count + 1))
                      ∷ []))
            ⊎ ((running_task.max_retry ≤ running_task.retry_count)
                × (t.retry_count ≡ running_task.retry_count)
                × (t.state ≡ TaskState.escalated)
                × (r.1.jobs ≡ db_running.jobs))))
handle_retry_budget_example =
    handle_retry_budget env_up config running_task (FailureClass.transient) false none db_running
      refl refl refl refl

handle_deferral_outcome_example :
    let r = handle env_up config running_task.id FailureClass.deferred none db_running in
    (r.0 ≡ ok tt)
    × (r.1.contents ≡ db_running.contents)
    × ((t : Task) × (find_task running_task.id r.1 ≡ some t)
        × (t.retry_count ≡ running_task.retry_count)
        × (((running_task.payload.deferrals < 24)
              × (t.state ≡ TaskState.retry)
              × (t.payload.deferrals ≡ running_task.payload.deferrals + 1)
              × (t.sla_deadline
                  ≡ some (env_up.now + next_slot_delay_ms config running_task db_running + 600000))
              × (r.1.jobs
                  ≡ db_running.jobs
                    ++ envelope env_up
                        (put_off running_task)
                        (running_task.retry_count + 1)
                        (next_slot_delay_ms config running_task db_running)
                      ∷ []))
            ⊎ ((24 ≤ running_task.payload.deferrals)
                × (t.state ≡ TaskState.escalated)
                × (r.1.jobs ≡ db_running.jobs))))
handle_deferral_outcome_example =
    handle_deferral_outcome env_up config running_task none db_running refl refl refl
