-- ===== src/Worker/Tests.antt =====
-- A task that is claimed twice, and one that is cancelled while it runs.
use contents_factory.Common.{[], false, nat_eq, refl, some, true, ◌∷◌, ◌≡◌, ◌⊎◌}
use contents_factory.Enums.{TaskKind, TaskState, task_state_eq}
use contents_factory.Errors.{Thrown, classify, err, ok}
use contents_factory.Samples.{db_running, env_up, task_of}
use contents_factory.Store.{Db, Job, M, Task, find_task, modify}
use contents_factory.TaskFactory.{envelope, record_event}
use contents_factory.Worker.{claim, done, failed, run}
use contents_factory.Worker.Claims.{claim_once, claimed_db, done_task, failed_task, run_outcome}

-- the task is cancelled while the processor runs
abbrev cancelling : Job → M (Unit {0})
cancelling job = modify (λ db. record db {
  tasks = task_of 9 TaskKind.generate_video TaskState.cancelled (some 5) 0 ∷ [];
})

abbrev queued_task : Task
queued_task = task_of 9 TaskKind.generate_video TaskState.queued (some 5) 0

abbrev db_queued : Db
db_queued = record db_running { tasks = queued_task ∷ [] }

abbrev queued_job : Job
queued_job = envelope env_up queued_task 1 0

claim_once_example :
    ((claim env_up 9 (claim env_up 9 db_queued).1).0 ≡ ok false)
    × (((claim env_up 9 db_queued).0 ≡ ok true)
        ⊎ (((claim env_up 9 db_queued).0 ≡ ok false)
            × ((claim env_up 9 db_queued).1.tasks ≡ db_queued.tasks)))
claim_once_example = claim_once env_up env_up 9 db_queued

run_outcome_example :
    let r = cancelling queued_job (claimed_db env_up queued_job.task_id db_queued) in
    let out = run env_up cancelling queued_job db_queued in
    ((r.0 ≡ ok tt)
      × (out.0 ≡ ok (some done))
      × (find_task queued_job.task_id out.1
          ≡ some (
              done_task env_up (task_of 9 TaskKind.generate_video TaskState.cancelled (some 5) 0))))
    ⊎ ((e : Thrown) × (r.0 ≡ err e)
        × (out.0 ≡ ok (some (failed (classify e) e)))
        × (find_task queued_job.task_id out.1
            ≡ some
                (failed_task e (task_of 9 TaskKind.generate_video TaskState.cancelled (some 5) 0))))
unfolding claim envelope record_event
run_outcome_example =
    run_outcome env_up cancelling queued_job db_queued
      (task_of 9 TaskKind.generate_video TaskState.cancelled (some 5) 0) refl refl
