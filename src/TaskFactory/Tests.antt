-- ===== src/TaskFactory/Tests.antt =====
-- Creating tasks and moving them, at concrete states.
use contents_factory.Common.{arith, nat_eq, refl, ◌≡◌}
use contents_factory.Errors.{err, ok, other}
use contents_factory.Samples.{db_running, env_down, env_up, input}
use contents_factory.Store.{Task, key_eq}
use contents_factory.TaskFactory.{
  create_task, enqueue, envelope, idempotency_key, insert_and_enqueue, new_task, record_event,
  reuse_task, spec_max_retry, spec_sla_ms,
}
use contents_factory.TaskFactory.Keys.{IsKeyed, create_task-IsKeyed}
use contents_factory.TaskFactory.Reuse.{create_task_again, create_task_lost}

create_task-IsKeyed_example : IsKeyed (create_task env_up input db_running).1
create_task-IsKeyed_example =
    create_task-IsKeyed env_up input db_running
      (record { distinct_ids = ground arith; distinct_keys = ground arith; fresh = ground arith })

-- the row that the first call makes
abbrev made : Task
made = new_task env_up input 20

create_task_again_example :
    create_task env_up input (create_task env_up input db_running).1
    ≡ (ok made, (create_task env_up input db_running).1)
unfolding create_task reuse_task insert_and_enqueue enqueue new_task record_event envelope
    idempotency_key spec_max_retry spec_sla_ms
create_task_again_example = create_task_again env_up env_up input db_running refl

create_task_lost_example :
    let db' = (create_task env_down input db_running).1 in
    ((create_task env_down input db_running).0 ≡ err other)
    × (db'.jobs ≡ db_running.jobs)
    × (create_task env_up input db' ≡ (ok (new_task env_down input db_running.next_id), db'))
unfolding idempotency_key
create_task_lost_example = create_task_lost env_down env_up input db_running refl refl
