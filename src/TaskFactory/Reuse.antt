-- ===== src/TaskFactory/Reuse.antt =====
-- Creating a task a second time, and creating one while the queue is down.
use contents_factory.Common.{
  ℕ, ◌≡◌, refl, ◌⊎◌, inl, inr, true, false, none, some, [], ◌∷◌, ◌++◌, arith, Option-cases, ◌==◌,
  get_or,
}
use contents_factory.Enums.{TaskState}
use contents_factory.Errors.{ok, err, other}
use contents_factory.Store.{
  Db, Env, Task, IdempotencyKey, key_eq, key_beq_iff, find-some, find-concat, find_of_replace,
}
use contents_factory.TaskFactory.{
  CreateTaskInput, create_task, reuse_task, insert_and_enqueue, enqueue, find_key, idempotency_key,
  new_task, revived_task, is_reusable,
}

-- done or in flight
abbrev pub IsAlive : TaskState → Type 0
IsAlive s =
    (s ≡ TaskState.done)
    ⊎ (s ≡ TaskState.queued)
    ⊎ (s ≡ TaskState.running)
    ⊎ (s ≡ TaskState.retry)
    ⊎ (s ≡ TaskState.fallback)

abbrev pub IsDead : TaskState → Type 0
IsDead s = (s ≡ TaskState.failed) ⊎ (s ≡ TaskState.escalated) ⊎ (s ≡ TaskState.cancelled)

module _ (env : Env) (input : CreateTaskInput) (db : Db) where
  abbrev pub key : IdempotencyKey
  key = idempotency_key input (get_or input.attempt 1)

  reuse-found :
      (e : Task) {t : Task}
      → find_key key db ≡ some e
      → (reuse_task env e db).0 ≡ ok t
      → (find_key key (reuse_task env e db).1 ≡ some t) × (is_reusable t.state ≡ true)
  unfolding reuse_task enqueue revived_task
  reuse-found e found h = ground (
    arith,
    find-some (λ (t : Task). t.idempotency_key == key) db.tasks found,
    find_of_replace (λ (t : Task). t.id) (λ (t : Task). t.idempotency_key == key) e
        (revived_task env e) db.tasks found,
  )

  insert-found :
      {t : Task}
      → find_key key db ≡ none
      → (insert_and_enqueue env input db.next_id db).0 ≡ ok t
      → (find_key key (insert_and_enqueue env input db.next_id db).1 ≡ some t)
        × (is_reusable t.state ≡ true)
  unfolding insert_and_enqueue enqueue
  insert-found new h = ground (
    arith,
    find-concat (λ (t : Task). t.idempotency_key == key) db.tasks (new_task env input db.next_id)
        new,
    (key_beq_iff key key).1 refl,
  )

  -- what a call that returned has left under the key
  pub create_task-found :
      {t : Task}
      → (create_task env input db).0 ≡ ok t
      → (find_key key (create_task env input db).1 ≡ some t) × (is_reusable t.state ≡ true)
  unfolding create_task
  create_task-found h = elim (Option-cases (find_key key db)) [
    | inl new ↦ rw (new, create_task) (insert-found new (rw (new, create_task) at h))
    | inr (e, found) ↦ rw (found, create_task) (reuse-found e found (rw (found, create_task) at h))
  ]

  pub reuse_live :
      (e : Task)
      → find_key key db ≡ some e
      → is_reusable e.state ≡ true
      → create_task env input db ≡ (ok e, db)
  unfolding create_task reuse_task
  reuse_live e found live = rw (found, create_task) (rw live)

  insert_lost :
      env.queue_up ≡ false
      → let db' = (insert_and_enqueue env input db.next_id db).1 in
        ((insert_and_enqueue env input db.next_id db).0 ≡ err other)
        × (db'.jobs ≡ db.jobs)
        × (db'.tasks ≡ db.tasks ++ new_task env input db.next_id ∷ [])
  unfolding insert_and_enqueue enqueue
  insert_lost down = ground arith

-- Creating a task again, with the same input at any later time, returns the same task and changes
-- nothing: no row, no event, no job.
pub create_task_again :
    (env env' : Env) (input : CreateTaskInput) (db : Db) {t : Task}
    → (create_task env input db).0 ≡ ok t
    → create_task env' input (create_task env input db).1 ≡ (ok t, (create_task env input db).1)
create_task_again env env' input db {t} h =
    let (found, live) = create_task-found env input db h in
    reuse_live env' input (create_task env input db).1 t found live

-- Where no task has the key and the queue refuses the job, the call throws and leaves a queued task
-- behind for which no job exists; every later call with the same input returns that task and puts
-- no job into a queue, also while the queue is up.
pub create_task_lost :
    (env env' : Env) (input : CreateTaskInput) (db : Db)
    → find_key (idempotency_key input (get_or input.attempt 1)) db ≡ none
    → env.queue_up ≡ false
    → let db' = (create_task env input db).1 in
      ((create_task env input db).0 ≡ err other)
      × (db'.jobs ≡ db.jobs)
      × (create_task env' input db' ≡ (ok (new_task env input db.next_id), db'))
unfolding create_task new_task
create_task_lost env env' input db new down =
    let (thrown, quiet, rows) = insert_lost env input db down in
    let same : create_task env input db ≡ insert_and_enqueue env input db.next_id db =
      rw (new, create_task) in
    let made = new_task env input db.next_id in
    let made_key = (key_beq_iff (key env input db) (key env input db)).1 refl in
    let found : find_key (key env input db) (insert_and_enqueue env input db.next_id db).1
        ≡ some made =
      rw rows (
        find-concat (λ (t : Task). t.idempotency_key == key env input db) db.tasks made new
          made_key) in
    rw same (
      thrown,
      quiet,
      reuse_live env' input (insert_and_enqueue env input db.next_id db).1 made found refl,
    )

enqueue_frame :
    (env : Env) (task : Task) (attempt delay : ℕ) (db : Db)
    → let r = enqueue env task attempt delay db in
      (r.1.contents ≡ db.contents)
      × (r.1.approvals ≡ db.approvals)
      × (r.1.orders ≡ db.orders)
      × (r.1.scenes ≡ db.scenes)
      × (r.1.qc_results ≡ db.qc_results)
      × (r.1.publications ≡ db.publications)
unfolding enqueue
enqueue_frame env task attempt delay db = ground arith

-- Creating a task touches the tasks, their events and the queues only.
pub create_task_frame :
    (env : Env) (input : CreateTaskInput) (db : Db)
    → let r = create_task env input db in
      (r.1.contents ≡ db.contents)
      × (r.1.approvals ≡ db.approvals)
      × (r.1.orders ≡ db.orders)
      × (r.1.scenes ≡ db.scenes)
      × (r.1.qc_results ≡ db.qc_results)
      × (r.1.publications ≡ db.publications)
unfolding create_task reuse_task insert_and_enqueue enqueue
create_task_frame env input db = ground arith
