-- ===== src/Pipeline/Columns.antt =====
-- Steps that leave the ids and the idempotency keys of the tasks as they are.
use Prim.Native.String.{String}
use contents_factory.Common.{
  ℕ, ◌+◌, ◌≡◌, ◌==◌, nat_eq, refl, ◌∙◌, inl, inr, Bool, true, false, Option, none, some, List, [],
  ◌∷◌, map, arith, Bool-cases, Option-cases, take, filter, length, leb, ◌&&◌, includes,
}
use contents_factory.Enums.{TaskState, OrderStatus, task_state_eq}
use contents_factory.Errors.{Result, ok, err, Thrown}
use contents_factory.StateMachine.{can_transition_task, can_transition_order}
use contents_factory.Store.{
  Order, failed_check, set_order_status, Db, Env, Job, M, Task, bind_result, ◌>>=◌, ◌>>◌, find_task,
  find_order, save_task, update, for_each, map-replace, find-some, modify, return,
}
use contents_factory.TaskFactory.{create_task, transition, moved_task, record_event, enqueue}
use contents_factory.TaskFactory.Keys.{create_task-IsKeyed, IsKeyed, ids, keys, columns-IsKeyed}
use contents_factory.Worker.{run, run_claimed, settle, claim}
use contents_factory.Sla.{scan, escalate, is_overdue}
use contents_factory.Orders.{
  submit, submit_valid, settle_submission, selection_input, put_order, Validation, cancel,
  retry_task, booked_retry, retryable,
}

-- The columns of the tasks under a unique constraint, and the ids given, are the same.
abbrev pub IsSame : Db → Db → Type 0
IsSame db db' = (ids db' ≡ ids db) × (keys db' ≡ keys db) × (db'.next_id ≡ db.next_id)

IsSame-trans : (db db' db'' : Db) → IsSame db db' → IsSame db' db'' → IsSame db db''
IsSame-trans db db' db'' h k = (k.0 ∙ h.0, k.1 ∙ h.1, k.2 ∙ h.2)

pub IsSame-IsKeyed : (db db' : Db) → IsKeyed db → IsSame db db' → IsKeyed db'
IsSame-IsKeyed db db' h s = columns-IsKeyed db db' h s.0 s.1 s.2

-- The step leaves the columns of every state with distinct ids and keys.
abbrev pub Preserves : {A : Type 0} → M A → Type 0
Preserves m = (db : Db) → IsKeyed db → IsSame db (m db).1

pub bind-IsSame :
    {A B : Type 0} (m : M A) (f : A → M B) (db : Db)
    → IsKeyed db
    → IsSame db (m db).1
    → ((a : A) → Preserves (f a))
    → IsSame db ((m >>= f) db).1
bind-IsSame m f db h s k = go (m db).0
  where
    go : (r : Result _) → IsSame db (bind_result r f (m db).1).1
    go (ok a) =
        IsSame-trans db (m db).1 (f a (m db).1).1 s (k a (m db).1 (IsSame-IsKeyed db (m db).1 h s))
    go (err e) = s

for_each-Preserves :
    {A : Type 0} (xs : List A) (body : A → M (Unit {0}))
    → ((a : A) → Preserves (body a))
    → Preserves (for_each xs body)
for_each-Preserves [] body k db h = (refl, refl, refl)
for_each-Preserves (x ∷ xs) body k db h =
    bind-IsSame (body x) (λ _. for_each xs body) db h (k x db h) (λ _. for_each-Preserves xs body k)

map-update :
    {B : Type 0} (f : Task → B) (p : Task → Bool) (g : Task → Task) (xs : List Task)
    → ((t : Task) → f (g t) ≡ f t)
    → map f (update p g xs) ≡ map f xs
map-update f p g [] h = refl
map-update f p g (x ∷ xs) h = ground (arith, h x, map-update f p g xs h)

pub update-IsSame :
    (p : Task → Bool) (g : Task → Task)
    → ((t : Task) → (g t).id ≡ t.id)
    → ((t : Task) → (g t).idempotency_key ≡ t.idempotency_key)
    → (db : Db) → IsSame db (record db { tasks = update p g db.tasks })
update-IsSame p g i k db = (
  map-update (λ t. t.id) p g db.tasks i,
  map-update (λ t. t.idempotency_key) p g db.tasks k,
  refl,
)

pub save_task-IsSame :
    (id : ℕ) (t t' : Task) (db : Db)
    → IsKeyed db
    → find_task id db ≡ some t
    → t'.id ≡ t.id
    → t'.idempotency_key ≡ t.idempotency_key
    → IsSame db (save_task t' db).1
save_task-IsSame id t t' db h found i k =
    let there = (find-some _ db.tasks found).1 in
    (
      map-replace (λ u. u.id) (λ u. u.id) t t' db.tasks h.distinct_ids there i i,
      map-replace (λ u. u.id) (λ u. u.idempotency_key) t t' db.tasks h.distinct_ids there i k,
      refl,
    )

pub transition-Preserves :
    (env : Env) (id : ℕ) (to : TaskState) (reason : String) (error : Option Thrown)
    → Preserves (transition env id to reason error)
unfolding transition moved_task record_event
transition-Preserves env id to reason error db h = elim (Option-cases (find_task id db)) [
  | inl absent ↦ rw (absent, transition) (refl, refl, refl)
  | inr (t, found) ↦ elim (Bool-cases (can_transition_task t.state to)) [
    | inl allowed ↦
        rw (found, transition, allowed)
          (save_task-IsSame id t (moved_task env t to error) db h found refl refl)
    | inr refused ↦ rw (found, transition, refused) (refl, refl, refl)
  ]
]

escalate-Preserves : (env : Env) (task : Task) → Preserves (escalate env task)
unfolding escalate
escalate-Preserves env task db h =
    transition-Preserves env task.id TaskState.escalated "sla_breach" none db h

pub scan-Preserves : (env : Env) (acquired : Bool) → Preserves (scan env acquired)
unfolding scan
scan-Preserves env false db h = (refl, refl, refl)
scan-Preserves env true db h =
    let overdue = take 100 (filter (is_overdue env) db.tasks) in
    bind-IsSame (for_each overdue (escalate env)) (λ _. return (length overdue)) db h
      (for_each-Preserves overdue (escalate env) (escalate-Preserves env) db h)
      (λ _ db' h'. (refl, refl, refl))

record_event-Preserves :
    (id : ℕ) (from : Option TaskState) (to : TaskState) (reason : String)
    → Preserves (record_event id from to reason)
unfolding record_event
record_event-Preserves id from to reason db h = (refl, refl, refl)

pub enqueue-Preserves :
    (env : Env) (task : Task) (attempt delay_ms : ℕ) → Preserves (enqueue env task attempt delay_ms)
unfolding enqueue
enqueue-Preserves env task attempt delay_ms db h =
    elim (Bool-cases (leb 1 attempt && env.queue_up)) [
      | inl up ↦ rw (up, enqueue) (refl, refl, refl)
      | inr down ↦ rw (down, enqueue) (refl, refl, refl)
    ]

settle-Preserves : (env : Env) (id : ℕ) (r : Result (Unit {0})) → Preserves (settle env id r)
unfolding settle record_event
settle-Preserves env id (ok a) db h = update-IsSame _ _ (λ t. refl) (λ t. refl) db
settle-Preserves env id (err e) db h = update-IsSame _ _ (λ t. refl) (λ t. refl) db

claim-Preserves : (env : Env) (id : ℕ) → Preserves (claim env id)
unfolding claim
claim-Preserves env id db h = update-IsSame _ _ (λ t. refl) (λ t. refl) db

-- a worker keeps the columns when its processor does
pub run-Preserves :
    (env : Env) (processor : Job → M (Unit {0})) (job : Job)
    → ((j : Job) → Preserves (processor j))
    → Preserves (run env processor job)
unfolding run run_claimed record_event
run-Preserves env processor job k db h =
    bind-IsSame (claim env job.task_id) (λ claimed. run_claimed env processor job claimed) db h
      (claim-Preserves env job.task_id db h) go
  where
    go : (claimed : Bool) → Preserves (run_claimed env processor job claimed)
    go false db' h' = (refl, refl, refl)
    go true db' h' =
        let db1 =
          (record_event job.task_id (some TaskState.queued) TaskState.running "claimed" db').1 in
        let keyed1 : IsKeyed db1 = IsSame-IsKeyed db' db1 h' (refl, refl, refl) in
        let worked = processor job db1 in
        let same : IsSame db1 worked.1 = k job db1 keyed1 in
        IsSame-trans db' worked.1 (settle env job.task_id worked.0 worked.1).1 same (
          settle-Preserves env job.task_id worked.0 worked.1
            (IsSame-IsKeyed db1 worked.1 keyed1 same))

pub cancel-Preserves : (env : Env) (id : ℕ) (reason : Option ℕ) → Preserves (cancel env id reason)
unfolding cancel
cancel-Preserves env id reason db h = elim (Option-cases (find_order id db)) [
  | inl absent ↦ rw (absent, cancel) (refl, refl, refl)
  | inr (o, found) ↦ elim (Bool-cases (can_transition_order o.status OrderStatus.cancelled)) [
    | inr refused ↦ rw (found, cancel, refused) (refl, refl, refl)
    | inl allowed ↦ rw (found, cancel, allowed) (update-IsSame _ _ (λ t. refl) (λ t. refl) db)
  ]
]

-- what `retry` does once the task is moved
abbrev back_to_queue : Env → ℕ → Task → M (Unit {0})
back_to_queue env id task = do
  modify (λ db. record db {
    tasks =
        update (λ t. t.id == id) (λ t. record t { state = TaskState.queued; started_at = none })
          db.tasks;
  })
  record_event id (some TaskState.running) TaskState.queued "manual_retry_requeued"
  enqueue env (booked_retry task) (task.retry_count + 2) 0

back_to_queue-Preserves : (env : Env) (id : ℕ) (task : Task) → Preserves (back_to_queue env id task)
unfolding record_event
back_to_queue-Preserves env id task db h =
    let db1 : Db = record db {
      tasks =
          update (λ t. t.id == id) (λ t. record t { state = TaskState.queued; started_at = none })
            db.tasks;
    } in
    let db2 =
      (record_event id (some TaskState.running) TaskState.queued "manual_retry_requeued" db1).1 in
    let same : IsSame db db2 = update-IsSame _ _ (λ t. refl) (λ t. refl) db in
    IsSame-trans db db2 (enqueue env (booked_retry task) (task.retry_count + 2) 0 db2).1 same (
      enqueue-Preserves env (booked_retry task) (task.retry_count + 2) 0 db2
        (IsSame-IsKeyed db db2 h same))

pub retry_task-Preserves : (env : Env) (id : ℕ) → Preserves (retry_task env id)
unfolding retry_task record_event
retry_task-Preserves env id db h = elim (Option-cases (find_task id db)) [
  | inl absent ↦ rw (absent, retry_task) (refl, refl, refl)
  | inr (t, found) ↦ elim (Bool-cases (includes retryable t.state)) [
    | inr refused ↦ rw (found, retry_task, refused) (refl, refl, refl)
    | inl allowed ↦
        let move = transition env id TaskState.running "manual_retry" none in
        let rest : Unit {0} → M (Unit {0}) = λ _. move >>= λ _. back_to_queue env id t in
        rw (found, retry_task, allowed)
          (bind-IsSame (save_task (booked_retry t)) rest db h
            (save_task-IsSame id t (booked_retry t) db h found refl refl)
            (λ _ db1 h1.
              bind-IsSame move (λ _. back_to_queue env id t) db1 h1
                (transition-Preserves env id TaskState.running "manual_retry" none db1 h1)
                (λ _. back_to_queue-Preserves env id t)))
  ]
]

-- a step that leaves the ids and keys of the tasks distinct
settle_submission-IsKeyed :
    (id : ℕ) (r : Result Task) (db : Db) → IsKeyed db → IsKeyed (settle_submission id r db).1
unfolding settle_submission
settle_submission-IsKeyed id (ok task) db h =
    IsSame-IsKeyed db (put_order id OrderStatus.queued none db).1 h (refl, refl, refl)
settle_submission-IsKeyed id (err e) db h =
    IsSame-IsKeyed db (set_order_status id OrderStatus.draft db).1 h (refl, refl, refl)

submit_valid-IsKeyed :
    (env : Env) (order : Order) (db : Db) → IsKeyed db → IsKeyed (submit_valid env order db).1
unfolding submit_valid
submit_valid-IsKeyed env order db h =
    let r = create_task env (selection_input order) db in
    settle_submission-IsKeyed order.id r.0 r.1
      (create_task-IsKeyed env (selection_input order) db h)

pub submit-IsKeyed :
    (env : Env) (validation : Validation) (id : ℕ) (db : Db)
    → IsKeyed db
    → IsKeyed (submit env validation id db).1
unfolding submit
submit-IsKeyed env validation id db h = elim (Option-cases (find_order id db)) [
  | inl absent ↦ rw (absent, submit) h
  | inr (o, found) ↦ elim (Bool-cases (can_transition_order o.status OrderStatus.validating)) [
    | inr refused ↦ rw (found, submit, refused) h
    | inl allowed ↦
        let db1 = (set_order_status id OrderStatus.validating db).1 in
        let keyed : IsKeyed db1 = IsSame-IsKeyed db db1 h (refl, refl, refl) in
        elim (Bool-cases validation.is_ok) [
          | inl fine ↦ rw (found, submit, allowed, fine) (submit_valid-IsKeyed env o db1 keyed)
          | inr wrong ↦
              let rejected =
                (put_order id OrderStatus.rejected (some (map failed_check validation.errors))
                  db1).1 in
              rw (found, submit, allowed, wrong)
                (IsSame-IsKeyed db1 rejected keyed (refl, refl, refl))
        ]
  ]
]
