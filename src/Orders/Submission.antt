-- ===== src/Orders/Submission.antt =====
-- Submitting an order while the queue is down, and again when it is up.
use contents_factory.Common.{
  ℕ, ◌≡◌, refl, sym, ap, ◌∙◌, true, false, none, some, List, ◌==◌, nat_eq, nat_beq_iff, find,
}
use contents_factory.Enums.{OrderStatus}
use contents_factory.Errors.{ok, err, other}
use contents_factory.StateMachine.{can_transition_order}
use contents_factory.Store.{
  Order, Db, Env, Task, find_order, set_order_status, find-some, find-update, update,
}
use contents_factory.TaskFactory.{create_task, find_key, idempotency_key, new_task}
use contents_factory.TaskFactory.Reuse.{
  create_task_lost, create_task-found, create_task_frame, reuse_live,
}
use contents_factory.Orders.{Validation, submit, submit_valid, settle_submission, selection_input}

put_order_found :
    (id k : ℕ) (f : Order → Order) (orders : List Order) (order : Order)
    → k ≡ id
    → find (λ o. o.id == id) orders ≡ some order
    → (f order).id ≡ order.id
    → find (λ o. o.id == id) (update (λ o. o.id == k) f orders) ≡ some (f order)
put_order_found id k f orders order same_id found same =
    let hit = (find-some (λ (o : Order). o.id == id) orders found).0 in
    rw same_id (find-update (λ (o : Order). o.id == id) f orders order found (rw same hit))

abbrev pub with_status : OrderStatus → Order → Order
with_status status order = record order { status = status }

abbrev pub accepted : Order → Order
accepted order = record order { status = OrderStatus.queued; reject_reason = none }

-- the state in which a submission asks for its task
abbrev validating_db : ℕ → Db → Db
validating_db id db = (set_order_status id OrderStatus.validating db).1

module _ (env : Env) (v : Validation) (id : ℕ) (db : Db) (order : Order)
    (found : find_order id db ≡ some order) (draft : order.status ≡ OrderStatus.draft)
    (valid : v.is_ok ≡ true) where
  submit_through : submit env v id db ≡ submit_valid env order (validating_db id db)
  unfolding submit can_transition_order
  submit_through = rw (found, submit) (rw draft (rw valid refl))

  own : order.id ≡ id
  own = (nat_beq_iff _ _).0 (find-some (λ (o : Order). o.id == id) db.orders found).0

  validating_found :
      find_order id (validating_db id db) ≡ some (with_status OrderStatus.validating order)
  validating_found =
      put_order_found id id (with_status OrderStatus.validating) db.orders order refl found refl

  submission_accepted :
      (t : Task) (db' : Db)
      → create_task env (selection_input order) (validating_db id db) ≡ (ok t, db')
      → db'.orders ≡ (validating_db id db).orders
      → let r = submit env v id db in
        (r.0 ≡ ok tt)
        × (find_order id r.1 ≡ some (accepted order))
        × (r.1.jobs ≡ db'.jobs)
        × (r.1.tasks ≡ db'.tasks)
  unfolding submit_valid settle_submission
  submission_accepted t db' made same =
      let rows : find_order id db' ≡ some (with_status OrderStatus.validating order) =
        rw same validating_found in
      let through : submit env v id db ≡ settle_submission order.id (ok t) db' =
        submit_through ∙ ap (λ r. settle_submission order.id r.0 r.1) made in
      rw through (
        refl,
        put_order_found id order.id
            (λ o. record o { status = OrderStatus.queued; reject_reason = none }) db'.orders
            (with_status OrderStatus.validating order) own rows refl,
        refl,
        refl,
      )

  submission_refused :
      (db' : Db)
      → create_task env (selection_input order) (validating_db id db) ≡ (err other, db')
      → db'.orders ≡ (validating_db id db).orders
      → let r = submit env v id db in
        (r.0 ≡ err other)
        × (find_order id r.1 ≡ some (with_status OrderStatus.draft order))
        × (r.1.jobs ≡ db'.jobs)
        × (r.1.tasks ≡ db'.tasks)
  unfolding submit_valid settle_submission
  submission_refused db' made same =
      let rows : find_order id db' ≡ some (with_status OrderStatus.validating order) =
        rw same validating_found in
      let through : submit env v id db ≡ settle_submission order.id (err other) db' =
        submit_through ∙ ap (λ r. settle_submission order.id r.0 r.1) made in
      rw through (
        refl,
        put_order_found id order.id (with_status OrderStatus.draft) db'.orders
            (with_status OrderStatus.validating order) own rows refl,
        refl,
        refl,
      )

-- A draft order that is in order is submitted while the queue is down, and no task has its key yet:
-- the submission throws, the order is a draft again, and no job was queued. Submitting it again,
-- at any time and also while the queue is up, returns and leaves the order QUEUED, but still no
-- job has been put into a queue.
pub submit_lost :
    (env env' : Env) (v : Validation) (id : ℕ) (db : Db) (order : Order)
    → find_order id db ≡ some order
    → order.status ≡ OrderStatus.draft
    → v.is_ok ≡ true
    → env.queue_up ≡ false
    → find_key (idempotency_key (selection_input order) 1) db ≡ none
    → let r = submit env v id db in
      let again = submit env' v id r.1 in
      (r.0 ≡ err other)
      × (find_order id r.1 ≡ some (with_status OrderStatus.draft order))
      × (r.1.jobs ≡ db.jobs)
      × (again.0 ≡ ok tt)
      × (find_order id again.1 ≡ some (accepted order))
      × (again.1.jobs ≡ db.jobs)
unfolding selection_input idempotency_key
submit_lost env env' v id db order found draft valid down new =
    let input = selection_input order in
    let db0 = validating_db id db in
    let made = new_task env input db0.next_id in
    let db1 = (create_task env input db0).1 in
    let (thrown, quiet, reused) = create_task_lost env env' input db0 new down in
    let (_, _, same0, _, _, _) = create_task_frame env input db0 in
    let lost : create_task env input db0 ≡ (err other, db1) = ap (λ x. (x, db1)) thrown in
    let (r0, order1, jobs1, tasks1) =
      submission_refused env v id db order found draft valid db1 lost same0 in
    let (found1, live) = create_task-found env' input db1 (ap (λ r. r.0) reused) in
    let found2 : find_key (idempotency_key input 1) db1 ≡ some made =
      ap (find_key (idempotency_key input 1)) (sym (ap (λ r. r.1) reused)) ∙ found1 in
    let db2 = validating_db id (submit env v id db).1 in
    let found3 : find_key (idempotency_key input 1) db2 ≡ some made = rw tasks1 found2 in
    let again = with_status OrderStatus.draft order in
    let (s0, order2, jobs2, _) =
      submission_accepted env' v id (submit env v id db).1 again order1 refl valid made db2
        (reuse_live env' input db2 made found3 live) refl in
    (r0, order1, jobs1 ∙ quiet, s0, order2, jobs2 ∙ jobs1 ∙ quiet)
