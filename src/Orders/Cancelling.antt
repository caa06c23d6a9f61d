-- ===== src/Orders/Cancelling.antt =====
-- Cancelling an order, and what becomes of its tasks.
use contents_factory.Common.{
  ℕ, ◌≡◌, ◌≢◌, refl, ◌⊎◌, inl, inr, Bool, true, false, Option, none, some, List, [], ◌∷◌, ◌&&◌,
  arith, ◌==◌, nat_eq, All, includes, Option-cases, Bool-cases,
}
use contents_factory.Enums.{OrderStatus, TaskState, task_state_eq}
use contents_factory.Errors.{ok, err, app, app_error, ErrorCode}
use contents_factory.StateMachine.{can_transition_order}
use contents_factory.Store.{
  Order, Task, Db, Env, find_order, update, opt_beq, opt_beq_iff, find-some, find-update,
}
use contents_factory.Worker.{is_claimable}
use contents_factory.Orders.{rejection, cancel, cancellable}

-- The task is not one of the order, or a worker's claim of it takes no row.
abbrev pub IsSettled : ℕ → Task → Type 0
IsSettled id t = (t.order_id ≢ some id) ⊎ (is_claimable t.id t ≡ false)

abbrev cancelled_task : Env → Task → Task
cancelled_task env t = record t { state = TaskState.cancelled; finished_at = some env.now }

abbrev is_cancelled_by : ℕ → Task → Bool
is_cancelled_by id t = opt_beq t.order_id (some id) && includes cancellable t.state

settled : (id : ℕ) (t : Task) → is_cancelled_by id t ≡ false → IsSettled id t
settled id t h = ground (arith, opt_beq_iff t.order_id (some id))

tasks-IsSettled :
    (env : Env) (id : ℕ) (xs : List Task)
    → All (IsSettled id) (update (is_cancelled_by id) (cancelled_task env) xs)
tasks-IsSettled env id [] = tt
tasks-IsSettled env id (x ∷ xs) = elim (Bool-cases (is_cancelled_by id x)) [
  | inl h ↦ rw h (inr (ground arith), tasks-IsSettled env id xs)
  | inr h ↦ rw h (settled id x h, tasks-IsSettled env id xs)
]

-- A cancellation that goes through had an order from whose status cancelling is allowed; it leaves
-- the order CANCELLED with the reason, and no task of the order in a state from which a worker may
-- claim it. The jobs stay in the queues. A refused one changes nothing: the order is unknown, or
-- its status does not allow it.
pub cancel_outcome :
    (env : Env) (id : ℕ) (reason : Option ℕ) (db : Db)
    → let r = cancel env id reason db in
      ((order : Order) × (find_order id db ≡ some order)
        × (can_transition_order order.status OrderStatus.cancelled ≡ true)
        × (r.0 ≡ ok tt)
        × (find_order id r.1
            ≡ some
                (record order { status = OrderStatus.cancelled; reject_reason = rejection reason }))
        × All (IsSettled id) r.1.tasks
        × (r.1.jobs ≡ db.jobs))
      ⊎ ((code : ErrorCode) × (r ≡ (err (app (app_error code)), db))
          × (((find_order id db ≡ none) × (code ≡ ErrorCode.order_not_found))
              ⊎ ((order : Order) × (find_order id db ≡ some order)
                  × (can_transition_order order.status OrderStatus.cancelled ≡ false)
                  × (code ≡ ErrorCode.order_invalid_state))))
unfolding cancel
cancel_outcome env id reason db = elim (Option-cases (find_order id db)) [
  | inl missing ↦ inr (ErrorCode.order_not_found, rw (missing, cancel) refl, inl (missing, refl))
  | inr (order, found) ↦
      elim (Bool-cases (can_transition_order order.status OrderStatus.cancelled)) [
        | inl may ↦
            let hit = (find-some (λ (o : Order). o.id == id) db.orders found).0 in
            rw (found, cancel)
              (rw may (
                inl (
                  order,
                  refl,
                  may,
                  refl,
                  find-update (λ (o : Order). o.id == id)
                      (λ o. record o {
                        status = OrderStatus.cancelled;
                        reject_reason = rejection reason;
                      })
                      db.orders order found hit,
                  tasks-IsSettled env id db.tasks,
                  refl,
                )))
        | inr not_ ↦ inr (
          ErrorCode.order_invalid_state,
          rw (found, cancel) (rw not_ refl),
          inr (order, found, not_, refl),
        )
      ]
]
