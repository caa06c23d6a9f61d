-- ===== src/Orders/Tests.antt =====
-- Submitting and cancelling an order.
use contents_factory.Common.{All, [], false, nat_eq, none, refl, some, true, ◌≡◌, ◌⊎◌}
use contents_factory.Enums.{ContentStatus, OrderStatus, task_state_eq}
use contents_factory.Errors.{ErrorCode, app, app_error, err, ok, other}
use contents_factory.Orders.{Validation, cancel, rejection, selection_input, submit}
use contents_factory.Orders.Cancelling.{IsSettled, cancel_outcome}
use contents_factory.Orders.Submission.{accepted, submit_lost, with_status}
use contents_factory.Samples.{db_of, db_running, env_down, env_up, order_in}
use contents_factory.StateMachine.{can_transition_order}
use contents_factory.Store.{Db, Order, find_order}
use contents_factory.TaskFactory.{idempotency_key}

abbrev valid : Validation
valid = record { is_ok = true; errors = [] }

abbrev db_draft : Db
db_draft = db_of ContentStatus.pending OrderStatus.draft []

submit_lost_example :
    let r = submit env_down valid 1 db_draft in
    let again = submit env_up valid 1 r.1 in
    (r.0 ≡ err other)
    × (find_order 1 r.1 ≡ some (with_status OrderStatus.draft (order_in OrderStatus.draft)))
    × (r.1.jobs ≡ db_draft.jobs)
    × (again.0 ≡ ok tt)
    × (find_order 1 again.1 ≡ some (accepted (order_in OrderStatus.draft)))
    × (again.1.jobs ≡ db_draft.jobs)
unfolding selection_input idempotency_key
submit_lost_example =
    submit_lost env_down env_up valid 1 db_draft (order_in OrderStatus.draft) refl refl refl refl
      refl

cancel_outcome_example :
    let r = cancel env_up 1 (some 8) db_running in
    ((order : Order) × (find_order 1 db_running ≡ some order)
      × (can_transition_order order.status OrderStatus.cancelled ≡ true)
      × (r.0 ≡ ok tt)
      × (find_order 1 r.1
          ≡ some
              (record order { status = OrderStatus.cancelled; reject_reason = rejection (some 8) }))
      × All (IsSettled 1) r.1.tasks
      × (r.1.jobs ≡ db_running.jobs))
    ⊎ ((code : ErrorCode) × (r ≡ (err (app (app_error code)), db_running))
        × (((find_order 1 db_running ≡ none) × (code ≡ ErrorCode.order_not_found))
            ⊎ ((order : Order) × (find_order 1 db_running ≡ some order)
                × (can_transition_order order.status OrderStatus.cancelled ≡ false)
                × (code ≡ ErrorCode.order_invalid_state))))
cancel_outcome_example = cancel_outcome env_up 1 (some 8) db_running
