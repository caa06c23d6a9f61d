-- ===== src/ApprovalService/Tests.antt =====
-- Decisions on a content that passed its checks, and on one that was blocked.
use contents_factory.Common.{
  refl, [], arith, false, nat_eq, none, some, true, ◌==◌, ◌∷◌, ◌≡◌, ◌≢◌, ◌⊎◌,
}
use contents_factory.Approval.{approval_rule, should_auto_approve, violates_four_eyes}
use contents_factory.ApprovalService.{
  approval_level_for, approve, create_publish, decide, decide_on, enqueue_publish, latest_qc,
  publish_input, write_approval,
}
use contents_factory.ApprovalService.Decisions.{approve_outcome, decide_auto}
use contents_factory.Enums.{ApprovalDecision, ContentStatus, OrderStatus, QcVerdict, UserRole}
use contents_factory.Samples.{actor, content_in, db_of, env_up, qc_of}
use contents_factory.StateMachine.{can_transition_content}
use contents_factory.Store.{Content, Db, Order, find_content, find_order, update}
use contents_factory.TaskFactory.{
  create_task, enqueue, envelope, idempotency_key, insert_and_enqueue, new_task, record_event,
  reuse_task, spec_max_retry, spec_sla_ms,
}

abbrev db_ready : Db
db_ready = db_of ContentStatus.ready OrderStatus.running (qc_of QcVerdict.pass 9300 ∷ [])

abbrev db_blocked : Db
db_blocked = db_of ContentStatus.qc OrderStatus.running (qc_of QcVerdict.blocked 0 ∷ [])

approve_outcome_example :
    let db' = (approve env_up 4 actor db_ready).1 in
    (content : Content) × (order : Order) × (find_content 4 db_ready ≡ some content)
    × (find_order content.order_id db_ready ≡ some order)
    × (can_transition_content content.status ContentStatus.approved ≡ true)
    × ((order.requested_by ≢ actor.id) ⊎ (actor.role ≡ UserRole.super_root))
    × (db'.contents
        ≡ update
            (λ c. c.id == content.id)
            (λ c. record c { status = ContentStatus.approved })
            db_ready.contents)
    × (db'.approvals
        ≡ record {
          content_id = content.id;
          decision = ApprovalDecision.approved;
          auto = false;
          level_at = approval_level_for content db_ready;
          decided_by = some actor.id;
        }
          ∷ db_ready.approvals)
unfolding approve can_transition_content violates_four_eyes write_approval enqueue_publish
    create_publish publish_input create_task reuse_task insert_and_enqueue enqueue new_task
    record_event envelope idempotency_key spec_max_retry spec_sla_ms
approve_outcome_example = approve_outcome env_up 4 actor db_ready refl

decide_auto_example :
    let db' = (decide env_up 4 db_ready).1 in
    (true
      ≡ should_auto_approve (approval_level_for (content_in ContentStatus.ready) db_ready) (record {
        verdict = (qc_of QcVerdict.pass 9300).verdict;
        total_score = (qc_of QcVerdict.pass 9300).total_score;
        violations = (qc_of QcVerdict.pass 9300).violations;
      }))
    × (((true ≡ true)
          × (ContentStatus.approved ≡ ContentStatus.approved)
          × (db'.approvals
              ≡ record {
                content_id = (content_in ContentStatus.ready).id;
                decision = ApprovalDecision.approved;
                auto = true;
                level_at = approval_level_for (content_in ContentStatus.ready) db_ready;
                decided_by = none;
              }
                ∷ db_ready.approvals))
        ⊎ ((true ≡ false)
            × (ContentStatus.approved ≡ ContentStatus.ready)
            × (db'.approvals ≡ db_ready.approvals)
            × (db'.jobs ≡ db_ready.jobs)))
    × (db'.contents
        ≡ update
            (λ c. c.id == (content_in ContentStatus.ready).id)
            (λ c. record c { status = ContentStatus.approved })
            db_ready.contents)
unfolding decide decide_on latest_qc should_auto_approve approval_rule approval_level_for
    enqueue_publish create_publish publish_input create_task reuse_task insert_and_enqueue enqueue
    new_task record_event envelope idempotency_key spec_max_retry spec_sla_ms
decide_auto_example =
    decide_auto env_up 4 (content_in ContentStatus.ready) (qc_of QcVerdict.pass 9300) db_ready true
      (ContentStatus.approved) refl refl (ground arith) refl
