-- ===== src/ApprovalService/Decisions.antt =====
-- Who may approve, what an approval writes, and what is never approved.
use contents_factory.Common.{
  ℕ, ◌≡◌, ap, ◌∙◌, ◌≢◌, ◌⊎◌, inl, inr, Bool, true, false, none, some, ◌∷◌, arith, ◌==◌, nat_eq,
  Option-cases, Bool-cases,
}
use contents_factory.Enums.{ContentStatus, QcVerdict, UserRole, ApprovalDecision}
use contents_factory.Errors.{ok}
use contents_factory.StateMachine.{can_transition_content}
use contents_factory.Approval.{AuthUser, violates_four_eyes, should_auto_approve}
use contents_factory.Store.{Content, Order, QcResult, Db, Env, find_content, find_order, update}
use contents_factory.TaskFactory.Reuse.{create_task_frame}
use contents_factory.ApprovalService.{
  approve, decide, decide_on, write_approval, enqueue_publish, create_publish, publish_input,
  approval_level_for, latest_qc,
}

create_publish_frame :
    (env : Env) (content : Content) (order : Order) (channel_id : ℕ) (db : Db)
    → let r = create_publish env content order channel_id db in
      (r.1.contents ≡ db.contents) × (r.1.approvals ≡ db.approvals)
unfolding create_publish
create_publish_frame env content order channel_id db =
    ground (arith, create_task_frame env (publish_input content order channel_id) db)

enqueue_publish_frame :
    (env : Env) (content : Content) (db : Db)
    → let r = enqueue_publish env content db in
      (r.1.contents ≡ db.contents) × (r.1.approvals ≡ db.approvals)
unfolding enqueue_publish
enqueue_publish_frame env content db = grind (arith, create_publish_frame)

write_approval_writes :
    (env : Env) (content : Content) (actor : AuthUser) (level : ℕ) (db : Db)
    → let db' = (write_approval env content actor level db).1 in
      (db'.contents
        ≡ update
            (λ c. c.id == content.id)
            (λ c. record c { status = ContentStatus.approved })
            db.contents)
      × (db'.approvals
          ≡ record {
            content_id = content.id;
            decision = ApprovalDecision.approved;
            auto = false;
            level_at = level;
            decided_by = some actor.id;
          }
            ∷ db.approvals)
unfolding write_approval
write_approval_writes env content actor level db = enqueue_publish_frame env content _

four_eyes :
    (requested_by : ℕ) (actor : AuthUser)
    → violates_four_eyes requested_by actor ≡ false
    → (requested_by ≢ actor.id) ⊎ (actor.role ≡ UserRole.super_root)
unfolding violates_four_eyes
four_eyes requested_by actor h = ground arith

-- A manual approval that returns had a content in a status from which approval is allowed, whose
-- order was requested by somebody else unless the actor is the super root; it sets that content's
-- status and no other, and records who decided, at which level.
pub approve_outcome :
    (env : Env) (content_id : ℕ) (actor : AuthUser) (db : Db)
    → (approve env content_id actor db).0 ≡ ok tt
    → let db' = (approve env content_id actor db).1 in
      (content : Content) × (order : Order) × (find_content content_id db ≡ some content)
      × (find_order content.order_id db ≡ some order)
      × (can_transition_content content.status ContentStatus.approved ≡ true)
      × ((order.requested_by ≢ actor.id) ⊎ (actor.role ≡ UserRole.super_root))
      × (db'.contents
          ≡ update
              (λ c. c.id == content.id)
              (λ c. record c { status = ContentStatus.approved })
              db.contents)
      × (db'.approvals
          ≡ record {
            content_id = content.id;
            decision = ApprovalDecision.approved;
            auto = false;
            level_at = approval_level_for content db;
            decided_by = some actor.id;
          }
            ∷ db.approvals)
unfolding approve
approve_outcome env content_id actor db h = elim (Option-cases (find_content content_id db)) [
  | inl missing ↦ cc (rw (missing, approve) at h)
  | inr (content, found) ↦
      elim (Bool-cases (can_transition_content content.status ContentStatus.approved)) [
        | inr illegal ↦ cc (rw illegal at (rw (found, approve) at h))
        | inl legal ↦ elim (Option-cases (find_order content.order_id db)) [
          | inl orphan ↦ cc (rw orphan at (rw legal at (rw (found, approve) at h)))
          | inr (order, placed) ↦ elim (Bool-cases (violates_four_eyes order.requested_by actor)) [
            | inl self ↦ cc (rw self at (rw placed at (rw legal at (rw (found, approve) at h))))
            | inr other_eyes ↦
                (let level = approval_level_for content db in
                  let same : approve env content_id actor db
                      ≡ write_approval env content actor level db =
                    rw (found, approve) (rw legal (rw placed (rw other_eyes))) in
                  let (contents, approvals) = write_approval_writes env content actor level db in
                  (
                    content,
                    order,
                    found,
                    placed,
                    legal,
                    four_eyes order.requested_by actor other_eyes,
                    ap (λ r. r.1.contents) same ∙ contents,
                    ap (λ r. r.1.approvals) same ∙ approvals,
                  ))
          ]
        ]
      ]
]

decided_on :
    (env : Env) (content : Content) (qc : QcResult) (level : ℕ) (db : Db) (auto : Bool)
    (status : ContentStatus)
    → qc.verdict ≢ QcVerdict.blocked
    → (decide_on env content qc level db).0 ≡ ok (auto, status)
    → let db' = (decide_on env content qc level db).1 in
      (auto
        ≡ should_auto_approve level (record {
          verdict = qc.verdict;
          total_score = qc.total_score;
          violations = qc.violations;
        }))
      × (((auto ≡ true)
            × (status ≡ ContentStatus.approved)
            × (db'.approvals
                ≡ record {
                  content_id = content.id;
                  decision = ApprovalDecision.approved;
                  auto = true;
                  level_at = level;
                  decided_by = none;
                }
                  ∷ db.approvals))
          ⊎ ((auto ≡ false)
              × (status ≡ ContentStatus.ready)
              × (db'.approvals ≡ db.approvals)
              × (db'.jobs ≡ db.jobs)))
      × (db'.contents
          ≡ update (λ c. c.id == content.id) (λ c. record c { status = status }) db.contents)
unfolding decide_on
decided_on env content qc level db auto status free h = grind (arith, enqueue_publish_frame)

-- The QC result that decides is blocked: the content is blocked, nothing is approved or queued, and
-- the answer says that the decision was not automatic, whatever the approval level is.
pub decide_blocked :
    (env : Env) (content_id : ℕ) (content : Content) (qc : QcResult) (db : Db)
    → find_content content_id db ≡ some content
    → latest_qc content_id db.qc_results ≡ some qc
    → qc.verdict ≡ QcVerdict.blocked
    → decide env content_id db ≡ (
      ok (false, ContentStatus.blocked),
      record db {
        contents =
            update
              (λ c. c.id == content.id)
              (λ c. record c { status = ContentStatus.blocked })
              db.contents;
      },
    )
unfolding decide decide_on
decide_blocked env content_id content qc db found last blocked =
    rw (found, decide) (rw last (rw blocked))

-- A decision that returns, on a content whose latest check is not BLOCKED, approves the content exactly
-- when the rule of the approval level does; the approval is recorded as automatic, and a content that is
-- not approved so becomes READY, with no approval and no job, and is left to a person.
pub decide_auto :
    (env : Env) (content_id : ℕ) (content : Content) (qc : QcResult) (db : Db) (auto : Bool)
    (status : ContentStatus)
    → find_content content_id db ≡ some content
    → latest_qc content_id db.qc_results ≡ some qc
    → qc.verdict ≢ QcVerdict.blocked
    → (decide env content_id db).0 ≡ ok (auto, status)
    → let db' = (decide env content_id db).1 in
      (auto
        ≡ should_auto_approve (approval_level_for content db) (record {
          verdict = qc.verdict;
          total_score = qc.total_score;
          violations = qc.violations;
        }))
      × (((auto ≡ true)
            × (status ≡ ContentStatus.approved)
            × (db'.approvals
                ≡ record {
                  content_id = content.id;
                  decision = ApprovalDecision.approved;
                  auto = true;
                  level_at = approval_level_for content db;
                  decided_by = none;
                }
                  ∷ db.approvals))
          ⊎ ((auto ≡ false)
              × (status ≡ ContentStatus.ready)
              × (db'.approvals ≡ db.approvals)
              × (db'.jobs ≡ db.jobs)))
      × (db'.contents
          ≡ update (λ c. c.id == content.id) (λ c. record c { status = status }) db.contents)
unfolding decide
decide_auto env content_id content qc db auto status found last free h =
    rw (found, decide)
      (rw last (
        decided_on env content qc (approval_level_for content db) db auto status free
          (rw last at (rw (found, decide) at h))))
