-- ===== src/ApprovalService.antt =====
-- libs/orchestration/src/approval.service.ts: automatic and manual decisions on a checked content, and
-- the publication that an approval queues.
pub mod Decisions
mod Tests
use contents_factory.Common.{
  ℕ, Bool, true, false, Option, none, some, List, [], ◌∷◌, ◌&&◌, ◌==◌, nat_eq, ltb, if◌then◌else◌,
  find, includes, is_empty, not,
}
use contents_factory.Enums.{
  ContentStatus, TaskKind, QcVerdict, PublicationStatus, ApprovalDecision, qc_verdict_eq,
  publication_status_eq,
}
use contents_factory.Errors.{ErrorCode, other}
use contents_factory.StateMachine.{can_transition_content}
use contents_factory.Approval.{AuthUser, should_auto_approve, violates_four_eyes}
use contents_factory.Store.{
  Content, Order, QcResult, Approval, Publication, Db, Env, M, ◌>>=◌, ◌>>◌, return, throw, fail,
  get, modify, find_content, find_order, find_agent, set_content_status, row, skip, when,
}
use contents_factory.TaskFactory.{CreateTaskInput, create_task}

abbrev newer : QcResult → Option QcResult → QcResult
newer q none = q
newer q (some r) = if ltb q.attempt r.attempt then r else q

-- `latestQc`: the result of a content with the highest attempt
unfoldable pub latest_qc : ℕ → List QcResult → Option QcResult
latest_qc content_id [] = none
latest_qc content_id (q ∷ qs) =
    let rest = latest_qc content_id qs in
    if q.content_id == content_id then some (newer q rest) else rest

-- `approvalLevelFor`: the agent's level if the order has an agent, else the order's
unfoldable pub approval_level_for : Content → Db → ℕ
approval_level_for content db = elim (find_order content.order_id db) [
  | none ↦ 0
  | some order ↦ elim order.agent_id [
    | none ↦ order.approval_level
    | some agent_id ↦ elim (find_agent agent_id db) [
      | none ↦ order.approval_level
      | some agent ↦ agent.approval_level
    ]
  ]
]

abbrev pub insert_approval : ℕ → ApprovalDecision → Bool → ℕ → Option ℕ → M (Unit {0})
insert_approval content_id decision auto level decided_by = modify (λ db. record db {
  approvals =
      record {
        content_id = content_id;
        decision = decision;
        auto = auto;
        level_at = level;
        decided_by = decided_by;
      }
      ∷ db.approvals;
})

-- the publication of a content on a channel
abbrev pub find_publication : ℕ → ℕ → Db → Option Publication
find_publication content_id channel_id db =
    find (λ p. p.content_id == content_id && p.channel_id == channel_id) db.publications

abbrev pub is_posted : Option Publication → Bool
is_posted none = false
is_posted (some p) =
    includes (PublicationStatus.uploaded ∷ PublicationStatus.published ∷ []) p.status

-- the task that `enqueuePublish` asks for
unfoldable pub publish_input : Content → Order → ℕ → CreateTaskInput
publish_input content order channel_id = record {
  kind = TaskKind.publish;
  order_id = some content.order_id;
  content_id = some content.id;
  scene_id = none;
  agent_id = order.agent_id;
  priority = some 2;
  attempt = none;
  max_retry = none;
  budget_cap_krw = none;
  channel_id = some channel_id;
}

unfoldable pub create_publish : Env → Content → Order → ℕ → M (Unit {0})
create_publish env content order channel_id = do
  create_task env (publish_input content order channel_id)
  return tt

unfoldable pub enqueue_publish : Env → Content → M (Unit {0})
unfolding create_publish
enqueue_publish env content db = elim (find_order content.order_id db) [
  | none ↦ skip db
  | some order ↦
      if is_empty order.channels
      then skip db
      else (elim (row (λ b. b.id) content.blueprint_id db.blueprints) [
        | none ↦ skip db
        | some bp ↦
            when (not (is_posted (find_publication content.id bp.channel_id db)))
              (create_publish env content order bp.channel_id) db
      ])
]

-- `decide` on a content and its last result: whether it was automatic, and the status
unfoldable pub decide_on : Env → Content → QcResult → ℕ → M (Bool × ContentStatus)
decide_on env content qc level =
    if qc.verdict == QcVerdict.blocked
    then (do
      set_content_status content.id ContentStatus.blocked
      return (false, ContentStatus.blocked))
    else if should_auto_approve level
        (record { verdict = qc.verdict; total_score = qc.total_score; violations = qc.violations })
    then (do
      insert_approval content.id ApprovalDecision.approved true level none
      set_content_status content.id ContentStatus.approved
      enqueue_publish env content
      return (true, ContentStatus.approved))
    else (do set_content_status content.id ContentStatus.ready; return (false, ContentStatus.ready))

unfoldable pub decide : Env → ℕ → M (Bool × ContentStatus)
unfolding decide_on
decide env content_id db = elim (find_content content_id db) [
  | none ↦ fail ErrorCode.content_not_found db
  | some content ↦ elim (latest_qc content_id db.qc_results) [
    | none ↦ fail ErrorCode.content_invalid_state db
    | some qc ↦ decide_on env content qc (approval_level_for content db) db
  ]
]

-- the writes of an approval
unfoldable pub write_approval : Env → Content → AuthUser → ℕ → M (Unit {0})
write_approval env content actor level = do
  insert_approval content.id ApprovalDecision.approved false level (some actor.id)
  set_content_status content.id ContentStatus.approved
  enqueue_publish env content

-- `approve`; reading the requester of an order that is missing throws a TypeError
unfoldable pub approve : Env → ℕ → AuthUser → M (Unit {0})
unfolding write_approval
approve env content_id actor db = elim (find_content content_id db) [
  | none ↦ fail ErrorCode.content_not_found db
  | some content ↦
      if not (can_transition_content content.status ContentStatus.approved)
      then fail ErrorCode.content_invalid_state db
      else (elim (find_order content.order_id db) [
        | none ↦ throw other db
        | some order ↦
            if violates_four_eyes order.requested_by actor
            then fail ErrorCode.self_approval_denied db
            else write_approval env content actor (approval_level_for content db) db
      ])
]

unfoldable pub reject : ℕ → AuthUser → M (Unit {0})
reject content_id actor db = elim (find_content content_id db) [
  | none ↦ fail ErrorCode.content_not_found db
  | some content ↦
      if not (can_transition_content content.status ContentStatus.rejected)
      then fail ErrorCode.content_invalid_state db
      else (do
        insert_approval content.id ApprovalDecision.rejected false (approval_level_for content db)
            (some actor.id)
        set_content_status content.id ContentStatus.rejected)
          db
]
