-- ===== src/StateMachine.antt =====
-- libs/domain/src/order/state-machine.ts: the transition tables of orders, contents and tasks, and
-- the stage that a content's status counts towards.
pub mod Graph
mod Tests
use contents_factory.Common.{Bool, List, [], ◌∷◌, ◌||◌, ◌==◌, includes}
use contents_factory.Enums.{
  OrderStatus, ContentStatus, TaskState, order_status_eq, content_status_eq, task_state_eq,
}

abbrev pub order_transitions : OrderStatus → List OrderStatus
order_transitions OrderStatus.draft = OrderStatus.validating ∷ OrderStatus.cancelled ∷ []
order_transitions OrderStatus.validating =
    OrderStatus.rejected ∷ OrderStatus.queued ∷ OrderStatus.draft ∷ []
order_transitions OrderStatus.rejected = OrderStatus.draft ∷ OrderStatus.cancelled ∷ []
order_transitions OrderStatus.queued = OrderStatus.running ∷ OrderStatus.cancelled ∷ []
order_transitions OrderStatus.running =
    OrderStatus.done ∷ OrderStatus.partial ∷ OrderStatus.cancelled ∷ []
order_transitions OrderStatus.partial = OrderStatus.done ∷ OrderStatus.cancelled ∷ []
order_transitions OrderStatus.done = []
order_transitions OrderStatus.cancelled = []

abbrev pub content_transitions : ContentStatus → List ContentStatus
content_transitions ContentStatus.pending = ContentStatus.generating ∷ ContentStatus.failed ∷ []
content_transitions ContentStatus.generating =
    ContentStatus.rendering ∷ ContentStatus.qc ∷ ContentStatus.failed ∷ ContentStatus.blocked ∷ []
content_transitions ContentStatus.rendering = ContentStatus.qc ∷ ContentStatus.failed ∷ []
content_transitions ContentStatus.qc =
    ContentStatus.ready ∷ ContentStatus.approved ∷ ContentStatus.qc_failed ∷ ContentStatus.blocked
    ∷ ContentStatus.generating ∷ ContentStatus.rendering ∷ ContentStatus.failed ∷ []
content_transitions ContentStatus.qc_failed =
    ContentStatus.generating ∷ ContentStatus.rendering ∷ ContentStatus.rejected ∷ []
content_transitions ContentStatus.ready =
    ContentStatus.approved ∷ ContentStatus.rejected ∷ ContentStatus.generating
    ∷ ContentStatus.rendering ∷ []
content_transitions ContentStatus.approved = ContentStatus.publishing ∷ ContentStatus.rejected ∷ []
content_transitions ContentStatus.rejected = ContentStatus.generating ∷ ContentStatus.rendering ∷ []
content_transitions ContentStatus.publishing = ContentStatus.published ∷ ContentStatus.failed ∷ []
content_transitions ContentStatus.published = []
content_transitions ContentStatus.blocked = []
content_transitions ContentStatus.failed = ContentStatus.generating ∷ ContentStatus.rendering ∷ []

abbrev pub task_transitions : TaskState → List TaskState
task_transitions TaskState.queued = TaskState.running ∷ TaskState.cancelled ∷ []
task_transitions TaskState.running =
    TaskState.done ∷ TaskState.retry ∷ TaskState.fallback ∷ TaskState.escalated ∷ TaskState.failed
    ∷ TaskState.cancelled ∷ []
task_transitions TaskState.retry =
    TaskState.running ∷ TaskState.escalated ∷ TaskState.cancelled ∷ []
task_transitions TaskState.fallback =
    TaskState.running ∷ TaskState.escalated ∷ TaskState.cancelled ∷ []
task_transitions TaskState.escalated =
    TaskState.running ∷ TaskState.cancelled ∷ TaskState.failed ∷ []
task_transitions TaskState.done = []
task_transitions TaskState.failed = TaskState.running ∷ []
task_transitions TaskState.cancelled = []

unfoldable pub can_transition_order : OrderStatus → OrderStatus → Bool
can_transition_order from to = from == to || includes (order_transitions from) to

unfoldable pub can_transition_content : ContentStatus → ContentStatus → Bool
can_transition_content from to = from == to || includes (content_transitions from) to

unfoldable pub can_transition_task : TaskState → TaskState → Bool
can_transition_task from to = from == to || includes (task_transitions from) to

-- The five stages of an order's progress.
pub data OrderStage : Type 0 where
  selection generation qc approval publish : OrderStage

unfoldable pub content_stage : ContentStatus → OrderStage
content_stage ContentStatus.pending = OrderStage.selection
content_stage ContentStatus.generating = OrderStage.generation
content_stage ContentStatus.rendering = OrderStage.generation
content_stage ContentStatus.qc = OrderStage.qc
content_stage ContentStatus.qc_failed = OrderStage.qc
content_stage ContentStatus.ready = OrderStage.approval
content_stage ContentStatus.rejected = OrderStage.approval
content_stage ContentStatus.blocked = OrderStage.approval
content_stage ContentStatus.approved = OrderStage.publish
content_stage ContentStatus.publishing = OrderStage.publish
content_stage ContentStatus.published = OrderStage.publish
content_stage _ = OrderStage.generation

abbrev pub terminal_content_statuses : List ContentStatus
terminal_content_statuses =
    ContentStatus.published ∷ ContentStatus.blocked ∷ ContentStatus.rejected ∷ ContentStatus.failed
    ∷ []

unfoldable pub is_content_terminal : ContentStatus → Bool
is_content_terminal s = includes terminal_content_statuses s
