-- ===== src/FailureHandler.antt =====
-- apps/orchestrator/src/failure-handler.service.ts: what becomes of a task that failed, by the class
-- of its failure. `error` is the value that the worker caught.
pub mod Outcomes
pub mod Deferral
mod Tests
use Prim.Native.String.{String}
use contents_factory.Common.{
  ℕ, ◌+◌, ◌-◌, ◌*◌, ◌^◌, max, Bool, true, false, Option, none, some, List, [], ◌∷◌, ◌&&◌, ◌||◌,
  ◌==◌, nat_eq, not, ltb, leb, if◌then◌else◌, includes, find,
}
use contents_factory.Enums.{
  TaskState, TaskKind, ContentStatus, OrderStatus, SceneStatus, AgentLifecycle, ChannelHealthState,
  task_kind_eq, content_status_eq, order_status_eq, channel_health_state_eq,
}
use contents_factory.Errors.{FailureClass, Thrown}
use contents_factory.Store.{
  Task, Db, Env, Config, M, ◌>>=◌, ◌>>◌, return, get, modify, update, replace, find_task,
  find_content, find_order, find_channel, save_task, set_content_status, set_order_status,
  set_scene_status, set_agent_lifecycle, alert, skip, when, for_some,
}
use contents_factory.TaskFactory.{transition, enqueue}

-- `backoffMs` of libs/common/src/util/time.ts; `attempt - 1` stops at 0 as `Math.max` makes it
unfoldable pub backoff_ms : ℕ → ℕ
backoff_ms attempt = 2000 * 4 ^ (attempt - 1)

abbrev pub max_deferrals : ℕ
max_deferrals = 24

-- `nextSlotDelayMs`
unfoldable pub next_slot_delay_ms : Config → Task → Db → ℕ
next_slot_delay_ms config task db = elim task.payload.channel_id [
  | none ↦ 3600000
  | some channel_id ↦ elim (find_channel channel_id db) [
    | none ↦ 3600000
    | some ch ↦
        if ch.health_state == ChannelHealthState.quarantine
        then 21600000
        else max (max ch.min_interval_min config.min_interval_min) 5 * 60000
  ]
]

-- the three guarded steps of `markContentFailed`
unfoldable pub fail_scene : Task → M (Unit {0})
fail_scene task = for_some task.scene_id (λ scene_id. set_scene_status scene_id SceneStatus.failed)

abbrev pub kept_contents : List ContentStatus
kept_contents = ContentStatus.published ∷ ContentStatus.blocked ∷ ContentStatus.rejected ∷ []

unfoldable pub fail_content : Task → M (Unit {0})
fail_content task = for_some task.content_id (λ content_id. do
  db ← get
  for_some (find_content content_id db) (λ content.
      when (not (includes kept_contents content.status))
        (set_content_status content_id ContentStatus.failed)))

unfoldable pub fail_order : Task → M (Unit {0})
fail_order task = for_some task.order_id (λ order_id. do
  db ← get
  for_some (find_order order_id db) (λ order.
      when
        (includes (TaskKind.selection ∷ TaskKind.blueprint ∷ []) task.kind
          && order.status == OrderStatus.running)
        (set_order_status order_id OrderStatus.partial)))

unfoldable pub mark_content_failed : Task → M (Unit {0})
unfolding fail_scene fail_content fail_order
mark_content_failed task =
    if task.kind == TaskKind.publish
    then skip
    else do fail_scene task; fail_content task; fail_order task

-- case 'DEFERRED'
unfoldable pub handle_deferred : Env → Config → Task → Option Thrown → M (Unit {0})
handle_deferred env config task error db =
    let deferrals = task.payload.deferrals + 1 in
    let delay_ms = next_slot_delay_ms config task db in
    let later = record task { payload = record (task.payload) { deferrals = deferrals } } in
    if ltb max_deferrals deferrals
    then (do
      transition env task.id TaskState.escalated "deferral_limit" error
      alert "publish_deferral_exhausted")
        db
    else (do
      save_task later
      transition env task.id TaskState.retry "channel_headroom" none
      modify (λ db. record db {
        tasks =
            update (λ t. t.id == task.id)
              (λ t. record t { sla_deadline = some (env.now + delay_ms + 600000) }) db.tasks;
      })
      enqueue env later (task.retry_count + 1) delay_ms)
        db

unfoldable pub pause_agent : Task → M (Unit {0})
pause_agent task =
    for_some task.agent_id (λ agent_id. set_agent_lifecycle agent_id AgentLifecycle.paused_budget)

unfoldable pub block_content : Task → M (Unit {0})
block_content task =
    for_some task.content_id (λ content_id. set_content_status content_id ContentStatus.blocked)

-- the `default` case: `fallback` is whether the class is BACKEND_UNAVAILABLE
unfoldable pub handle_retry : Env → Task → Bool → String → Option Thrown → M (Unit {0})
handle_retry env task fallback reason error =
    if leb task.max_retry task.retry_count
    then (do
      transition env task.id TaskState.escalated "retry_exhausted" error
      alert "retry_exhausted"
      mark_content_failed task)
    else (let attempt = task.retry_count + 1 in
        let again = record task { retry_count = attempt; error = error } in
        do
          save_task again
          transition env task.id (if fallback then TaskState.fallback else TaskState.retry) reason
              error
          enqueue env again (attempt + 1) (if fallback then 0 else backoff_ms attempt))

unfoldable pub handle_task : Env → Config → Task → FailureClass → Option Thrown → M (Unit {0})
unfolding handle_deferred pause_agent block_content handle_retry
handle_task env config task FailureClass.deferred error = handle_deferred env config task error
handle_task env config task FailureClass.policy_violation error = do
  transition env task.id TaskState.failed "policy_violation" error
  block_content task
  alert "policy_violation"
handle_task env config task FailureClass.budget_exceeded error = do
  pause_agent task
  transition env task.id TaskState.escalated "budget_exceeded" error
  alert "budget_exceeded"
  mark_content_failed task
handle_task env config task FailureClass.invalid_input error = do
  transition env task.id TaskState.failed "invalid_input" error
  mark_content_failed task
handle_task env config task FailureClass.backend_unavailable error =
    handle_retry env task true "backend_unavailable" error
handle_task env config task FailureClass.transient error =
    handle_retry env task false "transient" error
handle_task env config task FailureClass.retry_exhausted error =
    handle_retry env task false "retry_exhausted" error

unfoldable pub handle : Env → Config → ℕ → FailureClass → Option Thrown → M (Unit {0})
unfolding handle_task
handle env config task_id failure_class error = do
  db ← get
  for_some (find_task task_id db) (λ task. handle_task env config task failure_class error)
