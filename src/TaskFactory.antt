-- ===== src/TaskFactory.antt =====
-- libs/orchestration/src/task-factory.service.ts, with the queue table of libs/queue/src/queues.ts and
-- the key of libs/common/src/util/ids.ts: creating tasks, putting them into a queue, and the one
-- method for state transitions. A queue is a list of jobs; that the queue service refuses a job is
-- an input, `queue_up`.
pub mod Keys
pub mod Reuse
pub mod Transition
mod Tests
use Prim.Native.String.{String}
use contents_factory.Common.{
  ℕ, ◌+◌, ◌-◌, Bool, true, false, Option, none, some, List, [], ◌∷◌, ◌++◌, ◌&&◌, ◌||◌, ◌==◌, not,
  leb, if◌then◌else◌, includes, find, get_or, or_else, is_some,
}
use contents_factory.Enums.{TaskState, TaskKind, task_state_eq}
use contents_factory.Errors.{ErrorCode, Thrown, Result, ok, err, other}
use contents_factory.StateMachine.{can_transition_task}
use contents_factory.Store.{
  IdempotencyKey, key_eq, Payload, Task, TaskEvent, Job, Db, Env, M, ◌>>=◌, ◌>>◌, return, throw,
  fail, get, modify, replace, find_task, save_task,
}

-- QUEUE_SPECS: the retries that a kind of task is given, and its time limit
unfoldable pub spec_max_retry : TaskKind → ℕ
spec_max_retry TaskKind.generate_image = 3
spec_max_retry TaskKind.generate_video = 3
spec_max_retry TaskKind.publish = 3
spec_max_retry _ = 2

unfoldable pub spec_sla_ms : TaskKind → ℕ
spec_sla_ms TaskKind.selection = 60000
spec_sla_ms TaskKind.blueprint = 60000
spec_sla_ms TaskKind.generate_image = 180000
spec_sla_ms TaskKind.generate_video = 900000
spec_sla_ms TaskKind.render = 600000
spec_sla_ms TaskKind.qc = 120000
spec_sla_ms TaskKind.publish = 180000

pub record CreateTaskInput : Type 0 where
  pub kind : TaskKind
  pub order_id : Option ℕ
  pub content_id : Option ℕ
  pub scene_id : Option ℕ
  pub agent_id : Option ℕ
  pub priority : Option ℕ
  pub attempt : Option ℕ
  pub max_retry : Option ℕ
  pub budget_cap_krw : Option ℕ
  -- `payload.channelId`, the only entry of a given payload that is read later
  pub channel_id : Option ℕ

-- `idempotencyKey`
unfoldable pub idempotency_key : CreateTaskInput → ℕ → IdempotencyKey
idempotency_key input attempt = record {
  kind = input.kind;
  target = or_else input.content_id input.order_id;
  scene = input.scene_id;
  attempt = attempt;
}

unfoldable pub record_event : ℕ → Option TaskState → TaskState → String → M (Unit {0})
record_event task_id from to reason = modify (λ db. record db {
  events =
      record { task_id = task_id; from_state = from; to_state = to; reason = reason } ∷ db.events;
})

-- the envelope of a task
unfoldable pub envelope : Env → Task → ℕ → ℕ → Job
envelope env task attempt delay_ms = record {
  task_id = task.id;
  kind = task.kind;
  order_id = task.order_id;
  content_id = task.content_id;
  scene_id = task.scene_id;
  agent_id = task.agent_id;
  attempt = attempt;
  idempotency_key = task.idempotency_key;
  budget_cap_krw = task.payload.budget_cap_krw;
  deadline = get_or task.sla_deadline (env.now + spec_sla_ms task.kind);
  channel_id = task.payload.channel_id;
  priority = task.priority;
  delay_ms = delay_ms;
}

-- `JobEnvelope.parse` refuses an attempt below 1, and the queue may be down.
unfoldable pub enqueue : Env → Task → ℕ → ℕ → M (Unit {0})
unfolding envelope
enqueue env task attempt delay_ms =
    if leb 1 attempt && env.queue_up
    then modify (λ db. record db { jobs = db.jobs ++ envelope env task attempt delay_ms ∷ [] })
    else throw other

abbrev pub in_flight : List TaskState
in_flight = TaskState.queued ∷ TaskState.running ∷ TaskState.retry ∷ TaskState.fallback ∷ []

-- the states in which `createTask` leaves a task alone
abbrev pub is_reusable : TaskState → Bool
is_reusable state = state == TaskState.done || includes in_flight state

-- a dead task as `createTask` brings it back
unfoldable pub revived_task : Env → Task → Task
revived_task env existing = record existing {
  state = TaskState.queued;
  started_at = none;
  finished_at = none;
  error = none;
  sla_deadline = some (env.now + spec_sla_ms existing.kind);
}

-- the rest of `createTask` where a task with the key exists
unfoldable pub reuse_task : Env → Task → M Task
unfolding record_event
reuse_task env existing = if is_reusable existing.state then return existing else (do
  save_task (revived_task env existing)
  record_event existing.id (some existing.state) TaskState.queued "revived_by_orchestrator"
  enqueue env (revived_task env existing) (existing.retry_count + 1) 0
  return (revived_task env existing))

-- the row that `createTask` makes where no task has the key
unfoldable pub new_task : Env → CreateTaskInput → ℕ → Task
unfolding idempotency_key
new_task env input id =
    let attempt = get_or input.attempt 1 in
    record {
      id = id;
      kind = input.kind;
      order_id = input.order_id;
      content_id = input.content_id;
      scene_id = input.scene_id;
      agent_id = input.agent_id;
      priority = get_or input.priority 3;
      state = TaskState.queued;
      retry_count = attempt - 1;
      max_retry = get_or input.max_retry (spec_max_retry input.kind);
      idempotency_key = idempotency_key input attempt;
      payload = record {
        attempt = attempt;
        budget_cap_krw = get_or input.budget_cap_krw 0;
        deferrals = 0;
        channel_id = input.channel_id;
      };
      error = none;
      started_at = none;
      finished_at = none;
      sla_deadline = some (env.now + spec_sla_ms input.kind);
    }

abbrev insert_task : Task → M (Unit {0})
insert_task task =
    modify (λ db. record db { tasks = db.tasks ++ task ∷ []; next_id = db.next_id + 1 })

unfoldable pub insert_and_enqueue : Env → CreateTaskInput → ℕ → M Task
unfolding new_task record_event
insert_and_enqueue env input id =
    let task = new_task env input id in
    do
      insert_task task
      record_event task.id none TaskState.queued "created"
      enqueue env task (get_or input.attempt 1) 0
      return task

abbrev pub find_key : IdempotencyKey → Db → Option Task
find_key key db = find (λ t. t.idempotency_key == key) db.tasks

unfoldable pub create_task : Env → CreateTaskInput → M Task
unfolding idempotency_key
create_task env input db = elim (find_key (idempotency_key input (get_or input.attempt 1)) db) [
  | some existing ↦ reuse_task env existing db
  | none ↦ insert_and_enqueue env input db.next_id db
]

abbrev pub finished_states : List TaskState
finished_states = TaskState.done ∷ TaskState.failed ∷ TaskState.cancelled ∷ []

-- the row that a transition writes
unfoldable pub moved_task : Env → Task → TaskState → Option Thrown → Task
moved_task env task to error = record task {
  state = to;
  started_at =
      if to == TaskState.running && not (is_some task.started_at)
      then some env.now
      else task.started_at;
  finished_at = if includes finished_states to then some env.now else task.finished_at;
  error = or_else error task.error;
}

unfoldable pub transition : Env → ℕ → TaskState → String → Option Thrown → M Task
unfolding moved_task record_event
transition env id to reason error db = elim (find_task id db) [
  | none ↦ fail ErrorCode.task_not_found db
  | some task ↦
      if can_transition_task task.state to
      then (do
        save_task (moved_task env task to error)
        record_event id (some task.state) to reason
        return (moved_task env task to error))
          db
      else fail ErrorCode.task_invalid_state db
]
