-- ===== src/Store.antt =====
-- The database rows that the pipeline reads and writes (libs/domain/src/entities), the state of the
-- whole system, and the operations that change it while they may throw.
-- A UUID is a number, and so is a storage key: the code only compares them. Times are milliseconds.
mod Tables
pub use Tables.*
use Prim.Native.String.{String}
use contents_factory.Common.{
  ℕ, ◌+◌, Bool, true, false, Option, none, some, List, [], ◌∷◌, ◌++◌, ◌&&◌, ◌==◌, Eq, nat_eq, ◌≡◌,
  ◌↔◌, arith, find,
}
use contents_factory.Enums.{
  OrderStatus, ContentStatus, TaskState, TaskKind, OutputType, SceneStatus, QcVerdict,
  PublicationStatus, ChannelStatus, ChannelHealthState, AgentLifecycle, Visibility,
  ApprovalDecision, task_kind_eq, task_kind_no,
}
use contents_factory.Errors.{ErrorCode, AppError, Thrown, Result, ok, err, app, app_error}
use contents_factory.Qc.{QcArea, QcViolation}

abbrev pub opt_beq : Option ℕ → Option ℕ → Bool
opt_beq none none = true
opt_beq (some a) (some b) = a == b
opt_beq _ _ = false

pub opt_beq_iff : (a b : Option ℕ) → (opt_beq a b ≡ true) ↔ (a ≡ b)
opt_beq_iff a b = ground arith

instance abbrev pub opt_eq : Eq (Option ℕ)
opt_eq = record { beq = opt_beq; beq_iff = opt_beq_iff }

-- `{kind}:{contentId|orderId}:{sceneId?}:{attempt}`, kept as its four parts: a UUID has no colon in
-- it. `none` stands for the words 'none' and '-'.
pub record IdempotencyKey : Type 0 where
  pub kind : TaskKind
  pub target : Option ℕ
  pub scene : Option ℕ
  pub attempt : ℕ

abbrev pub key_beq : IdempotencyKey → IdempotencyKey → Bool
key_beq j k =
    j.kind == k.kind
    && (opt_beq j.target k.target && (opt_beq j.scene k.scene && j.attempt == k.attempt))

pub key_beq_iff : (j k : IdempotencyKey) → (key_beq j k ≡ true) ↔ (j ≡ k)
key_beq_iff j k = ground (arith, opt_beq_iff j.target k.target, opt_beq_iff j.scene k.scene)

instance abbrev pub key_eq : Eq IdempotencyKey
key_eq = record { beq = key_beq; beq_iff = key_beq_iff }

-- the entries of a task's payload that the modelled code reads
pub record Payload : Type 0 where
  pub attempt : ℕ
  pub budget_cap_krw : ℕ
  pub deferrals : ℕ
  pub channel_id : Option ℕ

pub record Task : Type 0 where
  pub id : ℕ
  pub kind : TaskKind
  pub order_id : Option ℕ
  pub content_id : Option ℕ
  pub scene_id : Option ℕ
  pub agent_id : Option ℕ
  pub priority : ℕ
  pub state : TaskState
  pub retry_count : ℕ
  pub max_retry : ℕ
  pub idempotency_key : IdempotencyKey
  pub payload : Payload
  pub error : Option Thrown
  pub started_at : Option ℕ
  pub finished_at : Option ℕ
  pub sla_deadline : Option ℕ

pub record TaskEvent : Type 0 where
  pub task_id : ℕ
  pub from_state : Option TaskState
  pub to_state : TaskState
  pub reason : String

pub record Content : Type 0 where
  pub id : ℕ
  pub blueprint_id : ℕ
  pub order_id : ℕ
  pub output_type : OutputType
  pub final_key : Option ℕ
  pub status : ContentStatus

-- an entry of `reject_reason`: a check that the order failed, or that it was cancelled, with the
-- number that stands for the text of the reason
pub data RejectReason : Type 0 where
  failed_check : ErrorCode → RejectReason
  withdrawn : ℕ → RejectReason

pub record Order : Type 0 where
  pub id : ℕ
  pub requested_by : ℕ
  pub agent_id : Option ℕ
  pub budget_cap : ℕ
  pub approval_level : ℕ
  pub status : OrderStatus
  pub reject_reason : Option (List RejectReason)
  pub channels : List ℕ

pub record ScenePlan : Type 0 where
  pub seq : ℕ
  pub duration_ms : ℕ

pub record Scene : Type 0 where
  pub id : ℕ
  pub content_id : ℕ
  pub seq : ℕ
  pub duration_ms : ℕ
  pub status : SceneStatus
  pub retry_count : ℕ

pub record Blueprint : Type 0 where
  pub id : ℕ
  pub order_id : ℕ
  pub channel_id : ℕ
  pub output_type : OutputType
  pub scene_plan : List ScenePlan

pub record QcResult : Type 0 where
  pub content_id : ℕ
  pub attempt : ℕ
  pub total_score : ℕ
  pub verdict : QcVerdict
  pub violations : List QcViolation
  pub retry_target : Option QcArea

pub record Approval : Type 0 where
  pub content_id : ℕ
  pub decision : ApprovalDecision
  pub auto : Bool
  pub level_at : ℕ
  pub decided_by : Option ℕ

pub record Publication : Type 0 where
  pub id : ℕ
  pub content_id : ℕ
  pub channel_id : ℕ
  pub status : PublicationStatus
  pub visibility : Visibility
  pub external_id : Option ℕ
  pub error : Option Thrown
  pub created_at : ℕ

pub record Agent : Type 0 where
  pub id : ℕ
  pub approval_level : ℕ
  pub daily_budget : ℕ
  pub lifecycle : AgentLifecycle

pub record Channel : Type 0 where
  pub id : ℕ
  pub supports_private_upload : Bool
  pub status : ChannelStatus
  pub health_state : ChannelHealthState
  pub daily_cap : ℕ
  pub min_interval_min : ℕ
  pub observed_safe_max : ℕ
  pub quarantined_at : Option ℕ
  pub quarantine_reason : Option String

-- A job in a work queue: the envelope, with the options of the queue that matter.
pub record Job : Type 0 where
  pub task_id : ℕ
  pub kind : TaskKind
  pub order_id : Option ℕ
  pub content_id : Option ℕ
  pub scene_id : Option ℕ
  pub agent_id : Option ℕ
  pub attempt : ℕ
  pub idempotency_key : IdempotencyKey
  pub budget_cap_krw : ℕ
  pub deadline : ℕ
  pub channel_id : Option ℕ
  pub priority : ℕ
  pub delay_ms : ℕ

-- The tables, the work queues and the notifier's output. A query with `order:` reads its table in the
-- order of the list, the oldest row first.
pub record Db : Type 0 where
  pub next_id : ℕ
  pub tasks : List Task
  pub events : List TaskEvent
  pub contents : List Content
  pub orders : List Order
  pub scenes : List Scene
  pub blueprints : List Blueprint
  pub qc_results : List QcResult
  pub approvals : List Approval
  pub publications : List Publication
  pub agents : List Agent
  pub channels : List Channel
  pub jobs : List Job
  pub alerts : List String

-- What an operation meets outside the database: the clock, and whether the queue takes a job.
pub record Env : Type 0 where
  pub now : ℕ
  pub queue_up : Bool

-- The settings of libs/common/src/config/config.ts that the modelled code reads.
pub record Config : Type 0 where
  pub max_qc_attempts : ℕ
  pub min_interval_min : ℕ
  pub quarantine_on_removal : Bool

-- A step reads and writes the state, and returns or throws; what was written before a throw stays.
abbrev pub M : Type 0 → Type 0
M A = Db → Result A × Db

abbrev pub bind_result : {A B : Type 0} → Result A → (A → M B) → M B
bind_result (ok a) f db = f a db
bind_result (err e) f db = (err e, db)

infixl 5 ◌>>=◌ ◌>>◌
abbrev pub ◌>>=◌ : {A B : Type 0} → M A → (A → M B) → M B
◌>>=◌ m f db = bind_result (m db).0 f (m db).1

abbrev pub ◌>>◌ : {A B : Type 0} → M A → M B → M B
m >> k = m >>= λ _. k

abbrev pub return : {A : Type 0} → A → M A
return a db = (ok a, db)

abbrev pub throw : {A : Type 0} → Thrown → M A
throw e db = (err e, db)

abbrev pub fail : {A : Type 0} → ErrorCode → M A
fail code = throw (app (app_error code))

abbrev pub get : M Db
get db = (ok db, db)

abbrev pub modify : (Db → Db) → M (Unit {0})
modify f db = (ok tt, f db)

-- `for (const x of xs) await body(x)`
abbrev pub for_each : {A : Type 0} → List A → (A → M (Unit {0})) → M (Unit {0})
for_each [] body = return tt
for_each (x ∷ xs) body = body x >>= λ _. for_each xs body

abbrev pub row : {A : Type 0} → (A → ℕ) → ℕ → List A → Option A
row id k xs = find (λ x. id x == k) xs

abbrev pub find_task : ℕ → Db → Option Task
find_task id db = row (λ t. t.id) id db.tasks

abbrev pub find_content : ℕ → Db → Option Content
find_content id db = row (λ c. c.id) id db.contents

abbrev pub find_order : ℕ → Db → Option Order
find_order id db = row (λ o. o.id) id db.orders

abbrev pub find_agent : ℕ → Db → Option Agent
find_agent id db = row (λ a. a.id) id db.agents

abbrev pub find_channel : ℕ → Db → Option Channel
find_channel id db = row (λ c. c.id) id db.channels

abbrev pub save_task : Task → M (Unit {0})
save_task task = modify (λ db. record db { tasks = replace (λ t. t.id) task db.tasks })

abbrev pub set_content_status : ℕ → ContentStatus → M (Unit {0})
set_content_status id status = modify (λ db. record db {
  contents = update (λ c. c.id == id) (λ c. record c { status = status }) db.contents;
})

abbrev pub set_order_status : ℕ → OrderStatus → M (Unit {0})
set_order_status id status = modify (λ db. record db {
  orders = update (λ o. o.id == id) (λ o. record o { status = status }) db.orders;
})

abbrev pub set_scene_status : ℕ → SceneStatus → M (Unit {0})
set_scene_status id status = modify (λ db. record db {
  scenes = update (λ s. s.id == id) (λ s. record s { status = status }) db.scenes;
})

abbrev pub set_agent_lifecycle : ℕ → AgentLifecycle → M (Unit {0})
set_agent_lifecycle id lifecycle = modify (λ db. record db {
  agents = update (λ a. a.id == id) (λ a. record a { lifecycle = lifecycle }) db.agents;
})

abbrev pub alert : String → M (Unit {0})
alert name = modify (λ db. record db { alerts = name ∷ db.alerts })

abbrev pub skip : M (Unit {0})
skip = return tt

-- `if (test) await step`
abbrev pub when : Bool → M (Unit {0}) → M (Unit {0})
when true m = m
when false m = skip

-- `if (value) await step(value)`
abbrev pub for_some : {A : Type 0} → Option A → (A → M (Unit {0})) → M (Unit {0})
for_some none f = skip
for_some (some a) f = f a
