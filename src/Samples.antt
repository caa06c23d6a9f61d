-- ===== src/Samples.antt =====
-- Concrete rows and states on which the tests run the model: an order with one video, its tasks and
-- its channel.
use contents_factory.Common.{ℕ, true, false, Option, none, some, List, [], ◌∷◌}
use contents_factory.Enums.{
  OrderStatus, ContentStatus, TaskState, TaskKind, OutputType, SceneStatus, QcVerdict,
  ChannelStatus, ChannelHealthState, UserRole, PublicationStatus, Visibility,
}
use contents_factory.Approval.{AuthUser}
use contents_factory.Qc.{policy, QcViolation, ChecksByArea}
use contents_factory.Store.{
  Task, Content, Order, Scene, Blueprint, QcResult, Publication, Channel, Db, Env, Config,
}
use contents_factory.TaskFactory.{CreateTaskInput}

abbrev pub env_up : Env
env_up = record { now = 10000000; queue_up = true }

abbrev pub env_down : Env
env_down = record { now = 10000000; queue_up = false }

abbrev pub config : Config
config = record { max_qc_attempts = 1; min_interval_min = 180; quarantine_on_removal = true }

abbrev pub task_of : ℕ → TaskKind → TaskState → Option ℕ → ℕ → Task
task_of id kind state scene_id deferrals = record {
  id = id;
  kind = kind;
  order_id = some 1;
  content_id = some 4;
  scene_id = scene_id;
  agent_id = none;
  priority = 3;
  state = state;
  retry_count = 1;
  max_retry = 3;
  idempotency_key = record { kind = kind; target = some 4; scene = scene_id; attempt = 1 };
  payload = record { attempt = 1; budget_cap_krw = 0; deferrals = deferrals; channel_id = some 2 };
  error = none;
  started_at = none;
  finished_at = none;
  sla_deadline = none;
}

abbrev pub running_task : Task
running_task = task_of 9 TaskKind.generate_video TaskState.running (some 5) 0

abbrev pub rendered_task : Task
rendered_task = task_of 7 TaskKind.render TaskState.done none 0

abbrev pub content_in : ContentStatus → Content
content_in status = record {
  id = 4;
  blueprint_id = 3;
  order_id = 1;
  output_type = OutputType.video;
  final_key = some 70;
  status = status;
}

abbrev pub order_in : OrderStatus → Order
order_in status = record {
  id = 1;
  requested_by = 100;
  agent_id = none;
  budget_cap = 50000;
  approval_level = 1;
  status = status;
  reject_reason = none;
  channels = 2 ∷ [];
}

abbrev pub channel_in : ChannelHealthState → Channel
channel_in health = record {
  id = 2;
  supports_private_upload = true;
  status = ChannelStatus.active;
  health_state = health;
  daily_cap = 3;
  min_interval_min = 180;
  observed_safe_max = 5;
  quarantined_at = none;
  quarantine_reason = none;
}

abbrev pub posted : ℕ → Publication
posted at = record {
  id = 12;
  content_id = 6;
  channel_id = 2;
  status = PublicationStatus.uploaded;
  visibility = Visibility.private;
  external_id = some 900;
  error = none;
  created_at = at;
}

abbrev pub scene_done : Scene
scene_done = record {
  id = 5;
  content_id = 4;
  seq = 1;
  duration_ms = 3000;
  status = SceneStatus.done;
  retry_count = 0;
}

abbrev pub blueprint : Blueprint
blueprint = record {
  id = 3;
  order_id = 1;
  channel_id = 2;
  output_type = OutputType.video;
  scene_plan = [];
}

abbrev pub qc_of : QcVerdict → ℕ → QcResult
qc_of verdict total = record {
  content_id = 4;
  attempt = 1;
  total_score = total;
  verdict = verdict;
  violations = [];
  retry_target = none;
}

-- the database with a content, an order and QC results
abbrev pub db_of : ContentStatus → OrderStatus → List QcResult → Db
db_of content order qc_results = record {
  next_id = 20;
  tasks = rendered_task ∷ running_task ∷ [];
  events = [];
  contents = content_in content ∷ [];
  orders = order_in order ∷ [];
  scenes = scene_done ∷ [];
  blueprints = blueprint ∷ [];
  qc_results = qc_results;
  approvals = [];
  publications = [];
  agents = [];
  channels = channel_in ChannelHealthState.active ∷ [];
  jobs = [];
  alerts = [];
}

abbrev pub db_running : Db
db_running = db_of ContentStatus.generating OrderStatus.running []

abbrev pub input : CreateTaskInput
input = record {
  kind = TaskKind.qc;
  order_id = some 1;
  content_id = some 4;
  scene_id = none;
  agent_id = none;
  priority = none;
  attempt = none;
  max_retry = none;
  budget_cap_krw = none;
  channel_id = none;
}

abbrev pub actor : AuthUser
actor = record { id = 200; role = UserRole.reviewer }

-- checks that all score the same, the policy check with the given violations
abbrev pub checks_of : ℕ → List QcViolation → ChecksByArea
checks_of score found policy = record { score = score; violations = found }
checks_of score found _ = record { score = score; violations = [] }
