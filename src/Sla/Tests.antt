-- ===== src/Sla/Tests.antt =====
-- A scan of three overdue tasks, of which one runs.
use contents_factory.Common.{ℕ, ◌≡◌, true, arith, none, some, [], ◌∷◌, nat_eq, filter, length, map}
use contents_factory.Enums.{TaskState, TaskKind, task_state_eq}
use contents_factory.Errors.{ok}
use contents_factory.Store.{Task, Db}
use contents_factory.Samples.{env_up, task_of, running_task}
use contents_factory.Sla.{is_overdue, scan}
use contents_factory.Sla.Scan.{scanned, scan_outcome}

abbrev due : ℕ → Task → Task
due at t = record {
  id = t.id;
  kind = t.kind;
  order_id = t.order_id;
  content_id = t.content_id;
  scene_id = t.scene_id;
  agent_id = t.agent_id;
  priority = t.priority;
  state = t.state;
  retry_count = t.retry_count;
  max_retry = t.max_retry;
  idempotency_key = t.idempotency_key;
  payload = t.payload;
  error = t.error;
  started_at = t.started_at;
  finished_at = t.finished_at;
  sla_deadline = some at;
}

abbrev db_late : Db
db_late = record {
  next_id = 20;
  tasks =
      due 5 running_task
      ∷ due 6 (task_of 10 TaskKind.qc TaskState.queued none 0)
      ∷ task_of 11 TaskKind.render TaskState.running none 0
      ∷ [];
  events = [];
  contents = [];
  orders = [];
  scenes = [];
  blueprints = [];
  qc_results = [];
  approvals = [];
  publications = [];
  agents = [];
  channels = [];
  jobs = [];
  alerts = [];
}

scan_outcome_example :
    ((scan env_up true db_late).0 ≡ ok (length (filter (is_overdue env_up) db_late.tasks)))
    × ((scan env_up true db_late).1.tasks ≡ map (scanned env_up) db_late.tasks)
unfolding is_overdue
scan_outcome_example =
    scan_outcome env_up db_late
      (((λ e. omega arith), ((λ e. omega arith), tt)), (((λ e. omega arith), tt), (tt, tt)))
      (omega arith)
