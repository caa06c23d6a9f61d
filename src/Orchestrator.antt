-- ===== src/Orchestrator.antt =====
-- libs/orchestration/src/orchestrator.service.ts: what follows the end of a task. Workers never put a
-- task into the next queue; this service does.
pub mod Finalize
pub mod QcResults
mod Tests
use contents_factory.Common.{
  ℕ, ◌+◌, Bool, true, false, Option, none, some, List, [], ◌∷◌, ◌++◌, ◌&&◌, ◌==◌, nat_eq, leb, ltb,
  not, if◌then◌else◌, filter, find, every, includes, is_empty, is_some, length,
}
use contents_factory.Enums.{
  OrderStatus, ContentStatus, TaskKind, OutputType, SceneStatus, QcVerdict, content_status_eq,
  output_type_eq, scene_status_eq, task_kind_eq,
}
use contents_factory.Errors.{ErrorCode}
use contents_factory.Qc.{module_for_retry_target}
use contents_factory.ApprovalService.{decide, latest_qc}
use contents_factory.Store.{
  Task, Content, Order, Scene, ScenePlan, Blueprint, QcResult, Db, Env, Config, M, ◌>>=◌, ◌>>◌,
  return, get, modify, update, find_task, find_content, find_order, set_content_status,
  set_order_status, alert, skip, when, for_some, for_each,
}
use contents_factory.TaskFactory.{CreateTaskInput, create_task}

abbrev pub qc_count : ℕ → Db → ℕ
qc_count content_id db = length (filter (λ q. q.content_id == content_id) db.qc_results)

-- `finalizeOrderIfComplete`
abbrev pub final_statuses : List ContentStatus
final_statuses =
    ContentStatus.published ∷ ContentStatus.blocked ∷ ContentStatus.failed ∷ ContentStatus.rejected
    ∷ ContentStatus.qc_failed ∷ []

abbrev pub contents_of : ℕ → List Content → List Content
contents_of order_id contents = filter (λ c. c.order_id == order_id) contents

unfoldable pub final_status : List Content → Option OrderStatus
final_status contents =
    if is_empty contents
    then none
    else if every (λ c. includes final_statuses c.status) contents
    then some (
        if length (filter (λ c. c.status == ContentStatus.published) contents) == length contents
        then OrderStatus.done
        else OrderStatus.partial)
    else none

unfoldable pub finalize_order : ℕ → M (Unit {0})
unfolding final_status
finalize_order order_id db =
    for_some (final_status (contents_of order_id db.contents)) (set_order_status order_id) db

-- `if (!orderId) return`
abbrev pub finalize_if_complete : Option ℕ → M (Unit {0})
finalize_if_complete order_id = for_some order_id finalize_order

-- the follow-up of a task: its kind, with the columns that are copied
unfoldable pub follow_up : Task → TaskKind → Option ℕ → Option ℕ → Option ℕ → CreateTaskInput
follow_up task kind content_id scene_id attempt = record {
  kind = kind;
  order_id = task.order_id;
  content_id = content_id;
  scene_id = scene_id;
  agent_id = task.agent_id;
  priority = some task.priority;
  attempt = attempt;
  max_retry = none;
  budget_cap_krw = none;
  channel_id = none;
}

abbrev pub create : Env → CreateTaskInput → M (Unit {0})
create env input = do create_task env input; return tt

-- `allScenesDone`
unfoldable pub all_scenes_done : ℕ → Db → Bool
all_scenes_done content_id db =
    let rows = filter (λ s. s.content_id == content_id) db.scenes in
    not (is_empty rows) && every (λ s. s.status == SceneStatus.done) rows

-- one round of `materializeScenes`
unfoldable pub materialize_scene : ℕ → ScenePlan → M (Unit {0})
materialize_scene content_id p = do
  db ← get
  when (not (is_some (find (λ s. s.content_id == content_id && s.seq == p.seq) db.scenes))) (
      modify (λ db. record db {
        scenes =
            db.scenes
            ++ record {
              id = db.next_id;
              content_id = content_id;
              seq = p.seq;
              duration_ms = p.duration_ms;
              status = SceneStatus.pending;
              retry_count = 0;
            }
              ∷ [];
        next_id = db.next_id + 1;
      }))

-- the content of a blueprint; one that exists is taken as it is
unfoldable pub ensure_content : ℕ → Blueprint → M ℕ
ensure_content order_id bp db = elim (find (λ c. c.blueprint_id == bp.id) db.contents) [
  | some content ↦ return content.id db
  | none ↦
      (do
        modify (λ db. record db {
          contents =
              db.contents
              ++ record {
                id = db.next_id;
                blueprint_id = bp.id;
                order_id = order_id;
                output_type = bp.output_type;
                final_key = none;
                status = ContentStatus.pending;
              }
                ∷ [];
          next_id = db.next_id + 1;
        })
        return db.next_id)
        db
]

-- the generation tasks of a content's scenes
unfoldable pub create_scene_tasks : Env → ℕ → (Scene → CreateTaskInput) → M (Unit {0})
create_scene_tasks env content_id input = do
  db ← get
  for_each (filter (λ s. s.content_id == content_id) db.scenes) (λ scene. create env (input scene))

-- the input of a task that the fan-out makes, with the agent of the order
abbrev pub fan_out_input : Task → Order → TaskKind → ℕ → Option ℕ → CreateTaskInput
fan_out_input task order kind content_id scene_id = record {
  kind = kind;
  order_id = some order.id;
  content_id = some content_id;
  scene_id = scene_id;
  agent_id = order.agent_id;
  priority = some task.priority;
  attempt = none;
  max_retry = none;
  budget_cap_krw = none;
  channel_id = none;
}

unfoldable pub fan_out_video : Env → Task → Order → Blueprint → ℕ → M (Unit {0})
unfolding materialize_scene create_scene_tasks
fan_out_video env task order bp content_id = do
  for_each bp.scene_plan (materialize_scene content_id)
  set_content_status content_id ContentStatus.generating
  create_scene_tasks env content_id
      (λ scene. fan_out_input task order TaskKind.generate_video content_id (some scene.id))

unfoldable pub fan_out_image : Env → Task → Order → ℕ → M (Unit {0})
fan_out_image env task order content_id = do
  set_content_status content_id ContentStatus.generating
  create env (fan_out_input task order TaskKind.generate_image content_id none)

-- one round of `fanOutContents`
unfoldable pub fan_out_blueprint : Env → Task → Order → Blueprint → M (Unit {0})
unfolding ensure_content fan_out_video fan_out_image
fan_out_blueprint env task order bp = do
  content_id ← ensure_content order.id bp
  (if bp.output_type == OutputType.video
      then fan_out_video env task order bp content_id
      else fan_out_image env task order content_id)

-- `fanOutContents`
unfoldable pub fan_out_contents : Env → Task → ℕ → M (Unit {0})
unfolding fan_out_blueprint
fan_out_contents env task order_id = do
  db ← get
  for_some (find_order order_id db) (λ order.
      let blueprints = filter (λ b. b.order_id == order_id) db.blueprints in
      when (not (is_empty blueprints)) (do
        set_order_status order_id OrderStatus.running
        for_each blueprints (fan_out_blueprint env task order)))

-- the input of a task that a failed check leads to
abbrev pub retry_input : Task → TaskKind → ℕ → Option ℕ → ℕ → CreateTaskInput
retry_input task kind content_id scene_id attempts = record {
  kind = kind;
  order_id = task.order_id;
  content_id = some content_id;
  scene_id = scene_id;
  agent_id = task.agent_id;
  priority = some 1;
  attempt = some (attempts + 1);
  max_retry = none;
  budget_cap_krw = none;
  channel_id = none;
}

-- the partial regeneration after a failed check
unfoldable pub regenerate_part : Env → Task → ℕ → TaskKind → ℕ → M (Unit {0})
unfolding create_scene_tasks
regenerate_part env task content_id kind attempts = do
  set_content_status content_id
      (if kind == TaskKind.render then ContentStatus.rendering else ContentStatus.generating)
  (if kind == TaskKind.generate_video
      then (do
        modify (λ db. record db {
          scenes =
              update (λ s. s.content_id == content_id)
                (λ s. record s { status = SceneStatus.pending }) db.scenes;
        })
        create_scene_tasks env content_id
            (λ scene. retry_input task kind content_id (some scene.id) attempts))
      else create env (retry_input task kind content_id none attempts))

-- `handleQcResult` on a content and its last result
unfoldable pub handle_verdict : Env → Config → Task → Content → QcResult → ℕ → M (Unit {0})
unfolding regenerate_part
handle_verdict env config task content qc attempts = elim qc.verdict [
  | QcVerdict.blocked ↦ do
    set_content_status content.id ContentStatus.blocked
    alert "policy_or_copyright_violation"
    finalize_if_complete task.order_id
  | QcVerdict.fail ↦
      if leb config.max_qc_attempts attempts
      then (do
        set_content_status content.id ContentStatus.qc_failed
        alert "qc_retry_exhausted"
        finalize_if_complete task.order_id)
      else regenerate_part env task content.id
          (module_for_retry_target qc.retry_target content.output_type) attempts
  | QcVerdict.pass ↦ do decide env content.id; finalize_if_complete task.order_id
]

unfoldable pub handle_qc_result : Env → Config → Task → ℕ → M (Unit {0})
unfolding handle_verdict
handle_qc_result env config task content_id db = elim (latest_qc content_id db.qc_results) [
  | none ↦ skip db
  | some qc ↦ elim (find_content content_id db) [
    | none ↦ skip db
    | some content ↦ handle_verdict env config task content qc (qc_count content_id db) db
  ]
]

-- the task of the check that follows a generation or a rendering
abbrev pub create_qc : Env → Task → ℕ → M (Unit {0})
create_qc env task content_id = do
  db ← get
  create env (follow_up task TaskKind.qc (some content_id) none (some (qc_count content_id db + 1)))

-- the `switch` of `onTaskDone`; a task of a later kind has its content, one of an earlier its order
unfoldable pub follow : Env → Config → Task → TaskKind → M (Unit {0})
unfolding fan_out_contents handle_qc_result follow_up
follow env config task TaskKind.selection =
    create env (follow_up task TaskKind.blueprint none none none)
follow env config task TaskKind.blueprint = for_some task.order_id (fan_out_contents env task)
follow env config task TaskKind.generate_image = for_some task.content_id (create_qc env task)
follow env config task TaskKind.generate_video = for_some task.content_id (λ content_id. do
  db ← get
  when (all_scenes_done content_id db) (do
    set_content_status content_id ContentStatus.rendering
    create env (follow_up task TaskKind.render (some content_id) none none)))
follow env config task TaskKind.render = for_some task.content_id (create_qc env task)
follow env config task TaskKind.qc = for_some task.content_id (handle_qc_result env config task)
follow env config task TaskKind.publish = finalize_if_complete task.order_id

unfoldable pub on_task_done : Env → Config → ℕ → M (Unit {0})
unfolding follow
on_task_done env config task_id = do
  db ← get
  for_some (find_task task_id db) (λ task. follow env config task task.kind)
