-- ===== src/Orchestrator/QcResults.antt =====
-- What follows a check: the bound on repeated checks, and the rendering of a regenerated video.
use contents_factory.Common.{ℕ, ◌≤◌, ◌≡◌, true, Option, none, some, arith, ◌==◌, nat_eq, leb}
use contents_factory.Enums.{ContentStatus, TaskState, TaskKind, QcVerdict}
use contents_factory.Errors.{ok}
use contents_factory.Store.{
  Task, Content, QcResult, Db, Env, Config, IdempotencyKey, for_some, find_content, update,
}
use contents_factory.TaskFactory.{find_key, idempotency_key, is_reusable}
use contents_factory.TaskFactory.Reuse.{reuse_live}
use contents_factory.ApprovalService.{latest_qc}
use contents_factory.Orchestrator.{
  follow, handle_qc_result, handle_verdict, finalize_order, finalize_if_complete, qc_count,
  follow_up, all_scenes_done,
}

-- Closing an order touches orders only.
finalize_frame :
    (order_id : Option ℕ) (db : Db)
    → let r = finalize_if_complete order_id db in
      (r.0 ≡ ok tt) × (r.1.tasks ≡ db.tasks) × (r.1.jobs ≡ db.jobs) × (r.1.contents ≡ db.contents)
unfolding finalize_order
finalize_frame order_id db = ground arith

exhausted_verdict :
    (env : Env) (config : Config) (task : Task) (content : Content) (qc : QcResult) (attempts : ℕ)
    (db : Db)
    → qc.verdict ≡ QcVerdict.fail
    → config.max_qc_attempts ≤ attempts
    → let r = handle_verdict env config task content qc attempts db in
      (r.0 ≡ ok tt)
      × (r.1.tasks ≡ db.tasks)
      × (r.1.jobs ≡ db.jobs)
      × (r.1.contents
          ≡ update
              (λ c. c.id == content.id)
              (λ c. record c { status = ContentStatus.qc_failed })
              db.contents)
unfolding handle_verdict
exhausted_verdict env config task content qc attempts db failed spent =
    let stop : leb config.max_qc_attempts attempts ≡ true = ground arith in
    rw (failed, handle_verdict) (rw stop (finalize_frame task.order_id _))

-- A failed check of a content that has been checked as often as allowed sets the content to QC_FAILED
-- and starts no further attempt: no task is created or revived and no job is queued.
exhausted_checks_stop :
    (env : Env) (config : Config) (task : Task) (content : Content) (content_id : ℕ) (qc : QcResult)
    (db : Db)
    → latest_qc content_id db.qc_results ≡ some qc
    → find_content content_id db ≡ some content
    → qc.verdict ≡ QcVerdict.fail
    → config.max_qc_attempts ≤ qc_count content_id db
    → let r = handle_qc_result env config task content_id db in
      (r.0 ≡ ok tt)
      × (r.1.tasks ≡ db.tasks)
      × (r.1.jobs ≡ db.jobs)
      × (r.1.contents
          ≡ update
              (λ c. c.id == content.id)
              (λ c. record c { status = ContentStatus.qc_failed })
              db.contents)
unfolding handle_qc_result
exhausted_checks_stop env config task content content_id qc db last found failed spent =
    rw (last, handle_qc_result)
      (rw found (exhausted_verdict env config task content qc _ db failed spent))

-- the key under which every rendering of a content is created
abbrev pub render_key : Task → ℕ → IdempotencyKey
render_key task content_id =
    idempotency_key (follow_up task TaskKind.render (some content_id) none none) 1

-- Once a rendering of a content has been done, the end of a later generation of its scenes moves the
-- content to RENDERING and starts nothing: the rendering is created under the key of the first
-- one, which is taken for done, so no task changes and no job is queued.
pub second_render_lost :
    (env : Env) (config : Config) (task rendered : Task) (content_id : ℕ) (db : Db)
    → task.content_id ≡ some content_id
    → all_scenes_done content_id db ≡ true
    → find_key (render_key task content_id) db ≡ some rendered
    → rendered.state ≡ TaskState.done
    → follow env config task TaskKind.generate_video db ≡ (
      ok tt,
      record db {
        contents =
            update
              (λ c. c.id == content_id)
              (λ c. record c { status = ContentStatus.rendering })
              db.contents;
      },
    )
unfolding follow
second_render_lost env config task rendered content_id db has scenes found over =
    let db' = record db {
      contents =
          update (λ c. c.id == content_id) (λ c. record c { status = ContentStatus.rendering })
            db.contents;
    } in
    rw (has, for_some)
      (rw scenes (
        rw (
          reuse_live env (follow_up task TaskKind.render (some content_id) none none) db' rendered
            found (reusable rendered.state over))))
  where
    reusable : (s : TaskState) → s ≡ TaskState.done → is_reusable s ≡ true
    reusable s e = ground arith
