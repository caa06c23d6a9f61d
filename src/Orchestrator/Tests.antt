-- ===== src/Orchestrator/Tests.antt =====
-- What follows a task, at concrete states.
use contents_factory.Common.{All, [], filter, nat_eq, refl, ◌==◌, ◌∷◌, ◌≡◌, ◌≢◌, ◌⊎◌}
use contents_factory.Enums.{ContentStatus, OrderStatus, QcVerdict, TaskKind, content_status_eq}
use contents_factory.Errors.{ok}
use contents_factory.Orchestrator.{all_scenes_done, finalize_order, follow, follow_up}
use contents_factory.Orchestrator.Finalize.{IsOver, closed_as, finalize_order_outcome}
use contents_factory.Orchestrator.QcResults.{second_render_lost}
use contents_factory.Samples.{config, db_of, db_running, env_up, qc_of, rendered_task, running_task}
use contents_factory.Store.{Db, update}
use contents_factory.TaskFactory.{idempotency_key}

abbrev db_failed : Db
db_failed = db_of ContentStatus.qc OrderStatus.running (qc_of QcVerdict.fail 5000 ∷ [])

finalize_order_outcome_example :
    let contents = filter (λ c. c.order_id == 1) db_failed.contents in
    ((contents ≢ [])
      × All (λ c. c.status ≡ ContentStatus.published) contents
      × (finalize_order 1 db_failed ≡ (ok tt, closed_as 1 OrderStatus.done db_failed)))
    ⊎ ((contents ≢ [])
        × All IsOver contents
        × (¬ All (λ c. c.status ≡ ContentStatus.published) contents)
        × (finalize_order 1 db_failed ≡ (ok tt, closed_as 1 OrderStatus.partial db_failed)))
    ⊎ (((contents ≡ []) ⊎ (¬ All IsOver contents))
        × (finalize_order 1 db_failed ≡ (ok tt, db_failed)))
finalize_order_outcome_example = finalize_order_outcome 1 db_failed

second_render_lost_example :
    follow env_up config running_task TaskKind.generate_video db_running ≡ (
      ok tt,
      record db_running {
        contents =
            update
              (λ c. c.id == 4)
              (λ c. record c { status = ContentStatus.rendering })
              db_running.contents;
      },
    )
unfolding all_scenes_done idempotency_key follow_up
second_render_lost_example =
    second_render_lost env_up config running_task rendered_task 4 db_running refl refl refl refl
