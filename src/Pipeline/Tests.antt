-- ===== src/Pipeline/Tests.antt =====
-- A run of the parts: a task is created, a worker runs, the monitor scans, an operator cancels.
use contents_factory.Common.{refl, true, arith}
use contents_factory.Store.{Db, Job, M, skip}
use contents_factory.TaskFactory.{create_task, envelope}
use contents_factory.TaskFactory.Keys.{IsKeyed}
use contents_factory.Worker.{run}
use contents_factory.Sla.{scan}
use contents_factory.Orders.{cancel_task}
use contents_factory.Samples.{db_running, env_up, env_down, input, rendered_task}
use contents_factory.Pipeline.Reachable.{
  start, then_step, create, work, watch, cancel_one, reachable-IsKeyed,
}

-- a processor that does nothing
abbrev idle : Job → M (Unit {0})
idle job = skip

abbrev db_created : Db
db_created = (create_task env_up input db_running).1

abbrev db_worked : Db
db_worked = (run env_up idle (envelope env_up rendered_task 1 0) db_created).1

abbrev db_watched : Db
db_watched = (scan env_up true db_worked).1

abbrev db_cancelled : Db
db_cancelled = (cancel_task env_down 20 db_watched).1

reachable-IsKeyed_example : IsKeyed db_cancelled
reachable-IsKeyed_example =
    reachable-IsKeyed db_running db_cancelled
      (then_step db_running db_watched db_cancelled
        (then_step db_running db_worked db_watched
          (then_step db_running db_created db_worked
            (then_step db_running db_running db_created (start db_running)
              (create db_running env_up input))
            (work db_created env_up idle (envelope env_up rendered_task 1 0)
              (λ j db h. (refl, refl, refl))))
          (watch db_worked env_up true))
        (cancel_one db_watched env_down 20))
      (record { distinct_ids = ground arith; distinct_keys = ground arith; fresh = ground arith })
