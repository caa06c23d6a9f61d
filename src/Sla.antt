-- ===== src/Sla.antt =====
-- apps/orchestrator/src/sla-monitor.service.ts: the scan for tasks whose deadline has passed. Whether
-- the distributed lock was acquired is an input; the scan's query has no order, so it reads the
-- table in the order of the list.
pub mod Scan
mod Tests
use contents_factory.Common.{
  ℕ, zero, suc, Bool, true, false, Option, none, some, List, [], ◌∷◌, ◌&&◌, ◌==◌, ltb, includes,
  if◌then◌else◌, filter, length, take,
}
use contents_factory.Enums.{TaskState, task_state_eq}
use contents_factory.Errors.{Result, ok, err}
use contents_factory.Store.{Task, Db, Env, M, ◌>>=◌, ◌>>◌, return, get, for_each, alert}
use contents_factory.TaskFactory.{transition}

abbrev pub watched : List TaskState
watched = TaskState.queued ∷ TaskState.running ∷ []

-- `LessThan(new Date())`; a missing deadline is less than nothing
abbrev pub is_past : Env → Option ℕ → Bool
is_past env none = false
is_past env (some deadline) = ltb deadline env.now

unfoldable pub is_overdue : Env → Task → Bool
is_overdue env t = includes watched t.state && is_past env t.sla_deadline

-- `take: 100`
abbrev pub scan_limit : ℕ
scan_limit = 100

-- one round of the loop: an error of the transition is caught, and the alert is sent all the same
unfoldable pub escalate : Env → Task → M (Unit {0})
escalate env task db =
    let r = transition env task.id TaskState.escalated "sla_breach" none db in
    alert "sla_breach" r.1

unfoldable pub scan : Env → Bool → M ℕ
unfolding is_overdue escalate
scan env acquired db =
    let overdue = take scan_limit (filter (is_overdue env) db.tasks) in
    if acquired
    then (do for_each overdue (escalate env); return (length overdue)) db
    else return 0 db
