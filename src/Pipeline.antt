-- ===== src/Pipeline.antt =====
-- The parts that write tasks, together: the task factory, the workers, the SLA monitor and the requests
-- of operators (libs/orchestration/src/task-factory.service.ts, apps/worker/src/worker-runner.service.ts,
-- apps/orchestrator/src/sla-monitor.service.ts, apps/api/src/order/order.service.ts and
-- apps/api/src/task/task.service.ts), as steps on one state.
pub mod Columns
pub mod Failures
pub mod Reachable
mod Tests
