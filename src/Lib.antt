-- ===== src/Lib.antt =====
-- ContentsFactory: the pipeline that turns an order into published contents, as a model on which its
-- rules are proved.
--
-- The program. An order (apps/api/src/order) is validated and submitted. From then on the work is a
-- chain of tasks, one queue per kind: SELECTION, BLUEPRINT, GENERATE_IMAGE or GENERATE_VIDEO, RENDER,
-- QC, PUBLISH. A worker (apps/worker) takes a task, runs the processor of its kind and tells the
-- orchestrator how it ended. The orchestrator creates the tasks that follow
-- (libs/orchestration/src/orchestrator.service.ts), or decides what becomes of a failed one
-- (apps/orchestrator/src/failure-handler.service.ts). A checked content is approved by a rule or by a
-- person (libs/orchestration/src/approval.service.ts) and uploaded within the limits of its channel
-- (libs/orchestration/src/channel-health.service.ts). Every task is created and moved by the task
-- factory (libs/orchestration/src/task-factory.service.ts); all parts share one database.
--
-- The files. A definition has the name of the function or type it models, in snake case or as it is.
--   Common                   tests, optional values, lists and equivalences that the other files share
--   Enums                    libs/domain/src/types/enums.ts
--   StateMachine             libs/domain/src/order/state-machine.ts; Graph: runs of the tables
--   Errors                   libs/common/src/errors: codes, failure classes, results that may throw
--   Qc                       libs/domain/src/qc/qc-scoring.ts
--   Approval                 libs/domain/src/approval/approval-rule.ts, libs/common/src/auth/roles.ts
--   Eligibility              libs/domain/src/selection/fit-score.ts, the filter on licences
--   Store, Store.Tables      libs/domain/src/entities: rows, the state `Db`, the steps `M`, and lemmas on
--                            tables that are lists of rows
--   TaskFactory              libs/orchestration/src/task-factory.service.ts, libs/queue/src/queues.ts
--   FailureHandler           apps/orchestrator/src/failure-handler.service.ts
--   ChannelHealth            libs/orchestration/src/channel-health.service.ts
--   ApprovalService          libs/orchestration/src/approval.service.ts
--   Orchestrator             libs/orchestration/src/orchestrator.service.ts
--   Publish                  apps/worker/src/processors/publish.processor.ts
--   Worker                   apps/worker/src/worker-runner.service.ts
--   Orders                   submit and cancel of apps/api/src/order/order.service.ts, retry and cancel
--                            of apps/api/src/task/task.service.ts
--   Sla                      apps/orchestrator/src/sla-monitor.service.ts
--   Paging                   apps/api/src/common/pagination.ts and the lists that use it; Order: rows in
--                            the order of a query, Walk: pages, and a client that follows the cursors
--   Diversify                `diversify` of libs/domain/src/selection/fit-score.ts; Groups: its sessions
--   Selection                apps/worker/src/processors/selection.processor.ts
--   Blueprints               apps/worker/src/processors/blueprint.processor.ts; Durations: the scenes of
--                            a video, Rerun: a task that runs again
--   Auth                     apps/api/src/auth/auth.service.ts, libs/common/src/auth/roles.guard.ts;
--                            Refresh: requests as a step relation, Lock: runs of failed logins
--   Generation               libs/model-abstraction/src: generation.service.ts, with Backends: the registry of
--                            the backends and their health, CostGuard: the budget; Calls: how a call ends,
--                            Budget: runs of calls
--   Identity                 apps/worker/src/generation/identity.service.ts; Attempts: how the attempts end
--   Validator                apps/api/src/order/order-validator.service.ts and pricing.ts, and
--                            libs/domain/src/order/cost-estimator.ts; Requirements: what each check asks,
--                            Terms: the occurrence of a term, Checks: the checks together
--   QcEngine                 apps/worker/src/qc/qc-engine.service.ts, by Areas and Copy; Processor:
--                            apps/worker/src/processors/qc.processor.ts; Verdict: what is not blocked, Bounds:
--                            the scores, Processor.Attempts: the stored results
--   Pipeline                 the parts that write tasks as steps on one state; Columns and Failures: what
--                            each step leaves alone, Reachable: what holds after any run of steps
--   Samples                  rows and states for the tests, which are the modules named Tests
--
-- The state. `Db` holds one list per table, the jobs in the queues and the names of the alerts that
-- were sent. An operation is a function from a state to a result and a state: what was written before
-- an error stays written, since the code runs no transaction around these calls. Concurrent parts are
-- modelled one operation at a time; Pipeline lets their operations follow each other in any order.
--
-- Selection, Blueprints, Auth, Paging, Generation and Validator keep small states or tables of their
-- own, which hold the columns that they read and write. A selection reads an order and the assets, a blueprint the selected assets;
-- the authentication keeps users and the keys of Redis with their expiry; a list is the rows that its query orders.
--
-- The choices. A UUID and a storage key are numbers, since the code only compares them. The text of an
-- idempotency key is kept as its four parts. Times are milliseconds since some day. A score is counted
-- in 1/10000 of a point, so that the weighted sum of `evaluateQc` is exact. Texts of the eligibility
-- filter are lists of character codes, and letters change their case within ASCII. What the
-- backends of a model, the storage and the clock answer is the record `World`, and what the probes of a
-- medium, the embeddings and the regular expressions answer are fields of `QcFacts`. An estimate of a cost is counted
-- in tenths of a won until it is rounded, and a similarity in millionths. The queue service
-- may refuse a job (`queue_up`), a processor of the worker is any step, and the answer of the
-- validator to `submit`, and those of the upload's services and of the clock are inputs. Loops run over lists, but for
-- three: the attempts of a verification are counted down from `max_retry`, where the source counts up to it; the rounds of `diversify` have as much fuel as assets are wanted, since every round that goes on
-- takes one; and a client that walks through the pages of a list makes one request more at most than
-- the list has rows. bcrypt, the JWT library, the encoding of cursors and the floating-point `fitScore`
-- are parameters; times of the authentication are seconds, those of the lists microseconds.
--
-- Not modelled: the formula of the fit score, the processors that generate images and videos and that
-- render, the adapters of the models and platforms, provenance and hashing, the HTTP layer with its
-- requests, access tokens, the backoffice, and input and output. Pipeline leaves out the orchestrator,
-- whose calls of createTask are its steps one by one.
pub mod Common
pub mod Enums
pub mod StateMachine
pub mod Errors
pub mod Qc
pub mod QcEngine
pub mod Approval
pub mod Store
pub mod TaskFactory
pub mod FailureHandler
pub mod ChannelHealth
pub mod ApprovalService
pub mod Orchestrator
pub mod Eligibility
pub mod Publish
pub mod Worker
pub mod Orders
pub mod Sla
pub mod Paging
pub mod Diversify
pub mod Selection
pub mod Auth
pub mod Blueprints
pub mod Generation
pub mod Identity
pub mod Validator
pub mod Pipeline
pub mod Samples
