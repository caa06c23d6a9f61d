-- ===== src/Generation/Budget.antt =====
-- The daily budget of an agent over any number of calls.
use contents_factory.Common.{
  ℕ, ◌+◌, ◌≤◌, ◌<◌, ◌≡◌, refl, sym, ap, subst, ◌∙◌, inl, inr, false, Option, none, some, List, [],
  ◌∷◌, arith, All, Bool-cases, Option-cases, ◌==◌, nat_eq, find, filter,
}
use contents_factory.Enums.{AgentLifecycle}
use contents_factory.Errors.{Result}
use contents_factory.Store.{Agent, update}
use contents_factory.Generation.{
  Backend, GenDb, GenRequest, GenResult, JobCtx, World, Registry, Capability, CostLog,
  exceeds_budget, exhaust, record_cost, spent_since, daily_budget, is_spent_by, sum_cost, generate,
  resolve,
}
use contents_factory.Generation.Calls.{generate_outcome}

-- The agent has no budget, or has not spent more than its budget since the start of the day.
abbrev pub IsWithin : ℕ → ℕ → GenDb → Type 0
IsWithin day agent_id db =
    0 < daily_budget agent_id db → spent_since day agent_id db ≤ daily_budget agent_id db

-- budgets and costs are those of another state
abbrev IsSame : ℕ → ℕ → GenDb → GenDb → Type 0
IsSame day agent_id db db' =
    (daily_budget agent_id db' ≡ daily_budget agent_id db)
    × (spent_since day agent_id db' ≡ spent_since day agent_id db)

same-IsWithin :
    (day agent_id : ℕ) (db db' : GenDb)
    → IsSame day agent_id db db'
    → IsWithin day agent_id db
    → IsWithin day agent_id db'
same-IsWithin day agent_id db db' same h pos = rw (same.0, same.1) (h (rw (sym same.0) pos))

budget_of_paused :
    (paused agent_id : ℕ) (agents : List Agent)
    → elim (find
          (λ a. a.id == agent_id)
          (update
            (λ a. a.id == paused)
            (λ a. record a { lifecycle = AgentLifecycle.paused_budget })
            agents))
        as (λ _. ℕ) [ none ↦ 0 | some a ↦ a.daily_budget ]
      ≡ elim (find (λ a. a.id == agent_id) agents) as (λ _. ℕ) [
        | none ↦ 0
        | some a ↦ a.daily_budget
      ]
budget_of_paused paused agent_id [] = refl
budget_of_paused paused agent_id (a ∷ agents) =
    ground (arith, budget_of_paused paused agent_id agents)

exhaust-IsSame : (day agent_id paused : ℕ) (db : GenDb) → IsSame day agent_id db (exhaust paused db)
unfolding exhaust daily_budget spent_since
exhaust-IsSame day agent_id paused db = (budget_of_paused paused agent_id db.agents, refl)

resolve-IsSame :
    (w : World) (registry : Registry) (capability : Capability) (max_cost : Option ℕ)
    (day agent_id : ℕ) (db : GenDb)
    → IsSame day agent_id db (resolve w registry capability max_cost db).1
unfolding resolve daily_budget spent_since
resolve-IsSame w registry capability max_cost day agent_id db = (refl, refl)

-- the row that a recorded cost adds
abbrev cost_row : World → JobCtx → ℕ → ℕ → CostLog
cost_row w ctx cost provider = record {
  agent_id = ctx.agent_id;
  content_id = ctx.content_id;
  provider = provider;
  cost_krw = cost;
  occurred_at = w.now;
}

rows-record_cost :
    (w : World) (ctx : JobCtx) (cost provider : ℕ) (db : GenDb)
    → ((record_cost w ctx cost provider db).agents ≡ db.agents)
      × ((record_cost w ctx cost provider db).cost_logs
          ≡ cost_row w ctx cost provider ∷ db.cost_logs)
unfolding record_cost
rows-record_cost w ctx cost provider db = ground arith

-- a recorded cost counts for its agent only
sum_other :
    (day agent_id : ℕ) (c : CostLog) (logs : List CostLog)
    → (c.agent_id ≡ some agent_id → ⊥)
    → sum_cost (filter (is_spent_by agent_id day) (c ∷ logs))
      ≡ sum_cost (filter (is_spent_by agent_id day) logs)
sum_other day agent_id c logs other = elim (Option-cases c.agent_id) [
  | inl nobody ↦ ground (arith, nobody)
  | inr (id, own) ↦ ground (arith, own, other)
]

sum_own :
    (day agent_id : ℕ) (c : CostLog) (logs : List CostLog)
    → sum_cost (filter (is_spent_by agent_id day) (c ∷ logs))
      ≤ c.cost_krw + sum_cost (filter (is_spent_by agent_id day) logs)
sum_own day agent_id c logs = ground arith

record_cost_other :
    (w : World) (ctx : JobCtx) (cost provider day agent_id : ℕ) (db : GenDb)
    → (ctx.agent_id ≡ some agent_id → ⊥)
    → IsSame day agent_id db (record_cost w ctx cost provider db)
unfolding daily_budget spent_since
record_cost_other w ctx cost provider day agent_id db other =
    let (agents, logs) = rows-record_cost w ctx cost provider db in
    (
      rw agents refl,
      rw logs (sum_other day agent_id (cost_row w ctx cost provider) db.cost_logs other),
    )

record_cost_own :
    (w : World) (ctx : JobCtx) (cost provider day agent_id : ℕ) (db : GenDb)
    → (daily_budget agent_id (record_cost w ctx cost provider db) ≡ daily_budget agent_id db)
      × (spent_since day agent_id (record_cost w ctx cost provider db)
          ≤ cost + spent_since day agent_id db)
unfolding daily_budget spent_since
record_cost_own w ctx cost provider day agent_id db =
    let (agents, logs) = rows-record_cost w ctx cost provider db in
    (rw agents refl, rw logs (sum_own day agent_id (cost_row w ctx cost provider) db.cost_logs))

within_allowed :
    (w : World) (agent_id amount : ℕ) (db : GenDb)
    → exceeds_budget w (some agent_id) amount db ≡ false
    → 0 < daily_budget agent_id db
    → spent_since w.day_start agent_id db + amount ≤ daily_budget agent_id db
unfolding exceeds_budget
within_allowed w agent_id amount db h pos = ground (arith, h, pos)

-- No backend charges more than its unit cost.
abbrev pub IsHonest : World → Type 0
IsHonest w =
    (b : Backend)
    → (req : GenRequest) → (res : GenResult) → w.generate b req ≡ some res
    → res.cost_krw ≤ b.unit_cost_krw

module _ (w : World) (agent_id : ℕ) where
  record_cost-IsWithin :
      (ctx : JobCtx) (cost provider unit_cost : ℕ) (db : GenDb)
      → cost ≤ unit_cost
      → exceeds_budget w ctx.agent_id unit_cost db ≡ false
      → IsWithin w.day_start agent_id db
      → IsWithin w.day_start agent_id (record_cost w ctx cost provider db)
  record_cost-IsWithin ctx cost provider unit_cost db le cheap h =
      elim (Option-cases ctx.agent_id) [
        | inl nobody ↦
            same-IsWithin w.day_start agent_id db (record_cost w ctx cost provider db)
              (record_cost_other w ctx cost provider w.day_start agent_id db (λ e. cc (nobody, e)))
              h
        | inr (id, who) ↦ elim (Bool-cases (id == agent_id)) [
          | inr other ↦
              same-IsWithin w.day_start agent_id db (record_cost w ctx cost provider db)
                (record_cost_other w ctx cost provider w.day_start agent_id db
                  (λ e. ground (arith, e, who, other)))
                h
          | inl same ↦
              let e : id ≡ agent_id = ground (arith, same) in
              let allowed : exceeds_budget w (some agent_id) unit_cost db ≡ false =
                subst (λ a. exceeds_budget w a unit_cost db ≡ false) (who ∙ ap some e) cheap in
              let (budget, spent) = record_cost_own w ctx cost provider w.day_start agent_id db in
              λ pos. omega (
                arith,
                budget,
                spent,
                le,
                within_allowed w agent_id unit_cost db allowed (omega (arith, budget, pos)),
              )
        ]
      ]

  -- A call of `generate` keeps every agent within its budget of the day.
  generate-IsWithin :
      (registry : Registry) (capability : Capability) (req : GenRequest) (ctx : JobCtx) (db : GenDb)
      → IsHonest w
      → IsWithin w.day_start agent_id db
      → IsWithin w.day_start agent_id (generate w registry capability req ctx db).1
  generate-IsWithin registry capability req ctx db honest h =
      let after : Result GenResult × GenDb → Type 0 = λ r. IsWithin w.day_start agent_id r.1 in
      let resolved = (resolve w registry capability ctx.max_cost_krw db).1 in
      let start =
        same-IsWithin w.day_start agent_id db resolved
          (resolve-IsSame w registry capability ctx.max_cost_krw w.day_start agent_id db) h in
      elim (generate_outcome w registry capability req ctx db) [
        | inl (cached, found, there, r) ↦ subst after (sym r) h
        | inr (missed, inl (unusable, r)) ↦ subst after (sym r) start
        | inr
              (
                missed,
                inr (backends, usable, inl (failed, b, rest, res, split, past, cheap, answer, r)),
              ) ↦
            subst after (sym r) (
              record_cost-IsWithin ctx res.cost_krw res.provider b.unit_cost_krw resolved
                (honest b req res answer) cheap start)
        | inr
              (
                missed,
                inr (backends, usable, inr (inl (failed, b, rest, id, split, past, who, dear, r))),
              ) ↦
            subst after (sym r) (
              same-IsWithin w.day_start agent_id resolved (exhaust id resolved)
                (exhaust-IsSame w.day_start agent_id id resolved) start)
        | inr (missed, inr (backends, usable, inr (inr (past, r)))) ↦ subst after (sym r) start
      ]

-- one request, with what the backends, the storage and the clock answer to it
pub record Call : Type 0 where
  pub world : World
  pub capability : Capability
  pub request : GenRequest
  pub ctx : JobCtx

-- the state after the requests, whether they succeed or not
abbrev pub run_calls : Registry → List Call → GenDb → GenDb
run_calls registry [] db = db
run_calls registry (c ∷ calls) db =
    run_calls registry calls (generate c.world registry c.capability c.request c.ctx db).1

-- Within a day, no number of requests by any agents brings an agent over its daily budget, when no backend
-- charges more than its unit cost and the agent was not over its budget before.
pub run_calls-IsWithin :
    (registry : Registry) (day agent_id : ℕ) (calls : List Call) (db : GenDb)
    → All (λ c. (c.world.day_start ≡ day) × IsHonest c.world) calls
    → IsWithin day agent_id db
    → IsWithin day agent_id (run_calls registry calls db)
run_calls-IsWithin registry day agent_id [] db honest h = h
run_calls-IsWithin registry day agent_id (c ∷ calls) db honest h =
    let db' = (generate c.world registry c.capability c.request c.ctx db).1 in
    let today = honest.0.0 in
    let kept =
      generate-IsWithin c.world agent_id registry c.capability c.request c.ctx db honest.0.1
        (subst (λ d. IsWithin d agent_id db) (sym today) h) in
    run_calls-IsWithin registry day agent_id calls db' honest.1
      (subst (λ d. IsWithin d agent_id db') today kept)
