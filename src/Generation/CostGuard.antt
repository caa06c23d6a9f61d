-- ===== src/Generation/CostGuard.antt =====
-- libs/model-abstraction/src/cost-guard.service.ts: what an agent has spent, and its budget for the day.
use contents_factory.Common.{
  ℕ, ◌+◌, ◌*◌, Bool, true, false, Option, none, some, List, [], ◌∷◌, ◌&&◌, ◌==◌, nat_eq, ltb, leb,
  if◌then◌else◌, find, filter,
}
use contents_factory.Enums.{AgentLifecycle}
use contents_factory.Store.{update}
use contents_factory.Generation.Records.{CostLog, budget_exhausted, budget_80, JobCtx, GenDb, World}

abbrev pub sum_cost : List CostLog → ℕ
sum_cost [] = 0
sum_cost (c ∷ logs) = c.cost_krw + sum_cost logs

abbrev pub is_spent_by : ℕ → ℕ → CostLog → Bool
is_spent_by agent_id start c = elim c.agent_id [
  | none ↦ false
  | some id ↦ id == agent_id && leb start c.occurred_at
]

-- `spentToday` with the start of the day, `spentThisMonth` with that of the month
unfoldable pub spent_since : ℕ → ℕ → GenDb → ℕ
spent_since start agent_id db = sum_cost (filter (is_spent_by agent_id start) db.cost_logs)

unfoldable pub daily_budget : ℕ → GenDb → ℕ
daily_budget agent_id db = elim (find (λ a. a.id == agent_id) db.agents) [
  | none ↦ 0
  | some a ↦ a.daily_budget
]

-- the agent is paused and the alert sent
unfoldable pub exhaust : ℕ → GenDb → GenDb
exhaust agent_id db = record db {
  agents =
      update (λ a. a.id == agent_id) (λ a. record a { lifecycle = AgentLifecycle.paused_budget })
        db.agents;
  alerts = budget_exhausted ∷ db.alerts;
}

-- whether the agent's budget for the day, if it has one, is too small for the amount
unfoldable pub exceeds_budget : World → Option ℕ → ℕ → GenDb → Bool
unfolding spent_since daily_budget
exceeds_budget w none amount db = false
exceeds_budget w (some agent_id) amount db =
    let budget = daily_budget agent_id db in
    ltb 0 budget && ltb budget (spent_since w.day_start agent_id db + amount)

unfoldable pub can_spend : World → Option ℕ → ℕ → GenDb → Bool × GenDb
unfolding exceeds_budget exhaust
can_spend w agent amount db = elim agent [
  | none ↦ (true, db)
  | some agent_id ↦
      if exceeds_budget w (some agent_id) amount db
      then (false, exhaust agent_id db)
      else (true, db)
]

-- `budget * WARN_RATIO` is four fifths of the budget
unfoldable pub record_cost : World → JobCtx → ℕ → ℕ → GenDb → GenDb
unfolding spent_since daily_budget
record_cost w ctx cost provider db =
    let logged = record db {
      cost_logs =
          record {
            agent_id = ctx.agent_id;
            content_id = ctx.content_id;
            provider = provider;
            cost_krw = cost;
            occurred_at = w.now;
          }
          ∷ db.cost_logs;
    } in
    elim ctx.agent_id [
      | none ↦ logged
      | some agent_id ↦
          let budget = daily_budget agent_id logged in
          if ltb 0 budget && leb (4 * budget) (5 * spent_since w.day_start agent_id logged)
          then record logged { alerts = budget_80 ∷ logged.alerts }
          else logged
    ]
