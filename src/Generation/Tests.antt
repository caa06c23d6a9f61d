-- ===== src/Generation/Tests.antt =====
-- Two backends, of which the cheaper one fails, and an agent with a budget for one call.
use contents_factory.Common.{
  Option, [], arith, false, if◌then◌else◌, length, nat_eq, none, refl, some, true, ◌==◌, ◌∷◌, ◌≡◌,
}
use contents_factory.Enums.{AgentLifecycle}
use contents_factory.Errors.{ErrorCode, app, app_error, err}
use contents_factory.Generation.{
  Backend, Capability, GenDb, GenRequest, GenResult, JobCtx, Registry, World, cache_key_of,
  call_backends, can_spend, chain_of, daily_budget, exceeds_budget, exhaust, generate, is_healthy,
  lookup_cache, record_cost, register, resolve, spent_since, try_chain,
}
use contents_factory.Generation.Budget.{Call, IsHonest, IsWithin, run_calls, run_calls-IsWithin}
use contents_factory.Store.{Agent}

abbrev cheap_image : Backend
cheap_image = record {
  name = 1;
  capability = Capability.image;
  unit_cost_krw = 100;
  embeds = false;
}

abbrev dear_image : Backend
dear_image = record { name = 2; capability = Capability.image; unit_cost_krw = 300; embeds = false }

-- the second backend is registered first, with the higher number
abbrev two_backends : Registry
two_backends = register cheap_image 10 (register dear_image 20 (λ c. []))

abbrev answer_of : Backend → GenRequest → Option GenResult
answer_of b req =
    if b.name == 1
    then none
    else some (record {
      storage_key = req.output_key;
      provider = b.name;
      cost_krw = b.unit_cost_krw;
      cache_hit = false;
      cache_key = none;
    })

-- the first backend fails, the second one answers
abbrev morning : World
morning = record {
  now = 90000000;
  day_start = 86400000;
  health_cache_ms = 30000;
  exists = λ key. true;
  healthy = λ name. true;
  generate = answer_of;
  embed = λ b key. none;
  sha256 = length;
}

abbrev portrait : GenRequest
portrait = record {
  prompt = b'p' ∷ [];
  aspect = b'1' ∷ [];
  duration_sec = none;
  source_asset_key = none;
  seed = [];
  output_key = 77;
}

abbrev by_agent : JobCtx
by_agent = record { content_id = some 4; agent_id = some 6; max_cost_krw = none }

abbrev agent_six : Agent
agent_six = record {
  id = 6;
  approval_level = 1;
  daily_budget = 500;
  lifecycle = AgentLifecycle.active;
}

abbrev unspent : GenDb
unspent = record {
  agents = agent_six ∷ [];
  cost_logs = [];
  generated = [];
  health = λ name. none;
  alerts = [];
}

abbrev call_one : Call
call_one = record {
  world = morning;
  capability = Capability.image;
  request = portrait;
  ctx = by_agent;
}

-- 300 of 500 won are spent: the second call is refused and the agent is paused
second_call_refused :
    (generate morning two_backends Capability.image portrait by_agent
      (run_calls two_backends (call_one ∷ []) unspent)).0
    ≡ err (app (app_error ErrorCode.agent_budget_exceeded))
unfolding generate call_backends resolve chain_of try_chain is_healthy can_spend exceeds_budget
    record_cost spent_since daily_budget lookup_cache cache_key_of register exhaust
second_call_refused = refl

answer_of-IsHonest : IsHonest morning
answer_of-IsHonest b req res e = ground (arith, e)

run_calls-IsWithin_example :
    IsWithin 86400000 6 (run_calls two_backends (call_one ∷ call_one ∷ []) unspent)
unfolding spent_since
run_calls-IsWithin_example =
    run_calls-IsWithin two_backends 86400000 6 (call_one ∷ call_one ∷ []) unspent
      ((refl, answer_of-IsHonest), ((refl, answer_of-IsHonest), tt)) (λ pos. omega arith)
