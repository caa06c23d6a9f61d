-- ===== src/Generation.antt =====
-- libs/model-abstraction/src/generation.service.ts, registry.service.ts and cost-guard.service.ts: the
-- chain of model backends, the calls of a chain in turn, and the budget that they draw on. What the
-- backends, the storage and the clock answer while a call lasts is the record `World`; a provider, a
-- storage key and a prompt's hash are numbers, costs are whole won.
mod Records
mod Backends
mod CostGuard
pub mod Calls
pub mod Budget
mod Tests
pub use Records.*
unfoldable pub use Backends.*
unfoldable pub use CostGuard.*
use contents_factory.Common.{
  ℕ, zero, suc, ◌+◌, ◌-◌, ◌*◌, ◌/◌, Bool, true, false, not, Option, none, some, List, [], ◌∷◌, ◌++◌,
  ◌&&◌, ◌||◌, ◌==◌, nat_eq, ltb, leb, if◌then◌else◌, find, filter, get_or, is_empty, map,
}
use contents_factory.Enums.{AgentLifecycle}
use contents_factory.Errors.{
  ErrorCode, Thrown, app, app_error, default_failure_class, Result, ok, err,
}
use contents_factory.Store.{Agent, update}
use contents_factory.Eligibility.{Text}

abbrev pub capability_text : Capability → Text
capability_text image = b'i' ∷ b'm' ∷ b'a' ∷ b'g' ∷ b'e' ∷ []
capability_text video = b'v' ∷ b'i' ∷ b'd' ∷ b'e' ∷ b'o' ∷ []
capability_text voice = b'v' ∷ b'o' ∷ b'i' ∷ b'c' ∷ b'e' ∷ []
capability_text music = b'm' ∷ b'u' ∷ b's' ∷ b'i' ∷ b'c' ∷ []
capability_text embedding = b'e' ∷ b'm' ∷ b'b' ∷ b'e' ∷ b'd' ∷ b'd' ∷ b'i' ∷ b'n' ∷ b'g' ∷ []

-- `join('|')`
abbrev pub join_bar : List Text → Text
join_bar [] = []
join_bar (t ∷ []) = t
join_bar (t ∷ u ∷ texts) = t ++ b'|' ∷ join_bar (u ∷ texts)

-- no caller gives a model version
unfoldable pub cache_key_of : World → Capability → GenRequest → ℕ
cache_key_of w capability req = w.sha256 (
    join_bar (
      capability_text capability
      ∷ []
      ∷ req.prompt
      ∷ get_or req.source_asset_key []
      ∷ req.aspect
      ∷ req.seed
      ∷ []))

unfoldable pub lookup_cache : ℕ → GenDb → Option CachedAsset
lookup_cache key db = find (λ g. g.cache_key == key) db.generated

abbrev pub cached_result : ℕ → CachedAsset → GenResult
cached_result key cached = record {
  storage_key = cached.storage_key;
  provider = cached.provider;
  cost_krw = 0;
  cache_hit = true;
  cache_key = some key;
}

abbrev pub keyed_result : ℕ → GenResult → GenResult
keyed_result key res = record {
  storage_key = res.storage_key;
  provider = res.provider;
  cost_krw = res.cost_krw;
  cache_hit = res.cache_hit;
  cache_key = some key;
}

-- one round of the loop over the chain: `checked` is the answer of the cost guard, `later` the rest
abbrev pub try_one :
    World
    → ℕ
    → GenRequest
    → JobCtx
    → Backend
    → Bool × GenDb
    → (GenDb → Result GenResult × GenDb)
    → Result GenResult × GenDb
try_one w key req ctx backend (false, db) later =
    (err (app (app_error ErrorCode.agent_budget_exceeded)), db)
try_one w key req ctx backend (true, db) later = elim (w.generate backend req) [
  | some res ↦ (ok (keyed_result key res), record_cost w ctx res.cost_krw res.provider db)
  | none ↦ later db
]

unfoldable pub try_chain :
    World → ℕ → GenRequest → JobCtx → List Backend → GenDb → Result GenResult × GenDb
unfolding can_spend record_cost
try_chain w key req ctx [] db = (err (app (app_error ErrorCode.backend_unavailable)), db)
try_chain w key req ctx (backend ∷ chain) db =
    try_one w key req ctx backend (can_spend w ctx.agent_id backend.unit_cost_krw db)
      (λ d. try_chain w key req ctx chain d)

abbrev pub try_resolved :
    World → ℕ → GenRequest → JobCtx → Result (List Backend) → GenDb → Result GenResult × GenDb
try_resolved w key req ctx (err e) db = (err e, db)
try_resolved w key req ctx (ok chain) db = try_chain w key req ctx chain db

-- the part behind the cache
unfoldable pub call_backends :
    World → Registry → Capability → GenRequest → JobCtx → GenDb → Result GenResult × GenDb
unfolding cache_key_of resolve try_chain
call_backends w registry capability req ctx db =
    let chain = resolve w registry capability ctx.max_cost_krw db in
    try_resolved w (cache_key_of w capability req) req ctx chain.0 chain.1

unfoldable pub generate :
    World → Registry → Capability → GenRequest → JobCtx → GenDb → Result GenResult × GenDb
unfolding lookup_cache call_backends
generate w registry capability req ctx db =
    let key = cache_key_of w capability req in
    elim (lookup_cache key db) [
      | none ↦ call_backends w registry capability req ctx db
      | some cached ↦
          if w.exists cached.storage_key
          then (ok (cached_result key cached), db)
          else call_backends w registry capability req ctx db
    ]

unfoldable pub try_embed : World → ℕ → JobCtx → List Backend → GenDb → Result ℕ × GenDb
unfolding record_cost
try_embed w storage_key ctx [] db = (err (app (app_error ErrorCode.backend_unavailable)), db)
try_embed w storage_key ctx (backend ∷ chain) db =
    let later = try_embed w storage_key ctx chain db in
    if backend.embeds
    then elim (w.embed backend storage_key) [
      | some vec ↦ (ok vec, record_cost w ctx backend.unit_cost_krw backend.name db)
      | none ↦ later
    ]
    else later

-- the budget is not looked at
unfoldable pub embed : World → Registry → ℕ → JobCtx → GenDb → Result ℕ × GenDb
unfolding resolve try_embed
embed w registry storage_key ctx db =
    let chain = resolve w registry embedding none db in
    elim chain.0 [
      | err e ↦ (err e, chain.1)
      | ok backends ↦ try_embed w storage_key ctx backends chain.1
    ]
