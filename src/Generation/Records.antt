-- ===== src/Generation/Records.antt =====
-- libs/model-abstraction/src/contracts.ts: the requests and backends, with the tables and caches that a call of
-- a model reads and writes, and what answers it from outside (`World`).
use contents_factory.Common.{ℕ, Bool, Option, List, ◌==◌, nat_eq}
use contents_factory.Store.{Agent}
use contents_factory.Eligibility.{Text}

pub data Capability : Type 0 where
  image video voice music embedding : Capability

abbrev pub capability_no : Capability → ℕ
capability_no image = 0
capability_no video = 1
capability_no voice = 2
capability_no music = 3
capability_no embedding = 4

abbrev pub same_capability : Capability → Capability → Bool
same_capability a b = capability_no a == capability_no b

pub record GenRequest : Type 0 where
  pub prompt : Text
  pub aspect : Text
  pub duration_sec : Option ℕ
  pub source_asset_key : Option Text
  -- `String(req.seed ?? '')`
  pub seed : Text
  pub output_key : ℕ

pub record GenResult : Type 0 where
  pub storage_key : ℕ
  pub provider : ℕ
  pub cost_krw : ℕ
  -- of `meta`
  pub cache_hit : Bool
  pub cache_key : Option ℕ

pub record Backend : Type 0 where
  pub name : ℕ
  pub capability : Capability
  pub unit_cost_krw : ℕ
  -- whether it is an embedding backend, `isEmbeddingBackend`
  pub embeds : Bool

pub record RegistryEntry : Type 0 where
  pub priority : ℕ
  pub backend : Backend

pub record HealthCache : Type 0 where
  pub at : ℕ
  pub is_ok : Bool

pub record CostLog : Type 0 where
  pub agent_id : Option ℕ
  pub content_id : Option ℕ
  pub provider : ℕ
  pub cost_krw : ℕ
  pub occurred_at : ℕ

-- a row of generated_assets that `lookupCache` reads; the newest row comes first
pub record CachedAsset : Type 0 where
  pub cache_key : ℕ
  pub storage_key : ℕ
  pub provider : ℕ

pub data GenAlert : Type 0 where
  budget_exhausted budget_80 : GenAlert

pub record JobCtx : Type 0 where
  pub content_id : Option ℕ
  pub agent_id : Option ℕ
  pub max_cost_krw : Option ℕ

pub record GenDb : Type 0 where
  pub agents : List Agent
  pub cost_logs : List CostLog
  pub generated : List CachedAsset
  -- the registry's caches of health checks
  pub health : ℕ → Option HealthCache
  pub alerts : List GenAlert

-- `generate` and `embed` are what a call of the backend gives in time, `none` for an error or a timeout
pub record World : Type 0 where
  pub now : ℕ
  pub day_start : ℕ
  pub health_cache_ms : ℕ
  pub exists : ℕ → Bool
  pub healthy : ℕ → Bool
  pub generate : Backend → GenRequest → Option GenResult
  pub embed : Backend → ℕ → Option ℕ
  pub sha256 : Text → ℕ
