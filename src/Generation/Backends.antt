-- ===== src/Generation/Backends.antt =====
-- libs/model-abstraction/src/registry.service.ts: the backends of a capability, in the order of their priorities,
-- and the usable ones among them. The registry keeps the answer of a health check for a while.
use contents_factory.Common.{
  ℕ, ◌-◌, Bool, true, not, Option, none, some, List, [], ◌∷◌, ◌==◌, nat_eq, ltb, leb, if◌then◌else◌,
  is_empty,
}
use contents_factory.Errors.{ErrorCode, app, app_error, Result, ok, err}
use contents_factory.Generation.Records.{
  Capability, same_capability, Backend, RegistryEntry, HealthCache, GenDb, World,
}

-- `list.sort((a, b) => a.priority - b.priority)` of a sorted list with a new last entry
abbrev pub insert_entry : RegistryEntry → List RegistryEntry → List RegistryEntry
insert_entry e [] = e ∷ []
insert_entry e (f ∷ entries) =
    if ltb e.priority f.priority then e ∷ f ∷ entries else f ∷ insert_entry e entries

-- the entries of one capability, `backends.get(capability) ?? []`
abbrev pub Registry : Type 0
Registry = Capability → List RegistryEntry

unfoldable pub register : Backend → ℕ → Registry → Registry
register backend priority registry = λ c.
    if same_capability c backend.capability
    then insert_entry (record { priority = priority; backend = backend }) (registry c)
    else registry c

abbrev pub set_health : ℕ → HealthCache → (ℕ → Option HealthCache) → ℕ → Option HealthCache
set_health name h health = λ k. if k == name then some h else health k

-- the cached answer of a health check, while it is fresh
abbrev pub fresh_health : World → Option HealthCache → Option Bool
fresh_health w none = none
fresh_health w (some h) = if ltb (w.now - h.at) w.health_cache_ms then some h.is_ok else none

unfoldable pub is_healthy :
    World → Backend → (ℕ → Option HealthCache) → Bool × (ℕ → Option HealthCache)
is_healthy w backend health = elim (fresh_health w (health backend.name)) [
  | some answer ↦ (answer, health)
  | none ↦ (
    w.healthy backend.name,
    set_health backend.name (record { at = w.now; is_ok = w.healthy backend.name }) health,
  )
]

abbrev pub is_affordable : Option ℕ → Backend → Bool
is_affordable none backend = true
is_affordable (some max_cost) backend = leb backend.unit_cost_krw max_cost

-- the loop of `resolve`
unfoldable pub chain_of :
    World
    → Option ℕ
    → List RegistryEntry
    → (ℕ → Option HealthCache)
    → List Backend × (ℕ → Option HealthCache)
unfolding is_healthy
chain_of w max_cost [] health = ([], health)
chain_of w max_cost (e ∷ entries) health =
    let checked = is_healthy w e.backend health in
    let skipped = chain_of w max_cost entries health in
    let rest = chain_of w max_cost entries checked.1 in
    if not (is_affordable max_cost e.backend)
    then skipped
    else (if checked.0 then e.backend ∷ rest.0 else rest.0, rest.1)

abbrev pub put_health : (ℕ → Option HealthCache) → GenDb → GenDb
put_health health db = record db { health = health }

unfoldable pub resolve :
    World → Registry → Capability → Option ℕ → GenDb → Result (List Backend) × GenDb
unfolding chain_of
resolve w registry capability max_cost db =
    let found = chain_of w max_cost (registry capability) db.health in
    (
      if is_empty found.0 then err (app (app_error ErrorCode.backend_unavailable)) else ok found.0,
      put_health found.1 db,
    )
