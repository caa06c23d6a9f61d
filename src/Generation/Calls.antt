-- ===== src/Generation/Calls.antt =====
-- What a call of `generate` has done, by how it ended.
use contents_factory.Common.{
  ℕ, ◌≡◌, refl, sym, ap, subst, ◌∙◌, ◌⊎◌, inl, inr, Bool, true, false, Option, none, some, List, [],
  ◌∷◌, ◌++◌, All, Bool-cases, Option-cases, is_empty,
}
use contents_factory.Errors.{ErrorCode, app, app_error, Result, ok, err}
use contents_factory.Generation.{
  Backend, GenDb, GenRequest, GenResult, JobCtx, World, CachedAsset, Registry, Capability,
  can_spend, exceeds_budget, exhaust, record_cost, cached_result, keyed_result, try_one, try_chain,
  try_resolved, generate, call_backends, chain_of, cache_key_of, lookup_cache, resolve,
}

module _ (w : World) (key : ℕ) (req : GenRequest) (ctx : JobCtx) where
  -- a backend that the budget allows and that fails
  abbrev pub IsFallenBack : GenDb → Backend → Type 0
  IsFallenBack db b =
      (exceeds_budget w ctx.agent_id b.unit_cost_krw db ≡ false) × (w.generate b req ≡ none)

  -- the first backend that did not fail answered, and its cost was recorded
  abbrev pub IsAnswered : GenDb → List Backend → Result GenResult × GenDb → Type 0
  IsAnswered db chain r =
      (failed : List Backend) × (b : Backend) × (rest : List Backend) × (res : GenResult) × (chain
        ≡ failed ++ b ∷ rest)
      × All (IsFallenBack db) failed
      × (exceeds_budget w ctx.agent_id b.unit_cost_krw db ≡ false)
      × (w.generate b req ≡ some res)
      × (r ≡ (ok (keyed_result key res), record_cost w ctx res.cost_krw res.provider db))

  -- the first backend that did not fail was too dear, and the agent was paused
  abbrev pub IsTooDear : GenDb → List Backend → Result GenResult × GenDb → Type 0
  IsTooDear db chain r =
      (failed : List Backend) × (b : Backend) × (rest : List Backend) × (agent_id : ℕ) × (chain
        ≡ failed ++ b ∷ rest)
      × All (IsFallenBack db) failed
      × (ctx.agent_id ≡ some agent_id)
      × (exceeds_budget w ctx.agent_id b.unit_cost_krw db ≡ true)
      × (r ≡ (err (app (app_error ErrorCode.agent_budget_exceeded)), exhaust agent_id db))

  -- every backend failed
  abbrev pub IsGivenUp : GenDb → List Backend → Result GenResult × GenDb → Type 0
  IsGivenUp db chain r =
      All (IsFallenBack db) chain × (r ≡ (err (app (app_error ErrorCode.backend_unavailable)), db))

  can_spend_more :
      (amount : ℕ) (db : GenDb)
      → exceeds_budget w ctx.agent_id amount db ≡ false
      → can_spend w ctx.agent_id amount db ≡ (true, db)
  unfolding can_spend exceeds_budget
  can_spend_more amount db h = go ctx.agent_id h
    where
      go :
          (agent : Option ℕ)
          → exceeds_budget w agent amount db ≡ false
          → can_spend w agent amount db ≡ (true, db)
      go none h' = refl
      go (some id) h' = rw (h', can_spend) refl

  can_spend_no_more :
      (amount : ℕ) (db : GenDb)
      → exceeds_budget w ctx.agent_id amount db ≡ true
      → (id : ℕ) × (ctx.agent_id ≡ some id)
        × (can_spend w ctx.agent_id amount db ≡ (false, exhaust id db))
  unfolding can_spend exceeds_budget
  can_spend_no_more amount db h = go ctx.agent_id h
    where
      go :
          (agent : Option ℕ)
          → exceeds_budget w agent amount db ≡ true
          → (id : ℕ) × (agent ≡ some id) × (can_spend w agent amount db ≡ (false, exhaust id db))
      go none h' = absurd (cc h')
      go (some id) h' = (id, refl, rw (h', can_spend) refl)

  abbrev pub IsTried : GenDb → List Backend → Result GenResult × GenDb → Type 0
  IsTried db chain r = IsAnswered db chain r ⊎ IsTooDear db chain r ⊎ IsGivenUp db chain r

  further :
      (db : GenDb) (b : Backend) (chain : List Backend) (r : Result GenResult × GenDb)
      → IsFallenBack db b
      → IsTried db chain r
      → IsTried db (b ∷ chain) r
  further db b chain r f (inl (failed, c, rest, res, split, h, cheap, answer, e)) =
      inl (b ∷ failed, c, rest, res, ap (b ∷◌) split, (f, h), cheap, answer, e)
  further db b chain r f (inr (inl (failed, c, rest, id, split, h, agent, dear, e))) =
      inr (inl (b ∷ failed, c, rest, id, ap (b ∷◌) split, (f, h), agent, dear, e))
  further db b chain r f (inr (inr (h, e))) = inr (inr ((f, h), e))

  pub try_chain-IsTried :
      (chain : List Backend) (db : GenDb) → IsTried db chain (try_chain w key req ctx chain db)
  unfolding try_chain
  try_chain-IsTried [] db = inr (inr (tt, refl))
  try_chain-IsTried (b ∷ chain) db =
      let later : GenDb → Result GenResult × GenDb = try_chain w key req ctx chain in
      let round : Bool × GenDb → Result GenResult × GenDb =
        λ checked. try_one w key req ctx b checked later in
      elim (Bool-cases (exceeds_budget w ctx.agent_id b.unit_cost_krw db)) [
        | inl dear ↦
            let (id, agent, spent) = can_spend_no_more b.unit_cost_krw db dear in
            inr (inl ([], b, chain, id, refl, tt, agent, dear, ap round spent))
        | inr cheap ↦
            let spent = ap round (can_spend_more b.unit_cost_krw db cheap) in
            elim (Option-cases (w.generate b req)) [
              | inr (res, answer) ↦
                  inl
                    ([], b, chain, res, refl, tt, cheap, answer, spent ∙ rw (answer, try_one) refl)
              | inl failed ↦
                  subst (IsTried db (b ∷ chain)) (sym (spent ∙ rw (failed, try_one) refl))
                    (further db b chain (later db) (cheap, failed) (try_chain-IsTried chain db))
            ]
      ]

resolve_cases :
    (w : World) (registry : Registry) (capability : Capability) (max_cost : Option ℕ) (db : GenDb)
    → ((resolve w registry capability max_cost db).0
        ≡ err (app (app_error ErrorCode.backend_unavailable)))
      ⊎ ((backends : List Backend) × ((resolve w registry capability max_cost db).0 ≡ ok backends))
unfolding resolve
resolve_cases w registry capability max_cost db =
    let found = (chain_of w max_cost (registry capability) db.health).0 in
    elim (Bool-cases (is_empty found)) [
      | inl empty ↦ inl (rw (empty, resolve) refl)
      | inr usable ↦ inr (found, rw (usable, resolve) refl)
    ]

-- how the part behind the cache ended
abbrev pub IsCalled :
    World → Registry → Capability → GenRequest → JobCtx → GenDb → Result GenResult × GenDb → Type 0
IsCalled w registry capability req ctx db r =
    let chain = resolve w registry capability ctx.max_cost_krw db in
    ((chain.0 ≡ err (app (app_error ErrorCode.backend_unavailable)))
      × (r ≡ (err (app (app_error ErrorCode.backend_unavailable)), chain.1)))
    ⊎ ((backends : List Backend) × (chain.0 ≡ ok backends)
        × IsTried w (cache_key_of w capability req) req ctx chain.1 backends r)

call_backends-IsCalled :
    (w : World) (registry : Registry) (capability : Capability) (req : GenRequest) (ctx : JobCtx)
    (db : GenDb)
    → IsCalled w registry capability req ctx db (call_backends w registry capability req ctx db)
unfolding call_backends
call_backends-IsCalled w registry capability req ctx db =
    let key = cache_key_of w capability req in
    let chain = resolve w registry capability ctx.max_cost_krw db in
    let after : Result (List Backend) → Result GenResult × GenDb =
      λ c. try_resolved w key req ctx c chain.1 in
    elim (resolve_cases w registry capability ctx.max_cost_krw db) [
      | inl unusable ↦ inl (unusable, ap after unusable)
      | inr (backends, usable) ↦ inr (
        backends,
        usable,
        subst (IsTried w key req ctx chain.1 backends) (sym (ap after usable))
            (try_chain-IsTried w key req ctx backends chain.1),
      )
    ]

-- no asset has the key, or the one that is found is gone from the storage
abbrev pub IsMissed : World → ℕ → GenDb → Type 0
IsMissed w key db =
    (lookup_cache key db ≡ none)
    ⊎ ((cached : CachedAsset) × (lookup_cache key db ≡ some cached)
        × (w.exists cached.storage_key ≡ false))

pub generate_outcome :
    (w : World) (registry : Registry) (capability : Capability) (req : GenRequest) (ctx : JobCtx)
    (db : GenDb)
    → let key = cache_key_of w capability req in
      let r = generate w registry capability req ctx db in
      ((cached : CachedAsset) × (lookup_cache key db ≡ some cached)
        × (w.exists cached.storage_key ≡ true)
        × (r ≡ (ok (cached_result key cached), db)))
      ⊎ (IsMissed w key db × IsCalled w registry capability req ctx db r)
unfolding generate
generate_outcome w registry capability req ctx db =
    let key = cache_key_of w capability req in
    let called = call_backends-IsCalled w registry capability req ctx db in
    elim (Option-cases (lookup_cache key db)) [
      | inl absent ↦ inr (
        inl absent,
        subst (IsCalled w registry capability req ctx db) (sym (rw (absent, generate) refl)) called,
      )
      | inr (cached, found) ↦ elim (Bool-cases (w.exists cached.storage_key)) [
        | inl there ↦ inl (cached, found, there, rw (found, there, generate) refl)
        | inr gone ↦ inr (
          inr (cached, found, gone),
          subst (IsCalled w registry capability req ctx db) (sym (rw (found, gone, generate) refl))
              called,
        )
      ]
    ]
