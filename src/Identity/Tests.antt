-- ===== src/Identity/Tests.antt =====
-- One backend for images and one for embeddings, and two attempts.
use contents_factory.Common.{
  List, Option, [], false, length, nat_eq, none, refl, some, true, ℕ, ◌*◌, ◌+◌, ◌∷◌, ◌≡◌, ◌≢◌, ◌⊎◌,
}
use contents_factory.Errors.{Thrown, err, ok}
use contents_factory.Generation.{
  Backend, Capability, GenDb, GenRequest, GenResult, JobCtx, Registry, World, embed, generate,
  register,
}
use contents_factory.Identity.{
  IdentityConfig, IdentityFlag, Measures, identity_vectors, verify_and_regenerate,
}
use contents_factory.Identity.Attempts.{IsDecided, verify_outcome}

abbrev painter : Backend
painter = record { name = 1; capability = Capability.image; unit_cost_krw = 100; embeds = false }

abbrev embedder : Backend
embedder = record { name = 2; capability = Capability.embedding; unit_cost_krw = 5; embeds = true }

abbrev backends : Registry
backends = register painter 10 (register embedder 10 (λ c. []))

abbrev painted : Backend → GenRequest → Option GenResult
painted b req = some (record {
  storage_key = req.output_key;
  provider = b.name;
  cost_krw = b.unit_cost_krw;
  cache_hit = false;
  cache_key = none;
})

abbrev studio : World
studio = record {
  now = 90000000;
  day_start = 86400000;
  health_cache_ms = 30000;
  exists = λ key. true;
  healthy = λ name. true;
  generate = painted;
  embed = λ b key. some key;
  sha256 = length;
}

-- an embedding is the storage key, which grows with the attempts, and so does the similarity
abbrev growing : Measures
growing = record {
  similarity = λ refs vec. vec;
  retry_key = λ key attempt. 760000 + 20000 * attempt;
}

abbrev two_tries : IdentityConfig
two_tries = record { threshold = 800000; margin = 20000; max_retry = 2 }

abbrev portrait : GenRequest
portrait = record {
  prompt = b'p' ∷ [];
  aspect = b'1' ∷ [];
  duration_sec = none;
  source_asset_key = none;
  seed = [];
  output_key = 780000;
}

abbrev by_agent : JobCtx
by_agent = record { content_id = some 4; agent_id = none; max_cost_krw = none }

abbrev empty_db : GenDb
empty_db = record {
  agents = [];
  cost_logs = [];
  generated = [];
  health = λ name. none;
  alerts = [];
}

abbrev one_key : List ℕ
one_key = 5 ∷ []

-- the second attempt reaches the threshold without the margin, and is the last
accepted_last :
    (verify_and_regenerate studio backends growing two_tries one_key Capability.image portrait
      by_agent empty_db).0
    ≡ ok (record {
      result = record {
        storage_key = 800000;
        provider = 1;
        cost_krw = 100;
        cache_hit = false;
        cache_key = some 37;
      };
      identity_score = some 800000;
      identity_flag = some IdentityFlag.borderline_accepted;
    })
unfolding verify_and_regenerate embed register generate
accepted_last = refl

verify_outcome_example :
    let r =
      verify_and_regenerate studio backends growing two_tries one_key Capability.image portrait
        by_agent empty_db in
    ((one_key ≡ [])
      × (((e : Thrown) × (made : GenDb) × (generate studio backends Capability.image portrait
                by_agent empty_db
              ≡ (err e, made))
            × (r ≡ (err e, made)))
          ⊎ ((res : GenResult) × (made : GenDb) × (generate studio backends Capability.image
                  portrait by_agent empty_db
                ≡ (ok res, made))
              × (r ≡ (
                ok (record {
                  result = res;
                  identity_score = none;
                  identity_flag = some IdentityFlag.no_reference;
                }),
                made,
              )))))
    ⊎ ((one_key ≢ [])
        × (((e : Thrown) × (after : GenDb) × (identity_vectors studio backends by_agent one_key
                  empty_db
                ≡ (err e, after))
              × (r ≡ (err e, after)))
            ⊎ ((refs : List ℕ) × (after : GenDb) × (identity_vectors studio backends by_agent
                    one_key empty_db
                  ≡ (ok refs, after))
                × IsDecided studio backends growing two_tries Capability.image by_agent portrait
                    refs two_tries.max_retry 1 100 portrait after r)))
verify_outcome_example =
    verify_outcome studio backends growing two_tries (Capability.image) by_agent one_key portrait
      empty_db
