-- ===== src/Identity.antt =====
-- apps/worker/src/generation/identity.service.ts: the verification of a generated asset against the artist's
-- references, with its retries. Embeddings are numbers, and the mean of the three best similarities between the
-- references and an embedding is an input, in millionths. A guidance is counted in hundredths.
pub mod Attempts
mod Tests
use contents_factory.Common.{
  ℕ, zero, suc, ◌+◌, ◌/◌, ◌%◌, min, Bool, Option, none, some, List, [], ◌∷◌, ◌++◌, ◌&&◌, ◌==◌,
  nat_eq, leb, if◌then◌else◌,
}
use contents_factory.Errors.{ErrorCode, Thrown, app, app_error, Result, ok, err}
use contents_factory.Eligibility.{Text}
use contents_factory.Generation.{
  Capability, GenRequest, GenResult, JobCtx, GenDb, World, Registry, generate, embed,
}

pub record IdentityConfig : Type 0 where
  pub threshold : ℕ
  pub margin : ℕ
  pub max_retry : ℕ

pub data IdentityFlag : Type 0 where
  no_reference borderline_accepted : IdentityFlag

pub record Verified : Type 0 where
  pub result : GenResult
  pub identity_score : Option ℕ
  pub identity_flag : Option IdentityFlag

-- what the vectors' similarity and the texts of storage keys give
pub record Measures : Type 0 where
  pub similarity : List ℕ → ℕ → ℕ
  pub retry_key : ℕ → ℕ → ℕ

abbrev pub Outcome : Type 0 → Type 0
Outcome A = Result A × GenDb

abbrev pub then_with : {A B : Type 0} → Outcome A → (A → GenDb → Outcome B) → Outcome B
then_with (ok a, db) f = f a db
then_with (err e, db) f = (err e, db)

-- `identityVectors`, one after the other
unfoldable pub identity_vectors : World → Registry → JobCtx → List ℕ → GenDb → Outcome (List ℕ)
identity_vectors w registry ctx [] db = (ok [], db)
identity_vectors w registry ctx (key ∷ keys) db =
    then_with (embed w registry key ctx db) (λ vec after.
      then_with (identity_vectors w registry ctx keys after) (λ vecs last. (ok (vec ∷ vecs), last)))

abbrev pub next_guidance : ℕ → ℕ
next_guidance guidance = min (guidance + 25) 200

-- `guidance.toFixed(2)`
abbrev pub guidance_text : ℕ → Text
guidance_text g = (b'0' + g / 100) ∷ b'.' ∷ (b'0' + g / 10 % 10) ∷ (b'0' + g % 10) ∷ []

-- the request of the next attempt
unfoldable pub retry_request : Measures → GenRequest → GenRequest → ℕ → ℕ → GenRequest
retry_request m initial req guidance attempt = record req {
  seed = [];
  prompt =
      initial.prompt
      ++ b' ' ∷ b'[' ∷ b'i' ∷ b'd' ∷ b'e' ∷ b'n' ∷ b't' ∷ b'i' ∷ b't' ∷ b'y' ∷ b'_' ∷ b'g' ∷ b'u'
        ∷ b'i' ∷ b'd' ∷ b'a' ∷ b'n' ∷ b'c' ∷ b'e' ∷ b'=' ∷ []
      ++ guidance_text guidance
      ++ b']' ∷ [];
  output_key = m.retry_key initial.output_key (attempt + 1);
}

abbrev pub rejected : Thrown
rejected = app (app_error ErrorCode.identity_rejected)

-- one round of the loop behind its calls: `later` is the rest
abbrev pub judge :
    IdentityConfig → ℕ → ℕ → GenResult → (GenDb → Outcome Verified) → GenDb → Outcome Verified
judge cfg attempt score res later db =
    if leb (cfg.threshold + cfg.margin) score
    then (ok (record { result = res; identity_score = some score; identity_flag = none }), db)
    else if leb cfg.threshold score && attempt == cfg.max_retry
    then (
      ok (record {
        result = res;
        identity_score = some score;
        identity_flag = some borderline_accepted;
      }),
      db,
    )
    else later db

-- the loop, with the number of the attempts that are left
unfoldable pub try_attempts :
    World
    → Registry
    → Measures
    → IdentityConfig
    → Capability
    → GenRequest
    → JobCtx
    → List ℕ
    → ℕ
    → ℕ
    → ℕ
    → GenRequest
    → GenDb
    → Outcome Verified
unfolding retry_request
try_attempts w registry m cfg capability initial ctx refs zero attempt guidance req db =
    (err rejected, db)
try_attempts w registry m cfg capability initial ctx refs (suc left) attempt guidance req db =
    let raised = next_guidance guidance in
    then_with (generate w registry capability req ctx db) (λ res made.
      then_with (embed w registry res.storage_key ctx made) (λ vec.
        judge cfg attempt (m.similarity refs vec) res (
          try_attempts w registry m cfg capability initial ctx refs left (suc attempt) raised
            (retry_request m initial req raised attempt))))

-- `verifyAndRegenerate` behind the embeddings of the references
unfoldable pub verify_with :
    World
    → Registry
    → Measures
    → IdentityConfig
    → Capability
    → GenRequest
    → JobCtx
    → List ℕ
    → GenDb
    → Outcome Verified
unfolding try_attempts
verify_with w registry m cfg capability initial ctx [] db =
    then_with (generate w registry capability initial ctx db) (λ res made. (
      ok (record { result = res; identity_score = none; identity_flag = some no_reference }),
      made,
    ))
verify_with w registry m cfg capability initial ctx (ref ∷ refs) db =
    try_attempts w registry m cfg capability initial ctx (ref ∷ refs) cfg.max_retry 1 100 initial db

unfoldable pub verify_and_regenerate :
    World
    → Registry
    → Measures
    → IdentityConfig
    → List ℕ
    → Capability
    → GenRequest
    → JobCtx
    → GenDb
    → Outcome Verified
unfolding identity_vectors verify_with
verify_and_regenerate w registry m cfg ref_keys capability initial ctx db =
    then_with (identity_vectors w registry ctx ref_keys db)
      (λ refs. verify_with w registry m cfg capability initial ctx refs)
