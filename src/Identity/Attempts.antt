-- ===== src/Identity/Attempts.antt =====
-- How the attempts of the verification end: the calls that were made one after the other, and what the last
-- of them came to.
use contents_factory.Common.{
  ℕ, zero, suc, ◌+◌, ◌≤◌, ◌<◌, ◌≡◌, ◌≢◌, refl, sym, ap, subst, ◌∙◌, ◌⊎◌, inl, inr, none, some, List,
  [], ◌∷◌, arith, ◌==◌, ◌&&◌, nat_eq, nat_beq_iff, leb, length, Bool-cases,
}
use contents_factory.Errors.{Thrown, ok, err}
use contents_factory.Generation.{
  Capability, GenRequest, GenResult, JobCtx, GenDb, World, Registry, generate, embed,
}
use contents_factory.Identity.{
  IdentityConfig, IdentityFlag, Verified, Measures, Outcome, then_with, identity_vectors,
  next_guidance, retry_request, rejected, judge, try_attempts, verify_with, verify_and_regenerate,
}

outcome_cases :
    {A : Type 0} (r : Outcome A)
    → ((a : A) × (db : GenDb) × (r ≡ (ok a, db)))
      ⊎ ((e : Thrown) × (db : GenDb) × (r ≡ (err e, db)))
outcome_cases (ok a, db) = inl (a, db, refl)
outcome_cases (err e, db) = inr (e, db, refl)

module _ (w : World) (registry : Registry) (m : Measures) (cfg : IdentityConfig)
    (capability : Capability) (ctx : JobCtx) where
  -- a request in a state was generated and embedded, which left the state `after`, and its similarity is `s`
  abbrev pub IsMeasured : List ℕ → GenRequest → GenDb → GenResult → ℕ → GenDb → Type 0
  IsMeasured refs req db res s after =
      (vec : ℕ) × (made : GenDb) × (generate w registry capability req ctx db ≡ (ok res, made))
      × (embed w registry res.storage_key ctx made ≡ (ok vec, after))
      × (s ≡ m.similarity refs vec)

  -- the last of the scores is below the threshold
  abbrev pub IsBelow : List ℕ → Type 0
  IsBelow [] = Unit
  IsBelow (s ∷ []) = s < cfg.threshold
  IsBelow (s ∷ t ∷ scores) = IsBelow (t ∷ scores)

  -- How the verification ends at a request and a state, after the attempts with these scores, of `most`
  -- in all: the generation or the embedding throws; the score reaches the threshold with its margin; it
  -- reaches the threshold only, in the last attempt; or no attempt is left, and the last score was below
  -- the threshold.
  abbrev pub IsEnding : List ℕ → ℕ → Outcome Verified → List ℕ → GenRequest → GenDb → Type 0
  IsEnding refs most r scores req db =
      ((e : Thrown) × (made : GenDb) × (generate w registry capability req ctx db ≡ (err e, made))
        × (length scores < most)
        × (r ≡ (err e, made)))
      ⊎ ((res : GenResult) × (made : GenDb) × (e : Thrown) × (after : GenDb) × (generate w registry
              capability req ctx db
            ≡ (ok res, made))
          × (embed w registry res.storage_key ctx made ≡ (err e, after))
          × (length scores < most)
          × (r ≡ (err e, after)))
      ⊎ ((res : GenResult) × (s : ℕ) × (after : GenDb) × IsMeasured refs req db res s after
          × (cfg.threshold + cfg.margin ≤ s)
          × (length scores < most)
          × (r ≡ (
            ok (record { result = res; identity_score = some s; identity_flag = none }),
            after,
          )))
      ⊎ ((res : GenResult) × (s : ℕ) × (after : GenDb) × IsMeasured refs req db res s after
          × (cfg.threshold ≤ s)
          × (s < cfg.threshold + cfg.margin)
          × (suc (length scores) ≡ most)
          × (r ≡ (
            ok (record {
              result = res;
              identity_score = some s;
              identity_flag = some IdentityFlag.borderline_accepted;
            }),
            after,
          )))
      ⊎ ((length scores ≡ most) × IsBelow scores × (r ≡ (err rejected, db)))

  module _ (initial : GenRequest) (refs : List ℕ) where
    -- Successive attempts had these scores, each below the threshold with its margin; `End` holds of the
    -- request and the state that they led to.
    abbrev pub After : List ℕ → ℕ → ℕ → GenRequest → GenDb → (GenRequest → GenDb → Type 0) → Type 0
    After [] attempt guidance req db End = End req db
    After (s ∷ scores) attempt guidance req db End =
        (res : GenResult) × (after : GenDb) × IsMeasured refs req db res s after
        × (s < cfg.threshold + cfg.margin)
        × After scores (suc attempt) (next_guidance guidance)
            (retry_request m initial req (next_guidance guidance) attempt) after End

    After-weaken :
        (scores : List ℕ) (attempt guidance : ℕ) (req : GenRequest) (db : GenDb)
        (P Q : GenRequest → GenDb → Type 0)
        → ((q : GenRequest) (d : GenDb) → P q d → Q q d)
        → After scores attempt guidance req db P
        → After scores attempt guidance req db Q
    After-weaken [] attempt guidance req db P Q f h = f req db h
    After-weaken (s ∷ scores) attempt guidance req db P Q f (res, after, q, low, h) = (
      res,
      after,
      q,
      low,
      After-weaken scores (suc attempt) (next_guidance guidance)
          (retry_request m initial req (next_guidance guidance) attempt) after P Q f h,
    )

    abbrev pub IsDecided : ℕ → ℕ → ℕ → GenRequest → GenDb → Outcome Verified → Type 0
    IsDecided left attempt guidance req db r =
        (scores : List ℕ) × After scores attempt guidance req db (IsEnding refs left r scores)

    longer :
        (left s : ℕ) (r : Outcome Verified) (scores : List ℕ)
        → (left ≡ 0 → s < cfg.threshold)
        → (q : GenRequest) (d : GenDb) → IsEnding refs left r scores q d
        → IsEnding refs (suc left) r (s ∷ scores) q d
    longer left s r scores end q d (inl (e, made, thrown, few, h)) =
        inl (e, made, thrown, omega (arith, few), h)
    longer left s r scores end q d (inr (inl (res, made, e, after, given, thrown, few, h))) =
        inr (inl (res, made, e, after, given, thrown, omega (arith, few), h))
    longer left s r scores end q d (inr (inr (inl (res, t, after, p, le, few, h)))) =
        inr (inr (inl (res, t, after, p, le, omega (arith, few), h)))
    longer left s r scores end q d (inr (inr (inr (inl (res, t, after, p, le, lt, last, h))))) =
        inr (inr (inr (inl (res, t, after, p, le, lt, ap suc last, h))))
    longer left s r [] end q d (inr (inr (inr (inr (many, low, h))))) =
        inr (inr (inr (inr (ap suc many, end (sym many), h))))
    longer left s r (t ∷ scores) end q d (inr (inr (inr (inr (many, low, h))))) =
        inr (inr (inr (inr (ap suc many, low, h))))

    judged :
        (left attempt guidance s : ℕ) (req : GenRequest) (db : GenDb) (res : GenResult)
        (later : GenDb → Outcome Verified) (after : GenDb)
        → attempt + suc left ≡ suc cfg.max_retry
        → IsMeasured refs req db res s after
        → IsDecided left
            (suc attempt)
            (next_guidance guidance)
            (retry_request m initial req (next_guidance guidance) attempt)
            after
            (later after)
        → IsDecided (suc left) attempt guidance req db (judge cfg attempt s res later after)
    judged left attempt guidance s req db res later after count q (scores, h) =
        elim (Bool-cases (leb (cfg.threshold + cfg.margin) s)) [
          | inl good ↦
              ([], inr (inr (inl (res, s, after, q, ground arith, omega arith, rw good refl))))
          | inr doubtful ↦
              let below : s < cfg.threshold + cfg.margin = ground arith in
              elim (Bool-cases (leb cfg.threshold s && attempt == cfg.max_retry)) [
                | inl last ↦
                    let end : attempt ≡ cfg.max_retry =
                      ground (arith, nat_beq_iff attempt cfg.max_retry) in
                    (
                      [],
                      inr (
                          inr (
                            inr (
                              inl (
                                res,
                                s,
                                after,
                                q,
                                ground arith,
                                below,
                                omega (arith, count, end),
                                rw (doubtful, last) refl,
                              )))),
                    )
                | inr more ↦
                    let low : left ≡ 0 → s < cfg.threshold = λ none_left.
                      let end : attempt ≡ cfg.max_retry = omega (arith, count, none_left) in
                      ground (arith, (nat_beq_iff attempt cfg.max_retry).1 end) in
                    let raised = next_guidance guidance in
                    rw (doubtful, more)
                      (
                        s ∷ scores,
                        (
                          res,
                          after,
                          q,
                          below,
                          After-weaken scores (suc attempt) raised
                              (retry_request m initial req raised attempt) after
                              (IsEnding refs left (later after) scores)
                              (IsEnding refs (suc left) (later after) (s ∷ scores))
                              (longer left s (later after) scores low) h,
                        ),
                      )
              ]
        ]

    try_attempts-IsDecided :
        (left attempt guidance : ℕ) (req : GenRequest) (db : GenDb)
        → attempt + left ≡ suc cfg.max_retry
        → IsDecided left attempt guidance req db
            (try_attempts w registry m cfg capability initial ctx refs left attempt guidance req db)
    unfolding try_attempts
    try_attempts-IsDecided zero attempt guidance req db count =
        ([], inr (inr (inr (inr (refl, tt, refl)))))
    try_attempts-IsDecided (suc left) attempt guidance req db count =
        let raised = next_guidance guidance in
        let rest : GenDb → Outcome Verified =
          try_attempts w registry m cfg capability initial ctx refs left (suc attempt) raised
            (retry_request m initial req raised attempt) in
        let measured : GenResult → ℕ → GenDb → Outcome Verified =
          λ res vec. judge cfg attempt (m.similarity refs vec) res rest in
        let calls : GenResult → GenDb → Outcome Verified =
          λ res made. then_with (embed w registry res.storage_key ctx made) (measured res) in
        let Ends : Outcome Verified → Type 0 = IsDecided (suc left) attempt guidance req db in
        elim (outcome_cases (generate w registry capability req ctx db)) [
          | inr (e, made, thrown) ↦
              subst Ends (sym (ap (λ o. then_with o calls) thrown))
                ([], inl (e, made, thrown, omega arith, refl))
          | inl (res, made, given) ↦
              subst Ends (sym (ap (λ o. then_with o calls) given))
                (elim (outcome_cases (embed w registry res.storage_key ctx made)) [
                  | inr (e, after, thrown) ↦
                      subst Ends (sym (ap (λ o. then_with o (measured res)) thrown))
                        ([], inr (inl (res, made, e, after, given, thrown, omega arith, refl)))
                  | inl (vec, after, embedded) ↦
                      subst Ends (sym (ap (λ o. then_with o (measured res)) embedded)) (
                        judged left attempt guidance (m.similarity refs vec) req db res rest after
                          count (vec, made, given, embedded, refl)
                          (try_attempts-IsDecided left (suc attempt) raised
                            (retry_request m initial req raised attempt) after
                            (omega (arith, count))))
                ])
        ]

  length-identity_vectors :
      (keys : List ℕ) (db : GenDb) {refs : List ℕ} {after : GenDb}
      → identity_vectors w registry ctx keys db ≡ (ok refs, after)
      → length refs ≡ length keys
  unfolding identity_vectors
  length-identity_vectors [] db h = ground arith
  length-identity_vectors (key ∷ keys) db {refs = refs} {after = last} h =
      let grown : ℕ → List ℕ → GenDb → Outcome (List ℕ) = λ vec vecs end. (ok (vec ∷ vecs), end) in
      let rest : ℕ → GenDb → Outcome (List ℕ) =
        λ vec after. then_with (identity_vectors w registry ctx keys after) (grown vec) in
      elim (outcome_cases (embed w registry key ctx db)) [
        | inr (e, after, thrown) ↦
            let clash : ◌≡◌ {A = Outcome (List ℕ)} (err e, after) (ok refs, last) =
              sym (ap (λ o. then_with o rest) thrown) ∙ h in
            absurd (ground arith)
        | inl (vec, after, embedded) ↦
            elim (outcome_cases (identity_vectors w registry ctx keys after)) [
              | inr (e, end, thrown) ↦
                  let clash : ◌≡◌ {A = Outcome (List ℕ)} (err e, end) (ok refs, last) =
                    sym (
                      ap (λ o. then_with o rest) embedded
                      ∙ ap (λ o. then_with o (grown vec)) thrown)
                    ∙ h in
                  absurd (ground arith)
              | inl (vecs, end, found) ↦
                  let same : ◌≡◌ {A = Outcome (List ℕ)} (ok (vec ∷ vecs), end) (ok refs, last) =
                    sym (
                      ap (λ o. then_with o rest) embedded ∙ ap (λ o. then_with o (grown vec)) found)
                    ∙ h in
                  let many = length-identity_vectors keys after found in ground (arith, many)
            ]
      ]

  -- Without references the first generation is returned, flagged and without a score, or what it throws. With
  -- references, what their embedding throws is thrown on. Else at most `max_retry` attempts follow on one another,
  -- each with the state and the raised guidance that the one before it left, and as long as their
  -- similarities stay below the threshold with its margin. What a call throws is thrown on; a result is returned
  -- when its own similarity reaches the threshold with its margin, or in the last attempt the threshold
  -- alone, which is flagged; and it is rejected when no attempt is left.
  pub verify_outcome :
      (ref_keys : List ℕ) (initial : GenRequest) (db : GenDb)
      → let r = verify_and_regenerate w registry m cfg ref_keys capability initial ctx db in
        ((ref_keys ≡ [])
          × (((e : Thrown) × (made : GenDb) × (generate w registry capability initial ctx db
                  ≡ (err e, made))
                × (r ≡ (err e, made)))
              ⊎ ((res : GenResult) × (made : GenDb) × (generate w registry capability initial ctx db
                    ≡ (ok res, made))
                  × (r ≡ (
                    ok (record {
                      result = res;
                      identity_score = none;
                      identity_flag = some IdentityFlag.no_reference;
                    }),
                    made,
                  )))))
        ⊎ ((ref_keys ≢ [])
            × (((e : Thrown) × (after : GenDb) × (identity_vectors w registry ctx ref_keys db
                    ≡ (err e, after))
                  × (r ≡ (err e, after)))
                ⊎ ((refs : List ℕ) × (after : GenDb) × (identity_vectors w registry ctx ref_keys db
                      ≡ (ok refs, after))
                    × IsDecided initial refs cfg.max_retry 1 100 initial after r)))
  unfolding verify_and_regenerate verify_with identity_vectors
  verify_outcome [] initial db =
      let returned : GenResult → GenDb → Outcome Verified = λ res made. (
        ok (record {
          result = res;
          identity_score = none;
          identity_flag = some IdentityFlag.no_reference;
        }),
        made,
      ) in
      elim (outcome_cases (generate w registry capability initial ctx db)) [
        | inr (e, made, thrown) ↦
            inl (refl, inl (e, made, thrown, ap (λ o. then_with o returned) thrown))
        | inl (res, made, given) ↦
            inl (refl, inr (res, made, given, ap (λ o. then_with o returned) given))
      ]
  verify_outcome (key ∷ keys) initial db =
      let verified : List ℕ → GenDb → Outcome Verified =
        λ refs. verify_with w registry m cfg capability initial ctx refs in
      elim (outcome_cases (identity_vectors w registry ctx (key ∷ keys) db)) [
        | inr (e, after, thrown) ↦
            inr ((λ n. cc), inl (e, after, thrown, ap (λ o. then_with o verified) thrown))
        | inl ([], after, found) ↦
            let many : 0 ≡ suc (length keys) = length-identity_vectors (key ∷ keys) db found in
            absurd (omega (arith, many))
        | inl (ref ∷ refs, after, found) ↦ inr (
          (λ n. cc),
          inr (
            ref ∷ refs,
            after,
            found,
            subst
                (λ o.
                  IsDecided initial (ref ∷ refs) cfg.max_retry 1 100 initial after
                    (then_with o verified))
                (sym found)
                (try_attempts-IsDecided initial (ref ∷ refs) cfg.max_retry 1 100 initial after
                  (omega arith)),
          ),
        )
      ]
