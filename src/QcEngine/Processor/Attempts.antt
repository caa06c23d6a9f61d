-- ===== src/QcEngine/Processor/Attempts.antt =====
-- What a run of the QC leaves behind, and the numbers of the attempts.
use contents_factory.Common.{
  ℕ, suc, ◌+◌, ◌≤◌, ◌≡◌, refl, sym, ap, subst, ◌∙◌, ◌⊎◌, inl, inr, Bool, true, none, some, List, [],
  ◌∷◌, ◌++◌, arith, ◌==◌, nat_eq, nat_beq_iff, ltb, leb, if◌then◌else◌, filter, filter_kept,
  filter_dropped, length, Bool-cases, Option-cases,
}
use contents_factory.Enums.{ContentStatus, QcVerdict, qc_verdict_eq}
use contents_factory.Errors.{ErrorCode, Thrown, Result, ok, err, app, app_error}
use contents_factory.Qc.{QcEvaluation}
use contents_factory.Store.{Content, QcResult, Db, find_content, set_content_status}
use contents_factory.ApprovalService.{latest_qc}
use contents_factory.Orchestrator.{qc_count}
use contents_factory.QcEngine.{evaluate}
use contents_factory.QcEngine.Records.{QcFacts}
use contents_factory.QcEngine.Bounds.{evaluate_bounds}
use contents_factory.QcEngine.Processor.{qc_row, handoff_of, parsed, record_evaluation, process}

-- the state when the content's status has been set
abbrev pub examined : ℕ → Db → Db
examined content_id db = (set_content_status content_id ContentStatus.qc db).1

-- the state with the evaluation's row and, if it is blocked, the alert
abbrev pub recorded_in : ℕ → QcEvaluation → Db → Db
recorded_in content_id e db = record db {
  qc_results = db.qc_results ++ qc_row content_id (qc_count content_id db + 1) e ∷ [];
  alerts = if e.verdict == QcVerdict.blocked then "qc_blocked" ∷ db.alerts else db.alerts;
}

record_evaluation-ok :
    (content_id : ℕ) (e : QcEvaluation) (db : Db)
    → e.total_score ≤ 10000
    → record_evaluation content_id (qc_count content_id db + 1) e db
      ≡ (ok (handoff_of content_id (qc_count content_id db + 1) e), recorded_in content_id e db)
unfolding record_evaluation parsed
record_evaluation-ok content_id e db h =
    let fits : leb e.total_score 10000 ≡ true = ground arith in
    let positive : ltb 0 (qc_count content_id db + 1) ≡ true = ground arith in
    elim (Bool-cases (e.verdict == QcVerdict.blocked)) [
      | inl blocked ↦ rw (blocked, positive, fits) refl
      | inr unblocked ↦ rw (unblocked, positive, fits) refl
    ]

-- A run on a missing content throws and changes nothing. Otherwise the content is set to QC; what reading the
-- facts throws is thrown on, and else the evaluation is stored once with the next attempt's number,
-- alerted of if it is blocked, and handed on: the handoff always fits its schema.
pub process_qc_outcome :
    (threshold pass_score : ℕ) (facts : Result QcFacts) (content_id : ℕ) (db : Db)
    → let r = process threshold pass_score facts content_id db in
      ((find_content content_id db ≡ none)
        × (r ≡ (err (app (app_error ErrorCode.content_not_found)), db)))
      ⊎ ((content : Content) × (find_content content_id db ≡ some content)
          × (((e : Thrown) × (facts ≡ err e) × (r ≡ (err e, examined content_id db)))
              ⊎ ((found : QcFacts) × (facts ≡ ok found)
                  × (r ≡ (
                    ok (
                        handoff_of content_id
                          (qc_count content_id db + 1)
                          (evaluate found threshold pass_score)),
                    recorded_in content_id
                        (evaluate found threshold pass_score)
                        (examined content_id db),
                  )))))
unfolding process
process_qc_outcome threshold pass_score facts content_id db =
    elim (Option-cases (find_content content_id db)) [
      | inl missing ↦ inl (missing, rw (missing, process) refl)
      | inr (content, there) ↦ inr (content, there, by_facts facts content there)
    ]
  where
    by_facts :
        (given : Result QcFacts) (content : Content)
        → find_content content_id db ≡ some content
        → let r = process threshold pass_score given content_id db in
          ((e : Thrown) × (given ≡ err e) × (r ≡ (err e, examined content_id db)))
          ⊎ ((found : QcFacts) × (given ≡ ok found)
              × (r ≡ (
                ok (
                    handoff_of content_id
                      (qc_count content_id db + 1)
                      (evaluate found threshold pass_score)),
                recorded_in content_id
                    (evaluate found threshold pass_score)
                    (examined content_id db),
              )))
    by_facts (err e) content there = inl (e, refl, rw (there, process) refl)
    by_facts (ok found) content there = inr (
      found,
      refl,
      rw (there, process)
          (record_evaluation-ok content_id (evaluate found threshold pass_score)
            (examined content_id db) (evaluate_bounds found threshold pass_score).1),
    )

-- the attempts of the rows, in their order, are those after `n`
abbrev pub IsCounted : ℕ → List QcResult → Type 0
IsCounted n [] = Unit
IsCounted n (q ∷ rows) = (q.attempt ≡ suc n) × IsCounted (suc n) rows

abbrev pub rows_of : ℕ → List QcResult → List QcResult
rows_of content_id rows = filter (λ q. q.content_id == content_id) rows

-- the attempts of every content are 1, 2, 3 and so on
abbrev pub AreNumbered : Db → Type 0
AreNumbered db = (content_id : ℕ) → IsCounted 0 (rows_of content_id db.qc_results)

IsCounted-concat :
    (n : ℕ) (rows : List QcResult) (q : QcResult)
    → IsCounted n rows
    → q.attempt ≡ suc (n + length rows)
    → IsCounted n (rows ++ q ∷ [])
IsCounted-concat n [] q h e = (omega (arith, e), tt)
IsCounted-concat n (r ∷ rows) q h e = (h.0, IsCounted-concat (suc n) rows q h.1 (omega (arith, e)))

filter-concat :
    (p : QcResult → Bool) (rows : List QcResult) (q : QcResult)
    → filter p (rows ++ q ∷ []) ≡ filter p rows ++ filter p (q ∷ [])
filter-concat p [] q = refl
filter-concat p (r ∷ rows) q = elim (Bool-cases (p r)) [
  | inl kept ↦ rw (kept, filter-concat p rows q) refl
  | inr dropped ↦ rw (dropped, filter-concat p rows q) refl
]

recorded_in-AreNumbered :
    (content_id : ℕ) (e : QcEvaluation) (db : Db)
    → AreNumbered db
    → AreNumbered (recorded_in content_id e db)
recorded_in-AreNumbered content_id e db h k =
    let made = qc_row content_id (qc_count content_id db + 1) e in
    let p : QcResult → Bool = λ q. q.content_id == k in
    let rows = rows_of k db.qc_results in
    subst (IsCounted 0) (sym (filter-concat p db.qc_results made)) (elim (Bool-cases (p made)) [
      | inl same ↦
          let met : content_id ≡ k = (nat_beq_iff content_id k).0 same in
          subst (λ last. IsCounted 0 (rows ++ last)) (sym (filter_kept p made [] same))
            (IsCounted-concat 0 rows made (h k) (ap (λ c. qc_count c db + 1) met ∙ omega arith))
      | inr apart ↦
          subst (λ last. IsCounted 0 (rows ++ last)) (sym (filter_dropped p made [] apart))
            (subst (IsCounted 0) (sym (append_nothing rows)) (h k))
    ])
  where
    append_nothing : (xs : List QcResult) → xs ++ [] ≡ xs
    append_nothing [] = refl
    append_nothing (x ∷ xs) = ap (x ∷◌) (append_nothing xs)

-- A run keeps the attempts of every content numbered from 1 on without gaps, whatever it returns or throws.
pub process-AreNumbered :
    (threshold pass_score : ℕ) (facts : Result QcFacts) (content_id : ℕ) (db : Db)
    → AreNumbered db
    → AreNumbered (process threshold pass_score facts content_id db).1
process-AreNumbered threshold pass_score facts content_id db h =
    elim (process_qc_outcome threshold pass_score facts content_id db) [
      | inl (missing, r) ↦ subst AreNumbered (sym (ap (λ x. x.1) r)) h
      | inr (content, there, inl (e, thrown, r)) ↦ subst AreNumbered (sym (ap (λ x. x.1) r)) h
      | inr (content, there, inr (found, given, r)) ↦ subst AreNumbered (sym (ap (λ x. x.1) r)) (
          recorded_in-AreNumbered content_id (evaluate found threshold pass_score)
            (examined content_id db) h)
    ]

latest_qc-concat :
    (k n : ℕ) (rows : List QcResult) (q : QcResult)
    → IsCounted n (rows_of k rows)
    → (q.content_id == k) ≡ true
    → q.attempt ≡ suc (n + length (rows_of k rows))
    → latest_qc k (rows ++ q ∷ []) ≡ some q
unfolding latest_qc
latest_qc-concat k n [] q h mine e = rw (mine, latest_qc) refl
latest_qc-concat k n (r ∷ rows) q h mine e =
    let p : QcResult → Bool = λ x. x.content_id == k in
    elim (Bool-cases (p r)) [
      | inl same ↦
          let counted : IsCounted n (r ∷ rows_of k rows) =
            subst (IsCounted n) (filter_kept p r rows same) h in
          let amount : q.attempt ≡ suc (n + suc (length (rows_of k rows))) =
            e ∙ ap (λ xs. suc (n + length xs)) (filter_kept p r rows same) in
          let rest = latest_qc-concat k (suc n) rows q counted.1 mine (omega (arith, amount)) in
          let earlier : ltb r.attempt q.attempt ≡ true = ground (arith, counted.0, amount) in
          rw (same, rest, earlier) refl
      | inr apart ↦
          let counted : IsCounted n (rows_of k rows) =
            subst (IsCounted n) (filter_dropped p r rows apart) h in
          let amount : q.attempt ≡ suc (n + length (rows_of k rows)) =
            e ∙ ap (λ xs. suc (n + length xs)) (filter_dropped p r rows apart) in
          let rest = latest_qc-concat k n rows q counted mine amount in rw (apart, rest) refl
    ]

-- After a run on a content that is there and whose facts are read, the content's latest result is the
-- evaluation of these facts, if its attempts were numbered.
pub process-latest_qc :
    (threshold pass_score : ℕ) (found : QcFacts) (content_id : ℕ) (db : Db) (content : Content)
    → find_content content_id db ≡ some content
    → AreNumbered db
    → latest_qc content_id (process threshold pass_score (ok found) content_id db).1.qc_results
      ≡ some (qc_row content_id (qc_count content_id db + 1) (evaluate found threshold pass_score))
unfolding process
process-latest_qc threshold pass_score found content_id db content there h =
    let e = evaluate found threshold pass_score in
    let made = qc_row content_id (qc_count content_id db + 1) e in
    let ran : process threshold pass_score (ok found) content_id db ≡ (
      ok (handoff_of content_id (qc_count content_id db + 1) e),
      recorded_in content_id e (examined content_id db),
    ) =
      rw (there, process)
        (record_evaluation-ok content_id e (examined content_id db)
          (evaluate_bounds found threshold pass_score).1) in
    ap (λ r. latest_qc content_id r.1.qc_results) ran
    ∙ latest_qc-concat content_id 0 db.qc_results made (h content_id)
        ((nat_beq_iff content_id content_id).1 refl) (omega arith)
