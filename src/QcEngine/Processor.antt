-- ===== src/QcEngine/Processor.antt =====
-- apps/worker/src/processors/qc.processor.ts: the run of the QC on a content. The facts that the engine
-- reads, or what its reading throws, are an input of the run.
pub mod Attempts
use contents_factory.Common.{
  ℕ, ◌+◌, Bool, Option, none, some, List, [], ◌∷◌, ◌++◌, ◌&&◌, ◌==◌, ltb, leb, if◌then◌else◌,
}
use contents_factory.Enums.{ContentStatus, QcVerdict, qc_verdict_eq}
use contents_factory.Errors.{ErrorCode, Result, other}
use contents_factory.Qc.{QcArea, QcEvaluation}
use contents_factory.Store.{
  QcResult, Db, M, ◌>>=◌, ◌>>◌, return, throw, fail, get, modify, find_content, set_content_status,
  alert, when,
}
use contents_factory.Orchestrator.{qc_count}
use contents_factory.QcEngine.{evaluate}
use contents_factory.QcEngine.Records.{QcFacts}

pub record QcHandoff : Type 0 where
  pub content_id : ℕ
  pub attempt : ℕ
  pub verdict : QcVerdict
  pub total_score : ℕ
  pub retry_target : Option QcArea

abbrev pub qc_row : ℕ → ℕ → QcEvaluation → QcResult
qc_row content_id attempt e = record {
  content_id = content_id;
  attempt = attempt;
  total_score = e.total_score;
  verdict = e.verdict;
  violations = e.violations;
  retry_target = e.retry_target;
}

abbrev pub handoff_of : ℕ → ℕ → QcEvaluation → QcHandoff
handoff_of content_id attempt e = record {
  content_id = content_id;
  attempt = attempt;
  verdict = e.verdict;
  total_score = e.total_score;
  retry_target = e.retry_target;
}

-- what the schema asks beyond the types: a positive attempt and a total from 0 to 100
abbrev pub is_valid_handoff : QcHandoff → Bool
is_valid_handoff h = ltb 0 h.attempt && leb h.total_score 10000

-- `QcHandoff.parse(handoff)`, and the return
unfoldable pub parsed : QcHandoff → M QcHandoff
parsed h = if is_valid_handoff h then return h else throw other

-- what follows the evaluation
unfoldable pub record_evaluation : ℕ → ℕ → QcEvaluation → M QcHandoff
unfolding parsed
record_evaluation content_id attempt e = do
  modify (λ db. record db { qc_results = db.qc_results ++ qc_row content_id attempt e ∷ [] })
  when (e.verdict == QcVerdict.blocked) (alert "qc_blocked")
  parsed (handoff_of content_id attempt e)

abbrev pub read : Result QcFacts → M QcFacts
read facts db = (facts, db)

-- `process`
unfoldable pub process : ℕ → ℕ → Result QcFacts → ℕ → M QcHandoff
unfolding record_evaluation
process threshold pass_score facts content_id db = elim (find_content content_id db) [
  | none ↦ fail ErrorCode.content_not_found db
  | some content ↦
      (do
        set_content_status content_id ContentStatus.qc
        found ← read facts
        record_evaluation content_id (qc_count content_id db + 1)
            (evaluate found threshold pass_score))
        db
]
