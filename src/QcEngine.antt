-- ===== src/QcEngine.antt =====
-- apps/worker/src/qc/qc-engine.service.ts: the six checks of a content that are scored by `evaluateQc`.
-- The rows and measurements that a check reads are inputs (`QcFacts`): what the storage, the probes of the
-- media, the embeddings and the regular expressions answer. A score only falls within a check, so stopping
-- at 0 is the `clamp` at the end.
pub mod Records
pub mod Areas
pub mod Copy
pub mod Processor
pub mod Verdict
pub mod Bounds
mod Tests
use contents_factory.Common.{
  ℕ, zero, suc, ◌+◌, ◌-◌, ◌*◌, ◌/◌, min, Bool, true, false, not, Option, none, some, List, [], ◌∷◌,
  ◌++◌, ◌&&◌, ◌||◌, ◌==◌, nat_eq, ltb, leb, if◌then◌else◌, filter, find, every, some_of, includes,
  is_empty, length, map, get_or, is_some,
}
use contents_factory.Enums.{OutputType, output_type_eq}
use contents_factory.Eligibility.{Text, text_eq, text_leb, to_lower, to_upper}
use contents_factory.Validator.{AssetLicense, TargetChannel, allows, contains, is_valid_on}
use contents_factory.Qc.{QcArea, QcViolation, AreaCheck, ChecksByArea, QcEvaluation, evaluate_qc}
use contents_factory.QcEngine.Records.{
  QcCode, code_no, term_category_eq, Severity, TermCategory, BannedTerm, MediaProbe, GeneratedRow,
  RiskPattern, risk_patterns, risk_penalty, risk_code, QcFacts, is_block,
}
use contents_factory.QcEngine.Areas.{v, clean, check_quality, check_identity}
use contents_factory.QcEngine.Copy.{
  check_brand, policy_violations, deduct_risks, violation_if, all_or_nothing,
}

-- copyright

abbrev pub publish_day : QcFacts → Text
publish_day f = get_or f.scheduled_on f.today

-- the condition of the `find`
unfoldable pub is_usable : QcFacts → AssetLicense → Bool
unfolding to_lower to_upper
is_usable f l =
    includes l.allowed_channels (to_lower f.platform)
    && includes l.allowed_regions (to_upper (get_or f.region (b'K' ∷ b'R' ∷ [])))
    && l.derivative_allowed
    && text_leb l.valid_from (publish_day f)
    && text_leb (publish_day f) l.valid_until

-- one round of the loop over the usages
unfoldable pub usage_violations : QcFacts → List AssetLicense → List QcViolation
usage_violations f licenses =
    if is_empty licenses
    then v QcArea.copyright QcCode.no_license ∷ []
    else violation_if (not (some_of (is_usable f) licenses)) QcArea.copyright
        QcCode.license_invalid_at_publish

unfoldable pub all_usage_violations : QcFacts → List ℕ → List QcViolation
unfolding usage_violations
all_usage_violations f [] = []
all_usage_violations f (asset_id ∷ usages) =
    usage_violations f (f.licenses asset_id) ++ all_usage_violations f usages

-- `bgm && bgm.meta?.licensed === false`
abbrev pub is_unlicensed : Option GeneratedRow → Bool
is_unlicensed none = false
is_unlicensed (some g) = elim g.licensed [ none ↦ false | some licensed ↦ not licensed ]

unfoldable pub copyright_violations : QcFacts → List QcViolation
unfolding all_usage_violations
copyright_violations f =
    if is_empty f.usages
    then v QcArea.copyright QcCode.no_lineage ∷ []
    else all_usage_violations f f.usages
      ++ violation_if (is_unlicensed (find (λ g. g.is_audio) f.generated)) QcArea.copyright
          QcCode.bgm_not_licensed

unfoldable pub area_checks : QcFacts → ℕ → ChecksByArea
unfolding check_quality check_identity check_brand policy_violations copyright_violations
    deduct_risks
area_checks f threshold QcArea.quality = check_quality f
area_checks f threshold QcArea.identity = check_identity f threshold
area_checks f threshold QcArea.brand = check_brand f
area_checks f threshold QcArea.policy = all_or_nothing (policy_violations f)
area_checks f threshold QcArea.copyright = all_or_nothing (copyright_violations f)
area_checks f threshold QcArea.ai_risk = deduct_risks f risk_patterns clean

-- `evaluate`; the pass score in 1/100 of a point
unfoldable pub evaluate : QcFacts → ℕ → ℕ → QcEvaluation
unfolding area_checks
evaluate f threshold pass_score = evaluate_qc (area_checks f threshold) pass_score
