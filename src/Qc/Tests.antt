-- ===== src/Qc/Tests.antt =====
-- Evaluations at concrete scores.
use contents_factory.Common.{[], refl, ◌*◌, ◌+◌, ◌↔◌, ◌≡◌, ◌≤◌}
use contents_factory.Enums.{QcVerdict}
use contents_factory.Qc.{
  ai_risk, brand, copyright, default_pass_score, evaluate_qc, identity, policy, quality, round2,
}
use contents_factory.Qc.Scoring.{evaluate_qc-pass_iff}
use contents_factory.Samples.{checks_of}

-- The scores are rounded to two decimals, half up.
rounded : round2 8249 ≡ 82
unfolding round2
rounded = refl

evaluate_qc-pass_iff_example :
    ((evaluate_qc (checks_of 900000 []) default_pass_score).verdict ≡ QcVerdict.pass) ↔ (
      (((checks_of 900000 []) policy).violations ≡ [])
      × (((checks_of 900000 []) copyright).violations ≡ [])
      × (default_pass_score * 10000
          ≤ 30 * ((checks_of 900000 []) quality).score
            + 25 * ((checks_of 900000 []) identity).score
            + 15 * ((checks_of 900000 []) brand).score
            + 10 * ((checks_of 900000 []) policy).score
            + 10 * ((checks_of 900000 []) copyright).score
            + 10 * ((checks_of 900000 []) ai_risk).score))
evaluate_qc-pass_iff_example = evaluate_qc-pass_iff (checks_of 900000 []) default_pass_score
