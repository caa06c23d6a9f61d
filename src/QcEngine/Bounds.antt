-- ===== src/QcEngine/Bounds.antt =====
-- The scores that the checks give, and the total.
use contents_factory.Common.{
  ℕ, ◌≤◌, ◌==◌, nat_eq, Bool, not, List, [], ◌∷◌, arith, if◌then◌else◌, filter, every,
}
use contents_factory.Enums.{output_type_eq}
use contents_factory.Eligibility.{Text}
use contents_factory.Qc.{QcArea, QcViolation, AreaCheck}
use contents_factory.Qc.Scoring.{evaluate_qc-total_le}
use contents_factory.QcEngine.{area_checks, evaluate, copyright_violations}
use contents_factory.QcEngine.Records.{
  QcCode, TermCategory, term_category_eq, BannedTerm, RiskPattern, risk_code, risk_penalty,
  risk_patterns, QcFacts, is_block,
}
use contents_factory.QcEngine.Areas.{
  clean, flag, deduct, check_video, check_image, check_quality, check_identity,
}
use contents_factory.QcEngine.Copy.{
  check_brand, deduct_terms, deduct_risks, corpus, mentions, all_or_nothing, copy_text,
  policy_violations, is_colour,
}

-- at most 100 points
abbrev IsScored : AreaCheck → Type 0
IsScored c = c.score ≤ 1000000

deduct-IsScored :
    (bad : Bool) (area : QcArea) (code : QcCode) (penalty : ℕ) (c : AreaCheck)
    → IsScored c
    → IsScored (deduct bad area code penalty c)
unfolding deduct
deduct-IsScored bad area code penalty c h = ground arith

flag-IsScored :
    (area : QcArea) (code : QcCode) (penalty : ℕ) (c : AreaCheck)
    → IsScored c
    → IsScored (flag c area code penalty)
flag-IsScored area code penalty c h = omega (arith, h)

check_video-IsScored : (f : QcFacts) → IsScored (check_video f)
unfolding check_video deduct
check_video-IsScored f = ground arith

check_image-IsScored : (f : QcFacts) → IsScored (check_image f)
unfolding check_image deduct
check_image-IsScored f = ground arith

check_quality-IsScored : (f : QcFacts) → IsScored (check_quality f)
unfolding check_quality
check_quality-IsScored f = ground (arith, check_video-IsScored f, check_image-IsScored f)

check_identity-IsScored : (f : QcFacts) (threshold : ℕ) → IsScored (check_identity f threshold)
unfolding check_identity
check_identity-IsScored f threshold = ground arith

deduct_terms-IsScored :
    (text : Text) (terms : List BannedTerm) (c : AreaCheck)
    → IsScored c
    → IsScored (deduct_terms text terms c)
unfolding deduct_terms
deduct_terms-IsScored text [] c h = h
deduct_terms-IsScored text (t ∷ terms) c h =
    let penalty = if is_block t.severity then 40 else 15 in
    deduct_terms-IsScored text terms
      (deduct (mentions text t) QcArea.brand QcCode.banned_term penalty c)
      (deduct-IsScored (mentions text t) QcArea.brand QcCode.banned_term penalty c h)

check_brand-IsScored : (f : QcFacts) → IsScored (check_brand f)
unfolding check_brand
check_brand-IsScored f =
    let terms = filter (λ t. t.category == TermCategory.brand) f.banned_terms in
    let termed = deduct_terms (copy_text f) terms clean in
    let coloured =
      deduct (not (every is_colour f.palette)) QcArea.brand QcCode.invalid_palette 10 termed in
    deduct-IsScored (not f.has_template) QcArea.brand QcCode.no_template 10 coloured (
      deduct-IsScored (not (every is_colour f.palette)) QcArea.brand QcCode.invalid_palette 10
        termed (deduct_terms-IsScored (copy_text f) terms clean (omega arith)))

deduct_risks-IsScored :
    (f : QcFacts) (patterns : List RiskPattern) (c : AreaCheck)
    → IsScored c
    → IsScored (deduct_risks f patterns c)
unfolding deduct_risks
deduct_risks-IsScored f [] c h = h
deduct_risks-IsScored f (p ∷ patterns) c h =
    let hit = f.matches p (corpus f) in
    deduct_risks-IsScored f patterns (deduct hit QcArea.ai_risk (risk_code p) (risk_penalty p) c)
      (deduct-IsScored hit QcArea.ai_risk (risk_code p) (risk_penalty p) c h)

all_or_nothing-IsScored : (violations : List QcViolation) → IsScored (all_or_nothing violations)
all_or_nothing-IsScored violations = ground arith

area_checks-IsScored :
    (f : QcFacts) (threshold : ℕ) (area : QcArea) → IsScored (area_checks f threshold area)
unfolding area_checks
area_checks-IsScored f threshold QcArea.quality = check_quality-IsScored f
area_checks-IsScored f threshold QcArea.identity = check_identity-IsScored f threshold
area_checks-IsScored f threshold QcArea.brand = check_brand-IsScored f
area_checks-IsScored f threshold QcArea.policy = all_or_nothing-IsScored (policy_violations f)
area_checks-IsScored f threshold QcArea.copyright = all_or_nothing-IsScored (copyright_violations f)
area_checks-IsScored f threshold QcArea.ai_risk =
    deduct_risks-IsScored f risk_patterns clean (omega arith)

-- The six checks of any content score from 0 to 100 points, and the total of its evaluation is at most 100.
pub evaluate_bounds :
    (f : QcFacts) (threshold pass_score : ℕ)
    → ((area : QcArea) → (area_checks f threshold area).score ≤ 1000000)
      × ((evaluate f threshold pass_score).total_score ≤ 10000)
unfolding evaluate
evaluate_bounds f threshold pass_score = (
  area_checks-IsScored f threshold,
  evaluate_qc-total_le (area_checks f threshold) pass_score (area_checks-IsScored f threshold),
)
