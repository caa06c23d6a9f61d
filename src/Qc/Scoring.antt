-- ===== src/Qc/Scoring.antt =====
-- What the verdict, the total and the retry target of an evaluation say about the checks.
use contents_factory.Common.{
  ℕ, ◌+◌, ◌*◌, ◌≤◌, ◌≡◌, refl, ◌≢◌, ◌↔◌, ◌⊎◌, inl, inr, Option, some, List, [], ◌∷◌, arith, leb,
  leb→le, All, Bool-cases,
}
use contents_factory.Enums.{QcVerdict, OutputType, TaskKind}
use contents_factory.Qc.{
  QcArea, quality, identity, brand, policy, copyright, ai_risk, ChecksByArea, first_block,
  weighted_sum, worst_area, score_qc, evaluate_qc, module_for_retry_target,
}

-- An evaluation is blocked exactly when the policy or the copyright check reports a violation,
-- whatever the scores and the pass score are.
pub evaluate_qc-blocked_iff :
    (checks : ChecksByArea) (pass_score : ℕ)
    → ((evaluate_qc checks pass_score).verdict ≡ QcVerdict.blocked)
      ↔ (((checks policy).violations ≢ []) ⊎ ((checks copyright).violations ≢ []))
unfolding evaluate_qc first_block score_qc
evaluate_qc-blocked_iff checks pass_score = grind arith

-- An evaluation passes exactly when neither hard-blocking check reports a violation and the
-- weighted sum of the six scores reaches the pass score.
pub evaluate_qc-pass_iff :
    (checks : ChecksByArea) (pass_score : ℕ)
    → ((evaluate_qc checks pass_score).verdict ≡ QcVerdict.pass) ↔ (
        ((checks policy).violations ≡ [])
        × ((checks copyright).violations ≡ [])
        × (pass_score * 10000
            ≤ 30 * (checks quality).score
              + 25 * (checks identity).score
              + 15 * (checks brand).score
              + 10 * (checks policy).score
              + 10 * (checks copyright).score
              + 10 * (checks ai_risk).score))
unfolding evaluate_qc first_block score_qc weighted_sum
evaluate_qc-pass_iff checks pass_score = grind arith

worst_area-le :
    (checks : ChecksByArea) (w : ℕ) (a : QcArea) (rest : List QcArea)
    → (checks (worst_area checks a rest)).score ≡ w
    → (w ≤ (checks a).score) × All (λ b. w ≤ (checks b).score) rest
unfolding worst_area
worst_area-le checks w a [] e = (omega arith, tt)
worst_area-le checks w a (b ∷ rest) e = elim (Bool-cases (leb (checks a).score (checks b).score)) [
  | inl keep ↦
      let (low, lower) = worst_area-le checks w a rest (rw keep at e) in
      (low, (omega (arith, leb→le _ _ keep, low), lower))
  | inr swap ↦
      let (low, lower) = worst_area-le checks w b rest (rw swap at e) in
      (ground (arith, low), (low, lower))
]

-- An evaluation that fails names a retry target whose score no other area's score is below.
pub evaluate_qc-retry_target :
    (checks : ChecksByArea) (pass_score : ℕ)
    → (evaluate_qc checks pass_score).verdict ≡ QcVerdict.fail
    → (worst : QcArea) × ((evaluate_qc checks pass_score).retry_target ≡ some worst)
      × ((area : QcArea) → (checks worst).score ≤ (checks area).score)
unfolding evaluate_qc first_block score_qc
evaluate_qc-retry_target checks pass_score h =
    let rest : List QcArea = identity ∷ brand ∷ policy ∷ copyright ∷ ai_risk ∷ [] in
    let low = worst_area-le checks _ quality rest refl in
    (worst_area checks quality rest, ground arith, λ area. below area low)
  where
    below :
        {w : ℕ} (area : QcArea)
        → (w ≤ (checks quality).score)
          × All (λ b. w ≤ (checks b).score) (identity ∷ brand ∷ policy ∷ copyright ∷ ai_risk ∷ [])
        → w ≤ (checks area).score
    below quality low = low.0
    below identity low = low.1.0
    below brand low = low.1.1.0
    below policy low = low.1.1.1.0
    below copyright low = low.1.1.1.1.0
    below ai_risk low = low.1.1.1.1.1.0

-- If no score is above 100 points, neither is the total that an evaluation reports.
pub evaluate_qc-total_le :
    (checks : ChecksByArea) (pass_score : ℕ)
    → ((area : QcArea) → (checks area).score ≤ 1000000)
    → (evaluate_qc checks pass_score).total_score ≤ 10000
unfolding evaluate_qc first_block score_qc weighted_sum
evaluate_qc-total_le checks pass_score h =
    ground (arith, h quality, h identity, h brand, h policy, h copyright, h ai_risk)

-- A failed evaluation of a video re-renders it when the worst area is the brand or the AI risk and
-- regenerates its scenes otherwise; anything else is regenerated as an image, whatever the area.
pub module_for_retry_target_iff :
    (target : Option QcArea) (output_type : OutputType)
    → ((module_for_retry_target target output_type ≡ TaskKind.render)
        ↔ ((output_type ≡ OutputType.video) × ((target ≡ some brand) ⊎ (target ≡ some ai_risk))))
      × ((module_for_retry_target target output_type ≡ TaskKind.generate_image)
          ↔ (output_type ≢ OutputType.video))
unfolding module_for_retry_target
module_for_retry_target_iff target output_type = grind arith
