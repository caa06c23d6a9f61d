-- ===== src/Qc.antt =====
-- libs/domain/src/qc/qc-scoring.ts. Scores are numbers from 0 to 100 with fractions; here a score is
-- counted in 1/10000 of a point and a weight in 1/100, so that a weighted sum is exact. Two-decimal
-- results (`round2`) are counted in 1/100 of a point and rounded half up, as `Math.round` does.
pub mod Scoring
mod Tests
use contents_factory.Common.{
  ℕ, ◌+◌, ◌*◌, ◌/◌, ◌++◌, Bool, true, false, Option, none, some, List, [], ◌∷◌, leb, is_empty,
  if◌then◌else◌, ◌==◌,
}
use contents_factory.Enums.{QcVerdict, OutputType, TaskKind, output_type_eq}

pub data QcArea : Type 0 where
  quality identity brand policy copyright ai_risk : QcArea

abbrev pub qc_weights : QcArea → ℕ
qc_weights quality = 30
qc_weights identity = 25
qc_weights brand = 15
qc_weights policy = 10
qc_weights copyright = 10
qc_weights ai_risk = 10

abbrev pub qc_areas : List QcArea
qc_areas = quality ∷ identity ∷ brand ∷ policy ∷ copyright ∷ ai_risk ∷ []

abbrev pub hard_block : List QcArea
hard_block = policy ∷ copyright ∷ []

-- 80 points, in 1/100 of a point
abbrev pub default_pass_score : ℕ
default_pass_score = 8000

-- the code is a number that stands for the text
pub record QcViolation : Type 0 where
  pub area : QcArea
  pub code : ℕ

pub record AreaCheck : Type 0 where
  pub score : ℕ
  pub violations : List QcViolation

-- `ChecksByArea`, a record of six checks
abbrev pub ChecksByArea : Type 0
ChecksByArea = QcArea → AreaCheck

pub record QcAreaScores : Type 0 where
  pub quality : ℕ
  pub identity : ℕ
  pub brand : ℕ
  pub policy : ℕ
  pub copyright : ℕ
  pub ai_risk : ℕ

pub record QcEvaluation : Type 0 where
  pub verdict : QcVerdict
  pub total_score : ℕ
  pub area_scores : QcAreaScores
  pub violations : List QcViolation
  pub retry_target : Option QcArea

-- `round2` of a score: from 1/10000 to 1/100 of a point
unfoldable pub round2 : ℕ → ℕ
round2 n = (n + 50) / 100

unfoldable pub map_scores : ChecksByArea → QcAreaScores
map_scores checks = record {
  quality = round2 (checks quality).score;
  identity = round2 (checks identity).score;
  brand = round2 (checks brand).score;
  policy = round2 (checks policy).score;
  copyright = round2 (checks copyright).score;
  ai_risk = round2 (checks ai_risk).score;
}

-- the loop over HARD_BLOCK: the violations of the first blocking area that has any
unfoldable pub first_block : ChecksByArea → List QcArea → Option (List QcViolation)
first_block checks [] = none
first_block checks (area ∷ rest) =
    if is_empty (checks area).violations
    then first_block checks rest
    else some (checks area).violations

-- the reduce that sums; in 1/1000000 of a point
unfoldable pub weighted_sum : ChecksByArea → ℕ → List QcArea → ℕ
weighted_sum checks sum [] = sum
weighted_sum checks sum (area ∷ rest) =
    weighted_sum checks (sum + qc_weights area * (checks area).score) rest

-- the reduce that keeps the area with the lower score, the earlier one if equal
unfoldable pub worst_area : ChecksByArea → QcArea → List QcArea → QcArea
worst_area checks a [] = a
worst_area checks a (b ∷ rest) =
    worst_area checks (if leb (checks a).score (checks b).score then a else b) rest

abbrev pub all_violations : ChecksByArea → List QcArea → List QcViolation
all_violations checks [] = []
all_violations checks (area ∷ rest) = (checks area).violations ++ all_violations checks rest

-- `evaluateQc` below the hard blocks; `pass_score` in 1/100 of a point
unfoldable pub score_qc : ChecksByArea → ℕ → QcEvaluation
score_qc checks pass_score =
    let total = weighted_sum checks 0 qc_areas in
    let worst = worst_area checks quality (identity ∷ brand ∷ policy ∷ copyright ∷ ai_risk ∷ []) in
    let pass = leb (pass_score * 10000) total in
    record {
      verdict = if pass then QcVerdict.pass else QcVerdict.fail;
      total_score = (total + 5000) / 10000;
      area_scores = map_scores checks;
      violations = all_violations checks qc_areas;
      retry_target = if pass then none else some worst;
    }

unfoldable pub evaluate_qc : ChecksByArea → ℕ → QcEvaluation
evaluate_qc checks pass_score = elim (first_block checks hard_block) [
  | some violations ↦ record {
    verdict = QcVerdict.blocked;
    total_score = 0;
    area_scores = map_scores checks;
    violations = violations;
    retry_target = none;
  }
  | none ↦ score_qc checks pass_score
]

-- `moduleForRetryTarget`; a target that is no area takes the default branch, as `none` does
unfoldable pub module_for_retry_target : Option QcArea → OutputType → TaskKind
module_for_retry_target (some brand) output_type =
    if output_type == OutputType.video then TaskKind.render else TaskKind.generate_image
module_for_retry_target (some ai_risk) output_type =
    if output_type == OutputType.video then TaskKind.render else TaskKind.generate_image
module_for_retry_target _ output_type =
    if output_type == OutputType.video then TaskKind.generate_video else TaskKind.generate_image
