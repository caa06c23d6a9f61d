-- ===== src/Eligibility/Tests.antt =====
-- An asset with one licence.
use contents_factory.Common.{All, Any, [], refl, true, ◌↔◌, ◌∷◌, ◌≡◌}
use contents_factory.Eligibility.{
  EligibilityCandidate, EligibilityRequirement, LicenseFacts, channel_reason, channel_reasons,
  eligibility, grade_allowed, is_eligible, passes_exclude, reason_eq, text_eq, to_lower, to_upper,
}
use contents_factory.Eligibility.Licenses.{Covers, is_eligible_iff}
use contents_factory.Enums.{QualityGrade, quality_grade_eq}

abbrev licence : LicenseFacts
licence = record {
  allowed_channels = (b'y' ∷ b't' ∷ []) ∷ [];
  allowed_regions = (b'K' ∷ b'R' ∷ []) ∷ [];
  derivative_level = 2;
  valid_from = b'2' ∷ [];
  valid_until = b'4' ∷ [];
}

abbrev asset : EligibilityCandidate
asset = record { attributes = []; quality_grade = QualityGrade.a; licenses = licence ∷ [] }

abbrev requirement : EligibilityRequirement
requirement = record {
  channels = record { platform = b'Y' ∷ b'T' ∷ []; region = b'k' ∷ b'r' ∷ [] } ∷ [];
  publish_date = b'3' ∷ [];
  derivative_level = 1;
  allowed_grades = [];
  exclude = [];
}

eligible : is_eligible asset requirement ≡ true
unfolding is_eligible eligibility passes_exclude channel_reasons channel_reason to_lower to_upper
eligible = refl

is_eligible_iff_example : (is_eligible asset requirement ≡ true) ↔ (
    (grade_allowed asset requirement ≡ true)
    × (passes_exclude asset.attributes requirement.exclude ≡ true)
    × All (λ ch. Any (Covers requirement ch) asset.licenses) requirement.channels)
is_eligible_iff_example = is_eligible_iff asset requirement
