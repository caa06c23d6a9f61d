-- ===== src/QcEngine/Copy.antt =====
-- apps/worker/src/qc/qc-engine.service.ts: the checks of the copy, for the brand, the channel's policy and the
-- risks of the wording. The test of a regular expression is an input.
use contents_factory.Common.{
  ℕ, Bool, false, not, Option, none, some, List, [], ◌∷◌, ◌++◌, ◌&&◌, ◌||◌, ◌==◌, nat_eq, ltb, leb,
  if◌then◌else◌, filter, every, is_empty, length, map, get_or,
}
use contents_factory.Enums.{output_type_eq}
use contents_factory.Eligibility.{Text, text_eq, to_lower}
use contents_factory.Validator.{contains}
use contents_factory.Qc.{QcArea, QcViolation, AreaCheck}
use contents_factory.QcEngine.Records.{
  QcCode, term_category_eq, TermCategory, BannedTerm, RiskPattern, risk_penalty, risk_code, QcFacts,
  is_block,
}
use contents_factory.QcEngine.Areas.{v, points, clean, deduct, max_duration_ms}

-- brand

abbrev pub present : List (Option Text) → List Text
present [] = []
present (none ∷ texts) = present texts
present (some t ∷ texts) = if is_empty t then present texts else t ∷ present texts

abbrev pub join_space : List Text → Text
join_space [] = []
join_space (t ∷ []) = t
join_space (t ∷ u ∷ texts) = t ++ b' ' ∷ join_space (u ∷ texts)

-- the title, description and hashtags, in small letters
unfoldable pub copy_text : QcFacts → Text
unfolding to_lower
copy_text f = to_lower (join_space (present (f.title ∷ f.description ∷ map some f.hashtags)))

abbrev pub mentions : Text → BannedTerm → Bool
mentions text t = contains text (to_lower t.term)

-- the loop over the terms
unfoldable pub deduct_terms : Text → List BannedTerm → AreaCheck → AreaCheck
unfolding deduct
deduct_terms text [] c = c
deduct_terms text (t ∷ terms) c = deduct_terms text terms (
    deduct (mentions text t) QcArea.brand QcCode.banned_term
      (if is_block t.severity then 40 else 15) c)

abbrev pub is_hex : ℕ → Bool
is_hex c = (leb b'0' c && leb c b'9') || (leb b'a' c && leb c b'f') || (leb b'A' c && leb c b'F')

-- `/^#[0-9a-fA-F]{6}$/`
abbrev pub is_colour : Text → Bool
is_colour [] = false
is_colour (c ∷ digits) = c == b'#' && length digits == 6 && every is_hex digits

unfoldable pub check_brand : QcFacts → AreaCheck
unfolding copy_text deduct_terms deduct
check_brand f =
    let terms = filter (λ t. t.category == TermCategory.brand) f.banned_terms in
    deduct (not f.has_template) QcArea.brand QcCode.no_template 10 (
      deduct (not (every is_colour f.palette)) QcArea.brand QcCode.invalid_palette 10
        (deduct_terms (copy_text f) terms clean))

-- policy

abbrev pub violation_if : Bool → QcArea → QcCode → List QcViolation
violation_if bad area code = if bad then v area code ∷ [] else []

-- `content.durationMs && content.durationMs > max`
abbrev pub is_over : Option ℕ → ℕ → Bool
is_over none most = false
is_over (some n) most = ltb 0 n && ltb most n

-- the loop over the terms: one violation for each that is blocked and occurs
abbrev pub prohibited : Text → List BannedTerm → List QcViolation
prohibited text [] = []
prohibited text (t ∷ terms) =
    violation_if (is_block t.severity && mentions text t) QcArea.policy QcCode.prohibited_topic
    ++ prohibited text terms

abbrev pub is_policy_term : BannedTerm → Bool
is_policy_term t = t.category == TermCategory.policy || t.category == TermCategory.topic

-- a score of 0 for any violation
abbrev pub all_or_nothing : List QcViolation → AreaCheck
all_or_nothing violations = record {
  score = points (if is_empty violations then 100 else 0);
  violations = violations;
}

unfoldable pub policy_violations : QcFacts → List QcViolation
unfolding copy_text
policy_violations f =
    violation_if (ltb (get_or f.caption_limit 2200) (length (get_or f.description [])))
      QcArea.policy QcCode.caption_too_long
    ++ violation_if (ltb (get_or f.max_hashtags 30) (length f.hashtags)) QcArea.policy
        QcCode.too_many_hashtags
    ++ violation_if (is_over f.duration_ms (max_duration_ms f)) QcArea.policy
        QcCode.duration_over_limit
    ++ prohibited (copy_text f) (filter is_policy_term f.banned_terms)

-- risks of the wording

abbrev pub or_empty : Option Text → Text
or_empty t = get_or t []

unfoldable pub corpus : QcFacts → Text
corpus f = join_space (or_empty f.title ∷ or_empty f.description ∷ map or_empty f.subtitles)

-- the loop over the patterns
unfoldable pub deduct_risks : QcFacts → List RiskPattern → AreaCheck → AreaCheck
unfolding deduct corpus
deduct_risks f [] c = c
deduct_risks f (p ∷ patterns) c =
    deduct_risks f patterns
      (deduct (f.matches p (corpus f)) QcArea.ai_risk (risk_code p) (risk_penalty p) c)
