-- ===== src/QcEngine/Verdict.antt =====
-- The contents that an evaluation does not block.
use contents_factory.Common.{
  ℕ, ◌≤◌, ◌≡◌, refl, ◌↔◌, ◌≢◌, ◌⊎◌, inl, inr, Bool, true, false, not, Option, none, some, List, [],
  ◌∷◌, ◌++◌, arith, ◌==◌, ◌&&◌, ◌||◌, nat_eq, ltb, if◌then◌else◌, filter, find, some_of,
  some_of_iff, includes, is_empty, length, All, Any, get_or, both_iff, chain_iff, Any-iff,
  append_none_iff, pushed_iff, filter_kept, filter_dropped, Bool-cases, subst, sym,
}
use contents_factory.Enums.{QcVerdict}
use contents_factory.Eligibility.{Text, text_eq, text_leb, to_lower, to_upper}
use contents_factory.Validator.{AssetLicense}
use contents_factory.Validator.Terms.{IsContained, contains_iff}
use contents_factory.Qc.{QcArea, QcViolation}
use contents_factory.Qc.Scoring.{evaluate_qc-blocked_iff}
use contents_factory.QcEngine.{
  publish_day, is_usable, usage_violations, all_usage_violations, is_unlicensed,
  copyright_violations, area_checks, evaluate,
}
use contents_factory.QcEngine.Records.{
  QcCode, Severity, TermCategory, term_category_eq, BannedTerm, QcFacts, is_block,
}
use contents_factory.QcEngine.Areas.{v, max_duration_ms}
use contents_factory.QcEngine.Copy.{
  copy_text, violation_if, is_over, prohibited, is_policy_term, mentions, policy_violations,
}

abbrev pub IsWithinLimit : Option ℕ → ℕ → Type 0
IsWithinLimit none most = Unit
IsWithinLimit (some n) most = (n ≡ 0) ⊎ (n ≤ most)

-- a term on a brand, a term that only warns, or one that does not occur
abbrev pub IsTolerated : Text → BannedTerm → Type 0
IsTolerated text t =
    (t.category ≡ TermCategory.brand)
    ⊎ (t.severity ≡ Severity.warn)
    ⊎ (¬ IsContained text (to_lower t.term))

abbrev pub IsAllowedCopy : QcFacts → Type 0
IsAllowedCopy f =
    (length (get_or f.description []) ≤ get_or f.caption_limit 2200)
    × (length f.hashtags ≤ get_or f.max_hashtags 30)
    × IsWithinLimit f.duration_ms (max_duration_ms f)
    × All (IsTolerated (copy_text f)) f.banned_terms

-- one licence allows the platform, the region, derivatives and the day of publication
abbrev pub IsCovering : QcFacts → AssetLicense → Type 0
IsCovering f l =
    (includes l.allowed_channels (to_lower f.platform) ≡ true)
    × (includes l.allowed_regions (to_upper (get_or f.region (b'K' ∷ b'R' ∷ []))) ≡ true)
    × (l.derivative_allowed ≡ true)
    × (text_leb l.valid_from (publish_day f) ≡ true)
    × (text_leb (publish_day f) l.valid_until ≡ true)

abbrev pub IsLicensed : QcFacts → Type 0
IsLicensed f =
    (f.usages ≢ [])
    × All (λ id. Any (IsCovering f) (f.licenses id)) f.usages
    × (is_unlicensed (find (λ g. g.is_audio) f.generated) ≡ false)

is_over_iff : (n : Option ℕ) (most : ℕ) → (is_over n most ≡ false) ↔ IsWithinLimit n most
is_over_iff none most = ground arith
is_over_iff (some n) most = ground arith

few_iff :
    (area : QcArea) (code : QcCode) (n most : ℕ)
    → (violation_if (ltb most n) area code ≡ []) ↔ (n ≤ most)
few_iff area code n most = ground (arith, pushed_iff (ltb most n) (v area code))

IsTolerated-iff :
    (text : Text) (t : BannedTerm)
    → ((is_policy_term t ≡ false) ⊎ ((is_block t.severity && mentions text t) ≡ false))
      ↔ IsTolerated text t
IsTolerated-iff text t = by_term t.category t.severity (contains_iff text (to_lower t.term))
  where
    by_term :
        (c : TermCategory) (s : Severity)
        → (mentions text t ≡ true) ↔ IsContained text (to_lower t.term)
        → (((c == TermCategory.policy || c == TermCategory.topic) ≡ false)
            ⊎ ((is_block s && mentions text t) ≡ false))
          ↔ ((c ≡ TermCategory.brand)
              ⊎ (s ≡ Severity.warn)
              ⊎ (¬ IsContained text (to_lower t.term)))
    by_term TermCategory.brand s h = ground arith
    by_term TermCategory.policy Severity.warn h = ground arith
    by_term TermCategory.policy Severity.block h = ground (arith, h)
    by_term TermCategory.topic Severity.warn h = ground arith
    by_term TermCategory.topic Severity.block h = ground (arith, h)

prohibited_iff :
    (text : Text) (terms : List BannedTerm)
    → (prohibited text (filter is_policy_term terms) ≡ []) ↔ All (IsTolerated text) terms
prohibited_iff text [] = (λ h. tt, λ h. refl)
prohibited_iff text (t ∷ terms) = elim (Bool-cases (is_policy_term t)) [
  | inr apart ↦
      subst (λ xs. (prohibited text xs ≡ []) ↔ (IsTolerated text t × All (IsTolerated text) terms))
        (sym (filter_dropped is_policy_term t terms apart))
        (ground (arith, prohibited_iff text terms, (IsTolerated-iff text t).0 (inl apart)))
  | inl policy ↦
      let later = prohibited text (filter is_policy_term terms) in
      let first : Bool = is_block t.severity && mentions text t in
      let here : (violation_if first QcArea.policy QcCode.prohibited_topic ≡ [])
          ↔ IsTolerated text t =
        chain_iff (pushed_iff first (v QcArea.policy QcCode.prohibited_topic))
          (ground (arith, IsTolerated-iff text t)) in
      subst (λ xs. (prohibited text xs ≡ []) ↔ (IsTolerated text t × All (IsTolerated text) terms))
        (sym (filter_kept is_policy_term t terms policy))
        (chain_iff
          (append_none_iff (violation_if first QcArea.policy QcCode.prohibited_topic) later)
          (both_iff here (prohibited_iff text terms)))
]

policy_violations_iff : (f : QcFacts) → (policy_violations f ≡ []) ↔ IsAllowedCopy f
unfolding policy_violations
policy_violations_iff f =
    let long =
      violation_if (ltb (get_or f.caption_limit 2200) (length (get_or f.description [])))
        QcArea.policy QcCode.caption_too_long in
    let many =
      violation_if (ltb (get_or f.max_hashtags 30) (length f.hashtags)) QcArea.policy
        QcCode.too_many_hashtags in
    let over =
      violation_if (is_over f.duration_ms (max_duration_ms f)) QcArea.policy
        QcCode.duration_over_limit in
    let banned = prohibited (copy_text f) (filter is_policy_term f.banned_terms) in
    chain_iff (append_none_iff (long ++ many ++ over) banned) (
      four_iff
        (few_iff QcArea.policy QcCode.caption_too_long (length (get_or f.description []))
          (get_or f.caption_limit 2200))
        (few_iff QcArea.policy QcCode.too_many_hashtags (length f.hashtags)
          (get_or f.max_hashtags 30))
        (chain_iff
          (pushed_iff (is_over f.duration_ms (max_duration_ms f))
            (v QcArea.policy QcCode.duration_over_limit))
          (is_over_iff f.duration_ms (max_duration_ms f)))
        (prohibited_iff (copy_text f) f.banned_terms) (append_none_iff (long ++ many) over)
        (append_none_iff long many))
  where
    four_iff :
        {A B C D E F G H X Y : Type 0}
        → A ↔ B
        → C ↔ D
        → E ↔ F
        → G ↔ H
        → X ↔ (Y × E)
        → Y ↔ (A × C)
        → (X × G) ↔ (B × D × F × H)
    four_iff a c e g x y = (
      λ (p, q). (a.0 (y.0 (x.0 p).0).0, c.0 (y.0 (x.0 p).0).1, e.0 (x.0 p).1, g.0 q),
      λ (b, d, k, h). (x.1 (y.1 (a.1 b, c.1 d), e.1 k), g.1 h),
    )

IsCovering-iff : (f : QcFacts) (l : AssetLicense) → (is_usable f l ≡ true) ↔ IsCovering f l
unfolding is_usable
IsCovering-iff f l = ground arith

usage_violations_iff :
    (f : QcFacts) (licenses : List AssetLicense)
    → (usage_violations f licenses ≡ []) ↔ Any (IsCovering f) licenses
unfolding usage_violations
usage_violations_iff f [] = ground arith
usage_violations_iff f (l ∷ licenses) =
    chain_iff
      (ground (
        arith,
        pushed_iff (not (some_of (is_usable f) (l ∷ licenses)))
            (v QcArea.copyright QcCode.license_invalid_at_publish),
      ))
      (chain_iff (some_of_iff (is_usable f) (l ∷ licenses))
        (Any-iff (l ∷ licenses) (IsCovering-iff f)))

all_usage_violations_iff :
    (f : QcFacts) (usages : List ℕ)
    → (all_usage_violations f usages ≡ []) ↔ All (λ id. Any (IsCovering f) (f.licenses id)) usages
unfolding all_usage_violations
all_usage_violations_iff f [] = (λ h. tt, λ h. refl)
all_usage_violations_iff f (id ∷ usages) =
    chain_iff (append_none_iff (usage_violations f (f.licenses id)) (all_usage_violations f usages))
      (both_iff (usage_violations_iff f (f.licenses id)) (all_usage_violations_iff f usages))

copyright_violations_iff : (f : QcFacts) → (copyright_violations f ≡ []) ↔ IsLicensed f
unfolding copyright_violations
copyright_violations_iff f = by_usages f.usages (all_usage_violations_iff f f.usages)
  where
    by_usages :
        (usages : List ℕ)
        → (all_usage_violations f usages ≡ [])
          ↔ All (λ id. Any (IsCovering f) (f.licenses id)) usages
        → ((if is_empty usages
              then v QcArea.copyright QcCode.no_lineage ∷ []
              else all_usage_violations f usages
                ++ violation_if
                    (is_unlicensed (find (λ g. g.is_audio) f.generated))
                    QcArea.copyright
                    QcCode.bgm_not_licensed)
            ≡ [])
          ↔ ((usages ≢ [])
              × All (λ id. Any (IsCovering f) (f.licenses id)) usages
              × (is_unlicensed (find (λ g. g.is_audio) f.generated) ≡ false))
    by_usages [] h = ground arith
    by_usages (id ∷ usages) h =
        let music = is_unlicensed (find (λ g. g.is_audio) f.generated) in
        let both =
          chain_iff
            (append_none_iff (all_usage_violations f (id ∷ usages))
              (violation_if music QcArea.copyright QcCode.bgm_not_licensed))
            (both_iff h (pushed_iff music (v QcArea.copyright QcCode.bgm_not_licensed))) in
        (λ e. (λ n. absurd (ground arith), (both.0 e).0, (both.0 e).1), λ (n, a, m). both.1 (a, m))

-- A content is not blocked exactly when its copy and duration keep the limits of the channel and it mentions no
-- term on policy or topic that blocks; its assets are recorded, and each has one licence that allows the
-- platform, the region, derivatives and the day of publication; and its music is not reported as unlicensed.
pub evaluate-unblocked_iff :
    (f : QcFacts) (threshold pass_score : ℕ)
    → ((evaluate f threshold pass_score).verdict ≢ QcVerdict.blocked)
      ↔ (IsAllowedCopy f × IsLicensed f)
unfolding evaluate area_checks
evaluate-unblocked_iff f threshold pass_score =
    chain_iff
      (ground (
        arith,
        evaluate_qc-blocked_iff (area_checks f threshold) pass_score,
        none_or_some (policy_violations f),
        none_or_some (copyright_violations f),
      ))
      (both_iff (policy_violations_iff f) (copyright_violations_iff f))
  where
    none_or_some : (xs : List QcViolation) → (xs ≡ []) ⊎ (xs ≢ [])
    none_or_some [] = inl refl
    none_or_some (x ∷ xs) = inr (λ e. absurd (ground arith))
