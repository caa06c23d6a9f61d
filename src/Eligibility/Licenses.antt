-- ===== src/Eligibility/Licenses.antt =====
-- An asset is eligible exactly if one licence covers each channel of the order.
use contents_factory.Common.{
  ℕ, ◌≤◌, ◌≡◌, refl, ◌↔◌, inl, inr, Bool, true, false, none, some, List, [], ◌∷◌, ◌&&◌, arith, leb,
  not, some_of, includes, is_empty, All, Any, some_of-filter, is_empty_of_some_of,
  is_empty_of_filter, ◌∙◌, Bool-cases, Option-cases, sym, if◌then◌else◌,
}
use contents_factory.Enums.{quality_grade_eq}
use contents_factory.Eligibility.{
  LicenseFacts, TargetChannel, EligibilityCandidate, EligibilityRequirement, IneligibleReason,
  license_channel, license_region, license_period, text_eq, text_leb, to_lower, to_upper,
  by_channel, by_region, in_period, channel_reason, channel_reasons, push_once, eligibility,
  is_eligible, grade_allowed, passes_exclude, reason_eq,
}

-- The licence allows the channel and its region, is valid on the day of publication, and permits
-- the derivation that the order needs.
abbrev pub Covers : EligibilityRequirement → TargetChannel → LicenseFacts → Type 0
Covers req ch l =
    (includes l.allowed_channels (to_lower ch.platform) ≡ true)
    × (includes l.allowed_regions (to_upper ch.region) ≡ true)
    × (text_leb l.valid_from req.publish_date ≡ true)
    × (text_leb req.publish_date l.valid_until ≡ true)
    × (req.derivative_level ≤ l.derivative_level)

module _ (req : EligibilityRequirement) (ch : TargetChannel) where
  abbrev covers : LicenseFacts → Bool
  covers l =
      includes l.allowed_channels (to_lower ch.platform)
      && (includes l.allowed_regions (to_upper ch.region)
          && ((text_leb l.valid_from req.publish_date && text_leb req.publish_date l.valid_until)
              && leb req.derivative_level l.derivative_level))

  and_iff :
      (a b c d : Bool) (m n : ℕ)
      → ((a && (b && ((c && d) && leb m n))) ≡ true)
        ↔ ((a ≡ true) × (b ≡ true) × (c ≡ true) × (d ≡ true) × (m ≤ n))
  and_iff a b c d m n = ground arith

  Any-Covers_iff : (ls : List LicenseFacts) → (some_of covers ls ≡ true) ↔ Any (Covers req ch) ls
  Any-Covers_iff [] = ground arith
  Any-Covers_iff (l ∷ ls) =
      let here =
        and_iff (includes l.allowed_channels (to_lower ch.platform))
          (includes l.allowed_regions (to_upper ch.region)) (text_leb l.valid_from req.publish_date)
          (text_leb req.publish_date l.valid_until) req.derivative_level l.derivative_level in
      let there = Any-Covers_iff ls in
      elim (Bool-cases (covers l)) [
        | inl yes_here ↦ (λ h. inl (here.0 yes_here), λ h. rw yes_here)
        | inr not_here ↦ (
          λ h. inr (there.0 (rw not_here at h)),
          λ h. elim h [ inl c ↦ rw (here.1 c) | inr m ↦ rw not_here (there.1 m) ],
        )
      ]

  abbrev valid_here : List LicenseFacts → List LicenseFacts
  valid_here ls = in_period req.publish_date (by_region ch (by_channel ch ls))

  some_valid :
      (ls : List LicenseFacts)
      → some_of (λ l. leb req.derivative_level l.derivative_level) (valid_here ls)
        ≡ some_of covers ls
  some_valid ls =
      some_of-filter _ _ (by_region ch (by_channel ch ls))
      ∙ some_of-filter _ _ (by_channel ch ls)
      ∙ some_of-filter _ _ ls

  ladder_iff :
      (e1 e2 e3 v : Bool)
      → (v ≡ true → e3 ≡ false)
      → (e3 ≡ false → e2 ≡ false)
      → (e2 ≡ false → e1 ≡ false)
      → ((if e1
            then some license_channel
            else if e2
            then some license_region
            else if e3
            then some license_period
            else if not v
            then some IneligibleReason.derivative_level
            else none)
          ≡ none)
        ↔ (v ≡ true)
  ladder_iff e1 e2 e3 v a b c = ground arith

  pub channel_reason_iff :
      (ls : List LicenseFacts) → (channel_reason req ls ch ≡ none) ↔ Any (Covers req ch) ls
  unfolding channel_reason
  channel_reason_iff ls =
      let step =
        ladder_iff (is_empty (by_channel ch ls)) (is_empty (by_region ch (by_channel ch ls)))
          (is_empty (valid_here ls))
          (some_of (λ l. leb req.derivative_level l.derivative_level) (valid_here ls))
          (is_empty_of_some_of _ (valid_here ls))
          (is_empty_of_filter _ (by_region ch (by_channel ch ls)))
          (is_empty_of_filter _ (by_channel ch ls)) in
      let whole = Any-Covers_iff ls in
      (λ h. whole.0 (sym (some_valid ls) ∙ step.0 h), λ h. step.1 (some_valid ls ∙ whole.1 h))

is_empty-push_once :
    (reasons : List IneligibleReason) (r : IneligibleReason)
    → is_empty (push_once reasons r) ≡ false
unfolding push_once
is_empty-push_once [] r = refl
is_empty-push_once (x ∷ xs) r = elim (Bool-cases (includes (x ∷ xs) r)) [
  | inl t ↦ rw t
  | inr f ↦ rw f
]

channel_reasons_iff :
    (req : EligibilityRequirement) (ls : List LicenseFacts) (channels : List TargetChannel)
    (reasons : List IneligibleReason)
    → (is_empty (channel_reasons req ls channels reasons) ≡ true)
      ↔ ((is_empty reasons ≡ true) × All (λ ch. Any (Covers req ch) ls) channels)
unfolding channel_reasons
channel_reasons_iff req ls [] reasons = (λ h. (h, tt), λ h. h.0)
channel_reasons_iff req ls (ch ∷ channels) reasons =
    let covered = channel_reason_iff req ch ls in
    elim (Option-cases (channel_reason req ls ch)) [
      | inl fine ↦
          (let rest = channel_reasons_iff req ls channels reasons in
            rw fine (λ h. ((rest.0 h).0, (covered.0 fine, (rest.0 h).1)), λ h. rest.1 (h.0, h.1.1)))
      | inr (r, bad) ↦
          (let rest = channel_reasons_iff req ls channels (push_once reasons r) in
            rw bad (
              λ h. cc ((rest.0 h).0, is_empty-push_once reasons r),
              λ h. cc (bad, covered.1 h.1.0),
            ))
    ]

-- An asset is eligible exactly when its grade is allowed, no attribute of it is excluded, and for
-- each channel of the order one single licence allows that channel and its region, is valid on the
-- day of publication and permits the derivation that the order needs.
pub is_eligible_iff :
    (asset : EligibilityCandidate) (req : EligibilityRequirement)
    → (is_eligible asset req ≡ true) ↔ (
        (grade_allowed asset req ≡ true)
        × (passes_exclude asset.attributes req.exclude ≡ true)
        × All (λ ch. Any (Covers req ch) asset.licenses) req.channels)
unfolding is_eligible eligibility
is_eligible_iff asset req = grind (arith, channel_reasons_iff)
