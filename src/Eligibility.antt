-- ===== src/Eligibility.antt =====
-- libs/domain/src/selection/fit-score.ts: the filter on licences and policies that an asset passes
-- before it is scored (`eligibility`, `passesExclude`).
-- A text is the list of its character codes; `toLowerCase` and `toUpperCase` are those of ASCII.
pub mod Licenses
mod Tests
use contents_factory.Common.{
  ℕ, zero, suc, ◌+◌, ◌-◌, ◌≡◌, refl, ◌↔◌, Bool, true, false, Option, none, some, List, [], ◌∷◌,
  ◌++◌, ◌&&◌, ◌||◌, ◌==◌, nat_eq, nat_beq_iff, Eq, arith, not, ltb, leb, if◌then◌else◌, filter,
  find, every, some_of, includes, is_empty, map, length, ap,
}
use contents_factory.Enums.{QualityGrade, quality_grade_eq}

abbrev pub Text : Type 0
Text = List ℕ

abbrev pub text_beq : Text → Text → Bool
text_beq [] [] = true
text_beq (c ∷ s) (d ∷ t) = c == d && text_beq s t
text_beq _ _ = false

pub text_beq_iff : (s t : Text) → (text_beq s t ≡ true) ↔ (s ≡ t)
text_beq_iff [] [] = ground arith
text_beq_iff [] (d ∷ t) = ground arith
text_beq_iff (c ∷ s) [] = ground arith
text_beq_iff (c ∷ s) (d ∷ t) = ground (arith, text_beq_iff s t)

instance abbrev pub text_eq : Eq Text
text_eq = record { beq = text_beq; beq_iff = text_beq_iff }

-- `s <= t` on strings
abbrev pub text_leb : Text → Text → Bool
text_leb [] t = true
text_leb (c ∷ s) [] = false
text_leb (c ∷ s) (d ∷ t) = ltb c d || (c == d && text_leb s t)

unfoldable pub to_lower : Text → Text
to_lower s = map (λ c. if leb b'A' c && leb c b'Z' then c + 32 else c) s

unfoldable pub to_upper : Text → Text
to_upper s = map (λ c. if leb b'a' c && leb c b'z' then c - 32 else c) s

pub record LicenseFacts : Type 0 where
  pub allowed_channels : List Text
  pub allowed_regions : List Text
  pub derivative_level : ℕ
  pub valid_from : Text
  pub valid_until : Text

-- an object with text values, and one with lists of texts
abbrev pub AssetAttributes : Type 0
AssetAttributes = List (Text × Text)

abbrev pub lookup {ℓ} : {V : Type ℓ} → Text → List (Text × V) → Option V
lookup key [] = none
lookup key ((k, v) ∷ pairs) = if k == key then some v else lookup key pairs

pub record EligibilityCandidate : Type 0 where
  pub attributes : AssetAttributes
  pub quality_grade : QualityGrade
  pub licenses : List LicenseFacts

pub record TargetChannel : Type 0 where
  pub platform : Text
  pub region : Text

pub record EligibilityRequirement : Type 0 where
  pub channels : List TargetChannel
  pub publish_date : Text
  pub derivative_level : ℕ
  pub allowed_grades : List QualityGrade
  -- `assetFilter.exclude ?? {}`
  pub exclude : List (Text × List Text)

pub data IneligibleReason : Type 0 where
  license_channel license_region license_period : IneligibleReason
  derivative_level quality_grade excluded_attribute : IneligibleReason

abbrev pub reason_no : IneligibleReason → ℕ
reason_no license_channel = 0
reason_no license_region = 1
reason_no license_period = 2
reason_no derivative_level = 3
reason_no quality_grade = 4
reason_no excluded_attribute = 5

pub reason_no_iff : (s t : IneligibleReason) → (reason_no s == reason_no t ≡ true) ↔ (s ≡ t)
reason_no_iff s t = ground arith

instance abbrev pub reason_eq : Eq IneligibleReason
reason_eq = record { beq = λ s t. reason_no s == reason_no t; beq_iff = reason_no_iff }

-- `v && values.includes(v)`: an empty value counts as none
abbrev pub is_excluded : Option Text → List Text → Bool
is_excluded none values = false
is_excluded (some v) values = not (is_empty v) && includes values v

unfoldable pub passes_exclude : AssetAttributes → List (Text × List Text) → Bool
passes_exclude attributes [] = true
passes_exclude attributes ((key, values) ∷ rest) =
    if is_excluded (lookup key attributes) values then false else passes_exclude attributes rest

-- `pushOnce`
unfoldable pub push_once : List IneligibleReason → IneligibleReason → List IneligibleReason
push_once reasons value = if includes reasons value then reasons else reasons ++ value ∷ []

abbrev pub by_channel : TargetChannel → List LicenseFacts → List LicenseFacts
by_channel ch licenses = filter (λ l. includes l.allowed_channels (to_lower ch.platform)) licenses

abbrev pub by_region : TargetChannel → List LicenseFacts → List LicenseFacts
by_region ch licenses = filter (λ l. includes l.allowed_regions (to_upper ch.region)) licenses

abbrev pub in_period : Text → List LicenseFacts → List LicenseFacts
in_period date licenses =
    filter (λ l. text_leb l.valid_from date && text_leb date l.valid_until) licenses

-- one round of the loop over the channels: the reason that it pushes, if any
unfoldable pub channel_reason :
    EligibilityRequirement → List LicenseFacts → TargetChannel → Option IneligibleReason
channel_reason req licenses ch =
    let on_channel = by_channel ch licenses in
    let in_region = by_region ch on_channel in
    let valid = in_period req.publish_date in_region in
    if is_empty on_channel
    then some license_channel
    else if is_empty in_region
    then some license_region
    else if is_empty valid
    then some license_period
    else if not (some_of (λ l. leb req.derivative_level l.derivative_level) valid)
    then some derivative_level
    else none

abbrev pub push_reason : List IneligibleReason → Option IneligibleReason → List IneligibleReason
push_reason reasons none = reasons
push_reason reasons (some r) = push_once reasons r

unfoldable pub channel_reasons :
    EligibilityRequirement
    → List LicenseFacts
    → List TargetChannel
    → List IneligibleReason
    → List IneligibleReason
channel_reasons req licenses [] reasons = reasons
channel_reasons req licenses (ch ∷ channels) reasons =
    channel_reasons req licenses channels (push_reason reasons (channel_reason req licenses ch))

abbrev pub grade_allowed : EligibilityCandidate → EligibilityRequirement → Bool
grade_allowed asset req =
    is_empty req.allowed_grades || includes req.allowed_grades asset.quality_grade

unfoldable pub eligibility : EligibilityCandidate → EligibilityRequirement → List IneligibleReason
unfolding passes_exclude channel_reasons
eligibility asset req =
    let grade = if grade_allowed asset req then [] else quality_grade ∷ [] in
    let attribute =
      if passes_exclude asset.attributes req.exclude
      then grade
      else grade ++ excluded_attribute ∷ [] in
    channel_reasons req asset.licenses req.channels attribute

unfoldable pub is_eligible : EligibilityCandidate → EligibilityRequirement → Bool
unfolding eligibility
is_eligible asset req = is_empty (eligibility asset req)
