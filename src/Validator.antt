-- ===== src/Validator.antt =====
-- apps/api/src/order/order-validator.service.ts, libs/domain/src/order/cost-estimator.ts and
-- apps/api/src/order/pricing.ts: the ten checks that an order passes before its tasks are created, and
-- the estimate of its cost. Amounts of the estimate are tenths of a won until they are rounded, since the
-- factor for retries is 1.3. The policy check reads the order's concept and design as one text, which
-- is an input; an empty text counts as no text, and dates are texts.
pub mod Terms
pub mod Requirements
pub mod Checks
mod Tests
use contents_factory.Common.{
  ℕ, zero, suc, ◌+◌, ◌*◌, ◌/◌, max, Bool, true, false, not, Option, none, some, List, [], ◌∷◌, ◌++◌,
  ◌&&◌, ◌||◌, ◌==◌, nat_eq, ltb, leb, if◌then◌else◌, filter, every, some_of, includes, is_empty,
  length, take, map, get_or,
}
use contents_factory.Enums.{OutputType, output_type_eq, AgentLifecycle, agent_lifecycle_eq}
use contents_factory.Errors.{ErrorCode}
use contents_factory.Store.{Agent}
use contents_factory.Eligibility.{
  Text, text_eq, text_leb, to_lower, to_upper, AssetAttributes, passes_exclude,
}
use contents_factory.Selection.{has_included}
use contents_factory.Blueprints.{scene_count, total_ms}
use contents_factory.Generation.{CostLog, sum_cost, is_spent_by}

pub record AssetLicense : Type 0 where
  pub allowed_channels : List Text
  pub allowed_regions : List Text
  pub derivative_allowed : Bool
  pub valid_from : Text
  pub valid_until : Text

pub record LicensedAsset : Type 0 where
  pub id : ℕ
  pub artist_id : ℕ
  pub is_active : Bool
  pub is_deleted : Bool
  pub attributes : AssetAttributes
  pub licenses : List AssetLicense

pub record TargetChannel : Type 0 where
  pub is_active : Bool
  pub platform : Text
  pub region : Option Text
  pub aspect : Option Text
  pub max_duration_sec : Option ℕ

pub record OrderToCheck : Type 0 where
  pub artist_id : ℕ
  pub artist_is_active : Bool
  pub channels : List TargetChannel
  pub output_type : OutputType
  pub quantity : ℕ
  pub aspect : Option Text
  pub duration_sec : Option ℕ
  pub scheduled_on : Option Text
  pub budget_cap : ℕ
  -- the row of `agentId`, if it is given and there
  pub agent : Option Agent
  pub filter_include : List (Text × List Text)
  pub filter_exclude : List (Text × List Text)
  -- the JSON of the concept and the design
  pub policy_text : Text

-- the tables and settings that the validator reads
pub record Checked : Type 0 where
  pub today : Text
  pub day_start : ℕ
  pub min_candidate_assets : ℕ
  pub assets : List LicensedAsset
  pub cost_logs : List CostLog
  pub banned_terms : List Text

-- the cost estimate

pub record UnitPricing : Type 0 where
  pub image_krw : ℕ
  pub video_scene_krw : ℕ
  pub voice_krw : ℕ
  pub music_krw : ℕ
  pub render_krw : ℕ
  pub embedding_krw : ℕ

abbrev pub model_pricing : UnitPricing
model_pricing = record {
  image_krw = 120;
  video_scene_krw = 900;
  voice_krw = 60;
  music_krw = 80;
  render_krw = 40;
  embedding_krw = 5;
}

-- the default of `identityRetryFactor`, in tenths
abbrev pub retry_tenths : ℕ
retry_tenths = 13

abbrev pub image_tenths : UnitPricing → ℕ
image_tenths p = (p.image_krw + p.embedding_krw) * retry_tenths

abbrev pub video_tenths : UnitPricing → Option ℕ → ℕ
video_tenths p duration_sec =
    (p.video_scene_krw + p.embedding_krw) * scene_count (total_ms duration_sec) * retry_tenths
    + (p.voice_krw + p.music_krw + p.render_krw) * 10

abbrev pub wants_image : OutputType → Bool
wants_image type = type == OutputType.image || type == OutputType.both

abbrev pub wants_video : OutputType → Bool
wants_video type = type == OutputType.video || type == OutputType.both

-- `Math.round` of the tenths
unfoldable pub per_content_krw : UnitPricing → OutputType → Option ℕ → ℕ
per_content_krw p type duration_sec =
    ((if wants_image type then image_tenths p else 0)
      + (if wants_video type then video_tenths p duration_sec else 0)
      + 5)
    / 10

unfoldable pub estimate_cost : UnitPricing → OutputType → ℕ → ℕ → Option ℕ → ℕ
unfolding per_content_krw
estimate_cost p type quantity channel_count duration_sec =
    per_content_krw p type duration_sec * (max 1 quantity * max 1 channel_count)

-- the checks; each gives the codes of the errors that it pushes

abbrev pub artist_errors : OrderToCheck → List ErrorCode
artist_errors o = if o.artist_is_active then [] else ErrorCode.artist_inactive ∷ []

abbrev pub channel_errors : OrderToCheck → List ErrorCode
channel_errors o =
    if is_empty o.channels || not (every (λ c. c.is_active) o.channels)
    then ErrorCode.channel_inactive ∷ []
    else []

abbrev pub aspect_differs : Option Text → Option Text → Bool
aspect_differs none b = false
aspect_differs (some a) none = false
aspect_differs (some a) (some b) = not (a == b)

abbrev pub is_too_long : Option ℕ → Option ℕ → Bool
is_too_long none duration = false
is_too_long (some most) duration = ltb 0 most && ltb most (get_or duration 0)

-- one channel's part of check 3
abbrev pub spec_errors_of : OrderToCheck → TargetChannel → List ErrorCode
spec_errors_of o c =
    (if aspect_differs c.aspect o.aspect then ErrorCode.spec_mismatch ∷ [] else [])
    ++ (if wants_video o.output_type && is_too_long c.max_duration_sec o.duration_sec
        then ErrorCode.spec_mismatch ∷ []
        else [])

abbrev pub concat_map : {A B : Type 0} → (A → List B) → List A → List B
concat_map f [] = []
concat_map f (x ∷ xs) = f x ++ concat_map f xs

abbrev pub spec_errors : OrderToCheck → List ErrorCode
spec_errors o = concat_map (spec_errors_of o) o.channels

-- `findCandidates`
abbrev pub is_candidate : OrderToCheck → LicensedAsset → Bool
is_candidate o a =
    a.artist_id == o.artist_id
    && a.is_active
    && not a.is_deleted
    && every (has_included a.attributes) o.filter_include
    && passes_exclude a.attributes o.filter_exclude

unfoldable pub find_candidates : OrderToCheck → Checked → List LicensedAsset
unfolding passes_exclude
find_candidates o ck = filter (is_candidate o) ck.assets

-- `Math.ceil(quantity * 1.5)`
abbrev pub min_required : OrderToCheck → Checked → ℕ
min_required o ck = max ck.min_candidate_assets ((3 * o.quantity + 1) / 2)

abbrev pub amount_errors : ErrorCode → OrderToCheck → Checked → List LicensedAsset → List ErrorCode
amount_errors code o ck found = if ltb (length found) (min_required o ck) then code ∷ [] else []

unfoldable pub allows : TargetChannel → AssetLicense → Bool
unfolding to_lower to_upper
allows c l =
    includes l.allowed_channels (to_lower c.platform)
    && includes l.allowed_regions (to_upper (get_or c.region (b'K' ∷ b'R' ∷ [])))

abbrev pub has_license : (AssetLicense → Bool) → LicensedAsset → Bool
has_license p a = some_of p a.licenses

-- check 5
abbrev pub usage_errors : OrderToCheck → List LicensedAsset → List ErrorCode
usage_errors o candidates =
    concat_map
      (λ c.
        if is_empty (filter (has_license (allows c)) candidates)
        then ErrorCode.license_channel_denied ∷ []
        else [])
      o.channels

abbrev pub is_valid_on : Text → AssetLicense → Bool
is_valid_on date l = text_leb date l.valid_until && text_leb l.valid_from date

abbrev pub publish_date : OrderToCheck → Checked → Text
publish_date o ck = get_or o.scheduled_on ck.today

-- checks 5, 6 and 7
unfoldable pub license_errors : OrderToCheck → Checked → List LicensedAsset → List ErrorCode
license_errors o ck candidates =
    usage_errors o candidates
    ++ amount_errors ErrorCode.license_expired o ck
        (filter (has_license (is_valid_on (publish_date o ck))) candidates)
    ++ amount_errors ErrorCode.derivative_denied o ck
        (filter (has_license (λ l. l.derivative_allowed)) candidates)

unfoldable pub estimate_of : OrderToCheck → ℕ
unfolding estimate_cost
estimate_of o =
    estimate_cost model_pricing o.output_type o.quantity (length o.channels) o.duration_sec

-- check 8
abbrev pub cap_errors : OrderToCheck → ℕ → List ErrorCode
cap_errors o estimate =
    if ltb 0 o.budget_cap && ltb o.budget_cap estimate then ErrorCode.budget_exceeded ∷ [] else []

unfoldable pub spent_today : Checked → ℕ → ℕ
spent_today ck agent_id = sum_cost (filter (is_spent_by agent_id ck.day_start) ck.cost_logs)

abbrev pub working : List AgentLifecycle
working = AgentLifecycle.active ∷ AgentLifecycle.test ∷ []

-- check 9; what remains of the budget may be negative
abbrev pub agent_errors : Checked → Option Agent → ℕ → List ErrorCode
agent_errors ck none estimate = []
agent_errors ck (some a) estimate =
    (if ltb 0 a.daily_budget && ltb a.daily_budget (spent_today ck a.id + estimate)
      then ErrorCode.agent_budget_exceeded ∷ []
      else [])
    ++ (if includes working a.lifecycle then [] else ErrorCode.agent_budget_exceeded ∷ [])

abbrev pub starts_with : Text → Text → Bool
starts_with [] text = true
starts_with (c ∷ term) [] = false
starts_with (c ∷ term) (d ∷ text) = c == d && starts_with term text

-- `text.includes(term)`
abbrev pub contains : Text → Text → Bool
contains [] term = starts_with term []
contains (c ∷ text) term = starts_with term (c ∷ text) || contains text term

-- check 10
abbrev pub policy_hits : OrderToCheck → Checked → List Text
policy_hits o ck = filter (λ t. contains (to_lower o.policy_text) (to_lower t)) ck.banned_terms

abbrev pub policy_errors : OrderToCheck → Checked → List ErrorCode
policy_errors o ck = if is_empty (policy_hits o ck) then [] else ErrorCode.policy_violation ∷ []

-- checks 8, 9 and 10
unfoldable pub budget_errors : OrderToCheck → Checked → ℕ → List ErrorCode
unfolding spent_today
budget_errors o ck estimate =
    cap_errors o estimate ++ agent_errors ck o.agent estimate ++ policy_errors o ck

pub record ValidationResult : Type 0 where
  pub is_ok : Bool
  pub errors : List ErrorCode
  pub estimated_cost_krw : ℕ
  pub candidate_count : ℕ

-- `fail`, or the result without errors
abbrev pub result_of : List ErrorCode → ℕ → ℕ → ValidationResult
result_of errors cost count = record {
  is_ok = is_empty errors;
  errors = errors;
  estimated_cost_krw = cost;
  candidate_count = count;
}

-- an early return, when there are errors
abbrev pub stop_on : List ErrorCode → ℕ → ℕ → ValidationResult → ValidationResult
stop_on [] cost count later = later
stop_on (e ∷ errors) cost count later = result_of (e ∷ errors) cost count

unfoldable pub validate : OrderToCheck → Checked → ValidationResult
unfolding find_candidates license_errors budget_errors
validate o ck =
    let candidates = find_candidates o ck in
    let found = length candidates in
    stop_on (artist_errors o) 0 0 (
      stop_on (channel_errors o) 0 0 (
        stop_on (spec_errors o) 0 0 (
          stop_on (amount_errors ErrorCode.insufficient_assets o ck candidates) 0 found (
            stop_on (license_errors o ck candidates) 0 found
              (result_of (budget_errors o ck (estimate_of o)) (estimate_of o) found)))))

-- one channel's number in `previewCandidates`
abbrev pub is_previewed : Text → TargetChannel → AssetLicense → Bool
is_previewed date c l = allows c l && l.derivative_allowed && text_leb date l.valid_until

pub record CandidatePreview : Type 0 where
  pub total : ℕ
  pub by_channel : List ℕ
  pub sample : List ℕ

-- `previewCandidates`; the channels are the rows that were found for the ids
unfoldable pub preview_candidates : OrderToCheck → Checked → CandidatePreview
unfolding find_candidates
preview_candidates o ck =
    let candidates = find_candidates o ck in
    record {
      total = length candidates;
      by_channel =
          map (λ c. length (filter (has_license (is_previewed (publish_date o ck) c)) candidates))
            o.channels;
      sample = take 12 (map (λ a. a.id) candidates);
    }
