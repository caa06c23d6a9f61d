-- ===== src/Validator/Tests.antt =====
-- An order for one image, and two assets whose licences allow different things.
use contents_factory.Common.{[], false, nat_eq, none, refl, some, true, ◌↔◌, ◌∷◌, ◌≡◌}
use contents_factory.Eligibility.{Text, text_eq}
use contents_factory.Enums.{AgentLifecycle, OutputType, agent_lifecycle_eq}
use contents_factory.Errors.{ErrorCode}
use contents_factory.Validator.{
  preview_candidates, estimate_of, AssetLicense, Checked, LicensedAsset, OrderToCheck,
  TargetChannel, allows, validate,
}
use contents_factory.Validator.Checks.{validate_iff}
use contents_factory.Validator.Requirements.{IsAcceptable}

abbrev korea : Text
korea = b'K' ∷ b'R' ∷ []

abbrev feed : TargetChannel
feed = record {
  is_active = true;
  platform = b'X' ∷ [];
  region = none;
  aspect = some (b'9' ∷ []);
  max_duration_sec = some 60;
}

abbrev for_feed : AssetLicense
for_feed = record {
  allowed_channels = (b'x' ∷ []) ∷ [];
  allowed_regions = korea ∷ [];
  derivative_allowed = false;
  valid_from = b'1' ∷ [];
  valid_until = b'2' ∷ [];
}

-- another licence of the same asset allows derivatives, and later, but not the channel
abbrev for_remix : AssetLicense
for_remix = record {
  allowed_channels = [];
  allowed_regions = korea ∷ [];
  derivative_allowed = true;
  valid_from = b'3' ∷ [];
  valid_until = b'9' ∷ [];
}

abbrev photo : LicensedAsset
photo = record {
  id = 11;
  artist_id = 5;
  is_active = true;
  is_deleted = false;
  attributes = [];
  licenses = for_feed ∷ for_remix ∷ [];
}

abbrev two_photos : Checked
two_photos = record {
  today = b'4' ∷ [];
  day_start = 0;
  min_candidate_assets = 1;
  assets = photo ∷ photo ∷ [];
  cost_logs = [];
  banned_terms = (b'B' ∷ b'a' ∷ b'd' ∷ []) ∷ [];
}

abbrev one_image : OrderToCheck
one_image = record {
  artist_id = 5;
  artist_is_active = true;
  channels = feed ∷ [];
  output_type = OutputType.image;
  quantity = 1;
  aspect = some (b'9' ∷ []);
  duration_sec = none;
  scheduled_on = none;
  budget_cap = 200;
  agent = some (record {
    id = 6;
    approval_level = 1;
    daily_budget = 500;
    lifecycle = AgentLifecycle.active;
  });
  filter_include = [];
  filter_exclude = [];
  policy_text = b'g' ∷ b'o' ∷ b'o' ∷ b'd' ∷ [];
}

-- The order is accepted at 163 won, though no licence of its assets allows all that it needs.
accepted :
    validate one_image two_photos
    ≡ record { is_ok = true; errors = []; estimated_cost_krw = 163; candidate_count = 2 }
unfolding validate allows estimate_of
accepted = refl

refused_for_term :
    validate (record one_image { policy_text = b'a' ∷ b'B' ∷ b'A' ∷ b'D' ∷ [] }) two_photos
    ≡ record {
      is_ok = false;
      errors = ErrorCode.policy_violation ∷ [];
      estimated_cost_krw = 163;
      candidate_count = 2;
    }
unfolding validate allows estimate_of
refused_for_term = refl

validate_iff_example :
    ((validate one_image two_photos).is_ok ≡ true) ↔ IsAcceptable one_image two_photos
validate_iff_example = validate_iff one_image two_photos

-- The preview counts no asset for the channel, though the order is accepted.
previewed_none :
    preview_candidates one_image two_photos
    ≡ record { total = 2; by_channel = 0 ∷ []; sample = 11 ∷ 11 ∷ [] }
unfolding preview_candidates allows
previewed_none = refl
