-- ===== src/Selection/Tests.antt =====
-- A selection from two assets, of which one has a licence.
use contents_factory.Common.{List, [], false, nat_eq, none, true, ℕ, ◌∷◌}
use contents_factory.Eligibility.{LicenseFacts, Text}
use contents_factory.Enums.{QualityGrade}
use contents_factory.Selection.{Asset, Selection, SelectionDb, SelectionOrder}

abbrev licence : LicenseFacts
licence = record {
  allowed_channels = (b'y' ∷ []) ∷ [];
  allowed_regions = (b'K' ∷ b'R' ∷ []) ∷ [];
  derivative_level = 3;
  valid_from = b'2' ∷ [];
  valid_until = b'4' ∷ [];
}

abbrev asset_of : ℕ → List LicenseFacts → Asset
asset_of id licenses = record {
  id = id;
  artist_id = 1;
  is_active = true;
  is_deleted = false;
  attributes = [];
  quality_grade = QualityGrade.a;
  shot_at = none;
  licenses = licenses;
}

abbrev order_one : SelectionOrder
order_one = record {
  id = 7;
  artist_id = 1;
  quantity = 1;
  channels = record { platform = b'Y' ∷ []; region = none } ∷ [];
  scheduled_on = none;
  derivative_level = 3;
  allowed_grades = [];
  filter_include = [];
  filter_exclude = [];
}

abbrev two_assets : SelectionDb
two_assets = record {
  orders = order_one ∷ [];
  assets = asset_of 11 [] ∷ asset_of 12 (licence ∷ []) ∷ [];
  usages = [];
  selections = [];
  gaps = [];
}

abbrev flat_score : Asset → ℕ → ℕ
flat_score a uses = 6000

abbrev third : Text
third = b'3' ∷ []
