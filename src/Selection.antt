-- ===== src/Selection.antt =====
-- apps/worker/src/processors/selection.processor.ts: the assets an order's contents are made of.
-- `fitScore` (libs/domain/src/selection/fit-score.ts) computes in floating point; it is a parameter
-- that gives hundredths, from the asset and the number of its uses. The candidates' query has no
-- order, so it reads the table in the order of the list; a date is its text, YYYY-MM-DD.
pub mod Outcome
mod Tests
use contents_factory.Common.{
  ℕ, zero, suc, ◌+◌, ◌*◌, min, max, Bool, true, false, not, Option, none, some, List, [], ◌∷◌, ◌++◌,
  ◌&&◌, ◌==◌, nat_eq, ltb, if◌then◌else◌, get_or, filter, find, every, some_of, is_empty, length,
  map, take,
}
use contents_factory.Enums.{QualityGrade}
use contents_factory.Errors.{
  ErrorCode, Thrown, app, other, app_error, default_failure_class, Result, ok, err,
}
use contents_factory.Eligibility.{
  Text, text_eq, text_leb, to_lower, to_upper, LicenseFacts, AssetAttributes, lookup,
  EligibilityCandidate, TargetChannel, EligibilityRequirement, is_eligible,
}
use contents_factory.Diversify.{Ranked, diversify}

pub record Asset : Type 0 where
  pub id : ℕ
  pub artist_id : ℕ
  pub is_active : Bool
  pub is_deleted : Bool
  pub attributes : AssetAttributes
  pub quality_grade : QualityGrade
  pub shot_at : Option Text
  pub licenses : List LicenseFacts

pub record SelectionChannel : Type 0 where
  pub platform : Text
  pub region : Option Text

pub record SelectionOrder : Type 0 where
  pub id : ℕ
  pub artist_id : ℕ
  pub quantity : ℕ
  pub channels : List SelectionChannel
  -- the day of `scheduledAt`
  pub scheduled_on : Option Text
  pub derivative_level : ℕ
  pub allowed_grades : List QualityGrade
  pub filter_include : List (Text × List Text)
  pub filter_exclude : List (Text × List Text)

pub record Selection : Type 0 where
  pub order_id : ℕ
  pub asset_id : ℕ
  pub rank : ℕ
  pub fit_score : ℕ
  pub license_ok : Bool
  pub valid_until : Text

pub data GapReason : Type 0 where
  no_eligible_asset insufficient_coverage : GapReason

pub record CoverageGap : Type 0 where
  pub order_id : ℕ
  pub artist_id : ℕ
  pub best_fit_score : Option ℕ
  pub best_asset_id : Option ℕ
  pub reason : GapReason

pub record SelectionDb : Type 0 where
  pub orders : List SelectionOrder
  pub assets : List Asset
  -- the asset of each row of asset_usages
  pub usages : List ℕ
  pub selections : List Selection
  pub gaps : List CoverageGap

pub record Scored : Type 0 where
  pub asset : Asset
  pub score : ℕ

-- `MIN_FIT`
abbrev pub min_fit : ℕ
min_fit = 4500

-- `attributes @> {attr: v}` for some of the values; an empty list of values is no condition
abbrev pub has_included : AssetAttributes → Text × List Text → Bool
has_included attributes (attr, values) =
    if is_empty values
    then true
    else some_of (λ v. elim (lookup attr attributes) [ none ↦ false | some u ↦ u == v ]) values

abbrev pub in_pool : SelectionOrder → Asset → Bool
in_pool order a =
    a.artist_id == order.artist_id
    && a.is_active
    && not a.is_deleted
    && every (has_included a.attributes) order.filter_include

unfoldable pub candidate_pool : SelectionOrder → SelectionDb → List Asset
candidate_pool order db = filter (in_pool order) db.assets

unfoldable pub requirement : Text → SelectionOrder → EligibilityRequirement
unfolding to_lower to_upper
requirement today order = record {
  channels =
      map
        (λ c. record {
          platform = to_lower c.platform;
          region = to_upper (get_or c.region (b'K' ∷ b'R' ∷ []));
        })
        order.channels;
  publish_date = get_or order.scheduled_on today;
  derivative_level = order.derivative_level;
  allowed_grades = order.allowed_grades;
  exclude = order.filter_exclude;
}

abbrev pub candidate_of : Asset → EligibilityCandidate
candidate_of a = record {
  attributes = a.attributes;
  quality_grade = a.quality_grade;
  licenses = a.licenses;
}

-- the loop of the filter; its tally of reasons goes to the log and to the error's details only
unfoldable pub eligible_assets : EligibilityRequirement → List Asset → List Asset
unfolding is_eligible
eligible_assets req pool = filter (λ a. is_eligible (candidate_of a) req) pool

abbrev pub usage_count : SelectionDb → ℕ → ℕ
usage_count db id = length (filter (λ u. u == id) db.usages)

-- `sort((a, b) => b.score - a.score)`, which is stable
abbrev pub insert_scored : Scored → List Scored → List Scored
insert_scored s [] = s ∷ []
insert_scored s (t ∷ scored) =
    if ltb s.score t.score then t ∷ insert_scored s scored else s ∷ t ∷ scored

abbrev pub sort_scored : List Scored → List Scored
sort_scored [] = []
sort_scored (s ∷ scored) = insert_scored s (sort_scored scored)

-- the last of the sorted dates
abbrev pub latest_date : List Text → Option Text
latest_date [] = none
latest_date (d ∷ dates) = elim (latest_date dates) [
  | none ↦ some d
  | some e ↦ if text_leb d e then some e else some d
]

unfoldable pub effective_valid_until : Asset → Text → Text
effective_valid_until a date =
    let valid =
      filter (λ l. text_leb l.valid_from date && text_leb date l.valid_until) a.licenses in
    get_or (latest_date (map (λ l. l.valid_until) valid)) date

unfoldable pub record_gap :
    SelectionOrder → Option ℕ → Option ℕ → GapReason → SelectionDb → SelectionDb
record_gap order score best reason db = record {
  orders = db.orders;
  assets = db.assets;
  usages = db.usages;
  selections = db.selections;
  gaps =
      record {
        order_id = order.id;
        artist_id = order.artist_id;
        best_fit_score = score;
        best_asset_id = best;
        reason = reason;
      }
      ∷ db.gaps;
}

abbrev pub rank_of : Scored → Ranked Scored
rank_of s = record {
  item = s;
  score = s.score;
  session_key = get_or s.asset.shot_at (b'u' ∷ b'n' ∷ b'k' ∷ b'n' ∷ b'o' ∷ b'w' ∷ b'n' ∷ []);
}

unfoldable pub wanted : SelectionOrder → List Scored → ℕ
wanted order scored = min (length scored) (max 8 (order.quantity * length order.channels * 3))

unfoldable pub choose : SelectionOrder → List Scored → List Scored
unfolding diversify wanted
choose order scored =
    let k = wanted order scored in
    map (λ r. r.item) (diversify (map rank_of (take (k * 3) scored)) k)

-- the rows of the chosen assets, the first of them with the given rank
unfoldable pub selections_from : ℕ → ℕ → Text → List Scored → List Selection
unfolding effective_valid_until
selections_from rank order_id date [] = []
selections_from rank order_id date (s ∷ chosen) =
    record {
      order_id = order_id;
      asset_id = s.asset.id;
      rank = rank;
      fit_score = s.score;
      license_ok = true;
      valid_until = effective_valid_until s.asset date;
    }
    ∷ selections_from (suc rank) order_id date chosen

-- the earlier result is deleted
unfoldable pub save_selections : ℕ → List Selection → SelectionDb → SelectionDb
save_selections order_id rows db = record {
  orders = db.orders;
  assets = db.assets;
  usages = db.usages;
  selections = filter (λ s. not (s.order_id == order_id)) db.selections ++ rows;
  gaps = db.gaps;
}

module _ (fit_score : Asset → ℕ → ℕ) where
  abbrev pub score_of : SelectionDb → Asset → Scored
  score_of db a = record { asset = a; score = fit_score a (usage_count db a.id) }

  unfoldable pub score_all : SelectionDb → List Asset → List Scored
  score_all db eligible = sort_scored (map (score_of db) eligible)

  -- the rest of `process`, once the candidates are scored
  abbrev pub select :
      Text → SelectionOrder → List Scored → SelectionDb → Result (List Selection) × SelectionDb
  unfolding choose selections_from save_selections record_gap requirement
  select today order [] db = (
    err (app (app_error ErrorCode.selection_no_eligible_asset)),
    record_gap order none none no_eligible_asset db,
  )
  select today order (best ∷ scored) db =
      let rows =
        selections_from 1 order.id (requirement today order).publish_date
          (choose order (best ∷ scored)) in
      if ltb best.score min_fit
      then (
        err (app (app_error ErrorCode.selection_insufficient_coverage)),
        record_gap order (some best.score) (some best.asset.id) insufficient_coverage db,
      )
      else (ok rows, save_selections order.id rows db)

  unfoldable pub process : Text → ℕ → SelectionDb → Result (List Selection) × SelectionDb
  unfolding select score_all eligible_assets requirement candidate_pool
  process today order_id db = elim (find (λ o. o.id == order_id) db.orders) [
    | none ↦ (err (app (app_error ErrorCode.order_not_found)), db)
    | some order ↦
        let pool = candidate_pool order db in
        select today order (score_all db (eligible_assets (requirement today order) pool)) db
  ]
