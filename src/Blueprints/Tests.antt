-- ===== src/Blueprints/Tests.antt =====
-- An order for images and videos of ten seconds on two channels.
use contents_factory.Common.{
  All, List, Option, [], arith, get_or, length, nat_eq, refl, some, ℕ, ◌*◌, ◌∷◌, ◌≡◌,
}
use contents_factory.Blueprints.{BlueprintOrder, assets_needed, build_scene_plan}
use contents_factory.Blueprints.Durations.{IsInRange, scene_plan_fills, total_duration}
use contents_factory.Enums.{OutputType, output_type_eq}

abbrev ten_seconds : Option ℕ
ten_seconds = some 10

abbrev three_assets : List ℕ
three_assets = 11 ∷ 12 ∷ 13 ∷ []

abbrev both_order : BlueprintOrder
both_order = record {
  id = 7;
  output_type = OutputType.both;
  quantity = 2;
  channels = 1 ∷ 2 ∷ [];
  duration_sec = ten_seconds;
}

-- 3333 + 3333 + 3334 milliseconds
ten_seconds_in_three : total_duration (build_scene_plan ten_seconds three_assets) ≡ 10000
unfolding build_scene_plan
ten_seconds_in_three = refl

scene_plan_fills_example :
    let plan = build_scene_plan ten_seconds three_assets in
    (total_duration plan ≡ get_or ten_seconds 30 * 1000)
    × All IsInRange plan
    × (length plan ≡ assets_needed OutputType.video ten_seconds)
scene_plan_fills_example = scene_plan_fills ten_seconds three_assets (omega arith) (omega arith)
