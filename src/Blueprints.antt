-- ===== src/Blueprints.antt =====
-- apps/worker/src/processors/blueprint.processor.ts: one blueprint for every content that an order
-- asks for, and the scenes of a video. The texts of a blueprint (layout, style, prompts, subtitles) are
-- left out; an order without a duration has none in `duration_sec`.
pub mod Durations
pub mod Entries
pub mod Rerun
mod Tests
use contents_factory.Common.{
  ℕ, zero, suc, ◌+◌, ◌-◌, ◌*◌, ◌/◌, ◌%◌, min, max, true, false, Option, none, some, List, [], ◌∷◌,
  ◌++◌, ◌&&◌, ◌==◌, nat_eq, if◌then◌else◌, get_or, is_some, find, filter, includes, length, Bool,
  not, ltb, leb, every, is_empty,
}
use contents_factory.Enums.{OutputType, output_type_eq}
use contents_factory.Errors.{
  ErrorCode, Thrown, app, app_error, default_failure_class, Result, ok, err, other,
}

-- where a scene's picture comes from
pub data SourceType : Type 0 where
  real_image ai_video : SourceType

pub record ScenePlan : Type 0 where
  pub seq : ℕ
  pub duration_ms : ℕ
  pub source_type : SourceType
  pub source_asset_id : Option ℕ

abbrev pub scene_min_ms : ℕ
scene_min_ms = 3000

abbrev pub scene_max_ms : ℕ
scene_max_ms = 6000

abbrev pub default_scene_ms : ℕ
default_scene_ms = 4000

-- `Math.round(a / b)` of numbers that are not negative, b > 0
abbrev pub round_div : ℕ → ℕ → ℕ
round_div a b = (2 * a + b) / (2 * b)

abbrev pub total_ms : Option ℕ → ℕ
total_ms duration_sec = get_or duration_sec 30 * 1000

abbrev pub scene_count : ℕ → ℕ
scene_count total = max 1 (round_div total default_scene_ms)

abbrev pub base_ms : ℕ → ℕ
base_ms total = min scene_max_ms (max scene_min_ms (round_div total (scene_count total)))

-- `list[i]`
abbrev pub nth_asset : ℕ → List ℕ → Option ℕ
nth_asset n [] = none
nth_asset zero (x ∷ xs) = some x
nth_asset (suc n) (x ∷ xs) = nth_asset n xs

-- no scene comes after this one
abbrev pub is_last : ℕ → Bool
is_last zero = true
is_last (suc left) = false

-- the loop with `left` scenes to go; what remains may fall below zero only after the last scene or
-- where the last one gets the least duration anyway
abbrev pub scenes_from : ℕ → ℕ → List ℕ → ℕ → ℕ → List ScenePlan
scenes_from base remaining picked i zero = []
scenes_from base remaining picked i (suc left) =
    let duration = if is_last left then max scene_min_ms remaining else base in
    let asset = nth_asset (i % max 1 (length picked)) picked in
    let use_real = i % 2 == 0 && is_some asset in
    record {
      seq = suc i;
      duration_ms = duration;
      source_type = if use_real then real_image else ai_video;
      source_asset_id = asset;
    }
    ∷ scenes_from base (remaining - duration) picked (suc i) left

unfoldable pub build_scene_plan : Option ℕ → List ℕ → List ScenePlan
build_scene_plan duration_sec picked =
    let total = total_ms duration_sec in
    scenes_from (base_ms total) total picked 0 (scene_count total)

unfoldable pub assets_needed : OutputType → Option ℕ → ℕ
assets_needed OutputType.video duration_sec =
    max 1 (round_div (get_or duration_sec 30 * 1000) default_scene_ms)
assets_needed _ duration_sec = 1

-- `pickRotating`
abbrev pub pick_from : List ℕ → ℕ → ℕ → List ℕ
pick_from list start zero = []
pick_from list start (suc n) = elim (nth_asset (start % max 1 (length list)) list) [
  | none ↦ pick_from list (suc start) n
  | some a ↦ a ∷ pick_from list (suc start) n
]

unfoldable pub pick_rotating : List ℕ → ℕ → ℕ → List ℕ
pick_rotating [] start n = []
pick_rotating (a ∷ list) start n = pick_from (a ∷ list) start n

-- a place that an order has for a content; its blueprint is unique by channel and number
pub record Slot : Type 0 where
  pub channel_id : ℕ
  pub seq : ℕ
  pub output_type : OutputType

pub record BlueprintRow : Type 0 where
  pub id : ℕ
  pub order_id : ℕ
  pub channel_id : ℕ
  pub seq : ℕ
  pub output_type : OutputType
  pub scene_plan : List ScenePlan

pub record BlueprintOrder : Type 0 where
  pub id : ℕ
  pub output_type : OutputType
  pub quantity : ℕ
  pub channels : List ℕ
  pub duration_sec : Option ℕ

-- `n` places of one type, behind the number `seq`
abbrev pub slots_of_type : ℕ → OutputType → ℕ → ℕ → List Slot
slots_of_type channel type zero seq = []
slots_of_type channel type (suc n) seq =
    record { channel_id = channel; seq = suc seq; output_type = type }
    ∷ slots_of_type channel type n (suc seq)

-- the loops over the output types and the quantity, for one channel
abbrev pub slots_for : OutputType → ℕ → ℕ → List Slot
slots_for OutputType.both quantity channel =
    slots_of_type channel OutputType.image quantity 0
    ++ slots_of_type channel OutputType.video quantity quantity
slots_for type quantity channel = slots_of_type channel type quantity 0

abbrev pub slots_of : BlueprintOrder → List ℕ → List Slot
slots_of order [] = []
slots_of order (channel ∷ channels) =
    slots_for order.output_type order.quantity channel ++ slots_of order channels

abbrev pub is_at : ℕ → Slot → BlueprintRow → Bool
is_at order_id slot bp =
    bp.order_id == order_id && (bp.channel_id == slot.channel_id && bp.seq == slot.seq)

-- `ordered` holds the assets of the selections by rank, `cursor` is where the next are picked
unfoldable pub new_blueprint : BlueprintOrder → List ℕ → ℕ → Slot → ℕ → BlueprintRow
unfolding build_scene_plan pick_rotating assets_needed
new_blueprint order ordered cursor slot id =
    let picked = pick_rotating ordered cursor (assets_needed slot.output_type order.duration_sec) in
    record {
      id = id;
      order_id = order.id;
      channel_id = slot.channel_id;
      seq = slot.seq;
      output_type = slot.output_type;
      scene_plan = elim slot.output_type [
        | OutputType.video ↦ build_scene_plan order.duration_sec picked
        | _ ↦ []
      ];
    }

-- the innermost body for every place in turn; the result lists the rows, found or created
unfoldable pub fill_slots :
    BlueprintOrder
    → List ℕ
    → ℕ
    → List Slot
    → List BlueprintRow
    → List BlueprintRow × List BlueprintRow
unfolding new_blueprint assets_needed
fill_slots order ordered cursor [] rows = ([], rows)
fill_slots order ordered cursor (slot ∷ slots) rows =
    let next = cursor + assets_needed slot.output_type order.duration_sec in
    let row = new_blueprint order ordered cursor slot (length rows) in
    let found = find (is_at order.id slot) rows in
    let kept = fill_slots order ordered next slots rows in
    let grown = fill_slots order ordered next slots (rows ++ row ∷ []) in
    elim found [ some existing ↦ (existing ∷ kept.0, kept.1) | none ↦ (row ∷ grown.0, grown.1) ]

-- the selected assets that still exist, by rank
abbrev pub ordered_assets : List ℕ → List ℕ → List ℕ
ordered_assets assets selections = filter (λ id. includes assets id) selections

-- `ScenePlanSchema`, beyond the types
abbrev pub is_valid_scene : ScenePlan → Bool
is_valid_scene s = ltb 0 s.seq && (leb 1000 s.duration_ms && leb s.duration_ms 15000)

-- an entry of `BlueprintResult`, beyond the types
abbrev pub is_valid_entry : BlueprintRow → Bool
is_valid_entry bp =
    ltb 0 bp.seq && (not (bp.output_type == OutputType.both) && every is_valid_scene bp.scene_plan)

-- `BlueprintResult.parse(result)`, which asks for at least one blueprint, and the return
unfoldable pub parsed : List BlueprintRow → Result (List BlueprintRow)
parsed bps = if not (is_empty bps) && every is_valid_entry bps then ok bps else err other

-- `process` for the order, if it was found, with the ids of its selected assets by rank
unfoldable pub process :
    Option BlueprintOrder
    → List ℕ
    → List ℕ
    → List BlueprintRow
    → Result (List BlueprintRow) × List BlueprintRow
unfolding fill_slots parsed
process none assets selections rows = (err (app (app_error ErrorCode.order_not_found)), rows)
process (some order) assets [] rows = (err (app (app_error ErrorCode.insufficient_assets)), rows)
process (some order) assets (asset ∷ selections) rows =
    let ordered = ordered_assets assets (asset ∷ selections) in
    let filled = fill_slots order ordered 0 (slots_of order order.channels) rows in
    (parsed filled.0, filled.1)
