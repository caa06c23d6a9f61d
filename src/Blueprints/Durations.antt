-- ===== src/Blueprints/Durations.antt =====
-- The scenes of a video fill its length.
use contents_factory.Common.{
  ℕ, zero, suc, ◌+◌, ◌-◌, ◌*◌, ◌≤◌, ◌<◌, ◌≡◌, refl, ap, Bool, true, ◌&&◌, Option, List, [], ◌∷◌,
  arith, leb, ◌==◌, nat_eq, get_or, length, All, subst, inl, inr, Bool-cases,
}
use contents_factory.Enums.{OutputType}
use contents_factory.Blueprints.{
  ScenePlan, scene_min_ms, scene_max_ms, total_ms, scene_count, base_ms, scenes_from,
  build_scene_plan, assets_needed,
}

abbrev pub total_duration : List ScenePlan → ℕ
total_duration [] = 0
total_duration (s ∷ plan) = s.duration_ms + total_duration plan

-- between the least and the greatest duration of a scene
abbrev pub IsInRange : ScenePlan → Type 0
IsInRange s = (scene_min_ms ≤ s.duration_ms) × (s.duration_ms ≤ scene_max_ms)

-- what the base duration leaves for the last of `suc n` scenes
abbrev fits : ℕ → ℕ → ℕ → Bool
fits total base n = leb (n * base + scene_min_ms) total && leb total (n * base + scene_max_ms)

abbrev fits_seconds : ℕ → Bool
fits_seconds s = fits (s * 1000) (base_ms (s * 1000)) (scene_count (s * 1000) - 1)

abbrev holds_upto : (ℕ → Bool) → ℕ → Bool
holds_upto p zero = true
holds_upto p (suc n) = p n && holds_upto p n

holds_below : (p : ℕ → Bool) (n k : ℕ) → holds_upto p n ≡ true → k < n → p k ≡ true
holds_below p zero k h lt = absurd (omega arith)
holds_below p (suc n) k h lt = elim (Bool-cases (k == n)) [
  | inl same ↦ let e : n ≡ k = ground arith in subst (λ m. p m ≡ true) e (ground (arith, h))
  | inr other ↦ holds_below p n k (ground (arith, h)) (ground (arith, lt, other))
]

five_to_600 : holds_upto (λ n. fits_seconds (n + 5)) 596 ≡ true
five_to_600 = refl

fits_bounds :
    (total base n : ℕ)
    → fits total base n ≡ true
    → (n * base + scene_min_ms ≤ total) × (total ≤ n * base + scene_max_ms)
fits_bounds total base n h = ground (arith, h)

base_bounds : (total : ℕ) → (scene_min_ms ≤ base_ms total) × (base_ms total ≤ scene_max_ms)
base_bounds total = omega arith

scenes_fill :
    (base remaining : ℕ) (picked : List ℕ) (i n : ℕ)
    → scene_min_ms ≤ base
    → base ≤ scene_max_ms
    → n * base + scene_min_ms ≤ remaining
    → remaining ≤ n * base + scene_max_ms
    → let plan = scenes_from base remaining picked i (suc n) in
      (total_duration plan ≡ remaining) × All IsInRange plan × (length plan ≡ suc n)
scenes_fill base remaining picked i zero low high least most =
    (omega arith, ((omega arith, omega arith), tt), refl)
scenes_fill base remaining picked i (suc n) low high least most =
    let (sum, ranges, many) =
      scenes_fill base (remaining - base) picked (suc i) n low high (omega (arith, least))
        (omega (arith, most)) in
    (omega (arith, sum, least), ((low, high), ranges), ap suc many)

-- A video of 5 to 600 whole seconds, as the request's schema allows, or of 30 where none are given, is
-- cut into scenes of 3 to 6 seconds whose durations add up to its length exactly; their number is that of
-- the assets it asks for.
pub scene_plan_fills :
    (duration_sec : Option ℕ) (picked : List ℕ)
    → 5 ≤ get_or duration_sec 30
    → get_or duration_sec 30 ≤ 600
    → let plan = build_scene_plan duration_sec picked in
      (total_duration plan ≡ get_or duration_sec 30 * 1000)
      × All IsInRange plan
      × (length plan ≡ assets_needed OutputType.video duration_sec)
unfolding build_scene_plan assets_needed
scene_plan_fills duration_sec picked least most =
    let total = total_ms duration_sec in
    let secs = get_or duration_sec 30 in
    let whole : secs - 5 + 5 ≡ secs = omega (arith, least) in
    let fit : fits_seconds secs ≡ true =
      subst (λ s. fits_seconds s ≡ true) whole
        (holds_below (λ n. fits_seconds (n + 5)) 596 (secs - 5) five_to_600
          (omega (arith, most))) in
    let n = scene_count total - 1 in
    let some_scene : suc n ≡ scene_count total = omega arith in
    let base = base_ms total in
    let bounds = base_bounds total in
    let ends = fits_bounds total base n fit in
    subst
      (λ m.
        let plan = scenes_from base total picked 0 m in
        (total_duration plan ≡ total) × All IsInRange plan × (length plan ≡ m))
      some_scene (scenes_fill base total picked 0 n bounds.0 bounds.1 ends.0 ends.1)
