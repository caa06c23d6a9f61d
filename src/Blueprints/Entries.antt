-- ===== src/Blueprints/Entries.antt =====
-- The blueprints that a run returns fit the schema of its result.
use contents_factory.Common.{
  ℕ, zero, suc, ◌+◌, ◌-◌, ◌≤◌, ◌<◌, ◌≡◌, refl, subst, inl, inr, Bool, true, false, ◌&&◌, ◌==◌,
  nat_eq, not, ltb, some, List, [], ◌∷◌, ◌++◌, arith, get_or, find, max, if◌then◌else◌, length,
  every, All, All-append, Bool-cases, Option-cases,
}
use contents_factory.Enums.{OutputType, output_type_eq}
use contents_factory.Blueprints.{
  is_last, scene_min_ms, Slot, BlueprintRow, BlueprintOrder, scenes_from, build_scene_plan,
  slots_of_type, slots_for, slots_of, is_at, new_blueprint, fill_slots, is_valid_scene,
  is_valid_entry, assets_needed, pick_rotating,
}
use contents_factory.Blueprints.Durations.{IsInRange, scene_plan_fills}

abbrev pub IsValidEntry : BlueprintRow → Type 0
IsValidEntry bp = is_valid_entry bp ≡ true

-- a place with a number, for one type of output
abbrev pub IsPlace : Slot → Type 0
IsPlace slot = (0 < slot.seq) × ((slot.output_type == OutputType.both) ≡ false)

All-find :
    {A : Type 0} (P : A → Type 0) (p : A → Bool) (xs : List A) (a : A)
    → find p xs ≡ some a
    → All P xs
    → P a
All-find P p [] a e h = absurd (cc e)
All-find P p (x ∷ xs) a e h = elim (Bool-cases (p x)) [
  | inl hit ↦
      let same : x ≡ a = (let found : some x ≡ some a = rw hit at e in ground arith) in
      subst P same h.0
  | inr miss ↦ All-find P p xs a (rw miss at e) h.1
]

slots_of_type-IsPlace :
    (channel n seq : ℕ) (type : OutputType)
    → (type == OutputType.both) ≡ false
    → All IsPlace (slots_of_type channel type n seq)
slots_of_type-IsPlace channel zero seq type h = tt
slots_of_type-IsPlace channel (suc n) seq type h =
    ((omega arith, h), slots_of_type-IsPlace channel n (suc seq) type h)

slots_for-IsPlace :
    (type : OutputType) (quantity channel : ℕ) → All IsPlace (slots_for type quantity channel)
slots_for-IsPlace OutputType.both quantity channel =
    All-append IsPlace (slots_of_type channel OutputType.image quantity 0)
      (slots_of_type channel OutputType.video quantity quantity)
      (slots_of_type-IsPlace channel quantity 0 OutputType.image refl)
      (slots_of_type-IsPlace channel quantity quantity OutputType.video refl)
slots_for-IsPlace OutputType.image quantity channel =
    slots_of_type-IsPlace channel quantity 0 OutputType.image refl
slots_for-IsPlace OutputType.video quantity channel =
    slots_of_type-IsPlace channel quantity 0 OutputType.video refl

pub slots_of-IsPlace :
    (order : BlueprintOrder) (channels : List ℕ) → All IsPlace (slots_of order channels)
slots_of-IsPlace order [] = tt
slots_of-IsPlace order (channel ∷ channels) =
    All-append IsPlace (slots_for order.output_type order.quantity channel)
      (slots_of order channels) (slots_for-IsPlace order.output_type order.quantity channel)
      (slots_of-IsPlace order channels)

scenes_numbered :
    (base remaining : ℕ) (picked : List ℕ) (i n : ℕ)
    → All IsInRange (scenes_from base remaining picked i n)
    → every is_valid_scene (scenes_from base remaining picked i n) ≡ true
scenes_numbered base remaining picked i zero h = refl
scenes_numbered base remaining picked i (suc n) h =
    let rest = remaining - (if is_last n then max scene_min_ms remaining else base) in
    ground (arith, scenes_numbered base rest picked (suc i) n h.1, h.0)

module _ (order : BlueprintOrder) (ordered : List ℕ) (least : 5 ≤ get_or order.duration_sec 30)
    (most : get_or order.duration_sec 30 ≤ 600) where
  plan_valid :
      (picked : List ℕ) → every is_valid_scene (build_scene_plan order.duration_sec picked) ≡ true
  unfolding build_scene_plan
  plan_valid picked =
      scenes_numbered _ _ picked 0 _ (scene_plan_fills order.duration_sec picked least most).1

  new_blueprint-IsValidEntry :
      (cursor : ℕ) (slot : Slot) (id : ℕ)
      → IsPlace slot
      → IsValidEntry (new_blueprint order ordered cursor slot id)
  unfolding new_blueprint
  new_blueprint-IsValidEntry cursor slot id h = by_type slot.output_type h.1
    where
      picked : List ℕ
      picked = pick_rotating ordered cursor (assets_needed slot.output_type order.duration_sec)

      by_type :
          (type : OutputType)
          → (type == OutputType.both) ≡ false
          → (ltb 0 slot.seq
              && (not (type == OutputType.both)
                  && every is_valid_scene (elim type [
                    | OutputType.video ↦ build_scene_plan order.duration_sec picked
                    | _ ↦ []
                  ])))
            ≡ true
      by_type OutputType.image e = ground (arith, h)
      by_type OutputType.video e = ground (arith, h, plan_valid picked)
      by_type OutputType.both e = absurd (cc e)

  -- all that is found or made fits, if the rows that are there do
  pub fill_slots-IsValidEntry :
      (cursor : ℕ) (slots : List Slot) (rows : List BlueprintRow)
      → All IsPlace slots
      → All IsValidEntry rows
      → All IsValidEntry (fill_slots order ordered cursor slots rows).0
  unfolding fill_slots
  fill_slots-IsValidEntry cursor [] rows places h = tt
  fill_slots-IsValidEntry cursor (slot ∷ slots) rows places h =
      let next = cursor + assets_needed slot.output_type order.duration_sec in
      let row = new_blueprint order ordered cursor slot (length rows) in
      let made = new_blueprint-IsValidEntry cursor slot (length rows) places.0 in
      elim (Option-cases (find (is_at order.id slot) rows)) [
        | inl absent ↦
            rw (absent, fill_slots)
              (
                made,
                fill_slots-IsValidEntry next slots (rows ++ row ∷ []) places.1
                    (All-append IsValidEntry rows (row ∷ []) h (made, tt)),
              )
        | inr (old, there) ↦
            rw (there, fill_slots)
              (
                All-find IsValidEntry (is_at order.id slot) rows old there h,
                fill_slots-IsValidEntry next slots rows places.1 h,
              )
      ]
