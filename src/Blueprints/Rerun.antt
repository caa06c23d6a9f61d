-- ===== src/Blueprints/Rerun.antt =====
-- A BLUEPRINT task that runs again.
use contents_factory.Common.{ℕ, ◌≡◌, some, List, [], ◌∷◌, nat_eq, find}
use contents_factory.Enums.{OutputType}
use contents_factory.Blueprints.{
  Slot, BlueprintRow, BlueprintOrder, is_at, fill_slots, assets_needed,
}

module _ (order : BlueprintOrder) (ordered : List ℕ) where
  abbrev fill : ℕ → List Slot → List BlueprintRow → List BlueprintRow × List BlueprintRow
  fill = fill_slots order ordered

  -- The rows hold each listed blueprint at its place.
  abbrev IsHeld : List BlueprintRow → List Slot → List BlueprintRow → Type 0
  IsHeld rows [] [] = Unit
  IsHeld rows (slot ∷ slots) (bp ∷ bps) =
      (find (is_at order.id slot) rows ≡ some bp) × IsHeld rows slots bps
  IsHeld rows _ _ = ⊥

  abbrev needed : Slot → ℕ
  needed slot = assets_needed slot.output_type order.duration_sec

-- how many types of content an order is for
abbrev pub type_count : OutputType → ℕ
type_count OutputType.both = 2
type_count _ = 1
