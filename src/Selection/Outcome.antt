-- ===== src/Selection/Outcome.antt =====
-- What the selection leaves behind: refused orders with their coverage gap, or the chosen assets.
use contents_factory.Common.{ℕ, suc, ◌≤◌, ◌≡◌, true, List, [], ◌∷◌, nat_eq, All, Any}
use contents_factory.Eligibility.{EligibilityRequirement, is_eligible}
use contents_factory.Selection.{Asset, SelectionOrder, Selection, Scored, in_pool, candidate_of}

-- An asset with this id is in the order's pool and passes the filter on licences and policies.
abbrev pub IsOffered : SelectionOrder → EligibilityRequirement → List Asset → ℕ → Type 0
IsOffered order req assets id =
    Any (λ a. (a.id ≡ id) × (in_pool order a ≡ true) × (is_eligible (candidate_of a) req ≡ true))
      assets

-- Nothing scores more than the first.
abbrev IsTop : List Scored → Type 0
IsTop [] = Unit
IsTop (best ∷ scored) = All (λ s. s.score ≤ best.score) (best ∷ scored)

-- the ranks from the first one on
abbrev pub IsRankedFrom : ℕ → List Selection → Type 0
IsRankedFrom n [] = Unit
IsRankedFrom n (s ∷ rows) = (s.rank ≡ n) × IsRankedFrom (suc n) rows
