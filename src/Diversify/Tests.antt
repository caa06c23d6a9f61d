-- ===== src/Diversify/Tests.antt =====
-- Four assets of two sessions.
use contents_factory.Common.{All, List, [], length, map, min, refl, take, ℕ, ◌<◌, ◌∷◌, ◌≡◌, ◌≤◌}
use contents_factory.Diversify.{Ranked, diversify, sessions_of}
use contents_factory.Diversify.Choice.{AreCovered, IsDescending, IsSession, diversify_choice}
use contents_factory.Diversify.Rounds.{deal, total}
use contents_factory.Eligibility.{Text, text_eq}

abbrev session : ℕ → Text
session n = n ∷ []

abbrev ranked_of : ℕ → ℕ → ℕ → Ranked ℕ
ranked_of item score day = record { item = item; score = score; session_key = session day }

abbrev four_shots : List (Ranked ℕ)
four_shots = ranked_of 1 90 5 ∷ ranked_of 2 80 5 ∷ ranked_of 3 70 6 ∷ ranked_of 4 60 5 ∷ []

-- the second session's only asset comes before the first session's second
picks_in_turn : map (λ r. r.item) (diversify four_shots 3) ≡ 1 ∷ 3 ∷ 2 ∷ []
unfolding diversify sessions_of
picks_in_turn = refl

diversify_choice_example :
    (length (diversify four_shots 3) ≡ min 3 (length four_shots))
    × (length four_shots ≤ 3 → diversify four_shots 3 ≡ four_shots)
    × (3 < length four_shots
        → diversify four_shots 3 ≡ take 3 (deal (length four_shots) 0 (sessions_of four_shots)))
    × IsDescending (sessions_of four_shots)
    × All (IsSession four_shots) (sessions_of four_shots)
    × AreCovered four_shots (sessions_of four_shots)
    × (total (sessions_of four_shots) ≡ length four_shots)
diversify_choice_example = diversify_choice four_shots 3
