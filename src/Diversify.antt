-- ===== src/Diversify.antt =====
-- libs/domain/src/selection/fit-score.ts: `diversify`, which takes the best assets in turn from the
-- sessions they were shot in. A score is in hundredths.
pub mod Groups
pub mod Rounds
pub mod Choice
mod Tests
use contents_factory.Common.{
  ℕ, zero, suc, ◌-◌, Bool, true, false, Option, none, some, List, [], ◌∷◌, ◌++◌, ◌==◌, ltb, leb,
  if◌then◌else◌, length, is_empty, map,
}
use contents_factory.Eligibility.{Text, text_eq}

pub record Ranked (A : Type 0) : Type 0 where
  pub item : A
  pub score : ℕ
  pub session_key : Text

-- `bySession`, whose keys stay in the order of their first use
abbrev pub Sessions : Type 0 → Type 0
Sessions A = List (Text × List (Ranked A))

module _ {A : Type 0} where
  abbrev pub add_ranked : Ranked A → Sessions A → Sessions A
  add_ranked r [] = (r.session_key, r ∷ []) ∷ []
  add_ranked r ((key, list) ∷ sessions) =
      if key == r.session_key
      then (key, list ++ r ∷ []) ∷ sessions
      else (key, list) ∷ add_ranked r sessions

  abbrev pub group : List (Ranked A) → Sessions A → Sessions A
  group [] sessions = sessions
  group (r ∷ ranked) sessions = group ranked (add_ranked r sessions)

  -- the score of a session's best, `session[0].score`
  abbrev pub top_score : List (Ranked A) → ℕ
  top_score [] = 0
  top_score (r ∷ session) = r.score

  -- `sort((a, b) => b[0].score - a[0].score)`, which is stable
  abbrev pub insert_session : List (Ranked A) → List (List (Ranked A)) → List (List (Ranked A))
  insert_session s [] = s ∷ []
  insert_session s (t ∷ sessions) =
      if ltb (top_score s) (top_score t) then t ∷ insert_session s sessions else s ∷ t ∷ sessions

  abbrev pub sort_sessions : List (List (Ranked A)) → List (List (Ranked A))
  sort_sessions [] = []
  sort_sessions (s ∷ sessions) = insert_session s (sort_sessions sessions)

  unfoldable pub sessions_of : List (Ranked A) → List (List (Ranked A))
  sessions_of ranked = sort_sessions (map (λ p. p.1) (group ranked []))

  -- `session[round]`
  abbrev pub nth : ℕ → List (Ranked A) → Option (Ranked A)
  nth n [] = none
  nth zero (r ∷ session) = some r
  nth (suc n) (r ∷ session) = nth n session

  -- one pass over the sessions, while `left` more are wanted
  abbrev pub one_round : ℕ → ℕ → List (List (Ranked A)) → List (Ranked A)
  one_round round left [] = []
  one_round round zero (session ∷ sessions) = []
  one_round round (suc left) (session ∷ sessions) = elim (nth round session) [
    | none ↦ one_round round (suc left) sessions
    | some pick ↦ pick ∷ one_round round left sessions
  ]

  -- the loop over the rounds, `fuel` of them at most
  abbrev pub rounds : ℕ → ℕ → ℕ → List (List (Ranked A)) → List (Ranked A)
  rounds zero round left sessions = []
  rounds (suc fuel) round zero sessions = []
  rounds (suc fuel) round (suc left) sessions =
      let picks = one_round round (suc left) sessions in
      let rest = rounds fuel (suc round) (suc left - length picks) sessions in
      if is_empty picks then [] else picks ++ rest

  unfoldable pub diversify : List (Ranked A) → ℕ → List (Ranked A)
  unfolding sessions_of
  diversify ranked zero = []
  diversify ranked (suc k) =
      let chosen = rounds (suc k) 0 (suc k) (sessions_of ranked) in
      if leb (length ranked) (suc k) then ranked else chosen
