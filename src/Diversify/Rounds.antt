-- ===== src/Diversify/Rounds.antt =====
-- The rounds against the full deal: first every session's best, then every session's second best,
-- and so on.
use contents_factory.Common.{
  ℕ, zero, suc, ◌+◌, ◌-◌, ◌≤◌, ◌<◌, ◌≡◌, ◌↔◌, refl, sym, ap, subst, ◌∙◌, none, some, List, [], ◌∷◌,
  ◌++◌, arith, length, length-append, length-take, take, All, Option-cases, ◌⊎◌, inl, inr,
}
use contents_factory.Diversify.{Ranked, nth, one_round, rounds}

pub take_empty : {A : Type 0} (n : ℕ) → take {A = A} n [] ≡ []
take_empty zero = refl
take_empty (suc n) = refl

pub take_none : {A : Type 0} (n : ℕ) (xs : List A) → n ≡ 0 → take n xs ≡ []
take_none zero xs h = refl
take_none (suc n) xs h = absurd (omega arith)

pub take-append :
    {A : Type 0} (n : ℕ) (xs ys : List A) → take n (xs ++ ys) ≡ take n xs ++ take (n - length xs) ys
take-append zero [] ys = refl
take-append zero (x ∷ xs) ys = sym (take_none (0 - suc (length xs)) ys (omega arith))
take-append (suc n) [] ys = let same : suc n ≡ suc n - 0 = omega arith in ap (λ m. take m ys) same
take-append (suc n) (x ∷ xs) ys =
    let same : n - length xs ≡ suc n - suc (length xs) = omega arith in
    ap (x ∷◌) (take-append n xs ys ∙ ap (λ m. take n xs ++ take m ys) same)

List-cases : {A : Type 0} (xs : List A) → (xs ≡ []) ⊎ ((x : A) × (ys : List A) × (xs ≡ x ∷ ys))
List-cases [] = inl refl
List-cases (x ∷ xs) = inr (x, xs, refl)

module _ {A : Type 0} where
  -- what the round takes when all are wanted
  abbrev pub column : ℕ → List (List (Ranked A)) → List (Ranked A)
  column round [] = []
  column round (session ∷ sessions) = elim (nth round session) [
    | none ↦ column round sessions
    | some pick ↦ pick ∷ column round sessions
  ]

  -- `n` rounds in full, from `round` on
  abbrev pub deal : ℕ → ℕ → List (List (Ranked A)) → List (Ranked A)
  deal zero round sessions = []
  deal (suc n) round sessions = column round sessions ++ deal n (suc round) sessions

  one_round-column :
      (round left : ℕ) (sessions : List (List (Ranked A)))
      → one_round round left sessions ≡ take left (column round sessions)
  one_round-column round left [] = sym (take_empty left)
  one_round-column round zero (s ∷ sessions) = refl
  one_round-column round (suc left) (s ∷ sessions) = elim (Option-cases (nth round s)) [
    | inl empty ↦ rw (empty, one_round, column) (one_round-column round (suc left) sessions)
    | inr (pick, there) ↦
        rw (there, one_round, column) (ap (pick ∷◌) (one_round-column round left sessions))
  ]

  nth_past_end : (n : ℕ) (s : List (Ranked A)) → nth n s ≡ none → nth (suc n) s ≡ none
  nth_past_end n [] h = refl
  nth_past_end zero (r ∷ s) h = cc
  nth_past_end (suc n) (r ∷ s) h = nth_past_end n s h

  column_without :
      (round : ℕ) (s : List (Ranked A)) (sessions : List (List (Ranked A)))
      → nth round s ≡ none
      → column round (s ∷ sessions) ≡ column round sessions
  column_without round s sessions h = rw (h, column) refl

  column_with :
      (round : ℕ) (s : List (Ranked A)) (sessions : List (List (Ranked A))) (pick : Ranked A)
      → nth round s ≡ some pick
      → column round (s ∷ sessions) ≡ pick ∷ column round sessions
  column_with round s sessions pick h = rw (h, column) refl

  -- A round that takes nothing is followed by no round that takes something.
  column_empty :
      (round : ℕ) (sessions : List (List (Ranked A)))
      → column round sessions ≡ []
      → column (suc round) sessions ≡ []
  column_empty round [] h = refl
  column_empty round (s ∷ sessions) h = elim (Option-cases (nth round s)) [
    | inl empty ↦
        column_without (suc round) s sessions (nth_past_end round s empty)
        ∙ column_empty round sessions (sym (column_without round s sessions empty) ∙ h)
    | inr (pick, there) ↦
        let full = sym (column_with round s sessions pick there) ∙ h in absurd (cc full)
  ]

  deal_empty :
      (n round : ℕ) (sessions : List (List (Ranked A)))
      → column round sessions ≡ []
      → deal n round sessions ≡ []
  deal_empty zero round sessions h = refl
  deal_empty (suc n) round sessions h =
      rw (h, deal_empty n (suc round) sessions (column_empty round sessions h)) refl

  -- The loop takes the first of the full deal, as many as are wanted, when it may go on for as many
  -- rounds.
  pub rounds-deal :
      (fuel n round left : ℕ) (sessions : List (List (Ranked A)))
      → left ≤ fuel
      → fuel ≤ n
      → rounds fuel round left sessions ≡ take left (deal n round sessions)
  rounds-deal zero n round zero sessions h k = refl
  rounds-deal zero n round (suc left) sessions h k = absurd (omega arith)
  rounds-deal (suc fuel) n round zero sessions h k = refl
  rounds-deal (suc fuel) zero round (suc left) sessions h k = absurd (omega arith)
  rounds-deal (suc fuel) (suc n) round (suc left) sessions h k =
      elim (List-cases (column round sessions)) [
        | inl none_left ↦
            let idle : one_round round (suc left) sessions ≡ [] =
              one_round-column round (suc left) sessions ∙ ap (take (suc left)) none_left in
            rw
              (
                idle,
                none_left,
                deal_empty n (suc round) sessions (column_empty round sessions none_left),
              )
              refl
        | inr (c, cs, full) ↦
            let taken : one_round round (suc left) sessions ≡ c ∷ take left cs =
              one_round-column round (suc left) sessions ∙ ap (take (suc left)) full in
            let later = deal n (suc round) sessions in
            let left' = suc left - suc (length (take left cs)) in
            let same : left' ≡ left - length cs = omega (arith, length-take left cs) in
            let rest = rounds-deal fuel n (suc round) left' sessions (omega arith) (omega arith) in
            rw (taken, full)
              (ap (c ∷◌) (
                ap (take left cs ++◌) rest
                ∙ ap (λ m. take left cs ++ take m later) same
                ∙ sym (take-append left cs later)))
      ]

  -- Every list is at most `n` long.
  abbrev pub IsWithin : ℕ → List (List (Ranked A)) → Type 0
  IsWithin n = All (λ s. length s ≤ n)

  abbrev pub total : List (List (Ranked A)) → ℕ
  total [] = 0
  total (s ∷ sessions) = length s + total sessions

  -- what is left from a round on
  abbrev total_from : ℕ → List (List (Ranked A)) → ℕ
  total_from round [] = 0
  total_from round (s ∷ sessions) = length s - round + total_from round sessions

  length-nth : (n : ℕ) (s : List (Ranked A)) → (nth n s ≡ none) ↔ (length s ≤ n)
  length-nth n [] = ground arith
  length-nth zero (r ∷ s) = ground arith
  length-nth (suc n) (r ∷ s) = ground (arith, length-nth n s)

  length-column :
      (round : ℕ) (sessions : List (List (Ranked A)))
      → length (column round sessions) + total_from (suc round) sessions ≡ total_from round sessions
  length-column round [] = omega arith
  length-column round (s ∷ sessions) = elim (Option-cases (nth round s)) [
    | inl empty ↦ omega (
      arith,
      ap length (column_without round s sessions empty),
      (length-nth round s).0 empty,
      length-column round sessions,
    )
    | inr (pick, there) ↦
        let long : round < length s = ground (arith, length-nth round s) in
        omega
          (arith, ap length (column_with round s sessions pick there), length-column round sessions)
  ]

  total_from_none :
      (round : ℕ) (sessions : List (List (Ranked A)))
      → IsWithin round sessions
      → total_from round sessions ≡ 0
  total_from_none round [] h = refl
  total_from_none round (s ∷ sessions) h = omega (arith, h.0, total_from_none round sessions h.1)

  total_from_start : (sessions : List (List (Ranked A))) → total_from 0 sessions ≡ total sessions
  total_from_start [] = refl
  total_from_start (s ∷ sessions) = omega (arith, total_from_start sessions)

  length-deal_from :
      (n round : ℕ) (sessions : List (List (Ranked A)))
      → IsWithin (n + round) sessions
      → length (deal n round sessions) ≡ total_from round sessions
  length-deal_from zero round sessions h =
      sym (total_from_none round sessions (subst (λ m. IsWithin m sessions) (omega arith) h))
  length-deal_from (suc n) round sessions h =
      let shifted : suc n + round ≡ n + suc round = omega arith in
      omega (
        arith,
        length-append (column round sessions) (deal n (suc round) sessions),
        length-column round sessions,
        length-deal_from n (suc round) sessions (subst (λ m. IsWithin m sessions) shifted h),
      )

  pub length-deal :
      (n : ℕ) (sessions : List (List (Ranked A)))
      → IsWithin n sessions
      → length (deal n 0 sessions) ≡ total sessions
  length-deal n sessions h =
      let start : n ≡ n + 0 = omega arith in
      length-deal_from n 0 sessions (subst (λ m. IsWithin m sessions) start h)
      ∙ total_from_start sessions

  pub total-IsWithin :
      (n : ℕ) (sessions : List (List (Ranked A))) → total sessions ≤ n → IsWithin n sessions
  total-IsWithin n [] h = tt
  total-IsWithin n (s ∷ sessions) h =
      (omega (arith, h), total-IsWithin n sessions (omega (arith, h)))
