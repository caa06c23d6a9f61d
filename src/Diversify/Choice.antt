-- ===== src/Diversify/Choice.antt =====
-- What `diversify` chooses.
use contents_factory.Common.{
  Any, ◌⊎◌, ℕ, zero, suc, ◌+◌, ◌≤◌, ◌<◌, ◌≡◌, refl, sym, ap, subst, inl, inr, true, false, some,
  List, [], ◌∷◌, arith, ◌==◌, Bool-cases, Option-cases, ltb, leb, length, length-append,
  length-take, take, All, All-take, All-append, All-weaken, All-map, ◌≢◌, ◌++◌, map, min,
}
use contents_factory.Eligibility.{Text, text_eq}
use contents_factory.Diversify.{
  Ranked, Sessions, add_ranked, group, top_score, insert_session, sort_sessions, sessions_of, nth,
  diversify,
}
use contents_factory.Diversify.Groups.{of_key, group_full, group_covers}
use contents_factory.Diversify.Rounds.{
  deal, column, rounds-deal, length-deal, total, total-IsWithin,
}

module _ {A : Type 0} where
  abbrev lists : Sessions A → List (List (Ranked A))
  lists sessions = map (λ p. p.1) sessions

  total-add :
      (r : Ranked A) (m : Sessions A) → total (lists (add_ranked r m)) ≡ suc (total (lists m))
  total-add r [] = refl
  total-add r ((key, list) ∷ m) =
      ground (arith, text_eq.beq_iff key r.session_key, length-append list (r ∷ []), total-add r m)

  total-group :
      (ranked : List (Ranked A)) (m : Sessions A)
      → total (lists (group ranked m)) ≡ length ranked + total (lists m)
  total-group [] m = omega arith
  total-group (r ∷ ranked) m = omega (arith, total-group ranked (add_ranked r m), total-add r m)

  total-insert :
      (s : List (Ranked A)) (ss : List (List (Ranked A)))
      → total (insert_session s ss) ≡ length s + total ss
  total-insert s [] = refl
  total-insert s (t ∷ ss) = ground (arith, total-insert s ss)

  total-sort : (ss : List (List (Ranked A))) → total (sort_sessions ss) ≡ total ss
  total-sort [] = refl
  total-sort (s ∷ ss) = omega (arith, total-insert s (sort_sessions ss), total-sort ss)

  total-sessions_of : (ranked : List (Ranked A)) → total (sessions_of ranked) ≡ length ranked
  unfolding sessions_of
  total-sessions_of ranked =
      omega (arith, total-sort (lists (group ranked [])), total-group ranked [])

  diversify_more :
      (ranked : List (Ranked A)) (k : ℕ)
      → k < length ranked
      → diversify ranked k ≡ take k (deal (length ranked) 0 (sessions_of ranked))
  unfolding diversify
  diversify_more ranked zero h = refl
  diversify_more ranked (suc k) h =
      let over : leb (length ranked) (suc k) ≡ false = ground arith in
      rw over (
        rounds-deal (suc k) (length ranked) 0 (suc k) (sessions_of ranked) (omega arith)
          (omega arith))

  diversify_few :
      (ranked : List (Ranked A)) (k : ℕ) → length ranked ≤ k → diversify ranked k ≡ ranked
  unfolding diversify
  diversify_few [] zero h = refl
  diversify_few (r ∷ ranked) zero h = absurd (omega arith)
  diversify_few ranked (suc k) h =
      let under : leb (length ranked) (suc k) ≡ true = ground arith in rw under refl

  length-diversify :
      (ranked : List (Ranked A)) (k : ℕ) → length (diversify ranked k) ≡ min k (length ranked)
  length-diversify ranked k = elim (Bool-cases (ltb k (length ranked))) [
    | inl more ↦
        let n = length ranked in
        let ss = sessions_of ranked in
        let within = total-IsWithin n ss (omega (arith, total-sessions_of ranked)) in
        omega (
          arith,
          ap length (diversify_more ranked k (ground arith)),
          length-take k (deal n 0 ss),
          length-deal n ss within,
          total-sessions_of ranked,
        )
    | inr few ↦
        let short : length ranked ≤ k = ground arith in
        omega (arith, ap length (diversify_few ranked k short))
  ]

  -- no later session has a better best
  abbrev pub IsDescending : List (List (Ranked A)) → Type 0
  IsDescending [] = Unit
  IsDescending (s ∷ ss) = All (λ t. top_score t ≤ top_score s) ss × IsDescending ss

  -- all assets of one session in their order, at least one
  abbrev pub IsSession : List (Ranked A) → List (Ranked A) → Type 0
  IsSession ranked s = (s ≢ []) × ((key : Text) × (s ≡ of_key key ranked))

  All-insert_session :
      (P : List (Ranked A) → Type 0) (s : List (Ranked A)) (ss : List (List (Ranked A)))
      → P s
      → All P ss
      → All P (insert_session s ss)
  All-insert_session P s [] p h = (p, tt)
  All-insert_session P s (t ∷ ss) p h = elim (Bool-cases (ltb (top_score s) (top_score t))) [
    | inl worse ↦ rw worse (h.0, All-insert_session P s ss p h.1)
    | inr better ↦ rw better (p, h)
  ]

  All-sort_sessions :
      (P : List (Ranked A) → Type 0) (ss : List (List (Ranked A)))
      → All P ss
      → All P (sort_sessions ss)
  All-sort_sessions P [] h = tt
  All-sort_sessions P (s ∷ ss) h =
      All-insert_session P s (sort_sessions ss) h.0 (All-sort_sessions P ss h.1)

  insert_session-IsDescending :
      (s : List (Ranked A)) (ss : List (List (Ranked A)))
      → IsDescending ss
      → IsDescending (insert_session s ss)
  insert_session-IsDescending s [] h = (tt, tt)
  insert_session-IsDescending s (t ∷ ss) h = elim (Bool-cases (ltb (top_score s) (top_score t))) [
    | inl worse ↦ rw worse (
      All-insert_session (λ u. top_score u ≤ top_score t) s ss (ground arith) h.0,
      insert_session-IsDescending s ss h.1,
    )
    | inr better ↦
        let over : top_score t ≤ top_score s = ground arith in
        rw better (
          (
            over,
            All-weaken (λ u. top_score u ≤ top_score t) (λ u. top_score u ≤ top_score s) ss
                (λ u le. omega (arith, le, over)) h.0,
          ),
          h,
        )
  ]

  sort_sessions-IsDescending : (ss : List (List (Ranked A))) → IsDescending (sort_sessions ss)
  sort_sessions-IsDescending [] = tt
  sort_sessions-IsDescending (s ∷ ss) =
      insert_session-IsDescending s (sort_sessions ss) (sort_sessions-IsDescending ss)

  Any-insert_session :
      (P : List (Ranked A) → Type 0) (s : List (Ranked A)) (ss : List (List (Ranked A)))
      → P s ⊎ Any P ss
      → Any P (insert_session s ss)
  Any-insert_session P s [] h = h
  Any-insert_session P s (t ∷ ss) h = elim (Bool-cases (ltb (top_score s) (top_score t))) [
    | inr better ↦ rw better h
    | inl worse ↦ rw worse (elim h [
      | inl p ↦ inr (Any-insert_session P s ss (inl p))
      | inr (inl first) ↦ inl first
      | inr (inr later) ↦ inr (Any-insert_session P s ss (inr later))
    ])
  ]

  Any-sort_sessions :
      (P : List (Ranked A) → Type 0) (ss : List (List (Ranked A)))
      → Any P ss
      → Any P (sort_sessions ss)
  Any-sort_sessions P [] h = h
  Any-sort_sessions P (s ∷ ss) (inl p) = Any-insert_session P s (sort_sessions ss) (inl p)
  Any-sort_sessions P (s ∷ ss) (inr h) =
      Any-insert_session P s (sort_sessions ss) (inr (Any-sort_sessions P ss h))

  abbrev IsFilled : Text × List (Ranked A) → Type 0
  IsFilled p = p.1 ≢ []

  add_ranked-IsFilled :
      (r : Ranked A) (m : Sessions A) → All IsFilled m → All IsFilled (add_ranked r m)
  add_ranked-IsFilled r [] h = ((λ e. cc), tt)
  add_ranked-IsFilled r ((key, list) ∷ m) h = elim (Bool-cases (key == r.session_key)) [
    | inl same ↦ rw same (longer list, h.1)
    | inr apart ↦ rw apart (h.0, add_ranked-IsFilled r m h.1)
  ]
    where
      longer : (xs : List (Ranked A)) → xs ++ r ∷ [] ≢ []
      longer [] e = cc
      longer (x ∷ xs) e = cc

  group-IsFilled :
      (ranked : List (Ranked A)) (m : Sessions A) → All IsFilled m → All IsFilled (group ranked m)
  group-IsFilled [] m h = h
  group-IsFilled (r ∷ ranked) m h =
      group-IsFilled ranked (add_ranked r m) (add_ranked-IsFilled r m h)

  sessions_of-IsSession : (ranked : List (Ranked A)) → All (IsSession ranked) (sessions_of ranked)
  unfolding sessions_of
  sessions_of-IsSession ranked =
      let groups = group ranked [] in
      All-sort_sessions (IsSession ranked) (lists groups) (
        All-map (λ p. p.1) (IsSession ranked) groups
          (both groups (group-IsFilled ranked [] tt) (group_full ranked)))
    where
      both :
          (m : Sessions A)
          → All IsFilled m
          → All (λ p. p.1 ≡ of_key p.0 ranked) m
          → All (λ p. IsSession ranked p.1) m
      both [] f g = tt
      both (p ∷ m) f g = ((f.0, (p.0, g.0)), both m f.1 g.1)

  -- every asset's session is among the sessions
  abbrev pub AreCovered : List (Ranked A) → List (List (Ranked A)) → Type 0
  AreCovered ranked ss = All (λ r. Any (λ s. s ≡ of_key r.session_key ranked) ss) ranked

  sessions_of-AreCovered : (ranked : List (Ranked A)) → AreCovered ranked (sessions_of ranked)
  unfolding sessions_of
  sessions_of-AreCovered ranked =
      let ss = lists (group ranked []) in
      All-weaken (λ r. Any (λ s. s ≡ of_key r.session_key ranked) ss)
        (λ r. Any (λ s. s ≡ of_key r.session_key ranked) (sort_sessions ss)) ranked
        (λ r h. Any-sort_sessions (λ s. s ≡ of_key r.session_key ranked) ss h) (group_covers ranked)

  -- The choice of at most `k` from a ranked list has `min k (length ranked)` members. A list that is not
  -- longer than `k` is chosen as it stands. Else the list is split into the sessions of its keys, each with
  -- all assets of the key in their order and with as many assets in all as the list has, and no session
  -- comes before one with a higher first score; and the choice is the first `k` of the full deal, which
  -- gives every session's first asset in turn, then every session's second, and so on.
  pub diversify_choice :
      (ranked : List (Ranked A)) (k : ℕ)
      → (length (diversify ranked k) ≡ min k (length ranked))
        × (length ranked ≤ k → diversify ranked k ≡ ranked)
        × (k < length ranked
            → diversify ranked k ≡ take k (deal (length ranked) 0 (sessions_of ranked)))
        × IsDescending (sessions_of ranked)
        × All (IsSession ranked) (sessions_of ranked)
        × AreCovered ranked (sessions_of ranked)
        × (total (sessions_of ranked) ≡ length ranked)
  unfolding sessions_of
  diversify_choice ranked k = (
    length-diversify ranked k,
    diversify_few ranked k,
    diversify_more ranked k,
    sort_sessions-IsDescending (lists (group ranked [])),
    sessions_of-IsSession ranked,
    sessions_of-AreCovered ranked,
    total-sessions_of ranked,
  )

  module _ (P : Ranked A → Type 0) where
    All-add :
        (r : Ranked A) (m : Sessions A)
        → P r
        → All (All P) (lists m)
        → All (All P) (lists (add_ranked r m))
    All-add r [] p h = ((p, tt), tt)
    All-add r ((key, list) ∷ m) p h = elim (Bool-cases (key == r.session_key)) [
      | inl same ↦ rw same (All-append P list (r ∷ []) h.0 (p, tt), h.1)
      | inr other ↦ rw other (h.0, All-add r m p h.1)
    ]

    All-group :
        (ranked : List (Ranked A)) (m : Sessions A)
        → All P ranked
        → All (All P) (lists m)
        → All (All P) (lists (group ranked m))
    All-group [] m p h = h
    All-group (r ∷ ranked) m p h = All-group ranked (add_ranked r m) p.1 (All-add r m p.0 h)

    All-nth : (n : ℕ) (s : List (Ranked A)) (r : Ranked A) → All P s → nth n s ≡ some r → P r
    All-nth n [] r h e = absurd (cc e)
    All-nth zero (x ∷ s) r h e = subst P (cc e) h.0
    All-nth (suc n) (x ∷ s) r h e = All-nth n s r h.1 e

    All-column : (n : ℕ) (ss : List (List (Ranked A))) → All (All P) ss → All P (column n ss)
    All-column n [] h = tt
    All-column n (s ∷ ss) h = elim (Option-cases (nth n s)) [
      | inl empty ↦ rw (empty, column) (All-column n ss h.1)
      | inr (r, there) ↦ rw (there, column) (All-nth n s r h.0 there, All-column n ss h.1)
    ]

    All-deal :
        (n round : ℕ) (ss : List (List (Ranked A))) → All (All P) ss → All P (deal n round ss)
    All-deal zero round ss h = tt
    All-deal (suc n) round ss h =
        All-append P (column round ss) (deal n (suc round) ss) (All-column round ss h)
          (All-deal n (suc round) ss h)

    -- Nothing is chosen that is not offered.
    pub All-diversify :
        (ranked : List (Ranked A)) (k : ℕ) → All P ranked → All P (diversify ranked k)
    unfolding sessions_of
    All-diversify ranked k h = elim (Bool-cases (ltb k (length ranked))) [
      | inr few ↦ subst (All P) (sym (diversify_few ranked k (ground arith))) h
      | inl more ↦
          let dealt =
            All-deal (length ranked) 0 (sessions_of ranked)
              (All-sort_sessions (All P) (lists (group ranked [])) (All-group ranked [] h tt)) in
          subst (All P) (sym (diversify_more ranked k (ground arith)))
            (All-take P k (deal (length ranked) 0 (sessions_of ranked)) dealt)
    ]
