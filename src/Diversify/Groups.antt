-- ===== src/Diversify/Groups.antt =====
-- The sessions that a ranked list is split into: for every key all of its assets, in their order.
use contents_factory.Common.{
  ◌≡◌, ◌≢◌, refl, sym, ap, subst, ◌∙◌, ◌⊎◌, inl, inr, Bool, false, List, [], ◌∷◌, ◌++◌, ◌==◌,
  filter, filter_kept, filter_dropped, All, All-append, All-weaken, Any, Bool-cases, map,
}
use contents_factory.Eligibility.{Text, text_eq}
use contents_factory.Diversify.{Ranked, Sessions, add_ranked, group}

module _ {A : Type 0} where
  -- the assets of a session
  abbrev pub of_key : Text → List (Ranked A) → List (Ranked A)
  of_key key ranked = filter (λ r. r.session_key == key) ranked

  filter-concat :
      (p : Ranked A → Bool) (xs : List (Ranked A)) (r : Ranked A)
      → filter p (xs ++ r ∷ []) ≡ filter p xs ++ filter p (r ∷ [])
  filter-concat p [] r = refl
  filter-concat p (x ∷ xs) r = elim (Bool-cases (p x)) [
    | inl kept ↦ rw (kept, filter-concat p xs r) refl
    | inr dropped ↦ rw (dropped, filter-concat p xs r) refl
  ]

  append_nothing : (xs : List (Ranked A)) → xs ++ [] ≡ xs
  append_nothing [] = refl
  append_nothing (x ∷ xs) = ap (x ∷◌) (append_nothing xs)

  key_test : (r : Ranked A) (key : Text) → r.session_key ≢ key → (r.session_key == key) ≡ false
  key_test r key n = elim (Bool-cases (r.session_key == key)) [
    | inl same ↦ absurd (n ((text_eq.beq_iff r.session_key key).0 same))
    | inr apart ↦ apart
  ]

  of_key_others :
      (key : Text) (seen : List (Ranked A)) (r : Ranked A)
      → r.session_key ≢ key
      → of_key key (seen ++ r ∷ []) ≡ of_key key seen
  of_key_others key seen r n =
      let p : Ranked A → Bool = λ q. q.session_key == key in
      filter-concat p seen r
      ∙ ap (of_key key seen ++◌) (filter_dropped p r [] (key_test r key n))
      ∙ append_nothing (of_key key seen)

  of_key_own :
      (key : Text) (seen : List (Ranked A)) (r : Ranked A)
      → r.session_key ≡ key
      → of_key key (seen ++ r ∷ []) ≡ of_key key seen ++ r ∷ []
  of_key_own key seen r e =
      let p : Ranked A → Bool = λ q. q.session_key == key in
      filter-concat p seen r
      ∙ ap (of_key key seen ++◌) (filter_kept p r [] ((text_eq.beq_iff r.session_key key).1 e))

  -- the groups hold all assets of their keys among those seen
  abbrev AreFull : List (Ranked A) → Sessions A → Type 0
  AreFull seen m = All (λ p. p.1 ≡ of_key p.0 seen) m

  abbrev Lacks : Text → Sessions A → Type 0
  Lacks key m = All (λ p. p.0 ≢ key) m

  abbrev Covers : Sessions A → Text → Type 0
  Covers m key = Any (λ p. p.0 ≡ key) m

  -- no two groups have one key
  abbrev AreApart : Sessions A → Type 0
  AreApart [] = Unit
  AreApart (p ∷ m) = Lacks p.0 m × AreApart m

  others_full :
      (seen : List (Ranked A)) (r : Ranked A) (m : Sessions A)
      → Lacks r.session_key m
      → AreFull seen m
      → AreFull (seen ++ r ∷ []) m
  others_full seen r [] n h = tt
  others_full seen r (p ∷ m) n h =
      (h.0 ∙ sym (of_key_others p.0 seen r (λ e. n.0 (sym e))), others_full seen r m n.1 h.1)

  add_ranked-AreFull :
      (seen : List (Ranked A)) (r : Ranked A) (m : Sessions A)
      → (Lacks r.session_key m → of_key r.session_key seen ≡ [])
      → AreApart m
      → AreFull seen m
      → AreFull (seen ++ r ∷ []) (add_ranked r m)
  add_ranked-AreFull seen r [] new apart h =
      (sym (of_key_own r.session_key seen r refl ∙ ap (◌++ r ∷ []) (new tt)), tt)
  add_ranked-AreFull seen r ((key, list) ∷ m) new apart h =
      elim (Bool-cases (key == r.session_key)) [
        | inl same ↦
            let met : key ≡ r.session_key = (text_eq.beq_iff key r.session_key).0 same in
            rw same (
              ap (◌++ r ∷ []) h.0 ∙ sym (of_key_own key seen r (sym met)),
              others_full seen r m (subst (λ k. Lacks k m) met apart.0) h.1,
            )
        | inr other ↦
            let differ : key ≢ r.session_key =
              λ e. absurd (cc (other, (text_eq.beq_iff key r.session_key).1 e)) in
            rw other (
              h.0 ∙ sym (of_key_others key seen r (λ e. differ (sym e))),
              add_ranked-AreFull seen r m (λ n. new (differ, n)) apart.1 h.1,
            )
      ]

  add_ranked-Lacks :
      (key : Text) (r : Ranked A) (m : Sessions A)
      → r.session_key ≢ key
      → Lacks key m
      → Lacks key (add_ranked r m)
  add_ranked-Lacks key r [] n h = (n, tt)
  add_ranked-Lacks key r ((k, list) ∷ m) n h = elim (Bool-cases (k == r.session_key)) [
    | inl same ↦ rw same h
    | inr other ↦ rw other (h.0, add_ranked-Lacks key r m n h.1)
  ]

  add_ranked-AreApart : (r : Ranked A) (m : Sessions A) → AreApart m → AreApart (add_ranked r m)
  add_ranked-AreApart r [] h = (tt, tt)
  add_ranked-AreApart r ((key, list) ∷ m) h = elim (Bool-cases (key == r.session_key)) [
    | inl same ↦ rw same h
    | inr other ↦ rw other (
      add_ranked-Lacks key r m
          (λ e. absurd (cc (other, (text_eq.beq_iff key r.session_key).1 (sym e)))) h.0,
      add_ranked-AreApart r m h.1,
    )
  ]

  add_ranked-Covers :
      (key : Text) (r : Ranked A) (m : Sessions A)
      → (r.session_key ≡ key) ⊎ Covers m key
      → Covers (add_ranked r m) key
  add_ranked-Covers key r [] (inl e) = inl e
  add_ranked-Covers key r [] (inr c) = absurd c
  add_ranked-Covers key r ((k, list) ∷ m) h = elim (Bool-cases (k == r.session_key)) [
    | inl same ↦
        let met : k ≡ r.session_key = (text_eq.beq_iff k r.session_key).0 same in
        rw same (elim h [ inl e ↦ inl (met ∙ e) | inr c ↦ c ])
    | inr other ↦ rw other (elim h [
      | inl e ↦ inr (add_ranked-Covers key r m (inl e))
      | inr (inl here) ↦ inl here
      | inr (inr there) ↦ inr (add_ranked-Covers key r m (inr there))
    ])
  ]

  Lacks-Covers : (key : Text) (m : Sessions A) → Lacks key m → Covers m key → ⊥
  Lacks-Covers key [] n c = c
  Lacks-Covers key (p ∷ m) n (inl e) = n.0 e
  Lacks-Covers key (p ∷ m) n (inr c) = Lacks-Covers key m n.1 c

  of_key_absent :
      (key : Text) (m : Sessions A) (seen : List (Ranked A))
      → All (λ r. Covers m r.session_key) seen
      → Lacks key m
      → of_key key seen ≡ []
  of_key_absent key m [] h n = refl
  of_key_absent key m (r ∷ seen) h n =
      let differ : r.session_key ≢ key = λ e. Lacks-Covers key m n (subst (Covers m) e h.0) in
      filter_dropped (λ q. q.session_key == key) r seen (key_test r key differ)
      ∙ of_key_absent key m seen h.1 n

  append_assoc : (xs ys zs : List (Ranked A)) → (xs ++ ys) ++ zs ≡ xs ++ (ys ++ zs)
  append_assoc [] ys zs = refl
  append_assoc (x ∷ xs) ys zs = ap (x ∷◌) (append_assoc xs ys zs)

  -- every asset seen has its group, and the groups are full and apart
  abbrev IsSplit : List (Ranked A) → Sessions A → Type 0
  IsSplit seen m = AreFull seen m × AreApart m × All (λ r. Covers m r.session_key) seen

  group-IsSplit :
      (ranked seen : List (Ranked A)) (m : Sessions A)
      → IsSplit seen m
      → IsSplit (seen ++ ranked) (group ranked m)
  group-IsSplit [] seen m h = subst (λ xs. IsSplit xs m) (sym (append_nothing seen)) h
  group-IsSplit (r ∷ ranked) seen m (full, apart, covered) =
      let grown = add_ranked r m in
      let kept =
        All-weaken (λ q. Covers m q.session_key) (λ q. Covers grown q.session_key) seen
          (λ q c. add_ranked-Covers q.session_key r m (inr c)) covered in
      let own = add_ranked-Covers r.session_key r m (inl refl) in
      subst (λ xs. IsSplit xs (group ranked grown)) (append_assoc seen (r ∷ []) ranked)
        (group-IsSplit ranked (seen ++ r ∷ []) grown (
          add_ranked-AreFull seen r m (of_key_absent r.session_key m seen covered) apart full,
          add_ranked-AreApart r m apart,
          All-append (λ q. Covers grown q.session_key) seen (r ∷ []) kept (own, tt),
        ))

  Covers-full :
      (key : Text) (ranked : List (Ranked A)) (m : Sessions A)
      → AreFull ranked m
      → Covers m key
      → Any (λ s. s ≡ of_key key ranked) (map (λ p. p.1) m)
  Covers-full key ranked [] full c = absurd c
  Covers-full key ranked (p ∷ m) full (inl e) = inl (full.0 ∙ ap (λ k. of_key k ranked) e)
  Covers-full key ranked (p ∷ m) full (inr c) = inr (Covers-full key ranked m full.1 c)

  pub group_full : (ranked : List (Ranked A)) → All (λ p. p.1 ≡ of_key p.0 ranked) (group ranked [])
  group_full ranked = (group-IsSplit ranked [] [] (tt, tt, tt)).0

  -- Every asset has its session among the groups.
  pub group_covers :
      (ranked : List (Ranked A))
      → All
          (λ r. Any (λ s. s ≡ of_key r.session_key ranked) (map (λ p. p.1) (group ranked [])))
          ranked
  group_covers ranked =
      let (full, apart, covered) = group-IsSplit ranked [] [] (tt, tt, tt) in
      All-weaken (λ r. Covers (group ranked []) r.session_key)
        (λ r. Any (λ s. s ≡ of_key r.session_key ranked) (map (λ p. p.1) (group ranked []))) ranked
        (λ r c. Covers-full r.session_key ranked (group ranked []) full c) covered
