-- ===== src/Store/Tables.antt =====
-- Tables as lists of rows: the queries and updates that the repositories make, and their laws.
use contents_factory.Common.{
  ℕ, ◌≡◌, refl, sym, ap, ◌∙◌, subst, ◌≢◌, inl, inr, Bool, true, false, none, some, List, [], ◌∷◌,
  ◌++◌, map, arith, ◌==◌, nat_eq, nat_beq_iff, if◌then◌else◌, find, All, Any, Bool-cases, Eq,
}

-- `update({ … }, patch)`: every row that the condition selects is patched.
abbrev pub update {ℓ} : {A : Type ℓ} → (A → Bool) → (A → A) → List A → List A
update p f [] = []
update p f (x ∷ xs) = (if p x then f x else x) ∷ update p f xs

-- `save(entity)` of an entity that is in the table: its row is replaced, found by its id.
abbrev pub replace {ℓ} : {A : Type ℓ} → (A → ℕ) → A → List A → List A
replace id e [] = []
replace id e (x ∷ xs) = (if id x == id e then e else x) ∷ replace id e xs

-- no two members are equal
abbrev pub Distinct {ℓ} : {A : Type ℓ} → List A → Type ℓ
Distinct [] = Unit
Distinct (x ∷ xs) = All (λ y. y ≢ x) xs × Distinct xs

module _ {ℓ} {A : Type ℓ} where
  pub find-none : (p : A → Bool) (xs : List A) → find p xs ≡ none → All (λ x. p x ≡ false) xs
  find-none p [] e = tt
  find-none p (x ∷ xs) e = elim (Bool-cases (p x)) [
    | inl h ↦ cc (rw h at e)
    | inr h ↦ (h, find-none p xs (rw h at e))
  ]

module _ {A : Type 0} where
  pub find-some :
      (p : A → Bool) (xs : List A) {a : A} → find p xs ≡ some a → (p a ≡ true) × Any (λ y. y ≡ a) xs
  find-some p [] e = cc
  find-some p (x ∷ xs) e = elim (Bool-cases (p x)) [
    | inl h ↦ (let same : some x ≡ some _ = rw h at e in (ground arith, inl (ground arith)))
    | inr h ↦ (let (q, m) = find-some p xs (rw h at e) in (q, inr m))
  ]

  All-map_of_find :
      {B : Type 0} ⦃q : Eq B⦄ (f : A → B) (k : B) (xs : List A)
      → All (λ x. (f x == k) ≡ false) xs
      → All (λ b. b ≢ k) (map f xs)
  All-map_of_find f k [] h = tt
  All-map_of_find ⦃q⦄ f k (x ∷ xs) h =
      (λ e. cc (h.0, (q.beq_iff (f x) k).1 e), All-map_of_find f k xs h.1)

  -- If no row has the key, a query for it finds none, and its keys are those of other rows.
  pub find-none-keys :
      {B : Type 0} ⦃q : Eq B⦄ (f : A → B) (k : B) (xs : List A)
      → find (λ x. f x == k) xs ≡ none
      → All (λ b. b ≢ k) (map f xs)
  find-none-keys f k xs e = All-map_of_find f k xs (find-none (λ x. f x == k) xs e)

  pub Distinct-concat :
      (xs : List A) (k : A) → Distinct xs → All (λ b. b ≢ k) xs → Distinct (xs ++ k ∷ [])
  Distinct-concat [] k d h = (tt, tt)
  Distinct-concat (x ∷ xs) k d h = (last xs d.0, Distinct-concat xs k d.1 h.1)
    where
      last : (ys : List A) → All (λ y. y ≢ x) ys → All (λ y. y ≢ x) (ys ++ k ∷ [])
      last [] t = (λ e. h.0 (sym e), tt)
      last (y ∷ ys) t = (t.0, last ys t.1)

module _ {A : Type 0} (id : A → ℕ) where
  pub replace_absent :
      (e : A) (xs : List A) → All (λ k. k ≢ id e) (map id xs) → replace id e xs ≡ xs
  replace_absent e [] h = refl
  replace_absent e (x ∷ xs) h = elim (Bool-cases (id x == id e)) [
    | inl q ↦ absurd (h.0 ((nat_beq_iff _ _).0 q))
    | inr q ↦ rw (q, replace_absent e xs h.1)
  ]

  mem-ne :
      (e : A) (k : ℕ) (xs : List A) → All (λ j. j ≢ k) (map id xs) → Any (λ y. y ≡ e) xs → id e ≢ k
  mem-ne e k [] h m = elim m [ ]
  mem-ne e k (x ∷ xs) h (inl q) = λ r. h.0 (ap id q ∙ r)
  mem-ne e k (x ∷ xs) h (inr m) = mem-ne e k xs h.1 m

  -- Saving a changed row leaves every column that the change leaves alone.
  pub map-replace :
      {B : Type 0} (f : A → B) (e e' : A) (xs : List A)
      → Distinct (map id xs)
      → Any (λ y. y ≡ e) xs
      → id e' ≡ id e
      → f e' ≡ f e
      → map f (replace id e' xs) ≡ map f xs
  map-replace f e e' [] d m i c = elim m [ ]
  map-replace f e e' (x ∷ xs) d (inl q) i c =
      let hit : (id x == id e') ≡ true = (nat_beq_iff _ _).1 (ap id q ∙ sym i) in
      let gone : replace id e' xs ≡ xs =
        replace_absent e' xs (subst (λ k. All (λ j. j ≢ k) (map id xs)) (ap id q ∙ sym i) d.0) in
      rw (hit, gone, c, q)
  map-replace f e e' (x ∷ xs) d (inr m) i c = elim (Bool-cases (id x == id e')) [
    | inl q ↦ absurd (mem-ne e (id x) xs d.0 m (sym i ∙ sym ((nat_beq_iff _ _).0 q)))
    | inr q ↦ rw (q, map-replace f e e' xs d.1 m i c)
  ]

  -- A saved row is there afterwards.
  pub find-replace :
      (e' : A) (p : A → Bool) (xs : List A)
      → Any (λ y. id y ≡ id e') xs
      → p e' ≡ true
      → Any (λ y. p y ≡ true) (replace id e' xs)
  find-replace e' p [] m h = elim m [ ]
  find-replace e' p (x ∷ xs) (inl q) h = elim (Bool-cases (id x == id e')) [
    | inl t ↦ rw t (inl h)
    | inr f ↦ absurd (true_ne (sym ((nat_beq_iff _ _).1 q) ∙ f))
  ]
    where
      true_ne : ¬ (true ≡ false)
      true_ne h = cc
  find-replace e' p (x ∷ xs) (inr m) h = inr (find-replace e' p xs m h)

  -- A query that found a row finds the row that was saved over it, if that still fits.
  pub find_of_replace :
      (p : A → Bool) (e e' : A) (xs : List A)
      → find p xs ≡ some e
      → id e' ≡ id e
      → p e' ≡ true
      → find p (replace id e' xs) ≡ some e'
  find_of_replace p e e' [] f i h = cc
  find_of_replace p e e' (x ∷ xs) f i h =
      ground (arith, find_of_replace p e e' xs, nat_beq_iff (id x) (id e'))

  -- Saving a row leaves a query that neither the old nor the new row fits as it was.
  pub find-none_replaced :
      (p : A → Bool) (e' : A) (xs : List A)
      → find p xs ≡ none
      → p e' ≡ false
      → find p (replace id e' xs) ≡ none
  find-none_replaced p e' [] f h = refl
  find-none_replaced p e' (x ∷ xs) f h = ground (arith, find-none_replaced p e' xs)

module _ {A : Type 0} where
  -- A query that found nothing finds the appended row, if that fits.
  pub find-concat :
      (p : A → Bool) (xs : List A) (a : A)
      → find p xs ≡ none
      → p a ≡ true
      → find p (xs ++ a ∷ []) ≡ some a
  find-concat p [] a f h = rw h
  find-concat p (x ∷ xs) a f h = ground (arith, find-concat p xs a)

  -- Patching the rows that a query selects patches the row that it finds.
  pub find-update :
      (p : A → Bool) (f : A → A) (xs : List A) (a : A)
      → find p xs ≡ some a
      → p (f a) ≡ true
      → find p (update p f xs) ≡ some (f a)
  find-update p f [] a e h = cc
  find-update p f (x ∷ xs) a e h = elim (Bool-cases (p x)) [
    | inl t ↦ (let same : some x ≡ some a = rw t at e in rw t (ground (arith, same)))
    | inr g ↦ rw g (rw g (find-update p f xs a (rw g at e) h))
  ]

module _ {A : Type 0} (P : A → Type 0) where
  pub All-replace : (id : A → ℕ) (e : A) (xs : List A) → All P xs → P e → All P (replace id e xs)
  All-replace id e [] h p = tt
  All-replace id e (x ∷ xs) h p = elim (Bool-cases (id x == id e)) [
    | inl t ↦ rw t (p, All-replace id e xs h.1 p)
    | inr f ↦ rw f (h.0, All-replace id e xs h.1 p)
  ]

  pub All-update :
      (p : A → Bool) (f : A → A) (xs : List A)
      → ((x : A) → P x → P (f x))
      → All P xs
      → All P (update p f xs)
  All-update p f [] k h = tt
  All-update p f (x ∷ xs) k h = elim (Bool-cases (p x)) [
    | inl t ↦ rw t (k x h.0, All-update p f xs k h.1)
    | inr e ↦ rw e (h.0, All-update p f xs k h.1)
  ]

  pub All-find : (p : A → Bool) (xs : List A) (a : A) → All P xs → find p xs ≡ some a → P a
  All-find p [] a h e = cc
  All-find p (x ∷ xs) a h e = elim (Bool-cases (p x)) [
    | inl t ↦ (let same : some x ≡ some a = rw t at e in subst P (ground (arith, same)) h.0)
    | inr f ↦ All-find p xs a h.1 (rw f at e)
  ]
