-- ===== src/Orchestrator/Finalize.antt =====
-- When an order is closed, and as what.
use contents_factory.Common.{
  ℕ, All-iff, ◌≡◌, refl, ◌≢◌, ◌⊎◌, ◌↔◌, inl, inr, Bool, true, false, Option, none, some, List, [],
  ◌∷◌, arith, ◌==◌, nat_eq, filter, length, every, includes, All, Bool-cases, is_empty, every_iff,
  length-filter-All_iff, nat_beq_iff, if◌then◌else◌,
}
use contents_factory.Enums.{ContentStatus, OrderStatus, content_status_eq}
use contents_factory.Errors.{ok}
use contents_factory.Store.{Content, Db, update}
use contents_factory.Orchestrator.{final_status, final_statuses, finalize_order}

abbrev IsFinal : Content → Type 0
IsFinal c = includes final_statuses c.status ≡ true

abbrev pub IsPublished : Content → Type 0
IsPublished c = (c.status == ContentStatus.published) ≡ true

-- Published contents are final.
All-IsFinal : (xs : List Content) → All IsPublished xs → All IsFinal xs
All-IsFinal [] h = tt
All-IsFinal (x ∷ xs) h = (published_final x.status h.0, All-IsFinal xs h.1)
  where
    published_final :
        (s : ContentStatus)
        → (s == ContentStatus.published) ≡ true
        → includes final_statuses s ≡ true
    published_final s h = ground arith

module _ (p q : Content → Bool) (xs : List Content)
    (final : All (λ x. q x ≡ true) xs → All (λ x. p x ≡ true) xs) where
  abbrev closing : Option OrderStatus
  closing =
      if is_empty xs
      then none
      else if every p xs
      then some
          (if length (filter q xs) == length xs then OrderStatus.done else OrderStatus.partial)
      else none

  closing_open : every p xs ≡ false → (closing ≡ none) × (¬ All (λ x. p x ≡ true) xs)
  closing_open e = (ground arith, λ h. cc (e, (every_iff p xs).1 h))

  closing_full :
      is_empty xs ≡ false
      → every p xs ≡ true
      → ((closing ≡ some OrderStatus.done) × All (λ x. q x ≡ true) xs)
        ⊎ ((closing ≡ some OrderStatus.partial) × (¬ All (λ x. q x ≡ true) xs))
  closing_full n e = elim (Bool-cases (length (filter q xs) == length xs)) [
    | inl same ↦
        inl (rw n (rw e (rw same)), (length-filter-All_iff q xs).0 ((nat_beq_iff _ _).0 same))
    | inr less ↦ inr (
      rw n (rw e (rw less)),
      λ h. cc (less, (nat_beq_iff _ _).1 ((length-filter-All_iff q xs).1 h)),
    )
  ]

  closing_iff :
      is_empty xs ≡ false
      → ((closing ≡ some OrderStatus.done) ↔ All (λ x. q x ≡ true) xs)
        × ((closing ≡ some OrderStatus.partial)
            ↔ (All (λ x. p x ≡ true) xs × ¬ All (λ x. q x ≡ true) xs))
        × ((closing ≡ none) ↔ (¬ All (λ x. p x ≡ true) xs))
  closing_iff n = elim (Bool-cases (every p xs)) [
    | inr e ↦
        (let (same, lacks) = closing_open e in
          (
            (λ h. cc (h, same), λ h. absurd (lacks (final h))),
            (λ h. cc (h, same), λ h. absurd (lacks h.0)),
            (λ h. lacks, λ h. same),
          ))
    | inl e ↦
        (let all_p = (every_iff p xs).0 e in
          elim (closing_full n e) [
            | inl (same, all_q) ↦ (
              (λ h. all_q, λ h. same),
              (λ h. cc (h, same), λ h. absurd (h.1 all_q)),
              (λ h. cc (h, same), λ h. absurd (h all_p)),
            )
            | inr (same, lacks) ↦ (
              (λ h. cc (h, same), λ h. absurd (lacks h)),
              (λ h. (all_p, lacks), λ h. same),
              (λ h. cc (h, same), λ h. absurd (h all_p)),
            )
          ])
  ]

final_status_iff :
    (contents : List Content)
    → ((final_status contents ≡ some OrderStatus.done)
        ↔ ((contents ≢ []) × All IsPublished contents))
      × ((final_status contents ≡ some OrderStatus.partial)
          ↔ ((contents ≢ []) × All IsFinal contents × ¬ All IsPublished contents))
      × ((final_status contents ≡ none) ↔ ((contents ≡ []) ⊎ (¬ All IsFinal contents)))
unfolding final_status
final_status_iff [] = ground arith
final_status_iff (c ∷ contents) =
    let (as_done, as_partial, as_open) =
      closing_iff (λ x. includes final_statuses x.status) (λ x. x.status == ContentStatus.published)
        (c ∷ contents) (All-IsFinal (c ∷ contents)) refl in
    (
      (λ h. (λ e. cc, as_done.0 h), λ h. as_done.1 h.1),
      (λ h. (λ e. cc, (as_partial.0 h).0, (as_partial.0 h).1), λ h. as_partial.1 (h.1, h.2)),
      (λ h. inr (as_open.0 h), λ h. as_open.1 (left h)),
    )
  where
    left : ((c ∷ contents ≡ []) ⊎ (¬ All IsFinal (c ∷ contents))) → ¬ All IsFinal (c ∷ contents)
    left (inl e) = cc
    left (inr h) = h

-- published, blocked, failed, rejected, or failed in its last check: nothing more is awaited of the content
abbrev pub IsOver : Content → Type 0
IsOver c =
    (c.status ≡ ContentStatus.published)
    ⊎ (c.status ≡ ContentStatus.blocked)
    ⊎ (c.status ≡ ContentStatus.failed)
    ⊎ (c.status ≡ ContentStatus.rejected)
    ⊎ (c.status ≡ ContentStatus.qc_failed)

IsFinal-iff : (s : ContentStatus) (c : Content) → c.status ≡ s → IsFinal c ↔ IsOver c
IsFinal-iff s c e = ground arith

final_values :
    (contents : List Content)
    → (final_status contents ≡ none)
      ⊎ (final_status contents ≡ some OrderStatus.done)
      ⊎ (final_status contents ≡ some OrderStatus.partial)
unfolding final_status
final_values contents = ground arith

-- the state in which the rows of the order have the status
abbrev pub closed_as : ℕ → OrderStatus → Db → Db
closed_as id status db = record db {
  orders = update (λ o. o.id == id) (λ o. record o { status = status }) db.orders;
}

-- An order of which all contents are published becomes DONE. An order of which all are published, blocked,
-- failed, rejected or QC_FAILED, but not all published, becomes PARTIAL. An order without contents, or with
-- one in any other status, is left as it is. Nothing else is changed.
pub finalize_order_outcome :
    (id : ℕ) (db : Db)
    → let contents = filter (λ c. c.order_id == id) db.contents in
      ((contents ≢ [])
        × All (λ c. c.status ≡ ContentStatus.published) contents
        × (finalize_order id db ≡ (ok tt, closed_as id OrderStatus.done db)))
      ⊎ ((contents ≢ [])
          × All IsOver contents
          × (¬ All (λ c. c.status ≡ ContentStatus.published) contents)
          × (finalize_order id db ≡ (ok tt, closed_as id OrderStatus.partial db)))
      ⊎ (((contents ≡ []) ⊎ (¬ All IsOver contents)) × (finalize_order id db ≡ (ok tt, db)))
unfolding finalize_order
finalize_order_outcome id db =
    let contents = filter (λ c. c.order_id == id) db.contents in
    let (as_done, as_partial, as_open) = final_status_iff contents in
    let over = All-iff contents (λ c. IsFinal-iff c.status c refl) in
    let posted : All IsPublished contents ↔ All (λ c. c.status ≡ ContentStatus.published) contents =
      All-iff contents (λ c. content_status_eq.beq_iff c.status ContentStatus.published) in
    elim (final_values contents) [
      | inl left ↦ inr (inr (still over (as_open.0 left), rw left refl))
      | inr (inl done) ↦
          let (some_there, all_posted) = as_done.0 done in
          inl (some_there, posted.0 all_posted, rw done refl)
      | inr (inr partial) ↦
          let (some_there, all_final, lacks) = as_partial.0 partial in
          inr (inl (some_there, over.0 all_final, λ h. lacks (posted.1 h), rw partial refl))
    ]
  where
    still : {B : Type 0} {P Q : Type 0} → P ↔ Q → (B ⊎ (¬ P)) → B ⊎ (¬ Q)
    still f (inl b) = inl b
    still f (inr n) = inr (λ q. n (f.1 q))
