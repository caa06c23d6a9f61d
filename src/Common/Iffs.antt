-- ===== src/Common/Iffs.antt =====
-- Equivalences: their composition, and when a list that a test or a filter gives is empty.
use mathlib.Core.Path.{◌≡◌}
use mathlib.Core.Logic.{◌↔◌}
use mathlib.Core.Bool.{Bool, true, false}
use mathlib.Core.List.{List, [], ◌∷◌, ◌++◌}
use native.Mathlib.Omega.{arith}
use contents_factory.Common.Tests.{if◌then◌else◌}
use contents_factory.Common.Lists.{filter, is_empty, All, Any}

pub both_iff : {A B C D : Type 0} → A ↔ B → C ↔ D → (A × C) ↔ (B × D)
both_iff f g = (λ (a, c). (f.0 a, g.0 c), λ (b, d). (f.1 b, g.1 d))

pub chain_iff : {A B C : Type 0} → A ↔ B → B ↔ C → A ↔ C
chain_iff f g = (λ a. g.0 (f.0 a), λ c. f.1 (g.1 c))

pub All-iff :
    {A : Type 0} {P Q : A → Type 0} (xs : List A) → ((x : A) → P x ↔ Q x) → All P xs ↔ All Q xs
All-iff [] f = (λ h. tt, λ h. tt)
All-iff (x ∷ xs) f = both_iff (f x) (All-iff xs f)

pub Any-iff :
    {A : Type 0} {P Q : A → Type 0} (xs : List A) → ((x : A) → P x ↔ Q x) → Any P xs ↔ Any Q xs
Any-iff [] f = (λ h. h, λ h. h)
Any-iff (x ∷ xs) f = ground (arith, f x, Any-iff xs f)

pub three_iff : {A B C D E F : Type 0} → A ↔ B → C ↔ D → E ↔ F → ((A × C) × E) ↔ (B × D × F)
three_iff f g h = (λ ((a, c), e). (f.0 a, g.0 c, h.0 e), λ (b, d, k). ((f.1 b, g.1 d), h.1 k))

pub flat_iff : {A B C D E F : Type 0} → (A × (B × (C × (D × (E × F))))) ↔ (A × B × C × D × E × F)
flat_iff = (
  λ (a, (b, (c, (d, (e, f))))). (a, b, c, d, e, f),
  λ (a, b, c, d, e, f). (a, (b, (c, (d, (e, f))))),
)

-- the lists that are empty

module _ {A : Type 0} where
  pub append_none_iff : (xs ys : List A) → (xs ++ ys ≡ []) ↔ ((xs ≡ []) × (ys ≡ []))
  append_none_iff [] ys = ground arith
  append_none_iff (x ∷ xs) ys = ground arith

  pub pushed_iff : (b : Bool) (x : A) → ((if b then x ∷ [] else []) ≡ []) ↔ (b ≡ false)
  pushed_iff true x = ground arith
  pushed_iff false x = ground arith

  pub spared_iff : (b : Bool) (x : A) → ((if b then [] else x ∷ []) ≡ []) ↔ (b ≡ true)
  spared_iff true x = ground arith
  spared_iff false x = ground arith

  pub filter-Any_iff :
      (p : A → Bool) (xs : List A) → (is_empty (filter p xs) ≡ false) ↔ Any (λ x. p x ≡ true) xs
  filter-Any_iff p [] = ground arith
  filter-Any_iff p (x ∷ xs) = ground (arith, filter-Any_iff p xs)

  pub filter-none_iff :
      (p : A → Bool) (xs : List A) → (is_empty (filter p xs) ≡ true) ↔ All (λ x. p x ≡ false) xs
  filter-none_iff p [] = ground arith
  filter-none_iff p (x ∷ xs) = ground (arith, filter-none_iff p xs)
