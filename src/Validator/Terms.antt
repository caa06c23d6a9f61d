-- ===== src/Validator/Terms.antt =====
-- The occurrence of a term in a text, as `includes` of strings finds it.
use contents_factory.Common.{
  ℕ, ◌≡◌, refl, ap, ◌↔◌, inl, inr, true, [], ◌∷◌, ◌++◌, arith, Bool-cases, nat_eq,
}
use contents_factory.Enums.{agent_lifecycle_eq}
use contents_factory.Eligibility.{Text, text_eq}
use contents_factory.Validator.{starts_with, contains}

abbrev pub IsContained : Text → Text → Type 0
IsContained text term = (before : Text) × (after : Text) × (text ≡ before ++ (term ++ after))

starts_with_iff :
    (term text : Text) → (starts_with term text ≡ true) ↔ ((after : Text) × (text ≡ term ++ after))
starts_with_iff [] text = (λ h. (text, refl), λ h. refl)
starts_with_iff (c ∷ term) [] = (λ h. absurd (cc h), λ (after, e). absurd (ground arith))
starts_with_iff (c ∷ term) (d ∷ text) = ground (arith, starts_with_iff term text)

contains_more :
    (c : ℕ) (text term : Text)
    → (contains text term ≡ true) ↔ IsContained text term
    → (contains (c ∷ text) term ≡ true) ↔ IsContained (c ∷ text) term
contains_more c text term later = (there, λ (before, after, e). back before after e)
  where
    there : contains (c ∷ text) term ≡ true → IsContained (c ∷ text) term
    there h = elim (Bool-cases (starts_with term (c ∷ text))) [
      | inl now ↦ let (after, e) = (starts_with_iff term (c ∷ text)).0 now in ([], after, e)
      | inr not_yet ↦
          let (before, after, e) = later.0 (ground arith) in (c ∷ before, after, ap (c ∷◌) e)
    ]

    back :
        (before after : Text)
        → c ∷ text ≡ before ++ (term ++ after)
        → contains (c ∷ text) term ≡ true
    back [] after e = ground (arith, (starts_with_iff term (c ∷ text)).1 (after, e))
    back (b ∷ before) after e =
        let tail : text ≡ before ++ (term ++ after) = ground arith in
        ground (arith, later.1 (before, after, tail))

pub contains_iff : (text term : Text) → (contains text term ≡ true) ↔ IsContained text term
contains_iff [] term = (
  λ h. let (after, e) = (starts_with_iff term []).0 h in ([], after, e),
  λ (before, after, e). (starts_with_iff term []).1 (front before after e),
)
  where
    front :
        (before after : Text) → [] ≡ before ++ (term ++ after) → (rest : Text) × ([] ≡ term ++ rest)
    front [] after e = (after, e)
    front (b ∷ before) after e = absurd (ground arith)
contains_iff (c ∷ text) term = contains_more c text term (contains_iff text term)
