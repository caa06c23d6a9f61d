-- ===== src/Validator/Checks.antt =====
-- The orders that `validate` accepts, in terms of the tables rather than of the checks' code.
use contents_factory.Common.{
  both_iff, chain_iff, flat_iff, spared_iff, ℕ, ◌≡◌, ◌↔◌, true, List, [], ◌∷◌, arith, nat_eq,
  length,
}
use contents_factory.Enums.{agent_lifecycle_eq}
use contents_factory.Errors.{ErrorCode}
use contents_factory.Eligibility.{text_eq}
use contents_factory.Validator.{
  OrderToCheck, Checked, ValidationResult, artist_errors, channel_errors, spec_errors,
  find_candidates, amount_errors, license_errors, estimate_of, budget_errors, result_of, stop_on,
  validate,
}
use contents_factory.Validator.Requirements.{
  IsAcceptable, channel_errors_iff, spec_errors_iff, amount_errors_iff, license_errors_iff,
  budget_errors_iff,
}

stop_on-result_iff :
    (errors : List ErrorCode) (cost count : ℕ) (later : ValidationResult)
    → ((stop_on errors cost count later).is_ok ≡ true) ↔ ((errors ≡ []) × (later.is_ok ≡ true))
stop_on-result_iff [] cost count later = ground arith
stop_on-result_iff (e ∷ errors) cost count later = ground arith

refused_iff :
    (errors : List ErrorCode) (cost count : ℕ) (later : ValidationResult) {A B : Type 0}
    → (errors ≡ []) ↔ A
    → (later.is_ok ≡ true) ↔ B
    → ((stop_on errors cost count later).is_ok ≡ true) ↔ (A × B)
refused_iff errors cost count later f g =
    chain_iff (stop_on-result_iff errors cost count later) (both_iff f g)

result_of_iff :
    (errors : List ErrorCode) (cost count : ℕ)
    → ((result_of errors cost count).is_ok ≡ true) ↔ (errors ≡ [])
result_of_iff [] cost count = ground arith
result_of_iff (e ∷ errors) cost count = ground arith

-- An order is accepted exactly when its artist is active; it has channels and all are active; its aspect and
-- duration suit every channel; enough candidates pass its filter, and of these enough have a licence for
-- the date of publication and enough one that allows derivatives; every channel is allowed by some
-- candidate's licence; the estimate keeps within the cap and what is left of the agent's budget, and
-- the agent works; and no banned term occurs in its text.
pub validate_iff :
    (o : OrderToCheck) (ck : Checked) → ((validate o ck).is_ok ≡ true) ↔ IsAcceptable o ck
unfolding validate
validate_iff o ck =
    let candidates = find_candidates o ck in
    let found = length candidates in
    let last = result_of (budget_errors o ck (estimate_of o)) (estimate_of o) found in
    let fifth = stop_on (license_errors o ck candidates) 0 found last in
    let fourth =
      stop_on (amount_errors ErrorCode.insufficient_assets o ck candidates) 0 found fifth in
    let third = stop_on (spec_errors o) 0 0 fourth in
    chain_iff
      (refused_iff (artist_errors o) 0 0 (stop_on (channel_errors o) 0 0 third)
        (spared_iff o.artist_is_active ErrorCode.artist_inactive)
        (refused_iff (channel_errors o) 0 0 third (channel_errors_iff o) (
          refused_iff (spec_errors o) 0 0 fourth (spec_errors_iff o) (
            refused_iff (amount_errors ErrorCode.insufficient_assets o ck candidates) 0 found fifth
              (amount_errors_iff ErrorCode.insufficient_assets o ck candidates)
              (refused_iff (license_errors o ck candidates) 0 found last (license_errors_iff o ck) (
                chain_iff (result_of_iff (budget_errors o ck (estimate_of o)) (estimate_of o) found)
                  (budget_errors_iff o ck (estimate_of o))))))))
      flat_iff
