-- ===== src/Validator/Requirements.antt =====
-- What each check of `validate` asks of an order.
use contents_factory.Common.{
  both_iff, chain_iff, All-iff, Any-iff, three_iff, append_none_iff, pushed_iff, spared_iff,
  filter-Any_iff, filter-none_iff, ℕ, ◌+◌, ◌≤◌, ◌≡◌, refl, ◌↔◌, ◌≢◌, ◌⊎◌, Bool, true, false, Option,
  none, some, List, [], ◌∷◌, ◌++◌, arith, ◌&&◌, ◌||◌, not, nat_eq, ltb, if◌then◌else◌, filter,
  every, every_iff, some_of_iff, includes, is_empty, length, All, Any, get_or,
}
use contents_factory.Enums.{AgentLifecycle, agent_lifecycle_eq}
use contents_factory.Errors.{ErrorCode}
use contents_factory.Store.{Agent}
use contents_factory.Eligibility.{Text, text_eq, to_lower}
use contents_factory.Validator.{
  LicensedAsset, TargetChannel, OrderToCheck, Checked, wants_video, channel_errors, aspect_differs,
  is_too_long, spec_errors_of, concat_map, spec_errors, find_candidates, min_required,
  amount_errors, allows, has_license, usage_errors, is_valid_on, publish_date, license_errors,
  estimate_of, cap_errors, spent_today, working, agent_errors, contains, policy_errors,
  budget_errors, policy_hits,
}
use contents_factory.Validator.Terms.{IsContained, contains_iff}

concat_map_none_iff :
    {A B : Type 0} (f : A → List B) (xs : List A) → (concat_map f xs ≡ []) ↔ All (λ x. f x ≡ []) xs
concat_map_none_iff f [] = (λ h. tt, λ h. refl)
concat_map_none_iff f (x ∷ xs) =
    chain_iff (append_none_iff (f x) (concat_map f xs))
      (both_iff (λ h. h, λ h. h) (concat_map_none_iff f xs))

-- what the checks ask of the order

abbrev pub IsShort : Option ℕ → Option ℕ → Type 0
IsShort none duration = Unit
IsShort (some most) duration = (most ≡ 0) ⊎ (get_or duration 0 ≤ most)

-- the order's aspect and duration suit the channel
abbrev pub IsSuited : OrderToCheck → TargetChannel → Type 0
IsSuited o c =
    ((c.aspect ≡ none) ⊎ (o.aspect ≡ none) ⊎ (c.aspect ≡ o.aspect))
    × ((wants_video o.output_type ≡ false) ⊎ IsShort c.max_duration_sec o.duration_sec)

-- some candidate has a licence for the channel
abbrev pub IsServed : List LicensedAsset → TargetChannel → Type 0
IsServed candidates c = Any (λ a. Any (λ l. allows c l ≡ true) a.licenses) candidates

abbrev pub IsAffordedBy : Checked → ℕ → Option Agent → Type 0
IsAffordedBy ck estimate none = Unit
IsAffordedBy ck estimate (some a) =
    ((a.daily_budget ≡ 0) ⊎ (spent_today ck a.id + estimate ≤ a.daily_budget))
    × ((a.lifecycle ≡ AgentLifecycle.active) ⊎ (a.lifecycle ≡ AgentLifecycle.test))

abbrev pub AreEnough : OrderToCheck → Checked → (LicensedAsset → Bool) → Type 0
AreEnough o ck p = min_required o ck ≤ length (filter p (find_candidates o ck))

abbrev pub IsAcceptable : OrderToCheck → Checked → Type 0
IsAcceptable o ck =
    (o.artist_is_active ≡ true)
    × ((o.channels ≢ []) × All (λ c. c.is_active ≡ true) o.channels)
    × All (IsSuited o) o.channels
    × (min_required o ck ≤ length (find_candidates o ck))
    × (All (IsServed (find_candidates o ck)) o.channels
        × AreEnough o ck (has_license (is_valid_on (publish_date o ck)))
        × AreEnough o ck (has_license (λ l. l.derivative_allowed)))
    × (((o.budget_cap ≡ 0) ⊎ (estimate_of o ≤ o.budget_cap))
        × IsAffordedBy ck (estimate_of o) o.agent
        × All (λ t. ¬ IsContained (to_lower o.policy_text) (to_lower t)) ck.banned_terms)

-- one by one

pub channel_errors_iff :
    (o : OrderToCheck)
    → (channel_errors o ≡ []) ↔ ((o.channels ≢ []) × All (λ c. c.is_active ≡ true) o.channels)
channel_errors_iff o =
    chain_iff
      (pushed_iff (is_empty o.channels || not (every (λ c. c.is_active) o.channels))
        ErrorCode.channel_inactive)
      (active_iff o.channels)
  where
    active_iff :
        (cs : List TargetChannel)
        → ((is_empty cs || not (every (λ c. c.is_active) cs)) ≡ false)
          ↔ ((cs ≢ []) × All (λ c. c.is_active ≡ true) cs)
    active_iff [] = ground arith
    active_iff (c ∷ cs) = ground (arith, every_iff (λ d. d.is_active) (c ∷ cs))

aspect_differs_iff :
    (a b : Option Text) → (aspect_differs a b ≡ false) ↔ ((a ≡ none) ⊎ (b ≡ none) ⊎ (a ≡ b))
aspect_differs_iff none b = ground arith
aspect_differs_iff (some a) none = ground arith
aspect_differs_iff (some a) (some b) = ground (arith, text_eq.beq_iff a b)

is_too_long_iff :
    (most duration : Option ℕ) → (is_too_long most duration ≡ false) ↔ IsShort most duration
is_too_long_iff none duration = ground arith
is_too_long_iff (some most) duration = ground arith

spec_errors_of_iff :
    (o : OrderToCheck) (c : TargetChannel) → (spec_errors_of o c ≡ []) ↔ IsSuited o c
spec_errors_of_iff o c = chain_iff (append_none_iff _ _) (
    both_iff
      (chain_iff (pushed_iff (aspect_differs c.aspect o.aspect) ErrorCode.spec_mismatch)
        (aspect_differs_iff c.aspect o.aspect))
      (chain_iff
        (pushed_iff (wants_video o.output_type && is_too_long c.max_duration_sec o.duration_sec)
          ErrorCode.spec_mismatch)
        (short_iff (wants_video o.output_type))))
  where
    short_iff :
        (video : Bool)
        → ((video && is_too_long c.max_duration_sec o.duration_sec) ≡ false)
          ↔ ((video ≡ false) ⊎ IsShort c.max_duration_sec o.duration_sec)
    short_iff true = ground (arith, is_too_long_iff c.max_duration_sec o.duration_sec)
    short_iff false = ground arith

pub spec_errors_iff : (o : OrderToCheck) → (spec_errors o ≡ []) ↔ All (IsSuited o) o.channels
spec_errors_iff o =
    chain_iff (concat_map_none_iff (spec_errors_of o) o.channels)
      (All-iff o.channels (spec_errors_of_iff o))

pub amount_errors_iff :
    (e : ErrorCode) (o : OrderToCheck) (ck : Checked) (found : List LicensedAsset)
    → (amount_errors e o ck found ≡ []) ↔ (min_required o ck ≤ length found)
amount_errors_iff e o ck found =
    ground (arith, pushed_iff (ltb (length found) (min_required o ck)) e)

usage_errors_iff :
    (o : OrderToCheck) (candidates : List LicensedAsset)
    → (usage_errors o candidates ≡ []) ↔ All (IsServed candidates) o.channels
usage_errors_iff o candidates =
    chain_iff (concat_map_none_iff _ o.channels) (All-iff o.channels served_iff)
  where
    served_iff :
        (c : TargetChannel)
        → ((if is_empty (filter (has_license (allows c)) candidates)
              then ErrorCode.license_channel_denied ∷ []
              else [])
            ≡ [])
          ↔ IsServed candidates c
    served_iff c =
        chain_iff
          (pushed_iff (is_empty (filter (has_license (allows c)) candidates))
            ErrorCode.license_channel_denied)
          (chain_iff (filter-Any_iff (has_license (allows c)) candidates)
            (Any-iff candidates (λ a. some_of_iff (allows c) a.licenses)))

pub license_errors_iff :
    (o : OrderToCheck) (ck : Checked)
    → (license_errors o ck (find_candidates o ck) ≡ []) ↔ (
        All (IsServed (find_candidates o ck)) o.channels
        × AreEnough o ck (has_license (is_valid_on (publish_date o ck)))
        × AreEnough o ck (has_license (λ l. l.derivative_allowed)))
unfolding license_errors
license_errors_iff o ck =
    let candidates = find_candidates o ck in
    let dated = filter (has_license (is_valid_on (publish_date o ck))) candidates in
    let derivable = filter (has_license (λ l. l.derivative_allowed)) candidates in
    let expired = amount_errors ErrorCode.license_expired o ck dated in
    let denied = amount_errors ErrorCode.derivative_denied o ck derivable in
    chain_iff
      (chain_iff (append_none_iff (usage_errors o candidates ++ expired) denied)
        (both_iff (append_none_iff (usage_errors o candidates) expired) (λ h. h, λ h. h)))
      (three_iff (usage_errors_iff o candidates)
        (amount_errors_iff ErrorCode.license_expired o ck dated)
        (amount_errors_iff ErrorCode.derivative_denied o ck derivable))

cap_errors_iff :
    (o : OrderToCheck) (estimate : ℕ)
    → (cap_errors o estimate ≡ []) ↔ ((o.budget_cap ≡ 0) ⊎ (estimate ≤ o.budget_cap))
cap_errors_iff o estimate =
    ground (
      arith,
      pushed_iff (ltb 0 o.budget_cap && ltb o.budget_cap estimate) ErrorCode.budget_exceeded,
    )

agent_errors_iff :
    (ck : Checked) (estimate : ℕ) (agent : Option Agent)
    → (agent_errors ck agent estimate ≡ []) ↔ IsAffordedBy ck estimate agent
agent_errors_iff ck estimate none = ground arith
agent_errors_iff ck estimate (some a) =
    let dear = ltb 0 a.daily_budget && ltb a.daily_budget (spent_today ck a.id + estimate) in
    chain_iff
      (append_none_iff (if dear then ErrorCode.agent_budget_exceeded ∷ [] else [])
        (if includes working a.lifecycle then [] else ErrorCode.agent_budget_exceeded ∷ []))
      (both_iff (ground (arith, pushed_iff dear ErrorCode.agent_budget_exceeded)) (
        chain_iff (spared_iff (includes working a.lifecycle) ErrorCode.agent_budget_exceeded)
          (working_iff a.lifecycle)))
  where
    working_iff :
        (l : AgentLifecycle)
        → (includes working l ≡ true) ↔ ((l ≡ AgentLifecycle.active) ⊎ (l ≡ AgentLifecycle.test))
    working_iff l = ground (
      arith,
      agent_lifecycle_eq.beq_iff AgentLifecycle.active l,
      agent_lifecycle_eq.beq_iff AgentLifecycle.test l,
    )

policy_errors_iff :
    (o : OrderToCheck) (ck : Checked)
    → (policy_errors o ck ≡ [])
      ↔ All (λ t. ¬ IsContained (to_lower o.policy_text) (to_lower t)) ck.banned_terms
policy_errors_iff o ck =
    chain_iff (spared_iff (is_empty (policy_hits o ck)) ErrorCode.policy_violation) (
      chain_iff
        (filter-none_iff (λ t. contains (to_lower o.policy_text) (to_lower t)) ck.banned_terms)
        (All-iff ck.banned_terms (λ t. absent_iff (to_lower o.policy_text) (to_lower t))))
  where
    absent_iff : (text term : Text) → (contains text term ≡ false) ↔ (¬ IsContained text term)
    absent_iff text term = ground (arith, contains_iff text term)

pub budget_errors_iff :
    (o : OrderToCheck) (ck : Checked) (estimate : ℕ)
    → (budget_errors o ck estimate ≡ []) ↔ (
        ((o.budget_cap ≡ 0) ⊎ (estimate ≤ o.budget_cap))
        × IsAffordedBy ck estimate o.agent
        × All (λ t. ¬ IsContained (to_lower o.policy_text) (to_lower t)) ck.banned_terms)
unfolding budget_errors
budget_errors_iff o ck estimate =
    chain_iff
      (chain_iff
        (append_none_iff (cap_errors o estimate ++ agent_errors ck o.agent estimate)
          (policy_errors o ck))
        (both_iff (append_none_iff (cap_errors o estimate) (agent_errors ck o.agent estimate))
          (λ h. h, λ h. h)))
      (three_iff (cap_errors_iff o estimate) (agent_errors_iff ck estimate o.agent)
        (policy_errors_iff o ck))
