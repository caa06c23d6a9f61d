-- ===== src/Auth/Tests.antt =====
-- One user, who logs in, presents her token twice, and mistypes her password.
use contents_factory.Common.{
  Bool, List, [], arith, if◌then◌else◌, inl, length, ltb, nat_eq, none, refl, some, suc, true, ℕ,
  ◌+◌, ◌<◌, ◌==◌, ◌↔◌, ◌∷◌, ◌≡◌, ◌≤◌,
}
use contents_factory.Auth.{
  AuthConfig, AuthDb, Payload, User, auth_user, authenticate, login, refresh,
}
use contents_factory.Auth.Lock.{Attempt, attempt, attempts, locked_after_failures}
use contents_factory.Auth.Refresh.{done, login_then_refresh, spent_token_refused}
use contents_factory.Eligibility.{Text, text_beq, text_eq, to_lower}
use contents_factory.Enums.{UserRole}
use contents_factory.Errors.{ErrorCode, app, app_error, err, ok}

abbrev five_tries : AuthConfig
five_tries = record { login_max_failures = 5; login_lock_seconds = 900; refresh_ttl = 1209600 }

abbrev ann : User
ann = record {
  id = 3;
  email = b'a' ∷ [];
  password_hash = some (b'p' ∷ []);
  role = UserRole.operator;
  is_active = true;
  last_login_at = none;
}

abbrev no_keys : AuthDb
no_keys = record { users = ann ∷ []; fails = λ k. none; refreshes = λ k. none }

-- a token is what was signed
abbrev sign_pair : ℕ → Payload → ℕ × Payload
sign_pair at p = (at, p)

abbrev verify_pair : ℕ → ℕ × Payload → Bool
verify_pair now token = ltb now (token.0 + 1209600)

abbrev decode_pair : ℕ × Payload → Payload
decode_pair token = token.1

abbrev right_password : Text
right_password = b'p' ∷ []

abbrev wrong_password : Text
wrong_password = b'q' ∷ []

abbrev email_ann : Text
email_ann = b'A' ∷ []

abbrev attempt_at : ℕ → Text → Attempt
attempt_at at password = record { at = at; jti = at; password = password }

abbrev token_one : ℕ × Payload
token_one = (10, record { sub = 3; jti = 1 })

abbrev first_try : Attempt
first_try = attempt_at 100 wrong_password

abbrev more_tries : List Attempt
more_tries =
    attempt_at 110 wrong_password
    ∷ attempt_at 120 wrong_password
    ∷ attempt_at 130 wrong_password
    ∷ attempt_at 990 wrong_password
    ∷ []

abbrev right_try : Attempt
right_try = attempt_at 999 right_password

abbrev known_token : AuthDb
known_token = record {
  users = ann ∷ [];
  fails = λ k. none;
  refreshes = λ k. if k == 1 then some (record { value = 3; expires_at = some 2000 }) else none;
}

spent_token_refused_example :
    (refresh five_tries sign_pair verify_pair decode_pair 30 4 token_one
      (refresh five_tries sign_pair verify_pair decode_pair 20 2 token_one known_token).1).0
    ≡ err (app (app_error ErrorCode.auth_token_expired))
spent_token_refused_example =
    spent_token_refused five_tries sign_pair verify_pair decode_pair token_one 20 2 known_token
      (refresh five_tries sign_pair verify_pair decode_pair 20 2 token_one known_token).1 30 4 refl
      (λ e. omega (arith, e))
      (inl
        (done (refresh five_tries sign_pair verify_pair decode_pair 20 2 token_one known_token).1))

login_then_refresh_example :
    let first = login five_tries sign_pair text_beq 10 1 email_ann right_password no_keys in
    let token = sign_pair 10 (record { sub = ann.id; jti = 1 }) in
    (first.0 ≡ ok (record { refresh_token = token; user = auth_user ann }))
    × ((refresh five_tries sign_pair verify_pair decode_pair 500 2 token first.1).0
        ≡ ok (record {
          refresh_token = sign_pair 500 (record { sub = ann.id; jti = 2 });
          user = auth_user ann;
        }))
unfolding authenticate to_lower
login_then_refresh_example =
    login_then_refresh five_tries sign_pair verify_pair decode_pair text_beq 10 1 email_ann
      right_password no_keys ann 500 2 (λ n p. refl) (λ n now p soon. ground arith) (omega arith)
      refl refl (omega arith)

locked_after_failures_example :
    ((attempt five_tries sign_pair text_beq email_ann right_try
        (attempts five_tries sign_pair text_beq email_ann (first_try ∷ more_tries) no_keys)).0
      ≡ err (app (app_error ErrorCode.auth_account_locked)))
    ↔ ((five_tries.login_max_failures ≤ suc (length more_tries))
        × (right_try.at < first_try.at + five_tries.login_lock_seconds))
unfolding authenticate to_lower
locked_after_failures_example =
    locked_after_failures five_tries sign_pair text_beq email_ann first_try more_tries right_try
      no_keys (omega arith) refl refl
      ((omega arith, refl), ((omega arith, refl), ((omega arith, refl), ((omega arith, refl), tt))))
