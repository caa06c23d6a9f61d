-- ===== src/Auth/Lock.antt =====
-- The lock of an account after failed logins.
use contents_factory.Common.{
  ℕ, suc, ◌+◌, ◌≤◌, ◌<◌, ◌≡◌, ◌↔◌, refl, ap, subst, ◌∙◌, min, Bool, true, false, Option, none, some,
  List, [], ◌∷◌, arith, ◌==◌, nat_eq, leb, length, All, Bool-cases, inl, inr,
}
use contents_factory.Errors.{ErrorCode, app, app_error, Result, err}
use contents_factory.Eligibility.{Text, text_eq, to_lower}
use contents_factory.Auth.{
  AuthConfig, Entry, AuthDb, Payload, TokenPair, live, value_of, count_failure, set_fail,
  authenticate, issue, login,
}

-- a login: its time, the id of the token it would get, its password
pub record Attempt : Type 0 where
  pub at : ℕ
  pub jti : ℕ
  pub password : Text

module _ {Token : Type 0} (cfg : AuthConfig) (sign : ℕ → Payload → Token)
    (compare : Text → Text → Bool) (email : Text) where
  abbrev pub attempt : Attempt → AuthDb → Result (TokenPair Token) × AuthDb
  attempt a db = login cfg sign compare a.at a.jti email a.password db

  -- one login after the other
  abbrev pub attempts : List Attempt → AuthDb → AuthDb
  attempts [] db = db
  attempts (a ∷ rest) db = attempts rest (attempt a db).1

  abbrev pub IsWrong : AuthDb → Attempt → Type 0
  IsWrong db a = authenticate compare email a.password db ≡ none

  -- The counter stands at `n`, or at the limit, since the first failure at `start`.
  abbrev IsCounted : ℕ → ℕ → AuthDb → Type 0
  IsCounted start n db =
      db.fails (to_lower email)
      ≡ some (record {
        value = min cfg.login_max_failures n;
        expires_at = some (start + cfg.login_lock_seconds);
      })

  authenticate_users :
      (password : Text) (db db' : AuthDb)
      → db.users ≡ db'.users
      → authenticate compare email password db ≡ authenticate compare email password db'
  unfolding authenticate
  authenticate_users password db db' h = rw h refl

  users-attempt : (a : Attempt) (db : AuthDb) → IsWrong db a → (attempt a db).1.users ≡ db.users
  unfolding login
  users-attempt a db wrong = ground (arith, wrong)

  fails-set_fail :
      (entry : Option Entry) (db : AuthDb)
      → (set_fail (to_lower email) entry db).fails (to_lower email) ≡ entry
  fails-set_fail entry db =
      let same : to_lower email == to_lower email ≡ true =
        (text_eq.beq_iff (to_lower email) (to_lower email)).1 refl in
      rw same refl

  attempt_blocked :
      (a : Attempt) (db : AuthDb)
      → cfg.login_max_failures ≤ value_of (live a.at (db.fails (to_lower email)))
      → attempt a db ≡ (err (app (app_error ErrorCode.auth_account_locked)), db)
  unfolding login
  attempt_blocked a db h =
      let full : leb cfg.login_max_failures (value_of (live a.at (db.fails (to_lower email))))
          ≡ true =
        ground arith in
      rw full refl

  attempt_wrong :
      (a : Attempt) (db : AuthDb)
      → value_of (live a.at (db.fails (to_lower email))) < cfg.login_max_failures
      → IsWrong db a
      → (attempt a db).1.fails (to_lower email)
        ≡ some (count_failure cfg a.at (db.fails (to_lower email)))
  unfolding login
  attempt_wrong a db h wrong =
      let room : leb cfg.login_max_failures (value_of (live a.at (db.fails (to_lower email))))
          ≡ false =
        ground arith in
      let noted = some (count_failure cfg a.at (db.fails (to_lower email))) in
      let refused : (attempt a db).1 ≡ set_fail (to_lower email) noted db = rw (room, wrong) refl in
      ap (λ d. d.fails (to_lower email)) refused ∙ fails-set_fail noted db

  first_failure :
      (a : Attempt) (db : AuthDb)
      → 1 ≤ cfg.login_max_failures
      → live a.at (db.fails (to_lower email)) ≡ none
      → IsWrong db a
      → IsCounted a.at 1 (attempt a db).1
  unfolding count_failure
  first_failure a db some_tries fresh wrong =
      let none_yet : value_of (live a.at (db.fails (to_lower email))) < cfg.login_max_failures =
        rw fresh some_tries in
      let one : 1 ≡ min cfg.login_max_failures 1 = omega arith in
      let entry : ℕ → Option Entry =
        λ n. some (record { value = n; expires_at = some (a.at + cfg.login_lock_seconds) }) in
      attempt_wrong a db none_yet wrong ∙ rw (fresh, count_failure) (ap entry one)

  live_counted :
      (start n now : ℕ) (db : AuthDb)
      → IsCounted start n db
      → now < start + cfg.login_lock_seconds
      → live now (db.fails (to_lower email)) ≡ db.fails (to_lower email)
  live_counted start n now db counted soon =
      let fresh : leb (start + cfg.login_lock_seconds) now ≡ false = ground arith in
      rw counted (rw fresh refl)

  next_failure :
      (start n : ℕ) (a : Attempt) (db : AuthDb)
      → IsCounted start (suc n) db
      → a.at < start + cfg.login_lock_seconds
      → IsWrong db a
      → IsCounted start (suc (suc n)) (attempt a db).1
  unfolding count_failure
  next_failure start n a db counted soon wrong =
      let count = min cfg.login_max_failures (suc n) in
      let there : live a.at (db.fails (to_lower email))
          ≡ some (record { value = count; expires_at = some (start + cfg.login_lock_seconds) }) =
        live_counted start (suc n) a.at db counted soon ∙ counted in
      let entry : ℕ → Option Entry =
        λ m. some (record { value = m; expires_at = some (start + cfg.login_lock_seconds) }) in
      elim (Bool-cases (leb cfg.login_max_failures (suc n))) [
        | inl full ↦
            let limit : cfg.login_max_failures ≤ suc n = ground arith in
            let reached : cfg.login_max_failures ≤ count = omega (arith, limit) in
            let same : count ≡ min cfg.login_max_failures (suc (suc n)) = omega (arith, limit) in
            ap (λ r. r.1.fails (to_lower email)) (attempt_blocked a db (rw there reached))
            ∙ counted
            ∙ ap entry same
        | inr room ↦
            let below : suc n < cfg.login_max_failures = ground arith in
            let few : count < cfg.login_max_failures = omega (arith, below) in
            let more : suc count ≡ min cfg.login_max_failures (suc (suc n)) =
              omega (arith, below) in
            let later : suc count == 1 ≡ false = ground (arith, below) in
            attempt_wrong a db (rw there few) wrong
            ∙ rw (there, count_failure, later) (ap entry more)
      ]

  locked_iff :
      (start n : ℕ) (a : Attempt) (db : AuthDb)
      → 1 ≤ cfg.login_max_failures
      → IsCounted start n db
      → ((attempt a db).0 ≡ err (app (app_error ErrorCode.auth_account_locked)))
        ↔ ((cfg.login_max_failures ≤ n) × (a.at < start + cfg.login_lock_seconds))
  unfolding login issue
  locked_iff start n a db some_tries counted = ground (arith, some_tries, counted)

  attempts-IsCounted :
      (start n : ℕ) (rest : List Attempt) (db db0 : AuthDb)
      → db.users ≡ db0.users
      → IsCounted start (suc n) db
      → All (λ a. (a.at < start + cfg.login_lock_seconds) × IsWrong db0 a) rest
      → IsCounted start (suc (n + length rest)) (attempts rest db)
  attempts-IsCounted start n [] db db0 same counted h =
      let sum : suc n ≡ suc (n + 0) = omega arith in subst (λ m. IsCounted start m db) sum counted
  attempts-IsCounted start n (a ∷ rest) db db0 same counted h =
      let wrong = authenticate_users a.password db db0 same ∙ h.0.1 in
      let sum : suc (suc n + length rest) ≡ suc (n + suc (length rest)) = omega arith in
      subst (λ m. IsCounted start m (attempts rest (attempt a db).1)) sum
        (attempts-IsCounted start (suc n) rest (attempt a db).1 db0
          (users-attempt a db wrong ∙ same) (next_failure start n a db counted h.0.0 wrong) h.1)

  -- After a first failed login and further failed ones within the lock period that starts with it, a
  -- login is refused as locked exactly when the failures have reached the limit and the period that
  -- started with the first failure is not over, whatever its password is. The limit is at least one, and
  -- no failure was counted before the first.
  pub locked_after_failures :
      (first : Attempt) (rest : List Attempt) (a : Attempt) (db : AuthDb)
      → 1 ≤ cfg.login_max_failures
      → live first.at (db.fails (to_lower email)) ≡ none
      → IsWrong db first
      → All (λ r. (r.at < first.at + cfg.login_lock_seconds) × IsWrong db r) rest
      → ((attempt a (attempts (first ∷ rest) db)).0
          ≡ err (app (app_error ErrorCode.auth_account_locked)))
        ↔ ((cfg.login_max_failures ≤ suc (length rest))
            × (a.at < first.at + cfg.login_lock_seconds))
  locked_after_failures first rest a db some_tries fresh wrong h =
      let sum : suc (0 + length rest) ≡ suc (length rest) = omega arith in
      let counted =
        attempts-IsCounted first.at 0 rest (attempt first db).1 db (users-attempt first db wrong)
          (first_failure first db some_tries fresh wrong) h in
      locked_iff first.at (suc (length rest)) a (attempts (first ∷ rest) db) some_tries
        (subst (λ m. IsCounted first.at m (attempts (first ∷ rest) db)) sum counted)
