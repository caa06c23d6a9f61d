-- ===== src/Auth/Refresh.antt =====
-- Refresh tokens: each is good for one use.
use contents_factory.Common.{
  ℕ, ◌+◌, ◌<◌, ◌≡◌, ◌≢◌, refl, ap, ◌∙◌, ◌⊎◌, inl, inr, Bool, true, false, Option, none, some, List,
  [], ◌∷◌, arith, ◌==◌, nat_eq, leb, if◌then◌else◌, find, map, Bool-cases,
}
use contents_factory.Errors.{ErrorCode, app, app_error, ok, err}
use contents_factory.Eligibility.{Text, to_lower}
use contents_factory.Auth.{
  AuthConfig, User, Entry, logged_in, authenticate, AuthDb, Payload, live, set_refresh, user_by_id,
  touch_login, issue, login, refresh, value_of, auth_user, set_fail, logout,
}

module _ {Token : Type 0} (cfg : AuthConfig) (sign : ℕ → Payload → Token)
    (verify : ℕ → Token → Bool) (decode : Token → Payload) where
  -- the id of the token is not known to Redis any more
  abbrev pub IsSpent : Token → AuthDb → Type 0
  IsSpent token db = db.refreshes (decode token).jti ≡ none

  refresh_spent :
      (now jti : ℕ) (token : Token) (db : AuthDb)
      → IsSpent token db
      → (refresh cfg sign verify decode now jti token db).0
        ≡ err (app (app_error ErrorCode.auth_token_expired))
  unfolding refresh
  refresh_spent now jti token db h = elim (Bool-cases (verify now token)) [
    | inl valid ↦ rw (valid, h) refl
    | inr bad ↦ rw bad refl
  ]

  issue_spends :
      (now jti : ℕ) (token : Token) (user : User) (db : AuthDb)
      → jti ≢ (decode token).jti
      → IsSpent token (issue cfg sign now jti user (set_refresh (decode token).jti none db)).1
  unfolding issue
  issue_spends now jti token user db fresh = ground (arith, fresh)

  -- One request of a client; the id of a token that it issues is not that of `token`.
  pub data Step (token : Token) : AuthDb → AuthDb → Type 0 where
    log_in :
        (db : AuthDb) (compare : Text → Text → Bool) (now jti : ℕ) (email password : Text)
        → jti ≢ (decode token).jti
        → Step token db (login cfg sign compare now jti email password db).1
    rotate :
        (db : AuthDb) (now jti : ℕ) (t : Token)
        → jti ≢ (decode token).jti
        → Step token db (refresh cfg sign verify decode now jti t db).1
    log_out :
        (db : AuthDb) (now : ℕ) (t : Option Token)
        → Step token db (logout cfg sign verify decode now t db)

  pub data Steps (token : Token) : AuthDb → AuthDb → Type 0 where
    done : (db : AuthDb) → Steps token db db
    next : (db db' db'' : AuthDb) → Step token db db' → Steps token db' db'' → Steps token db db''

  login-IsSpent :
      (token : Token) (db : AuthDb) (compare : Text → Text → Bool) (now jti : ℕ)
      (email password : Text)
      → jti ≢ (decode token).jti
      → IsSpent token db
      → IsSpent token (login cfg sign compare now jti email password db).1
  unfolding login issue
  login-IsSpent token db compare now jti email password fresh h = ground (arith, fresh, h)

  refresh-IsSpent :
      (token : Token) (db : AuthDb) (now jti : ℕ) (t : Token)
      → jti ≢ (decode token).jti
      → IsSpent token db
      → IsSpent token (refresh cfg sign verify decode now jti t db).1
  unfolding refresh issue
  refresh-IsSpent token db now jti t fresh h = ground (arith, fresh, h)

  logout-IsSpent :
      (token : Token) (db : AuthDb) (now : ℕ) (t : Option Token)
      → IsSpent token db
      → IsSpent token (logout cfg sign verify decode now t db)
  unfolding logout
  logout-IsSpent token db now none h = h
  logout-IsSpent token db now (some t) h = ground (arith, h)

  Step-IsSpent :
      (token : Token) (db db' : AuthDb) → Step token db db' → IsSpent token db → IsSpent token db'
  Step-IsSpent token _ _ (log_in db compare now jti email password fresh) h =
      login-IsSpent token db compare now jti email password fresh h
  Step-IsSpent token _ _ (rotate db now jti t fresh) h = refresh-IsSpent token db now jti t fresh h
  Step-IsSpent token _ _ (log_out db now t) h = logout-IsSpent token db now t h

  Steps-IsSpent :
      (token : Token) (db db' : AuthDb) → Steps token db db' → IsSpent token db → IsSpent token db'
  Steps-IsSpent token _ _ (done db) h = h
  Steps-IsSpent token _ _ (next db db' db'' step steps) h =
      Steps-IsSpent token db' db'' steps (Step-IsSpent token db db' step h)

  refresh_spends :
      (now jti : ℕ) (token : Token) (db : AuthDb)
      → verify now token ≡ true
      → jti ≢ (decode token).jti
      → IsSpent token (refresh cfg sign verify decode now jti token db).1
  unfolding refresh issue
  refresh_spends now jti token db valid fresh = ground (arith, valid, fresh)

  logout_spends :
      (now : ℕ) (token : Token) (db : AuthDb)
      → verify now token ≡ true
      → IsSpent token (logout cfg sign verify decode now (some token) db)
  unfolding logout
  logout_spends now token db valid = ground (arith, valid)

  -- A refresh token that is valid when it is presented, be it to `refresh`, whatever that returns, or to
  -- `logout`, is refused with AUTH_TOKEN_EXPIRED ever after: at any time, and whatever logins, refreshes
  -- and logouts come between, as long as no token is issued with the same id.
  pub spent_token_refused :
      (token : Token) (now jti : ℕ) (db db' : AuthDb) (later jti' : ℕ)
      → verify now token ≡ true
      → jti ≢ (decode token).jti
      → Steps token (refresh cfg sign verify decode now jti token db).1 db'
        ⊎ Steps token (logout cfg sign verify decode now (some token) db) db'
      → (refresh cfg sign verify decode later jti' token db').0
        ≡ err (app (app_error ErrorCode.auth_token_expired))
  spent_token_refused token now jti db db' later jti' valid fresh (inl steps) =
      refresh_spent later jti' token db' (
        Steps-IsSpent token (refresh cfg sign verify decode now jti token db).1 db' steps
          (refresh_spends now jti token db valid fresh))
  spent_token_refused token now jti db db' later jti' valid fresh (inr steps) =
      refresh_spent later jti' token db' (
        Steps-IsSpent token (logout cfg sign verify decode now (some token) db) db' steps
          (logout_spends now token db valid))

-- A row that is found by its id is found, with the time of the login, after the login is noted.
find_touched :
    (id now : ℕ) (users : List User) (user : User)
    → find (λ u. u.id == id) users ≡ some user
    → find (λ u. u.id == id) (map (λ u. if u.id == id then logged_in now u else u) users)
      ≡ some (logged_in now user)
find_touched id now [] user h = absurd (cc h)
find_touched id now (u ∷ users) user h = ground (arith, h, find_touched id now users user)

authenticate_active :
    (compare : Text → Text → Bool) (email password : Text) (db : AuthDb) (user : User)
    → authenticate compare email password db ≡ some user
    → user.is_active ≡ true
unfolding authenticate
authenticate_active compare email password db user h = ground (arith, h)

-- a valid token that Redis knows, of an active user
refresh_known :
    {Token : Type 0} (cfg : AuthConfig) (sign : ℕ → Payload → Token) (verify : ℕ → Token → Bool)
    (decode : Token → Payload) (now jti : ℕ) (token : Token) (db : AuthDb) (p : Payload) (at : ℕ)
    (user : User)
    → verify now token ≡ true
    → decode token ≡ p
    → db.refreshes p.jti ≡ some (record { value = p.sub; expires_at = some at })
    → now < at
    → user_by_id p.sub db ≡ some user
    → user.is_active ≡ true
    → (refresh cfg sign verify decode now jti token db).0
      ≡ ok (record {
        refresh_token = sign now (record { sub = user.id; jti = jti });
        user = auth_user user;
      })
unfolding refresh issue
refresh_known cfg sign verify decode now jti token db p at user valid read stored soon found
      active =
    ground (arith, valid, read, stored, soon, found, active)

-- A login with the right credentials, when the account is not locked, issues a refresh token, and this
-- token, presented before its lifetime is over, gives a new pair for the same user. It holds when a
-- signed token is read back as it was and verifies during its lifetime, and when the user's id is that
-- of no earlier row.
pub login_then_refresh :
    {Token : Type 0} (cfg : AuthConfig) (sign : ℕ → Payload → Token) (verify : ℕ → Token → Bool)
    (decode : Token → Payload) (compare : Text → Text → Bool) (now jti : ℕ) (email password : Text)
    (db : AuthDb) (user : User) (later jti' : ℕ)
    → ((n : ℕ) → (p : Payload) → decode (sign n p) ≡ p)
    → ((n n' : ℕ) → (p : Payload) → n' < n + cfg.refresh_ttl → verify n' (sign n p) ≡ true)
    → value_of (live now (db.fails (to_lower email))) < cfg.login_max_failures
    → authenticate compare email password db ≡ some user
    → user_by_id user.id db ≡ some user
    → later < now + cfg.refresh_ttl
    → let first = login cfg sign compare now jti email password db in
      let token = sign now (record { sub = user.id; jti = jti }) in
      (first.0 ≡ ok (record { refresh_token = token; user = auth_user user }))
      × ((refresh cfg sign verify decode later jti' token first.1).0
          ≡ ok (record {
            refresh_token = sign later (record { sub = user.id; jti = jti' });
            user = auth_user user;
          }))
unfolding login issue refresh
login_then_refresh cfg sign verify decode compare now jti email password db user later jti' round
      lives few right row soon =
    let open_account : leb cfg.login_max_failures (value_of (live now (db.fails (to_lower email))))
        ≡ false =
      ground arith in
    let payload : Payload = record { sub = user.id; jti = jti } in
    let token = sign now payload in
    let stored : Entry = record { value = user.id; expires_at = some (now + cfg.refresh_ttl) } in
    let cleared = touch_login user.id now (set_fail (to_lower email) none db) in
    let first : login cfg sign compare now jti email password db ≡ (
      ok (record { refresh_token = token; user = auth_user user }),
      set_refresh jti (some stored) cleared,
    ) =
      rw (open_account, right) refl in
    let read = round now payload in
    let valid = lives now later payload soon in
    let found = find_touched user.id now db.users user row in
    let active = authenticate_active compare email password db user right in
    (
      ap (λ r. r.0) first,
      ap (λ r. (refresh cfg sign verify decode later jti' token r.1).0) first
          ∙ refresh_known cfg sign verify decode later jti' token
              (set_refresh jti (some stored) cleared) payload (now + cfg.refresh_ttl)
              (logged_in now user) valid read (ground arith) soon found active,
    )
