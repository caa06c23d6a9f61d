-- ===== src/Auth.antt =====
-- apps/api/src/auth/auth.service.ts and libs/common/src/auth/roles.guard.ts: logging in, rotating
-- refresh tokens, and what a guard lets through. Redis is a part of the state: the counters of failed
-- logins and the refresh tokens, each with the time it expires. The clock (in seconds) and the id that
-- `ulid()` gives are arguments; bcrypt and the JWT library are parameters.
pub mod Refresh
pub mod Lock
mod Tests
use contents_factory.Common.{
  ℕ, zero, suc, ◌+◌, Bool, true, false, not, Option, none, some, List, [], ◌∷◌, ◌&&◌, ◌||◌, ◌==◌,
  nat_eq, leb, ltb, if◌then◌else◌, find, map, get_or,
}
use contents_factory.Enums.{UserRole}
use contents_factory.Errors.{
  ErrorCode, Thrown, app, other, app_error, default_failure_class, Result, ok, err,
}
use contents_factory.Approval.{AuthUser, can_review, has_min_role}
use contents_factory.Eligibility.{Text, text_eq, to_lower}

pub record AuthConfig : Type 0 where
  pub login_max_failures : ℕ
  pub login_lock_seconds : ℕ
  pub refresh_ttl : ℕ

pub record User : Type 0 where
  pub id : ℕ
  pub email : Text
  pub password_hash : Option Text
  pub role : UserRole
  pub is_active : Bool
  pub last_login_at : Option ℕ

-- a key of Redis: its value, and the time it expires, if any
pub record Entry : Type 0 where
  pub value : ℕ
  pub expires_at : Option ℕ

pub record AuthDb : Type 0 where
  pub users : List User
  -- `login:fail:<email>`
  pub fails : Text → Option Entry
  -- `refresh:<jti>`, with the id of the user
  pub refreshes : ℕ → Option Entry

-- what a refresh token says
pub record Payload : Type 0 where
  pub sub : ℕ
  pub jti : ℕ

pub record TokenPair (Token : Type 0) : Type 0 where
  pub refresh_token : Token
  pub user : AuthUser

-- an entry that has expired is not there any more
abbrev pub live : ℕ → Option Entry → Option Entry
live now none = none
live now (some e) = elim e.expires_at [
  | none ↦ some e
  | some at ↦ if leb at now then none else some e
]

abbrev pub value_of : Option Entry → ℕ
value_of none = 0
value_of (some e) = e.value

-- `INCR` keeps the expiry of the key; only the first failure sets one
unfoldable pub count_failure : AuthConfig → ℕ → Option Entry → Entry
count_failure cfg now entry = elim (live now entry) [
  | none ↦ record { value = 1; expires_at = some (now + cfg.login_lock_seconds) }
  | some e ↦ record {
    value = suc e.value;
    expires_at = if suc e.value == 1 then some (now + cfg.login_lock_seconds) else e.expires_at;
  }
]

abbrev pub set_fail : Text → Option Entry → AuthDb → AuthDb
set_fail email entry db = record {
  users = db.users;
  fails = λ k. if k == email then entry else db.fails k;
  refreshes = db.refreshes;
}

abbrev pub set_refresh : ℕ → Option Entry → AuthDb → AuthDb
set_refresh jti entry db = record {
  users = db.users;
  fails = db.fails;
  refreshes = λ k. if k == jti then entry else db.refreshes k;
}

abbrev pub logged_in : ℕ → User → User
logged_in now u = record {
  id = u.id;
  email = u.email;
  password_hash = u.password_hash;
  role = u.role;
  is_active = u.is_active;
  last_login_at = some now;
}

abbrev pub touch_login : ℕ → ℕ → AuthDb → AuthDb
touch_login id now db = record {
  users = map (λ u. if u.id == id then logged_in now u else u) db.users;
  fails = db.fails;
  refreshes = db.refreshes;
}

abbrev pub user_by_email : Text → AuthDb → Option User
user_by_email email db = find (λ u. u.email == email) db.users

abbrev pub user_by_id : ℕ → AuthDb → Option User
user_by_id id db = find (λ u. u.id == id) db.users

-- the user whom the credentials are right for
unfoldable pub authenticate : (Text → Text → Bool) → Text → Text → AuthDb → Option User
unfolding to_lower
authenticate compare email password db = elim (user_by_email (to_lower email) db) [
  | none ↦ none
  | some user ↦ elim user.password_hash [
    | none ↦ none
    | some hash ↦ if compare password hash && user.is_active then some user else none
  ]
]

abbrev pub auth_user : User → AuthUser
auth_user user = record { id = user.id; role = user.role }

module _ {Token : Type 0} (cfg : AuthConfig) (sign : ℕ → Payload → Token) where
  -- the access token is not stored anywhere and is left out
  unfoldable pub issue : ℕ → ℕ → User → AuthDb → Result (TokenPair Token) × AuthDb
  issue now jti user db = (
    ok (record {
      refresh_token = sign now (record { sub = user.id; jti = jti });
      user = auth_user user;
    }),
    set_refresh jti (some (record { value = user.id; expires_at = some (now + cfg.refresh_ttl) }))
        db,
  )

  unfoldable pub login :
      (Text → Text → Bool) → ℕ → ℕ → Text → Text → AuthDb → Result (TokenPair Token) × AuthDb
  unfolding issue authenticate count_failure to_lower
  login compare now jti email password db =
      let key = to_lower email in
      let entry = live now (db.fails key) in
      let refused = set_fail key (some (count_failure cfg now (db.fails key))) db in
      if leb cfg.login_max_failures (value_of entry)
      then (err (app (app_error ErrorCode.auth_account_locked)), db)
      else elim (authenticate compare email password db) [
        | none ↦ (err (app (app_error ErrorCode.auth_invalid_credentials)), refused)
        | some user ↦ issue now jti user (touch_login user.id now (set_fail key none db))
      ]

  -- `verify` says whether the token's signature and expiry are right at the time, `decode` reads it
  module _ (verify : ℕ → Token → Bool) (decode : Token → Payload) where
    unfoldable pub refresh : ℕ → ℕ → Token → AuthDb → Result (TokenPair Token) × AuthDb
    unfolding issue
    refresh now jti token db =
        let payload = decode token in
        let taken = set_refresh payload.jti none db in
        if verify now token
        then elim (live now (db.refreshes payload.jti)) [
          | none ↦ (err (app (app_error ErrorCode.auth_token_expired)), taken)
          | some stored ↦
              if stored.value == payload.sub
              then elim (user_by_id payload.sub db) [
                | none ↦ (err (app (app_error ErrorCode.auth_forbidden)), taken)
                | some user ↦
                    if user.is_active
                    then issue now jti user taken
                    else (err (app (app_error ErrorCode.auth_forbidden)), taken)
              ]
              else (err (app (app_error ErrorCode.auth_token_expired)), taken)
        ]
        else (err (app (app_error ErrorCode.auth_token_expired)), db)

    unfoldable pub logout : ℕ → Option Token → AuthDb → AuthDb
    logout now none db = db
    logout now (some token) db =
        if verify now token then set_refresh (decode token).jti none db else db

unfoldable pub me : ℕ → AuthDb → Result AuthUser
me id db = elim (user_by_id id db) [
  | none ↦ err (app (app_error ErrorCode.auth_forbidden))
  | some user ↦ ok (auth_user user)
]

-- `RolesGuard.canActivate`, with the handler's decorators
unfoldable pub can_activate : Bool → Option AuthUser → Bool → Option UserRole → Result Bool
unfolding can_review has_min_role
can_activate true user review_only required = ok true
can_activate false none review_only required = err (app (app_error ErrorCode.auth_token_expired))
can_activate false (some user) review_only required =
    if review_only && not (can_review user.role)
    then err (app (app_error ErrorCode.auth_forbidden))
    else elim required [
      | none ↦ ok true
      | some least ↦
          if has_min_role user.role least
          then ok true
          else err (app (app_error ErrorCode.auth_forbidden))
    ]
