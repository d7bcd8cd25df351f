-- ===== src/Mfa.antt =====
-- dashboard/app/services/mfa_service.py and the handler `complete_mfa_login` of
-- dashboard/app/routers/auth.py: the second step of a login with an authenticator code.
-- Parameters: the decoding of the signed cookie (PyJWT), `UUID`, the keyed hash of a nonce, and the
-- check of a code against the stored secret. The row lock of the source makes a call a single step.
-- The mails of the notification service and the rendered pages are not modelled: an outcome stands for
-- a page.
pub mod Rows
pub mod Attempts
use opnsense_hub.Base.{
  ℕ, suc, ◌+◌, String, Bool, true, false, ◌||◌, not, Option, none, some, List, [], ◌∷◌, map, Result,
  ok, err, http_exception, Text, codes, ◌==◌, nat_eq, string_eq, text_eq, find, is_some, leb, strip,
  ◌>>=◌, if◌then◌else◌,
}
use opnsense_hub.Models.{User, PendingMfaLogin, Db, minutes}
use opnsense_hub.ProxyAuth.{get_user}
use opnsense_hub.Sessions.{create_user_session}
use opnsense_hub.Audit.{write_audit}
use opnsense_hub.RateLimit.{MemoryRateLimitBackend, hit}

-- The claims of a decoded cookie.
pub record Claims : Type 0 where
  pub purpose : Option String
  pub sub : Option Text
  pub nonce : Option String

-- `jwt_decode` gives `none` where PyJWT raises, `uuid` where `UUID` raises. `accepts user code now` is
-- `verify_totp_code` of the decrypted secret, false without a secret.
pub record Platform : Type 0 where
  pub jwt_decode : String → Option Claims
  pub uuid : Text → Option ℕ
  pub hash : String → String
  pub accepts : User → Text → ℕ → Bool

pub record Settings : Type 0 where
  pub otp_ttl_minutes : ℕ
  pub session_ttl_hours : ℕ
  pub rate_limit_mfa_attempts : ℕ
  pub rate_limit_mfa_window_seconds : ℕ
  pub audit_device_view_throttle_minutes : ℕ

-- `user.auth_provider` is None, empty or white space.
unfoldable pub local_user_supports_hub_mfa : User → Bool
local_user_supports_hub_mfa user = elim user.auth_provider [
  | none ↦ true
  | some provider ↦ strip provider == []
]

-- What `pending_mfa_state_from_request` reads from the cookie: the user and the nonce.
abbrev pub named : Option ℕ → String → Result (ℕ × String)
named none _ = err (http_exception 401 "invalid MFA sign-in state")
named (some user_id) nonce = ok (user_id, nonce)

abbrev pub subject : (Text → Option ℕ) → Option Text → Option String → Result (ℕ × String)
subject uuid none _ = err (http_exception 401 "invalid MFA sign-in state")
subject uuid (some sub) none = err (http_exception 401 "invalid MFA sign-in state")
subject uuid (some sub) (some nonce) =
    if sub == [] || nonce == ""
    then err (http_exception 401 "invalid MFA sign-in state")
    else named (uuid sub) nonce

abbrev pub decoded : (Text → Option ℕ) → Option Claims → Result (ℕ × String)
decoded uuid none = err (http_exception 401 "invalid MFA sign-in state")
decoded uuid (some claims) = elim claims.purpose [
  | none ↦ err (http_exception 401 "invalid MFA sign-in state")
  | some purpose ↦
      if purpose == "login-mfa"
      then subject uuid claims.sub claims.nonce
      else err (http_exception 401 "invalid MFA sign-in state")
]

unfoldable pub read_cookie : Platform → Option String → Result (ℕ × String)
read_cookie p none = err (http_exception 401 "missing MFA sign-in state")
read_cookie p (some token) =
    if token == ""
    then err (http_exception 401 "missing MFA sign-in state")
    else decoded p.uuid (p.jwt_decode token)

abbrev pub has_nonce : String → PendingMfaLogin → Bool
has_nonce h l = l.nonce_hash == h

abbrev pub change_row : (PendingMfaLogin → PendingMfaLogin) → ℕ → PendingMfaLogin → PendingMfaLogin
change_row f id l = if l.id == id then f l else l

abbrev pub change_login : (PendingMfaLogin → PendingMfaLogin) → ℕ → Db → Db
change_login f id db = record db {
  pending_mfa_logins = map (change_row f id) db.pending_mfa_logins;
}

abbrev pub consumed : (now : ℕ) → PendingMfaLogin → PendingMfaLogin
consumed now l = record l { consumed_at = some now }

abbrev pub failed : PendingMfaLogin → PendingMfaLogin
failed l = record l { failed_attempts = l.failed_attempts + 1 }

-- `login.consumed_at = utc_now()`
unfoldable pub consume_pending_mfa_login : (now : ℕ) → PendingMfaLogin → Db → Db
consume_pending_mfa_login now login = change_login (consumed now) login.id

-- `login.failed_attempts += 1`
unfoldable pub record_pending_mfa_failure : PendingMfaLogin → Db → Db
record_pending_mfa_failure login = change_login failed login.id

-- The refusals on the row that was found.
unfoldable pub usable_login : (user_id : ℕ) → Option PendingMfaLogin → Result PendingMfaLogin
usable_login user_id none = err (http_exception 401 "invalid MFA sign-in state")
usable_login user_id (some login) =
    if not (login.user_id == user_id) || is_some login.consumed_at
    then err (http_exception 401 "invalid MFA sign-in state")
    else ok login

unfoldable pub find_login : Platform → Option String → List PendingMfaLogin → Result PendingMfaLogin
find_login p cookie logins = read_cookie p cookie >>= λ (user_id, nonce).
    usable_login user_id (find (has_nonce (p.hash nonce)) logins)

-- A login that has expired is consumed by the request that finds it.
unfoldable pub pending_mfa_state_from_request :
    Platform → (now : ℕ) → Option String → Db → Result PendingMfaLogin × Db
pending_mfa_state_from_request p now cookie db = elim (find_login p cookie db.pending_mfa_logins) [
  | err e ↦ (err e, db)
  | ok login ↦
      if leb login.expires_at now
      then (
        err (http_exception 401 "invalid MFA sign-in state"),
        consume_pending_mfa_login now login db,
      )
      else (ok login, db)
]

-- The pages that the handler answers with, and the exception of the rate limit.
pub data Outcome : Type 0 where
  invalid_state : Outcome
  locked : Outcome
  rate_limited : Outcome
  invalid_code : Outcome
  signed_in : (user_id : ℕ) → Outcome

pub record Hub : Type 0 where
  pub db : Db
  pub limits : MemoryRateLimitBackend

abbrev pub audited : Settings → (now : ℕ) → String → User → Db → Db
audited s now action user db =
    (write_audit s.audit_device_view_throttle_minutes now action (some user.id) none db).1

-- A wrong code: the attempt is counted, and at the limit the pending login is consumed.
unfoldable pub wrong_code : Settings → (now : ℕ) → User → PendingMfaLogin → Db → Outcome × Db
wrong_code s now user login db =
    let counted = record_pending_mfa_failure login db in
    if leb s.rate_limit_mfa_attempts (login.failed_attempts + 1)
    then (
      locked,
      audited s now "auth.mfa.locked" user (consume_pending_mfa_login now login counted),
    )
    else (invalid_code, audited s now "auth.mfa.failed" user counted)

-- The rest of the handler, once the rate limit has let the request through.
unfoldable pub check_code :
    Platform
    → Settings
    → (now session_id : ℕ) (session_token : String) → User
    → PendingMfaLogin
    → (code : Text) → Db
    → Outcome × Db
check_code p s now session_id session_token user login code db =
    if not (p.accepts user code now) then wrong_code s now user login db else (
      signed_in user.id,
      audited s now "auth.login" user (
          create_user_session p.hash s.session_ttl_hours now session_id session_token user
            (consume_pending_mfa_login now login db)),
    )

-- The handler from the pending login and its user on. `key` is the key of the rate limit: the address
-- of the client and the identifier of the user.
unfoldable pub attempt :
    Platform
    → Settings
    → (now session_id : ℕ) (session_token : String) (key : Text) → User
    → PendingMfaLogin
    → (code : Text) → Hub
    → Outcome × Hub
attempt p s now session_id session_token key user login code hub =
    if leb s.rate_limit_mfa_attempts login.failed_attempts
    then (
      locked,
      record hub {
        db = audited s now "auth.mfa.locked" user (consume_pending_mfa_login now login hub.db);
      },
    )
    else let (allowed, limits) =
        hit now (codes "mfa-login") key s.rate_limit_mfa_attempts s.rate_limit_mfa_window_seconds
          hub.limits in
      elim allowed [
        | err e ↦ (
          rate_limited,
          record { db = audited s now "auth.mfa.rate_limited" user hub.db; limits = limits },
        )
        | ok u ↦
            let (outcome, db) =
              check_code p s now session_id session_token user login code hub.db in
            (outcome, record { db = db; limits = limits })
      ]

-- `not user or not local_user_supports_hub_mfa(user) or not user.mfa_enabled`
abbrev pub mfa_user : Option User → Option User
mfa_user none = none
mfa_user (some user) =
    if not (local_user_supports_hub_mfa user) || not user.mfa_enabled then none else some user

unfoldable pub complete_mfa_login :
    Platform
    → Settings
    → (now session_id : ℕ) (session_token : String) (key : Text)
    → (cookie : Option String) (code : Text) → Hub
    → Outcome × Hub
complete_mfa_login p s now session_id session_token key cookie code hub =
    let (state, db) = pending_mfa_state_from_request p now cookie hub.db in
    let hub' = record hub { db = db } in
    elim state [
      | err e ↦ (invalid_state, hub')
      | ok login ↦ elim (mfa_user (get_user db login.user_id)) [
        | none ↦ (invalid_state, hub')
        | some user ↦ attempt p s now session_id session_token key user login code hub'
      ]
    ]

-- `set_pending_mfa_cookie`, on the values of the new row.
abbrev pub new_login : Platform → Settings → (now id : ℕ) (nonce : String) → User → PendingMfaLogin
new_login p s now id nonce user = record {
  id = id;
  user_id = user.id;
  nonce_hash = p.hash nonce;
  failed_attempts = 0;
  expires_at = now + minutes s.otp_ttl_minutes;
  consumed_at = none;
}
