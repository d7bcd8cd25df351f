-- ===== src/ProxyAuth.antt =====
-- dashboard/app/services/proxy_auth.py: the one-time grants and the short sessions by which a user
-- of the dashboard reaches the web interface of a firewall.
-- The keyed hash of a token (`hash_session_token`) is the argument `hash`. The random tokens, the
-- identifiers of new rows and the clock are arguments.
pub mod Checks
pub mod Laws
pub mod Spent
pub mod Replay
use opnsense_hub.Base.{
  ℕ, ◌+◌, String, Bool, true, false, ◌&&◌, ◌||◌, not, Option, none, some, List, [], ◌∷◌, ◌++◌, map,
  Result, ok, err, http_exception, ◌==◌, nat_eq, string_eq, text_eq, find, select, is_some, leb,
  ltb, lower, codes, if◌then◌else◌,
}
use opnsense_hub.Base.Actions.{Action, pure, raise, gets, modify, lift, ◌>>=◌, ◌>>◌}
use opnsense_hub.Models.{User, Device, SessionToken, DeviceProxySession, Db, seconds, minutes}
use opnsense_hub.Access.{has_company_access, viewer}

abbrev pub proxy_grant_phase : String
proxy_grant_phase = "grant"

abbrev pub proxy_session_phase : String
proxy_session_phase = "session"

abbrev pub connector_session_phase : String
connector_session_phase = "connector"

pub record Settings : Type 0 where
  pub proxy_grant_ttl_seconds : ℕ
  pub proxy_session_ttl_minutes : ℕ
  pub connector_session_ttl_minutes : ℕ

-- `db.get(User, …)` and its like: the row with a primary key.
unfoldable pub get_user : Db → ℕ → Option User
get_user db user_id = find (λ u. u.id == user_id) db.users

unfoldable pub get_device : Db → ℕ → Option Device
get_device db device_id = find (λ d. d.id == device_id) db.devices

unfoldable pub get_session_token : Db → ℕ → Option SessionToken
get_session_token db session_id = find (λ s. s.id == session_id) db.session_tokens

abbrev pub is_live : ℕ → DeviceProxySession → Bool
is_live now r = ltb now r.expires_at

unfoldable pub delete_expired_proxy_sessions : ℕ → Db → Db
delete_expired_proxy_sessions now db = record db {
  proxy_sessions = select (is_live now) db.proxy_sessions;
}

-- The refusals of `_require_proxy_access`, on the rows that were found.
unfoldable pub proxy_access : Db → Option User → Option Device → Result (User × Device)
proxy_access db none device = err (http_exception 401 "invalid proxy authorization")
proxy_access db (some user) none = err (http_exception 401 "invalid proxy authorization")
proxy_access db (some user) (some device) =
    if is_some device.revoked_at
      || lower device.status == codes "revoked"
      || not (has_company_access db user device.company_id viewer)
    then err (http_exception 401 "invalid proxy authorization")
    else ok (user, device)

unfoldable pub require_proxy_access : Db → ℕ → ℕ → Result (User × Device)
require_proxy_access db user_id device_id =
    proxy_access db (get_user db user_id) (get_device db device_id)

-- The refusals of `_require_active_dashboard_session`, on the row that was found.
unfoldable pub active_session : Option SessionToken → ℕ → ℕ → Result SessionToken
active_session none user_id now = err (http_exception 401 "dashboard session is no longer active")
active_session (some s) user_id now =
    if not (s.user_id == user_id) || is_some s.revoked_at || leb s.expires_at now
    then err (http_exception 401 "dashboard session is no longer active")
    else ok s

unfoldable pub require_active_dashboard_session : Db → Option ℕ → ℕ → ℕ → Result SessionToken
require_active_dashboard_session db none user_id now = active_session none user_id now
require_active_dashboard_session db (some session_id) user_id now =
    active_session (get_session_token db session_id) user_id now

abbrev pub add_session : DeviceProxySession → Db → Db
add_session r db = record db { proxy_sessions = db.proxy_sessions ++ (r ∷ []) }

-- The refusals of `exchange_proxy_grant`, on the row that was found.
unfoldable pub usable_grant : ℕ → Option DeviceProxySession → Result DeviceProxySession
usable_grant now none = err (http_exception 401 "invalid or expired proxy grant")
usable_grant now (some grant) =
    if not (grant.phase == proxy_grant_phase)
      || is_some grant.consumed_at
      || leb grant.expires_at now
    then err (http_exception 401 "invalid or expired proxy grant")
    else ok grant

-- `grant.consumed_at = now`
abbrev pub consume : (now grant_id : ℕ) → DeviceProxySession → DeviceProxySession
consume now grant_id r = if r.id == grant_id then record r { consumed_at = some now } else r

abbrev pub has_hash : String → DeviceProxySession → Bool
has_hash h r = r.token_hash == h

-- The refusals of `_validate_connector_session_record` before the other tables are read.
unfoldable pub usable_connector : ℕ → ℕ → Option DeviceProxySession → Result DeviceProxySession
usable_connector device_id now none =
    err (http_exception 401 "invalid or expired connector session")
usable_connector device_id now (some r) =
    if not (r.phase == connector_session_phase)
      || not (r.device_id == device_id)
      || is_some r.consumed_at
      || leb r.expires_at now
    then err (http_exception 401 "invalid or expired connector session")
    else ok r

-- The filter of the query in the two functions below.
abbrev pub is_session_of : String → String → ℕ → DeviceProxySession → Bool
is_session_of h phase device_id r =
    r.token_hash == h && r.phase == phase && r.device_id == device_id

-- The refusals of `validate_proxy_session`, on the row that was found.
unfoldable pub usable_session : ℕ → Option DeviceProxySession → Result DeviceProxySession
usable_session now none = err (http_exception 401 "invalid or expired proxy session")
usable_session now (some r) =
    if is_some r.consumed_at || leb r.expires_at now
    then err (http_exception 401 "invalid or expired proxy session")
    else ok r

unfoldable pub validate_connector_session_record :
    Option DeviceProxySession → ℕ → ℕ → Action Db (DeviceProxySession × User × Device)
validate_connector_session_record found device_id now = do
  r ← lift (usable_connector device_id now found)
  db ← gets (λ db. db)
  lift (require_active_dashboard_session db r.dashboard_session_id r.user_id now)
  (user, device) ← lift (require_proxy_access db r.user_id r.device_id)
  pure (r, user, device)

module _ (settings : Settings) (hash : String → String) where
  abbrev pub new_grant : (now id : ℕ) (token : String) (user_id device_id : ℕ) → DeviceProxySession
  new_grant now id token user_id device_id = record {
    id = id;
    user_id = user_id;
    device_id = device_id;
    dashboard_session_id = none;
    token_hash = hash token;
    phase = proxy_grant_phase;
    created_at = now;
    expires_at = now + seconds settings.proxy_grant_ttl_seconds;
    consumed_at = none;
  }

  unfoldable pub create_proxy_grant :
      (now id : ℕ) (token : String) → User → Device → Action Db String
  create_proxy_grant now id token user device = do
    modify (delete_expired_proxy_sessions now)
    db ← gets (λ db. db)
    lift (require_proxy_access db user.id device.id)
    modify (add_session (new_grant now id token user.id device.id))
    pure token

  abbrev pub new_connector :
      (now id : ℕ) (token : String) (user_id device_id dashboard_session_id : ℕ)
      → DeviceProxySession
  new_connector now id token user_id device_id dashboard_session_id = record {
    id = id;
    user_id = user_id;
    device_id = device_id;
    dashboard_session_id = some dashboard_session_id;
    token_hash = hash token;
    phase = connector_session_phase;
    created_at = now;
    expires_at = now + minutes settings.connector_session_ttl_minutes;
    consumed_at = none;
  }

  unfoldable pub create_connector_session :
      (now id : ℕ) (token : String) → User → Device → SessionToken → Action Db String
  create_connector_session now id token user device dashboard_session = do
    modify (delete_expired_proxy_sessions now)
    db ← gets (λ db. db)
    lift (require_proxy_access db user.id device.id)
    lift (require_active_dashboard_session db (some dashboard_session.id) user.id now)
    modify (add_session (new_connector now id token user.id device.id dashboard_session.id))
    pure token

  abbrev pub new_session : (now id : ℕ) (token : String) → DeviceProxySession → DeviceProxySession
  new_session now id token grant = record {
    id = id;
    user_id = grant.user_id;
    device_id = grant.device_id;
    dashboard_session_id = none;
    token_hash = hash token;
    phase = proxy_session_phase;
    created_at = now;
    expires_at = now + minutes settings.proxy_session_ttl_minutes;
    consumed_at = none;
  }

  unfoldable pub exchange_proxy_grant :
      (now id : ℕ) (session_token grant_token : String) → Action Db (String × DeviceProxySession)
  exchange_proxy_grant now id session_token grant_token = do
    modify (delete_expired_proxy_sessions now)
    db ← gets (λ db. db)
    grant ← lift (usable_grant now (find (has_hash (hash grant_token)) db.proxy_sessions))
    lift (require_proxy_access db grant.user_id grant.device_id)
    modify (λ db. record db { proxy_sessions = map (consume now grant.id) db.proxy_sessions })
    modify (add_session (new_session now id session_token grant))
    pure (session_token, new_session now id session_token grant)

  unfoldable pub validate_connector_session :
      (now : ℕ) (token : String) (device_id : ℕ) → Action Db (DeviceProxySession × User × Device)
  unfolding validate_connector_session_record
  validate_connector_session now token device_id = do
    modify (delete_expired_proxy_sessions now)
    found ← gets (λ db.
        find (is_session_of (hash token) connector_session_phase device_id) db.proxy_sessions)
    validate_connector_session_record found device_id now

  unfoldable pub validate_connector_session_id :
      (now session_id device_id : ℕ) → Action Db (DeviceProxySession × User × Device)
  unfolding validate_connector_session_record
  validate_connector_session_id now session_id device_id = do
    found ← gets (λ db. find (λ (r : DeviceProxySession). r.id == session_id) db.proxy_sessions)
    validate_connector_session_record found device_id now

  unfoldable pub validate_proxy_session :
      (now : ℕ) (token : String) (device_id : ℕ) → Action Db (DeviceProxySession × User × Device)
  validate_proxy_session now token device_id = do
    modify (delete_expired_proxy_sessions now)
    db ← gets (λ db. db)
    r ← lift (
        usable_session now
          (find (is_session_of (hash token) proxy_session_phase device_id) db.proxy_sessions))
    (user, device) ← lift (require_proxy_access db r.user_id r.device_id)
    pure (r, user, device)
