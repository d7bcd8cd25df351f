-- ===== src/Sessions.antt =====
-- dashboard/app/services/auth_service.py, dashboard/app/services/device_tokens.py and the dependencies
-- `current_user` and `device_from_token` of dashboard/app/deps.py: who a cookie or a device token is.
-- The keyed hash of a session token is the argument `hash`, the check of a hashed secret
-- (`verify_secret`, PBKDF2) is the argument `verify`. Cookies and headers of a request are arguments.
pub mod Authentic
use opnsense_hub.Base.{
  ℕ, ◌+◌, String, Bool, true, false, ◌||◌, not, Option, none, some, List, [], ◌∷◌, ◌++◌, map,
  Result, ok, err, http_exception, runtime_error, Text, codes, ◌==◌, nat_eq, string_eq, text_eq,
  find, select, is_some, leb, strip, lower, starts_with, ◌>>=◌, if◌then◌else◌,
}
use opnsense_hub.Models.{User, SessionToken, Device, Db, hours, days}
use opnsense_hub.ProxyAuth.{get_user, get_device}

-- `create_user_session`, on the values of the new row
unfoldable pub create_user_session :
    (hash : String → String) (session_ttl_hours now id : ℕ) (token : String) → User → Db → Db
create_user_session hash session_ttl_hours now id token user db = record db {
  session_tokens =
      db.session_tokens
      ++ (record {
        id = id;
        user_id = user.id;
        token_hash = hash token;
        created_at = now;
        expires_at = now + hours session_ttl_hours;
        revoked_at = none;
      }
          ∷ []);
}

abbrev pub has_token : String → SessionToken → Bool
has_token h s = s.token_hash == h

-- The refusals of `session_from_request`, on the row that was found.
unfoldable pub usable_token : ℕ → Option SessionToken → Result SessionToken
usable_token now none = err (http_exception 401 "Unauthorized")
usable_token now (some s) =
    if is_some s.revoked_at || leb s.expires_at now
    then err (http_exception 401 "Unauthorized")
    else ok s

unfoldable pub session_from_request :
    (hash : String → String) (now : ℕ) → Option String → Db → Result SessionToken
session_from_request hash now none db = err (http_exception 401 "Unauthorized")
session_from_request hash now (some token) db =
    if token == ""
    then err (http_exception 401 "Unauthorized")
    else usable_token now (find (has_token (hash token)) db.session_tokens)

abbrev pub user_or_raise : Option User → Result User
user_or_raise none = err (http_exception 401 "Unauthorized")
user_or_raise (some user) = ok user

unfoldable pub current_user : (hash : String → String) (now : ℕ) → Option String → Db → Result User
current_user hash now cookie db =
    session_from_request hash now cookie db >>= λ s. user_or_raise (get_user db s.user_id)

abbrev pub revoke : (now session_id : ℕ) → SessionToken → SessionToken
revoke now session_id s = if s.id == session_id then record s { revoked_at = some now } else s

unfoldable pub revoke_session_token : (now : ℕ) → SessionToken → Db → Db
revoke_session_token now session db = record db {
  session_tokens = map (revoke now session.id) db.session_tokens;
}

abbrev pub is_other_user : ℕ → SessionToken → Bool
is_other_user user_id s = not (s.user_id == user_id)

unfoldable pub revoke_all_user_sessions : (user_id : ℕ) → Db → Db
revoke_all_user_sessions user_id db = record db {
  session_tokens = select (is_other_user user_id) db.session_tokens;
}

unfoldable pub device_token_is_expired : (now : ℕ) → Device → Bool
device_token_is_expired now device = elim device.device_token_expires_at [
  | none ↦ true
  | some expires_at ↦ leb expires_at now
]

unfoldable pub device_token_rotation_due : (rotation_window_days now : ℕ) → Device → Bool
device_token_rotation_due rotation_window_days now device = elim device.device_token_expires_at [
  | none ↦ true
  | some expires_at ↦ leb expires_at (now + days rotation_window_days)
]

-- `hash_secret` of the new token is the argument `encoded`.
unfoldable pub issue_device_token : (ttl_days now : ℕ) (encoded : String) → Device → Device
issue_device_token ttl_days now encoded device = record device {
  device_token_hash = encoded;
  device_token_issued_at = now;
  device_token_expires_at = some (now + days ttl_days);
}

abbrev pub drop : ℕ → Text → Text
drop ℕ.zero t = t
drop (ℕ.suc n) [] = []
drop (ℕ.suc n) (c ∷ t) = drop n t

-- The checks of `device_from_token`, on the row that was found.
unfoldable pub checked_device :
    (verify : Text → String → Bool) (now : ℕ) (token : Text) → Option Device → Result Device
checked_device verify now token none = err (http_exception 401 "Unauthorized")
checked_device verify now token (some device) =
    if is_some device.revoked_at
    then err (http_exception 410 "device revoked")
    else if not (verify token device.device_token_hash)
    then err (http_exception 401 "Unauthorized")
    else if device_token_is_expired now device
    then err (http_exception 401 "device token expired")
    else ok device

unfoldable pub device_from_token :
    (verify : Text → String → Bool) (now device_id : ℕ) → Option Text → Db → Result Device
device_from_token verify now device_id none db = err (http_exception 401 "Unauthorized")
device_from_token verify now device_id (some authorization) db =
    if not (starts_with authorization (codes "Bearer "))
    then err (http_exception 401 "Unauthorized")
    else checked_device verify now (strip (drop 7 authorization)) (get_device db device_id)
