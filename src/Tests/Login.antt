-- ===== src/Tests/Login.antt =====
-- Logins, sessions and device tokens, on concrete rows.
use opnsense_hub.Base.{
  ℕ, ◌+◌, ◌-◌, ◌<◌, ◌≡◌, ◌≢◌, refl, String, Bool, true, false, ◌&&◌, if◌then◌else◌, leb, ◌%◌, ltb,
  Option, none, some, List, [], ◌∷◌, Result, ok, err, http_exception, arith, Text, codes, ◌==◌,
  text_eq, string_eq, starts_with, strip,
}
use opnsense_hub.Models.{User, PendingMfaLogin, Db, hours}
use opnsense_hub.ProxyAuth.{get_user, get_device}
use opnsense_hub.RateLimit.{new_backend}
use opnsense_hub.Sessions.{
  create_user_session, session_from_request, current_user, revoke_session_token,
  revoke_all_user_sessions, device_from_token, device_token_is_expired, device_token_rotation_due,
  issue_device_token, drop,
}
use opnsense_hub.Sessions.Authentic.{
  session_lifetime, revoke_session_token_final, device_from_token-IsAuthentic,
}
use opnsense_hub.Totp.{Platform as TotpPlatform, verify_totp_code, totp_code_for_counter}
use opnsense_hub.Totp.Codes.{verify_totp_code-totp_code}
use opnsense_hub.Mfa.{
  Platform, Settings, Hub, signed_in, invalid_state, find_login, local_user_supports_hub_mfa,
}
use opnsense_hub.Mfa.Attempts.{Request, complete, complete_mfa_login-signed_in}
use opnsense_hub.Tests.{apart, plain, alice, firewall, dashboard_session, db}

abbrev bob : User
bob = record alice { id = 2 }

abbrev two_users : Db
two_users = record db {
  users = alice ∷ bob ∷ [];
  session_tokens =
      dashboard_session
      ∷ record dashboard_session { id = 21; user_id = 2; token_hash = "bob" }
      ∷ [];
}

session_lifetime_example :
    current_user plain 100 (some "new") (create_user_session plain 12 0 60 "new" alice db)
    ≡ (if ltb 100 (0 + hours 12) then ok alice else err (http_exception 401 "Unauthorized"))
unfolding opnsense_hub.Base.find get_user
session_lifetime_example =
    session_lifetime plain 12 0 60 100 "new" alice db (apart "new" "" refl) refl refl

revoke_session_token_final_example :
    session_from_request plain 200 (some "cookie") (revoke_session_token 150 dashboard_session db)
    ≡ err (http_exception 401 "Unauthorized")
unfolding session_from_request opnsense_hub.Sessions.usable_token opnsense_hub.Base.find
revoke_session_token_final_example =
    revoke_session_token_final plain 100 150 200 (some "cookie") db dashboard_session refl

abbrev verify : Text → String → Bool
verify token encoded = token == codes "secret" && encoded == "device-token"

device_from_token-IsAuthentic_example :
    (header : Text) × (some (codes "Bearer secret") ≡ some header)
    × (starts_with header (codes "Bearer ") ≡ true)
    × (get_device db 5 ≡ some firewall)
    × (firewall.revoked_at ≡ none)
    × (verify (strip (drop 7 header)) firewall.device_token_hash ≡ true)
    × (device_token_is_expired 100 firewall ≡ false)
unfolding device_from_token starts_with opnsense_hub.Sessions.checked_device get_device
    opnsense_hub.Base.find opnsense_hub.Base.text_beq strip device_token_is_expired
device_from_token-IsAuthentic_example =
    device_from_token-IsAuthentic verify 100 5 (some (codes "Bearer secret")) db firewall refl

-- A cookie reads as the pending login of Alice, and her authenticator shows "123456".
abbrev platform : Platform
platform = record {
  jwt_decode = λ token.
      some (record { purpose = some "login-mfa"; sub = some (codes "1"); nonce = some token });
  uuid = λ t. if t == codes "1" then some 1 else none;
  hash = plain;
  accepts = λ user code now. code == codes "123456";
}

abbrev mfa_settings : Settings
mfa_settings = record {
  otp_ttl_minutes = 10;
  session_ttl_hours = 12;
  rate_limit_mfa_attempts = 5;
  rate_limit_mfa_window_seconds = 300;
  audit_device_view_throttle_minutes = 15;
}

abbrev request : (now : ℕ) (code : Text) → Request platform (some "nonce") mfa_settings
request now code = record {
  now = now;
  id = 61;
  token = "new";
  key = codes "192.0.2.1:1";
  code = code;
}

abbrev hub : Hub
hub = record { db = db; limits = new_backend none 100 }

complete_mfa_login-signed_in_example :
    ((login : PendingMfaLogin) × (user : User) × (find_login platform
          (some "nonce")
          hub.db.pending_mfa_logins
        ≡ ok login)
      × (10 < login.expires_at)
      × (login.failed_attempts < 5)
      × (get_user hub.db login.user_id ≡ some user)
      × (local_user_supports_hub_mfa user ≡ true)
      × (user.mfa_enabled ≡ true)
      × (1 ≡ user.id)
      × (platform.accepts user (codes "123456") 10 ≡ true))
    × ((complete platform
          (some "nonce")
          mfa_settings
          (request 11 (codes "123456"))
          (complete platform (some "nonce") mfa_settings (request 10 (codes "123456")) hub).1).0
        ≡ invalid_state)
unfolding opnsense_hub.Mfa.complete_mfa_login opnsense_hub.Mfa.pending_mfa_state_from_request
    find_login opnsense_hub.Mfa.read_cookie opnsense_hub.Base.text_beq opnsense_hub.Mfa.usable_login
    opnsense_hub.Base.find get_user local_user_supports_hub_mfa opnsense_hub.Mfa.attempt
    opnsense_hub.RateLimit.hit opnsense_hub.RateLimit.drop_old opnsense_hub.RateLimit.claim
    opnsense_hub.RateLimit.lookup opnsense_hub.RateLimit.prune_expired_locked
    opnsense_hub.Base.select new_backend opnsense_hub.Audit.should_write_audit
    opnsense_hub.Audit.write_audit opnsense_hub.Base.Decimal.int
    opnsense_hub.Base.Decimal.print_digits opnsense_hub.Base.Decimal.read_digits
    opnsense_hub.Base.Decimal.str opnsense_hub.Base.any opnsense_hub.Base.is_space
    opnsense_hub.Base.lstrip opnsense_hub.Base.rsplit_once strip opnsense_hub.Mfa.check_code
    opnsense_hub.Mfa.consume_pending_mfa_login opnsense_hub.Mfa.record_pending_mfa_failure
    opnsense_hub.Mfa.wrong_code opnsense_hub.RateLimit.bucket_key opnsense_hub.RateLimit.evict
    opnsense_hub.RateLimit.window_of opnsense_hub.RateLimit.without create_user_session
complete_mfa_login-signed_in_example =
    complete_mfa_login-signed_in platform (some "nonce") mfa_settings (request 10 (codes "123456"))
      (request 11 (codes "123456")) hub 1 refl

-- A digest in place of HMAC-SHA1: the last byte of the counter everywhere.
abbrev totp_platform : TotpPlatform
totp_platform = record {
  b32decode = λ t. some t;
  hmac_sha1 = λ key counter i. counter % 128;
  isalnum = λ c. true;
  isdigit = λ c. leb 48 c && leb c 57;
}

digits : (d : ℕ) → d < 10 → totp_platform.isdigit (48 + d) ≡ true
digits d h = ground arith

verify_totp_code-totp_code_example :
    verify_totp_code totp_platform
      (codes "secret")
      (totp_code_for_counter totp_platform (codes "SECRET==") 4)
      95
      1
    ≡ true
unfolding opnsense_hub.Totp.totp_code opnsense_hub.Totp.totp_secret_bytes opnsense_hub.Base.text_beq
    opnsense_hub.Totp.normalize_totp_secret opnsense_hub.Base.select opnsense_hub.Base.upper
verify_totp_code-totp_code_example =
    verify_totp_code-totp_code totp_platform digits (codes "secret")
      (totp_code_for_counter totp_platform (codes "SECRET==") 4) 120 95 refl (omega arith)
      (omega arith) (omega arith)
