-- ===== src/Tests.antt =====
-- Concrete rows and settings on which the theorems are applied.
pub mod Proxy
pub mod Login
pub mod Limits
pub mod Overlay
pub mod Jobs
pub mod Start
pub mod Relay
pub mod Joining
pub mod Uploading
pub mod Signin
pub mod Hosts
use opnsense_hub.Base.{
  ℕ, text_eq, text_beq_iff, ◌≡◌, ◌≢◌, ◌==◌, string_eq, eq_iff, arith, String, Bool, true, false,
  Option, none, some, List, [], ◌∷◌, Text, codes,
}
use opnsense_hub.Models.{
  User, CompanyUser, Device, Db, SessionToken, DeviceProxySession, PendingMfaLogin, days, hours,
}

-- The identity in place of a keyed hash, whose values it has to tell apart.
abbrev pub plain : String → String
plain s = s

abbrev pub alice : User
alice = record {
  id = 1;
  email = codes "alice@example.org";
  password_hash = "password";
  first_name = none;
  last_name = none;
  role = "user";
  auth_provider = none;
  mfa_enabled = true;
  mfa_secret = some "SECRET";
}

abbrev pub firewall : Device
firewall = record {
  id = 5;
  company_id = 7;
  hostname = codes "fw";
  wg_public_key = codes "key";
  wg_tunnel_ip = codes "18";
  license_type = none;
  license_expires_at = none;
  status = codes "online";
  device_token_hash = "device-token";
  device_token_issued_at = 0;
  device_token_expires_at = some (days 90);
  revoked_at = none;
  firmware_checked_at = none;
  firmware_check_requested_at = none;
  firmware_check_request_reason = none;
  backup_enabled = true;
  backup_retention_count = 3;
  backup_interval_unit = codes "days";
  backup_interval_value = 1;
  backup_last_requested_at = none;
  backup_last_uploaded_at = none;
}

abbrev pub revoked_firewall : Device
revoked_firewall = record firewall { revoked_at = some 3 }

abbrev pub dashboard_session : SessionToken
dashboard_session = record {
  id = 20;
  user_id = 1;
  token_hash = "cookie";
  created_at = 0;
  expires_at = hours 12;
  revoked_at = none;
}

abbrev pub proxy_row : (id : ℕ) (hash phase : String) → Option ℕ → DeviceProxySession
proxy_row id hash phase session = record {
  id = id;
  user_id = 1;
  device_id = 5;
  dashboard_session_id = session;
  token_hash = hash;
  phase = phase;
  created_at = 0;
  expires_at = 1000;
  consumed_at = none;
}

abbrev pub pending_login : PendingMfaLogin
pending_login = record {
  id = 40;
  user_id = 1;
  nonce_hash = "nonce";
  failed_attempts = 3;
  expires_at = 1000;
  consumed_at = none;
}

abbrev pub db : Db
db = record {
  users = alice ∷ [];
  company_users = record { company_id = 7; user_id = 1; role = "viewer" } ∷ [];
  devices = firewall ∷ [];
  session_tokens = dashboard_session ∷ [];
  pending_mfa_logins = pending_login ∷ [];
  proxy_sessions =
      proxy_row 30 "grant" "grant" none
      ∷ proxy_row 31 "session" "session" none
      ∷ proxy_row 32 "connector" "connector" (some 20)
      ∷ [];
  audit_logs = [];
  enrollment_codes = [];
  device_events = [];
  device_backups = [];
}

abbrev pub revoked_db : Db
revoked_db = record db { devices = revoked_firewall ∷ [] }

-- Texts that the test tells apart.
pub apart : (a b : String) → a == b ≡ false → a ≢ b
apart a b h = ground (arith, eq_iff a b)

pub apart_text : (a b : Text) → a == b ≡ false → a ≢ b
apart_text a b h = ground (arith, text_beq_iff a b)
