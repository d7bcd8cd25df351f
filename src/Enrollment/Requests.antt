-- ===== src/Enrollment/Requests.antt =====
-- dashboard/app/routers/enrollment.py: the request, its texts, its session, and the row of its firewall with
-- the license of the payload (dashboard/app/services/firmware_scheduler.py).
use opnsense_hub.Base.{
  ℕ, Bool, false, Option, none, some, [], String, Result, Text, codes, ◌==◌, nat_eq, text_eq, take,
  strip, lower, upper, if◌then◌else◌,
}
use opnsense_hub.Models.{Device, Db}
use opnsense_hub.Payload.{Json, null, string, Members, get, text_of}
use opnsense_hub.Sessions.{issue_device_token}
use opnsense_hub.Notifications.{clean_optional}
use opnsense_hub.WireGuard.{
  IpParsers, ValidatedWireGuardConfig, PeerAction, validate_public_key, next_tunnel_ip, add_peer,
}
use opnsense_hub.WireGuard

pub record Platform : Type 0 where
  pub verify_secret : Text → String → Bool
  pub str : Json → Text
  -- `datetime.fromisoformat` of a text in which "Z" is written out, in UTC where it names no zone
  pub fromisoformat : Text → Option ℕ
  pub ips : IpParsers
  pub str_ip : ℕ → Text
  pub validated : ValidatedWireGuardConfig
  -- `get_server_public_key` and `client_allowed_ips`
  pub server : Result (Text × Text)
  -- the request of the agent, or the command
  pub run_peer : PeerAction → Result (Unit {0})

pub record Settings : Type 0 where
  pub rate_limit_enrollment_attempts : ℕ
  pub rate_limit_enrollment_window_seconds : ℕ
  pub audit_device_view_throttle_minutes : ℕ
  pub device_token_ttl_days : ℕ
  pub wireguard : WireGuard.Settings

-- A request: its body, its client, the time, and the new identifier and token of this run.
pub record Request : Type 0 where
  pub payload : Members
  pub client_ip : Text
  pub now : ℕ
  pub device_id : ℕ
  pub token_hash : String

pub record Session : Type 0 where
  pub committed : Db
  pub working : Db

abbrev pub commit : Session → Session
commit s = record s { committed = s.working }

abbrev pub rollback : Session → Session
rollback s = record s { working = s.committed }

abbrev pub change : (Db → Db) → Session → Session
change f s = record s { working = f s.working }

abbrev pub field : Platform → Request → Text → Text
field p r key = strip (text_of p.str (get (string []) key r.payload))

unfoldable pub otp_of : Platform → Request → Text
otp_of p r = upper (field p r (codes "otp"))

unfoldable pub key_of : Platform → Request → Text
key_of p r = field p r (codes "wg_public_key")

unfoldable pub hostname_of : Platform → Request → Text
hostname_of p r = take 255 (field p r (codes "hostname"))

unfoldable pub parse_license_expires_at : Platform → Json → Option ℕ
parse_license_expires_at p null = none
parse_license_expires_at p v =
    let value = strip (text_of p.str v) in if value == [] then none else p.fromisoformat value

abbrev optional_text : Platform → Json → Option Text
optional_text p null = none
optional_text p v = some (text_of p.str v)

unfoldable pub normalize_device_license_payload : Platform → Members → Option Text × Option ℕ
unfolding parse_license_expires_at
normalize_device_license_payload p payload =
    let raw = clean_optional (optional_text p (get null (codes "license_type") payload)) in
    elim raw [
      | none ↦ (none, none)
      | some license ↦
          if lower license == codes "community"
          then (some (codes "community"), none)
          else if lower license == codes "business"
          then (
            some (codes "business"),
            parse_license_expires_at p (get null (codes "license_expires_at") payload),
          )
          else (none, none)
    ]

unfoldable pub apply_device_license_payload : Platform → Members → Device → Device
unfolding normalize_device_license_payload
apply_device_license_payload p payload device =
    let (license_type, license_expires_at) = normalize_device_license_payload p payload in
    elim license_type [
      | none ↦ device
      | some t ↦ record device { license_type = some t; license_expires_at = license_expires_at }
    ]

-- The row of the firewall, with the defaults of its table, its token and its license.
unfoldable pub new_device :
    Platform → Settings → Request → (company_id : ℕ) (tunnel_ip : Text) → Device
unfolding apply_device_license_payload issue_device_token
new_device p s r company_id tunnel_ip = apply_device_license_payload p r.payload (
    issue_device_token s.device_token_ttl_days r.now r.token_hash (record {
      id = r.device_id;
      company_id = company_id;
      hostname = hostname_of p r;
      wg_public_key = key_of p r;
      wg_tunnel_ip = tunnel_ip;
      license_type = none;
      license_expires_at = none;
      status = codes "online";
      device_token_hash = "pending";
      device_token_issued_at = r.now;
      device_token_expires_at = none;
      revoked_at = none;
      firmware_checked_at = none;
      firmware_check_requested_at = none;
      firmware_check_request_reason = none;
      backup_enabled = false;
      backup_retention_count = 3;
      backup_interval_unit = codes "hours";
      backup_interval_value = 24;
      backup_last_requested_at = none;
      backup_last_uploaded_at = none;
    }))
