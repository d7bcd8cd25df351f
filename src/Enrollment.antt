-- ===== src/Enrollment.antt =====
-- dashboard/app/routers/enrollment.py, and the license of a payload in
-- dashboard/app/services/firmware_scheduler.py: a firewall joins with a one-time code. The database of a
-- request has two layers, what is committed and what its transaction sees; whatever ends a request
-- without a commit loses the second. The check of a hashed code, the keys of the Hub, the running of the
-- command that adds a peer, and the texts of addresses and times are fields of `Platform`. The versions
-- that a firewall reports are not modelled.
pub mod Requests
pub mod Codes
pub mod Rows
pub mod Cases
pub mod Refused
pub mod Once
pub mod Joined
use opnsense_hub.Base.{
  ℕ, Bool, true, false, ◌&&◌, ◌||◌, not, Option, none, some, List, [], ◌∷◌, ◌++◌, map, String,
  Result, ok, err, Exception, http_exception, wireguard_error, ◌>>=◌, Text, codes, ◌==◌, nat_eq,
  text_eq, find, select, any, length, take, is_some, leb, strip, lower, upper, if◌then◌else◌,
}
use opnsense_hub.Models.{Device, EnrollmentCode, DeviceEvent, Db}
use opnsense_hub.Payload.{Json, null, string, Members, get, text_of}
use opnsense_hub.Audit.{write_audit, same_id}
use opnsense_hub.Sessions.{issue_device_token}
use opnsense_hub.Notifications.{clean_optional}
use opnsense_hub.RateLimit.{MemoryRateLimitBackend, hit}
use opnsense_hub.WireGuard.{
  IpParsers, ValidatedWireGuardConfig, PeerAction, dry_run, delegate, wg_set_peer,
  validate_public_key, next_tunnel_ip, add_peer,
}
use opnsense_hub.WireGuard
unfoldable pub use Requests.*
unfoldable pub use Codes.*

-- What the flush refuses: the unique columns of the table.
unfoldable pub conflicts : (public_key tunnel_ip : Text) → List Device → Bool
conflicts public_key tunnel_ip =
    any (λ d. d.wg_public_key == public_key || d.wg_tunnel_ip == tunnel_ip)

-- What the firewall gets back, with the hash in place of its token.
pub record Enrolled : Type 0 where
  pub device_id : ℕ
  pub token_hash : String
  pub tunnel_ip : Text
  pub server_public_key : Text
  pub allowed_ips : Text

-- What `add_peer` ends in behind its checks. A dry run does nothing.
abbrev pub run_action : Platform → PeerAction → Result (Unit {0})
run_action p dry_run = ok tt
run_action p (delegate public_key tunnel_ip) = p.run_peer (delegate public_key tunnel_ip)
run_action p (wg_set_peer public_key tunnel_ip prefixlen) =
    p.run_peer (wg_set_peer public_key tunnel_ip prefixlen)

abbrev pub installed : Platform → Settings → Request → (tunnel_ip : Text) → Result (Unit {0})
installed p s r tunnel_ip =
    add_peer p.ips s.wireguard p.validated (key_of p r) tunnel_ip >>= run_action p

-- Whether `except WireGuardError` catches an exception.
abbrev pub is_wireguard_error : Exception → Bool
is_wireguard_error (wireguard_error message) = true
is_wireguard_error problem = false

-- The rows of an accepted firewall.
unfoldable pub joined :
    Platform → Settings → Request → (company_id : ℕ) (tunnel_ip : Text) → Db → Db
unfolding new_device
joined p s r company_id tunnel_ip db =
    (write_audit s.audit_device_view_throttle_minutes r.now "device.enroll" none (some r.device_id)
      (record db {
        devices = db.devices ++ (new_device p s r company_id tunnel_ip ∷ []);
        device_events =
            db.device_events ++ (record { device_id = r.device_id; event_type = "enrolled" } ∷ []);
      })).1

-- The handler once the address is chosen. Of what `add_peer` raises only a WireGuardError is caught.
unfoldable pub enroll_at :
    Platform
    → Settings
    → Request
    → EnrollmentCode
    → (server : Text × Text) (tunnel_ip : Text) → Session
    → Result Enrolled × Session
unfolding refused conflicts joined compensate_failed_peer_add
enroll_at p s r code server tunnel_ip session =
    if conflicts (key_of p r) tunnel_ip session.working.devices
    then refused s r "enrollment.device_conflict" 409
        "device WireGuard public key or tunnel address is already enrolled" (rollback session)
    else (let stored = commit (change (joined p s r code.company_id tunnel_ip) session) in
        elim (installed p s r tunnel_ip) [
          | err e ↦
              if is_wireguard_error e
              then refused s r "enrollment.peer_add_failed" 400 "peer"
                  (compensate_failed_peer_add r.device_id code.id stored)
              else (err e, stored)
          | ok u ↦ (
            ok (record {
              device_id = r.device_id;
              token_hash = r.token_hash;
              tunnel_ip = tunnel_ip;
              server_public_key = server.0;
              allowed_ips = server.1;
            }),
            stored,
          )
        ])

-- The handler once a code is found and the key is valid.
unfoldable pub enroll_with :
    Platform → Settings → Request → EnrollmentCode → Session → Result Enrolled × Session
unfolding claim_enrollment_code enroll_at refused
enroll_with p s r code session = elim p.server [
  | err e ↦ (err e, session)
  | ok server ↦
      let (mine, claimed) = claim_enrollment_code code r.now session in
      if not mine
      then refused s r "enrollment.otp_already_used" 409 "enrollment code has already been used"
          (rollback claimed)
      else elim (next_tunnel_ip p.ips p.validated
          (map (λ d. d.wg_tunnel_ip) claimed.working.devices)) [
            | err e ↦ (err e, claimed)
            | ok ip ↦ enroll_at p s r code server (p.str_ip ip) claimed
          ]
]

-- The handler behind the rate limit.
unfoldable pub enroll_allowed : Platform → Settings → Request → Session → Result Enrolled × Session
unfolding matching_code enroll_with refused
enroll_allowed p s r session =
    if otp_of p r == [] || hostname_of p r == [] || key_of p r == []
    then refused s r "enrollment.invalid_payload" 400 "otp, hostname and wg_public_key are required"
        session
    else elim (matching_code p r.now (otp_of p r) session.working.enrollment_codes) [
      | none ↦ refused s r "enrollment.invalid_otp" 401 "invalid or expired enrollment code" session
      | some code ↦ elim (validate_public_key (key_of p r)) [
        | err e ↦
            refused s r "enrollment.invalid_public_key" 400 "invalid WireGuard public key format"
              session
        | ok u ↦ enroll_with p s r code session
      ]
    ]

-- The tables, and the rate limits of the process.
pub record Hub : Type 0 where
  pub db : Db
  pub limits : MemoryRateLimitBackend

abbrev pub identifier : Text → Text
identifier otp = if take 8 otp == [] then codes "unknown" else take 8 otp

abbrev pub limited :
    Settings → Request → Text → MemoryRateLimitBackend → Result (Unit {0}) × MemoryRateLimitBackend
limited s r otp =
    hit r.now (codes "enroll") (r.client_ip ++ codes ":" ++ identifier otp)
      s.rate_limit_enrollment_attempts s.rate_limit_enrollment_window_seconds

-- One request, in a session of its own.
unfoldable pub enroll : Platform → Settings → Request → Hub → Result Enrolled × Hub
unfolding enroll_allowed
enroll p s r hub =
    let (allowed, limits) = limited s r (otp_of p r) hub.limits in
    elim allowed [
      | err e ↦ (err e, record hub { limits = limits })
      | ok u ↦
          let (answer, session) =
            enroll_allowed p s r (record { committed = hub.db; working = hub.db }) in
          (answer, record { db = session.committed; limits = limits })
    ]
