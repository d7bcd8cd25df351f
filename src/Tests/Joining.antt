-- ===== src/Tests/Joining.antt =====
-- The theorems of Enrollment at a Hub with one code.
use opnsense_hub.Base.{
  ℕ, ◌≡◌, ◌≢◌, ◌⊎◌, refl, Bool, true, false, Option, none, some, List, [], ◌∷◌, Text, codes, Result,
  ok, err, wireguard_error, http_exception, arith, ◌==◌, text_eq, if◌then◌else◌, All, is_some,
  nat_eq,
}
use opnsense_hub.Models.{EnrollmentCode}
use opnsense_hub.RateLimit.{MemoryRateLimitBackend}
use opnsense_hub.WireGuard.{
  IpParsers, IpAddress, ipv4, IpPrefix, prefix4, Network, ValidatedWireGuardConfig, PeerAction,
}
use opnsense_hub.WireGuard
use opnsense_hub.Payload.{
  Json, string, Members, close, member, null, boolean, integer, real, array, object,
}
use opnsense_hub.Enrollment.{
  Platform, Settings, Request, Hub, Enrolled, enroll, otp_of, matching_code,
}
use opnsense_hub.Enrollment.Rows.{SameRows}
use opnsense_hub.Enrollment.Refused.{IsStranded, enroll-refused}
use opnsense_hub.Enrollment.Once.{enroll_once, enroll_all}
use opnsense_hub.Enrollment.Joined.{IsJoined, enroll-IsJoined}
use opnsense_hub.Tests.{db}

abbrev parsers : IpParsers
parsers = record {
  ip_network = λ t. some (prefix4 16 29);
  ip_interface = λ t. some (prefix4 17 29);
  ip_address = λ t. if t == codes "18" then some (ipv4 18) else some (ipv4 19);
}

abbrev platform : Result (Unit {0}) → Platform
platform answer = record {
  verify_secret = λ otp hash. otp == codes hash;
  str = λ v. codes "";
  fromisoformat = λ t. none;
  ips = parsers;
  str_ip = λ n. codes "19";
  validated = record {
    network = record { address = 16; prefixlen = 29 };
    hub_ip = 17;
    hub_prefixlen = 29;
  };
  server = ok (codes "server", codes "ips");
  run_peer = λ a. answer;
}

abbrev settings : Settings
settings = record {
  rate_limit_enrollment_attempts = 9;
  rate_limit_enrollment_window_seconds = 60;
  audit_device_view_throttle_minutes = 0;
  device_token_ttl_days = 90;
  wireguard = record { wg_dry_run = false; wg_agent_url_set = false; wg_agent_mode = false };
}

abbrev request : (now id : ℕ) → Request
request now id = record {
  payload = member (codes "otp") (string (codes " abc")) (
      member (codes "hostname") (string (codes "fw2")) (
        member (codes "wg_public_key")
          (string (codes "AAAAAAAAAAAAAAAAAAAAAAAAAAAAAAAAAAAAAAAAAAA=")) close));
  client_ip = codes "5";
  now = now;
  device_id = id;
  token_hash = "hash";
}

abbrev code : EnrollmentCode
code = record { id = 3; company_id = 7; code_hash = "ABC"; expires_at = 100; used_at = none }

abbrev hub : Hub
hub = record {
  db = record db { enrollment_codes = code ∷ [] };
  limits = record { max_buckets = 4; buckets = [] };
}

abbrev answer : Enrolled
answer = record {
  device_id = 6;
  token_hash = "hash";
  tunnel_ip = codes "19";
  server_public_key = codes "server";
  allowed_ips = codes "ips";
}

enrolled : (enroll (platform (ok tt)) settings (request 10 6) hub).0 ≡ ok answer
unfolding enroll opnsense_hub.RateLimit.hit opnsense_hub.RateLimit.drop_old
    opnsense_hub.RateLimit.claim opnsense_hub.RateLimit.lookup
    opnsense_hub.RateLimit.prune_expired_locked opnsense_hub.Base.select opnsense_hub.Base.text_beq
    otp_of opnsense_hub.Base.upper opnsense_hub.Base.strip opnsense_hub.Payload.text_of
    opnsense_hub.Payload.get opnsense_hub.Enrollment.hostname_of opnsense_hub.Enrollment.key_of
    opnsense_hub.Base.find WireGuard.validate_public_key opnsense_hub.Audit.should_write_audit
    opnsense_hub.Audit.write_audit opnsense_hub.Base.Decimal.int
    opnsense_hub.Base.Decimal.print_digits opnsense_hub.Base.Decimal.read_digits
    opnsense_hub.Base.Decimal.str opnsense_hub.Base.contains opnsense_hub.Base.any
    opnsense_hub.Base.is_space opnsense_hub.Base.lower opnsense_hub.Base.lower_char
    opnsense_hub.Base.lstrip opnsense_hub.Base.rsplit_once opnsense_hub.Base.upper_char
    opnsense_hub.Enrollment.claim_enrollment_code opnsense_hub.Enrollment.compensate_failed_peer_add
    matching_code opnsense_hub.Enrollment.refused
    opnsense_hub.Enrollment.apply_device_license_payload opnsense_hub.Enrollment.new_device
    opnsense_hub.Enrollment.normalize_device_license_payload
    opnsense_hub.Enrollment.parse_license_expires_at opnsense_hub.Enrollment.conflicts
    opnsense_hub.Enrollment.enroll_allowed opnsense_hub.Enrollment.enroll_at
    opnsense_hub.Enrollment.enroll_with opnsense_hub.Enrollment.joined
    opnsense_hub.Notifications.clean_optional opnsense_hub.RateLimit.bucket_key
    opnsense_hub.RateLimit.evict opnsense_hub.RateLimit.window_of opnsense_hub.RateLimit.without
    opnsense_hub.Sessions.issue_device_token WireGuard.add_peer WireGuard.agent_enabled
    WireGuard.broadcast_address WireGuard.check_peer_ip WireGuard.check_stored WireGuard.first_free
    WireGuard.hosts WireGuard.in_network WireGuard.is_base64_char WireGuard.matches_key
    WireGuard.network_address WireGuard.next_tunnel_ip WireGuard.peer_allowed_ips WireGuard.used_ips
enrolled = refl

failing :
    (enroll (platform (err (wireguard_error "down"))) settings (request 10 6) hub).0
    ≡ err (http_exception 400 "peer")
unfolding enroll opnsense_hub.RateLimit.hit opnsense_hub.RateLimit.drop_old
    opnsense_hub.RateLimit.claim opnsense_hub.RateLimit.lookup
    opnsense_hub.RateLimit.prune_expired_locked opnsense_hub.Base.select opnsense_hub.Base.text_beq
    otp_of opnsense_hub.Base.upper opnsense_hub.Base.strip opnsense_hub.Payload.text_of
    opnsense_hub.Payload.get opnsense_hub.Enrollment.hostname_of opnsense_hub.Enrollment.key_of
    opnsense_hub.Base.find WireGuard.validate_public_key opnsense_hub.Audit.should_write_audit
    opnsense_hub.Audit.write_audit opnsense_hub.Base.Decimal.int
    opnsense_hub.Base.Decimal.print_digits opnsense_hub.Base.Decimal.read_digits
    opnsense_hub.Base.Decimal.str opnsense_hub.Base.contains opnsense_hub.Base.any
    opnsense_hub.Base.is_space opnsense_hub.Base.lower opnsense_hub.Base.lower_char
    opnsense_hub.Base.lstrip opnsense_hub.Base.rsplit_once opnsense_hub.Base.upper_char
    opnsense_hub.Enrollment.claim_enrollment_code opnsense_hub.Enrollment.compensate_failed_peer_add
    matching_code opnsense_hub.Enrollment.refused
    opnsense_hub.Enrollment.apply_device_license_payload opnsense_hub.Enrollment.new_device
    opnsense_hub.Enrollment.normalize_device_license_payload
    opnsense_hub.Enrollment.parse_license_expires_at opnsense_hub.Enrollment.conflicts
    opnsense_hub.Enrollment.enroll_allowed opnsense_hub.Enrollment.enroll_at
    opnsense_hub.Enrollment.enroll_with opnsense_hub.Enrollment.joined
    opnsense_hub.Notifications.clean_optional opnsense_hub.RateLimit.bucket_key
    opnsense_hub.RateLimit.evict opnsense_hub.RateLimit.window_of opnsense_hub.RateLimit.without
    opnsense_hub.Sessions.issue_device_token WireGuard.add_peer WireGuard.agent_enabled
    WireGuard.broadcast_address WireGuard.check_peer_ip WireGuard.check_stored WireGuard.first_free
    WireGuard.hosts WireGuard.in_network WireGuard.is_base64_char WireGuard.matches_key
    WireGuard.network_address WireGuard.next_tunnel_ip WireGuard.peer_allowed_ips WireGuard.used_ips
failing = refl

enroll-IsJoined_example :
    IsJoined
      (platform (ok tt))
      settings
      (request 10 6)
      hub.db
      (enroll (platform (ok tt)) settings (request 10 6) hub).1.db
      answer
enroll-IsJoined_example =
    enroll-IsJoined (platform (ok tt)) settings (request 10 6) hub answer enrolled

other_device : ◌≢◌ {A = ℕ} 5 6
other_device = omega arith

enroll-refused_example :
    SameRows hub.db
      (enroll (platform (err (wireguard_error "down"))) settings (request 10 6) hub).1.db
    ⊎ IsStranded
        (platform (err (wireguard_error "down")))
        settings
        (request 10 6)
        hub.db
        (enroll (platform (err (wireguard_error "down"))) settings (request 10 6) hub).1.db
        (http_exception 400 "peer")
enroll-refused_example =
    enroll-refused (platform (err (wireguard_error "down"))) settings (request 10 6) hub
      (http_exception 400 "peer") (record { devices = (other_device, tt); events = tt }) (tt, tt)
      failing

found_code :
    matching_code (platform (ok tt)) 10 (otp_of (platform (ok tt)) (request 10 6)) (code ∷ [])
    ≡ some code
unfolding matching_code opnsense_hub.Base.find opnsense_hub.Base.select opnsense_hub.Base.text_beq
    otp_of opnsense_hub.Base.upper opnsense_hub.Base.strip opnsense_hub.Payload.text_of
    opnsense_hub.Payload.get
found_code = refl

enroll_once_example :
    (enroll (platform (ok tt)) settings (request 30 8) (
      enroll_all
        (platform (ok tt))
        settings
        (request 20 7 ∷ [])
        (enroll (platform (ok tt)) settings (request 10 6) hub).1)).0
    ≢ ok answer
unfolding otp_of
enroll_once_example =
    enroll_once (platform (ok tt)) settings (request 10 6) (request 30 8) (request 20 7 ∷ []) hub
      code answer answer found_code ((λ _. refl), tt) enrolled (omega arith, tt) (omega arith) refl
