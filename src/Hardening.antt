-- ===== src/Hardening.antt =====
-- dashboard/app/hardening.py: the checks of the settings at start, by which a production Hub refuses to
-- run with unsafe ones. `urlparse`, `ipaddress.ip_network` and Python's tables of letters and digits are
-- the parameter `Platform`. The commands that install the firewall rules are not modelled.
pub mod Checks
pub mod Safe
use opnsense_hub.Base.{
  ℕ, ◌≡◌, String, Bool, true, false, ◌&&◌, ◌||◌, not, Option, none, some, List, [], ◌∷◌, ◌++◌,
  Result, ok, err, hardening_error, Text, codes, ◌==◌, text_eq, contains, length, any, select, leb,
  ltb, strip, lower, split, starts_with, is_some, if◌then◌else◌,
}
use opnsense_hub.Base.Integers.{ℤ, pos, lez, ltz, between}

abbrev pub max_log_retention_delete_batch_size : ℕ
max_log_retention_delete_batch_size = 20000

abbrev pub max_log_retention_sweep_interval_hours : ℕ
max_log_retention_sweep_interval_hours = 720

abbrev pub max_proxy_grant_ttl_seconds : ℕ
max_proxy_grant_ttl_seconds = 300

abbrev pub max_proxy_session_ttl_minutes : ℕ
max_proxy_session_ttl_minutes = 60

abbrev pub max_connector_session_ttl_minutes : ℕ
max_connector_session_ttl_minutes = 60

abbrev pub max_connector_connection_seconds : ℕ
max_connector_connection_seconds = 3600

abbrev pub max_public_l4_relay_ttl_seconds : ℕ
max_public_l4_relay_ttl_seconds = 900

-- The fields of dashboard/app/config.py that the checks read.
pub record Settings : Type 0 where
  pub app_env : Text
  pub public_url : Text
  pub proxy_public_url : Text
  pub firewall_access_mode : Text
  pub public_l4_relay_bind_host : Text
  pub secret_key : Text
  pub initial_admin_email : Text
  pub initial_admin_password : Text
  pub allowed_hosts : Text
  pub trusted_proxy_cidrs : Text
  pub rate_limit_backend : Text
  pub network_control_mode : Text
  pub config_backup_mode : Text
  pub rate_limit_redis_url : Option Text
  pub wg_agent_url : Option Text
  pub wg_agent_token : Option Text
  pub public_l4_relay_enabled : Bool
  pub public_l4_relay_mtls_required : Bool
  pub session_secure : Bool
  pub wg_dry_run : Bool
  pub wg_agent_mode : Bool
  pub hub_manage_firewall_rules : Bool
  pub hub_external_isolation_policy_verified : Bool
  pub proxy_verify_tls : Bool
  pub allow_insecure_proxy_tls_in_production : Bool
  pub log_retention_enabled : Bool
  pub proxy_grant_ttl_seconds : ℤ
  pub proxy_session_ttl_minutes : ℤ
  pub connector_session_ttl_minutes : ℤ
  pub connector_local_port : ℤ
  pub connector_max_connections : ℤ
  pub connector_upstream_connect_timeout_seconds : ℤ
  pub connector_connection_max_seconds : ℤ
  pub connector_authorization_recheck_seconds : ℤ
  pub public_l4_relay_port_min : ℤ
  pub public_l4_relay_port_max : ℤ
  pub public_l4_relay_ttl_seconds : ℤ
  pub public_l4_relay_idle_timeout_seconds : ℤ
  pub public_l4_relay_max_connections : ℤ
  pub rate_limit_memory_max_buckets : ℤ
  pub hub_control_plane_port : ℤ
  pub device_token_ttl_days : ℤ
  pub device_token_rotation_window_days : ℤ
  pub audit_log_retention_days : ℤ
  pub device_event_retention_days : ℤ
  pub log_retention_sweep_interval_hours : ℤ
  pub log_retention_delete_batch_size : ℤ
  pub audit_log_min_retention_days : ℤ
  pub device_event_min_retention_days : ℤ
  pub scheduler_lock_poll_seconds : ℤ
  pub audit_device_view_throttle_minutes : ℤ

-- What `urlparse` returns, with its properties. `has_valid_port` is false where `.port` raises.
pub record Url : Type 0 where
  pub scheme : Text
  pub netloc : Text
  pub hostname : Option Text
  pub has_valid_port : Bool
  pub username : Option Text
  pub password : Option Text
  pub path : Text
  pub params : Text
  pub query : Text
  pub fragment : Text

-- `none` stands for a ValueError. `blank` is `urlparse("")`.
pub record Platform : Type 1 where
  pub IpNetwork : Type 0
  pub ip_network : Text → Option IpNetwork
  pub urlparse : Text → Option Url
  pub blank : Url
  pub isalpha : ℕ → Bool
  pub isdigit : ℕ → Bool

abbrev pub is_production : Settings → Bool
is_production s = lower (strip s.app_env) == codes "production"

-- The truth value of a text, and of one that may be None.
abbrev pub truthy : Text → Bool
truthy [] = false
truthy (c ∷ t) = true

abbrev pub is_set : Option Text → Bool
is_set none = false
is_set (some t) = truthy t

-- `part in t`
unfoldable pub has_part : Text → Text → Bool
has_part part [] = starts_with [] part
has_part part (c ∷ t) = starts_with (c ∷ t) part || has_part part t

-- The messages whose condition holds, in their order.
unfoldable pub report : List (Bool × String) → List String
report [] = []
report ((b, m) ∷ checks) = let rest = report checks in if b then m ∷ rest else rest

-- `password_is_strong_enough` of dashboard/app/security/__init__.py
unfoldable pub password_is_strong_enough : Platform → Text → ℕ → Bool
password_is_strong_enough p password min_length =
    if ltb (length password) min_length
    then false
    else any p.isalpha password && any p.isdigit password

-- `(x or "").strip().lower()`
abbrev pub clean_host : Option Text → Text
clean_host none = []
clean_host (some host) = lower (strip host)

abbrev pub host_of : Option Url → Text
host_of none = []
host_of (some url) = clean_host url.hostname

-- `{item.strip().lower() for item in … if item.strip()}`, as a list
unfoldable pub configured_items : List Text → List Text
configured_items [] = []
configured_items (item ∷ items) =
    let rest = configured_items items in
    if truthy (strip item) then lower (strip item) ∷ rest else rest

unfoldable pub configured_allowed_hosts : Platform → Settings → List Text
configured_allowed_hosts p s =
    configured_items (split b',' s.allowed_hosts)
    ++ select truthy
        (host_of (p.urlparse s.public_url) ∷ host_of (p.urlparse s.proxy_public_url) ∷ [])

-- The loop of `_trusted_proxy_networks`: one text that is no network makes the whole tuple empty.
unfoldable pub trusted_proxy_networks :
    (p : Platform) → List Text → List p.IpNetwork → List p.IpNetwork
trusted_proxy_networks p [] networks = networks
trusted_proxy_networks p (item ∷ items) networks = elim (truthy (strip item)) [
  | false ↦ trusted_proxy_networks p items networks
  | true ↦ elim (p.ip_network (strip item)) [
    | none ↦ []
    | some network ↦ trusted_proxy_networks p items (networks ++ (network ∷ []))
  ]
]

-- A URL of the settings, as the checks see it: one that does not parse, or whose port does not, counts
-- as the empty one.
abbrev pub or_blank : Platform → Option Url → Url
or_blank p none = p.blank
or_blank p (some url) = if url.has_valid_port then url else p.blank

abbrev pub public_url_of : Platform → Settings → Url
public_url_of p s = or_blank p (p.urlparse s.public_url)

abbrev pub proxy_public_url_of : Platform → Settings → Url
proxy_public_url_of p s = or_blank p (p.urlparse s.proxy_public_url)

-- `a and b and a.lower() == b.lower()`
abbrev pub same_host : Option Text → Option Text → Bool
same_host none b = false
same_host (some a) none = false
same_host (some a) (some b) = truthy a && truthy b && lower a == lower b

-- `host in {"localhost", "127.0.0.1"}`
abbrev pub is_local : Option Text → Bool
is_local none = false
is_local (some host) = host == codes "localhost" || host == codes "127.0.0.1"

-- `host and host.lower() not in …`
abbrev pub not_allowed : Option Text → List Text → Bool
not_allowed none hosts = false
not_allowed (some host) hosts = truthy host && not (contains hosts (lower host))

-- `value.strip().lower() not in {a, b}`
abbrev pub neither : Text → String → String → Bool
neither value a b = let v = lower (strip value) in not (v == codes a || v == codes b)
