-- ===== src/Tests/Start.antt =====
-- The checks at start, on settings that pass them.
use opnsense_hub.Base.{
  ℕ, ◌≡◌, String, Bool, true, false, Option, none, some, List, [], ◌∷◌, Result, ok, err, Text,
  codes, ◌==◌, text_eq, leb, ltb, ◌&&◌, ◌||◌, if◌then◌else◌,
}
use opnsense_hub.Base.Integers.{pos}
use opnsense_hub.Hardening.{Settings, Url, Platform, is_production}

abbrev settings : Settings
settings = record {
  app_env = codes "production";
  public_url = codes "https://hub.example.org";
  proxy_public_url = codes "https://proxy.example.org";
  firewall_access_mode = codes "connector";
  public_l4_relay_bind_host = codes "0.0.0.0";
  secret_key = codes "0123456789abcdef0123456789abcdef";
  initial_admin_email = codes "ops@example.org";
  initial_admin_password = codes "correcthorse1";
  allowed_hosts = codes "hub.example.org";
  trusted_proxy_cidrs = [];
  rate_limit_backend = codes "edge";
  network_control_mode = codes "inline";
  config_backup_mode = codes "encrypted";
  rate_limit_redis_url = none;
  wg_agent_url = none;
  wg_agent_token = none;
  public_l4_relay_enabled = false;
  public_l4_relay_mtls_required = true;
  session_secure = true;
  wg_dry_run = false;
  wg_agent_mode = false;
  hub_manage_firewall_rules = true;
  hub_external_isolation_policy_verified = true;
  proxy_verify_tls = true;
  allow_insecure_proxy_tls_in_production = true;
  log_retention_enabled = true;
  proxy_grant_ttl_seconds = pos 60;
  proxy_session_ttl_minutes = pos 15;
  connector_session_ttl_minutes = pos 15;
  connector_local_port = pos 8443;
  connector_max_connections = pos 16;
  connector_upstream_connect_timeout_seconds = pos 15;
  connector_connection_max_seconds = pos 900;
  connector_authorization_recheck_seconds = pos 5;
  public_l4_relay_port_min = pos 55000;
  public_l4_relay_port_max = pos 55099;
  public_l4_relay_ttl_seconds = pos 600;
  public_l4_relay_idle_timeout_seconds = pos 120;
  public_l4_relay_max_connections = pos 16;
  rate_limit_memory_max_buckets = pos 10000;
  hub_control_plane_port = pos 8083;
  device_token_ttl_days = pos 90;
  device_token_rotation_window_days = pos 14;
  audit_log_retention_days = pos 365;
  device_event_retention_days = pos 90;
  log_retention_sweep_interval_hours = pos 24;
  log_retention_delete_batch_size = pos 5000;
  audit_log_min_retention_days = pos 30;
  device_event_min_retention_days = pos 7;
  scheduler_lock_poll_seconds = pos 30;
  audit_device_view_throttle_minutes = pos 15;
}

abbrev pub url : Text → Url
url host = record {
  scheme = codes "https";
  netloc = host;
  hostname = some host;
  has_valid_port = true;
  username = none;
  password = none;
  path = [];
  params = [];
  query = [];
  fragment = [];
}

-- A parser that knows the two URLs of the settings.
abbrev platform : Platform
platform = record {
  IpNetwork = ℕ;
  ip_network = λ t. none;
  urlparse = λ t.
      if t == codes "https://hub.example.org"
      then some (url (codes "hub.example.org"))
      else some (url (codes "proxy.example.org"));
  blank = url [];
  isalpha = λ c. leb b'a' c && leb c b'z';
  isdigit = λ c. leb b'0' c && leb c b'9';
}
