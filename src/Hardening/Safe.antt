-- ===== src/Hardening/Safe.antt =====
-- dashboard/app/hardening.py: what the checks say of settings that pass them.
use opnsense_hub.Base.{
  ℕ, ◌≡◌, ◌≢◌, ◌≤◌, ◌⊎◌, Bool, true, false, List, String, Result, ok, err, hardening_error, length,
  codes, text_eq, strip, lower, if◌then◌else◌,
}
use opnsense_hub.Base.Integers.{ℤ, pos, lez}
use opnsense_hub.Hardening.{
  Settings, Platform, is_set, public_url_of, proxy_public_url_of, same_host,
  configured_allowed_hosts, not_allowed,
}
use opnsense_hub.Hardening.Checks.{is_empty}

-- `z` is a number between two bounds.
abbrev pub InRange : (low high : ℕ) → ℤ → Type 0
InRange low high z = (n : ℕ) × (z ≡ pos n) × (low ≤ n) × (n ≤ high)

pub record IsSafe (p : Platform) (s : Settings) : Type 0 where
  pub secret_key : 32 ≤ length s.secret_key
  pub secret_key_changed : s.secret_key ≢ codes "change-me"
  pub password_changed : s.initial_admin_password ≢ codes "change-me"
  pub session_secure : s.session_secure ≡ true
  pub other_host : same_host (proxy_public_url_of p s).hostname (public_url_of p s).hostname ≡ false
  pub proxy_grant_ttl : InRange 1 300 s.proxy_grant_ttl_seconds
  pub proxy_session_ttl : InRange 1 60 s.proxy_session_ttl_minutes
  pub connector_session_ttl : InRange 1 60 s.connector_session_ttl_minutes
  pub connector_local_port : InRange 1 65535 s.connector_local_port
  pub connector_max_connections : InRange 1 64 s.connector_max_connections
  pub backend :
      (lower (strip s.rate_limit_backend) ≡ codes "redis")
      ⊎ (lower (strip s.rate_limit_backend) ≡ codes "edge")
  pub agent_token : is_set s.wg_agent_url ≡ true → is_set s.wg_agent_token ≡ true
  pub proxy_host_allowed :
      not_allowed (proxy_public_url_of p s).hostname (configured_allowed_hosts p s) ≡ false
  pub delete_batch_size : InRange 1 20000 s.log_retention_delete_batch_size
  pub sweep_interval : InRange 1 720 s.log_retention_sweep_interval_hours
  pub audit_retention :
      s.log_retention_enabled ≡ true
      → lez s.audit_log_min_retention_days s.audit_log_retention_days ≡ true
  pub control_plane_port : InRange 1 65535 s.hub_control_plane_port

abbrev started : Result (Unit {0})
started = ok tt

abbrev start : List String → Bool → Result (Unit {0})
start errors production =
    if is_empty errors
    then ok tt
    else if production
    then err (hardening_error "insecure settings")
    else ok tt
