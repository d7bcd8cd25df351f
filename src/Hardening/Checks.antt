-- ===== src/Hardening/Checks.antt =====
-- dashboard/app/hardening.py: `runtime_validation_errors` in five parts, and what happens to its errors.
use opnsense_hub.Base.{
  String, Bool, true, false, ◌&&◌, ◌||◌, not, Option, none, some, List, [], ◌∷◌, ◌++◌, Result, ok,
  err, hardening_error, Text, codes, ◌==◌, text_eq, length, ltb, strip, lower, split, is_some,
  if◌then◌else◌,
}
use opnsense_hub.Base.Integers.{pos, lez, ltz, between}
use opnsense_hub.Hardening.{
  max_log_retention_delete_batch_size, max_log_retention_sweep_interval_hours,
  max_proxy_grant_ttl_seconds, max_proxy_session_ttl_minutes, max_connector_session_ttl_minutes,
  max_connector_connection_seconds, max_public_l4_relay_ttl_seconds, is_production, truthy, is_set,
  has_part, report, password_is_strong_enough, configured_allowed_hosts, trusted_proxy_networks,
  public_url_of, proxy_public_url_of, same_host, is_local, not_allowed, neither, Settings, Platform,
}

unfoldable pub isolation_invariant_errors : Settings → List String
isolation_invariant_errors s =
    let app_manages_isolation =
      lower (strip s.network_control_mode) == codes "inline" && s.hub_manage_firewall_rules in
    report (
      (
        not app_manages_isolation && not s.hub_external_isolation_policy_verified,
        "Set HUB_EXTERNAL_ISOLATION_POLICY_VERIFIED=true only after an external policy has been verified to default-drop forwarding from the WireGuard interface and restrict tunnel input to the Hub control plane",
      )
      ∷ (
        not (between 1 65535 s.hub_control_plane_port),
        "Set HUB_CONTROL_PLANE_PORT to a valid TCP port",
      )
      ∷ [])

-- The next five functions are the parts of `runtime_validation_errors`, in their order.
unfoldable pub url_errors : Platform → Settings → List String
url_errors p s =
    let public_url = public_url_of p s in
    let proxy_public_url = proxy_public_url_of p s in
    report (
      (
        s.secret_key == codes "change-me" || ltb (length s.secret_key) 32,
        "Set SECRET_KEY to a random value at least 32 characters long",
      )
      ∷ (
        lower s.initial_admin_email == codes "admin@example.com",
        "Set INITIAL_ADMIN_EMAIL to a real administrator email address",
      )
      ∷ (
        s.initial_admin_password == codes "change-me"
            || not (password_is_strong_enough p s.initial_admin_password 12),
        "Set INITIAL_ADMIN_PASSWORD to a strong password with at least 12 characters including letters and numbers",
      )
      ∷ (not s.session_secure, "Set SESSION_SECURE=true in production")
      ∷ (
        not (public_url.scheme == codes "https")
            || not (truthy public_url.netloc)
            || is_local public_url.hostname,
        "Set PUBLIC_URL to an HTTPS URL reachable by users in production",
      )
      ∷ (
        not (proxy_public_url.scheme == codes "https")
            || not (truthy proxy_public_url.netloc)
            || not (is_set proxy_public_url.hostname),
        "Set PROXY_PUBLIC_URL to a valid HTTPS URL in production",
      )
      ∷ (
        same_host proxy_public_url.hostname public_url.hostname,
        "Set PROXY_PUBLIC_URL to a hostname distinct from PUBLIC_URL",
      )
      ∷ (
        is_some proxy_public_url.username || is_some proxy_public_url.password,
        "Remove credentials from PROXY_PUBLIC_URL",
      )
      ∷ (
        not (proxy_public_url.path == [] || proxy_public_url.path == codes "/")
            || truthy proxy_public_url.params,
        "Remove the path from PROXY_PUBLIC_URL",
      )
      ∷ (truthy proxy_public_url.query, "Remove the query string from PROXY_PUBLIC_URL")
      ∷ (truthy proxy_public_url.fragment, "Remove the fragment from PROXY_PUBLIC_URL")
      ∷ [])

unfoldable pub access_errors : Settings → List String
access_errors s = report (
    (lez s.proxy_grant_ttl_seconds (pos 0), "Set PROXY_GRANT_TTL_SECONDS to a positive value")
    ∷ (
      not (lez s.proxy_grant_ttl_seconds (pos 0))
          && ltz (pos max_proxy_grant_ttl_seconds) s.proxy_grant_ttl_seconds,
      "Set PROXY_GRANT_TTL_SECONDS to 300 or less",
    )
    ∷ (lez s.proxy_session_ttl_minutes (pos 0), "Set PROXY_SESSION_TTL_MINUTES to a positive value")
    ∷ (
      not (lez s.proxy_session_ttl_minutes (pos 0))
          && ltz (pos max_proxy_session_ttl_minutes) s.proxy_session_ttl_minutes,
      "Set PROXY_SESSION_TTL_MINUTES to 60 or less",
    )
    ∷ (
      neither s.firewall_access_mode "connector" "hub_proxy",
      "Set FIREWALL_ACCESS_MODE to connector or hub_proxy",
    )
    ∷ (
      neither s.config_backup_mode "encrypted" "plaintext",
      "Set CONFIG_BACKUP_MODE to encrypted or plaintext",
    )
    ∷ (
      lez s.connector_session_ttl_minutes (pos 0),
      "Set CONNECTOR_SESSION_TTL_MINUTES to a positive value",
    )
    ∷ (
      not (lez s.connector_session_ttl_minutes (pos 0))
          && ltz (pos max_connector_session_ttl_minutes) s.connector_session_ttl_minutes,
      "Set CONNECTOR_SESSION_TTL_MINUTES to 60 or less",
    )
    ∷ (not (between 1 65535 s.connector_local_port), "Set CONNECTOR_LOCAL_PORT to a valid TCP port")
    ∷ (
      not (between 1 64 s.connector_max_connections),
      "Set CONNECTOR_MAX_CONNECTIONS between 1 and 64",
    )
    ∷ (
      not (between 1 60 s.connector_upstream_connect_timeout_seconds),
      "Set CONNECTOR_UPSTREAM_CONNECT_TIMEOUT_SECONDS between 1 and 60",
    )
    ∷ (
      not (between 1 max_connector_connection_seconds s.connector_connection_max_seconds),
      "Set CONNECTOR_CONNECTION_MAX_SECONDS between 1 and 3600",
    )
    ∷ (
      not (between 1 60 s.connector_authorization_recheck_seconds),
      "Set CONNECTOR_AUTHORIZATION_RECHECK_SECONDS between 1 and 60",
    )
    ∷ [])

unfoldable pub relay_errors : Settings → List String
relay_errors s =
    if s.public_l4_relay_enabled
    then report (
        (
          not s.public_l4_relay_mtls_required,
          "Set PUBLIC_L4_RELAY_MTLS_REQUIRED=true only after every OPNsense WebGUI enforces client certificates",
        )
        ∷ (not (truthy (strip s.public_l4_relay_bind_host)), "Set PUBLIC_L4_RELAY_BIND_HOST")
        ∷ (
          not (between 1024 65535 s.public_l4_relay_port_min),
          "Set PUBLIC_L4_RELAY_PORT_MIN to an unprivileged TCP port",
        )
        ∷ (
          not (between 1024 65535 s.public_l4_relay_port_max),
          "Set PUBLIC_L4_RELAY_PORT_MAX to an unprivileged TCP port",
        )
        ∷ (
          ltz s.public_l4_relay_port_max s.public_l4_relay_port_min,
          "Set PUBLIC_L4_RELAY_PORT_MIN no higher than the maximum",
        )
        ∷ (
          not (between 1 max_public_l4_relay_ttl_seconds s.public_l4_relay_ttl_seconds),
          "Set PUBLIC_L4_RELAY_TTL_SECONDS between 1 and 900",
        )
        ∷ (
          not (
              lez (pos 1) s.public_l4_relay_idle_timeout_seconds
              && lez s.public_l4_relay_idle_timeout_seconds s.public_l4_relay_ttl_seconds),
          "Set PUBLIC_L4_RELAY_IDLE_TIMEOUT_SECONDS between 1 and the relay TTL",
        )
        ∷ (
          not (between 1 64 s.public_l4_relay_max_connections),
          "Set PUBLIC_L4_RELAY_MAX_CONNECTIONS between 1 and 64",
        )
        ∷ [])
    else []

-- `token and (len(token) < 32 or "change-me" in token.lower() or "development-only" in token.lower())`
unfoldable pub is_weak_token : Option Text → Bool
is_weak_token none = false
is_weak_token (some token) =
    truthy token
    && (ltb (length token) 32
        || has_part (codes "change-me") (lower token)
        || has_part (codes "development-only") (lower token))

abbrev pub is_empty {ℓ} : {A : Type ℓ} → List A → Bool
is_empty [] = true
is_empty (x ∷ xs) = false

unfoldable pub service_errors : Platform → Settings → List String
service_errors p s =
    let public_url = public_url_of p s in
    let proxy_public_url = proxy_public_url_of p s in
    let backend = lower (strip s.rate_limit_backend) in
    report (
      (
        not_allowed proxy_public_url.hostname (configured_allowed_hosts p s),
        "Add the PROXY_PUBLIC_URL host to ALLOWED_HOSTS",
      )
      ∷ (
        not s.proxy_verify_tls && not s.allow_insecure_proxy_tls_in_production,
        "Set PROXY_VERIFY_TLS=true in production or explicitly set ALLOW_INSECURE_PROXY_TLS_IN_PRODUCTION=true",
      )
      ∷ (
        not (backend == codes "memory" || backend == codes "redis" || backend == codes "edge"),
        "Set RATE_LIMIT_BACKEND to memory, redis, or edge",
      )
      ∷ (
        lez s.rate_limit_memory_max_buckets (pos 0),
        "Set RATE_LIMIT_MEMORY_MAX_BUCKETS to a positive value",
      )
      ∷ (
        neither s.network_control_mode "inline" "external",
        "Set NETWORK_CONTROL_MODE to inline or external",
      )
      ∷ (
        is_set s.wg_agent_url && not (is_set s.wg_agent_token),
        "Set WG_AGENT_TOKEN when WG_AGENT_URL is configured",
      )
      ∷ (
        is_weak_token s.wg_agent_token,
        "Set WG_AGENT_TOKEN to a random value at least 32 characters long",
      )
      ∷ (
        is_set s.wg_agent_url && s.wg_agent_mode,
        "Do not set WG_AGENT_URL inside the WireGuard agent process",
      )
      ∷ (backend == codes "memory", "Set RATE_LIMIT_BACKEND to redis or edge in production")
      ∷ (
        backend == codes "redis" && not (is_set s.rate_limit_redis_url),
        "Set RATE_LIMIT_REDIS_URL when RATE_LIMIT_BACKEND=redis",
      )
      ∷ (
        not_allowed public_url.hostname (configured_allowed_hosts p s),
        "Add the PUBLIC_URL host to ALLOWED_HOSTS",
      )
      ∷ (
        truthy (strip s.trusted_proxy_cidrs)
            && is_empty (trusted_proxy_networks p (split b',' s.trusted_proxy_cidrs) []),
        "TRUSTED_PROXY_CIDRS contains no valid proxy networks",
      )
      ∷ [])

unfoldable pub retention_errors : Settings → List String
retention_errors s = report (
    (lez s.device_token_ttl_days (pos 0), "Set DEVICE_TOKEN_TTL_DAYS to a positive value")
    ∷ (
      not (
          lez (pos 0) s.device_token_rotation_window_days
          && ltz s.device_token_rotation_window_days s.device_token_ttl_days),
      "Set DEVICE_TOKEN_ROTATION_WINDOW_DAYS to zero or more and less than DEVICE_TOKEN_TTL_DAYS",
    )
    ∷ (
      lez s.log_retention_sweep_interval_hours (pos 0),
      "Set LOG_RETENTION_SWEEP_INTERVAL_HOURS to a positive value",
    )
    ∷ (
      not (lez s.log_retention_sweep_interval_hours (pos 0))
          && ltz (pos max_log_retention_sweep_interval_hours) s.log_retention_sweep_interval_hours,
      "Set LOG_RETENTION_SWEEP_INTERVAL_HOURS to 720 or less",
    )
    ∷ (
      lez s.log_retention_delete_batch_size (pos 0),
      "Set LOG_RETENTION_DELETE_BATCH_SIZE to a positive value",
    )
    ∷ (
      not (lez s.log_retention_delete_batch_size (pos 0))
          && ltz (pos max_log_retention_delete_batch_size) s.log_retention_delete_batch_size,
      "Set LOG_RETENTION_DELETE_BATCH_SIZE to 20000 or less",
    )
    ∷ (
      lez s.scheduler_lock_poll_seconds (pos 0),
      "Set SCHEDULER_LOCK_POLL_SECONDS to a positive value",
    )
    ∷ (
      lez s.audit_device_view_throttle_minutes (pos 0),
      "Set AUDIT_DEVICE_VIEW_THROTTLE_MINUTES to a positive value",
    )
    ∷ (
      lez s.audit_log_min_retention_days (pos 0),
      "Set AUDIT_LOG_MIN_RETENTION_DAYS to a positive value",
    )
    ∷ (
      lez s.device_event_min_retention_days (pos 0),
      "Set DEVICE_EVENT_MIN_RETENTION_DAYS to a positive value",
    )
    ∷ (
      s.log_retention_enabled && ltz s.audit_log_retention_days s.audit_log_min_retention_days,
      "Set AUDIT_LOG_RETENTION_DAYS to at least",
    )
    ∷ (
      s.log_retention_enabled
          && ltz s.device_event_retention_days s.device_event_min_retention_days,
      "Set DEVICE_EVENT_RETENTION_DAYS to at least",
    )
    ∷ [])

unfoldable pub runtime_validation_errors : Platform → Settings → List String
runtime_validation_errors p s =
    url_errors p s
    ++ access_errors s
    ++ relay_errors s
    ++ service_errors p s
    ++ retention_errors s
    ++ isolation_invariant_errors s

-- In production the errors are raised, joined in one message that is not modelled. Outside production
-- they are logged, and the Hub starts.
unfoldable pub validate_runtime_settings : Platform → Settings → Result (Unit {0})
validate_runtime_settings p s =
    if is_empty (runtime_validation_errors p s)
    then ok tt
    else if is_production s
    then err (hardening_error "insecure settings")
    else ok tt

abbrev pub should_fail_closed : Settings → Bool
should_fail_closed s = is_production s && not s.wg_dry_run
