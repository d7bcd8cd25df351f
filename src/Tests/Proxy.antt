-- ===== src/Tests/Proxy.antt =====
-- The access of users to firewalls, on concrete rows.
use opnsense_hub.Base.{
  ℕ, ◌<◌, ◌≡◌, ◌≢◌, refl, String, Bool, true, false, Option, none, some, List, [], ◌∷◌, Result, ok,
  err, http_exception, All, arith, lower, codes,
}
use mathlib.Core.List.{Mem}
use opnsense_hub.Models.{User, Device, SessionToken, DeviceProxySession}
use opnsense_hub.Access.{viewer, admin, role_order, has_company_access, require_company}
use opnsense_hub.Access.Laws.{require_company-outsider}
use opnsense_hub.ProxyAuth.{
  Settings, proxy_session_phase, connector_session_phase, get_user, get_device, get_session_token,
  create_proxy_grant, create_connector_session, exchange_proxy_grant, validate_proxy_session,
  validate_connector_session,
}
use opnsense_hub.ProxyAuth.Checks.{MayAccess, IsActive}
use opnsense_hub.ProxyAuth.Laws.{
  validate_proxy_session-IsAuthorized, validate_connector_session-IsAuthorized, revoked_device,
}
use opnsense_hub.ProxyAuth.Replay.{check_proxy, exchange, perform_all, exchange_once}
use opnsense_hub.Tests.{
  apart, plain, alice, firewall, revoked_firewall, dashboard_session, proxy_row, db, revoked_db,
}

abbrev settings : Settings
settings = record {
  proxy_grant_ttl_seconds = 60;
  proxy_session_ttl_minutes = 15;
  connector_session_ttl_minutes = 15;
}

abbrev session_row : DeviceProxySession
session_row = proxy_row 31 "session" "session" none

abbrev connector_row : DeviceProxySession
connector_row = proxy_row 32 "connector" "connector" (some 20)

exchange_once_example :
    (exchange_proxy_grant settings plain 20 51 "other" "grant" (
      perform_all settings plain
        (exchange 11 52 "third" "grant" ∷ check_proxy 12 "new" 5 ∷ [])
        (exchange_proxy_grant settings plain 10 50 "new" "grant" db).1)).0
    ≡ err (http_exception 401 "invalid or expired proxy grant")
unfolding exchange_proxy_grant opnsense_hub.ProxyAuth.usable_grant opnsense_hub.Base.find
    opnsense_hub.ProxyAuth.delete_expired_proxy_sessions opnsense_hub.Base.select
    opnsense_hub.ProxyAuth.require_proxy_access opnsense_hub.ProxyAuth.proxy_access get_user
    get_device opnsense_hub.Base.text_beq lower has_company_access
    opnsense_hub.Access.is_global_admin opnsense_hub.Access.has_company_role
    opnsense_hub.Access.get_company_role opnsense_hub.Access.role_rank
exchange_once_example =
    exchange_once settings plain 10 50 "new" "grant" db
      (
        "new",
        record (proxy_row 50 "new" "session" none) { created_at = 10; expires_at = 900000010 },
      )
      (exchange 11 52 "third" "grant" ∷ check_proxy 12 "new" 5 ∷ []) 20 51 "other"
      (
        (apart "session" "grant" refl, (apart "connector" "grant" refl, tt)),
        ((apart "connector" "session" refl, tt), (tt, tt)),
      )
      (apart "new" "grant" refl) refl (apart "third" "grant" refl, (tt, tt))

validate_proxy_session-IsAuthorized_example :
    Mem session_row db.proxy_sessions
    × (session_row.token_hash ≡ plain "session")
    × (session_row.phase ≡ proxy_session_phase)
    × (session_row.device_id ≡ 5)
    × (session_row.consumed_at ≡ none)
    × (10 < 1000)
    × (get_user db 1 ≡ some alice)
    × (get_device db 5 ≡ some firewall)
    × MayAccess db alice firewall
unfolding validate_proxy_session opnsense_hub.ProxyAuth.usable_session opnsense_hub.Base.find
    opnsense_hub.ProxyAuth.delete_expired_proxy_sessions opnsense_hub.Base.select
    opnsense_hub.ProxyAuth.require_proxy_access opnsense_hub.ProxyAuth.proxy_access get_user
    get_device opnsense_hub.Base.text_beq lower has_company_access
    opnsense_hub.Access.is_global_admin opnsense_hub.Access.has_company_role
    opnsense_hub.Access.get_company_role opnsense_hub.Access.role_rank
validate_proxy_session-IsAuthorized_example =
    validate_proxy_session-IsAuthorized plain settings 10 "session" 5 db session_row alice firewall
      refl

validate_connector_session-IsAuthorized_example :
    Mem connector_row db.proxy_sessions
    × (connector_row.token_hash ≡ plain "connector")
    × (connector_row.phase ≡ connector_session_phase)
    × (connector_row.device_id ≡ 5)
    × (connector_row.consumed_at ≡ none)
    × (10 < 1000)
    × ((i : ℕ) × (s : SessionToken) × (connector_row.dashboard_session_id ≡ some i)
        × (get_session_token db i ≡ some s)
        × IsActive s 1 10)
    × (get_user db 1 ≡ some alice)
    × (get_device db 5 ≡ some firewall)
    × MayAccess db alice firewall
unfolding validate_connector_session opnsense_hub.ProxyAuth.usable_connector opnsense_hub.Base.find
    opnsense_hub.ProxyAuth.delete_expired_proxy_sessions opnsense_hub.Base.select
    opnsense_hub.ProxyAuth.require_active_dashboard_session opnsense_hub.ProxyAuth.active_session
    get_session_token opnsense_hub.ProxyAuth.require_proxy_access
    opnsense_hub.ProxyAuth.proxy_access get_user get_device opnsense_hub.Base.text_beq lower
    has_company_access opnsense_hub.Access.is_global_admin opnsense_hub.Access.has_company_role
    opnsense_hub.Access.get_company_role opnsense_hub.Access.role_rank opnsense_hub.Base.lower_char
    opnsense_hub.ProxyAuth.validate_connector_session_record
validate_connector_session-IsAuthorized_example =
    validate_connector_session-IsAuthorized plain settings 10 "connector" 5 db connector_row alice
      firewall refl

revoked_device_example :
    ((a : String)
      → (create_proxy_grant settings plain 10 50 "new" alice firewall revoked_db).0 ≢ ok a)
    × ((a : String)
        → (create_connector_session settings plain 10 50 "new" alice firewall dashboard_session
            revoked_db).0
          ≢ ok a)
    × ((a : DeviceProxySession × User × Device)
        → (validate_proxy_session settings plain 10 "new" 5 revoked_db).0 ≢ ok a)
    × ((a : DeviceProxySession × User × Device)
        → (validate_connector_session settings plain 10 "new" 5 revoked_db).0 ≢ ok a)
unfolding get_device opnsense_hub.Base.find
revoked_device_example =
    revoked_device plain settings 10 50 "new" alice firewall revoked_firewall dashboard_session
      revoked_db refl (ground arith)

require_company-outsider_example :
    require_company db alice (some (record { id = 8; name = "Other" })) viewer
    ≡ require_company db alice none viewer
require_company-outsider_example =
    require_company-outsider db alice (record { id = 8; name = "Other" }) viewer
      (apart "user" "administrator" refl) (λ e f. omega arith, tt)
