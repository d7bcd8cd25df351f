-- ===== src/ProxyAuth/Checks.antt =====
-- dashboard/app/services/proxy_auth.py: each check of a session, when it lets a request pass.
use opnsense_hub.Base.{
  ℕ, ◌<◌, ◌≡◌, ◌≢◌, true, Option, none, some, sym, ◌∙◌, refl, ok, arith, nat_eq, string_eq, text_eq,
  lower, codes, eq_iff, text_beq_iff,
}
use opnsense_hub.Models.{User, Device, SessionToken, DeviceProxySession, Db}
use opnsense_hub.Access.{has_company_access, has_company_role, get_company_role, viewer}
use opnsense_hub.ProxyAuth.{
  connector_session_phase, get_user, get_device, get_session_token, delete_expired_proxy_sessions,
  proxy_access, require_proxy_access, active_session, require_active_dashboard_session,
  usable_connector, usable_session,
}

-- What every check of a session asks of the user and the firewall of its row.
pub record MayAccess (db : Db) (user : User) (device : Device) : Type 0 where
  pub stands : device.revoked_at ≡ none
  pub not_revoked : lower device.status ≢ codes "revoked"
  pub member : has_company_access db user device.company_id viewer ≡ true

pub proxy_access-MayAccess :
    (db : Db) (u : Option User) (d : Option Device) (user : User) (device : Device)
    → proxy_access db u d ≡ ok (user, device)
    → (u ≡ some user) × (d ≡ some device) × MayAccess db user device
unfolding proxy_access
proxy_access-MayAccess db none d user device h = cc
proxy_access-MayAccess db (some u) none user device h = cc
proxy_access-MayAccess db (some u) (some d) user device h =
    ground (arith, text_beq_iff (lower d.status) (codes "revoked"))

pub usable_session-eq-ok :
    (now : ℕ) (o : Option DeviceProxySession) (r : DeviceProxySession)
    → usable_session now o ≡ ok r
    → (o ≡ some r) × (r.consumed_at ≡ none) × (now < r.expires_at)
unfolding usable_session
usable_session-eq-ok now none r h = cc
usable_session-eq-ok now (some x) r h = ground arith

pub usable_connector-eq-ok :
    (device_id now : ℕ) (o : Option DeviceProxySession) (r : DeviceProxySession)
    → usable_connector device_id now o ≡ ok r
    → (o ≡ some r)
      × (r.phase ≡ connector_session_phase)
      × (r.device_id ≡ device_id)
      × (r.consumed_at ≡ none)
      × (now < r.expires_at)
unfolding usable_connector
usable_connector-eq-ok device_id now none r h = cc
usable_connector-eq-ok device_id now (some x) r h =
    ground (arith, eq_iff x.phase connector_session_phase)

-- The dashboard session that a connector hangs on, as it has to be.
pub record IsActive (s : SessionToken) (user_id now : ℕ) : Type 0 where
  pub of_user : s.user_id ≡ user_id
  pub not_revoked : s.revoked_at ≡ none
  pub not_expired : now < s.expires_at

pub active_session-eq-ok :
    (o : Option SessionToken) (user_id now : ℕ) (s : SessionToken)
    → active_session o user_id now ≡ ok s
    → (o ≡ some s) × IsActive s user_id now
unfolding active_session
active_session-eq-ok none user_id now s h = cc
active_session-eq-ok (some x) user_id now s h = ground arith

-- The check of the user and the firewall does not depend on the sessions that are deleted.
pub proxy_access-delete_expired_proxy_sessions :
    (now : ℕ) (db : Db) (u : Option User) (d : Option Device)
    → proxy_access (delete_expired_proxy_sessions now db) u d ≡ proxy_access db u d
unfolding proxy_access has_company_access has_company_role get_company_role
    delete_expired_proxy_sessions
proxy_access-delete_expired_proxy_sessions now db none d = refl
proxy_access-delete_expired_proxy_sessions now db (some u) none = refl
proxy_access-delete_expired_proxy_sessions now db (some u) (some d) = refl

pub require_proxy_access-delete_expired_proxy_sessions :
    (now : ℕ) (db : Db) (user_id device_id : ℕ)
    → require_proxy_access (delete_expired_proxy_sessions now db) user_id device_id
      ≡ require_proxy_access db user_id device_id
unfolding require_proxy_access get_user get_device
require_proxy_access-delete_expired_proxy_sessions now db user_id device_id =
    unfold delete_expired_proxy_sessions in
    proxy_access-delete_expired_proxy_sessions now db (get_user db user_id)
      (get_device db device_id)

pub require_proxy_access-eq-ok :
    (now : ℕ) (db : Db) (user_id device_id : ℕ) (user : User) (device : Device)
    → require_proxy_access (delete_expired_proxy_sessions now db) user_id device_id
      ≡ ok (user, device)
    → (get_user db user_id ≡ some user)
      × (get_device db device_id ≡ some device)
      × MayAccess db user device
require_proxy_access-eq-ok now db user_id device_id user device h =
    proxy_access-MayAccess db (get_user db user_id) (get_device db device_id) user device (
      unfold require_proxy_access in
      sym (require_proxy_access-delete_expired_proxy_sessions now db user_id device_id) ∙ h)

pub require_active_dashboard_session-eq-ok :
    (now now' : ℕ) (db : Db) (id : Option ℕ) (user_id : ℕ) (s : SessionToken)
    → require_active_dashboard_session (delete_expired_proxy_sessions now db) id user_id now' ≡ ok s
    → (i : ℕ) × (id ≡ some i) × (get_session_token db i ≡ some s) × IsActive s user_id now'
unfolding require_active_dashboard_session get_session_token
require_active_dashboard_session-eq-ok now now' db none user_id s h =
    cc (active_session-eq-ok none user_id now' s h).0
require_active_dashboard_session-eq-ok now now' db (some i) user_id s h =
    let p =
      active_session-eq-ok (get_session_token db i) user_id now' s
        (unfold delete_expired_proxy_sessions in h) in
    (i, refl, p.0, p.1)
