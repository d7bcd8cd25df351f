-- ===== src/ProxyAuth/Laws.antt =====
-- dashboard/app/services/proxy_auth.py: accepted tokens, and revoked firewalls.
use opnsense_hub.Base.{
  ap, Exception, Result-cases, inl, inr, ℕ, ◌<◌, String, ◌≡◌, ◌≢◌, Option, none, some, sym, ◌∙◌, ok,
  err, arith, nat_eq, string_eq, text_eq, find, find-holds, find-select-Mem, eq_iff,
}
use mathlib.Core.List.{Mem}
use mathlib.Core.Option.{some-injective}
use opnsense_hub.Models.{User, Device, SessionToken, DeviceProxySession, Db}
use opnsense_hub.ProxyAuth.{
  Settings, proxy_session_phase, connector_session_phase, is_live, get_user, get_device,
  get_session_token, delete_expired_proxy_sessions, require_proxy_access,
  require_active_dashboard_session, usable_connector, is_session_of, validate_connector_session,
  create_proxy_grant, create_connector_session, validate_proxy_session,
}
use opnsense_hub.ProxyAuth.Checks.{
  usable_session-eq-ok, usable_connector-eq-ok, require_proxy_access-eq-ok,
  require_active_dashboard_session-eq-ok, MayAccess, IsActive,
}

module _ (hash : String → String) (settings : Settings) where
  -- An accepted proxy session is a row of the table, of the token, of the session phase and of the
  -- firewall, not consumed and not expired, whose user exists and may still see the firewall, and whose firewall
  -- exists and stands.
  pub validate_proxy_session-IsAuthorized :
      (now : ℕ) (token : String) (device_id : ℕ) (db : Db) (r : DeviceProxySession) (user : User)
      (device : Device)
      → (validate_proxy_session settings hash now token device_id db).0 ≡ ok (r, user, device)
      → Mem r db.proxy_sessions
        × (r.token_hash ≡ hash token)
        × (r.phase ≡ proxy_session_phase)
        × (r.device_id ≡ device_id)
        × (r.consumed_at ≡ none)
        × (now < r.expires_at)
        × (get_user db r.user_id ≡ some user)
        × (get_device db device_id ≡ some device)
        × MayAccess db user device
  unfolding validate_proxy_session delete_expired_proxy_sessions
  validate_proxy_session-IsAuthorized now token device_id db r user device h = ground (
    arith,
    usable_session-eq-ok now
        (find (is_session_of (hash token) proxy_session_phase device_id)
          (delete_expired_proxy_sessions now db).proxy_sessions)
        r,
    find-select-Mem (is_live now) (is_session_of (hash token) proxy_session_phase device_id)
        db.proxy_sessions r,
    require_proxy_access-eq-ok now db r.user_id r.device_id user device,
    find-holds (is_session_of (hash token) proxy_session_phase device_id)
        (delete_expired_proxy_sessions now db).proxy_sessions r,
    eq_iff r.token_hash (hash token),
    eq_iff r.phase proxy_session_phase,
  )

  connector_facts :
      (now : ℕ) (token : String) (device_id : ℕ) (db : Db) (r : DeviceProxySession) (user : User)
      (device : Device)
      → (validate_connector_session settings hash now token device_id db).0 ≡ ok (r, user, device)
      → Mem r db.proxy_sessions
        × (r.token_hash ≡ hash token)
        × (usable_connector device_id now (some r) ≡ ok r)
        × (require_proxy_access (delete_expired_proxy_sessions now db) r.user_id r.device_id
            ≡ ok (user, device))
        × ((e : Exception)
            → require_active_dashboard_session
                (delete_expired_proxy_sessions now db)
                r.dashboard_session_id
                r.user_id
                now
              ≢ err e)
  unfolding validate_connector_session delete_expired_proxy_sessions
  connector_facts now token device_id db r user device h =
      let o =
        find (is_session_of (hash token) connector_session_phase device_id)
          (delete_expired_proxy_sessions now db).proxy_sessions in
      ground (
        arith,
        usable_connector-eq-ok device_id now o r,
        find-select-Mem (is_live now) (is_session_of (hash token) connector_session_phase device_id)
            db.proxy_sessions r,
        find-holds (is_session_of (hash token) connector_session_phase device_id)
            (delete_expired_proxy_sessions now db).proxy_sessions r,
        eq_iff r.token_hash (hash token),
      )

  IsActive-of_no_error :
      (now : ℕ) (db : Db) (id : Option ℕ) (user_id : ℕ)
      → ((e : Exception)
          → require_active_dashboard_session (delete_expired_proxy_sessions now db) id user_id now
            ≢ err e)
      → (i : ℕ) × (s : SessionToken) × (id ≡ some i)
        × (get_session_token db i ≡ some s)
        × IsActive s user_id now
  IsActive-of_no_error now db id user_id h =
      elim (Result-cases
        (require_active_dashboard_session (delete_expired_proxy_sessions now db) id user_id now)) [
          | inl (s, e) ↦
              let (i, p, q, a) = require_active_dashboard_session-eq-ok now now db id user_id s e in
              (i, s, p, q, a)
          | inr (x, e) ↦ absurd (h x e)
        ]

  -- An accepted connector session is a row of the table, of the token, of the connector phase and of
  -- the firewall, not consumed and not expired. It hangs on a dashboard session of the same user, which is in the
  -- database, not revoked and not expired. Its user and its firewall are as for a proxy session.
  pub validate_connector_session-IsAuthorized :
      (now : ℕ) (token : String) (device_id : ℕ) (db : Db) (r : DeviceProxySession) (user : User)
      (device : Device)
      → (validate_connector_session settings hash now token device_id db).0 ≡ ok (r, user, device)
      → Mem r db.proxy_sessions
        × (r.token_hash ≡ hash token)
        × (r.phase ≡ connector_session_phase)
        × (r.device_id ≡ device_id)
        × (r.consumed_at ≡ none)
        × (now < r.expires_at)
        × ((i : ℕ) × (s : SessionToken) × (r.dashboard_session_id ≡ some i)
            × (get_session_token db i ≡ some s)
            × IsActive s r.user_id now)
        × (get_user db r.user_id ≡ some user)
        × (get_device db device_id ≡ some device)
        × MayAccess db user device
  validate_connector_session-IsAuthorized now token device_id db r user device h =
      let (row, token_of, usable, access, active) =
        connector_facts now token device_id db r user device h in
      let (_, phase, of_device, fresh, live) =
        usable_connector-eq-ok device_id now (some r) r usable in
      let (u, d, may) =
        require_proxy_access-eq-ok now db r.user_id r.device_id user device access in
      (
        row,
        token_of,
        phase,
        of_device,
        fresh,
        live,
        IsActive-of_no_error now db r.dashboard_session_id r.user_id active,
        u,
        ap (get_device db) (sym of_device) ∙ d,
        may,
      )

  no_access :
      (now user_id : ℕ) (d : ℕ) (device : Device) (db : Db)
      → get_device db d ≡ some device
      → device.revoked_at ≢ none
      → (a : User × Device)
      → require_proxy_access (delete_expired_proxy_sessions now db) user_id d ≢ ok a
  no_access now user_id d device db found revoked (u, x) e =
      let (_, got, may) = require_proxy_access-eq-ok now db user_id d u x e in
      revoked
        (ap (λ (y : Device). y.revoked_at) (some-injective device x (sym found ∙ got)) ∙ may.stands)

  refused :
      (now user_id : ℕ) (d : ℕ) (device : Device) (db : Db)
      → get_device db d ≡ some device
      → device.revoked_at ≢ none
      → (e : Exception) × (require_proxy_access (delete_expired_proxy_sessions now db) user_id d
          ≡ err e)
  refused now user_id d device db found revoked =
      elim (Result-cases (require_proxy_access (delete_expired_proxy_sessions now db) user_id d)) [
        | inl (a, p) ↦ absurd (no_access now user_id d device db found revoked a p)
        | inr r ↦ r
      ]

  -- A firewall that was revoked is reached by nobody: from then on no grant and no connector session
  -- is created for it, and no token, whatever it is, is accepted for it.
  pub revoked_device :
      (now id : ℕ) (token : String) (u : User) (d device : Device) (s : SessionToken) (db : Db)
      → get_device db d.id ≡ some device
      → device.revoked_at ≢ none
      → ((a : String) → (create_proxy_grant settings hash now id token u d db).0 ≢ ok a)
        × ((a : String) → (create_connector_session settings hash now id token u d s db).0 ≢ ok a)
        × ((a : DeviceProxySession × User × Device)
            → (validate_proxy_session settings hash now token d.id db).0 ≢ ok a)
        × ((a : DeviceProxySession × User × Device)
            → (validate_connector_session settings hash now token d.id db).0 ≢ ok a)
  unfolding create_proxy_grant create_connector_session
  revoked_device now id token u d device s db found revoked = (
    λ a e. let (x, p) = refused now u.id d.id device db found revoked in ground arith,
    λ a e. let (x, p) = refused now u.id d.id device db found revoked in ground arith,
    λ (r, x, y) e.
        let p = validate_proxy_session-IsAuthorized now token d.id db r x y e in ground arith,
    λ (r, x, y) e.
        let p = validate_connector_session-IsAuthorized now token d.id db r x y e in ground arith,
  )
