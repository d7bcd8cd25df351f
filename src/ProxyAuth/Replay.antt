-- ===== src/ProxyAuth/Replay.antt =====
-- dashboard/app/services/proxy_auth.py: a grant through rows of calls of the service.
use opnsense_hub.Base.{
  ℕ, String, ◌≡◌, ◌≢◌, true, Option, List, [], ◌∷◌, map, ok, err, Result-cases, http_exception,
  arith, All, All-select, All-snoc, nat_eq, string_eq, find, eq_iff, inl, inr,
}
use opnsense_hub.Base.Actions.{
  modify, Keeps, Keeps-modify, Keeps-bind, Keeps-pure, Keeps-lift, Keeps-gets,
}
use opnsense_hub.Models.{User, Device, SessionToken, DeviceProxySession, Db}
use opnsense_hub.ProxyAuth.{
  Settings, is_live, delete_expired_proxy_sessions, require_proxy_access, usable_grant, add_session,
  consume, has_hash, exchange_proxy_grant, new_session, create_proxy_grant,
  create_connector_session, validate_connector_session_record, validate_proxy_session,
  validate_connector_session,
}
use opnsense_hub.ProxyAuth.Spent.{
  is_spent, IsSpent, HasUniqueHashes, HasUniqueHashes-select, consume_found, usable_grant-IsSpent,
  usable_grant-eq-ok,
}

-- The calls of the service that write to the table, or read it.
pub data Call : Type 0 where
  grant : (now id : ℕ) (token : String) → User → Device → Call
  connector : (now id : ℕ) (token : String) → User → Device → SessionToken → Call
  exchange : (now id : ℕ) (session_token grant_token : String) → Call
  check_proxy : (now : ℕ) (token : String) (device_id : ℕ) → Call
  check_connector : (now : ℕ) (token : String) (device_id : ℕ) → Call

module _ (settings : Settings) (hash : String → String) where
  -- The database after a call, whether it returned or raised.
  unfoldable pub perform : Call → Db → Db
  perform (grant now id token u d) db = (create_proxy_grant settings hash now id token u d db).1
  perform (connector now id token u d s) db =
      (create_connector_session settings hash now id token u d s db).1
  perform (exchange now id t g) db = (exchange_proxy_grant settings hash now id t g db).1
  perform (check_proxy now t d) db = (validate_proxy_session settings hash now t d db).1
  perform (check_connector now t d) db = (validate_connector_session settings hash now t d db).1

  unfoldable pub perform_all : List Call → Db → Db
  perform_all [] db = db
  perform_all (c ∷ calls) db = perform_all calls (perform c db)

  -- No call makes a new token of the hash `h`.
  abbrev pub MakesOther : String → Call → Type 0
  MakesOther h (grant now id token u d) = hash token ≢ h
  MakesOther h (connector now id token u d s) = hash token ≢ h
  MakesOther h (exchange now id t g) = hash t ≢ h
  MakesOther h (check_proxy now t d) = Unit
  MakesOther h (check_connector now t d) = Unit

  module _ (h : String) where
    IsSpent-delete :
        (now : ℕ) (db : Db) → IsSpent h db → IsSpent h (delete_expired_proxy_sessions now db)
    unfolding delete_expired_proxy_sessions
    IsSpent-delete now db s =
        All-select (λ r. is_spent h r ≡ true) (is_live now) db.proxy_sessions s

    delete-Keeps : (now : ℕ) → Keeps (IsSpent h) (modify (delete_expired_proxy_sessions now))
    delete-Keeps now = Keeps-modify _ (IsSpent-delete now)

    add-Keeps :
        (r : DeviceProxySession) → is_spent h r ≡ true → Keeps (IsSpent h) (modify (add_session r))
    add-Keeps r p =
        Keeps-modify _ λ db s. All-snoc (λ r. is_spent h r ≡ true) db.proxy_sessions r s p

    map-consume-spent :
        (now id : ℕ) (rs : List DeviceProxySession)
        → All (λ r. is_spent h r ≡ true) rs
        → All (λ r. is_spent h r ≡ true) (map (consume now id) rs)
    map-consume-spent now id [] s = tt
    map-consume-spent now id (r ∷ rs) s = (ground arith, map-consume-spent now id rs s.1)

    consume-Keeps :
        (now id : ℕ)
        → Keeps (IsSpent h) (
            modify
              (λ (db : Db). record db { proxy_sessions = map (consume now id) db.proxy_sessions }))
    consume-Keeps now id = Keeps-modify _ λ db s. map-consume-spent now id db.proxy_sessions s

    -- A row of another hash is spent for `h`.
    spent_of_ne : (r : DeviceProxySession) → r.token_hash ≢ h → is_spent h r ≡ true
    spent_of_ne r n = ground (arith, eq_iff r.token_hash h)

    ruleset spent_rules = (
      Keeps-bind, Keeps-pure, Keeps-lift, Keeps-gets, delete-Keeps, add-Keeps, consume-Keeps,
      spent_of_ne,
    )

    validate_connector_session_record-Keeps :
        (found : Option DeviceProxySession) (device_id now : ℕ)
        → Keeps (IsSpent h) (validate_connector_session_record found device_id now)
    unfolding validate_connector_session_record
    validate_connector_session_record-Keeps found device_id now = search spent_rules depth 12

    create_proxy_grant-Keeps :
        (now id : ℕ) (token : String) (u : User) (d : Device)
        → hash token ≢ h
        → Keeps (IsSpent h) (create_proxy_grant settings hash now id token u d)
    unfolding create_proxy_grant
    create_proxy_grant-Keeps now id token u d m = search spent_rules depth 12

    create_connector_session-Keeps :
        (now id : ℕ) (token : String) (u : User) (d : Device) (s : SessionToken)
        → hash token ≢ h
        → Keeps (IsSpent h) (create_connector_session settings hash now id token u d s)
    unfolding create_connector_session
    create_connector_session-Keeps now id token u d s m = search spent_rules depth 12

    exchange_proxy_grant-Keeps :
        (now id : ℕ) (t g : String)
        → hash t ≢ h
        → Keeps (IsSpent h) (exchange_proxy_grant settings hash now id t g)
    unfolding exchange_proxy_grant
    exchange_proxy_grant-Keeps now id t g m = search spent_rules depth 12

    validate_proxy_session-Keeps :
        (now : ℕ) (t : String) (d : ℕ)
        → Keeps (IsSpent h) (validate_proxy_session settings hash now t d)
    unfolding validate_proxy_session
    validate_proxy_session-Keeps now t d = search spent_rules depth 12

    validate_connector_session-Keeps :
        (now : ℕ) (t : String) (d : ℕ)
        → Keeps (IsSpent h) (validate_connector_session settings hash now t d)
    unfolding validate_connector_session
    validate_connector_session-Keeps now t d =
        search (spent_rules, validate_connector_session_record-Keeps) depth 12

    perform-IsSpent :
        (c : Call) (db : Db) → MakesOther h c → IsSpent h db → IsSpent h (perform c db)
    unfolding perform
    perform-IsSpent (grant now id token u d) db m s =
        (create_proxy_grant-Keeps now id token u d m).at db s
    perform-IsSpent (connector now id token u d t) db m s =
        (create_connector_session-Keeps now id token u d t m).at db s
    perform-IsSpent (exchange now id t g) db m s = (exchange_proxy_grant-Keeps now id t g m).at db s
    perform-IsSpent (check_proxy now t d) db m s = (validate_proxy_session-Keeps now t d).at db s
    perform-IsSpent (check_connector now t d) db m s =
        (validate_connector_session-Keeps now t d).at db s

    perform_all-IsSpent :
        (calls : List Call) (db : Db)
        → All (MakesOther h) calls
        → IsSpent h db
        → IsSpent h (perform_all calls db)
    unfolding perform_all
    perform_all-IsSpent [] db m s = s
    perform_all-IsSpent (c ∷ calls) db m s =
        perform_all-IsSpent calls (perform c db) m.1 (perform-IsSpent c db m.0 s)

  -- A successful exchange leaves the grant spent.
  exchange_proxy_grant-IsSpent :
      (now id : ℕ) (t g : String) (db : Db) (a : String × DeviceProxySession)
      → HasUniqueHashes db.proxy_sessions
      → hash t ≢ hash g
      → (exchange_proxy_grant settings hash now id t g db).0 ≡ ok a
      → IsSpent (hash g) (exchange_proxy_grant settings hash now id t g db).1
  unfolding exchange_proxy_grant
  exchange_proxy_grant-IsSpent now id t g db a u n e =
      let db' = delete_expired_proxy_sessions now db in
      elim (Result-cases (usable_grant now (find (has_hash (hash g)) db'.proxy_sessions))) [
        | inl (gr, p) ↦ elim (Result-cases (require_proxy_access db' gr.user_id gr.device_id)) [
          | inl (x, q) ↦
              rw (p, q)
                (All-snoc (λ r. is_spent (hash g) r ≡ true)
                  (map (consume now gr.id) db'.proxy_sessions)
                  (new_session settings hash now id t gr)
                  (consume_found now (hash g) gr db'.proxy_sessions
                    (unfold delete_expired_proxy_sessions in
                      HasUniqueHashes-select (is_live now) db.proxy_sessions u)
                    (usable_grant-eq-ok now _ gr p))
                  (spent_of_ne (hash g) (new_session settings hash now id t gr) n))
          | inr (x, q) ↦ absurd (ground arith)
        ]
        | inr (x, p) ↦ absurd (ground arith)
      ]

  exchange-IsSpent :
      (now id : ℕ) (t g : String) (db : Db)
      → IsSpent (hash g) db
      → (exchange_proxy_grant settings hash now id t g db).0
        ≡ err (http_exception 401 "invalid or expired proxy grant")
  unfolding exchange_proxy_grant
  exchange-IsSpent now id t g db s = rw (
      usable_grant-IsSpent now (hash g) (delete_expired_proxy_sessions now db).proxy_sessions
        (IsSpent-delete (hash g) now db s))

  -- A grant is exchanged once: when its exchange has succeeded, then after any further calls whose
  -- new tokens have other hashes, at any time, the exchange of the same token is refused with 401.
  pub exchange_once :
      (now id : ℕ) (t g : String) (db : Db) (a : String × DeviceProxySession) (calls : List Call)
      (later id' : ℕ) (t' : String)
      → HasUniqueHashes db.proxy_sessions
      → hash t ≢ hash g
      → (exchange_proxy_grant settings hash now id t g db).0 ≡ ok a
      → All (MakesOther (hash g)) calls
      → (exchange_proxy_grant settings hash later id' t' g
          (perform_all calls (exchange_proxy_grant settings hash now id t g db).1)).0
        ≡ err (http_exception 401 "invalid or expired proxy grant")
  exchange_once now id t g db a calls later id' t' u n e m =
      exchange-IsSpent later id' t' g _ (
        perform_all-IsSpent (hash g) calls _ m (exchange_proxy_grant-IsSpent now id t g db a u n e))
