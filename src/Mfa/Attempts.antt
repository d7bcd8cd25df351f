-- ===== src/Mfa/Attempts.antt =====
-- dashboard/app/routers/auth.py: rows of requests for one pending login.
use opnsense_hub.Base.{
  ℕ, ◌+◌, ◌-◌, ◌<◌, ◌≡◌, sym, ◌∙◌, ap, String, true, Option, none, some, List, [], ◌∷◌, Result, ok,
  err, http_exception, Exception, Text, nat_eq, string_eq, text_eq, leb, arith, Bool-cases,
  Result-cases, Option-cases, inl, inr,
}
use opnsense_hub.Models.{User, PendingMfaLogin, Db}
use opnsense_hub.ProxyAuth.{get_user}
use opnsense_hub.Sessions.{create_user_session}
use opnsense_hub.Mfa.{
  Platform, Settings, Outcome, invalid_state, signed_in, Hub, local_user_supports_hub_mfa,
  consume_pending_mfa_login, find_login, pending_mfa_state_from_request, wrong_code, check_code,
  attempt, mfa_user, complete_mfa_login,
}
use opnsense_hub.Mfa.Rows.{logins-audited, find_login-consumed}

-- The same Hub with authenticators that accept every code.
abbrev pub accepting : Platform → Platform
accepting p = record p { accepts = λ user code now. true }

abbrev pub signs_in : Outcome → ℕ
signs_in (signed_in u) = 1
signs_in o = 0

module _ (p : Platform) (cookie : Option String) where
  module _ (s : Settings) where
    abbrev left : Result PendingMfaLogin → ℕ
    left (ok login) = s.rate_limit_mfa_attempts - login.failed_attempts
    left (err e) = 0

    -- The failures that the pending login of the cookie can still survive, and one.
    abbrev pub remaining : Db → ℕ
    remaining db = left (find_login p cookie db.pending_mfa_logins)

    -- A request that completes a login: its time, the values for a new session, the key of its rate
    -- limit, and its code.
    pub record Request : Type 0 where
      pub now : ℕ
      pub id : ℕ
      pub token : String
      pub key : Text
      pub code : Text

    abbrev pub complete : Request → Hub → Outcome × Hub
    complete r hub = complete_mfa_login p s r.now r.id r.token r.key cookie r.code hub

    -- Whether the Hub judges the code of a request: with an authenticator that accepts every code, the
    -- request would sign in.
    abbrev pub judged : Request → Hub → ℕ
    judged r hub =
        signs_in (complete_mfa_login (accepting p) s r.now r.id r.token r.key cookie r.code hub).0

    -- How many codes a row of requests with the same cookie gets judged.
    abbrev pub judged_codes : List Request → Hub → ℕ
    judged_codes [] hub = 0
    judged_codes (r ∷ requests) hub = judged r hub + judged_codes requests (complete r hub).1

    attempt-signed_in :
        (now id : ℕ) (token : String) (key : Text) (user : User) (login : PendingMfaLogin)
        (code : Text) (hub : Hub) (u : ℕ)
        → find_login p cookie hub.db.pending_mfa_logins ≡ ok login
        → (attempt p s now id token key user login code hub).0 ≡ signed_in u
        → (u ≡ user.id)
          × (p.accepts user code now ≡ true)
          × (login.failed_attempts < s.rate_limit_mfa_attempts)
          × (find_login p cookie
                (attempt p s now id token key user login code hub).1.db.pending_mfa_logins
              ≡ err (http_exception 401 "invalid MFA sign-in state"))
    unfolding attempt check_code wrong_code create_user_session consume_pending_mfa_login
    attempt-signed_in now id token key user login code hub u h e = ground (
      arith,
      find_login-consumed p cookie now hub.db.pending_mfa_logins login h,
      logins-audited s now "auth.login" user (
          create_user_session p.hash s.session_ttl_hours now id token user
            (consume_pending_mfa_login now login hub.db)),
    )

    mfa_user-eq-some :
        (o : Option User) (user : User)
        → mfa_user o ≡ some user
        → (o ≡ some user) × (local_user_supports_hub_mfa user ≡ true) × (user.mfa_enabled ≡ true)
    mfa_user-eq-some none user h = cc
    mfa_user-eq-some (some x) user h = ground arith

    complete-spent :
        (later : Request) (hub : Hub) (e : Exception)
        → find_login p cookie hub.db.pending_mfa_logins ≡ err e
        → (complete later hub).0 ≡ invalid_state
    unfolding complete_mfa_login pending_mfa_state_from_request
    complete-spent later hub e h = ground (arith, h)

    complete-attempt :
        (r : Request) (hub : Hub) (u : ℕ)
        → (complete r hub).0 ≡ signed_in u
        → (login : PendingMfaLogin) × (user : User) × (find_login p cookie hub.db.pending_mfa_logins
            ≡ ok login)
          × (r.now < login.expires_at)
          × (mfa_user (get_user hub.db login.user_id) ≡ some user)
          × (complete r hub ≡ attempt p s r.now r.id r.token r.key user login r.code hub)
    unfolding complete_mfa_login pending_mfa_state_from_request
    complete-attempt r hub u h =
        elim (Result-cases (find_login p cookie hub.db.pending_mfa_logins)) [
          | inl (login, e) ↦ elim (Option-cases (mfa_user (get_user hub.db login.user_id))) [
            | inl n ↦ absurd (ground (arith, e, n))
            | inr (user, m) ↦ elim (Bool-cases (leb login.expires_at r.now)) [
              | inl dead ↦ absurd (ground (arith, e, m))
              | inr live ↦ (login, user, e, ground arith, m, ground (arith, e, m))
            ]
          ]
          | inr (x, e) ↦ absurd (ground (arith, e))
        ]

    -- A request signs a user in only with a code that the user's authenticator accepts now, for a
    -- pending login of this user that is live, not consumed and below its limit of failures. The user
    -- exists, is local and has the second factor switched on. From then on every request with the same
    -- cookie is refused as invalid.
    pub complete_mfa_login-signed_in :
        (r later : Request) (hub : Hub) (u : ℕ)
        → (complete r hub).0 ≡ signed_in u
        → ((login : PendingMfaLogin) × (user : User) × (find_login p cookie
                hub.db.pending_mfa_logins
              ≡ ok login)
            × (r.now < login.expires_at)
            × (login.failed_attempts < s.rate_limit_mfa_attempts)
            × (get_user hub.db login.user_id ≡ some user)
            × (local_user_supports_hub_mfa user ≡ true)
            × (user.mfa_enabled ≡ true)
            × (u ≡ user.id)
            × (p.accepts user r.code r.now ≡ true))
          × ((complete later (complete r hub).1).0 ≡ invalid_state)
    complete_mfa_login-signed_in r later hub u h =
        let (login, user, found, live, m, same) = complete-attempt r hub u h in
        let (known, is_local, enabled) = mfa_user-eq-some (get_user hub.db login.user_id) user m in
        let (id, accepted, room, spent) =
          attempt-signed_in r.now r.id r.token r.key user login r.code hub u found
            (sym (ap (λ (x : Outcome × Hub). x.0) same) ∙ h) in
        (
          (login, user, found, live, room, known, is_local, enabled, id, accepted),
          complete-spent later (complete r hub).1 (http_exception 401 "invalid MFA sign-in state") (
              ap (λ (x : Outcome × Hub). find_login p cookie x.1.db.pending_mfa_logins) same
              ∙ spent),
        )
