-- ===== src/Sessions/Authentic.antt =====
-- dashboard/app/services/auth_service.py and device_tokens.py: the life of a session and of a device token.
use opnsense_hub.Base.{
  find-snoc_none, ℕ, ◌+◌, ◌-◌, Bool-cases, Option-cases, inl, inr, sym, ◌∙◌, ◌≤◌, ◌<◌, ◌≡◌, ◌≢◌,
  refl, String, Bool, true, false, Option, none, some, List, [], ◌∷◌, map, ok, err, http_exception,
  Text, codes, ◌==◌, nat_eq, string_eq, text_eq, eq_iff, find, find-holds, select, ltb, strip,
  starts_with, >>=-eq-ok, if◌then◌else◌, arith,
}
use opnsense_hub.Models.{User, SessionToken, Device, Db, hours, days}
use opnsense_hub.ProxyAuth.{get_user, get_device}
use opnsense_hub.Sessions.{
  create_user_session, has_token, usable_token, session_from_request, current_user, user_or_raise,
  revoke, revoke_session_token, is_other_user, revoke_all_user_sessions, device_token_is_expired,
  device_token_rotation_due, issue_device_token, checked_device, device_from_token, drop,
}

module _ (hash : String → String) where
  usable_token-eq-ok :
      (now : ℕ) (o : Option SessionToken) (s : SessionToken)
      → usable_token now o ≡ ok s
      → (o ≡ some s) × (s.revoked_at ≡ none) × (now < s.expires_at)
  unfolding usable_token
  usable_token-eq-ok now none s h = cc
  usable_token-eq-ok now (some x) s h = ground arith

  -- A new session signs its user in, with a token that is new and not empty, from its creation until
  -- just before its lifetime has passed, and from then on it is refused.
  pub session_lifetime :
      (ttl now id later : ℕ) (token : String) (user : User) (db : Db)
      → token ≢ ""
      → find (has_token (hash token)) db.session_tokens ≡ none
      → get_user db user.id ≡ some user
      → current_user hash later (some token) (create_user_session hash ttl now id token user db)
        ≡ (if ltb later (now + hours ttl) then ok user else err (http_exception 401 "Unauthorized"))
  unfolding current_user session_from_request create_user_session usable_token get_user
  session_lifetime ttl now id later token user db some_token new known =
      let row : SessionToken = record {
        id = id;
        user_id = user.id;
        token_hash = hash token;
        created_at = now;
        expires_at = now + hours ttl;
        revoked_at = none;
      } in
      let found =
        find-snoc_none (has_token (hash token)) row db.session_tokens new
          ((eq_iff (hash token) (hash token)).1 refl) in
      ground (arith, found, eq_iff token "")

  abbrev map_option_revoke : (now id : ℕ) → Option SessionToken → Option SessionToken
  map_option_revoke now id none = none
  map_option_revoke now id (some s) = some (revoke now id s)

  find-revoke :
      (now id : ℕ) (h : String) (xs : List SessionToken)
      → find (has_token h) (map (revoke now id) xs)
        ≡ map_option_revoke now id (find (has_token h) xs)
  unfolding find
  find-revoke now id h [] = refl
  find-revoke now id h (x ∷ xs) = ground (arith, find-revoke now id h xs)

  find-other_user :
      (user_id : ℕ) (h : String) (xs : List SessionToken) (s : SessionToken)
      → find (has_token h) (select (is_other_user user_id) xs) ≡ some s
      → s.user_id ≢ user_id
  unfolding find select
  find-other_user user_id h [] s e = ground arith
  find-other_user user_id h (x ∷ xs) s e = ground (arith, find-other_user user_id h xs s)

  session_from_request-eq-ok :
      (now : ℕ) (cookie : Option String) (db : Db) (s : SessionToken)
      → session_from_request hash now cookie db ≡ ok s
      → (token : String) × (cookie ≡ some token)
        × (find (has_token (hash token)) db.session_tokens ≡ some s)
        × (s.token_hash ≡ hash token)
        × (s.revoked_at ≡ none)
        × (now < s.expires_at)
  unfolding session_from_request
  session_from_request-eq-ok now none db s h = cc
  session_from_request-eq-ok now (some token) db s h =
      let o = find (has_token (hash token)) db.session_tokens in
      let u : usable_token now o ≡ ok s = ground arith in
      let (found, live, fresh) = usable_token-eq-ok now o s u in
      (
        token,
        refl,
        found,
        (eq_iff s.token_hash (hash token)).0
            (find-holds (has_token (hash token)) db.session_tokens s found),
        live,
        fresh,
      )

  -- Once a session that a cookie stands for is revoked, the cookie is refused for ever.
  pub revoke_session_token_final :
      (now revoked_at later : ℕ) (cookie : Option String) (db : Db) (s : SessionToken)
      → session_from_request hash now cookie db ≡ ok s
      → session_from_request hash later cookie (revoke_session_token revoked_at s db)
        ≡ err (http_exception 401 "Unauthorized")
  unfolding session_from_request revoke_session_token usable_token
  revoke_session_token_final now revoked_at later none db s h = refl
  revoke_session_token_final now revoked_at later (some token) db s h =
      let o = find (has_token (hash token)) db.session_tokens in
      let u : usable_token now o ≡ ok s = ground arith in
      let (found, _, _) = usable_token-eq-ok now o s u in
      ground (arith, found, find-revoke revoked_at s.id (hash token) db.session_tokens)

  user_or_raise-id :
      (id : ℕ) (db : Db) (user : User) → user_or_raise (get_user db id) ≡ ok user → user.id ≡ id
  unfolding get_user
  user_or_raise-id id db user h = elim (Option-cases (find (λ (u : User). u.id == id) db.users)) [
    | inl e ↦ ground arith
    | inr (u, e) ↦ ground (arith, find-holds (λ (u : User). u.id == id) db.users u)
  ]

  -- Once all sessions of a user are revoked, no cookie signs that user in.
  pub revoke_all_user_sessions_final :
      (user_id later : ℕ) (cookie : Option String) (db : Db) (user : User)
      → current_user hash later cookie (revoke_all_user_sessions user_id db) ≡ ok user
      → user.id ≢ user_id
  unfolding current_user
  revoke_all_user_sessions_final user_id later cookie db user h =
      let (s, session, found) =
        >>=-eq-ok (session_from_request hash later cookie (revoke_all_user_sessions user_id db)) _
          h in
      let (token, _, row, _, _, _) =
        session_from_request-eq-ok later cookie (revoke_all_user_sessions user_id db) s session in
      let other =
        find-other_user user_id (hash token) db.session_tokens s
          (unfold revoke_all_user_sessions in row) in
      let same : user.id ≡ s.user_id =
        user_or_raise-id s.user_id (revoke_all_user_sessions user_id db) user found in
      λ e. other (sym same ∙ e)

checked_device-eq-ok :
    (verify : Text → String → Bool) (now : ℕ) (token : Text) (o : Option Device) (device : Device)
    → checked_device verify now token o ≡ ok device
    → (o ≡ some device)
      × (device.revoked_at ≡ none)
      × (verify token device.device_token_hash ≡ true)
      × (device_token_is_expired now device ≡ false)
unfolding checked_device
checked_device-eq-ok verify now token none device h = cc
checked_device-eq-ok verify now token (some x) device h = ground arith

module _ (verify : Text → String → Bool) where
  -- An accepted device token came in a `Bearer` header, verifies against the stored hash of the
  -- firewall it names, and is not expired. The firewall is in the database and not revoked.
  pub device_from_token-IsAuthentic :
      (now device_id : ℕ) (authorization : Option Text) (db : Db) (device : Device)
      → device_from_token verify now device_id authorization db ≡ ok device
      → (header : Text) × (authorization ≡ some header)
        × (starts_with header (codes "Bearer ") ≡ true)
        × (get_device db device_id ≡ some device)
        × (device.revoked_at ≡ none)
        × (verify (strip (drop 7 header)) device.device_token_hash ≡ true)
        × (device_token_is_expired now device ≡ false)
  unfolding device_from_token
  device_from_token-IsAuthentic now device_id none db device h = cc
  device_from_token-IsAuthentic now device_id (some header) db device h =
      elim (Bool-cases (starts_with header (codes "Bearer "))) [
        | inl e ↦
            let (a, b, c, d) =
              checked_device-eq-ok verify now (strip (drop 7 header)) (get_device db device_id)
                device (ground arith) in
            (header, refl, e, a, b, c, d)
        | inr e ↦ absurd (ground arith)
      ]

-- Where the rotation window is at most the lifetime of a token, an issued token is due for rotation and
-- still accepted during the whole window before its end.
pub issue_device_token_rotation :
    (ttl_days window now t : ℕ) (encoded : String) (device : Device)
    → window ≤ ttl_days
    → now + days (ttl_days - window) ≤ t
    → t < now + days ttl_days
    → (device_token_rotation_due window t (issue_device_token ttl_days now encoded device) ≡ true)
      × (device_token_is_expired t (issue_device_token ttl_days now encoded device) ≡ false)
unfolding device_token_rotation_due device_token_is_expired issue_device_token
issue_device_token_rotation ttl_days window now t encoded device h due live =
    (ground arith, ground arith)
