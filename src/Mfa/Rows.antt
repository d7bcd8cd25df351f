-- ===== src/Mfa/Rows.antt =====
-- dashboard/app/services/mfa_service.py: the row of a pending login, found again after a change.
use opnsense_hub.Base.{
  ℕ, ◌≡◌, refl, String, Option, none, some, List, [], ◌∷◌, map, ok, err, http_exception, nat_eq,
  string_eq, text_eq, find, >>=-eq-ok, arith,
}
use opnsense_hub.Models.{User, PendingMfaLogin, Db}
use opnsense_hub.Audit.{write_audit}
use opnsense_hub.Mfa.{
  Platform, Settings, read_cookie, has_nonce, usable_login, find_login, audited, change_row,
  consumed, failed,
}

-- Entries of the audit log change no pending login.
pub logins-audited :
    (s : Settings) (now : ℕ) (action : String) (user : User) (db : Db)
    → (audited s now action user db).pending_mfa_logins ≡ db.pending_mfa_logins
unfolding write_audit
logins-audited s now action user db = ground arith

pub usable_login-eq-ok :
    (user_id : ℕ) (o : Option PendingMfaLogin) (login : PendingMfaLogin)
    → usable_login user_id o ≡ ok login
    → (o ≡ some login) × (login.user_id ≡ user_id) × (login.consumed_at ≡ none)
unfolding usable_login
usable_login-eq-ok user_id none login h = cc
usable_login-eq-ok user_id (some l) login h = ground arith

abbrev pub map_option :
    (PendingMfaLogin → PendingMfaLogin) → Option PendingMfaLogin → Option PendingMfaLogin
map_option f none = none
map_option f (some l) = some (f l)

pub find-change_row :
    (f : PendingMfaLogin → PendingMfaLogin) (id : ℕ) (h : String) (logins : List PendingMfaLogin)
    → ((l : PendingMfaLogin) → (f l).nonce_hash ≡ l.nonce_hash)
    → find (has_nonce h) (map (change_row f id) logins)
      ≡ map_option (change_row f id) (find (has_nonce h) logins)
unfolding find
find-change_row f id h [] keeps = refl
find-change_row f id h (l ∷ logins) keeps = ground (arith, find-change_row f id h logins, keeps l)

module _ (p : Platform) (cookie : Option String) where
  pub find_login-row :
      (logins : List PendingMfaLogin) (login : PendingMfaLogin)
      → find_login p cookie logins ≡ ok login
      → (user_id : ℕ) × (nonce : String) × (read_cookie p cookie ≡ ok (user_id, nonce))
        × (find (has_nonce (p.hash nonce)) logins ≡ some login)
        × (login.user_id ≡ user_id)
        × (login.consumed_at ≡ none)
  unfolding find_login
  find_login-row logins login h =
      let ((user_id, nonce), e, u) = >>=-eq-ok (read_cookie p cookie) _ h in
      let (a, b, c) = usable_login-eq-ok user_id (find (has_nonce (p.hash nonce)) logins) login u in
      (user_id, nonce, e, a, b, c)

  pub find_login-failed :
      (logins : List PendingMfaLogin) (login : PendingMfaLogin)
      → find_login p cookie logins ≡ ok login
      → find_login p cookie (map (change_row failed login.id) logins) ≡ ok (failed login)
  unfolding find_login usable_login
  find_login-failed logins login h =
      let (user_id, nonce, e, row, same, fresh) =
        find_login-row logins login (unfold find_login usable_login in h) in
      let moved = find-change_row failed login.id (p.hash nonce) logins (λ l. refl) in
      ground (arith, moved)

  pub find_login-consumed :
      (now : ℕ) (logins : List PendingMfaLogin) (login : PendingMfaLogin)
      → find_login p cookie logins ≡ ok login
      → find_login p cookie (map (change_row (consumed now) login.id) logins)
        ≡ err (http_exception 401 "invalid MFA sign-in state")
  unfolding find_login usable_login
  find_login-consumed now logins login h =
      let (user_id, nonce, e, row, same, fresh) =
        find_login-row logins login (unfold find_login usable_login in h) in
      let moved = find-change_row (consumed now) login.id (p.hash nonce) logins (λ l. refl) in
      ground (arith, moved)
