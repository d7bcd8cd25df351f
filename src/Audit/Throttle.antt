-- ===== src/Audit/Throttle.antt =====
-- dashboard/app/audit.py: the throttle of `device.view` entries.
use opnsense_hub.Base.{
  ℕ, ◌+◌, ◌-◌, ◌≤◌, ◌≡◌, ◌≢◌, String, Bool, true, false, Option, none, some, List, [], ◌∷◌, ◌++◌,
  nat_eq, string_eq, any, arith, eq_iff, refl,
}
use opnsense_hub.Models.{AuditLog, Db, minutes}
use opnsense_hub.Audit.{is_recent, should_write_audit, entry, write_audit}

any-snoc :
    (p : AuditLog → Bool) (xs : List AuditLog) (x : AuditLog)
    → p x ≡ true
    → any p (xs ++ (x ∷ [])) ≡ true
unfolding any
any-snoc p [] x h = ground arith
any-snoc p (y ∷ xs) x h = ground (arith, any-snoc p xs x)

module _ (throttle : ℕ) (db : Db) where
  -- Once a view of a firewall by a user is written, a further view of it by the same user is not
  -- written until more than the throttle has passed.
  pub write_audit_throttled :
      (now later user_id device_id : ℕ) (after : Db)
      → 1 ≤ throttle
      → later ≤ now + minutes throttle
      → write_audit throttle now "device.view" (some user_id) (some device_id) db ≡ (true, after)
      → write_audit throttle later "device.view" (some user_id) (some device_id) after
        ≡ (false, after)
  unfolding write_audit should_write_audit
  write_audit_throttled now later user_id device_id after one soon h =
      let cutoff = later - minutes throttle in
      let new = entry now "device.view" (some user_id) (some device_id) in
      let recent : is_recent "device.view" user_id device_id cutoff new ≡ true = ground arith in
      let seen =
        any-snoc (is_recent "device.view" user_id device_id cutoff) db.audit_logs new recent in
      ground arith

  -- An action that is no view of a firewall is written whenever it happens.
  pub write_audit_always :
      (now : ℕ) (action : String) (user_id device_id : Option ℕ)
      → action ≢ "device.view"
      → write_audit throttle now action user_id device_id db ≡ (
        true,
        record db { audit_logs = db.audit_logs ++ (entry now action user_id device_id ∷ []) },
      )
  unfolding write_audit should_write_audit
  write_audit_always now action none device_id h = refl
  write_audit_always now action (some u) none h = refl
  write_audit_always now action (some u) (some d) h = ground (arith, eq_iff action "device.view")
