-- ===== src/Audit.antt =====
-- dashboard/app/audit.py: the entries of the audit log. The address and the agent of the request are
-- not modelled.
pub mod Throttle
use opnsense_hub.Base.{
  ℕ, ◌-◌, String, Bool, true, false, ◌&&◌, ◌||◌, not, Option, none, some, List, [], ◌∷◌, ◌++◌, ◌==◌,
  nat_eq, string_eq, any, leb, if◌then◌else◌,
}
use opnsense_hub.Models.{AuditLog, Db, minutes}

abbrev pub same_id : Option ℕ → ℕ → Bool
same_id none b = false
same_id (some a) b = a == b

-- The filter of the query for a recent entry. The cutoff is a time after the first one that `datetime`
-- knows.
abbrev pub is_recent : String → ℕ → ℕ → ℕ → AuditLog → Bool
is_recent action user_id device_id cutoff entry =
    entry.action == action
    && same_id entry.user_id user_id
    && same_id entry.device_id device_id
    && leb cutoff entry.created_at

-- `throttle` is `settings.audit_device_view_throttle_minutes`.
unfoldable pub should_write_audit : (throttle now : ℕ) → Db → String → Option ℕ → Option ℕ → Bool
should_write_audit throttle now db action none device_id = true
should_write_audit throttle now db action (some user_id) none = true
should_write_audit throttle now db action (some user_id) (some device_id) =
    if not (action == "device.view") || leb throttle 0
    then true
    else not (any (is_recent action user_id device_id (now - minutes throttle)) db.audit_logs)

abbrev pub entry : (now : ℕ) → String → Option ℕ → Option ℕ → AuditLog
entry now action user_id device_id = record {
  user_id = user_id;
  device_id = device_id;
  action = action;
  created_at = now;
}

unfoldable pub write_audit : (throttle now : ℕ) → String → Option ℕ → Option ℕ → Db → Bool × Db
write_audit throttle now action user_id device_id db =
    if not (should_write_audit throttle now db action user_id device_id) then (false, db) else (
      true,
      record db { audit_logs = db.audit_logs ++ (entry now action user_id device_id ∷ []) },
    )
