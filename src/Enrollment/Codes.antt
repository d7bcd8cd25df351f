-- ===== src/Enrollment/Codes.antt =====
-- dashboard/app/routers/enrollment.py: the logged refusal, the claim of a code and its release.
use opnsense_hub.Base.{
  ℕ, Bool, ◌&&◌, not, Option, none, some, List, map, String, Result, err, http_exception, Text,
  ◌==◌, nat_eq, text_eq, find, select, length, is_some, leb, if◌then◌else◌,
}
use opnsense_hub.Models.{EnrollmentCode}
use opnsense_hub.Audit.{write_audit, same_id}
use opnsense_hub.Enrollment.Requests.{
  Platform, Settings, Request, Session, commit, rollback, change,
}

-- `_log_enrollment_failure` and the exception after it
unfoldable pub refused {ℓ} :
    {A : Type ℓ}
    → Settings
    → Request
    → (action : String) (status : ℕ) (detail : String) → Session
    → Result A × Session
refused s r action status detail session = (
  err (http_exception status detail),
  commit (
      change (λ db. (write_audit s.audit_device_view_throttle_minutes r.now action none none db).1)
        session),
)

abbrev pub is_open : (now : ℕ) → EnrollmentCode → Bool
is_open now c = not (is_some c.used_at) && not (leb c.expires_at now)

-- The first open code that the secret fits.
unfoldable pub matching_code :
    Platform → (now : ℕ) (otp : Text) → List EnrollmentCode → Option EnrollmentCode
matching_code p now otp rows =
    find (λ c. p.verify_secret otp c.code_hash) (select (is_open now) rows)

abbrev pub claimable : (id now : ℕ) → EnrollmentCode → Bool
claimable id now c = c.id == id && is_open now c

abbrev pub claim_row : (id now : ℕ) → EnrollmentCode → EnrollmentCode
claim_row id now c = if claimable id now c then record c { used_at = some now } else c

unfoldable pub claim_enrollment_code : EnrollmentCode → (now : ℕ) → Session → Bool × Session
claim_enrollment_code code now session = (
  length (select (claimable code.id now) session.working.enrollment_codes) == 1,
  change (λ db. record db { enrollment_codes = map (claim_row code.id now) db.enrollment_codes })
      session,
)

abbrev pub release_row : (id : ℕ) → EnrollmentCode → EnrollmentCode
release_row id c = if c.id == id then record c { used_at = none } else c

unfoldable pub compensate_failed_peer_add : (device_id enrollment_code_id : ℕ) → Session → Session
compensate_failed_peer_add device_id enrollment_code_id session = commit (
    change
      (λ db. record db {
        audit_logs = select (λ a. not (same_id a.device_id device_id)) db.audit_logs;
        device_events = select (λ e. not (e.device_id == device_id)) db.device_events;
        devices = select (λ d. not (d.id == device_id)) db.devices;
        enrollment_codes = map (release_row enrollment_code_id) db.enrollment_codes;
      })
      (rollback session))
