-- ===== src/Notifications/Repeats.antt =====
-- dashboard/app/services/notification_service.py: how often a mail repeats over a row of checks.
use opnsense_hub.Base.{
  ℕ, ◌+◌, ◌≤◌, ◌<◌, ◌≡◌, refl, Bool, true, false, ◌||◌, not, none, some, List, [], ◌∷◌, ◌++◌,
  text_eq, is_some, if◌then◌else◌, arith, All, length, Option-cases, inl, inr,
}
use opnsense_hub.Notifications.{
  WatchedDevice, Mail, backup_mail, license_mail, Event, sent, clean_optional,
  maintenance_window_active, device_rule_recipient, send_device_rule_notification, is_stale,
  backup_rule, license_rule, firmware_rule, Check, maybe_send_phase2_device_notifications,
}

abbrev pub is_backup : Event → ℕ
is_backup (sent backup_mail) = 1
is_backup e = 0

abbrev pub is_license : Event → ℕ
is_license (sent license_mail) = 1
is_license e = 0

abbrev pub count : (Event → ℕ) → List Event → ℕ
count f [] = 0
count f (e ∷ events) = f e + count f events

count-append : (f : Event → ℕ) (xs ys : List Event) → count f (xs ++ ys) ≡ count f xs + count f ys
count-append f [] ys = omega arith
count-append f (x ∷ xs) ys = omega (arith, count-append f xs ys)

-- Checks in their order, and the mails of a kind that they send.
abbrev pub total : (Event → ℕ) → List Check → WatchedDevice → ℕ
total f [] d = 0
total f (c ∷ checks) d =
    let (d', events) = maybe_send_phase2_device_notifications c d in
    count f events + total f checks d'

abbrev unsent : WatchedDevice → ℕ
unsent d = if is_some d.backup_overdue_notified_at then 0 else 1

license_rule-backup :
    (delivered : Mail → Bool) (now : ℕ) (b : Bool) (d : WatchedDevice)
    → ((license_rule delivered now b d).0.backup_overdue_notified_at ≡ d.backup_overdue_notified_at)
      × (count is_backup (license_rule delivered now b d).1 ≡ 0)
unfolding license_rule send_device_rule_notification
license_rule-backup delivered now true d = ground arith
license_rule-backup delivered now false d = (refl, refl)

firmware_rule-backup :
    (delivered : Mail → Bool) (now : ℕ) (b : Bool) (d : WatchedDevice)
    → ((firmware_rule delivered now b d).0.backup_overdue_notified_at
        ≡ d.backup_overdue_notified_at)
      × (count is_backup (firmware_rule delivered now b d).1 ≡ 0)
unfolding firmware_rule send_device_rule_notification
firmware_rule-backup delivered now true d = ground arith
firmware_rule-backup delivered now false d = (refl, refl)

backup_rule-unsent :
    (delivered : Mail → Bool) (now : ℕ) (d : WatchedDevice)
    → count is_backup (backup_rule delivered now true d).1
        + unsent (backup_rule delivered now true d).0
      ≤ unsent d
unfolding backup_rule send_device_rule_notification
backup_rule-unsent delivered now d = ground arith

phase2-unsent :
    (c : Check) (d : WatchedDevice)
    → c.backup_overdue ≡ true
    → count is_backup (maybe_send_phase2_device_notifications c d).1
        + unsent (maybe_send_phase2_device_notifications c d).0
      ≤ unsent d
unfolding maybe_send_phase2_device_notifications
phase2-unsent c d h =
    let (d1, e1) = backup_rule c.delivered c.now c.backup_overdue d in
    let (d2, e2) = license_rule c.delivered c.now c.license_expiring d1 in
    let (d3, e3) = firmware_rule c.delivered c.now c.firmware_available d2 in
    ground (
      arith,
      h,
      backup_rule-unsent c.delivered c.now d,
      license_rule-backup c.delivered c.now c.license_expiring d1,
      firmware_rule-backup c.delivered c.now c.firmware_available d2,
      count-append is_backup (e1 ++ e2) e3,
      count-append is_backup e1 e2,
    )

total-unsent :
    (checks : List Check) (d : WatchedDevice)
    → All (λ (c : Check). c.backup_overdue ≡ true) checks
    → total is_backup checks d ≤ unsent d
total-unsent [] d h = omega arith
total-unsent (c ∷ checks) d (h, rest) = omega (
  arith,
  phase2-unsent c d h,
  total-unsent checks (maybe_send_phase2_device_notifications c d).0 rest,
)

-- While the backup of a firewall stays overdue, at most one mail says so, however many checks find it,
-- and whatever else they find and deliver.
pub backup_overdue_once :
    (checks : List Check) (d : WatchedDevice)
    → All (λ (c : Check). c.backup_overdue ≡ true) checks
    → total is_backup checks d ≤ 1
backup_overdue_once checks d h = elim (Option-cases d.backup_overdue_notified_at) [
  | inl e ↦ ground (arith, e, total-unsent checks d h)
  | inr (t, e) ↦ ground (arith, e, total-unsent checks d h)
]

-- A firewall whose alerts on its license are on and can be sent, whose license ends at a time, and which
-- was not told of it or was told before that time.
pub record IsTold (until : ℕ) (d : WatchedDevice) : Type 0 where
  pub stands : d.revoked_at ≡ none
  pub no_maintenance : d.maintenance_until ≡ none
  pub enabled : d.email_notifications_enabled ≡ true
  pub recipient : is_some (clean_optional d.email_notification_recipient) ≡ true
  pub rule : d.email_notify_on_license_expiring ≡ true
  pub expires : d.license_expires_at ≡ some until
  pub told : is_stale d.license_expiring_notified_at (some until) ≡ true

-- A check before the end of the license, with its mails configured and delivered.
pub record IsExpiring (until : ℕ) (c : Check) : Type 0 where
  pub expiring : c.license_expiring ≡ true
  pub before : c.now < until
  pub configured : c.configured ≡ true
  pub delivered : c.delivered license_mail ≡ true

module _ (until : ℕ) where
  backup_rule-IsTold :
      (delivered : Mail → Bool) (now : ℕ) (b : Bool) (d : WatchedDevice)
      → IsTold until d
      → IsTold until (backup_rule delivered now b d).0
        × (count is_license (backup_rule delivered now b d).1 ≡ 0)
  unfolding backup_rule send_device_rule_notification
  backup_rule-IsTold delivered now true d h = ground arith
  backup_rule-IsTold delivered now false d h = ground arith

  license_rule-IsTold :
      (delivered : Mail → Bool) (now : ℕ) (d : WatchedDevice)
      → IsTold until d
      → now < until
      → delivered license_mail ≡ true
      → IsTold until (license_rule delivered now true d).0
        × (count is_license (license_rule delivered now true d).1 ≡ 1)
  unfolding license_rule send_device_rule_notification
  license_rule-IsTold delivered now d h before done = ground arith

  firmware_rule-IsTold :
      (delivered : Mail → Bool) (now : ℕ) (b : Bool) (d : WatchedDevice)
      → IsTold until d
      → IsTold until (firmware_rule delivered now b d).0
        × (count is_license (firmware_rule delivered now b d).1 ≡ 0)
  unfolding firmware_rule send_device_rule_notification
  firmware_rule-IsTold delivered now true d h = ground arith
  firmware_rule-IsTold delivered now false d h = ground arith

  passes :
      (c : Check) (d : WatchedDevice)
      → IsTold until d
      → c.configured ≡ true
      → is_some d.revoked_at
          || maintenance_window_active c.now d
          || not (is_some (device_rule_recipient c.configured d))
        ≡ false
  unfolding maintenance_window_active device_rule_recipient
  passes c d h e = ground arith

  phase2-IsTold :
      (c : Check) (d : WatchedDevice)
      → IsTold until d
      → IsExpiring until c
      → IsTold until (maybe_send_phase2_device_notifications c d).0
        × (count is_license (maybe_send_phase2_device_notifications c d).1 ≡ 1)
  unfolding maybe_send_phase2_device_notifications
  phase2-IsTold c d h e =
      let guard = passes c d h e.configured in
      let (d1, e1) = backup_rule c.delivered c.now c.backup_overdue d in
      let (d2, e2) = license_rule c.delivered c.now true d1 in
      let (d3, e3) = firmware_rule c.delivered c.now c.firmware_available d2 in
      let (told1, none1) = backup_rule-IsTold c.delivered c.now c.backup_overdue d h in
      let (told2, one2) = license_rule-IsTold c.delivered c.now d1 told1 e.before e.delivered in
      let (told3, none3) = firmware_rule-IsTold c.delivered c.now c.firmware_available d2 told2 in
      rw (guard, e.expiring)
        (
          told3,
          omega (
            arith,
            none1,
            one2,
            none3,
            count-append is_license (e1 ++ e2) e3,
            count-append is_license e1 e2,
          ),
        )

  -- While the license of a firewall is about to end and its alert is switched on, every health check
  -- sends the alert once more: the count of mails is the count of checks.
  pub license_expiring_repeats :
      (checks : List Check) (d : WatchedDevice)
      → IsTold until d
      → All (IsExpiring until) checks
      → total is_license checks d ≡ length checks
  license_expiring_repeats [] d h e = refl
  license_expiring_repeats (c ∷ checks) d h (e, rest) =
      let (told, one) = phase2-IsTold c d h e in
      omega (
        arith,
        one,
        license_expiring_repeats checks (maybe_send_phase2_device_notifications c d).0 told rest,
      )
