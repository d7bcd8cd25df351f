-- ===== src/Notifications.antt =====
-- dashboard/app/services/notification_service.py: which mails the health checks of a firewall send. The
-- delivery is the argument `delivered`: false where the sender raises. `configured` is
-- `email_settings_configured`. An event stands for the row that is added to the device's events. The texts
-- of the mails and the transports are not modelled.
pub mod Repeats
use opnsense_hub.Base.{
  ℕ, String, Bool, true, false, ◌&&◌, ◌||◌, not, Option, none, some, List, [], ◌∷◌, ◌++◌, Text,
  codes, ◌==◌, text_eq, is_some, ltb, strip, if◌then◌else◌,
}
use opnsense_hub.Health.{warning, offline}

-- The columns of a device that the notifications read or write.
pub record WatchedDevice : Type 0 where
  pub revoked_at : Option ℕ
  pub maintenance_until : Option ℕ
  pub email_notifications_enabled : Bool
  pub email_notification_recipient : Option Text
  pub email_notify_on_warning : Bool
  pub email_notify_on_critical : Bool
  pub email_notify_on_backup_overdue : Bool
  pub email_notify_on_license_expiring : Bool
  pub email_notify_on_firmware_available : Bool
  pub email_last_notified_status : Option Text
  pub email_last_notified_at : Option ℕ
  pub backup_overdue_notified_at : Option ℕ
  pub license_expiring_notified_at : Option ℕ
  pub firmware_available_notified_at : Option ℕ
  pub license_expires_at : Option ℕ
  pub firmware_checked_at : Option ℕ

pub data Mail : Type 0 where
  health_mail backup_mail license_mail firmware_mail : Mail

pub data Event : Type 0 where
  sent : Mail → Event
  failed : Mail → Event

-- `clean_optional` of dashboard/app/services/common.py
unfoldable pub clean_optional : Option Text → Option Text
clean_optional none = none
clean_optional (some value) =
    let stripped = strip value in if stripped == [] then none else some stripped

abbrev pub is_after : Option ℕ → ℕ → Bool
is_after none now = false
is_after (some t) now = ltb now t

unfoldable pub maintenance_window_active : (now : ℕ) → WatchedDevice → Bool
maintenance_window_active now d = is_after d.maintenance_until now

unfoldable pub should_notify_for_health_status : WatchedDevice → Text → Bool
should_notify_for_health_status d new_status =
    if new_status == warning
    then d.email_notify_on_warning
    else if new_status == offline
    then d.email_notify_on_critical
    else false

abbrev pub notified : (status : Text) (now : ℕ) → WatchedDevice → WatchedDevice
notified status now d = record d {
  email_last_notified_status = some status;
  email_last_notified_at = some now;
}

-- The guards of `maybe_send_health_notification`.
unfoldable pub should_send_health :
    (configured : Bool) (now : ℕ) (previous_status new_status : Text) → WatchedDevice → Bool
should_send_health configured now previous_status new_status d =
    not (is_some d.revoked_at || previous_status == new_status)
    && d.email_notifications_enabled
    && not (maintenance_window_active now d)
    && is_some (clean_optional d.email_notification_recipient)
    && configured
    && should_notify_for_health_status d new_status

unfoldable pub maybe_send_health_notification :
    (delivered : Mail → Bool) (configured : Bool) (now : ℕ) (previous_status new_status : Text)
    → WatchedDevice
    → Bool × WatchedDevice × List Event
maybe_send_health_notification delivered configured now previous_status new_status d =
    if not (should_send_health configured now previous_status new_status d)
    then (false, d, [])
    else if delivered health_mail
    then (true, notified new_status now d, sent health_mail ∷ [])
    else (false, d, failed health_mail ∷ [])

-- `_device_rule_recipient`
unfoldable pub device_rule_recipient : (configured : Bool) → WatchedDevice → Option Text
device_rule_recipient configured d =
    if not d.email_notifications_enabled || not configured
    then none
    else clean_optional d.email_notification_recipient

-- `_send_device_rule_notification`, with the first 30 characters of its message
unfoldable pub send_device_rule_notification :
    (delivered : Mail → Bool) (now : ℕ) (mail : Mail) (status : Text)
    → WatchedDevice
    → Bool × WatchedDevice × List Event
send_device_rule_notification delivered now mail status d =
    if not (is_some (clean_optional d.email_notification_recipient))
    then (false, d, [])
    else if delivered mail
    then (true, notified status now d, sent mail ∷ [])
    else (false, d, failed mail ∷ [])

-- `notified_at is None or (since and notified_at < since)`
abbrev pub is_stale : Option ℕ → Option ℕ → Bool
is_stale none since = true
is_stale (some t) since = is_after since t

-- `if _send_device_rule_notification(…): …`
abbrev pub finished :
    (WatchedDevice → WatchedDevice) → Bool × WatchedDevice × List Event → WatchedDevice × List Event
finished f (done, d, events) = (if done then f d else d, events)

unfoldable pub backup_rule :
    (delivered : Mail → Bool) (now : ℕ) (holds : Bool) → WatchedDevice → WatchedDevice × List Event
backup_rule delivered now false d = (record d { backup_overdue_notified_at = none }, [])
backup_rule delivered now true d =
    if d.email_notify_on_backup_overdue && not (is_some d.backup_overdue_notified_at)
    then finished (λ d'. record d' { backup_overdue_notified_at = some now })
        (send_device_rule_notification delivered now backup_mail
          (codes "Backup overdue notification se") d)
    else (d, [])

unfoldable pub license_rule :
    (delivered : Mail → Bool) (now : ℕ) (holds : Bool) → WatchedDevice → WatchedDevice × List Event
license_rule delivered now false d = (record d { license_expiring_notified_at = none }, [])
license_rule delivered now true d =
    if d.email_notify_on_license_expiring
      && is_stale d.license_expiring_notified_at d.license_expires_at
    then finished (λ d'. record d' { license_expiring_notified_at = some now })
        (send_device_rule_notification delivered now license_mail
          (codes "License expiring notification ") d)
    else (d, [])

unfoldable pub firmware_rule :
    (delivered : Mail → Bool) (now : ℕ) (holds : Bool) → WatchedDevice → WatchedDevice × List Event
firmware_rule delivered now false d = (record d { firmware_available_notified_at = none }, [])
firmware_rule delivered now true d =
    if d.email_notify_on_firmware_available
      && is_stale d.firmware_available_notified_at d.firmware_checked_at
    then finished (λ d'. record d' { firmware_available_notified_at = some now })
        (send_device_rule_notification delivered now firmware_mail
          (codes "Firmware available notificatio") d)
    else (d, [])

-- What one health check found, and the fate of its mails.
pub record Check : Type 0 where
  pub now : ℕ
  pub backup_overdue : Bool
  pub license_expiring : Bool
  pub firmware_available : Bool
  pub configured : Bool
  pub delivered : Mail → Bool

unfoldable pub maybe_send_phase2_device_notifications :
    Check → WatchedDevice → WatchedDevice × List Event
maybe_send_phase2_device_notifications c d =
    if is_some d.revoked_at
      || maintenance_window_active c.now d
      || not (is_some (device_rule_recipient c.configured d))
    then (d, [])
    else let (d1, e1) = backup_rule c.delivered c.now c.backup_overdue d in
      let (d2, e2) = license_rule c.delivered c.now c.license_expiring d1 in
      let (d3, e3) = firmware_rule c.delivered c.now c.firmware_available d2 in (d3, e1 ++ e2 ++ e3)
