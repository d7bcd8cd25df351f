-- ===== src/Backups.antt =====
-- dashboard/app/backups.py: when a backup of a firewall is due, and the request for one.
pub mod Requests
use opnsense_hub.Base.{
  ℕ, ◌+◌, ◌*◌, Bool, true, false, ◌||◌, not, Option, none, some, Text, codes, ◌==◌, text_eq, lower,
  [], leb, ltb, max, if◌then◌else◌,
}
use opnsense_hub.Models.{Device, hours, days}

-- A text that is empty counts as "hours".
unfoldable pub backup_interval_delta : Device → ℕ
backup_interval_delta device =
    let unit =
      lower (
        if device.backup_interval_unit == [] then codes "hours" else device.backup_interval_unit) in
    let value = max 1 device.backup_interval_value in
    if unit == codes "days"
    then days value
    else if unit == codes "months"
    then days (value * 30)
    else hours value

abbrev pub pending : Option ℕ → Option ℕ → Bool
pending none uploaded_at = false
pending (some requested_at) none = true
pending (some requested_at) (some uploaded_at) = ltb uploaded_at requested_at

unfoldable pub backup_request_pending : Device → Bool
backup_request_pending device =
    pending device.backup_last_requested_at device.backup_last_uploaded_at

abbrev pub elapsed : Option ℕ → (delta now : ℕ) → Bool
elapsed none delta now = true
elapsed (some uploaded_at) delta now = leb (uploaded_at + delta) now

unfoldable pub backup_due : (now : ℕ) → Device → Bool
backup_due now device =
    if not device.backup_enabled
    then false
    else if backup_request_pending device
    then true
    else elapsed device.backup_last_uploaded_at (backup_interval_delta device) now

unfoldable pub mark_device_backup_requested : (now : ℕ) → Device → Bool × Device
mark_device_backup_requested now device =
    if backup_request_pending device
    then (true, device)
    else if not (backup_due now device)
    then (false, device)
    else (true, record device { backup_last_requested_at = some now })
