-- ===== src/Firmware.antt =====
-- dashboard/app/services/firmware_scheduler.py: the daily marking of the firewalls for a check of their
-- firmware. The date of a time in the time zone of the Hub is the argument `local_date`, its hour is
-- `local_hour`. The list holds the devices in the order of the query.
pub mod Daily
use opnsense_hub.Base.{
  ℕ, suc, String, Bool, true, false, ◌&&◌, ◌||◌, not, Option, none, some, List, [], ◌∷◌, ◌==◌,
  nat_eq, string_eq, is_some, if◌then◌else◌,
}
use opnsense_hub.Models.{Device}

unfoldable pub firmware_status_local_date : (ℕ → ℕ) → Option ℕ → Option ℕ
firmware_status_local_date local_date none = none
firmware_status_local_date local_date (some value) = some (local_date value)

abbrev pub is_day : Option ℕ → ℕ → Bool
is_day none day = false
is_day (some d) day = d == day

unfoldable pub device_has_firmware_check_for_day : (ℕ → ℕ) → Device → ℕ → Bool
device_has_firmware_check_for_day local_date device day =
    is_day (firmware_status_local_date local_date device.firmware_checked_at) day

abbrev pub is_reason : Option String → String → Bool
is_reason none reason = false
is_reason (some r) reason = r == reason

unfoldable pub device_has_pending_firmware_request_for_day : (ℕ → ℕ) → Device → ℕ → Bool
device_has_pending_firmware_request_for_day local_date device day =
    is_reason device.firmware_check_request_reason "scheduled"
    && is_day (firmware_status_local_date local_date device.firmware_check_requested_at) day

-- Whether the loop passes over a device.
unfoldable pub is_skipped : (ℕ → ℕ) → ℕ → Device → Bool
is_skipped local_date day device =
    is_some device.revoked_at
    || device_has_firmware_check_for_day local_date device day
    || device_has_pending_firmware_request_for_day local_date device day

-- `reason` is at most 30 characters long, as the two reasons of the source are.
abbrev pub marked : (reason : String) → (now : ℕ) → Device → Device
marked reason now device = record device {
  firmware_check_requested_at = some now;
  firmware_check_request_reason = some reason;
}

unfoldable pub mark_devices_for_firmware_check :
    (local_date : ℕ → ℕ) (reason : String) (now : ℕ) → List Device → ℕ × List Device
mark_devices_for_firmware_check local_date reason now [] = (0, [])
mark_devices_for_firmware_check local_date reason now (device ∷ devices) =
    let (count, rest) = mark_devices_for_firmware_check local_date reason now devices in
    if is_skipped local_date (local_date now) device
    then (count, device ∷ rest)
    else (suc count, marked reason now device ∷ rest)

unfoldable pub run_firmware_schedule_once :
    (local_date local_hour : ℕ → ℕ) (now : ℕ) → List Device → ℕ × List Device
run_firmware_schedule_once local_date local_hour now devices =
    if not (local_hour now == 23)
    then (0, devices)
    else mark_devices_for_firmware_check local_date "scheduled" now devices
