-- ===== src/Firmware/Daily.antt =====
-- dashboard/app/services/firmware_scheduler.py: runs of the schedule on one day.
use opnsense_hub.Base.{
  ℕ, ◌≡◌, refl, String, true, List, [], ◌∷◌, nat_eq, string_eq, arith, All, Bool-cases, inl, inr,
}
use opnsense_hub.Models.{Device}
use opnsense_hub.Firmware.{
  firmware_status_local_date, device_has_firmware_check_for_day,
  device_has_pending_firmware_request_for_day, is_skipped, marked, mark_devices_for_firmware_check,
  run_firmware_schedule_once,
}

module _ (local_date local_hour : ℕ → ℕ) where
  -- Every device is one that the loop passes over.
  abbrev pub AreSkipped : ℕ → List Device → Type 0
  AreSkipped day = All (λ (device : Device). is_skipped local_date day device ≡ true)

  is_skipped-marked :
      (now : ℕ) (device : Device)
      → is_skipped local_date (local_date now) (marked "scheduled" now device) ≡ true
  unfolding is_skipped device_has_pending_firmware_request_for_day device_has_firmware_check_for_day
      firmware_status_local_date
  is_skipped-marked now device = ground arith

  AreSkipped-mark :
      (now : ℕ) (devices : List Device)
      → AreSkipped
          (local_date now)
          (mark_devices_for_firmware_check local_date "scheduled" now devices).1
  unfolding mark_devices_for_firmware_check
  AreSkipped-mark now [] = tt
  AreSkipped-mark now (device ∷ devices) =
      elim (Bool-cases (is_skipped local_date (local_date now) device)) [
        | inl e ↦ rw e (e, AreSkipped-mark now devices)
        | inr e ↦ rw e (is_skipped-marked now device, AreSkipped-mark now devices)
      ]

  mark-AreSkipped :
      (now : ℕ) (reason : String) (devices : List Device)
      → AreSkipped (local_date now) devices
      → mark_devices_for_firmware_check local_date reason now devices ≡ (0, devices)
  unfolding mark_devices_for_firmware_check
  mark-AreSkipped now reason [] h = refl
  mark-AreSkipped now reason (device ∷ devices) (skip, rest) =
      ground (arith, skip, mark-AreSkipped now reason devices rest)

  -- When the schedule has run at a time of its hour, every firewall that stands has been checked on this
  -- day or has a request of this day, and a further run on the same day, at whatever hour, marks none and changes none.
  pub run_firmware_schedule_once_daily :
      (now later : ℕ) (devices : List Device)
      → local_hour now ≡ 23
      → local_date later ≡ local_date now
      → AreSkipped (local_date now) (run_firmware_schedule_once local_date local_hour now devices).1
        × (run_firmware_schedule_once local_date local_hour later
              (run_firmware_schedule_once local_date local_hour now devices).1
            ≡ (0, (run_firmware_schedule_once local_date local_hour now devices).1))
  unfolding run_firmware_schedule_once
  run_firmware_schedule_once_daily now later devices hour same =
      let done = AreSkipped-mark now devices in
      let after = (mark_devices_for_firmware_check local_date "scheduled" now devices).1 in
      let again = mark-AreSkipped later "scheduled" after (rw same done) in
      (rw hour done, ground (arith, again))
