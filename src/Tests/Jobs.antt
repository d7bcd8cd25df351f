-- ===== src/Tests/Jobs.antt =====
-- The background jobs, on concrete rows and settings.
use opnsense_hub.Base.{
  ℕ, suc, ◌≤◌, ◌<◌, ◌≡◌, ◌≢◌, ◌⊎◌, inl, inr, refl, String, Bool, true, false, ◌&&◌, not, Option,
  none, some, List, [], ◌∷◌, Result, ok, err, arith, Text, codes, ◌==◌, text_eq, length, select,
  leb, All, if◌then◌else◌,
}
use opnsense_hub.Models.{Db, days}
use opnsense_hub.Health.{HealthThresholds, HealthState, online, offline}
use opnsense_hub.LogRetention.{
  Settings, Cutoffs, LogRow, Tables, max_sweep_interval_hours, max_delete_batch_size,
  log_retention_config, is_old, delete_rows_in_batches, run_log_retention_once,
}
use opnsense_hub.LogRetention.Sweep.{is_fresh, run_log_retention_once_lem}
use opnsense_hub.LogRetention.Sorting.{NodupIds}
use opnsense_hub.Firmware.{run_firmware_schedule_once}
use opnsense_hub.Firmware.Daily.{AreSkipped, run_firmware_schedule_once_daily}
use opnsense_hub.Notifications.{WatchedDevice, Mail, Check}
use opnsense_hub.Notifications.Repeats.{
  is_backup, is_license, total, IsTold, IsExpiring, backup_overdue_once, license_expiring_repeats,
}
use opnsense_hub.Audit.{write_audit, entry}
use opnsense_hub.Audit.Throttle.{write_audit_throttled}
use opnsense_hub.Tests.{firewall, db}

abbrev thresholds : HealthThresholds
thresholds = record {
  warning_misses = 3;
  critical_misses = 5;
  warning_recovery_successes = 1;
  critical_recovery_successes = 2;
}

abbrev healthy_state : HealthState
healthy_state = record { status = online; missed_checks = 0; success_checks = 4 }

abbrev offline_state : HealthState
offline_state = record { status = offline; missed_checks = 7; success_checks = 0 }

abbrev retention : Settings
retention = record {
  app_env = codes "development";
  log_retention_enabled = true;
  log_retention_run_on_startup = true;
  audit_log_retention_days = 3;
  device_event_retention_days = 2;
  log_retention_sweep_interval_hours = 24;
  log_retention_delete_batch_size = 1;
  audit_log_min_retention_days = 1;
  device_event_min_retention_days = 1;
}

abbrev rows : List LogRow
rows =
    record { id = 1; created_at = days 1 }
    ∷ record { id = 2; created_at = days 9 }
    ∷ record { id = 3; created_at = days 2 }
    ∷ []

abbrev tables : Tables
tables = record { audit_logs = rows; device_events = rows }

abbrev cutoffs : Cutoffs
cutoffs = record { audit_logs = days 7; device_events = days 8 }

rows-NodupIds : NodupIds rows
rows-NodupIds = ((ground arith, (ground arith, tt)), ((ground arith, tt), (tt, tt)))

run_log_retention_once_lem_example :
    run_log_retention_once 9 (days 10) retention tables
    ≡ ok (
        some (
          record {
            skipped = false;
            reason = none;
            audit_logs_deleted = length (select (is_old (days 7)) rows);
            device_events_deleted = length (select (is_old (days 8)) rows);
            audit_logs_cutoff_at = days 7;
            device_events_cutoff_at = days 8;
          },
          record {
            audit_logs = select (is_fresh (days 7)) rows;
            device_events = select (is_fresh (days 8)) rows;
          },
        ))
unfolding opnsense_hub.LogRetention.log_retention_cutoffs log_retention_config
    opnsense_hub.LogRetention.is_production opnsense_hub.Base.text_beq opnsense_hub.Base.lower
    opnsense_hub.Base.strip
run_log_retention_once_lem_example =
    run_log_retention_once_lem 9 (days 10) retention tables cutoffs refl refl (omega arith)
      rows-NodupIds rows-NodupIds (omega arith)

-- Days of a hundred ticks, whose last hour is the 23rd.
abbrev local_date : ℕ → ℕ
local_date t = if leb 100 t then 1 else 0

abbrev local_hour : ℕ → ℕ
local_hour t = if leb 90 t then 23 else 0

run_firmware_schedule_once_daily_example :
    AreSkipped local_date local_hour
      (local_date 95)
      (run_firmware_schedule_once local_date local_hour 95 (firewall ∷ [])).1
    × (run_firmware_schedule_once local_date local_hour 96
          (run_firmware_schedule_once local_date local_hour 95 (firewall ∷ [])).1
        ≡ (0, (run_firmware_schedule_once local_date local_hour 95 (firewall ∷ [])).1))
run_firmware_schedule_once_daily_example =
    run_firmware_schedule_once_daily local_date local_hour 95 96 (firewall ∷ []) refl refl

abbrev watched : WatchedDevice
watched = record {
  revoked_at = none;
  maintenance_until = none;
  email_notifications_enabled = true;
  email_notification_recipient = some (codes "ops@example.org");
  email_notify_on_warning = true;
  email_notify_on_critical = true;
  email_notify_on_backup_overdue = true;
  email_notify_on_license_expiring = true;
  email_notify_on_firmware_available = true;
  email_last_notified_status = none;
  email_last_notified_at = none;
  backup_overdue_notified_at = none;
  license_expiring_notified_at = none;
  firmware_available_notified_at = none;
  license_expires_at = some 1000;
  firmware_checked_at = none;
}

abbrev check : ℕ → Check
check now = record {
  now = now;
  backup_overdue = true;
  license_expiring = true;
  firmware_available = false;
  configured = true;
  delivered = λ mail. true;
}

backup_overdue_once_example : total is_backup (check 10 ∷ check 70 ∷ check 130 ∷ []) watched ≤ 1
backup_overdue_once_example =
    backup_overdue_once (check 10 ∷ check 70 ∷ check 130 ∷ []) watched (refl, (refl, (refl, tt)))

watched-IsTold : IsTold 1000 watched
unfolding opnsense_hub.Notifications.clean_optional opnsense_hub.Base.text_beq
    opnsense_hub.Base.strip
watched-IsTold = record {
  stands = refl;
  no_maintenance = refl;
  enabled = refl;
  recipient = refl;
  rule = refl;
  expires = refl;
  told = refl;
}

check-IsExpiring : (now : ℕ) → now < 1000 → IsExpiring 1000 (check now)
check-IsExpiring now h = record { expiring = refl; before = h; configured = refl; delivered = refl }

license_expiring_repeats_example : total is_license (check 10 ∷ check 70 ∷ []) watched ≡ 2
license_expiring_repeats_example =
    license_expiring_repeats 1000 (check 10 ∷ check 70 ∷ []) watched watched-IsTold
      (check-IsExpiring 10 (omega arith), (check-IsExpiring 70 (omega arith), tt))

abbrev viewed : Db
viewed = record db { audit_logs = entry 100 "device.view" (some 1) (some 5) ∷ [] }

write_audit_throttled_example :
    write_audit 15 200 "device.view" (some 1) (some 5) viewed ≡ (false, viewed)
unfolding write_audit opnsense_hub.Audit.should_write_audit opnsense_hub.Base.any
write_audit_throttled_example =
    write_audit_throttled 15 db 100 200 1 5 viewed (omega arith) (omega arith) refl
