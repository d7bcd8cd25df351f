-- ===== src/Health.antt =====
-- dashboard/app/health.py, and `device_health_status` of dashboard/app/services/firmware_scheduler.py:
-- the status of a firewall from a row of probes.
pub mod Runs
use opnsense_hub.Base.{ℕ, ◌+◌, Text, Bool, true, false, List, [], ◌∷◌, ◌==◌, text_eq, codes}
use opnsense_hub.Base.{leb, if◌then◌else◌}

abbrev pub online : Text
online = codes "online"

abbrev pub warning : Text
warning = codes "warning"

abbrev pub offline : Text
offline = codes "offline"

pub record HealthThresholds : Type 0 where
  pub warning_misses : ℕ
  pub critical_misses : ℕ
  pub warning_recovery_successes : ℕ
  pub critical_recovery_successes : ℕ

pub record HealthState : Type 0 where
  pub status : Text
  pub missed_checks : ℕ
  pub success_checks : ℕ

-- The status after a check that passed, from the old status and the new count of successes.
recovered : HealthThresholds → Text → ℕ → Text
recovered t status successes =
    let required =
      if status == offline then t.critical_recovery_successes else t.warning_recovery_successes in
    if leb required successes then online else status

-- The status after a check that failed, from the old status and the new count of misses.
degraded : HealthThresholds → Text → ℕ → Text
degraded t status misses =
    if leb t.critical_misses misses
    then offline
    else if leb t.warning_misses misses
    then warning
    else status

unfoldable pub next_health_state : HealthState → Bool → HealthThresholds → HealthState
unfolding recovered degraded
next_health_state s true t = record {
  status = recovered t s.status (s.success_checks + 1);
  missed_checks = 0;
  success_checks = s.success_checks + 1;
}
next_health_state s false t = record {
  status = degraded t s.status (s.missed_checks + 1);
  missed_checks = s.missed_checks + 1;
  success_checks = 0;
}

-- A row of checks, oldest first.
unfoldable pub observe : HealthThresholds → List Bool → HealthState → HealthState
observe t [] s = s
observe t (healthy ∷ checks) s = observe t checks (next_health_state s healthy t)
