-- ===== src/LogRetention/Config.antt =====
-- dashboard/app/services/log_retention.py: the bounds of the configuration.
use opnsense_hub.Base.{◌≤◌, ◌≡◌, false, arith}
use opnsense_hub.LogRetention.{
  max_delete_batch_size, max_sweep_interval_hours, Settings, is_production, log_retention_config,
}

-- Outside production the sweep keeps rows for at least the configured minimum of days, runs every 1
-- to 720 hours and deletes between 1 and 20000 rows at a time, whatever the settings say.
pub log_retention_config_bounds :
    (s : Settings)
    → is_production s ≡ false
    → let c = log_retention_config s in
      (c.audit_log_min_retention_days ≤ c.audit_log_retention_days)
      × (c.device_event_min_retention_days ≤ c.device_event_retention_days)
      × (1 ≤ c.sweep_interval_hours)
      × (c.sweep_interval_hours ≤ max_sweep_interval_hours)
      × (1 ≤ c.delete_batch_size)
      × (c.delete_batch_size ≤ max_delete_batch_size)
unfolding log_retention_config
log_retention_config_bounds s h = ground arith
