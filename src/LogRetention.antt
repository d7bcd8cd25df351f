-- ===== src/LogRetention.antt =====
-- dashboard/app/services/log_retention.py: the configuration of the retention sweep, its cutoffs, and
-- the deletion of old rows in batches. A row of a log table is its key and its time. Times are
-- microseconds since the first moment that Python's `datetime` knows, so a cutoff before it raises.
pub mod Config
pub mod Sorting
pub mod Sweep
use opnsense_hub.Base.{
  ℕ, zero, suc, ◌+◌, ◌-◌, String, Bool, true, false, not, Option, none, some, List, [], ◌∷◌, map,
  Result, ok, err, overflow_error, Text, codes, ◌==◌, nat_eq, text_eq, contains, length, take,
  select, leb, ltb, max, min, strip, lower, ◌>>=◌, if◌then◌else◌,
}
use opnsense_hub.Models.{days}

-- The constants of dashboard/app/hardening.py.
abbrev pub max_delete_batch_size : ℕ
max_delete_batch_size = 20000

abbrev pub max_sweep_interval_hours : ℕ
max_sweep_interval_hours = 720

pub record Settings : Type 0 where
  pub app_env : Text
  pub log_retention_enabled : Bool
  pub log_retention_run_on_startup : Bool
  pub audit_log_retention_days : ℕ
  pub device_event_retention_days : ℕ
  pub log_retention_sweep_interval_hours : ℕ
  pub log_retention_delete_batch_size : ℕ
  pub audit_log_min_retention_days : ℕ
  pub device_event_min_retention_days : ℕ

pub record LogRetentionConfig : Type 0 where
  pub enabled : Bool
  pub run_on_startup : Bool
  pub audit_log_retention_days : ℕ
  pub device_event_retention_days : ℕ
  pub sweep_interval_hours : ℕ
  pub delete_batch_size : ℕ
  pub audit_log_min_retention_days : ℕ
  pub device_event_min_retention_days : ℕ

unfoldable pub is_production : Settings → Bool
is_production s = lower (strip s.app_env) == codes "production"

unfoldable pub clamp : (value lower upper : ℕ) → ℕ
clamp value lower upper = max lower (min value upper)

unfoldable pub log_retention_config : Settings → LogRetentionConfig
unfolding clamp
log_retention_config s =
    let production = is_production s in
    record {
      enabled = s.log_retention_enabled;
      run_on_startup = s.log_retention_run_on_startup;
      audit_log_retention_days =
          if production
          then s.audit_log_retention_days
          else max s.audit_log_retention_days s.audit_log_min_retention_days;
      device_event_retention_days =
          if production
          then s.device_event_retention_days
          else max s.device_event_retention_days s.device_event_min_retention_days;
      sweep_interval_hours =
          if production
          then s.log_retention_sweep_interval_hours
          else clamp s.log_retention_sweep_interval_hours 1 max_sweep_interval_hours;
      delete_batch_size =
          if production
          then s.log_retention_delete_batch_size
          else clamp s.log_retention_delete_batch_size 1 max_delete_batch_size;
      audit_log_min_retention_days = s.audit_log_min_retention_days;
      device_event_min_retention_days = s.device_event_min_retention_days;
    }

-- `now - timedelta(days=n)`
unfoldable pub minus_days : ℕ → ℕ → Result ℕ
minus_days now n = if leb (days n) now then ok (now - days n) else err overflow_error

pub record Cutoffs : Type 0 where
  pub audit_logs : ℕ
  pub device_events : ℕ

unfoldable pub log_retention_cutoffs : (now : ℕ) → LogRetentionConfig → Result Cutoffs
unfolding minus_days
log_retention_cutoffs now c = do
  audit ← minus_days now c.audit_log_retention_days
  device ← minus_days now c.device_event_retention_days
  ok (record { audit_logs = audit; device_events = device })

pub record LogRow : Type 0 where
  pub id : ℕ
  pub created_at : ℕ

abbrev pub is_old : ℕ → LogRow → Bool
is_old cutoff r = ltb r.created_at cutoff

-- ORDER BY created_at ASC
unfoldable pub insert : LogRow → List LogRow → List LogRow
insert r [] = r ∷ []
insert r (x ∷ xs) =
    let rest = insert r xs in if leb r.created_at x.created_at then r ∷ x ∷ xs else x ∷ rest

unfoldable pub sort_by_time : List LogRow → List LogRow
unfolding insert
sort_by_time [] = []
sort_by_time (r ∷ rows) = insert r (sort_by_time rows)

abbrev pub ids_of : List LogRow → List ℕ
ids_of = map (λ (r : LogRow). r.id)

-- The query of one round: the keys of the oldest rows before the cutoff, at most `batch_size`.
unfoldable pub batch_ids : (cutoff batch_size : ℕ) → List LogRow → List ℕ
batch_ids cutoff batch_size rows =
    ids_of (take batch_size (sort_by_time (select (is_old cutoff) rows)))

-- `delete(model).where(model.id.in_(ids))`
unfoldable pub delete_ids : List ℕ → List LogRow → List LogRow
delete_ids ids rows = select (λ r. not (contains ids r.id)) rows

abbrev is_empty : List ℕ → Bool
is_empty [] = true
is_empty (x ∷ xs) = false

-- The loop, on fuel: the count of deleted rows and the rows that are left. `none`: the fuel ran out.
unfoldable pub delete_rows_in_batches :
    (fuel cutoff batch_size deleted : ℕ) → List LogRow → Option (ℕ × List LogRow)
delete_rows_in_batches zero cutoff batch_size deleted rows = none
delete_rows_in_batches (suc fuel) cutoff batch_size deleted rows =
    let ids = batch_ids cutoff batch_size rows in
    let left = delete_ids ids rows in
    let rest = delete_rows_in_batches fuel cutoff batch_size (deleted + length ids) left in
    if is_empty ids
    then some (deleted, rows)
    else if ltb (length ids) batch_size
    then some (deleted + length ids, left)
    else rest

pub record Tables : Type 0 where
  pub audit_logs : List LogRow
  pub device_events : List LogRow

pub record LogRetentionResult : Type 0 where
  pub skipped : Bool
  pub reason : Option String
  pub audit_logs_deleted : ℕ
  pub device_events_deleted : ℕ
  pub audit_logs_cutoff_at : ℕ
  pub device_events_cutoff_at : ℕ

-- The result of a sweep, from what its two loops gave.
abbrev pub swept :
    Cutoffs
    → Option (ℕ × List LogRow)
    → Option (ℕ × List LogRow)
    → Option (LogRetentionResult × Tables)
swept cutoffs none audit = none
swept cutoffs (some device) none = none
swept cutoffs (some (device_deleted, device_left)) (some (audit_deleted, audit_left)) = some (
  record {
    skipped = false;
    reason = none;
    audit_logs_deleted = audit_deleted;
    device_events_deleted = device_deleted;
    audit_logs_cutoff_at = cutoffs.audit_logs;
    device_events_cutoff_at = cutoffs.device_events;
  },
  record { audit_logs = audit_left; device_events = device_left },
)

-- One sweep, with a fuel for its two loops. `none` inside: the fuel ran out.
unfoldable pub run_log_retention_once :
    (fuel now : ℕ) → Settings → Tables → Result (Option (LogRetentionResult × Tables))
run_log_retention_once fuel now s t =
    let config = log_retention_config s in
    log_retention_cutoffs now config >>= λ cutoffs.
    if not config.enabled
    then ok (
        some (
          record {
            skipped = true;
            reason = some "disabled";
            audit_logs_deleted = 0;
            device_events_deleted = 0;
            audit_logs_cutoff_at = cutoffs.audit_logs;
            device_events_cutoff_at = cutoffs.device_events;
          },
          t,
        ))
    else ok (
        swept cutoffs
          (delete_rows_in_batches fuel cutoffs.device_events config.delete_batch_size 0
            t.device_events)
          (delete_rows_in_batches fuel cutoffs.audit_logs config.delete_batch_size 0 t.audit_logs))
