-- ===== src/Backups/Requests.antt =====
-- dashboard/app/backups.py: a backup from its request to the one after it.
use opnsense_hub.Base.{ℕ, some, text_eq}
use opnsense_hub.Models.{Device}

-- `receive_backup`'s time of an upload
abbrev pub uploaded : (at : ℕ) → Device → Device
uploaded at device = record device { backup_last_uploaded_at = some at }
