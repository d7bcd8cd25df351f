-- ===== src/Uploads/Authorized.antt =====
-- dashboard/app/routers/devices.py: who may upload, and how much.
use opnsense_hub.Base.{ℕ, ◌≤◌, ◌≡◌, String, Bool, true, Option, some, length, ok, Text}
use opnsense_hub.Models.{Device, Db}
use opnsense_hub.Payload.{Json, object, Members}
use opnsense_hub.Backups.{backup_request_pending}
use opnsense_hub.Sessions.{device_from_token}
use opnsense_hub.Uploads.{Upload}
use opnsense_hub.Uploads.Envelopes.{max_request_bytes}

pub record IsAuthorized (verify : Text → String → Bool) (loads : Text → Option Json) (now : ℕ)
    (u : Upload) (db : Db) : Type 0 where
  pub device : Device
  pub known : device_from_token verify now u.device_id u.authorization db ≡ ok device
  pub asked : backup_request_pending device ≡ true
  pub body : Text
  pub payload : Members
  pub parsed : loads body ≡ some (object payload)
  pub short : length body ≤ max_request_bytes
