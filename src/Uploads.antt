-- ===== src/Uploads.antt =====
-- dashboard/app/routers/devices.py, `upload_device_backup`: a firewall delivers the configuration that it
-- was asked for, and the Hub keeps the newest ones. The body comes in chunks of bytes; its parser is the
-- argument `loads`, which refuses keys that occur twice. A chunk is a list of bytes.
pub mod Envelopes
pub mod Files
pub mod Accepted
pub mod Retention
pub mod Kept
pub mod Filenames
pub mod Authorized
use opnsense_hub.Base.{
  ℕ, zero, suc, ◌+◌, String, Bool, true, false, ◌&&◌, ◌||◌, not, Option, none, some, List, [], ◌∷◌,
  ◌++◌, map, Result, ok, err, Exception, http_exception, raise_if, ◌>>=◌, ◌>>◌, Text, codes, ◌==◌,
  nat_eq, text_eq, contains, select, length, ltb, leb, strip, lower, drop_leading, rstrip,
  if◌then◌else◌, min,
}
use opnsense_hub.Base.Integers.{ℤ, ltz, pos}
use opnsense_hub.Models.{Device, DeviceBackup, DeviceEvent, Db}
use opnsense_hub.Payload.{Json, null, object, Members, get}
use opnsense_hub.Backups.{backup_request_pending}
use opnsense_hub.Sessions.{device_from_token}
use opnsense_hub.RateLimit.{MemoryRateLimitBackend, hit}
use Envelopes.{
  Codecs, encrypted_format, plaintext_format, max_request_bytes, has_fields, is_text, keys,
  validate_encrypted_device_backup, validate_plaintext_device_backup,
}
unfoldable pub use Files.*

abbrev pub uploaded : (now device_id : ℕ) → Device → Device
uploaded now device_id d =
    if d.id == device_id
    then record d { backup_last_uploaded_at = some now; backup_last_requested_at = none }
    else d

pub record Stored : Type 0 where
  pub backup_id : ℕ
  pub filename : Text
  pub created_at : ℕ
  pub retained_count : ℕ

-- The settings, what Python's library does, and what is new in this run.
pub record Run : Type 0 where
  pub config_backup_mode : Text
  pub codecs : Codecs
  pub now : ℕ
  pub timestamp : Text
  pub backup_id : ℕ

abbrev pub required_format : Text → Text
required_format mode =
    if lower (strip mode) == codes "plaintext" then plaintext_format else encrypted_format

-- The checks of the payload, and the text that is stored.
unfoldable pub backup_payload : Run → (device_id : ℕ) → Members → Result Text
backup_payload run device_id payload = do
  raise_if (contains (keys payload) (codes "content"))
      (http_exception 400 "legacy plaintext configuration backups are not accepted")
  raise_if
      (not (is_text (required_format run.config_backup_mode) (get null (codes "format") payload)))
      (http_exception 400 "required backup format was not used")
  if required_format run.config_backup_mode == plaintext_format
      then (raise_if (not (has_fields (codes "format" ∷ codes "plaintext_backup" ∷ []) payload))
            (http_exception 400 "plaintext backup request fields are invalid")
          >> validate_plaintext_device_backup run.codecs device_id
              (get null (codes "plaintext_backup") payload))
      else (raise_if (not (has_fields (codes "format" ∷ codes "encrypted_backup" ∷ []) payload))
            (http_exception 400 "encrypted backup request fields are invalid")
          >> validate_encrypted_device_backup run.codecs device_id
              (get null (codes "encrypted_backup") payload))

abbrev pub new_backup : Run → Device → Text → DeviceBackup
new_backup run device text = record {
  id = run.backup_id;
  device_id = device.id;
  filename =
      device_backup_filename device.hostname run.timestamp (required_format run.config_backup_mode);
  backup_format = required_format run.config_backup_mode;
  encrypted_payload = text;
  created_at = run.now;
}

-- The answer to a stored backup.
unfoldable pub stored_of : Run → Device → Text → Db → Stored
unfolding backups_of device_backup_filename
stored_of run device text db = record {
  backup_id = run.backup_id;
  filename = (new_backup run device text).filename;
  created_at = run.now;
  retained_count =
      min (length (backups_of device.id (db.device_backups ++ (new_backup run device text ∷ []))))
        device.backup_retention_count;
}

unfoldable pub store_device_backup_payload : Run → Device → Members → Db → Result Stored × Db
unfolding backup_payload device_backup_filename delete_stale stored_of
store_device_backup_payload run device payload db = elim (backup_payload run device.id payload) [
  | err e ↦ (err e, db)
  | ok text ↦
      let backup = new_backup run device text in
      let rows = db.device_backups ++ (backup ∷ []) in
      (
        ok (stored_of run device text db),
        record db {
          devices = map (uploaded run.now device.id) db.devices;
          device_backups = delete_stale device.id device.backup_retention_count rows;
          device_events =
              db.device_events
              ++ (record { device_id = device.id; event_type = "backup_uploaded" } ∷ []);
        },
      )
]

-- The loop over the chunks of the body.
unfoldable pub read_chunks : (read : Text) → List Text → Result Text
read_chunks read [] = ok read
read_chunks read (chunk ∷ chunks) =
    let rest = read_chunks (read ++ chunk) chunks in
    if ltb max_request_bytes (length (read ++ chunk))
    then err (http_exception 413 "backup request is too large")
    else rest

abbrev pub check_length : (int : Text → Option ℤ) → Option Text → Result (Unit {0})
check_length int none = ok tt
check_length int (some header) = if header == [] then ok tt else elim (int header) [
  | none ↦ err (http_exception 400 "invalid Content-Length")
  | some n ↦
      raise_if (ltz (pos max_request_bytes) n) (http_exception 413 "backup request is too large")
]

abbrev pub payload_of : Option Json → Result Members
payload_of none = err (http_exception 400 "backup request is invalid")
payload_of (some (object m)) = ok m
payload_of (some v) = err (http_exception 400 "backup request must be an object")

unfoldable pub read_device_backup_request :
    (int : Text → Option ℤ) (loads : Text → Option Json) → Option Text → List Text → Result Members
unfolding read_chunks
read_device_backup_request int loads content_length chunks = do
  check_length int content_length
  body ← read_chunks [] chunks
  payload_of (loads body)

-- `_authorize_device_backup_upload`, behind the rate limit
unfoldable pub authorize_device_backup_upload :
    (verify : Text → String → Bool) (now device_id : ℕ) → Option Text → Db → Result Device
authorize_device_backup_upload verify now device_id authorization db = do
  device ← device_from_token verify now device_id authorization db
  raise_if (not (backup_request_pending device))
      (http_exception 400 "no configuration backup is pending")
  ok device

pub record Settings : Type 0 where
  pub rate_limit_device_backup_attempts : ℕ
  pub rate_limit_device_backup_window_seconds : ℕ

-- A request: `key` is the client's address and the firewall's identifier.
pub record Upload : Type 0 where
  pub device_id : ℕ
  pub key : Text
  pub authorization : Option Text
  pub content_length : Option Text
  pub chunks : List Text

-- What stands before the checks of the payload; `allowed` is the answer of the rate limit.
unfoldable pub admitted :
    (verify : Text → String → Bool) (int : Text → Option ℤ) (loads : Text → Option Json)
    → (now : ℕ) → Upload
    → (allowed : Result (Unit {0})) → Db
    → Result (Device × Members)
unfolding authorize_device_backup_upload read_device_backup_request
admitted verify int loads now u allowed db = do
  allowed
  device ← authorize_device_backup_upload verify now u.device_id u.authorization db
  payload ← read_device_backup_request int loads u.content_length u.chunks
  ok (device, payload)

unfoldable pub upload_device_backup :
    (verify : Text → String → Bool) (int : Text → Option ℤ) (loads : Text → Option Json)
    → Settings
    → Run
    → Upload
    → Db × MemoryRateLimitBackend
    → Result Stored × Db × MemoryRateLimitBackend
unfolding admitted store_device_backup_payload
upload_device_backup verify int loads s run u (db, limits) =
    let (allowed, limits') =
      hit run.now (codes "device-backup") u.key s.rate_limit_device_backup_attempts
        s.rate_limit_device_backup_window_seconds limits in
    elim (admitted verify int loads run.now u allowed db) [
      | err e ↦ (err e, db, limits')
      | ok (device, payload) ↦
          let (answer, db') = store_device_backup_payload run device payload db in
          (answer, db', limits')
    ]
