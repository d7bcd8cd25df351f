-- ===== src/Tests/Uploading.antt =====
-- The theorems of Uploads at a firewall whose configuration is asked for.
use opnsense_hub.Base.{
  ℕ, ◌≤◌, ◌<◌, ◌≡◌, ◌≢◌, refl, Bool, true, false, Option, none, some, List, [], ◌∷◌, ◌++◌, Text,
  codes, Result, ok, arith, ◌==◌, text_eq, nat_eq, All, String,
}
use opnsense_hub.Base.Integers.{pos}
use opnsense_hub.Models.{Db, Device, DeviceBackup}
use opnsense_hub.RateLimit.{MemoryRateLimitBackend}
use opnsense_hub.Payload.{Json, null, integer, string, object, Members, close, member}
use opnsense_hub.Uploads.{
  Run, Upload, Settings, stored_of, store_device_backup_payload, upload_device_backup,
  device_backup_filename,
}
use opnsense_hub.Uploads.Envelopes.{
  Codecs, encrypted_format, plaintext_format, validate_encrypted_device_backup,
}
use opnsense_hub.Uploads.Accepted.{IsEncrypted, validate_encrypted_device_backup-IsEncrypted}
use opnsense_hub.Uploads.Kept.{IsRetained, store_device_backup_payload-IsRetained}
use opnsense_hub.Uploads.Filenames.{IsSafe, device_backup_filename-IsSafe}
use opnsense_hub.Tests.{db, firewall}

abbrev codecs : Codecs
codecs = record {
  str = λ v. [];
  uuid = λ s. some 5;
  timestamp = λ s. some true;
  b64decode = λ s. some (codes "Salted__12345678abcdefghijklmnop");
  utf8 = λ s. some s;
  dumps = λ v. codes "{}";
}

abbrev envelope : Json
envelope = object (
    member (codes "format") (string encrypted_format) (
      member (codes "version") (integer (pos 1)) (
        member (codes "device_id") (string (codes "5")) (
          member (codes "source_hostname") (string (codes "fw")) (
            member (codes "captured_at") (string (codes "now")) (
              member (codes "cipher") (string (codes "AES-256-CBC+HMAC-SHA256")) (
                member (codes "kdf") (string (codes "PBKDF2-HMAC-SHA256")) (
                  member (codes "iterations") (integer (pos 200000)) (
                    member (codes "key_id") (string (codes "0123456789abcdef01234567")) (
                      member (codes "ciphertext") (string (codes "x")) (
                        member (codes "mac")
                          (string (
                            codes
                              "0123456789abcdef0123456789abcdef0123456789abcdef0123456789abcdef"))
                          close)))))))))))

envelope_accepted : validate_encrypted_device_backup codecs 5 envelope ≡ ok (codes "{}")
unfolding validate_encrypted_device_backup opnsense_hub.Base.any opnsense_hub.Base.contains
    opnsense_hub.Base.text_beq opnsense_hub.Payload.get opnsense_hub.Base.strip
    opnsense_hub.Base.starts_with
envelope_accepted = refl

validate_encrypted_device_backup-IsEncrypted_example : IsEncrypted codecs 5 envelope (codes "{}")
validate_encrypted_device_backup-IsEncrypted_example =
    validate_encrypted_device_backup-IsEncrypted codecs 5 envelope (codes "{}") envelope_accepted

abbrev row : (id device_id created_at : ℕ) → DeviceBackup
row id device_id created_at = record {
  id = id;
  device_id = device_id;
  filename = [];
  backup_format = [];
  encrypted_payload = [];
  created_at = created_at;
}

abbrev asked : Device
asked = record firewall { backup_last_requested_at = some 50; backup_retention_count = 2 }

abbrev stored_rows : Db
stored_rows = record db {
  devices = asked ∷ [];
  device_backups = row 1 5 10 ∷ row 2 6 20 ∷ row 3 5 30 ∷ [];
}

abbrev run : Run
run = record {
  config_backup_mode = codes "encrypted";
  codecs = codecs;
  now = 60;
  timestamp = codes "20260101000000";
  backup_id = 9;
}

abbrev payload : Members
payload =
    member (codes "format") (string encrypted_format)
      (member (codes "encrypted_backup") envelope close)

stored :
    (store_device_backup_payload run asked payload stored_rows).0
    ≡ ok (stored_of run asked (codes "{}") stored_rows)
unfolding store_device_backup_payload opnsense_hub.Base.contains opnsense_hub.Uploads.Envelopes.keys
    opnsense_hub.Base.text_beq opnsense_hub.Payload.get opnsense_hub.Base.lower
    opnsense_hub.Base.strip opnsense_hub.Uploads.Envelopes.has_fields opnsense_hub.Base.any
    validate_encrypted_device_backup opnsense_hub.Base.starts_with
stored = refl

other : (a b : ℕ) → a == b ≡ false → a ≢ b
other a b h = ground arith

store_device_backup_payload-IsRetained_example :
    IsRetained run asked payload stored_rows
      (store_device_backup_payload run asked payload stored_rows).1
store_device_backup_payload-IsRetained_example =
    store_device_backup_payload-IsRetained run asked payload stored_rows
      (stored_of run asked (codes "{}") stored_rows)
      ((other 2 1 refl, (other 3 1 refl, tt)), ((other 3 2 refl, tt), (tt, tt)))
      (other 1 9 refl, (other 2 9 refl, (other 3 9 refl, tt)))
      (omega arith, (omega arith, (omega arith, tt))) (omega arith) stored

abbrev upload : Upload
upload = record {
  device_id = 5;
  key = codes "1:5";
  authorization = some (codes "Bearer token");
  content_length = none;
  chunks = codes "{" ∷ codes "}" ∷ [];
}

abbrev upload_settings : Settings
upload_settings = record {
  rate_limit_device_backup_attempts = 5;
  rate_limit_device_backup_window_seconds = 60;
}

abbrev verify : Text → String → Bool
verify t h = t == codes "token"

abbrev loads : Text → Option Json
loads t = some (object payload)

-- The run of that example, which is accepted.
uploaded_once :
    (upload_device_backup verify
      (λ t. none)
      loads
      upload_settings
      run
      upload
      (stored_rows, record { max_buckets = 4; buckets = [] })).0
    ≡ ok (stored_of run asked (codes "{}") stored_rows)
unfolding upload_device_backup opnsense_hub.RateLimit.hit opnsense_hub.RateLimit.drop_old
    opnsense_hub.RateLimit.claim opnsense_hub.RateLimit.lookup
    opnsense_hub.RateLimit.prune_expired_locked opnsense_hub.Base.select
    opnsense_hub.Sessions.device_from_token opnsense_hub.Base.starts_with
    opnsense_hub.Sessions.checked_device opnsense_hub.ProxyAuth.get_device opnsense_hub.Base.find
    opnsense_hub.Base.text_beq opnsense_hub.Base.strip opnsense_hub.Sessions.device_token_is_expired
    opnsense_hub.Backups.backup_request_pending opnsense_hub.Base.contains
    opnsense_hub.Base.Decimal.int opnsense_hub.Base.Decimal.print_digits
    opnsense_hub.Base.Decimal.read_digits opnsense_hub.Base.Decimal.str opnsense_hub.Base.any
    opnsense_hub.Base.drop_leading opnsense_hub.Base.is_space opnsense_hub.Base.lower
    opnsense_hub.Base.lower_char opnsense_hub.Base.lstrip opnsense_hub.Base.rsplit_once
    opnsense_hub.Base.rstrip opnsense_hub.Payload.get opnsense_hub.Payload.text_of
    opnsense_hub.RateLimit.bucket_key opnsense_hub.RateLimit.evict opnsense_hub.RateLimit.window_of
    opnsense_hub.RateLimit.without opnsense_hub.Uploads.Envelopes.canonical
    opnsense_hub.Uploads.Envelopes.check_algorithms opnsense_hub.Uploads.Envelopes.check_ciphertext
    opnsense_hub.Uploads.Envelopes.check_content opnsense_hub.Uploads.Envelopes.check_device
    opnsense_hub.Uploads.Envelopes.check_hex opnsense_hub.Uploads.Envelopes.check_source
    opnsense_hub.Uploads.Envelopes.has_fields opnsense_hub.Uploads.Envelopes.has_part
    opnsense_hub.Uploads.Envelopes.is_hex opnsense_hub.Uploads.Envelopes.keys
    opnsense_hub.Uploads.Envelopes.matches_hex validate_encrypted_device_backup
    opnsense_hub.Uploads.Envelopes.validate_plaintext_device_backup opnsense_hub.Uploads.backups_of
    opnsense_hub.Uploads.delete_stale device_backup_filename opnsense_hub.Uploads.insert
    opnsense_hub.Uploads.is_safe opnsense_hub.Uploads.newest_first opnsense_hub.Uploads.sub_unsafe
    opnsense_hub.Uploads.admitted opnsense_hub.Uploads.authorize_device_backup_upload
    opnsense_hub.Uploads.backup_payload opnsense_hub.Uploads.read_chunks
    opnsense_hub.Uploads.read_device_backup_request store_device_backup_payload stored_of
uploaded_once = refl

file_name :
    device_backup_filename (codes "../fw 1") (codes "20260101000000") encrypted_format
    ≡ codes "..-fw-1-backup-20260101000000.opnenc"
unfolding device_backup_filename opnsense_hub.Base.text_beq
file_name = refl

IsSafe-time : IsSafe (codes "20260101000000")
unfolding opnsense_hub.Uploads.is_safe
IsSafe-time = (
  refl,
  (
    refl,
    (
      refl,
      (refl, (refl, (refl, (refl, (refl, (refl, (refl, (refl, (refl, (refl, (refl, tt))))))))))),
    ),
  ),
)

device_backup_filename-IsSafe_example :
    IsSafe (device_backup_filename (codes "../fw 1") (codes "20260101000000") encrypted_format)
device_backup_filename-IsSafe_example =
    device_backup_filename-IsSafe (codes "../fw 1") (codes "20260101000000") encrypted_format
      IsSafe-time
