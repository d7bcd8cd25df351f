-- ===== src/Uploads/Files.antt =====
-- dashboard/app/services/device_backup_crypto.py, the name of a stored file, and dashboard/app/routers/devices.py,
-- the removal of stale backups.
use opnsense_hub.Base.{
  ℕ, zero, suc, Bool, true, false, ◌&&◌, ◌||◌, not, List, [], ◌∷◌, ◌++◌, map, Text, codes, ◌==◌,
  nat_eq, text_eq, contains, select, ltb, leb, drop_leading, rstrip, if◌then◌else◌,
}
use opnsense_hub.Models.{DeviceBackup}
use opnsense_hub.Uploads.Envelopes.{plaintext_format}

unfoldable pub is_safe : ℕ → Bool
is_safe c =
    leb b'A' c && leb c b'Z'
    || leb b'a' c && leb c b'z'
    || leb b'0' c && leb c b'9'
    || c == b'.'
    || c == b'_'
    || c == b'-'

-- `re.sub("[^A-Za-z0-9._-]+", "-", text)`: each run of other characters becomes one hyphen.
unfoldable pub sub_unsafe : (in_run : Bool) → Text → Text
unfolding is_safe
sub_unsafe in_run [] = []
sub_unsafe in_run (c ∷ s) =
    let kept = sub_unsafe false s in
    let dropped = sub_unsafe true s in
    if is_safe c then c ∷ kept else if in_run then dropped else b'-' ∷ dropped

-- `timestamp` is the time as fourteen digits.
unfoldable pub device_backup_filename : (hostname timestamp backup_format : Text) → Text
unfolding sub_unsafe rstrip drop_leading
device_backup_filename hostname timestamp backup_format =
    let safe_hostname = rstrip b'-' (drop_leading b'-' (sub_unsafe false hostname)) in
    let extension = if backup_format == plaintext_format then codes ".xml" else codes ".opnenc" in
    (if safe_hostname == [] then codes "firewall" else safe_hostname)
    ++ codes "-backup-"
    ++ timestamp
    ++ extension

-- The rows by time, then identifier, the newest first.
abbrev pub newer : DeviceBackup → DeviceBackup → Bool
newer a b = ltb b.created_at a.created_at || a.created_at == b.created_at && ltb b.id a.id

unfoldable pub insert : DeviceBackup → List DeviceBackup → List DeviceBackup
insert b [] = b ∷ []
insert b (c ∷ rows) = let rest = insert b rows in if newer c b then c ∷ rest else b ∷ c ∷ rows

unfoldable pub newest_first : List DeviceBackup → List DeviceBackup
unfolding insert
newest_first [] = []
newest_first (b ∷ rows) = insert b (newest_first rows)

abbrev pub after {ℓ} : {A : Type ℓ} → ℕ → List A → List A
after zero xs = xs
after (suc n) [] = []
after (suc n) (x ∷ xs) = after n xs

unfoldable pub backups_of : (device_id : ℕ) → List DeviceBackup → List DeviceBackup
unfolding newest_first
backups_of device_id rows = newest_first (select (λ b. b.device_id == device_id) rows)

-- `for stale_backup in backups[count:]: db.delete(stale_backup)`
unfoldable pub delete_stale : (device_id count : ℕ) → List DeviceBackup → List DeviceBackup
unfolding backups_of
delete_stale device_id count rows =
    let stale = map (λ b. b.id) (after count (backups_of device_id rows)) in
    select (λ b. not (contains stale b.id)) rows
