-- ===== src/Uploads/Kept.antt =====
-- dashboard/app/routers/devices.py: what an accepted upload leaves in the tables.
use opnsense_hub.Base.{
  ℕ, suc, ◌-◌, ◌≤◌, ◌<◌, ◌≡◌, ◌≢◌, refl, sym, ap, ◌∙◌, inl, inr, true, false, not, List, [], ◌∷◌,
  ◌++◌, length, select, contains, ◌==◌, nat_eq, arith, All, All-snoc, All-every, All-after_map,
  All-select, select-snoc, select-snoc_failed, Bool-cases, Result-cases, ok, Text,
}
use opnsense_hub.Models.{DeviceBackup, Device, Db}
use opnsense_hub.Payload.{Members}
use opnsense_hub.Backups.{backup_request_pending}
use opnsense_hub.Uploads.{
  insert, newest_first, after, backups_of, delete_stale, Run, Stored, backup_payload, new_backup,
  uploaded, store_device_backup_payload,
}
use opnsense_hub.Uploads.Retention.{
  mine, HasDistinctIds, delete_stale-bounded, delete_stale_others, contains-after,
  contains-newest_first, contains-select_of_other, ids,
}

HasDistinctIds-snoc :
    (b : DeviceBackup) (rows : List DeviceBackup)
    → All (λ c. c.id ≢ b.id) rows
    → HasDistinctIds rows
    → HasDistinctIds (rows ++ (b ∷ []))
HasDistinctIds-snoc b [] n u = (tt, tt)
HasDistinctIds-snoc b (c ∷ rows) n u =
    (All-snoc (λ d. d.id ≢ c.id) rows b u.0 (λ q. n.0 (sym q)), HasDistinctIds-snoc b rows n.1 u.1)

newest_first-snoc :
    (b : DeviceBackup) (rows : List DeviceBackup)
    → All (λ c. c.created_at < b.created_at) rows
    → newest_first (rows ++ (b ∷ [])) ≡ b ∷ newest_first rows
unfolding newest_first insert
newest_first-snoc b [] h = refl
newest_first-snoc b (c ∷ rows) h = ground (arith, h.0, newest_first-snoc b rows h.1)

-- The newest row is kept, if at least one is.
delete_stale-snoc :
    (device_id n : ℕ) (b : DeviceBackup) (rows : List DeviceBackup)
    → mine device_id b ≡ true
    → All (λ c. c.id ≢ b.id) rows
    → All (λ c. c.created_at < b.created_at) rows
    → (older : List DeviceBackup) × (delete_stale device_id (suc n) (rows ++ (b ∷ []))
        ≡ older ++ (b ∷ []))
unfolding delete_stale backups_of
delete_stale-snoc device_id n b rows m u t =
    let own = select (mine device_id) rows in
    let sorted : newest_first (select (mine device_id) (rows ++ (b ∷ []))) ≡ b ∷ newest_first own =
      ap newest_first (select-snoc (mine device_id) b rows m)
      ∙ newest_first-snoc b own
          (All-select (λ c. c.created_at < b.created_at) (mine device_id) rows t) in
    let fresh : contains (ids (after n (newest_first own))) b.id ≡ false =
      contains-after b.id n (newest_first own)
        (contains-newest_first b.id own ∙ contains-select_of_other (mine device_id) b.id rows u) in
    (
      select (λ c. not (contains (ids (after n (newest_first own))) c.id)) rows,
      rw sorted (
          select-snoc (λ c. not (contains (ids (after n (newest_first own))) c.id)) b rows
            (ap not fresh)),
    )

pub record IsRetained (run : Run) (device : Device) (payload : Members) (a b : Db) : Type 0 where
  pub text : Text
  pub checked : backup_payload run device.id payload ≡ ok text
  pub bounded : length (select (mine device.id) b.device_backups) ≤ device.backup_retention_count
  pub others :
      select (λ r. not (mine device.id r)) b.device_backups
      ≡ select (λ r. not (mine device.id r)) a.device_backups
  pub older : List DeviceBackup
  pub kept : b.device_backups ≡ older ++ (new_backup run device text ∷ [])
  pub answered : All (λ d. d.id ≡ device.id → backup_request_pending d ≡ false) b.devices

uploaded-answered :
    (now id : ℕ) (d : Device)
    → (uploaded now id d).id ≡ id
    → backup_request_pending (uploaded now id d) ≡ false
unfolding backup_request_pending
uploaded-answered now id d h = elim (Bool-cases (d.id == id)) [
  | inl e ↦ rw e refl
  | inr e ↦ absurd (ground (arith, e, h))
]

store-kept :
    (run : Run) (device : Device) (payload : Members) (db : Db) (text : Text)
    → backup_payload run device.id payload ≡ ok text
    → HasDistinctIds db.device_backups
    → All (λ r. r.id ≢ run.backup_id) db.device_backups
    → All (λ r. r.created_at < run.now) db.device_backups
    → 1 ≤ device.backup_retention_count
    → IsRetained run device payload db (store_device_backup_payload run device payload db).1
unfolding store_device_backup_payload
store-kept run device payload db text e u n t c =
    let b = new_backup run device text in
    let rows = db.device_backups ++ (b ∷ []) in
    let count : device.backup_retention_count ≡ suc (device.backup_retention_count - 1) =
      omega (arith, c) in
    let (older, kept) =
      delete_stale-snoc device.id (device.backup_retention_count - 1) b db.device_backups
        (ground arith) n t in
    rw (e, store_device_backup_payload)
      (record {
        text = text;
        checked = e;
        bounded = delete_stale-bounded device.id device.backup_retention_count rows;
        others =
            delete_stale_others device.id device.backup_retention_count rows
              (HasDistinctIds-snoc b db.device_backups n u)
            ∙ select-snoc_failed (λ r. not (mine device.id r)) b db.device_backups (ground arith);
        older = older;
        kept = ap (λ k. delete_stale device.id k rows) count ∙ kept;
        answered =
            All-after_map _ (uploaded run.now device.id) db.devices
              (All-every _ db.devices (uploaded-answered run.now device.id));
      })

-- An accepted upload has passed the checks of its payload and is stored, as the last row; of its firewall
-- at most the configured number of backups remains, those of the others are untouched, and the firewall's
-- request is answered. Identifiers are distinct, the upload's is new and its time later than the rows',
-- and at least one backup is to be kept.
pub store_device_backup_payload-IsRetained :
    (run : Run) (device : Device) (payload : Members) (db : Db) (x : Stored)
    → HasDistinctIds db.device_backups
    → All (λ r. r.id ≢ run.backup_id) db.device_backups
    → All (λ r. r.created_at < run.now) db.device_backups
    → 1 ≤ device.backup_retention_count
    → (store_device_backup_payload run device payload db).0 ≡ ok x
    → IsRetained run device payload db (store_device_backup_payload run device payload db).1
unfolding store_device_backup_payload
store_device_backup_payload-IsRetained run device payload db x u n t c =
    elim (Result-cases (backup_payload run device.id payload)) [
      | inl (text, e) ↦ λ _. store-kept run device payload db text e u n t c
      | inr (problem, e) ↦ rw (e, store_device_backup_payload) (λ q. absurd (cc))
    ]
