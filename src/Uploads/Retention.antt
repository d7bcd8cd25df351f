-- ===== src/Uploads/Retention.antt =====
-- dashboard/app/routers/devices.py: which configurations an upload leaves stored.
use opnsense_hub.Base.{
  ℕ, zero, suc, ◌≤◌, ◌≡◌, ◌≢◌, refl, ap, ◌∙◌, Bool, true, false, not, List, [], ◌∷◌, map, length,
  select, contains, ◌==◌, nat_eq, arith, All, All-map, All-zip,
}
use opnsense_hub.Models.{DeviceBackup}
use opnsense_hub.Uploads.{insert, newest_first, after, backups_of, delete_stale}

abbrev pub mine : ℕ → DeviceBackup → Bool
mine device_id b = b.device_id == device_id

abbrev pub ids : List DeviceBackup → List ℕ
ids rows = map (λ b. b.id) rows

select-select :
    (p q : DeviceBackup → Bool) (rows : List DeviceBackup)
    → select p (select q rows) ≡ select q (select p rows)
unfolding select
select-select p q [] = refl
select-select p q (b ∷ rows) = ground (arith, select-select p q rows)

length-select-insert :
    (q : DeviceBackup → Bool) (b : DeviceBackup) (rows : List DeviceBackup)
    → length (select q (insert b rows)) ≡ length (select q (b ∷ rows))
unfolding select insert
length-select-insert q b [] = refl
length-select-insert q b (c ∷ rows) = ground (arith, length-select-insert q b rows)

length-select-newest_first :
    (q : DeviceBackup → Bool) (rows : List DeviceBackup)
    → length (select q (newest_first rows)) ≡ length (select q rows)
unfolding newest_first select
length-select-newest_first q [] = refl
length-select-newest_first q (b ∷ rows) =
    ground (arith, length-select-insert q b (newest_first rows), length-select-newest_first q rows)

contains_own : (rows : List DeviceBackup) → All (λ b. contains (ids rows) b.id ≡ true) rows
unfolding contains
contains_own [] = tt
contains_own (b ∷ rows) =
    (ground arith, All-map _ _ rows (λ c h. ground (arith, h)) (contains_own rows))

length-select-after :
    (stale : List ℕ) (n : ℕ) (rows : List DeviceBackup)
    → All (λ b. contains stale b.id ≡ true) (after n rows)
    → length (select (λ b. not (contains stale b.id)) rows) ≤ n
unfolding select
length-select-after stale zero [] h = omega arith
length-select-after stale (suc n) [] h = omega arith
length-select-after stale zero (b ∷ rows) h =
    ground (arith, h.0, length-select-after stale zero rows h.1)
length-select-after stale (suc n) (b ∷ rows) h = ground (arith, length-select-after stale n rows h)

pub delete_stale-bounded :
    (device_id n : ℕ) (rows : List DeviceBackup)
    → length (select (mine device_id) (delete_stale device_id n rows)) ≤ n
unfolding delete_stale backups_of
delete_stale-bounded device_id n rows =
    let sorted = newest_first (select (mine device_id) rows) in
    let kept : DeviceBackup → Bool = λ b. not (contains (ids (after n sorted)) b.id) in
    omega (
      arith,
      ap length (select-select (mine device_id) kept rows),
      length-select-newest_first kept (select (mine device_id) rows),
      length-select-after (ids (after n sorted)) n sorted (contains_own (after n sorted)),
    )

contains-insert :
    (x : ℕ) (b : DeviceBackup) (rows : List DeviceBackup)
    → contains (ids (insert b rows)) x ≡ contains (ids (b ∷ rows)) x
unfolding contains insert
contains-insert x b [] = refl
contains-insert x b (c ∷ rows) = ground (arith, contains-insert x b rows)

pub contains-newest_first :
    (x : ℕ) (rows : List DeviceBackup)
    → contains (ids (newest_first rows)) x ≡ contains (ids rows) x
unfolding contains newest_first
contains-newest_first x [] = refl
contains-newest_first x (b ∷ rows) =
    ground (arith, contains-insert x b (newest_first rows), contains-newest_first x rows)

pub contains-after :
    (x n : ℕ) (rows : List DeviceBackup)
    → contains (ids rows) x ≡ false
    → contains (ids (after n rows)) x ≡ false
unfolding contains
contains-after x zero rows h = h
contains-after x (suc n) [] h = h
contains-after x (suc n) (b ∷ rows) h = contains-after x n rows (ground (arith, h))

-- The identifiers of the rows are distinct.
abbrev pub HasDistinctIds : List DeviceBackup → Type 0
HasDistinctIds [] = Unit
HasDistinctIds (b ∷ rows) = All (λ c. c.id ≢ b.id) rows × HasDistinctIds rows

pub contains-select_of_other :
    (p : DeviceBackup → Bool) (x : ℕ) (rows : List DeviceBackup)
    → All (λ c. c.id ≢ x) rows
    → contains (ids (select p rows)) x ≡ false
unfolding contains select
contains-select_of_other p x [] h = refl
contains-select_of_other p x (b ∷ rows) h =
    ground (arith, h.0, contains-select_of_other p x rows h.1)

-- A row that fails a test is not among those that pass it.
contains-select_failed :
    (p : DeviceBackup → Bool) (rows : List DeviceBackup)
    → HasDistinctIds rows
    → All (λ b. p b ≡ false → contains (ids (select p rows)) b.id ≡ false) rows
unfolding contains select
contains-select_failed p [] h = tt
contains-select_failed p (b ∷ rows) h = (
  λ e. rw e (contains-select_of_other p b.id rows h.0),
  All-zip _ _ _ (λ c n k e. ground (arith, n, k e)) rows h.0 (contains-select_failed p rows h.1),
)

select_kept :
    (p q : DeviceBackup → Bool) (rows : List DeviceBackup)
    → All (λ b. p b ≡ false → q b ≡ true) rows
    → select (λ b. not (p b)) (select q rows) ≡ select (λ b. not (p b)) rows
unfolding select
select_kept p q [] h = refl
select_kept p q (b ∷ rows) h = ground (arith, h.0, select_kept p q rows h.1)

pub delete_stale_others :
    (device_id n : ℕ) (rows : List DeviceBackup)
    → HasDistinctIds rows
    → select (λ b. not (mine device_id b)) (delete_stale device_id n rows)
      ≡ select (λ b. not (mine device_id b)) rows
unfolding delete_stale backups_of
delete_stale_others device_id n rows u = select_kept (mine device_id) _ rows (
    All-map _ _ rows
      (λ b k e. ap not (
        contains-after b.id n (newest_first (select (mine device_id) rows))
          (contains-newest_first b.id (select (mine device_id) rows) ∙ k e)))
      (contains-select_failed (mine device_id) rows u))
