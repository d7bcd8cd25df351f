-- ===== src/LogRetention/Sweep.antt =====
-- dashboard/app/services/log_retention.py: the deletion loop, and the sweep of both tables.
use opnsense_hub.Base.{
  ℕ, zero, suc, ◌+◌, ◌≤◌, ◌<◌, ◌≡◌, ◌≢◌, ◌∙◌, sym, ap, refl, Bool, true, false, not, none, some,
  List, [], ◌∷◌, arith, All, All-select, All-select_of, All-map, All-if, Bool-cases, inl, inr, ok,
  nat_eq, contains, length, take, select, ltb, min,
}
use opnsense_hub.LogRetention.{
  Settings, Tables, Cutoffs, log_retention_config, log_retention_cutoffs, run_log_retention_once,
  LogRow, is_old, is_empty, sort_by_time, ids_of, batch_ids, delete_ids, delete_rows_in_batches,
}
use opnsense_hub.LogRetention.Sorting.{
  NodupIds, NodupIds-select, NodupIds-sort_by_time, All-sort_by_time, All-take, length-sort_by_time,
  length-delete_ids-take, length-delete_ids-sort, select-delete_ids, delete_ids_of_kept,
}

abbrev pub is_fresh : ℕ → LogRow → Bool
is_fresh cutoff r = not (is_old cutoff r)

-- Keys that differ from `a` do not contain it.
contains-ids_of_none :
    (a : ℕ) (rows : List LogRow)
    → All (λ (x : LogRow). x.id ≢ a) rows
    → contains (ids_of rows) a ≡ false
unfolding contains
contains-ids_of_none a [] h = refl
contains-ids_of_none a (r ∷ rows) h = ground (arith, contains-ids_of_none a rows h.1)

module _ (cutoff batch_size : ℕ) where
  -- The row shares its key with no old row, if it is not old itself.
  abbrev IsKept : List LogRow → LogRow → Type 0
  IsKept rows r =
      is_fresh cutoff r ≡ true → All (λ (x : LogRow). x.id ≢ r.id) (select (is_old cutoff) rows)

  IsKept-cons :
      (x : LogRow) (rows rest : List LogRow)
      → All (λ (r : LogRow). r.id ≢ x.id) rest
      → All (IsKept rows) rest
      → All (IsKept (x ∷ rows)) rest
  unfolding select
  IsKept-cons x rows [] a k = tt
  IsKept-cons x rows (r ∷ rest) a k = (
    λ fresh.
        All-if (λ (y : LogRow). y.id ≢ r.id) (is_old cutoff x) x (select (is_old cutoff) rows)
          (λ e. a.0 (sym e)) (k.0 fresh),
    IsKept-cons x rows rest a.1 k.1,
  )

  All-IsKept : (rows : List LogRow) → NodupIds rows → All (IsKept rows) rows
  unfolding select
  All-IsKept [] u = tt
  All-IsKept (x ∷ rows) u = (
    λ fresh.
        let e : is_old cutoff x ≡ false = ground arith in
        rw e (All-select (λ (y : LogRow). y.id ≢ x.id) (is_old cutoff) rows u.0),
    IsKept-cons x rows rows u.0 (All-IsKept rows u.1),
  )

  -- A round deletes no fresh row.
  select-fresh-delete :
      (rows : List LogRow)
      → NodupIds rows
      → select (is_fresh cutoff) (delete_ids (batch_ids cutoff batch_size rows) rows)
        ≡ select (is_fresh cutoff) rows
  unfolding batch_ids
  select-fresh-delete rows u =
      let old = select (is_old cutoff) rows in
      let ids = batch_ids cutoff batch_size rows in
      select-delete_ids (is_fresh cutoff) ids rows
      ∙ delete_ids_of_kept ids (select (is_fresh cutoff) rows) (
          All-select_of (λ (r : LogRow). contains ids r.id ≡ false) (is_fresh cutoff) rows
            (All-map (IsKept rows) (λ r. is_fresh cutoff r ≡ true → contains ids r.id ≡ false) rows
              (λ r kept fresh. contains-ids_of_none r.id (take batch_size (sort_by_time old)) (
                All-take (λ (x : LogRow). x.id ≢ r.id) batch_size (sort_by_time old)
                  (All-sort_by_time (λ (x : LogRow). x.id ≢ r.id) old (kept fresh))))
              (All-IsKept rows u)))

  length-ids_of : (rows : List LogRow) → length (ids_of rows) ≡ length rows
  length-ids_of [] = refl
  length-ids_of (r ∷ rows) = ap suc (length-ids_of rows)

  -- A round deletes as many old rows as it has keys.
  length-old-delete :
      (rows : List LogRow)
      → NodupIds rows
      → length (select (is_old cutoff) (delete_ids (batch_ids cutoff batch_size rows) rows))
          + length (batch_ids cutoff batch_size rows)
        ≡ length (select (is_old cutoff) rows)
  unfolding batch_ids
  length-old-delete rows u =
      let old = select (is_old cutoff) rows in
      let sorted = sort_by_time old in
      let ids = batch_ids cutoff batch_size rows in
      omega (
        arith,
        ap length (select-delete_ids (is_old cutoff) ids rows),
        length-delete_ids-sort ids old,
        length-delete_ids-take batch_size sorted
            (NodupIds-sort_by_time old (NodupIds-select (is_old cutoff) rows u)),
        length-ids_of (take batch_size sorted),
        length-sort_by_time old,
      )

  length-take : (n : ℕ) (rows : List LogRow) → length (take n rows) ≡ min n (length rows)
  length-take zero rows = omega arith
  length-take (suc n) [] = omega arith
  length-take (suc n) (r ∷ rows) = omega (arith, length-take n rows)

  length-batch_ids :
      (rows : List LogRow)
      → length (batch_ids cutoff batch_size rows)
        ≡ min batch_size (length (select (is_old cutoff) rows))
  unfolding batch_ids
  length-batch_ids rows =
      let old = select (is_old cutoff) rows in
      omega (
        arith,
        length-ids_of (take batch_size (sort_by_time old)),
        length-take batch_size (sort_by_time old),
        length-sort_by_time old,
      )

  -- Without old rows all are fresh.
  select-fresh_of_none :
      (rows : List LogRow)
      → length (select (is_old cutoff) rows) ≡ 0
      → select (is_fresh cutoff) rows ≡ rows
  unfolding select
  select-fresh_of_none [] h = refl
  select-fresh_of_none (r ∷ rows) h = ground (arith, select-fresh_of_none rows)

  length-is_empty : (ids : List ℕ) → is_empty ids ≡ true → length ids ≡ 0
  length-is_empty [] h = refl
  length-is_empty (x ∷ ids) h = cc

  length-not_empty : (ids : List ℕ) → is_empty ids ≡ false → 1 ≤ length ids
  length-not_empty [] h = cc
  length-not_empty (x ∷ ids) h = omega arith

  left-NodupIds :
      (rows : List LogRow)
      → NodupIds rows
      → NodupIds (delete_ids (batch_ids cutoff batch_size rows) rows)
  unfolding delete_ids
  left-NodupIds rows u =
      NodupIds-select (λ r. not (contains (batch_ids cutoff batch_size rows) r.id)) rows u

  -- With a batch size of at least one, and fuel for one round more than there are old rows, the loop
  -- ends. It has deleted and counted every row before the cutoff, and kept every other row in place.
  pub delete_rows_in_batches_lem :
      (fuel deleted : ℕ) (rows : List LogRow)
      → NodupIds rows
      → 1 ≤ batch_size
      → length (select (is_old cutoff) rows) < fuel
      → delete_rows_in_batches fuel cutoff batch_size deleted rows
        ≡ some (deleted + length (select (is_old cutoff) rows), select (is_fresh cutoff) rows)
  unfolding delete_rows_in_batches
  delete_rows_in_batches_lem zero deleted rows u one enough = absurd (omega arith)
  delete_rows_in_batches_lem (suc fuel) deleted rows u one enough =
      let ids = batch_ids cutoff batch_size rows in
      let left = delete_ids ids rows in
      let count = length-old-delete rows u in
      let size = length-batch_ids rows in
      let same = select-fresh-delete rows u in
      elim (Bool-cases (is_empty ids)) [
        | inl done ↦ ground (arith, length-is_empty ids done, select-fresh_of_none rows, size)
        | inr more ↦ elim (Bool-cases (ltb (length ids) batch_size)) [
          | inl last ↦ ground (arith, select-fresh_of_none left, size, count, same)
          | inr full ↦ ground (
            arith,
            delete_rows_in_batches_lem fuel (deleted + length ids) left (left-NodupIds rows u) one,
            length-not_empty ids more,
            size,
            count,
            same,
          )
        ]
      ]

length-select_le : (p : LogRow → Bool) (rows : List LogRow) → length (select p rows) ≤ length rows
unfolding select
length-select_le p [] = omega arith
length-select_le p (r ∷ rows) = ground (arith, length-select_le p rows)

delete_rows_in_batches_all :
    (cutoff batch_size fuel : ℕ) (rows : List LogRow)
    → NodupIds rows
    → 1 ≤ batch_size
    → length rows < fuel
    → delete_rows_in_batches fuel cutoff batch_size 0 rows
      ≡ some (length (select (is_old cutoff) rows), select (is_fresh cutoff) rows)
delete_rows_in_batches_all cutoff batch_size fuel rows u one enough =
    let old = length-select_le (is_old cutoff) rows in
    delete_rows_in_batches_lem cutoff batch_size fuel 0 rows u one (omega arith)
    ∙ ap (λ n. some (n, select (is_fresh cutoff) rows)) (omega arith)

-- A sweep that is enabled, with sound tables, at least one row a round and enough fuel, deletes from
-- both tables every row before its cutoff and no other, and reports the counts.
pub run_log_retention_once_lem :
    (fuel now : ℕ) (s : Settings) (t : Tables) (cutoffs : Cutoffs)
    → log_retention_cutoffs now (log_retention_config s) ≡ ok cutoffs
    → s.log_retention_enabled ≡ true
    → 1 ≤ (log_retention_config s).delete_batch_size
    → NodupIds t.audit_logs
    → NodupIds t.device_events
    → length t.audit_logs + length t.device_events < fuel
    → run_log_retention_once fuel now s t
      ≡ ok (
          some (
            record {
              skipped = false;
              reason = none;
              audit_logs_deleted = length (select (is_old cutoffs.audit_logs) t.audit_logs);
              device_events_deleted =
                  length (select (is_old cutoffs.device_events) t.device_events);
              audit_logs_cutoff_at = cutoffs.audit_logs;
              device_events_cutoff_at = cutoffs.device_events;
            },
            record {
              audit_logs = select (is_fresh cutoffs.audit_logs) t.audit_logs;
              device_events = select (is_fresh cutoffs.device_events) t.device_events;
            },
          ))
unfolding run_log_retention_once log_retention_config
run_log_retention_once_lem fuel now s t cutoffs e on one ua ud enough =
    let size = (log_retention_config s).delete_batch_size in
    let audit =
      delete_rows_in_batches_all cutoffs.audit_logs size fuel t.audit_logs ua one (omega arith) in
    let device =
      delete_rows_in_batches_all cutoffs.device_events size fuel t.device_events ud one
        (omega arith) in
    rw (e, audit, device, on) refl
