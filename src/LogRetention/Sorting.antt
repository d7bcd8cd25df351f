-- ===== src/LogRetention/Sorting.antt =====
-- dashboard/app/services/log_retention.py: sorting, taking and deleting of rows with different keys.
use opnsense_hub.Base.{
  ap, ℕ, zero, suc, ◌+◌, ◌≡◌, ◌≢◌, ◌∙◌, sym, refl, Bool, false, not, List, [], ◌∷◌, arith, All,
  All-select, nat_eq, contains, length, take, select,
}
use opnsense_hub.LogRetention.{LogRow, insert, sort_by_time, ids_of, delete_ids}

-- The primary key: no two rows share it.
abbrev pub NodupIds : List LogRow → Type 0
NodupIds [] = Unit
NodupIds (r ∷ rows) = All (λ (x : LogRow). x.id ≢ r.id) rows × NodupIds rows

All-insert :
    (P : LogRow → Type 0) (r : LogRow) (rows : List LogRow)
    → P r
    → All P rows
    → All P (insert r rows)
unfolding insert
All-insert P r [] p h = (p, tt)
All-insert P r (x ∷ rows) p h = ground (arith, All-insert P r rows p h.1)

pub All-sort_by_time :
    (P : LogRow → Type 0) (rows : List LogRow) → All P rows → All P (sort_by_time rows)
unfolding sort_by_time
All-sort_by_time P [] h = tt
All-sort_by_time P (r ∷ rows) h =
    All-insert P r (sort_by_time rows) h.0 (All-sort_by_time P rows h.1)

pub All-take : (P : LogRow → Type 0) (n : ℕ) (rows : List LogRow) → All P rows → All P (take n rows)
All-take P zero rows h = tt
All-take P (suc n) [] h = tt
All-take P (suc n) (r ∷ rows) h = (h.0, All-take P n rows h.1)

NodupIds-insert :
    (r : LogRow) (rows : List LogRow)
    → All (λ (x : LogRow). x.id ≢ r.id) rows
    → NodupIds rows
    → NodupIds (insert r rows)
unfolding insert
NodupIds-insert r [] a u = (tt, tt)
NodupIds-insert r (x ∷ rows) a u = ground (
  arith,
  All-insert (λ (y : LogRow). y.id ≢ x.id) r rows (λ e. a.0 (sym e)) u.0,
  NodupIds-insert r rows a.1 u.1,
)

pub NodupIds-sort_by_time : (rows : List LogRow) → NodupIds rows → NodupIds (sort_by_time rows)
unfolding sort_by_time
NodupIds-sort_by_time [] u = tt
NodupIds-sort_by_time (r ∷ rows) u =
    NodupIds-insert r (sort_by_time rows) (All-sort_by_time (λ (x : LogRow). x.id ≢ r.id) rows u.0)
      (NodupIds-sort_by_time rows u.1)

pub NodupIds-select :
    (p : LogRow → Bool) (rows : List LogRow) → NodupIds rows → NodupIds (select p rows)
unfolding select
NodupIds-select p [] u = tt
NodupIds-select p (r ∷ rows) u =
    ground (arith, All-select (λ (x : LogRow). x.id ≢ r.id) p rows u.0, NodupIds-select p rows u.1)

length-select-insert :
    (p : LogRow → Bool) (r : LogRow) (rows : List LogRow)
    → length (select p (insert r rows)) ≡ length (select p (r ∷ rows))
unfolding insert select
length-select-insert p r [] = refl
length-select-insert p r (x ∷ rows) = ground (arith, length-select-insert p r rows)

-- Sorting does not change how many rows pass a test.
pub length-select-sort_by_time :
    (p : LogRow → Bool) (rows : List LogRow)
    → length (select p (sort_by_time rows)) ≡ length (select p rows)
unfolding sort_by_time select
length-select-sort_by_time p [] = refl
length-select-sort_by_time p (r ∷ rows) =
    length-select-insert p r (sort_by_time rows) ∙ ground (arith, length-select-sort_by_time p rows)

length-insert : (r : LogRow) (rows : List LogRow) → length (insert r rows) ≡ suc (length rows)
unfolding insert
length-insert r [] = refl
length-insert r (x ∷ rows) = ground (arith, length-insert r rows)

pub length-sort_by_time : (rows : List LogRow) → length (sort_by_time rows) ≡ length rows
unfolding sort_by_time
length-sort_by_time [] = refl
length-sort_by_time (r ∷ rows) =
    omega (arith, length-insert r (sort_by_time rows), length-sort_by_time rows)

-- Keys that no row has delete nothing.
delete_ids-cons_absent :
    (id : ℕ) (ids : List ℕ) (rows : List LogRow)
    → All (λ (x : LogRow). x.id ≢ id) rows
    → delete_ids (id ∷ ids) rows ≡ delete_ids ids rows
unfolding delete_ids select contains
delete_ids-cons_absent id ids [] h = refl
delete_ids-cons_absent id ids (r ∷ rows) h = ground (arith, delete_ids-cons_absent id ids rows h.1)

delete_ids-head :
    (r : LogRow) (ids : List ℕ) (rows : List LogRow)
    → delete_ids (r.id ∷ ids) (r ∷ rows) ≡ delete_ids (r.id ∷ ids) rows
unfolding delete_ids select contains
delete_ids-head r ids rows = ground arith

delete_ids-nil : (rows : List LogRow) → delete_ids [] rows ≡ rows
unfolding delete_ids select contains
delete_ids-nil [] = refl
delete_ids-nil (r ∷ rows) = ground (arith, delete_ids-nil rows)

-- Deleting the keys of the first `n` rows leaves the others.
pub length-delete_ids-take :
    (n : ℕ) (rows : List LogRow)
    → NodupIds rows
    → length (delete_ids (ids_of (take n rows)) rows) + length (take n rows) ≡ length rows
length-delete_ids-take zero rows u = rw (delete_ids-nil rows) (omega arith)
length-delete_ids-take (suc n) [] u = unfold delete_ids select in omega arith
length-delete_ids-take (suc n) (r ∷ rows) u =
    let ids = ids_of (take n rows) in
    omega (
      arith,
      ap length (delete_ids-head r ids rows ∙ delete_ids-cons_absent r.id ids rows u.0),
      length-delete_ids-take n rows u.1,
    )

-- Two tests one after the other, in either order.
pub select-delete_ids :
    (p : LogRow → Bool) (ids : List ℕ) (rows : List LogRow)
    → select p (delete_ids ids rows) ≡ delete_ids ids (select p rows)
unfolding delete_ids select
select-delete_ids p ids [] = refl
select-delete_ids p ids (r ∷ rows) = ground (arith, select-delete_ids p ids rows)

pub length-delete_ids-sort :
    (ids : List ℕ) (rows : List LogRow)
    → length (delete_ids ids (sort_by_time rows)) ≡ length (delete_ids ids rows)
unfolding delete_ids
length-delete_ids-sort ids rows = length-select-sort_by_time (λ r. not (contains ids r.id)) rows

-- Rows whose keys are not deleted stay.
pub delete_ids_of_kept :
    (ids : List ℕ) (rows : List LogRow)
    → All (λ (r : LogRow). contains ids r.id ≡ false) rows
    → delete_ids ids rows ≡ rows
unfolding delete_ids select
delete_ids_of_kept ids [] h = refl
delete_ids_of_kept ids (r ∷ rows) h = ground (arith, delete_ids_of_kept ids rows h.1)
