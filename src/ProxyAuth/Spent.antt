-- ===== src/ProxyAuth/Spent.antt =====
-- dashboard/app/services/proxy_auth.py: rows of grants that are spent: consumed, or of no live row.
use opnsense_hub.Base.{
  ℕ, String, ◌≡◌, ◌≢◌, Bool, true, ◌||◌, not, Option, none, some, List, [], ◌∷◌, map, ok, err,
  http_exception, arith, All, All-select, ◌==◌, nat_eq, string_eq, find, select, is_some, eq_iff,
  Bool-cases, inl, inr,
}
use mathlib.Core.Path.{subst}
use opnsense_hub.Models.{DeviceProxySession, Db}
use opnsense_hub.ProxyAuth.{proxy_grant_phase, usable_grant, consume, has_hash}

-- No row of the hash `h` is a grant that could still be exchanged.
abbrev pub is_spent : String → DeviceProxySession → Bool
is_spent h r =
    not (r.token_hash == h) || is_some r.consumed_at || not (r.phase == proxy_grant_phase)

abbrev pub IsSpent : String → Db → Type 0
IsSpent h db = All (λ r. is_spent h r ≡ true) db.proxy_sessions

-- The unique constraint on the column `token_hash`.
abbrev pub HasUniqueHashes : List DeviceProxySession → Type 0
HasUniqueHashes [] = Unit
HasUniqueHashes (r ∷ rs) = All (λ x. x.token_hash ≢ r.token_hash) rs × HasUniqueHashes rs

pub HasUniqueHashes-select :
    (p : DeviceProxySession → Bool) (rs : List DeviceProxySession)
    → HasUniqueHashes rs
    → HasUniqueHashes (select p rs)
unfolding select
HasUniqueHashes-select p [] u = tt
HasUniqueHashes-select p (r ∷ rs) u =
    ground (
      arith,
      All-select (λ x. x.token_hash ≢ r.token_hash) p rs u.0,
      HasUniqueHashes-select p rs u.1,
    )

-- Rows of other hashes are spent, and stay so.
pub spent_of_others :
    (now id : ℕ) (h : String) (rs : List DeviceProxySession)
    → All (λ x. x.token_hash ≢ h) rs
    → All (λ r. is_spent h r ≡ true) (map (consume now id) rs)
spent_of_others now id h [] u = tt
spent_of_others now id h (r ∷ rs) u =
    (ground (arith, eq_iff r.token_hash h), spent_of_others now id h rs u.1)

-- Consuming the row that was found leaves no usable grant of its hash.
pub consume_found :
    (now : ℕ) (h : String) (g : DeviceProxySession) (rs : List DeviceProxySession)
    → HasUniqueHashes rs
    → find (has_hash h) rs ≡ some g
    → All (λ r. is_spent h r ≡ true) (map (consume now g.id) rs)
unfolding find
consume_found now h g [] u e = tt
consume_found now h g (r ∷ rs) (others, u) e = elim (Bool-cases (r.token_hash == h)) [
  | inl hit ↦ (
    ground arith,
    spent_of_others now g.id h rs
        (subst (λ k. All (λ x. x.token_hash ≢ k) rs) ((eq_iff r.token_hash h).0 hit) others),
  )
  | inr miss ↦ ground (arith, consume_found now h g rs u)
]

-- A spent token is refused.
pub usable_grant-IsSpent :
    (now : ℕ) (h : String) (rs : List DeviceProxySession)
    → All (λ r. is_spent h r ≡ true) rs
    → usable_grant now (find (has_hash h) rs)
      ≡ err (http_exception 401 "invalid or expired proxy grant")
unfolding usable_grant find
usable_grant-IsSpent now h [] s = ground arith
usable_grant-IsSpent now h (r ∷ rs) s = ground (arith, usable_grant-IsSpent now h rs s.1)

pub usable_grant-eq-ok :
    (now : ℕ) (o : Option DeviceProxySession) (g : DeviceProxySession)
    → usable_grant now o ≡ ok g
    → o ≡ some g
unfolding usable_grant
usable_grant-eq-ok now none g h = cc
usable_grant-eq-ok now (some r) g h = ground arith
