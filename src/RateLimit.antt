-- ===== src/RateLimit.antt =====
-- dashboard/app/security/rate_limit.py: the limiter that keeps its buckets in memory, and the choice
-- of the backend. The clock is an argument. A table is an `OrderedDict`, the bucket that was used
-- longest ago first; the lock makes each hit one step.
pub mod Buckets
pub mod Window
use opnsense_hub.Base.{
  ℕ, ◌+◌, Bool, true, false, Option, none, some, List, [], ◌∷◌, ◌++◌, map, Result, ok, err,
  http_exception, runtime_error, Text, codes, ◌==◌, nat_eq, text_eq, max, length, select, leb,
  strip, lower, rsplit_once, if◌then◌else◌,
}
use opnsense_hub.Base.Decimal.{str, int}
use opnsense_hub.Models.{seconds}

-- A bucket: its key, and the times of the hits that it let through, oldest first.
abbrev pub Buckets : Type 0
Buckets = List (Text × List ℕ)

pub record MemoryRateLimitBackend : Type 0 where
  pub max_buckets : ℕ
  pub buckets : Buckets

-- `max(1, max_buckets or settings.rate_limit_memory_max_buckets)`, no buckets
unfoldable pub new_backend : Option ℕ → ℕ → MemoryRateLimitBackend
new_backend none configured = record { max_buckets = max 1 configured; buckets = [] }
new_backend (some n) configured = record {
  max_buckets = max 1 (if n == 0 then configured else n);
  buckets = [];
}

unfoldable pub bucket_key : (bucket key : Text) (window_seconds : ℕ) → Text
bucket_key bucket key window_seconds = bucket ++ (b':' ∷ (key ++ (b':' ∷ str window_seconds)))

-- `while entries and entries[0] <= now - window_seconds: entries.popleft()`
unfoldable pub drop_old : (now window_seconds : ℕ) → List ℕ → List ℕ
drop_old now w [] = []
drop_old now w (t ∷ ts) =
    let rest = drop_old now w ts in if leb (t + seconds w) now then rest else t ∷ ts

abbrev or_zero : Option ℕ → ℕ
or_zero none = 0
or_zero (some n) = n

abbrev last_part : Text → Option (Text × Text) → Text
last_part key none = key
last_part key (some (_, tail)) = tail

-- `int(bucket_key.rsplit(":", 1)[-1])`, or 0 if that is no number
unfoldable pub window_of : Text → ℕ
window_of key = or_zero (int (last_part key (rsplit_once b':' key)))

abbrev pub expire : ℕ → Text × List ℕ → Text × List ℕ
expire now (key, entries) = (key, drop_old now (window_of key) entries)

abbrev is_used : Text × List ℕ → Bool
is_used (key, []) = false
is_used (key, _ ∷ _) = true

unfoldable pub prune_expired_locked : ℕ → Buckets → Buckets
prune_expired_locked now buckets = select is_used (map (expire now) buckets)

unfoldable pub lookup : Text → Buckets → Option (List ℕ)
lookup key [] = none
lookup key ((k, entries) ∷ buckets) = if k == key then some entries else lookup key buckets

unfoldable pub without : Text → Buckets → Buckets
without key [] = []
without key ((k, entries) ∷ buckets) =
    let rest = without key buckets in if k == key then rest else (k, entries) ∷ rest

-- `while len(self._buckets) >= self._max_buckets: self._buckets.popitem(last=False)`
unfoldable pub evict : ℕ → Buckets → Buckets
evict limit [] = []
evict limit (b ∷ buckets) =
    let rest = evict limit buckets in if leb limit (length (b ∷ buckets)) then rest else b ∷ buckets

-- The other buckets, and the entries of the bucket of the key, which goes to the end.
unfoldable pub claim : ℕ → Text → Option (List ℕ) → Buckets → Buckets × List ℕ
claim limit key none buckets = (evict limit buckets, [])
claim limit key (some entries) buckets = (without key buckets, entries)

-- One hit: the answer and the table after it.
unfoldable pub hit :
    (now : ℕ) (bucket key : Text) (limit window_seconds : ℕ)
    → MemoryRateLimitBackend
    → Result (Unit {0}) × MemoryRateLimitBackend
hit now bucket key limit window_seconds backend =
    let name = bucket_key bucket key window_seconds in
    let pruned = prune_expired_locked now backend.buckets in
    let (others, entries) = claim backend.max_buckets name (lookup name pruned) pruned in
    let live = drop_old now window_seconds entries in
    if leb limit (length live)
    then (
      err (http_exception 429 "rate limit exceeded"),
      record backend { buckets = others ++ ((name, live) ∷ []) },
    )
    else (ok tt, record backend { buckets = others ++ ((name, live ++ (now ∷ [])) ∷ []) })

unfoldable pub clear : MemoryRateLimitBackend → MemoryRateLimitBackend
clear backend = record backend { buckets = [] }

pub data Backend : Type 0 where
  memory redis edge : Backend

-- `RateLimiter._build_backend`, from the two settings that it reads. `redis_installed` tells whether
-- the import of the redis package succeeded, which the backend's constructor asks.
unfoldable pub build_backend :
    (redis_installed : Bool) (rate_limit_backend rate_limit_redis_url : Text) → Result Backend
build_backend redis_installed name url =
    let backend = lower (strip name) in
    if backend == codes "redis"
    then (if url == []
        then err (runtime_error "RATE_LIMIT_REDIS_URL is required when RATE_LIMIT_BACKEND=redis")
        else if redis_installed
        then ok redis
        else err (runtime_error "redis package is not installed"))
    else if backend == codes "edge"
    then ok edge
    else ok memory
