-- ===== src/RateLimit/Buckets.antt =====
-- dashboard/app/security/rate_limit.py: the size and the keys of the table.
use opnsense_hub.Base.{
  ℕ, ◌+◌, ◌≤◌, ◌≡◌, refl, Bool, Option, none, some, List, [], ◌∷◌, ◌++◌, map, arith, Text, ◌==◌,
  text_eq, text_beq_iff, length, length-append, select, if◌then◌else◌,
}
use opnsense_hub.RateLimit.{
  Buckets, MemoryRateLimitBackend, expire, is_used, drop_old, bucket_key, prune_expired_locked,
  lookup, without, evict, claim, hit,
}

-- A Python dict holds a key once.
abbrev pub NodupKeys : Buckets → Type 0
NodupKeys [] = Unit
NodupKeys ((k, _) ∷ bs) = (lookup k bs ≡ none) × NodupKeys bs

-- The table holds at most `max_buckets` buckets, which is at least one.
pub record IsBounded (b : MemoryRateLimitBackend) : Type 0 where
  pub room : 1 ≤ b.max_buckets
  pub fits : length b.buckets ≤ b.max_buckets
  pub nodup : NodupKeys b.buckets

length-select : (p : Text × List ℕ → Bool) (bs : Buckets) → length (select p bs) ≤ length bs
unfolding select
length-select p [] = omega arith
length-select p (b ∷ bs) = ground (arith, length-select p bs)

length-expire : (now : ℕ) (bs : Buckets) → length (map (expire now) bs) ≡ length bs
length-expire now [] = refl
length-expire now (b ∷ bs) = omega (arith, length-expire now bs)

length-prune : (now : ℕ) (bs : Buckets) → length (prune_expired_locked now bs) ≤ length bs
unfolding prune_expired_locked
length-prune now bs =
    omega (arith, length-select is_used (map (expire now) bs), length-expire now bs)

length-evict : (n : ℕ) (bs : Buckets) → 1 ≤ n → length (evict n bs) + 1 ≤ n
unfolding evict
length-evict n [] h = omega arith
length-evict n (b ∷ bs) h = ground (arith, length-evict n bs h)

length-without : (key : Text) (bs : Buckets) → length (without key bs) ≤ length bs
unfolding without
length-without key [] = omega arith
length-without key (b ∷ bs) = ground (arith, length-without key bs)

length-without_found :
    (key : Text) (e : List ℕ) (bs : Buckets)
    → lookup key bs ≡ some e
    → length (without key bs) + 1 ≤ length bs
unfolding without lookup
length-without_found key e [] h = ground arith
length-without_found key e (b ∷ bs) h =
    ground (arith, length-without key bs, length-without_found key e bs)

lookup-select-none :
    (p : Text × List ℕ → Bool) (key : Text) (bs : Buckets)
    → lookup key bs ≡ none
    → lookup key (select p bs) ≡ none
unfolding lookup select
lookup-select-none p key [] h = h
lookup-select-none p key (b ∷ bs) h = ground (arith, lookup-select-none p key bs)

lookup-expire-none :
    (now : ℕ) (key : Text) (bs : Buckets)
    → lookup key bs ≡ none
    → lookup key (map (expire now) bs) ≡ none
unfolding lookup
lookup-expire-none now key [] h = h
lookup-expire-none now key (b ∷ bs) h = ground (arith, lookup-expire-none now key bs)

pub lookup-prune_none :
    (now : ℕ) (key : Text) (bs : Buckets)
    → lookup key bs ≡ none
    → lookup key (prune_expired_locked now bs) ≡ none
unfolding prune_expired_locked
lookup-prune_none now key bs h =
    lookup-select-none is_used key (map (expire now) bs) (lookup-expire-none now key bs h)

NodupKeys-select :
    (p : Text × List ℕ → Bool) (bs : Buckets) → NodupKeys bs → NodupKeys (select p bs)
unfolding select
NodupKeys-select p [] h = tt
NodupKeys-select p (b ∷ bs) h =
    ground (arith, NodupKeys-select p bs h.1, lookup-select-none p b.0 bs h.0)

NodupKeys-expire : (now : ℕ) (bs : Buckets) → NodupKeys bs → NodupKeys (map (expire now) bs)
NodupKeys-expire now [] h = tt
NodupKeys-expire now (b ∷ bs) h = (lookup-expire-none now b.0 bs h.0, NodupKeys-expire now bs h.1)

pub NodupKeys-prune :
    (now : ℕ) (bs : Buckets) → NodupKeys bs → NodupKeys (prune_expired_locked now bs)
unfolding prune_expired_locked
NodupKeys-prune now bs h =
    NodupKeys-select is_used (map (expire now) bs) (NodupKeys-expire now bs h)

pub lookup-without :
    (key j : Text) (bs : Buckets)
    → lookup j (without key bs) ≡ (if key == j then none else lookup j bs)
unfolding lookup without
lookup-without key j [] = ground arith
lookup-without key j ((k, e) ∷ bs) =
    ground
      (arith, lookup-without key j bs, text_beq_iff k key, text_beq_iff k j, text_beq_iff key j)

NodupKeys-without : (key : Text) (bs : Buckets) → NodupKeys bs → NodupKeys (without key bs)
unfolding without
NodupKeys-without key [] h = tt
NodupKeys-without key ((k, e) ∷ bs) h =
    ground (arith, NodupKeys-without key bs h.1, lookup-without key k bs)

lookup-evict-none :
    (n : ℕ) (key : Text) (bs : Buckets) → lookup key bs ≡ none → lookup key (evict n bs) ≡ none
unfolding lookup evict
lookup-evict-none n key [] h = h
lookup-evict-none n key (b ∷ bs) h = ground (arith, lookup-evict-none n key bs)

NodupKeys-evict : (n : ℕ) (bs : Buckets) → NodupKeys bs → NodupKeys (evict n bs)
unfolding evict
NodupKeys-evict n [] h = tt
NodupKeys-evict n (b ∷ bs) h = ground (arith, NodupKeys-evict n bs h.1)

pub lookup-append :
    (key : Text) (bs cs : Buckets) → lookup key bs ≡ none → lookup key (bs ++ cs) ≡ lookup key cs
unfolding lookup
lookup-append key [] cs h = refl
lookup-append key (b ∷ bs) cs h = ground (arith, lookup-append key bs cs)

NodupKeys-snoc :
    (key : Text) (e : List ℕ) (bs : Buckets)
    → NodupKeys bs
    → lookup key bs ≡ none
    → NodupKeys (bs ++ ((key, e) ∷ []))
unfolding lookup
NodupKeys-snoc key e [] h k = (refl, tt)
NodupKeys-snoc key e ((j, f) ∷ bs) h k = ground (
  arith,
  NodupKeys-snoc key e bs h.1,
  lookup-append j bs ((key, e) ∷ []),
  text_beq_iff key j,
  text_beq_iff j key,
)

pub record IsClaimed (n : ℕ) (key : Text) (others : Buckets) : Type 0 where
  pub room : length others + 1 ≤ n
  pub nodup : NodupKeys others
  pub absent : lookup key others ≡ none

claim-IsClaimed :
    (n : ℕ) (key : Text) (o : Option (List ℕ)) (bs : Buckets)
    → 1 ≤ n
    → length bs ≤ n
    → NodupKeys bs
    → lookup key bs ≡ o
    → IsClaimed n key (claim n key o bs).0
unfolding claim
claim-IsClaimed n key none bs one fits u e = record {
  room = length-evict n bs one;
  nodup = NodupKeys-evict n bs u;
  absent = lookup-evict-none n key bs e;
}
claim-IsClaimed n key (some x) bs one fits u e = record {
  room = omega (arith, length-without_found key x bs e);
  nodup = NodupKeys-without key bs u;
  absent = ground (arith, lookup-without key key bs, text_beq_iff key key);
}

pub claim-pruned :
    (now : ℕ) (name : Text) (b : MemoryRateLimitBackend)
    → IsBounded b
    → let pruned = prune_expired_locked now b.buckets in
      IsClaimed b.max_buckets name (claim b.max_buckets name (lookup name pruned) pruned).0
claim-pruned now name b h =
    let pruned = prune_expired_locked now b.buckets in
    claim-IsClaimed b.max_buckets name (lookup name pruned) pruned h.room
      (omega (arith, h.fits, length-prune now b.buckets)) (NodupKeys-prune now b.buckets h.nodup)
      refl

-- A hit, whether it is let through or refused, keeps the table within `max_buckets` buckets and
-- every key in it once.
pub hit-IsBounded :
    (now : ℕ) (bucket key : Text) (limit window : ℕ) (b : MemoryRateLimitBackend)
    → IsBounded b
    → IsBounded (hit now bucket key limit window b).1
unfolding hit
hit-IsBounded now bucket key limit window b h =
    let name = bucket_key bucket key window in
    let pruned = prune_expired_locked now b.buckets in
    let c = claim b.max_buckets name (lookup name pruned) pruned in
    let ok = claim-pruned now name b h in
    let live = drop_old now window c.1 in
    ground (
      arith,
      ok.room,
      length-append c.0 ((name, live) ∷ []),
      length-append c.0 ((name, live ++ (now ∷ [])) ∷ []),
      NodupKeys-snoc name live c.0 ok.nodup ok.absent,
      NodupKeys-snoc name (live ++ (now ∷ [])) c.0 ok.nodup ok.absent,
    )
