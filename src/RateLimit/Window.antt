-- ===== src/RateLimit/Window.antt =====
-- dashboard/app/security/rate_limit.py: the hits of a key in its window.
use opnsense_hub.Base.{
  ℕ, ◌+◌, ◌<◌, ◌≤◌, Bool, true, ltb, Bool-cases, All, All-map, All-select, All-snoc, ◌≡◌, ◌≢◌, ◌⊎◌,
  refl, ◌∙◌, Option, none, some, List, [], ◌∷◌, ◌++◌, arith, Text, text_eq, text_beq_iff, length,
  select, leb, if◌then◌else◌, inl, inr, ok, err, http_exception, ap,
}
use opnsense_hub.Base.Decimal.{str, int-str, rsplit_once-str, rsplit_once-append}
use mathlib.Core.List.{append_assoc}
use opnsense_hub.Models.{seconds}
use opnsense_hub.RateLimit.{
  Buckets, MemoryRateLimitBackend, drop_old, window_of, bucket_key, prune_expired_locked, lookup,
  evict, claim, hit,
}
use opnsense_hub.RateLimit.Buckets.{
  NodupKeys, IsBounded, claim-pruned, lookup-append, lookup-without, lookup-prune_none,
}

-- Pruning reads the window of a bucket back from its key.
pub window_of-bucket_key :
    (bucket key : Text) (window : ℕ) → window_of (bucket_key bucket key window) ≡ window
unfolding window_of bucket_key
window_of-bucket_key bucket key window = rw (
  ← append_assoc bucket (b':' ∷ key) (b':' ∷ str window),
  rsplit_once-append b':' (bucket ++ (b':' ∷ key)) (str window)
      (rsplit_once-str b':' window (omega arith)),
  int-str,
)

drop_old-drop_old :
    (now w : ℕ) (ts : List ℕ) → drop_old now w (drop_old now w ts) ≡ drop_old now w ts
unfolding drop_old
drop_old-drop_old now w [] = refl
drop_old-drop_old now w (t ∷ ts) = ground (arith, drop_old-drop_old now w ts)

-- The hits of a bucket that count at the time `now`.
abbrev pub entries_of : Option (List ℕ) → List ℕ
entries_of none = []
entries_of (some e) = e

-- Whether a hit at the time `t` lies in the window that ends now.
abbrev pub in_window : (now window t : ℕ) → Bool
in_window now window t = ltb now (t + seconds window)

-- Times in their order, none of them after `now`.
abbrev pub IsOrdered : (now : ℕ) → List ℕ → Type 0
IsOrdered now [] = Unit
IsOrdered now (t ∷ ts) = (t ≤ now) × All (λ u. t ≤ u) ts × IsOrdered now ts

select-eq : (p : ℕ → Bool) (ts : List ℕ) → All (λ t. p t ≡ true) ts → select p ts ≡ ts
unfolding select
select-eq p [] h = refl
select-eq p (t ∷ ts) h = rw (h.0, select-eq p ts h.1) refl

-- In ordered times the old ones stand first.
drop_old-select :
    (now w : ℕ) (ts : List ℕ) → IsOrdered now ts → drop_old now w ts ≡ select (in_window now w) ts
unfolding drop_old select
drop_old-select now w [] h = refl
drop_old-select now w (t ∷ ts) h = elim (Bool-cases (leb (t + seconds w) now)) [
  | inl e ↦ ground (arith, drop_old-select now w ts h.2)
  | inr e ↦
      let kept =
        select-eq (in_window now w) ts
          (All-map (λ u. t ≤ u) _ ts (λ u le. ground (arith, le, e)) h.1) in
      ground (arith, kept)
]

IsOrdered-select :
    (now : ℕ) (p : ℕ → Bool) (ts : List ℕ) → IsOrdered now ts → IsOrdered now (select p ts)
unfolding select
IsOrdered-select now p [] h = tt
IsOrdered-select now p (t ∷ ts) h = elim (Bool-cases (p t)) [
  | inl e ↦ rw e (h.0, All-select (λ u. t ≤ u) p ts h.1, IsOrdered-select now p ts h.2)
  | inr e ↦ rw e (IsOrdered-select now p ts h.2)
]

IsOrdered-snoc : (now : ℕ) (ts : List ℕ) → IsOrdered now ts → IsOrdered now (ts ++ (now ∷ []))
IsOrdered-snoc now [] h = (omega arith, tt, tt)
IsOrdered-snoc now (t ∷ ts) h =
    (h.0, All-snoc (λ u. t ≤ u) ts now h.1 h.0, IsOrdered-snoc now ts h.2)

unfoldable pub recent : (now window : ℕ) (key : Text) → Buckets → List ℕ
recent now window key bs = drop_old now window (entries_of (lookup key bs))

drop_old-lookup-prune :
    (now : ℕ) (key : Text) (bs : Buckets)
    → NodupKeys bs
    → drop_old now (window_of key) (entries_of (lookup key (prune_expired_locked now bs)))
      ≡ drop_old now (window_of key) (entries_of (lookup key bs))
unfolding prune_expired_locked lookup select
drop_old-lookup-prune now key [] u = refl
drop_old-lookup-prune now key ((k, e) ∷ bs) u = ground (
  arith,
  drop_old-lookup-prune now key bs u.1,
  lookup-prune_none now k bs u.0,
  drop_old-drop_old now (window_of key) e,
  text_beq_iff k key,
)

lookup-snoc :
    (key : Text) (e : List ℕ) (bs : Buckets)
    → lookup key bs ≡ none
    → lookup key (bs ++ ((key, e) ∷ [])) ≡ some e
unfolding lookup
lookup-snoc key e bs h =
    lookup-append key bs ((key, e) ∷ []) h ∙ ground (arith, text_beq_iff key key)

lookup-snoc_ne :
    (key j : Text) (e : List ℕ) (bs : Buckets)
    → key ≢ j
    → lookup j (bs ++ ((key, e) ∷ [])) ≡ lookup j bs
unfolding lookup
lookup-snoc_ne key j e [] h = ground (arith, text_beq_iff key j)
lookup-snoc_ne key j e (b ∷ bs) h = ground (arith, lookup-snoc_ne key j e bs h)

claim_entries :
    (n : ℕ) (key : Text) (o : Option (List ℕ)) (bs : Buckets) → (claim n key o bs).1 ≡ entries_of o
unfolding claim
claim_entries n key none bs = refl
claim_entries n key (some e) bs = refl

evict_of_room : (n : ℕ) (bs : Buckets) → length bs < n → evict n bs ≡ bs
unfolding evict
evict_of_room n [] h = refl
evict_of_room n (b ∷ bs) h = ground arith

claim-lookup_ne :
    (n : ℕ) (key j : Text) (o : Option (List ℕ)) (bs : Buckets)
    → key ≢ j
    → (o ≢ none) ⊎ (length bs < n)
    → lookup j (claim n key o bs).0 ≡ lookup j bs
unfolding claim
claim-lookup_ne n key j none bs ne (inl found) = absurd (found refl)
claim-lookup_ne n key j none bs ne (inr room) = rw (evict_of_room n bs room)
claim-lookup_ne n key j (some e) bs ne r =
    ground (arith, lookup-without key j bs, text_beq_iff key j)

module _ (now : ℕ) (bucket key : Text) (limit window : ℕ) (b : MemoryRateLimitBackend) where
  abbrev pub name : Text
  name = bucket_key bucket key window

  -- The hits of the key that are recorded, and those of them in the window.
  abbrev pub recorded : List ℕ
  recorded = entries_of (lookup name b.buckets)

  abbrev pub counted : List ℕ
  counted = select (in_window now window) recorded

  abbrev pruned : Buckets
  pruned = prune_expired_locked now b.buckets

  live-eq-counted :
      NodupKeys b.buckets
      → IsOrdered now recorded
      → drop_old now window (claim b.max_buckets name (lookup name pruned) pruned).1 ≡ counted
  live-eq-counted u o =
      ap (drop_old now window) (claim_entries b.max_buckets name (lookup name pruned) pruned)
      ∙ (rw window_of-bucket_key at (drop_old-lookup-prune now name b.buckets u))
      ∙ drop_old-select now window recorded o

  -- The recorded hits of a key are in the order of their times, none after now. A hit is let through
  -- exactly if fewer than `limit` of them are less than the window old, and it is refused with 429
  -- otherwise. The bucket of the key then holds these hits, and the new one behind them if it was let
  -- through, again in order. The table is within its bounds.
  pub hit-decides :
      IsBounded b
      → IsOrdered now recorded
      → ((hit now bucket key limit window b).0 ≡ (
          if leb limit (length counted)
          then err (http_exception 429 "rate limit exceeded")
          else ok tt))
        × (lookup name (hit now bucket key limit window b).1.buckets
            ≡ some (if leb limit (length counted) then counted else counted ++ (now ∷ [])))
        × IsOrdered now (entries_of (lookup name (hit now bucket key limit window b).1.buckets))
  unfolding hit
  hit-decides h o =
      let c = claim b.max_buckets name (lookup name pruned) pruned in
      let absent = (claim-pruned now name b h).absent in
      let order = IsOrdered-select now (in_window now window) recorded o in
      let left : lookup name (hit now bucket key limit window b).1.buckets
          ≡ some (if leb limit (length counted) then counted else counted ++ (now ∷ [])) =
        ground (
          arith,
          live-eq-counted h.nodup o,
          lookup-snoc name (drop_old now window c.1) c.0 absent,
          lookup-snoc name (drop_old now window c.1 ++ (now ∷ [])) c.0 absent,
        ) in
      (
        ground (arith, live-eq-counted h.nodup o),
        left,
        rw left (elim (Bool-cases (leb limit (length counted))) [
          | inl e ↦ rw e order
          | inr e ↦ rw e (IsOrdered-snoc now counted order)
        ]),
      )

  -- A hit of one key does not change which hits of another key count, if the table already holds a
  -- live bucket of the first key or has room for one.
  pub hit-isolated :
      (j : Text)
      → IsBounded b
      → name ≢ j
      → ((lookup name pruned ≢ none) ⊎ (length pruned < b.max_buckets))
      → recent now (window_of j) j (hit now bucket key limit window b).1.buckets
        ≡ recent now (window_of j) j b.buckets
  unfolding hit recent
  hit-isolated j h n r =
      let c = claim b.max_buckets name (lookup name pruned) pruned in
      ground (
        arith,
        lookup-snoc_ne name j (drop_old now window c.1) c.0,
        lookup-snoc_ne name j (drop_old now window c.1 ++ (now ∷ [])) c.0,
        claim-lookup_ne b.max_buckets name j (lookup name pruned) pruned n r,
        drop_old-lookup-prune now j b.buckets h.nodup,
      )
