-- ===== src/WireGuard/Allocation.antt =====
-- dashboard/app/wireguard.py: the allocation of tunnel addresses by `next_tunnel_ip`.
use opnsense_hub.Base.{
  ℕ, zero, suc, ◌+◌, ◌-◌, ◌≤◌, ◌<◌, ◌≡◌, ◌≢◌, ◌⊎◌, inl, inr, Bool, true, false, ◌||◌, Option, none,
  some, List, [], ◌∷◌, ok, Text, ◌==◌, nat_eq, contains, length, >>=-eq-ok, if◌then◌else◌, arith,
  Option-cases, All, numbers, All-numbers,
}
use opnsense_hub.WireGuard.{
  IpAddress, ipv4, ipv6, IpParsers, Network, num_addresses, network_address, broadcast_address,
  ValidatedWireGuardConfig, check_stored, used_ips, first_free, hosts, found, next_tunnel_ip,
}
use opnsense_hub.WireGuard.Validation.{IsUsable}

-- The search returns the first address of its range that is not used.
first_free-eq-some :
    (used : List ℕ) (ip count a : ℕ)
    → first_free used ip count ≡ some a
    → (ip ≤ a) × (a < ip + count) × (contains used a ≡ false)
unfolding first_free
first_free-eq-some used ip zero a h = cc
first_free-eq-some used ip (suc count) a h =
    ground (arith, first_free-eq-some used (ip + 1) count a)

first_free_least :
    (used : List ℕ) (ip count a b : ℕ)
    → first_free used ip count ≡ some a
    → ip ≤ b
    → b < a
    → contains used b ≡ true
unfolding first_free
first_free_least used ip zero a b h le lt = cc
first_free_least used ip (suc count) a b h le lt =
    ground (arith, first_free_least used (ip + 1) count a b)

without : ℕ → List ℕ → List ℕ
without a [] = []
without a (x ∷ xs) = let rest = without a xs in if x == a then rest else x ∷ rest

length-without : (a : ℕ) (xs : List ℕ) → length (without a xs) ≤ length xs
unfolding without
length-without a [] = omega arith
length-without a (x ∷ xs) = ground (arith, length-without a xs)

length-without_contained :
    (a : ℕ) (xs : List ℕ) → contains xs a ≡ true → length (without a xs) + 1 ≤ length xs
unfolding without contains
length-without_contained a [] h = cc
length-without_contained a (x ∷ xs) h =
    ground (arith, length-without a xs, length-without_contained a xs)

contains-without :
    (a b : ℕ) (xs : List ℕ) → a ≢ b → contains xs b ≡ true → contains (without a xs) b ≡ true
unfolding without contains
contains-without a b [] n h = cc
contains-without a b (x ∷ xs) n h = ground (arith, contains-without a b xs)

-- As many different numbers as a range has do not fit into a shorter list.
range-le-length :
    (count ip : ℕ) (used : List ℕ)
    → ((b : ℕ) → ip ≤ b → b < ip + count → contains used b ≡ true)
    → count ≤ length used
range-le-length zero ip used h = omega arith
range-le-length (suc count) ip used h = omega (
  arith,
  length-without_contained ip used (h ip (omega arith) (omega arith)),
  range-le-length count (ip + 1) (without ip used)
      (λ b le lt. contains-without ip b used (omega arith) (h b (omega arith) (omega arith))),
)

first_free-eq-none :
    (used : List ℕ) (ip count b : ℕ)
    → first_free used ip count ≡ none
    → ip ≤ b
    → b < ip + count
    → contains used b ≡ true
unfolding first_free
first_free-eq-none used ip zero b h le lt = absurd (omega arith)
first_free-eq-none used ip (suc count) b h le lt =
    ground (arith, first_free-eq-none used (ip + 1) count b)

abbrev is_address : Option IpAddress → ℕ → Bool
is_address none b = false
is_address (some (ipv6 a)) b = false
is_address (some (ipv4 a)) b = a == b

-- Some stored row holds the address.
unfoldable pub is_stored : IpParsers → List Text → ℕ → Bool
is_stored ips [] b = false
is_stored ips (value ∷ rows) b = is_address (ips.ip_address value) b || is_stored ips rows b

check_stored-is_address :
    (n : Network) (o : Option IpAddress) (a b : ℕ)
    → check_stored n o ≡ ok a
    → is_address o b ≡ (a == b)
unfolding check_stored
check_stored-is_address n none a b h = cc
check_stored-is_address n (some (ipv6 x)) a b h = cc
check_stored-is_address n (some (ipv4 x)) a b h = ground arith

-- The loop over the rows collects the addresses that they hold.
used_ips-contains :
    (ips : IpParsers) (n : Network) (rows : List Text) (used all : List ℕ) (b : ℕ)
    → used_ips ips n rows used ≡ ok all
    → (contains all b ≡ (contains used b || is_stored ips rows b))
      × (length all ≡ length used + length rows)
unfolding used_ips contains is_stored
used_ips-contains ips n [] used all b h = ground arith
used_ips-contains ips n (value ∷ rows) used all b h =
    let (ip, p, q) =
      >>=-eq-ok (check_stored n (ips.ip_address value)) (λ ip. used_ips ips n rows (ip ∷ used)) h in
    ground (
      arith,
      used_ips-contains ips n rows (ip ∷ used) all b q,
      check_stored-is_address n (ips.ip_address value) ip b p,
    )

found-eq-ok : (o : Option ℕ) (ip : ℕ) → found o ≡ ok ip → o ≡ some ip
found-eq-ok none ip h = cc
found-eq-ok (some a) ip h = ground arith

hosts_of_usable :
    (n : Network) → n.prefixlen ≤ 30 → hosts n ≡ (network_address n + 1, num_addresses n - 2)
unfolding hosts
hosts_of_usable n h = ground arith

pub record IsFree (ips : IpParsers) (v : ValidatedWireGuardConfig) (rows : List Text) (ip : ℕ)
    : Type 0 where
  pub above : network_address v.network < ip
  pub below : ip < broadcast_address v.network
  pub not_hub : ip ≢ v.hub_ip
  pub not_stored : is_stored ips rows ip ≡ false
  pub lowest :
      All
        (λ b. (b ≡ v.hub_ip) ⊎ (is_stored ips rows b ≡ true))
        (numbers (network_address v.network + 1) (ip - (network_address v.network + 1)))

module _ (ips : IpParsers) (v : ValidatedWireGuardConfig) (allow_broad : Bool)
    (usable : IsUsable v allow_broad) (rows : List Text) where
  -- In a usable network the address that is handed out is a host address of the network, it is not
  -- the Hub's, and no stored row holds it. Each lower host address is the Hub's or stored.
  pub next_tunnel_ip-IsFree : (ip : ℕ) → next_tunnel_ip ips v rows ≡ ok ip → IsFree ips v rows ip
  unfolding next_tunnel_ip broadcast_address contains
  next_tunnel_ip-IsFree ip h =
      let (all, p, q) = >>=-eq-ok (used_ips ips v.network rows (v.hub_ip ∷ [])) _ h in
      let first = network_address v.network + 1 in
      let count = num_addresses v.network - 2 in
      let e : first_free all first count ≡ some ip =
        rw (hosts_of_usable v.network usable.has_hosts) at (found-eq-ok _ ip q) in
      let f = first_free-eq-some all first count ip e in
      let used = used_ips-contains ips v.network rows (v.hub_ip ∷ []) all ip p in
      record {
        above = ground (arith, f);
        below = ground (arith, f);
        not_hub = ground (arith, f, used);
        not_stored = ground (arith, f, used);
        lowest = All-numbers _ first (ip - first) (λ b lo hi. ground (
          arith,
          first_free_least all first count ip b e,
          used_ips-contains ips v.network rows (v.hub_ip ∷ []) all b p,
        ));
      }

  -- While there are fewer stored rows than host addresses beside the Hub's, and the rows are sound,
  -- an address is found.
  pub next_tunnel_ip_total :
      (all : List ℕ)
      → used_ips ips v.network rows (v.hub_ip ∷ []) ≡ ok all
      → length rows + 3 < num_addresses v.network
      → (ip : ℕ) × (next_tunnel_ip ips v rows ≡ ok ip)
  unfolding next_tunnel_ip broadcast_address contains
  next_tunnel_ip_total all e room =
      let first = network_address v.network + 1 in
      let count = num_addresses v.network - 2 in
      elim (Option-cases (first_free all first count)) [
        | inr (ip, free) ↦ (ip, rw (e, hosts_of_usable v.network usable.has_hosts, free))
        | inl full ↦ absurd (
            omega (
              arith,
              range-le-length count first all
                  (λ b le lt. first_free-eq-none all first count b full le lt),
              (used_ips-contains ips v.network rows (v.hub_ip ∷ []) all 0 e).1,
            ))
      ]
