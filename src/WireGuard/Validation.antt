-- ===== src/WireGuard/Validation.antt =====
-- dashboard/app/wireguard.py: accepted configurations of the overlay network.
use opnsense_hub.Base.{
  ℕ, zero, suc, ◌-◌, ◌^◌, ◌≤◌, ◌<◌, ◌≡◌, ◌⊎◌, Bool, true, Option, none, some, ok, Text, nat_eq,
  >>=-eq-ok, arith,
}
use opnsense_hub.WireGuard.{
  IpPrefix, prefix4, prefix6, IpParsers, Network, network_address, broadcast_address, in_network,
  ValidatedWireGuardConfig, check_network, check_interface, validate_hub_wireguard_config,
}

-- The Hub's address lies strictly inside an IPv4 network that is neither the whole address space nor,
-- unless allowed, wider than a /12, and that has room for hosts.
pub record IsUsable (v : ValidatedWireGuardConfig) (allow_broad : Bool) : Type 0 where
  pub not_all : 1 ≤ v.network.prefixlen
  pub narrow : (12 ≤ v.network.prefixlen) ⊎ (allow_broad ≡ true)
  pub has_hosts : v.network.prefixlen ≤ 30
  pub above : network_address v.network < v.hub_ip
  pub below : v.hub_ip < broadcast_address v.network

check_network-eq-ok :
    (o : Option IpPrefix) (broad : Bool) (n : Network)
    → check_network o broad ≡ ok n
    → (1 ≤ n.prefixlen) × ((12 ≤ n.prefixlen) ⊎ (broad ≡ true))
unfolding check_network
check_network-eq-ok none broad n h = cc
check_network-eq-ok (some (prefix6 a p)) broad n h = cc
check_network-eq-ok (some (prefix4 a p)) broad n h = ground arith

-- Up to two addresses from a /31 on.
num_addresses_small : (k : ℕ) → k ≤ 1 → 2 ^ k ≤ 2
num_addresses_small zero h = omega arith
num_addresses_small (suc zero) h = omega arith
num_addresses_small (suc (suc k)) h = absurd (omega arith)

check_interface-eq-ok :
    (o : Option IpPrefix) (n : Network) (v : ValidatedWireGuardConfig)
    → check_interface o n ≡ ok v
    → (v.network ≡ n)
      × (network_address n < v.hub_ip)
      × (v.hub_ip < broadcast_address n)
      × (n.prefixlen ≤ 30)
unfolding check_interface in_network broadcast_address
check_interface-eq-ok none n v h = cc
check_interface-eq-ok (some (prefix6 a p)) n v h = cc
check_interface-eq-ok (some (prefix4 a p)) n v h =
    ground (arith, num_addresses_small (32 - n.prefixlen))

-- Every configuration that passes the check is usable.
pub validate_hub_wireguard_config-IsUsable :
    (ips : IpParsers) (cidr address : Text) (allow_broad : Bool) (v : ValidatedWireGuardConfig)
    → validate_hub_wireguard_config ips cidr address allow_broad ≡ ok v
    → IsUsable v allow_broad
unfolding validate_hub_wireguard_config
validate_hub_wireguard_config-IsUsable ips cidr address broad v h =
    let (n, p, q) =
      >>=-eq-ok (check_network (ips.ip_network cidr) broad)
        (check_interface (ips.ip_interface address)) h in
    let (e, above, below, hosts) = check_interface-eq-ok (ips.ip_interface address) n v q in
    let (first, narrow) = check_network-eq-ok (ips.ip_network cidr) broad n p in ground arith
