-- ===== src/Tests/Overlay.antt =====
-- The overlay network, on a network of eight addresses.
use opnsense_hub.Base.{
  ℕ, ◌+◌, ◌≤◌, ◌<◌, ◌≡◌, ◌≢◌, ◌⊎◌, ◌↔◌, refl, Bool, true, false, Option, none, some, List, [], ◌∷◌,
  Result, ok, err, arith, Text, codes, ◌==◌, text_eq, length, if◌then◌else◌,
}
use opnsense_hub.WireGuard.{
  IpAddress, ipv4, IpPrefix, prefix4, IpParsers, Network, ValidatedWireGuardConfig, network_address,
  broadcast_address, num_addresses, validate_hub_wireguard_config, used_ips, next_tunnel_ip,
  validate_public_key, Settings, agent_enabled, peer_allowed_ips, wg_set_peer, add_peer,
}
use opnsense_hub.WireGuard.Validation.{validate_hub_wireguard_config-IsUsable}
use opnsense_hub.WireGuard.Allocation.{IsFree, next_tunnel_ip-IsFree, next_tunnel_ip_total}
use opnsense_hub.WireGuard.Keys.{IsKey, validate_public_key-IsKey, add_peer-routes}

-- A parser that knows the texts of these tests.
abbrev ips : IpParsers
ips = record {
  ip_network = λ t. some (prefix4 16 29);
  ip_interface = λ t. some (prefix4 17 29);
  ip_address = λ t. if t == codes "18" then some (ipv4 18) else some (ipv4 19);
}

abbrev config : ValidatedWireGuardConfig
config = record {
  network = record { address = 16; prefixlen = 29 };
  hub_ip = 17;
  hub_prefixlen = 29;
}

next_tunnel_ip-IsFree_example : IsFree ips config (codes "18" ∷ []) 19
unfolding validate_hub_wireguard_config opnsense_hub.WireGuard.check_network
    opnsense_hub.WireGuard.check_interface opnsense_hub.WireGuard.in_network network_address
    broadcast_address next_tunnel_ip used_ips opnsense_hub.WireGuard.check_stored
    opnsense_hub.Base.text_beq opnsense_hub.WireGuard.first_free opnsense_hub.WireGuard.hosts
    opnsense_hub.Base.contains
next_tunnel_ip-IsFree_example =
    next_tunnel_ip-IsFree ips config false
      (validate_hub_wireguard_config-IsUsable ips (codes "net") (codes "hub") false config refl)
      (codes "18" ∷ []) 19 refl

next_tunnel_ip_total_example : (ip : ℕ) × (next_tunnel_ip ips config (codes "18" ∷ []) ≡ ok ip)
unfolding validate_hub_wireguard_config opnsense_hub.WireGuard.check_network
    opnsense_hub.WireGuard.check_interface opnsense_hub.WireGuard.in_network network_address
    broadcast_address used_ips opnsense_hub.WireGuard.check_stored opnsense_hub.Base.text_beq
next_tunnel_ip_total_example =
    next_tunnel_ip_total ips config false
      (validate_hub_wireguard_config-IsUsable ips (codes "net") (codes "hub") false config refl)
      (codes "18" ∷ []) (18 ∷ 17 ∷ []) refl (omega arith)

validate_public_key-IsKey_example :
    (validate_public_key (codes "AAAAAAAAAAAAAAAAAAAAAAAAAAAAAAAAAAAAAAAAAAA=") ≡ ok tt)
    ↔ IsKey 43 (codes "AAAAAAAAAAAAAAAAAAAAAAAAAAAAAAAAAAAAAAAAAAA=")
validate_public_key-IsKey_example =
    validate_public_key-IsKey (codes "AAAAAAAAAAAAAAAAAAAAAAAAAAAAAAAAAAAAAAAAAAA=")

abbrev settings : Settings
settings = record { wg_dry_run = false; wg_agent_url_set = false; wg_agent_mode = false }

abbrev key : Text
key = codes "AAAAAAAAAAAAAAAAAAAAAAAAAAAAAAAAAAAAAAAAAAA="

add_peer-routes_example :
    ((peer_allowed_ips 18).1 ≡ 32)
    × (key ≡ key)
    × (network_address config.network ≤ 18)
    × (18 ≤ broadcast_address config.network)
    × (18 ≢ config.hub_ip)
    × (settings.wg_dry_run ≡ false)
    × (agent_enabled settings ≡ false)
unfolding add_peer validate_public_key opnsense_hub.WireGuard.matches_key
    opnsense_hub.WireGuard.check_peer_ip opnsense_hub.Base.text_beq
    opnsense_hub.WireGuard.in_network network_address broadcast_address
add_peer-routes_example = add_peer-routes ips settings config key (codes "18") key 18 32 refl
