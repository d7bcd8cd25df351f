-- ===== src/WireGuard.antt =====
-- dashboard/app/wireguard.py: the check of the Hub's overlay network, the format of public keys, the
-- choice of the next tunnel address and the checks before a peer is added.
-- The parsers of Python's `ipaddress` module are the argument `ips`; an address is its integer. Which
-- command runs on the host is the result; running it is not modelled.
pub mod Validation
pub mod Allocation
pub mod Keys
use opnsense_hub.Base.{
  ℕ, zero, suc, ◌+◌, ◌-◌, ◌%◌, ◌^◌, String, Bool, true, false, ◌&&◌, ◌||◌, not, Option, none, some,
  List, [], ◌∷◌, Result, ok, err, wireguard_error, value_error, Text, ◌==◌, nat_eq, contains, leb,
  ltb, ◌>>=◌, ◌>>◌, raise_if, if◌then◌else◌,
}

pub data IpAddress : Type 0 where
  ipv4 : ℕ → IpAddress
  ipv6 : ℕ → IpAddress

-- An address with a prefix length, as `ip_network` and `ip_interface` read it.
pub data IpPrefix : Type 0 where
  prefix4 : (address prefixlen : ℕ) → IpPrefix
  prefix6 : (address prefixlen : ℕ) → IpPrefix

-- `none` stands for a ValueError.
pub record IpParsers : Type 0 where
  pub ip_network : Text → Option IpPrefix
  pub ip_interface : Text → Option IpPrefix
  pub ip_address : Text → Option IpAddress

-- An `IPv4Network`. `strict=False` clears the bits of the address behind the prefix.
pub record Network : Type 0 where
  pub address : ℕ
  pub prefixlen : ℕ

abbrev pub num_addresses : Network → ℕ
num_addresses n = 2 ^ (32 - n.prefixlen)

unfoldable pub network_address : Network → ℕ
network_address n = n.address - n.address % num_addresses n

unfoldable pub broadcast_address : Network → ℕ
broadcast_address n = network_address n + num_addresses n - 1

-- `ip in network`
unfoldable pub in_network : ℕ → Network → Bool
in_network ip n = leb (network_address n) ip && leb ip (broadcast_address n)

pub record ValidatedWireGuardConfig : Type 0 where
  pub network : Network
  pub hub_ip : ℕ
  pub hub_prefixlen : ℕ

unfoldable pub check_network : Option IpPrefix → Bool → Result Network
check_network none allow_broad = err (wireguard_error "invalid HUB_WG_CIDR")
check_network (some (prefix6 a p)) allow_broad =
    err (wireguard_error "HUB_WG_CIDR must be an IPv4 network")
check_network (some (prefix4 a p)) allow_broad =
    if p == 0
    then err (wireguard_error "HUB_WG_CIDR must not be 0.0.0.0/0")
    else if ltb p 12 && not allow_broad
    then err (wireguard_error "HUB_WG_CIDR is too broad for a management overlay")
    else ok (record { address = a; prefixlen = p })

unfoldable pub check_interface : Option IpPrefix → Network → Result ValidatedWireGuardConfig
check_interface none network = err (wireguard_error "invalid HUB_WG_ADDRESS")
check_interface (some (prefix6 a p)) network =
    err (wireguard_error "HUB_WG_ADDRESS must be an IPv4 interface")
check_interface (some (prefix4 a p)) network =
    if not (in_network a network)
    then err (wireguard_error "HUB_WG_ADDRESS must be inside HUB_WG_CIDR")
    else if a == network_address network
    then err (wireguard_error "HUB_WG_ADDRESS must not be the network address")
    else if a == broadcast_address network
    then err (wireguard_error "HUB_WG_ADDRESS must not be the broadcast address")
    else ok (record { network = network; hub_ip = a; hub_prefixlen = p })

unfoldable pub validate_hub_wireguard_config :
    IpParsers
    → (hub_wg_cidr hub_wg_address : Text) (allow_broad_wg_cidr : Bool)
    → Result ValidatedWireGuardConfig
validate_hub_wireguard_config ips hub_wg_cidr hub_wg_address allow_broad_wg_cidr = do
  network ← check_network (ips.ip_network hub_wg_cidr) allow_broad_wg_cidr
  check_interface (ips.ip_interface hub_wg_address) network

-- The checks of a stored tunnel address, on what the parser returned.
unfoldable pub check_stored : Network → Option IpAddress → Result ℕ
check_stored network none = err (wireguard_error "stored device tunnel IP is invalid")
check_stored network (some (ipv6 a)) =
    err (wireguard_error "stored device tunnel IP is not IPv4 and cannot be allocated safely")
check_stored network (some (ipv4 a)) =
    if not (in_network a network)
    then err (wireguard_error "stored device tunnel IP is outside HUB_WG_CIDR")
    else if a == network_address network || a == broadcast_address network
    then err (wireguard_error "stored device tunnel IP is not a usable host address")
    else ok a

-- The loop over the stored rows. Texts of addresses are equal exactly if the addresses are, so the
-- set `used` holds addresses.
unfoldable pub used_ips : IpParsers → Network → List Text → List ℕ → Result (List ℕ)
used_ips ips network [] used = ok used
used_ips ips network (value ∷ rows) used =
    check_stored network (ips.ip_address value) >>= λ ip. used_ips ips network rows (ip ∷ used)

-- The first of `count` addresses from `ip` on that is not used.
unfoldable pub first_free : List ℕ → (ip count : ℕ) → Option ℕ
first_free used ip zero = none
first_free used ip (suc count) =
    let rest = first_free used (ip + 1) count in if contains used ip then rest else some ip

-- `network.hosts()`: the first host and how many there are. A /31 and a /32 have no reserved ends.
unfoldable pub hosts : Network → ℕ × ℕ
hosts n =
    if leb 31 n.prefixlen
    then (network_address n, num_addresses n)
    else (network_address n + 1, num_addresses n - 2)

abbrev found : Option ℕ → Result ℕ
found none = err (wireguard_error "no available WireGuard tunnel IPs")
found (some ip) = ok ip

unfoldable pub next_tunnel_ip : IpParsers → ValidatedWireGuardConfig → List Text → Result ℕ
next_tunnel_ip ips validated rows = do
  used ← used_ips ips validated.network rows (validated.hub_ip ∷ [])
  let (first, count) = hosts validated.network
  found (first_free used first count)

unfoldable pub is_base64_char : ℕ → Bool
is_base64_char c =
    leb b'A' c && leb c b'Z'
    || leb b'a' c && leb c b'z'
    || leb b'0' c && leb c b'9'
    || c == b'+'
    || c == b'/'

-- The match of `[A-Za-z0-9+/]{n}=$`. In Python `$` also stands before a line feed at the end.
unfoldable pub matches_key : ℕ → Text → Bool
unfolding is_base64_char
matches_key n [] = false
matches_key zero (c ∷ []) = c == b'='
matches_key zero (c ∷ d ∷ []) = c == b'=' && d == 10
matches_key zero (c ∷ d ∷ e ∷ s) = false
matches_key (suc n) (c ∷ s) = is_base64_char c && matches_key n s

unfoldable pub validate_public_key : Text → Result (Unit {0})
validate_public_key key =
    if matches_key 43 key
    then ok tt
    else err (wireguard_error "invalid WireGuard public key format")

-- What `add_peer` does once its checks pass.
pub data PeerAction : Type 0 where
  dry_run : PeerAction
  -- POST /peers of the agent with the key and the address
  delegate : (public_key : Text) (tunnel_ip : ℕ) → PeerAction
  -- `wg set INTERFACE peer KEY allowed-ips ADDRESS/PREFIX`
  wg_set_peer : (public_key : Text) (tunnel_ip prefixlen : ℕ) → PeerAction

pub record Settings : Type 0 where
  pub wg_dry_run : Bool
  pub wg_agent_url_set : Bool
  pub wg_agent_mode : Bool

unfoldable pub agent_enabled : Settings → Bool
agent_enabled s = s.wg_agent_url_set && not s.wg_agent_mode

-- The only route that the Hub installs for a firewall: its tunnel address, with prefix length 32.
unfoldable pub peer_allowed_ips : ℕ → ℕ × ℕ
peer_allowed_ips ip = (ip, 32)

-- The checks of the tunnel address of a peer. The parser's ValueError is not caught here.
unfoldable pub check_peer_ip : ValidatedWireGuardConfig → Option IpAddress → Result ℕ
check_peer_ip v none = err (value_error "tunnel_ip does not appear to be an IPv4 or IPv6 address")
check_peer_ip v (some (ipv6 a)) = err (wireguard_error "tunnel_ip must be IPv4")
check_peer_ip v (some (ipv4 a)) =
    if not (in_network a v.network)
    then err (wireguard_error "tunnel_ip is outside HUB_WG_CIDR")
    else if a == v.hub_ip
    then err (wireguard_error "tunnel_ip must not equal HUB_WG_ADDRESS")
    else ok a

abbrev pub install : Settings → (public_key : Text) (ip : ℕ) → PeerAction
install s public_key ip =
    if s.wg_dry_run
    then dry_run
    else if agent_enabled s
    then delegate public_key ip
    else (let (route, prefixlen) = peer_allowed_ips ip in wg_set_peer public_key route prefixlen)

-- `_add_peer_local` makes the same checks of the same values once more.
unfoldable pub add_peer :
    IpParsers
    → Settings
    → ValidatedWireGuardConfig
    → (public_key tunnel_ip : Text) → Result PeerAction
unfolding agent_enabled peer_allowed_ips
add_peer ips s v public_key tunnel_ip = do
  validate_public_key public_key
  ip ← check_peer_ip v (ips.ip_address tunnel_ip)
  ok (install s public_key ip)
