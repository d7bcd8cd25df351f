-- ===== src/WireGuard/Keys.antt =====
-- dashboard/app/wireguard.py: the form of public keys, and the installation of a peer.
use opnsense_hub.Base.{
  ℕ, zero, suc, ◌≤◌, ◌≡◌, ◌≢◌, ◌⊎◌, ◌↔◌, refl, true, false, Option, none, some, [], ◌∷◌, ◌++◌, ok,
  Text, nat_eq, length, All, >>=-eq-ok, arith, ap,
}
use opnsense_hub.WireGuard.{
  IpAddress, ipv4, ipv6, IpParsers, network_address, broadcast_address, in_network,
  ValidatedWireGuardConfig, is_base64_char, matches_key, validate_public_key, wg_set_peer, Settings,
  agent_enabled, check_peer_ip, add_peer,
}

-- The accepted texts: `n` characters of base64 and "=", with or without a line feed behind it.
pub record IsKey (n : ℕ) (key : Text) : Type 0 where
  pub body : Text
  pub size : length body ≡ n
  pub base64 : All (λ c. is_base64_char c ≡ true) body
  pub tail : (key ≡ body ++ (b'=' ∷ [])) ⊎ (key ≡ body ++ (b'=' ∷ 10 ∷ []))

matches_key-IsKey : (n : ℕ) (key : Text) → matches_key n key ≡ true → IsKey n key
unfolding matches_key
matches_key-IsKey n [] h = cc
matches_key-IsKey zero (c ∷ []) h = record {
  body = [];
  size = refl;
  base64 = tt;
  tail = ground arith;
}
matches_key-IsKey zero (c ∷ d ∷ []) h = record {
  body = [];
  size = refl;
  base64 = tt;
  tail = ground arith;
}
matches_key-IsKey zero (c ∷ d ∷ e ∷ s) h = cc
matches_key-IsKey (suc n) (c ∷ s) h =
    let k = matches_key-IsKey n s (ground arith) in
    record {
      body = c ∷ k.body;
      size = ap suc k.size;
      base64 = (ground arith, k.base64);
      tail = ground (arith, k.tail);
    }

matches_key_of_body :
    (n : ℕ) (body : Text)
    → length body ≡ n
    → All (λ c. is_base64_char c ≡ true) body
    → (matches_key n (body ++ (b'=' ∷ [])) ≡ true)
      × (matches_key n (body ++ (b'=' ∷ 10 ∷ [])) ≡ true)
unfolding matches_key
matches_key_of_body zero [] h b = (refl, refl)
matches_key_of_body zero (c ∷ s) h b = absurd (omega arith)
matches_key_of_body (suc n) [] h b = absurd (omega arith)
matches_key_of_body (suc n) (c ∷ s) h b = ground (arith, matches_key_of_body n s (omega arith) b.1)

-- A key is accepted exactly if it is 43 characters of base64 and "=", or the same with one line feed
-- behind it.
pub validate_public_key-IsKey : (key : Text) → (validate_public_key key ≡ ok tt) ↔ IsKey 43 key
unfolding validate_public_key
validate_public_key-IsKey key = (
  λ h. matches_key-IsKey 43 key (ground arith),
  λ k. ground (arith, matches_key_of_body 43 k.body k.size k.base64, k.tail),
)

check_peer_ip-eq-ok :
    (v : ValidatedWireGuardConfig) (o : Option IpAddress) (ip : ℕ)
    → check_peer_ip v o ≡ ok ip
    → (network_address v.network ≤ ip) × (ip ≤ broadcast_address v.network) × (ip ≢ v.hub_ip)
unfolding check_peer_ip in_network
check_peer_ip-eq-ok v none ip h = cc
check_peer_ip-eq-ok v (some (ipv6 a)) ip h = cc
check_peer_ip-eq-ok v (some (ipv4 a)) ip h = ground arith

-- A command that installs a peer routes one address to it, which lies in the overlay network and is
-- not the Hub's. Nothing is installed in a dry run or where the agent is in charge.
pub add_peer-routes :
    (ips : IpParsers) (s : Settings) (v : ValidatedWireGuardConfig) (key address installed : Text)
    (ip prefixlen : ℕ)
    → add_peer ips s v key address ≡ ok (wg_set_peer installed ip prefixlen)
    → (prefixlen ≡ 32)
      × (installed ≡ key)
      × (network_address v.network ≤ ip)
      × (ip ≤ broadcast_address v.network)
      × (ip ≢ v.hub_ip)
      × (s.wg_dry_run ≡ false)
      × (agent_enabled s ≡ false)
unfolding add_peer
add_peer-routes ips s v key address installed ip prefixlen h =
    let (u, _, q) = >>=-eq-ok (validate_public_key key) _ h in
    let (a, p, r) = >>=-eq-ok (check_peer_ip v (ips.ip_address address)) _ q in
    ground (arith, check_peer_ip-eq-ok v (ips.ip_address address) a p)
