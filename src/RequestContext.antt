-- ===== src/RequestContext.antt =====
-- dashboard/app/security/request_context.py: the address of a client behind trusted proxies, by which
-- rate limits and the audit log know it. The parsers of Python's `ipaddress` are the parameter
-- `Addresses`. The checks of the host of a request are in HostChecks.
pub mod Spoofing
pub mod HostChecks
pub mod Boundary
use opnsense_hub.Base.{
  ℕ, Bool, true, false, not, Option, none, some, List, [], ◌∷◌, ◌++◌, Text, codes, any, find,
  is_some, strip, split, if◌then◌else◌,
}
use mathlib.Core.List.{reverse}

-- `none` stands for a ValueError.
pub record Addresses : Type 1 where
  pub IpNetwork : Type 0
  pub IpAddress : Type 0
  pub ip_network : Text → Option IpNetwork
  pub ip_address : Text → Option IpAddress
  pub is_in : IpAddress → IpNetwork → Bool

abbrev pub is_text : Text → Bool
is_text [] = false
is_text (c ∷ t) = true

abbrev pub prepend : {A : Type 0} → Option A → List A → List A
prepend none xs = xs
prepend (some x) xs = x ∷ xs

module _ (a : Addresses) where
  -- The loop over the items of TRUSTED_PROXY_CIDRS: an invalid item is passed over.
  unfoldable pub trusted_proxy_items : List Text → List a.IpNetwork
  trusted_proxy_items [] = []
  trusted_proxy_items (item ∷ items) =
      let rest = trusted_proxy_items items in
      if is_text (strip item) then prepend (a.ip_network (strip item)) rest else rest

  unfoldable pub trusted_proxy_networks : (trusted_proxy_cidrs : Text) → List a.IpNetwork
  trusted_proxy_networks trusted_proxy_cidrs = trusted_proxy_items (split b',' trusted_proxy_cidrs)

  abbrev pub is_inside : Option a.IpAddress → List a.IpNetwork → Bool
  is_inside none networks = false
  is_inside (some address) networks = any (a.is_in address) networks

  unfoldable pub is_trusted_proxy : (trusted_proxy_cidrs : Text) → Text → Bool
  is_trusted_proxy trusted_proxy_cidrs host =
      if is_text host
      then is_inside (a.ip_address host) (trusted_proxy_networks trusted_proxy_cidrs)
      else false

  -- The loop over the items of X-Forwarded-For: the valid addresses, in their order.
  unfoldable pub forwarded_hops : List Text → List Text
  forwarded_hops [] = []
  forwarded_hops (item ∷ items) =
      let rest = forwarded_hops items in
      if is_text (strip item)
      then if is_some (a.ip_address (strip item)) then strip item ∷ rest else rest
      else rest

  abbrev pub or_direct : Option Text → Text → Text
  or_direct none direct_ip = direct_ip
  or_direct (some hop) direct_ip = hop

  abbrev pub is_client : (trusted_proxy_cidrs : Text) → Text → Bool
  is_client trusted_proxy_cidrs hop = not (is_trusted_proxy trusted_proxy_cidrs hop)

  -- `direct_ip` is the address of the peer of the connection, empty where there is none. The header is
  -- empty where the request has none.
  unfoldable pub client_ip : (trusted_proxy_cidrs : Text) (direct_ip forwarded : Text) → Text
  client_ip trusted_proxy_cidrs direct_ip forwarded =
      if not (is_text direct_ip)
      then codes "unknown"
      else if not (is_trusted_proxy trusted_proxy_cidrs direct_ip)
      then direct_ip
      else or_direct
          (find (is_client trusted_proxy_cidrs) (reverse (forwarded_hops (split b',' forwarded))))
          direct_ip
