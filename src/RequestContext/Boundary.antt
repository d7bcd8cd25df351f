-- ===== src/RequestContext/Boundary.antt =====
-- dashboard/app/security/request_context.py: which requests pass the checks of their host.
use opnsense_hub.Base.{
  ◌≡◌, ◌≢◌, ◌↔◌, ◌⊎◌, ◌∙◌, ap, true, false, ◌&&◌, ◌||◌, Option, List, [], ◌∷◌, ◌++◌, ok, Text,
  codes, ◌==◌, text_eq, text_beq_iff, contains, arith, or_else,
}
use opnsense_hub.Hardening.{Url, host_of}
use opnsense_hub.Csrf.{is_hub_proxy_device_path}
use opnsense_hub.RequestContext.HostChecks.{
  Settings, is_text, add_host, normalized_hostname, proxy_hostname, configured_hosts, allowed_hosts,
  is_allowed, host_is_allowed, is_proxy_path, ensure_host_path_boundary, ensure_allowed_host,
  host_gate,
}

contains-snoc :
    (xs : List Text) (x y : Text) → contains (xs ++ (x ∷ [])) y ≡ (contains xs y || x == y)
unfolding contains
contains-snoc [] x y = ground arith
contains-snoc (z ∷ xs) x y = ground (arith, contains-snoc xs x y)

contains-add_host :
    (x : Text) (hosts : List Text) (y : Text)
    → contains (add_host x hosts) y ≡ (contains hosts y || is_text x && x == y)
contains-add_host x hosts y = ground (arith, contains-snoc hosts x y, text_beq_iff x y)

-- Without a wildcard, a list with a name in it allows exactly its texts.
is_allowed-contains :
    (h y : Text) (hosts : List Text)
    → contains hosts y ≡ true
    → contains hosts (codes "*") ≡ false
    → is_allowed h hosts ≡ (is_text h && contains hosts h)
unfolding is_allowed contains
is_allowed-contains h y [] k w = ground arith
is_allowed-contains h y (x ∷ hosts) k w = ground arith

module _ (urlparse : Text → Option Url) (s : Settings) where
  abbrev public_hostname : Text
  public_hostname = host_of (urlparse s.public_url)

  contains-allowed_hosts :
      (h : Text)
      → contains (allowed_hosts urlparse s) h ≡ (
          (contains (configured_hosts s) h || is_text public_hostname && public_hostname == h)
          || is_text (proxy_hostname urlparse s) && proxy_hostname urlparse s == h)
  unfolding allowed_hosts proxy_hostname
  contains-allowed_hosts h =
      contains-add_host (host_of (urlparse s.proxy_public_url))
        (add_host public_hostname (configured_hosts s)) h
      ∙ ap (λ b. b || is_text (proxy_hostname urlparse s) && proxy_hostname urlparse s == h)
          (contains-add_host public_hostname (configured_hosts s) h)

  host_is_allowed_lem :
      (host : Option Text)
      → is_text public_hostname ≡ true
      → contains (allowed_hosts urlparse s) (codes "*") ≡ false
      → host_is_allowed urlparse s host ≡ (
          is_text (normalized_hostname urlparse host)
          && contains (allowed_hosts urlparse s) (normalized_hostname urlparse host))
  unfolding host_is_allowed
  host_is_allowed_lem host t w =
      is_allowed-contains (normalized_hostname urlparse host) public_hostname
        (allowed_hosts urlparse s)
        (ground (
          arith,
          contains-allowed_hosts public_hostname,
          text_beq_iff public_hostname public_hostname,
        ))
        w

  -- Where the address of the Hub has a host and no allowed host is a wildcard, the middleware lets a
  -- request on exactly if its host is a clean name other than that of the proxy, listed in the allowed
  -- hosts or that of the address of the Hub, and its path is none of the proxy's, or one of a firewall
  -- in the mode `hub_proxy`.
  pub host_gate_iff :
      (header url_hostname : Option Text) (path : Text)
      → is_text public_hostname ≡ true
      → contains (allowed_hosts urlparse s) (codes "*") ≡ false
      → (host_gate urlparse s header url_hostname path ≡ ok tt) ↔ (
          (normalized_hostname urlparse (or_else header url_hostname) ≢ proxy_hostname urlparse s)
          × ((is_proxy_path path ≡ false)
              ⊎ (is_hub_proxy_device_path s.firewall_access_mode path ≡ true))
          × (is_text (normalized_hostname urlparse (or_else header url_hostname)) ≡ true)
          × ((contains
                  (configured_hosts s)
                  (normalized_hostname urlparse (or_else header url_hostname))
                ≡ true)
              ⊎ (normalized_hostname urlparse (or_else header url_hostname) ≡ public_hostname)))
  unfolding host_gate ensure_host_path_boundary ensure_allowed_host
  host_gate_iff header url_hostname path t w =
      let h = normalized_hostname urlparse (or_else header url_hostname) in
      ground (
        arith,
        host_is_allowed_lem (or_else header url_hostname) t w,
        contains-allowed_hosts h,
        text_beq_iff h (proxy_hostname urlparse s),
        text_beq_iff (proxy_hostname urlparse s) h,
        text_beq_iff public_hostname h,
      )
