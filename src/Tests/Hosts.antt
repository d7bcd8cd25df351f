-- ===== src/Tests/Hosts.antt =====
-- The checks of the host of a request, on concrete settings.
use opnsense_hub.Base.{
  ◌≡◌, ◌≢◌, ◌↔◌, ◌⊎◌, refl, Bool, true, false, Option, none, some, List, Text, codes, ◌==◌, text_eq,
  ok, contains, or_else, if◌then◌else◌,
}
use opnsense_hub.Hardening.{Url}
use opnsense_hub.Csrf.{is_hub_proxy_device_path}
use opnsense_hub.RequestContext.HostChecks.{
  Settings, is_text, normalized_hostname, proxy_hostname, configured_hosts, allowed_hosts,
  is_proxy_path, host_gate,
}
use opnsense_hub.RequestContext.Boundary.{host_gate_iff}
use opnsense_hub.Tests.Start.{url}

abbrev settings : Settings
settings = record {
  allowed_hosts = codes "Hub.internal";
  public_url = codes "https://hub";
  proxy_public_url = codes "https://proxy";
  firewall_access_mode = codes "connector";
}

-- A parser that knows three names.
abbrev parse : Text → Option Url
parse t =
    if t == codes "https://proxy"
    then some (url (codes "proxy"))
    else if t == codes "//hub.internal"
    then some (url (codes "hub.internal"))
    else some (url (codes "hub"))

abbrev host : Text
host = normalized_hostname parse (or_else (some (codes "hub.internal")) none)

host_gate_iff_example :
    (host_gate parse settings (some (codes "hub.internal")) none (codes "/devices") ≡ ok tt) ↔ (
      (host ≢ proxy_hostname parse settings)
      × ((is_proxy_path (codes "/devices") ≡ false)
          ⊎ (is_hub_proxy_device_path (codes "connector") (codes "/devices") ≡ true))
      × (is_text host ≡ true)
      × ((contains (configured_hosts settings) host ≡ true) ⊎ (host ≡ codes "hub")))
unfolding allowed_hosts opnsense_hub.Base.lower opnsense_hub.Base.text_beq opnsense_hub.Base.strip
    contains opnsense_hub.Base.select opnsense_hub.Base.split
host_gate_iff_example =
    host_gate_iff parse settings (some (codes "hub.internal")) none (codes "/devices") refl refl

host_gate_lets_listed_name_through :
    host_gate parse settings (some (codes "hub.internal")) none (codes "/devices") ≡ ok tt
unfolding host_gate opnsense_hub.Base.text_beq or_else opnsense_hub.Base.strip
    opnsense_hub.Base.lower opnsense_hub.Base.starts_with contains opnsense_hub.Base.select
    opnsense_hub.Base.split
host_gate_lets_listed_name_through = refl
