-- ===== src/RequestContext/HostChecks.antt =====
-- dashboard/app/security/request_context.py: the checks of the host of a request, and their place in
-- `security_middleware` of dashboard/app/main.py. `urlparse` is an argument.
use opnsense_hub.Base.{
  Bool, true, false, ◌&&◌, ◌||◌, not, Option, none, some, List, [], ◌∷◌, ◌++◌, map, Result,
  http_exception, raise_if, ◌>>◌, Text, codes, ◌==◌, text_eq, contains, select, strip, lower, split,
  starts_with, or_else, if◌then◌else◌,
}
use opnsense_hub.Hardening.{Url, host_of, clean_host}
use opnsense_hub.Csrf.{is_hub_proxy_device_path}

-- The settings that the checks read.
pub record Settings : Type 0 where
  pub allowed_hosts : Text
  pub public_url : Text
  pub proxy_public_url : Text
  pub firewall_access_mode : Text

abbrev pub is_text : Text → Bool
is_text [] = false
is_text (c ∷ t) = true

abbrev is_bare : Url → Bool
is_bare url =
    url.has_valid_port
    && not (is_text url.path || is_text url.params || is_text url.query || is_text url.fragment)

abbrev bare_hostname : Option Url → Text
bare_hostname none = []
bare_hostname (some url) = if is_bare url then clean_host url.hostname else []

abbrev pub add_host : (configured_host : Text) (hosts : List Text) → List Text
add_host configured_host hosts =
    if is_text configured_host && not (contains hosts configured_host)
    then hosts ++ (configured_host ∷ [])
    else hosts

unfoldable pub configured_hosts : Settings → List Text
configured_hosts s = select is_text (map (λ item. lower (strip item)) (split b',' s.allowed_hosts))

-- `host_is_allowed`, on the normalized name.
unfoldable pub is_allowed : (normalized : Text) (hosts : List Text) → Bool
is_allowed normalized [] = is_text normalized
is_allowed normalized (host ∷ hosts) =
    is_text normalized
    && (contains (host ∷ hosts) (codes "*") || contains (host ∷ hosts) normalized)

unfoldable pub is_proxy_path : (path : Text) → Bool
is_proxy_path path = path == codes "/proxy" || starts_with path (codes "/proxy/")

module _ (urlparse : Text → Option Url) where
  unfoldable pub normalized_hostname : Option Text → Text
  normalized_hostname none = []
  normalized_hostname (some host) =
      if is_text host then bare_hostname (urlparse (codes "//" ++ strip host)) else []

  unfoldable pub proxy_hostname : Settings → Text
  proxy_hostname s = host_of (urlparse s.proxy_public_url)

  -- The loop over the two URLs.
  unfoldable pub allowed_hosts : Settings → List Text
  unfolding configured_hosts
  allowed_hosts s =
      add_host (host_of (urlparse s.proxy_public_url))
        (add_host (host_of (urlparse s.public_url)) (configured_hosts s))

  unfoldable pub host_is_allowed : Settings → Option Text → Bool
  unfolding is_allowed allowed_hosts normalized_hostname
  host_is_allowed s host = is_allowed (normalized_hostname host) (allowed_hosts s)

  -- `header` is the Host header and `url_hostname` the name in the URL of the request.
  unfoldable pub ensure_host_path_boundary :
      Settings → (header url_hostname : Option Text) (path : Text) → Result (Unit {0})
  unfolding is_proxy_path normalized_hostname proxy_hostname is_hub_proxy_device_path
  ensure_host_path_boundary s header url_hostname path =
      let host = normalized_hostname (or_else header url_hostname) in
      raise_if
        (host == proxy_hostname s
          || is_proxy_path path && not (is_hub_proxy_device_path s.firewall_access_mode path))
        (http_exception 404 "Not Found")

  unfoldable pub ensure_allowed_host :
      Settings → (header url_hostname : Option Text) → Result (Unit {0})
  unfolding host_is_allowed
  ensure_allowed_host s header url_hostname =
      raise_if (not (host_is_allowed s (or_else header url_hostname)))
        (http_exception 400 "host header is not allowed")

  -- The first steps of the middleware, before a request reaches any other code.
  unfoldable pub host_gate :
      Settings → (header url_hostname : Option Text) (path : Text) → Result (Unit {0})
  unfolding ensure_host_path_boundary ensure_allowed_host
  host_gate s header url_hostname path =
      ensure_host_path_boundary s header url_hostname path
      >> ensure_allowed_host s header url_hostname
