-- ===== src/Tests/Limits.antt =====
-- Rate limits, forged requests and forwarded addresses, on concrete requests.
use opnsense_hub.Base.{
  ℕ, ◌≤◌, ◌<◌, ◌≡◌, ◌≢◌, ◌⊎◌, ◌↔◌, inl, inr, refl, Bool, true, false, Option, none, some, List, [],
  ◌∷◌, ◌++◌, Result, ok, err, http_exception, arith, Text, codes, ◌==◌, text_eq, text_beq_iff,
  length, leb, if◌then◌else◌, rsplit_once,
}
use opnsense_hub.RateLimit.{MemoryRateLimitBackend, hit, lookup, bucket_key}
use opnsense_hub.RateLimit.Buckets.{IsBounded, hit-IsBounded}
use opnsense_hub.RateLimit.Window.{name, counted, recorded, IsOrdered, entries_of, hit-decides}
use opnsense_hub.Csrf.{non_empty, validate_csrf_request, csrf_gate}
use opnsense_hub.Csrf.Tokens.{validate_csrf_request_iff}
use opnsense_hub.RequestContext.{Addresses, client_ip}
use opnsense_hub.RequestContext.Spoofing.{client_ip_appended}
use opnsense_hub.Csrf.Paths.{device_path, rotation_refused}

-- A table of three buckets, in which one client has used its two hits.
abbrev backend : MemoryRateLimitBackend
backend = record {
  max_buckets = 3;
  buckets = (bucket_key (codes "login") (codes "a") 60, 1 ∷ 2 ∷ []) ∷ [];
}

backend-IsBounded : IsBounded backend
unfolding lookup
backend-IsBounded = record { room = omega arith; fits = omega arith; nodup = (refl, tt) }

hit-IsBounded_example : IsBounded (hit 100 (codes "login") (codes "b") 2 60 backend).1
hit-IsBounded_example = hit-IsBounded 100 (codes "login") (codes "b") 2 60 backend backend-IsBounded

backend-IsOrdered : IsOrdered 100 (recorded 100 (codes "login") (codes "a") 2 60 backend)
unfolding lookup bucket_key opnsense_hub.Base.text_beq opnsense_hub.Base.Decimal.str
backend-IsOrdered = (omega arith, (omega arith, tt), (omega arith, tt, tt))

hit-decides_example :
    ((hit 100 (codes "login") (codes "a") 2 60 backend).0 ≡ (
      if leb 2 (length (counted 100 (codes "login") (codes "a") 2 60 backend))
      then err (http_exception 429 "rate limit exceeded")
      else ok tt))
    × (lookup
          (name 100 (codes "login") (codes "a") 2 60 backend)
          (hit 100 (codes "login") (codes "a") 2 60 backend).1.buckets
        ≡ some (
            if leb 2 (length (counted 100 (codes "login") (codes "a") 2 60 backend))
            then counted 100 (codes "login") (codes "a") 2 60 backend
            else counted 100 (codes "login") (codes "a") 2 60 backend ++ (100 ∷ [])))
    × IsOrdered 100 (
        entries_of (
          lookup
            (name 100 (codes "login") (codes "a") 2 60 backend)
            (hit 100 (codes "login") (codes "a") 2 60 backend).1.buckets))
hit-decides_example =
    hit-decides 100 (codes "login") (codes "a") 2 60 backend backend-IsBounded backend-IsOrdered

abbrev key_of_a : Text
key_of_a = bucket_key (codes "login") (codes "a") 60

-- A signature without a "."
abbrev signature : Text → Text
signature t = codes "aa"

validate_csrf_request_iff_example :
    (validate_csrf_request signature (some (codes "token.aa")) (some (codes "token")) none ≡ ok tt)
    ↔ ((t : Text) × (some (codes "token.aa") ≡ some (t ++ (b'.' ∷ signature t)))
        × (t ≢ [])
        × ((some (codes "token") ≡ some t)
            ⊎ ((non_empty (some (codes "token")) ≡ none) × (◌≡◌ {A = Option Text} none (some t)))))
unfolding rsplit_once
validate_csrf_request_iff_example =
    validate_csrf_request_iff signature (λ t. refl) (some (codes "token.aa")) (some (codes "token"))
      none

rotation_refused_example :
    csrf_gate signature
      (codes "connector")
      (codes "POST")
      (device_path (codes "5") (codes "/token/rotate"))
      none
      none
      none
    ≡ err (http_exception 403 "missing or invalid CSRF token")
rotation_refused_example = rotation_refused signature (codes "connector") (codes "5") none none

-- Every text is an address, and the proxy is 10.0.0.1.
abbrev addresses : Addresses
addresses = record {
  IpNetwork = Text;
  IpAddress = Text;
  ip_network = λ t. some t;
  ip_address = λ t. some t;
  is_in = λ address network. address == network;
}

client_ip_appended_example :
    client_ip addresses
      (codes "10.0.0.1")
      (codes "10.0.0.1")
      (codes "203.0.113.9" ++ (b',' ∷ codes "198.51.100.7"))
    ≡ codes "198.51.100.7"
unfolding opnsense_hub.RequestContext.is_trusted_proxy opnsense_hub.Base.any
    opnsense_hub.RequestContext.trusted_proxy_networks
    opnsense_hub.RequestContext.trusted_proxy_items opnsense_hub.Base.split opnsense_hub.Base.strip
    opnsense_hub.Base.text_beq
client_ip_appended_example =
    client_ip_appended addresses (codes "10.0.0.1") (codes "10.0.0.1") (codes "203.0.113.9")
      (codes "198.51.100.7") refl refl refl refl refl refl
