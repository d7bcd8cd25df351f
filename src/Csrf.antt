-- ===== src/Csrf.antt =====
-- dashboard/app/security/csrf.py, and the step of `security_middleware` of dashboard/app/main.py
-- that asks it: the double-submit token against forged requests.
-- The keyed hash of a token, in hexadecimal (`_csrf_signature`), is the argument `signature`. The
-- mode is the setting FIREWALL_ACCESS_MODE.
pub mod Tokens
pub mod Paths
use opnsense_hub.Base.{
  ℕ, String, Bool, true, false, ◌&&◌, ◌||◌, not, Option, none, some, List, [], ◌∷◌, ◌++◌, Result,
  ok, err, http_exception, raise_if, Text, codes, ◌==◌, text_eq, contains, strip, lower, upper,
  starts_with, ends_with, rsplit_once, ◌>>=◌, ◌>>◌, if◌then◌else◌,
}

-- An empty token counts as none, as in `if not expected`.
abbrev pub non_empty : Option Text → Option Text
non_empty none = none
non_empty (some []) = none
non_empty (some (c ∷ s)) = some (c ∷ s)

-- The part of the request's state that the token is kept in.
pub record RequestState : Type 0 where
  pub csrf_token : Option Text
  pub csrf_cookie_needs_set : Bool

abbrev choose : Option Text → Option Text → Text → RequestState → Text × RequestState
choose (some existing) state_token random s = (existing, s)
choose none (some state_token) random s = (state_token, s)
choose none none random s =
    (random, record { csrf_token = some random; csrf_cookie_needs_set = true })

abbrev or_form : Option Text → Option Text → Option Text
or_form none form = form
or_form (some header) form = some header

abbrev compared : Option Text → Option Text → Result (Unit {0})
compared none provided = err (http_exception 403 "missing or invalid CSRF token")
compared (some expected) none = err (http_exception 403 "missing or invalid CSRF token")
compared (some expected) (some provided) =
    if provided == expected then ok tt else err (http_exception 403 "missing or invalid CSRF token")

module _ (signature : Text → Text) where
  unfoldable pub sign_csrf_token : Text → Text
  sign_csrf_token token = token ++ (b'.' ∷ signature token)

  abbrev verified : Option (Text × Text) → Option Text
  verified none = none
  verified (some (token, mac)) = if mac == signature token then some token else none

  -- An empty text has no "." in it, and a text without "." cannot be split.
  unfoldable pub unsign_csrf_token : Option Text → Option Text
  unsign_csrf_token none = none
  unsign_csrf_token (some signed) = verified (rsplit_once b'.' signed)

  unfoldable pub get_or_create_csrf_token :
      (random : Text) (cookie : Option Text) → RequestState → Text × RequestState
  get_or_create_csrf_token random cookie s =
      choose (non_empty (unsign_csrf_token cookie)) (non_empty s.csrf_token) random s

  -- From the cookie, the header and the field of the form, where they are there.
  unfoldable pub validate_csrf_request : (cookie header form : Option Text) → Result (Unit {0})
  validate_csrf_request cookie header form =
      compared (non_empty (unsign_csrf_token cookie)) (non_empty (or_form (non_empty header) form))

unfoldable pub is_hub_proxy_device_path : (mode path : Text) → Bool
is_hub_proxy_device_path mode path =
    lower (strip mode) == codes "hub_proxy"
    && (path == codes "/proxy/devices" || starts_with path (codes "/proxy/devices/"))

unfoldable pub should_enforce_csrf : (mode method path : Text) → Bool
unfolding is_hub_proxy_device_path contains
should_enforce_csrf mode method path =
    contains (codes "POST" ∷ codes "PUT" ∷ codes "PATCH" ∷ codes "DELETE" ∷ []) (upper method)
    && not (contains (codes "/api/v1/enroll" ∷ codes "/auth/microsoft/callback" ∷ []) path)
    && not (is_hub_proxy_device_path mode path)
    && not (
        starts_with path (codes "/api/v1/devices/")
        && (ends_with path (codes "/heartbeat") || ends_with path (codes "/backups")))

-- Whether the middleware lets a request through to its handler.
unfoldable pub csrf_gate :
    (signature : Text → Text) (mode method path : Text) (cookie header form : Option Text)
    → Result (Unit {0})
csrf_gate signature mode method path cookie header form =
    if should_enforce_csrf mode method path
    then validate_csrf_request signature cookie header form
    else ok tt
