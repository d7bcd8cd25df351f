-- ===== src/Csrf/Paths.antt =====
-- dashboard/app/security/csrf.py: the paths that the firewalls' plugin calls.
use opnsense_hub.Base.{
  ◌≡◌, refl, true, false, Option, none, [], ◌∷◌, ◌++◌, err, http_exception, arith, Text, codes,
  text_eq, text_beq, contains, upper, upper_char, starts_with, starts_with-append, ends_with,
  ends_with-append,
}
use mathlib.Core.List.{reverse-append, append_assoc}
use opnsense_hub.Csrf.{
  is_hub_proxy_device_path, should_enforce_csrf, unsign_csrf_token, validate_csrf_request,
  csrf_gate,
}

abbrev pub device_path : (id suffix : Text) → Text
device_path id suffix = codes "/api/v1/devices/" ++ (id ++ suffix)

-- The heartbeats of every device are exempt, whatever the mode.
pub heartbeat_exempt :
    (mode method id : Text)
    → should_enforce_csrf mode method (device_path id (codes "/heartbeat")) ≡ false
unfolding should_enforce_csrf
heartbeat_exempt mode method id = ground (
  arith,
  starts_with-append (codes "/api/v1/devices/") (id ++ codes "/heartbeat"),
  ends_with-append (codes "/api/v1/devices/" ++ id) (codes "/heartbeat"),
  append_assoc (codes "/api/v1/devices/") id (codes "/heartbeat"),
)

not_heartbeat : (s : Text) → ends_with (s ++ codes "/token/rotate") (codes "/heartbeat") ≡ false
unfolding ends_with starts_with
not_heartbeat s = rw reverse-append

not_backups : (s : Text) → ends_with (s ++ codes "/token/rotate") (codes "/backups") ≡ false
unfolding ends_with starts_with
not_backups s = rw reverse-append

not_exempt :
    (id : Text)
    → contains
        (codes "/api/v1/enroll" ∷ codes "/auth/microsoft/callback" ∷ [])
        (device_path id (codes "/token/rotate"))
      ≡ false
unfolding contains text_beq
not_exempt id = refl

not_proxied :
    (mode id : Text)
    → is_hub_proxy_device_path mode (device_path id (codes "/token/rotate")) ≡ false
unfolding is_hub_proxy_device_path starts_with text_beq
not_proxied mode id = ground arith

changes_state :
    contains
      (codes "POST" ∷ codes "PUT" ∷ codes "PATCH" ∷ codes "DELETE" ∷ [])
      (upper (codes "POST"))
    ≡ true
unfolding contains upper upper_char text_beq
changes_state = refl

rotation_enforced :
    (mode id : Text)
    → should_enforce_csrf mode (codes "POST") (device_path id (codes "/token/rotate")) ≡ true
unfolding should_enforce_csrf
rotation_enforced mode id =
    let path = device_path id (codes "/token/rotate") in
    let e = append_assoc (codes "/api/v1/devices/") id (codes "/token/rotate") in
    let h : ends_with path (codes "/heartbeat") ≡ false =
      rw e at (not_heartbeat (codes "/api/v1/devices/" ++ id)) in
    let b : ends_with path (codes "/backups") ≡ false =
      rw e at (not_backups (codes "/api/v1/devices/" ++ id)) in
    ground (arith, changes_state, not_exempt id, not_proxied mode id, h, b)

-- The request by which the plugin rotates the token of a device is not exempt: in every mode, and
-- for every device, a POST to its path without a cookie is refused with 403 before its handler runs.
pub rotation_refused :
    (signature : Text → Text) (mode id : Text) (header form : Option Text)
    → csrf_gate signature mode
        (codes "POST")
        (device_path id (codes "/token/rotate"))
        none
        header
        form
      ≡ err (http_exception 403 "missing or invalid CSRF token")
unfolding csrf_gate validate_csrf_request unsign_csrf_token
rotation_refused signature mode id header form = rw (rotation_enforced mode id)
