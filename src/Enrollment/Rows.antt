-- ===== src/Enrollment/Rows.antt =====
-- dashboard/app/routers/enrollment.py: what the writes of the handler do to the rows of the tables.
use opnsense_hub.Base.{
  ℕ, ◌≡◌, ◌≢◌, refl, sym, ap, ◌∙◌, inl, inr, Bool, true, not, ◌&&◌, Option, none, some, List, [],
  ◌∷◌, ◌++◌, map, String, Text, arith, Bool-cases, Option-cases, ◌==◌, nat_eq, select, find, All,
  find-holds, HasDistinct, find-distinct, find-select-Mem,
}
use mathlib.Core.List.{Mem}
use opnsense_hub.Models.{Device, EnrollmentCode, DeviceEvent, Db}
use opnsense_hub.Audit.{write_audit}
use opnsense_hub.Payload.{Members}
use opnsense_hub.Sessions.{issue_device_token}
use opnsense_hub.Enrollment.{
  Platform, Settings, Request, commit, change, is_open, matching_code, claim_row, release_row,
  compensate_failed_peer_add, new_device, joined, claim_enrollment_code,
  apply_device_license_payload, normalize_device_license_payload,
}

-- Two states with the same firewalls, codes and events.
pub record SameRows (a b : Db) : Type 0 where
  pub devices : b.devices ≡ a.devices
  pub codes : b.enrollment_codes ≡ a.enrollment_codes
  pub events : b.device_events ≡ a.device_events

pub write_audit-SameRows :
    (throttle now : ℕ) (action : String) (user device : Option ℕ) (db : Db)
    → SameRows db (write_audit throttle now action user device db).1
unfolding write_audit
write_audit-SameRows throttle now action user device db = ground arith

-- No row has the identifier of the new firewall.
pub record IsNew (id : ℕ) (db : Db) : Type 0 where
  pub devices : All (λ d. d.id ≢ id) db.devices
  pub events : All (λ e. e.device_id ≢ id) db.device_events

-- The identifiers of the codes are distinct.
abbrev pub HasDistinctIds : List EnrollmentCode → Type 0
HasDistinctIds = HasDistinct (λ c. c.id)

find-select :
    (p q : EnrollmentCode → Bool) (codes : List EnrollmentCode)
    → find q (select p codes) ≡ find (λ c. p c && q c) codes
unfolding find select
find-select p q [] = refl
find-select p q (c ∷ codes) = elim (Bool-cases (p c)) [
  | inl k ↦ rw (k, find-select p q codes) refl
  | inr k ↦ rw (k, find-select p q codes) refl
]

-- The code that is found is open and fits, and is the only row with its identifier.
pub matching_code-found :
    (p : Platform) (now : ℕ) (otp : Text) (codes : List EnrollmentCode) (c : EnrollmentCode)
    → matching_code p now otp codes ≡ some c
    → (is_open now c ≡ true) × (p.verify_secret otp c.code_hash ≡ true)
unfolding matching_code
matching_code-found p now otp codes c h =
    let e : find (λ d. is_open now d && p.verify_secret otp d.code_hash) codes ≡ some c =
      sym (find-select (is_open now) (λ d. p.verify_secret otp d.code_hash) codes) ∙ h in
    ground (arith, find-holds (λ d. is_open now d && p.verify_secret otp d.code_hash) codes c e)

pub matching_code-Mem :
    (p : Platform) (now : ℕ) (otp : Text) (codes : List EnrollmentCode) (c : EnrollmentCode)
    → matching_code p now otp codes ≡ some c
    → Mem c codes
unfolding matching_code
matching_code-Mem p now otp codes c h =
    find-select-Mem (is_open now) (λ d. p.verify_secret otp d.code_hash) codes c h

pub matching_code-distinct :
    (p : Platform) (now : ℕ) (otp : Text) (codes : List EnrollmentCode) (c : EnrollmentCode)
    → HasDistinctIds codes
    → matching_code p now otp codes ≡ some c
    → All (λ d. d.id ≡ c.id → d ≡ c) codes
unfolding matching_code
matching_code-distinct p now otp codes c u h =
    find-distinct (λ (f : EnrollmentCode). f.id)
      (λ d. is_open now d && p.verify_secret otp d.code_hash) codes c u
      (sym (find-select (is_open now) (λ d. p.verify_secret otp d.code_hash) codes) ∙ h)

release_row-claim_row :
    (id now : ℕ) (d : EnrollmentCode)
    → (d.id ≡ id → d.used_at ≡ none)
    → release_row id (claim_row id now d) ≡ d
release_row-claim_row id now d h = elim (Bool-cases (d.id == id)) [
  | inr k ↦ rw (k, k) refl
  | inl k ↦
      let back : record d { used_at = none } ≡ d =
        ap (λ u. record d { used_at = u }) (sym (h (ground (arith, k)))) in
      elim (Bool-cases (is_open now d)) [ inl o ↦ rw (k, o, k) back | inr o ↦ rw (k, o, k) back ]
]

pub release-claim :
    (id now : ℕ) (codes : List EnrollmentCode)
    → All (λ d. d.id ≡ id → d.used_at ≡ none) codes
    → map (release_row id) (map (claim_row id now) codes) ≡ codes
release-claim id now [] h = refl
release-claim id now (d ∷ codes) h =
    rw (release_row-claim_row id now d h.0, release-claim id now codes h.1) refl

drop_new_device :
    (id : ℕ) (d : Device) (devices : List Device)
    → d.id ≡ id
    → All (λ e. e.id ≢ id) devices
    → select (λ e. not (e.id == id)) (devices ++ (d ∷ [])) ≡ devices
unfolding select
drop_new_device id d [] q h = ground arith
drop_new_device id d (e ∷ devices) q h = ground (arith, h.0, drop_new_device id d devices q h.1)

drop_new_event :
    (id : ℕ) (d : DeviceEvent) (events : List DeviceEvent)
    → d.device_id ≡ id
    → All (λ e. e.device_id ≢ id) events
    → select (λ e. not (e.device_id == id)) (events ++ (d ∷ [])) ≡ events
unfolding select
drop_new_event id d [] q h = ground arith
drop_new_event id d (e ∷ events) q h = ground (arith, h.0, drop_new_event id d events q h.1)

apply_device_license_payload-id :
    (p : Platform) (payload : Members) (d : Device)
    → (apply_device_license_payload p payload d).id ≡ d.id
unfolding apply_device_license_payload
apply_device_license_payload-id p payload d =
    elim (Option-cases (normalize_device_license_payload p payload).0) [
      | inl e ↦ rw (e, apply_device_license_payload) refl
      | inr (t, e) ↦ rw (e, apply_device_license_payload) refl
    ]

new_device-id :
    (p : Platform) (s : Settings) (r : Request) (company_id : ℕ) (ip : Text)
    → (new_device p s r company_id ip).id ≡ r.device_id
unfolding new_device issue_device_token
new_device-id p s r company_id ip = apply_device_license_payload-id p r.payload _

pub joined-devices :
    (p : Platform) (s : Settings) (r : Request) (company_id : ℕ) (ip : Text) (db : Db)
    → ((joined p s r company_id ip db).devices
        ≡ db.devices ++ (new_device p s r company_id ip ∷ []))
      × ((joined p s r company_id ip db).enrollment_codes ≡ db.enrollment_codes)
      × ((joined p s r company_id ip db).device_events
          ≡ db.device_events ++ (record { device_id = r.device_id; event_type = "enrolled" } ∷ []))
unfolding joined
joined-devices p s r company_id ip db =
    let same =
      write_audit-SameRows s.audit_device_view_throttle_minutes r.now "device.enroll" none
        (some r.device_id)
        (record db {
          devices = db.devices ++ (new_device p s r company_id ip ∷ []);
          device_events =
              db.device_events
              ++ (record { device_id = r.device_id; event_type = "enrolled" } ∷ []);
        }) in
    (same.devices, same.codes, same.events)

-- Taking back what a request has committed restores the rows.
pub compensate-SameRows :
    (p : Platform) (s : Settings) (r : Request) (code : EnrollmentCode) (ip : Text) (db : Db)
    → IsNew r.device_id db
    → All (λ d. d.id ≡ code.id → d.used_at ≡ none) db.enrollment_codes
    → SameRows db
        (compensate_failed_peer_add r.device_id code.id (
          commit (
            change
              (joined p s r code.company_id ip)
              (claim_enrollment_code code r.now
                (record { committed = db; working = db })).1))).working
unfolding compensate_failed_peer_add claim_enrollment_code
compensate-SameRows p s r code ip db n u =
    let claimed : Db = record db {
      enrollment_codes = map (claim_row code.id r.now) db.enrollment_codes;
    } in
    let (devices, codes, events) = joined-devices p s r code.company_id ip claimed in
    record {
      devices =
          ap (select (λ d. not (d.id == r.device_id))) devices
          ∙ drop_new_device r.device_id (new_device p s r code.company_id ip) db.devices
              (new_device-id p s r code.company_id ip) n.devices;
      codes =
          ap (map (release_row code.id)) codes ∙ release-claim code.id r.now db.enrollment_codes u;
      events =
          ap (select (λ e. not (e.device_id == r.device_id))) events
          ∙ drop_new_event r.device_id _ db.device_events refl n.events;
    }
