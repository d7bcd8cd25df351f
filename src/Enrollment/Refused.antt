-- ===== src/Enrollment/Refused.antt =====
-- dashboard/app/routers/enrollment.py: what a refused enrollment leaves behind.
use opnsense_hub.Base.{
  ℕ, ◌≡◌, ◌≢◌, ◌⊎◌, inl, inr, refl, ap, ◌∙◌, true, false, none, some, [], ◌∷◌, ◌++◌, map, String,
  Result, ok, err, Exception, wireguard_error, err-injective, arith, All, All-map,
}
use mathlib.Core.List.{Mem}
use opnsense_hub.Models.{Db, EnrollmentCode}
use opnsense_hub.WireGuard.{next_tunnel_ip}
use opnsense_hub.Enrollment.{
  Platform, Settings, Request, Session, Enrolled, Hub, refused, otp_of, matching_code, is_open,
  claim_row, claim_enrollment_code, new_device, installed, is_wireguard_error, enroll_allowed,
  enroll,
}
use opnsense_hub.Enrollment.Rows.{
  SameRows, write_audit-SameRows, IsNew, HasDistinctIds, joined-devices, matching_code-Mem,
  matching_code-found, matching_code-distinct, compensate-SameRows,
}
use opnsense_hub.Enrollment.Cases.{
  enroll_at_cases, enroll_with_cases, enroll_allowed_cases, enroll_cases,
}

SameRows-trans : (a b c : Db) → SameRows a b → SameRows b c → SameRows a c
SameRows-trans a b c h k = record {
  devices = k.devices ∙ h.devices;
  codes = k.codes ∙ h.codes;
  events = k.events ∙ h.events;
}

-- The addition of the peer has ended in an exception that is no WireGuardError: the firewall of the
-- request stays committed without its peer, and the code stays used.
pub record IsStranded (p : Platform) (s : Settings) (r : Request) (a b : Db) (problem : Exception)
    : Type 0 where
  pub code : EnrollmentCode
  pub row_of_code : Mem code a.enrollment_codes
  pub unused : is_open r.now code ≡ true
  pub ip : ℕ
  pub address : next_tunnel_ip p.ips p.validated (map (λ d. d.wg_tunnel_ip) a.devices) ≡ ok ip
  pub raised : installed p s r (p.str_ip ip) ≡ err problem
  pub uncaught : (message : String) → problem ≢ wireguard_error message
  pub row : b.devices ≡ a.devices ++ (new_device p s r code.company_id (p.str_ip ip) ∷ [])
  pub claimed : b.enrollment_codes ≡ map (claim_row code.id r.now) a.enrollment_codes

is_wireguard_error-not :
    (problem : Exception)
    → is_wireguard_error problem ≡ false
    → (message : String) → problem ≢ wireguard_error message
is_wireguard_error-not problem h message e = absurd (ground (arith, ap is_wireguard_error e))

module _ (p : Platform) (s : Settings) (r : Request) (db : Db) where
  -- An answer that is an exception comes with the rows of `db`, or is that of a stranded firewall.
  abbrev Leaves : Result Enrolled × Session → Type 0
  Leaves out =
      (problem : Exception)
      → out.0 ≡ err problem
      → SameRows db out.1.committed ⊎ IsStranded p s r db out.1.committed problem

  refused-Leaves :
      (action : String) (status : ℕ) (detail : String) (session : Session)
      → SameRows db session.working
      → Leaves (refused s r action status detail session)
  unfolding refused
  refused-Leaves action status detail session h problem e = inl (
      SameRows-trans db session.working _ h
        (write_audit-SameRows _ r.now action none none session.working))

  same : SameRows db db
  same = record { devices = refl; codes = refl; events = refl }

  -- The rows with the identifier of the found code are unused.
  unused :
      (code : EnrollmentCode)
      → matching_code p r.now (otp_of p r) db.enrollment_codes ≡ some code
      → HasDistinctIds db.enrollment_codes
      → All (λ d. d.id ≡ code.id → d.used_at ≡ none) db.enrollment_codes
  unused code e u =
      let o : is_open r.now code ≡ true =
        (matching_code-found p r.now (otp_of p r) db.enrollment_codes code e).0 in
      All-map _ _ db.enrollment_codes
        (λ d f q. ap (λ (g : EnrollmentCode). g.used_at) (f q) ∙ ground (arith, o))
        (matching_code-distinct p r.now (otp_of p r) db.enrollment_codes code u e)

  enroll_allowed-Leaves :
      IsNew r.device_id db
      → HasDistinctIds db.enrollment_codes
      → Leaves (enroll_allowed p s r (record { committed = db; working = db }))
  unfolding claim_enrollment_code
  enroll_allowed-Leaves n u =
      enroll_allowed_cases Leaves p s r (record { committed = db; working = db })
        (λ action status detail. refused-Leaves action status detail _ same)
        λ code e.
          enroll_with_cases Leaves p s r code (record { committed = db; working = db })
            (λ problem x q. inl same)
            (λ action status detail. refused-Leaves action status detail _ same)
            (λ problem x q. inl same)
            λ server ip c a.
              enroll_at_cases Leaves p s r code server (p.str_ip ip) _
                (λ action status detail. refused-Leaves action status detail _ same)
                (λ f action status detail.
                  refused-Leaves action status detail _
                    (compensate-SameRows p s r code (p.str_ip ip) db n (unused code e u)))
                (λ f problem i w x q. inr (record {
                  code = code;
                  row_of_code = matching_code-Mem p r.now (otp_of p r) db.enrollment_codes code e;
                  unused = (matching_code-found p r.now (otp_of p r) db.enrollment_codes code e).0;
                  ip = ip;
                  address = a;
                  raised = rw (← err-injective q) i;
                  uncaught = is_wireguard_error-not x (rw (← err-injective q) w);
                  row = (joined-devices p s r code.company_id (p.str_ip ip) _).0;
                  claimed = (joined-devices p s r code.company_id (p.str_ip ip) _).1;
                }))
                (λ f i problem q. absurd (cc))

-- An enrollment that is answered with an exception leaves the firewalls, the codes and the events as
-- they were, also when a WireGuardError comes after the firewall is committed. Only where the addition
-- of the peer raises anything else does the firewall stay without its peer, and the code used. The
-- identifier of the request's firewall is new, and the codes have distinct identifiers.
pub enroll-refused :
    (p : Platform) (s : Settings) (r : Request) (hub : Hub) (problem : Exception)
    → IsNew r.device_id hub.db
    → HasDistinctIds hub.db.enrollment_codes
    → (enroll p s r hub).0 ≡ err problem
    → SameRows hub.db (enroll p s r hub).1.db
      ⊎ IsStranded p s r hub.db (enroll p s r hub).1.db problem
enroll-refused p s r hub problem n u =
    enroll_cases
      (λ out.
        out.0 ≡ err problem → SameRows hub.db out.1.db ⊎ IsStranded p s r hub.db out.1.db problem)
      p s r hub (λ stopped limits e. inl (same p s r hub.db))
      (λ limits. enroll_allowed-Leaves p s r hub.db n u problem)
