-- ===== src/Enrollment/Joined.antt =====
-- dashboard/app/routers/enrollment.py: what an accepted enrollment has done.
use opnsense_hub.Base.{ℕ, ◌≡◌, true, false, [], ◌∷◌, ◌++◌, map, Result, ok, arith}
use mathlib.Core.List.{Mem}
use opnsense_hub.Models.{Db, EnrollmentCode}
use opnsense_hub.WireGuard.{next_tunnel_ip}
use opnsense_hub.Enrollment.{
  Platform, Settings, Request, Session, Enrolled, Hub, refused, otp_of, key_of, is_open, claim_row,
  claim_enrollment_code, conflicts, new_device, installed, enroll_allowed, enroll,
}
use opnsense_hub.Enrollment.Rows.{matching_code-found, matching_code-Mem, joined-devices}
use opnsense_hub.Enrollment.Cases.{
  enroll_at_cases, enroll_with_cases, enroll_allowed_cases, enroll_cases,
}

-- The firewall of `x` has joined: how the rows of `b` come from those of `a`.
pub record IsJoined (p : Platform) (s : Settings) (r : Request) (a b : Db) (x : Enrolled)
    : Type 0 where
  pub code : EnrollmentCode
  pub row_of_code : Mem code a.enrollment_codes
  pub unused : is_open r.now code ≡ true
  pub fits : p.verify_secret (otp_of p r) code.code_hash ≡ true
  pub claimed : b.enrollment_codes ≡ map (claim_row code.id r.now) a.enrollment_codes
  pub ip : ℕ
  pub address : next_tunnel_ip p.ips p.validated (map (λ d. d.wg_tunnel_ip) a.devices) ≡ ok ip
  pub told : x.tunnel_ip ≡ p.str_ip ip
  pub unique : conflicts (key_of p r) (p.str_ip ip) a.devices ≡ false
  pub row : b.devices ≡ a.devices ++ (new_device p s r code.company_id (p.str_ip ip) ∷ [])
  pub peer : installed p s r (p.str_ip ip) ≡ ok tt

enroll_allowed-IsJoined :
    (p : Platform) (s : Settings) (r : Request) (db : Db) (x : Enrolled)
    → (enroll_allowed p s r (record { committed = db; working = db })).0 ≡ ok x
    → IsJoined p s r db
        (enroll_allowed p s r (record { committed = db; working = db })).1.committed
        x
unfolding refused claim_enrollment_code
enroll_allowed-IsJoined p s r db x =
    enroll_allowed_cases Joins p s r (record { committed = db; working = db })
      (λ action status detail q. absurd (cc))
      λ code e.
        enroll_with_cases Joins p s r code (record { committed = db; working = db })
          (λ problem q. absurd (cc)) (λ action status detail q. absurd (cc))
          (λ problem q. absurd (cc))
          λ server ip c a.
            enroll_at_cases Joins p s r code server (p.str_ip ip) _
              (λ action status detail q. absurd (cc)) (λ f action status detail q. absurd (cc))
              (λ f problem i w q. absurd (cc))
              (λ f i q. record {
                code = code;
                row_of_code = matching_code-Mem p r.now (otp_of p r) db.enrollment_codes code e;
                unused = (matching_code-found p r.now (otp_of p r) db.enrollment_codes code e).0;
                fits = (matching_code-found p r.now (otp_of p r) db.enrollment_codes code e).1;
                claimed = (joined-devices p s r code.company_id (p.str_ip ip) _).1;
                ip = ip;
                address = a;
                told = ground (arith, q);
                unique = f;
                row = (joined-devices p s r code.company_id (p.str_ip ip) _).0;
                peer = i;
              })
  where
    Joins : Result Enrolled × Session → Type 0
    Joins out = out.0 ≡ ok x → IsJoined p s r db out.1.committed x

-- An accepted enrollment came with a secret that fits an open code of the table, which is now used.
-- It has added one firewall, of the company of the code, with the public key of the request and the
-- next free tunnel address, both of which no other firewall had, and has added its peer.
pub enroll-IsJoined :
    (p : Platform) (s : Settings) (r : Request) (hub : Hub) (x : Enrolled)
    → (enroll p s r hub).0 ≡ ok x
    → IsJoined p s r hub.db (enroll p s r hub).1.db x
enroll-IsJoined p s r hub x =
    enroll_cases (λ out. out.0 ≡ ok x → IsJoined p s r hub.db out.1.db x) p s r hub
      (λ problem limits q. absurd (cc)) (λ limits. enroll_allowed-IsJoined p s r hub.db x)
