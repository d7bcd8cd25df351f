-- ===== src/Enrollment/Cases.antt =====
-- dashboard/app/routers/enrollment.py: the ways that the handler ends.
use opnsense_hub.Base.{
  ℕ, ◌≡◌, inl, inr, true, false, ◌||◌, some, [], map, String, Result, ok, err, Exception, Text,
  Bool-cases, Option-cases, Result-cases, ◌==◌, nat_eq, text_eq,
}
use opnsense_hub.Models.{EnrollmentCode}
use opnsense_hub.WireGuard.{validate_public_key, next_tunnel_ip}
use opnsense_hub.RateLimit.{MemoryRateLimitBackend}
use opnsense_hub.Enrollment.{
  Platform, Settings, Request, Session, Enrolled, Hub, commit, rollback, change, refused, otp_of,
  key_of, hostname_of, matching_code, claim_enrollment_code, compensate_failed_peer_add, conflicts,
  joined, installed, is_wireguard_error, enroll_at, enroll_with, enroll_allowed, enroll, limited,
}

module _ {ℓ} (P : Result Enrolled × Session → Type ℓ) (p : Platform) (s : Settings)
    (r : Request) where
  pub enroll_at_cases :
      (code : EnrollmentCode) (server : Text × Text) (ip : Text) (session : Session)
      → ((action : String) (status : ℕ) (detail : String)
          → P (refused s r action status detail (rollback session)))
      → (conflicts (key_of p r) ip session.working.devices ≡ false
          → (action : String) (status : ℕ) (detail : String)
          → P (
              refused s r action status detail (
                compensate_failed_peer_add r.device_id code.id
                  (commit (change (joined p s r code.company_id ip) session)))))
      → (conflicts (key_of p r) ip session.working.devices ≡ false
          → (problem : Exception) → installed p s r ip ≡ err problem
          → is_wireguard_error problem ≡ false
          → P (err problem, commit (change (joined p s r code.company_id ip) session)))
      → (conflicts (key_of p r) ip session.working.devices ≡ false
          → installed p s r ip ≡ ok tt
          → P (
            ok (record {
              device_id = r.device_id;
              token_hash = r.token_hash;
              tunnel_ip = ip;
              server_public_key = server.0;
              allowed_ips = server.1;
            }),
            commit (change (joined p s r code.company_id ip) session),
          ))
      → P (enroll_at p s r code server ip session)
  unfolding enroll_at
  enroll_at_cases code server ip session conflict failed stranded done =
      elim (Bool-cases (conflicts (key_of p r) ip session.working.devices)) [
        | inl e ↦ rw (e, enroll_at) (conflict _ _ _)
        | inr e ↦ elim (Result-cases (installed p s r ip)) [
          | inr (problem, q) ↦ elim (Bool-cases (is_wireguard_error problem)) [
            | inl w ↦ rw (e, enroll_at, q, w) (failed e _ _ _)
            | inr w ↦ rw (e, enroll_at, q, w) (stranded e problem q w)
          ]
          | inl (u, q) ↦ rw (e, enroll_at, q) (done e q)
        ]
      ]

  pub enroll_with_cases :
      (code : EnrollmentCode) (session : Session)
      → ((problem : Exception) → P (err problem, session))
      → ((action : String) (status : ℕ) (detail : String)
          → P (
              refused s r action status detail
                (rollback (claim_enrollment_code code r.now session).1)))
      → ((problem : Exception) → P (err problem, (claim_enrollment_code code r.now session).1))
      → ((server : Text × Text) (ip : ℕ)
          → (claim_enrollment_code code r.now session).0 ≡ true
          → next_tunnel_ip p.ips p.validated (
              map
                (λ d. d.wg_tunnel_ip)
                (claim_enrollment_code code r.now session).1.working.devices)
            ≡ ok ip
          → P (
              enroll_at p s r code server
                (p.str_ip ip)
                (claim_enrollment_code code r.now session).1))
      → P (enroll_with p s r code session)
  unfolding enroll_with
  enroll_with_cases code session unset raced full found = elim (Result-cases p.server) [
    | inr (problem, e) ↦ rw (e, enroll_with) (unset problem)
    | inl (server, e) ↦ elim (Bool-cases (claim_enrollment_code code r.now session).0) [
      | inr c ↦ rw (e, enroll_with, c) (raced _ _ _)
      | inl c ↦
          elim (Result-cases (
            next_tunnel_ip p.ips p.validated (
              map (λ d. d.wg_tunnel_ip)
                (claim_enrollment_code code r.now session).1.working.devices))) [
                  | inr (problem, q) ↦ rw (e, enroll_with, c, q) (full problem)
                  | inl (ip, q) ↦ rw (e, enroll_with, c, q) (found server ip c q)
                ]
    ]
  ]

  pub enroll_allowed_cases :
      (session : Session)
      → ((action : String) (status : ℕ) (detail : String)
          → P (refused s r action status detail session))
      → ((code : EnrollmentCode)
          → matching_code p r.now (otp_of p r) session.working.enrollment_codes ≡ some code
          → P (enroll_with p s r code session))
      → P (enroll_allowed p s r session)
  unfolding enroll_allowed
  enroll_allowed_cases session refuse found =
      elim (Bool-cases (otp_of p r == [] || hostname_of p r == [] || key_of p r == [])) [
        | inl e ↦ rw (e, enroll_allowed) (refuse _ _ _)
        | inr e ↦
            elim (Option-cases
              (matching_code p r.now (otp_of p r) session.working.enrollment_codes)) [
                | inl q ↦ rw (e, enroll_allowed, q) (refuse _ _ _)
                | inr (code, q) ↦ elim (Result-cases (validate_public_key (key_of p r))) [
                  | inr (problem, k) ↦ rw (e, enroll_allowed, q, k) (refuse _ _ _)
                  | inl (u, k) ↦ rw (e, enroll_allowed, q, k) (found code q)
                ]
              ]
      ]

pub enroll_cases {ℓ} :
    (P : Result Enrolled × Hub → Type ℓ) (p : Platform) (s : Settings) (r : Request) (hub : Hub)
    → ((problem : Exception) (limits : MemoryRateLimitBackend)
        → P (err problem, record hub { limits = limits }))
    → ((limits : MemoryRateLimitBackend)
        → let out = enroll_allowed p s r (record { committed = hub.db; working = hub.db }) in
          P (out.0, record { db = out.1.committed; limits = limits }))
    → P (enroll p s r hub)
unfolding enroll
enroll_cases P p s r hub stopped passed =
    elim (Result-cases (limited s r (otp_of p r) hub.limits).0) [
      | inr (problem, e) ↦ rw (enroll, e) (stopped problem _)
      | inl (u, e) ↦ rw (enroll, e) (passed _)
    ]
