-- ===== src/Enrollment/Once.antt =====
-- dashboard/app/routers/enrollment.py: a code is spent by the first firewall that joins with it.
use opnsense_hub.Base.{
  ℕ, ◌≤◌, ◌≡◌, ◌≢◌, Bool, true, false, not, ◌&&◌, ◌||◌, none, some, List, [], ◌∷◌, map, String,
  Result, ok, Text, arith, All, All-map, All-after_map, All-select_of, find-All, is_some, leb, ◌==◌,
  nat_eq, find, select, text_eq,
}
use opnsense_hub.Models.{Db, EnrollmentCode}
use opnsense_hub.Enrollment.{
  Platform, Settings, Request, Session, Enrolled, Hub, refused, otp_of, is_open, matching_code,
  claim_row, release_row, claim_enrollment_code, compensate_failed_peer_add, enroll_allowed, enroll,
}
use opnsense_hub.Enrollment.Rows.{write_audit-SameRows, matching_code-found, joined-devices}
use opnsense_hub.Enrollment.Cases.{
  enroll_at_cases, enroll_with_cases, enroll_allowed_cases, enroll_cases,
}

-- A row of the code `id` is used or expired, and no other row is one that the secret fits.
abbrev spent_row : Platform → (otp : Text) (id now : ℕ) → EnrollmentCode → Bool
spent_row p otp id now c =
    (not (c.id == id) || (is_some c.used_at || leb c.expires_at now))
    && (not (p.verify_secret otp c.code_hash) || c.id == id)

abbrev IsSpent : Platform → (otp : Text) (id now : ℕ) → List EnrollmentCode → Type 0
IsSpent p otp id now codes = All (λ c. spent_row p otp id now c ≡ true) codes

module _ (p : Platform) (otp : Text) (id now : ℕ) where
  spent_open :
      (later : ℕ) (c : EnrollmentCode)
      → now ≤ later
      → spent_row p otp id now c ≡ true
      → is_open later c ≡ true
      → (c.id ≢ id) × (p.verify_secret otp c.code_hash ≡ false)
  spent_open later c l h o = ground arith

  spent_claim :
      (j later : ℕ) (c : EnrollmentCode)
      → spent_row p otp id now c ≡ true
      → spent_row p otp id now (claim_row j later c) ≡ true
  spent_claim j later c h = ground arith

  spent_release :
      (j : ℕ) (c : EnrollmentCode)
      → j ≢ id
      → spent_row p otp id now c ≡ true
      → spent_row p otp id now (release_row j c) ≡ true
  spent_release j c n h = ground arith

  -- A code that is found later is another one, and the secret fits none.
  find_open :
      (later : ℕ) (q : EnrollmentCode → Bool) (codes : List EnrollmentCode) (c : EnrollmentCode)
      → now ≤ later
      → IsSpent p otp id now codes
      → find q (select (is_open later) codes) ≡ some c
      → (c.id ≢ id) × (p.verify_secret otp c.code_hash ≡ false)
  find_open later q codes c l h e = find-All _ q (select (is_open later) codes) c e (
      All-select_of (λ d. (d.id ≢ id) × (p.verify_secret otp d.code_hash ≡ false)) (is_open later)
        codes (All-map _ _ codes (λ d g o. spent_open later d l g o) h))

  refused-IsSpent :
      (s : Settings) (r : Request) (action : String) (status : ℕ) (detail : String)
      (session : Session)
      → IsSpent p otp id now session.working.enrollment_codes
      → IsSpent p otp id now
          (refused {A = Enrolled} s r action status detail session).1.committed.enrollment_codes
  unfolding refused
  refused-IsSpent s r action status detail session h =
      rw
        ((write_audit-SameRows s.audit_device_view_throttle_minutes r.now action none none
          session.working).codes)
        h

  claim-IsSpent :
      (j later : ℕ) (codes : List EnrollmentCode)
      → IsSpent p otp id now codes
      → IsSpent p otp id now (map (claim_row j later) codes)
  claim-IsSpent j later codes h =
      All-after_map _ (claim_row j later) codes (All-map _ _ codes (λ c. spent_claim j later c) h)

  release-IsSpent :
      (j : ℕ) (codes : List EnrollmentCode)
      → j ≢ id
      → IsSpent p otp id now codes
      → IsSpent p otp id now (map (release_row j) codes)
  release-IsSpent j codes n h =
      All-after_map _ (release_row j) codes (All-map _ _ codes (λ c. spent_release j c n) h)

  Stays : Result Enrolled × Session → Type 0
  Stays out = IsSpent p otp id now out.1.committed.enrollment_codes

  enroll_allowed-IsSpent :
      (s : Settings) (r : Request) (db : Db)
      → now ≤ r.now
      → IsSpent p otp id now db.enrollment_codes
      → Stays (enroll_allowed p s r (record { committed = db; working = db }))
  unfolding claim_enrollment_code compensate_failed_peer_add matching_code Stays
  enroll_allowed-IsSpent s r db l h =
      enroll_allowed_cases Stays p s r (record { committed = db; working = db })
        (λ action status detail. refused-IsSpent s r action status detail _ h)
        λ code e.
          enroll_with_cases Stays p s r code (record { committed = db; working = db })
            (λ problem. h) (λ action status detail. refused-IsSpent s r action status detail _ h)
            (λ problem. h)
            λ server ip c a.
              enroll_at_cases Stays p s r code server (p.str_ip ip) _
                (λ action status detail. refused-IsSpent s r action status detail _ h)
                (λ f action status detail. refused-IsSpent s r action status detail _ (
                  release-IsSpent code.id _ (find_open r.now _ db.enrollment_codes code l h e).0 (
                    rw ((joined-devices p s r code.company_id (p.str_ip ip) _).1)
                      (claim-IsSpent code.id r.now db.enrollment_codes h))))
                (λ f problem i w.
                  rw ((joined-devices p s r code.company_id (p.str_ip ip) _).1)
                    (claim-IsSpent code.id r.now db.enrollment_codes h))
                (λ f i.
                  rw ((joined-devices p s r code.company_id (p.str_ip ip) _).1)
                    (claim-IsSpent code.id r.now db.enrollment_codes h))

  enroll-IsSpent :
      (s : Settings) (r : Request) (hub : Hub)
      → now ≤ r.now
      → IsSpent p otp id now hub.db.enrollment_codes
      → IsSpent p otp id now (enroll p s r hub).1.db.enrollment_codes
  unfolding Stays
  enroll-IsSpent s r hub l h =
      enroll_cases (λ out. IsSpent p otp id now out.1.db.enrollment_codes) p s r hub
        (λ problem limits. h) (λ limits. enroll_allowed-IsSpent s r hub.db l h)

  spent_after :
      (c : EnrollmentCode)
      → (p.verify_secret otp c.code_hash ≡ true → c.id ≡ id)
      → spent_row p otp id now (claim_row id now c) ≡ true
  spent_after c h = ground arith

-- A firewall that joins with a code spends it.
enroll_allowed-spends :
    (p : Platform) (s : Settings) (r : Request) (db : Db) (code : EnrollmentCode) (x : Enrolled)
    → matching_code p r.now (otp_of p r) db.enrollment_codes ≡ some code
    → All
        (λ c. p.verify_secret (otp_of p r) c.code_hash ≡ true → c.id ≡ code.id)
        db.enrollment_codes
    → (enroll_allowed p s r (record { committed = db; working = db })).0 ≡ ok x
    → IsSpent p
        (otp_of p r)
        code.id
        r.now
        (enroll_allowed p s r
          (record { committed = db; working = db })).1.committed.enrollment_codes
unfolding refused claim_enrollment_code
enroll_allowed-spends p s r db code x m own =
    enroll_allowed_cases Spends p s r (record { committed = db; working = db })
      (λ action status detail q. absurd (cc))
      λ found e.
        enroll_with_cases Spends p s r found (record { committed = db; working = db })
          (λ problem q. absurd (cc)) (λ action status detail q. absurd (cc))
          (λ problem q. absurd (cc))
          λ server ip c a.
            enroll_at_cases Spends p s r found server (p.str_ip ip) _
              (λ action status detail q. absurd (cc)) (λ f action status detail q. absurd (cc))
              (λ f problem i w q. absurd (cc))
              (λ f i q. rw ((joined-devices p s r found.company_id (p.str_ip ip) _).1) (
                All-after_map _ (claim_row found.id r.now) db.enrollment_codes (
                  let z : found ≡ code = ground (arith, e, m) in
                  rw z (
                    All-map _ _ db.enrollment_codes
                      (λ c. spent_after p (otp_of p r) code.id r.now c) own))))
  where
    Spends : Result Enrolled × Session → Type 0
    Spends out =
        out.0 ≡ ok x → IsSpent p (otp_of p r) code.id r.now out.1.committed.enrollment_codes

unfoldable pub enroll_all : Platform → Settings → List Request → Hub → Hub
enroll_all p s [] hub = hub
enroll_all p s (r ∷ rs) hub = enroll_all p s rs (enroll p s r hub).1

enroll_all-IsSpent :
    (p : Platform) (s : Settings) (otp : Text) (id now : ℕ) (rs : List Request) (hub : Hub)
    → All (λ r. now ≤ r.now) rs
    → IsSpent p otp id now hub.db.enrollment_codes
    → IsSpent p otp id now (enroll_all p s rs hub).db.enrollment_codes
unfolding enroll_all
enroll_all-IsSpent p s otp id now [] hub l h = h
enroll_all-IsSpent p s otp id now (r ∷ rs) hub l h =
    enroll_all-IsSpent p s otp id now rs (enroll p s r hub).1 l.1
      (enroll-IsSpent p otp id now s r hub l.0 h)

-- While the code of a secret is spent, no request with this secret is answered with a firewall.
IsSpent-refuses :
    (p : Platform) (s : Settings) (r : Request) (id now : ℕ) (db : Db) (x : Enrolled)
    → now ≤ r.now
    → IsSpent p (otp_of p r) id now db.enrollment_codes
    → (enroll_allowed p s r (record { committed = db; working = db })).0 ≢ ok x
unfolding refused matching_code
IsSpent-refuses p s r id now db x l h =
    enroll_allowed_cases (λ out. out.0 ≢ ok x) p s r (record { committed = db; working = db })
      (λ action status detail q. absurd (cc))
      λ code e. absurd (
        ground (
          arith,
          (find_open p (otp_of p r) id now r.now (λ c. p.verify_secret (otp_of p r) c.code_hash)
              db.enrollment_codes code l h e).1,
          (matching_code-found p r.now (otp_of p r) db.enrollment_codes code e).1,
        ))

-- A code enrolls one firewall: once a request has joined with it, and after any further enrollments, no
-- later request with the same secret is answered with a firewall. The secret fits no other code.
pub enroll_once :
    (p : Platform) (s : Settings) (first again : Request) (between : List Request) (hub : Hub)
    (code : EnrollmentCode) (x y : Enrolled)
    → matching_code p first.now (otp_of p first) hub.db.enrollment_codes ≡ some code
    → All
        (λ c. p.verify_secret (otp_of p first) c.code_hash ≡ true → c.id ≡ code.id)
        hub.db.enrollment_codes
    → (enroll p s first hub).0 ≡ ok x
    → All (λ r. first.now ≤ r.now) between
    → first.now ≤ again.now
    → otp_of p again ≡ otp_of p first
    → (enroll p s again (enroll_all p s between (enroll p s first hub).1)).0 ≢ ok y
enroll_once p s first again between hub code x y m own e late after same =
    let spent : IsSpent p (otp_of p first) code.id first.now
        (enroll p s first hub).1.db.enrollment_codes =
      enroll_cases
        (λ out.
          out.0 ≡ ok x → IsSpent p (otp_of p first) code.id first.now out.1.db.enrollment_codes)
        p s first hub (λ problem limits q. absurd (cc))
        (λ limits. enroll_allowed-spends p s first hub.db code x m own) e in
    let hub' : Hub = enroll_all p s between (enroll p s first hub).1 in
    let kept : IsSpent p (otp_of p first) code.id first.now hub'.db.enrollment_codes =
      enroll_all-IsSpent p s (otp_of p first) code.id first.now between (enroll p s first hub).1
        late spent in
    enroll_cases (λ out. out.0 ≢ ok y) p s again hub' (λ problem limits q. absurd (cc))
      (λ limits. IsSpent-refuses p s again code.id first.now hub'.db y after (rw same kept))
