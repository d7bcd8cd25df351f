-- ===== src/Csrf/Tokens.antt =====
-- dashboard/app/security/csrf.py: signed tokens, and the check of a request.
use opnsense_hub.Base.{
  ℕ, ◌≡◌, ◌≢◌, ◌↔◌, ◌⊎◌, refl, ap, Option, none, some, [], ◌∷◌, ◌++◌, ok, arith, Text, text_eq,
  text_beq_iff, rsplit_once, Option-cases, inl, inr,
}
use mathlib.Core.Option.{some-injective}
use opnsense_hub.Base.Decimal.{rsplit_once-append}
use opnsense_hub.Csrf.{
  sign_csrf_token, unsign_csrf_token, non_empty, or_form, compared, validate_csrf_request,
}

rsplit_once-eq-some :
    (sep : ℕ) (s a b : Text) → rsplit_once sep s ≡ some (a, b) → s ≡ a ++ (sep ∷ b)
unfolding rsplit_once
rsplit_once-eq-some sep [] a b h = cc
rsplit_once-eq-some sep (c ∷ s) a b h = elim (Option-cases (rsplit_once sep s)) [
  | inl e ↦ ground arith
  | inr ((x, y), e) ↦ ground (arith, rsplit_once-eq-some sep s x y e)
]

-- The comparison, on what the cookie gave.
compared-eq-ok :
    (o header form : Option Text)
    → compared (non_empty o) (non_empty (or_form (non_empty header) form)) ≡ ok tt
    → (t : Text) × (o ≡ some t)
      × (t ≢ [])
      × ((header ≡ some t) ⊎ ((non_empty header ≡ none) × (form ≡ some t)))
compared-eq-ok none header form h = cc
compared-eq-ok (some []) header form h = cc
compared-eq-ok (some (c ∷ s)) (some (d ∷ r)) form h =
    (c ∷ s, refl, ground arith, inl (ground (arith, text_beq_iff (d ∷ r) (c ∷ s))))
compared-eq-ok (some (c ∷ s)) none none h = cc
compared-eq-ok (some (c ∷ s)) none (some []) h = cc
compared-eq-ok (some (c ∷ s)) none (some (d ∷ r)) h =
    (c ∷ s, refl, ground arith, inr (refl, ground (arith, text_beq_iff (d ∷ r) (c ∷ s))))
compared-eq-ok (some (c ∷ s)) (some []) none h = cc
compared-eq-ok (some (c ∷ s)) (some []) (some []) h = cc
compared-eq-ok (some (c ∷ s)) (some []) (some (d ∷ r)) h =
    (c ∷ s, refl, ground arith, inr (refl, ground (arith, text_beq_iff (d ∷ r) (c ∷ s))))

compared_of_eq :
    (o header form : Option Text) (t : Text)
    → o ≡ some t
    → t ≢ []
    → (header ≡ some t) ⊎ ((non_empty header ≡ none) × (form ≡ some t))
    → compared (non_empty o) (non_empty (or_form (non_empty header) form)) ≡ ok tt
compared_of_eq o header form [] e ne p = absurd (ne refl)
compared_of_eq o header form (c ∷ s) e ne (inl p) =
    rw (e, p) (ground (arith, text_beq_iff (c ∷ s) (c ∷ s)))
compared_of_eq o header form (c ∷ s) e ne (inr (p, q)) =
    rw (e, p, q) (ground (arith, text_beq_iff (c ∷ s) (c ∷ s)))

module _ (signature : Text → Text) where
  -- A text is accepted, with the token `t`, exactly if it is the signed form of `t`. (A signature is
  -- hexadecimal, so it holds no ".".)
  pub unsign-iff-sign :
      ((t : Text) → rsplit_once b'.' (signature t) ≡ none)
      → (signed t : Text)
      → (unsign_csrf_token signature (some signed) ≡ some t)
        ↔ (signed ≡ sign_csrf_token signature t)
  unfolding unsign_csrf_token sign_csrf_token
  unsign-iff-sign hex signed t = (
    λ h. elim (Option-cases (rsplit_once b'.' signed)) [
      | inl e ↦ ground arith
      | inr ((x, y), e) ↦
          ground (arith, rsplit_once-eq-some b'.' signed x y e, text_beq_iff y (signature x))
    ],
    λ h. ground (
      arith,
      rsplit_once-append b'.' t (signature t) (hex t),
      text_beq_iff (signature t) (signature t),
    ),
  )

  -- A request passes the check exactly if its cookie is a nonempty token followed by "." and the
  -- signature of this token, and the header, or without a header the form, repeats the token. A
  -- signature has no "." in it.
  pub validate_csrf_request_iff :
      ((t : Text) → rsplit_once b'.' (signature t) ≡ none)
      → (cookie header form : Option Text)
      → (validate_csrf_request signature cookie header form ≡ ok tt) ↔ (
          (t : Text) × (cookie ≡ some (t ++ (b'.' ∷ signature t)))
          × (t ≢ [])
          × ((header ≡ some t) ⊎ ((non_empty header ≡ none) × (form ≡ some t))))
  unfolding validate_csrf_request sign_csrf_token unsign_csrf_token
  validate_csrf_request_iff hex none header form = (λ h. absurd (cc), λ (t, e, ne, p). absurd (cc))
  validate_csrf_request_iff hex (some signed) header form = (
    λ h.
        let (t, e, ne, p) =
          compared-eq-ok (unsign_csrf_token signature (some signed)) header form h in
        (t, ap some ((unsign-iff-sign hex signed t).0 e), ne, p),
    λ (t, e, ne, p).
        compared_of_eq (unsign_csrf_token signature (some signed)) header form t
          ((unsign-iff-sign hex signed t).1 (some-injective _ _ e)) ne p,
  )
