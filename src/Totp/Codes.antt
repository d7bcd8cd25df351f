-- ===== src/Totp/Codes.antt =====
-- dashboard/app/security/__init__.py: the form of a code, and the times at which it is read.
use opnsense_hub.Base.{
  ℕ, zero, suc, ◌+◌, ◌-◌, ◌*◌, ◌/◌, ◌%◌, ◌≤◌, ◌<◌, ◌≡◌, ◌⊎◌, inl, inr, refl, ap, Bool, true, some,
  [], ◌∷◌, ◌++◌, Text, ◌==◌, nat_eq, text_eq, text_beq_refl, any, length, length-append, select,
  All, Bool-cases, ltb→lt, ltb, arith, Option-cases,
}
use opnsense_hub.Base.Decimal.{str, print_digits}
use opnsense_hub.Totp.{
  Platform, replicate, zfill, normalize_totp_code, totp_secret_bytes, truncated,
  totp_code_for_counter, totp_code, verify_totp_code,
}

abbrev power : ℕ → ℕ
power zero = 1
power (suc k) = 10 * power k

length-print_digits :
    (f k n : ℕ) (acc : Text)
    → n < f
    → n < power (suc k)
    → length (print_digits f n acc) ≤ suc k + length acc
unfolding print_digits
length-print_digits zero k n acc h b = elim h [ ]
length-print_digits (suc f) zero n acc h b = ground arith
length-print_digits (suc f) (suc k) n acc h b =
    ground (arith, length-print_digits f k (n / 10) ((48 + n % 10) ∷ acc))

All-print_digits :
    (P : ℕ → Type 0) (f n : ℕ) (acc : Text)
    → ((d : ℕ) → d < 10 → P (48 + d))
    → All P acc
    → All P (print_digits f n acc)
unfolding print_digits
All-print_digits P zero n acc digit h = h
All-print_digits P (suc f) n acc digit h = elim (Bool-cases (ltb n 10)) [
  | inl e ↦ rw e (digit n (ltb→lt n 10 e), h)
  | inr e ↦
      rw e (
        All-print_digits P f (n / 10) ((48 + n % 10) ∷ acc) digit (digit (n % 10) (omega arith), h))
]

-- One of three counters in a row gives the code.
any_of_three :
    (code_at : ℕ → Text) (first k : ℕ)
    → (k ≡ first) ⊎ ((k ≡ suc first) ⊎ (k ≡ suc (suc first)))
    → any (λ counter. code_at counter == code_at k) (first ∷ suc first ∷ suc (suc first) ∷ [])
      ≡ true
unfolding any
any_of_three code_at first k (inl e) = rw e (ground (arith, text_beq_refl (code_at first)))
any_of_three code_at first k (inr (inl e)) =
    rw e (ground (arith, text_beq_refl (code_at (suc first))))
any_of_three code_at first k (inr (inr e)) =
    rw e (ground (arith, text_beq_refl (code_at (suc (suc first)))))

near :
    (shown read : ℕ)
    → shown ≤ read + 30
    → read ≤ shown + 30
    → 30 ≤ read
    → (shown / 30 ≡ read / 30 - 1)
      ⊎ ((shown / 30 ≡ suc (read / 30 - 1)) ⊎ (shown / 30 ≡ suc (suc (read / 30 - 1))))
near shown read before after late = ground arith

length-replicate : (n c : ℕ) → length (replicate n c) ≡ n
length-replicate zero c = refl
length-replicate (suc n) c = ap suc (length-replicate n c)

All-replicate : (P : ℕ → Type 0) (n c : ℕ) (s : Text) → P c → All P s → All P (replicate n c ++ s)
All-replicate P zero c s h k = k
All-replicate P (suc n) c s h k = (h, All-replicate P n c s h k)

select_of_All : (q : ℕ → Bool) (s : Text) → All (λ c. q c ≡ true) s → select q s ≡ s
unfolding select
select_of_All q [] h = refl
select_of_All q (c ∷ s) (h, k) = ground (arith, h, select_of_All q s k)

module _ (p : Platform) (digit : (d : ℕ) → d < 10 → p.isdigit (48 + d) ≡ true) where
  length-totp_code_for_counter :
      (key : Text) (counter : ℕ) → length (totp_code_for_counter p key counter) ≡ 6
  unfolding totp_code_for_counter str
  length-totp_code_for_counter key counter =
      let n = truncated p key counter % 1000000 in
      let short = length-print_digits (suc n) 5 n [] (omega arith) (omega arith) in
      omega (
        arith,
        short,
        length-append (replicate (6 - length (print_digits (suc n) n [])) b'0')
            (print_digits (suc n) n []),
        length-replicate (6 - length (print_digits (suc n) n [])) b'0',
      )

  normalize-totp_code_for_counter :
      (key : Text) (counter : ℕ)
      → normalize_totp_code p (totp_code_for_counter p key counter)
        ≡ totp_code_for_counter p key counter
  unfolding normalize_totp_code totp_code_for_counter str
  normalize-totp_code_for_counter key counter =
      let n = truncated p key counter % 1000000 in
      select_of_All p.isdigit (zfill 6 (str n)) (
        All-replicate (λ c. p.isdigit c ≡ true) (6 - length (print_digits (suc n) n [])) b'0'
          (print_digits (suc n) n []) (digit 0 (omega arith))
          (All-print_digits (λ c. p.isdigit c ≡ true) (suc n) n [] digit tt))

  -- A code that is computed at one time is accepted at every time at most thirty seconds earlier or
  -- later.
  pub verify_totp_code-totp_code :
      (secret code : Text) (shown read : ℕ)
      → totp_code p secret shown ≡ some code
      → shown ≤ read + 30
      → read ≤ shown + 30
      → 30 ≤ read
      → verify_totp_code p secret code read 1 ≡ true
  unfolding verify_totp_code totp_code
  verify_totp_code-totp_code secret code shown read h before after late =
      elim (Option-cases (totp_secret_bytes p secret)) [
        | inl missing ↦ absurd (ground (arith, missing))
        | inr (key, e) ↦
            let code_at = totp_code_for_counter p key in
            let shows : code_at (shown / 30) ≡ code = ground (arith, e) in
            let found =
              any_of_three code_at (read / 30 - 1) (shown / 30)
                (near shown read before after late) in
            rw
              (
                ← shows,
                normalize-totp_code_for_counter key (shown / 30),
                length-totp_code_for_counter key (shown / 30),
                e,
              )
              found
      ]
