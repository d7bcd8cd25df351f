-- ===== src/Totp.antt =====
-- The codes of an authenticator: the TOTP functions of dashboard/app/security/__init__.py. Parameters are
-- HMAC-SHA1, as the bytes of its digest of twenty, the decoder of base32, and Python's tables of
-- letters and digits. Times are seconds.
pub mod Codes
use opnsense_hub.Base.{
  ℕ, zero, suc, ◌+◌, ◌-◌, ◌*◌, ◌/◌, ◌%◌, ◌^◌, Bool, true, false, not, Option, none, some, List, [],
  ◌∷◌, ◌++◌, Text, ◌==◌, nat_eq, text_eq, any, length, select, upper, if◌then◌else◌,
}
use opnsense_hub.Base.Decimal.{str}

-- `b32decode` gives `none` where it raises a ValueError. `hmac_sha1 key counter i` is byte `i` of the
-- digest of the eight bytes of the counter.
pub record Platform : Type 0 where
  pub b32decode : Text → Option Text
  pub hmac_sha1 : (key : Text) (counter : ℕ) → ℕ → ℕ
  pub isalnum : ℕ → Bool
  pub isdigit : ℕ → Bool

abbrev pub replicate : ℕ → ℕ → Text
replicate zero c = []
replicate (suc n) c = c ∷ replicate n c

-- `s.zfill(width)` of a text without a sign
abbrev pub zfill : (width : ℕ) → Text → Text
zfill width s = replicate (width - length s) b'0' ++ s

module _ (p : Platform) where
  unfoldable pub normalize_totp_secret : Text → Text
  normalize_totp_secret secret = select p.isalnum (upper secret)

  unfoldable pub normalize_totp_code : Text → Text
  normalize_totp_code code = select p.isdigit code

  unfoldable pub totp_secret_bytes : Text → Option Text
  totp_secret_bytes secret =
      let normalized = normalize_totp_secret secret in
      let padding = replicate ((8 - length normalized % 8) % 8) b'=' in
      if normalized == [] then none else p.b32decode (normalized ++ padding)

  -- The bits that the source joins by `|` are apart, so they add up.
  unfoldable pub truncated : (key : Text) (counter : ℕ) → ℕ
  truncated key counter =
      let digest = p.hmac_sha1 key counter in
      let offset = digest 19 % 16 in
      digest offset % 128 * 2 ^ 24
      + digest (offset + 1) * 2 ^ 16
      + digest (offset + 2) * 2 ^ 8
      + digest (offset + 3)

  unfoldable pub totp_code_for_counter : (key : Text) (counter : ℕ) → Text
  totp_code_for_counter key counter = zfill 6 (str (truncated key counter % 1000000))

  abbrev pub code_of : Option Text → ℕ → Option Text
  code_of none counter = none
  code_of (some key) counter = some (totp_code_for_counter key counter)

  unfoldable pub totp_code : (secret : Text) (for_time : ℕ) → Option Text
  totp_code secret for_time = code_of (totp_secret_bytes secret) (for_time / 30)

  -- `count` counters from one on
  abbrev pub counters : (first count : ℕ) → List ℕ
  counters first zero = []
  counters first (suc count) = first ∷ counters (suc first) count

  abbrev pub matches : Option Text → Text → List ℕ → Bool
  matches none normalized candidates = false
  matches (some key) normalized candidates =
      any (λ counter. totp_code_for_counter key counter == normalized) candidates

  -- The clock has passed `window` periods, so no counter is negative.
  unfoldable pub verify_totp_code : (secret code : Text) (for_time window : ℕ) → Bool
  verify_totp_code secret code for_time window =
      let normalized = normalize_totp_code code in
      if not (length normalized == 6)
      then false
      else matches (totp_secret_bytes secret) normalized
          (counters (for_time / 30 - window) (2 * window + 1))
