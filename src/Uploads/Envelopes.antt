-- ===== src/Uploads/Envelopes.antt =====
-- dashboard/app/services/device_backup_crypto.py: the two formats of an uploaded configuration. What
-- Python's uuid, datetime, base64, json and UTF-8 make of a value are fields of `Codecs`, with `none` for
-- the exception that they raise.
use opnsense_hub.Base.{
  ℕ, zero, suc, ◌%◌, String, Bool, true, false, ◌&&◌, ◌||◌, not, Option, none, some, List, [], ◌∷◌,
  ◌++◌, Result, ok, err, Exception, http_exception, value_error, raise_if, ◌>>=◌, ◌>>◌, Text, codes,
  ◌==◌, nat_eq, text_eq, contains, any, length, take, ltb, leb, strip, lower, starts_with,
  if◌then◌else◌,
}
use opnsense_hub.Base.Integers.{ℤ, pos, negsuc}
use opnsense_hub.Payload.{
  Json, null, boolean, integer, real, string, object, Members, close, member, get, text_of,
}

pub record Codecs : Type 0 where
  pub str : Json → Text
  pub uuid : Text → Option ℕ
  -- `fromisoformat` of a text in which "Z" is written out: whether the time has a zone
  pub timestamp : Text → Option Bool
  pub b64decode : Text → Option Text
  -- `encode("utf-8")`, which refuses a lone surrogate
  pub utf8 : Text → Option Text
  -- `json.dumps` with sorted keys, without spaces
  pub dumps : Json → Text

abbrev pub encrypted_format : Text
encrypted_format = codes "opnsense-config-encrypted-v1"

abbrev pub plaintext_format : Text
plaintext_format = codes "opnsense-config-plaintext-v1"

abbrev pub max_ciphertext_bytes : ℕ
max_ciphertext_bytes = 2100000

abbrev pub max_encoded_ciphertext_chars : ℕ
max_encoded_ciphertext_chars = 2800000

abbrev pub max_envelope_chars : ℕ
max_envelope_chars = 2900000

abbrev pub max_request_bytes : ℕ
max_request_bytes = 2910000

abbrev source_fields : List Text
source_fields =
    codes "format"
    ∷ codes "version"
    ∷ codes "device_id"
    ∷ codes "source_hostname"
    ∷ codes "captured_at"
    ∷ []

abbrev pub encrypted_envelope_fields : List Text
encrypted_envelope_fields =
    source_fields
    ++ (codes "cipher"
        ∷ codes "kdf"
        ∷ codes "iterations"
        ∷ codes "key_id"
        ∷ codes "ciphertext"
        ∷ codes "mac"
        ∷ [])

abbrev pub plaintext_envelope_fields : List Text
plaintext_envelope_fields = source_fields ++ (codes "content" ∷ [])

unfoldable pub keys : Members → List Text
keys close = []
keys (member k v rest) = k ∷ keys rest

-- `set(value) == fields`
unfoldable pub has_fields : List Text → Members → Bool
unfolding keys
has_fields fields m =
    not (any (λ k. not (contains fields k)) (keys m))
    && not (any (λ f. not (contains (keys m) f)) fields)

abbrev pub invalid_device_backup : String → Exception
invalid_device_backup = http_exception 400

abbrev pub object_of : Json → String → Result Members
object_of (object m) detail = ok m
object_of v detail = err (invalid_device_backup detail)

abbrev pub integer_of : Json → String → Result ℤ
integer_of (integer z) detail = ok z
integer_of v detail = err (invalid_device_backup detail)

abbrev pub string_of : Json → String → Result Text
string_of (string s) detail = ok s
string_of v detail = err (invalid_device_backup detail)

abbrev pub or_invalid {ℓ} : {A : Type ℓ} → Option A → String → Result A
or_invalid none detail = err (invalid_device_backup detail)
or_invalid (some a) detail = ok a

abbrev pub is_text : Text → Json → Bool
is_text t (string s) = s == t
is_text t v = false

abbrev pub is_number : ℕ → ℤ → Bool
is_number n (pos m) = m == n
is_number n (negsuc m) = false

-- `value == 1`, which also holds of `true` and of 1.0
abbrev pub equals_one : Json → Bool
equals_one (boolean b) = b
equals_one (integer z) = is_number 1 z
equals_one (real (some z)) = is_number 1 z
equals_one v = false

unfoldable pub is_hex : ℕ → Bool
is_hex c = leb b'0' c && leb c b'9' || leb b'a' c && leb c b'f'

-- the match of `[0-9a-f]{n}` with the whole text
unfoldable pub matches_hex : ℕ → Text → Bool
unfolding is_hex
matches_hex zero [] = true
matches_hex zero (c ∷ s) = false
matches_hex (suc n) [] = false
matches_hex (suc n) (c ∷ s) = is_hex c && matches_hex n s

abbrev pub drop : ℕ → Text → Text
drop zero t = t
drop (suc n) [] = []
drop (suc n) (c ∷ t) = drop n t

-- `needle in text`
unfoldable pub has_part : (needle : Text) → Text → Bool
has_part needle [] = needle == []
has_part needle (c ∷ s) = if starts_with (c ∷ s) needle then true else has_part needle s

abbrev pub is_bad_hostname : Text → Bool
is_bad_hostname h = strip h == [] || ltb 255 (length h) || any (λ c. ltb c 32) h

module _ (lib : Codecs) (expected_device_id : ℕ) where
  unfoldable pub check_device : Members → Result (Unit {0})
  check_device m = do
    id ←
        or_invalid (lib.uuid (text_of lib.str (get null (codes "device_id") m)))
          "device ID is invalid"
    raise_if (not (id == expected_device_id))
        (invalid_device_backup "backup is for another firewall")

  unfoldable pub check_source : Members → Result (Unit {0})
  check_source m = do
    hostname ← string_of (get null (codes "source_hostname") m) "hostname is invalid"
    raise_if (is_bad_hostname hostname) (invalid_device_backup "hostname is invalid")
    captured_at ← string_of (get null (codes "captured_at") m) "timestamp is invalid"
    raise_if (ltb 64 (length captured_at)) (invalid_device_backup "timestamp is invalid")
    zoned ← or_invalid (lib.timestamp captured_at) "timestamp is invalid"
    raise_if (not zoned) (invalid_device_backup "timestamp must include a timezone")

  unfoldable pub check_algorithms : Members → Result (Unit {0})
  check_algorithms m = do
    version ← integer_of (get null (codes "version") m) "version is invalid"
    iterations ← integer_of (get null (codes "iterations") m) "KDF parameters are invalid"
    raise_if
        (not (
          is_number 1 version
          && is_text (codes "AES-256-CBC+HMAC-SHA256") (get null (codes "cipher") m)
          && is_text (codes "PBKDF2-HMAC-SHA256") (get null (codes "kdf") m)
          && is_number 200000 iterations))
        (invalid_device_backup "encrypted backup algorithms are not supported")

  unfoldable pub check_hex : ℕ → Json → String → Result (Unit {0})
  unfolding matches_hex
  check_hex n v detail = do
    s ← string_of v detail
    raise_if (not (matches_hex n s)) (invalid_device_backup detail)

  unfoldable pub check_ciphertext : Members → Result (Unit {0})
  check_ciphertext m = do
    encoded ← string_of (get null (codes "ciphertext") m) "ciphertext is invalid"
    raise_if (encoded == []) (invalid_device_backup "ciphertext is invalid")
    raise_if (ltb max_encoded_ciphertext_chars (length encoded))
        (invalid_device_backup "ciphertext is too large")
    ciphertext ← or_invalid (lib.b64decode encoded) "ciphertext is invalid"
    raise_if (not (starts_with ciphertext (codes "Salted__")))
        (invalid_device_backup "salt header is invalid")
    raise_if (drop 16 ciphertext == [] || not (length (drop 16 ciphertext) % 16 == 0))
        (invalid_device_backup "ciphertext length is invalid")
    raise_if (ltb max_ciphertext_bytes (length ciphertext))
        (invalid_device_backup "ciphertext is too large")

  unfoldable pub canonical : Json → Result Text
  canonical v = do
    raise_if (ltb max_envelope_chars (length (lib.dumps v)))
        (invalid_device_backup "envelope is too large")
    ok (lib.dumps v)

  unfoldable pub validate_encrypted_device_backup : Json → Result Text
  unfolding has_fields check_algorithms check_device check_hex check_source check_ciphertext
      canonical
  validate_encrypted_device_backup v = do
    m ← object_of v "encrypted backup envelope fields are invalid"
    raise_if (not (has_fields encrypted_envelope_fields m))
        (invalid_device_backup "encrypted backup envelope fields are invalid")
    raise_if (not (is_text encrypted_format (get null (codes "format") m)))
        (invalid_device_backup "encrypted backup format is not supported")
    check_algorithms m
    check_device m
    check_hex 24 (get null (codes "key_id") m) "encrypted backup key fingerprint is invalid"
    check_hex 64 (get null (codes "mac") m) "encrypted backup authentication code is invalid"
    check_source m
    check_ciphertext m
    canonical v

  unfoldable pub check_content : Members → Result (Unit {0})
  unfolding has_part
  check_content m = do
    content ← string_of (get null (codes "content") m) "plaintext backup content is invalid"
    raise_if (strip content == []) (invalid_device_backup "plaintext backup content is invalid")
    encoded ← elim (lib.utf8 content) [
      | none ↦ err (value_error "surrogates not allowed")
      | some b ↦ ok b
    ]
    raise_if (ltb max_ciphertext_bytes (length encoded))
        (invalid_device_backup "plaintext backup content is too large")
    let content_prefix = take 512 (lower content)
    raise_if
        (not (contains content b'<')
          || not (has_part (codes "<opnsense") content_prefix)
            && not (has_part (codes "<config") content_prefix))
        (invalid_device_backup "plaintext backup content is not an OPNsense XML config")

  unfoldable pub validate_plaintext_device_backup : Json → Result Text
  unfolding has_fields check_device check_source check_content canonical
  validate_plaintext_device_backup v = do
    m ← object_of v "plaintext backup envelope fields are invalid"
    raise_if (not (has_fields plaintext_envelope_fields m))
        (invalid_device_backup "plaintext backup envelope fields are invalid")
    raise_if (not (is_text plaintext_format (get null (codes "format") m)))
        (invalid_device_backup "plaintext backup format is not supported")
    raise_if (not (equals_one (get null (codes "version") m)))
        (invalid_device_backup "plaintext backup version is invalid")
    check_device m
    check_source m
    check_content m
    canonical v
