-- ===== src/Uploads/Accepted.antt =====
-- dashboard/app/services/device_backup_crypto.py: what holds of an encrypted configuration that is accepted.
use opnsense_hub.Base.{
  ℕ, zero, suc, ◌+◌, ◌*◌, ap, ◌-◌, ◌/◌, ◌%◌, ◌≤◌, ◌≡◌, ◌≢◌, refl, String, Bool, true, false, ◌||◌,
  not, some, [], ◌∷◌, Exception, ok, raise_if, >>=-eq-ok, Text, codes, ◌==◌, nat_eq, text_eq,
  length, ltb, starts_with, arith, text_beq_iff,
}
use opnsense_hub.Payload.{
  Json, null, boolean, integer, real, string, array, object, Members, get, text_of,
}
use opnsense_hub.Uploads.Envelopes.{
  Codecs, encrypted_format, encrypted_envelope_fields, max_ciphertext_bytes, max_envelope_chars,
  max_encoded_ciphertext_chars, has_fields, object_of, string_of, or_invalid, is_text,
  is_bad_hostname, drop, check_device, check_source, check_algorithms, check_hex, check_ciphertext,
  canonical, matches_hex, validate_encrypted_device_backup,
}

-- A ciphertext of OpenSSL's form: a header of sixteen bytes, and whole blocks.
pub record IsCiphertext (c : Text) : Type 0 where
  pub salted : starts_with c (codes "Salted__") ≡ true
  pub blocks : ℕ
  pub whole : length c ≡ 16 * (blocks + 2)
  pub bounded : length c ≤ max_ciphertext_bytes

pub record IsEncrypted (lib : Codecs) (id : ℕ) (v : Json) (t : Text) : Type 0 where
  pub members : Members
  pub fields : (v ≡ object members) × (has_fields encrypted_envelope_fields members ≡ true)
  pub device : lib.uuid (text_of lib.str (get null (codes "device_id") members)) ≡ some id
  pub key : (s : Text) × (get null (codes "key_id") members ≡ string s) × (matches_hex 24 s ≡ true)
  pub mac : (s : Text) × (get null (codes "mac") members ≡ string s) × (matches_hex 64 s ≡ true)
  pub hostname :
      (s : Text) × (get null (codes "source_hostname") members ≡ string s)
      × (is_bad_hostname s ≡ false)
  pub ciphertext :
      (s c : Text) × (get null (codes "ciphertext") members ≡ string s)
      × (lib.b64decode s ≡ some c)
      × IsCiphertext c
  pub stored : t ≡ lib.dumps v
  pub short : length t ≤ max_envelope_chars

string_of-ok : (v : Json) (detail : String) (s : Text) → string_of v detail ≡ ok s → v ≡ string s
string_of-ok (string x) detail s h = ap string (ground (arith, h))
string_of-ok null detail s h = absurd (cc)
string_of-ok (boolean b) detail s h = absurd (cc)
string_of-ok (integer z) detail s h = absurd (cc)
string_of-ok (real z) detail s h = absurd (cc)
string_of-ok (array xs) detail s h = absurd (cc)
string_of-ok (object m) detail s h = absurd (cc)

object_of-ok : (v : Json) (detail : String) (m : Members) → object_of v detail ≡ ok m → v ≡ object m
object_of-ok (object x) detail m h = ap object (ground (arith, h))
object_of-ok null detail m h = absurd (cc)
object_of-ok (boolean b) detail m h = absurd (cc)
object_of-ok (integer z) detail m h = absurd (cc)
object_of-ok (real z) detail m h = absurd (cc)
object_of-ok (array xs) detail m h = absurd (cc)
object_of-ok (string x) detail m h = absurd (cc)

drop-length : (n : ℕ) (t : Text) → drop n t ≢ [] → length t ≡ n + length (drop n t)
drop-length zero t h = omega arith
drop-length (suc n) [] h = absurd (h refl)
drop-length (suc n) (c ∷ t) h = omega (arith, drop-length n t h)

length-positive : (t : Text) → t ≢ [] → 1 ≤ length t
length-positive [] h = absurd (h refl)
length-positive (c ∷ t) h = omega arith

module _ (lib : Codecs) (id : ℕ) (m : Members) where
  check_hex-ok :
      (n : ℕ) (v : Json) (detail : String)
      → check_hex lib id n v detail ≡ ok tt
      → (s : Text) × (v ≡ string s) × (matches_hex n s ≡ true)
  unfolding check_hex
  check_hex-ok n v detail h =
      let (s, e, k) = >>=-eq-ok (string_of v detail) _ h in
      (s, string_of-ok v detail s e, ground (arith, k))

  check_device-ok :
      check_device lib id m ≡ ok tt
      → lib.uuid (text_of lib.str (get null (codes "device_id") m)) ≡ some id
  unfolding check_device
  check_device-ok h = ground (arith, h)

  check_source-ok :
      check_source lib id m ≡ ok tt
      → (s : Text) × (get null (codes "source_hostname") m ≡ string s) × (is_bad_hostname s ≡ false)
  unfolding check_source
  check_source-ok h =
      let (s, e, k) = >>=-eq-ok (string_of (get null (codes "source_hostname") m) _) _ h in
      let (_, g, _) = >>=-eq-ok (raise_if (is_bad_hostname s) _) _ k in
      (s, string_of-ok _ _ s e, ground (arith, g))

  whole_blocks :
      (c : Text)
      → (drop 16 c == [] || not (length (drop 16 c) % 16 == 0)) ≡ false
      → (blocks : ℕ) × (length c ≡ 16 * (blocks + 2))
  whole_blocks c h =
      let n : ◌≢◌ {A = Text} (drop 16 c) [] = ground (arith, h, text_beq_iff (drop 16 c) []) in
      let z : length (drop 16 c) % 16 ≡ 0 = ground (arith, h) in
      (
        length (drop 16 c) / 16 - 1,
        omega (arith, z, drop-length 16 c n, length-positive (drop 16 c) n),
      )

  check_ciphertext-ok :
      check_ciphertext lib id m ≡ ok tt
      → (s c : Text) × (get null (codes "ciphertext") m ≡ string s)
        × (lib.b64decode s ≡ some c)
        × IsCiphertext c
  unfolding check_ciphertext
  check_ciphertext-ok h =
      let (s, e, h1) = >>=-eq-ok (string_of (get null (codes "ciphertext") m) _) _ h in
      let (_, _, h2) = >>=-eq-ok (raise_if (s == []) _) _ h1 in
      let (_, _, h3) = >>=-eq-ok (raise_if (ltb max_encoded_ciphertext_chars (length s)) _) _ h2 in
      let (c, d, h4) = >>=-eq-ok (or_invalid (lib.b64decode s) _) _ h3 in
      let (_, p, h5) = >>=-eq-ok (raise_if (not (starts_with c (codes "Salted__"))) _) _ h4 in
      let (_, q, h6) =
        >>=-eq-ok (raise_if (drop 16 c == [] || not (length (drop 16 c) % 16 == 0)) _) _ h5 in
      let (blocks, whole) = whole_blocks c (ground (arith, q)) in
      (
        s,
        c,
        string_of-ok _ _ s e,
        ground (arith, d),
        record {
          salted = ground (arith, p);
          blocks = blocks;
          whole = whole;
          bounded = ground (arith, h6);
        },
      )

test-ok : (b : Bool) (problem : Exception) → raise_if (not b) problem ≡ ok tt → b ≡ true
test-ok true problem h = refl
test-ok false problem h = absurd (cc)

canonical-ok :
    (lib : Codecs) (id : ℕ) (v : Json) (t : Text)
    → canonical lib id v ≡ ok t
    → (t ≡ lib.dumps v) × (length (lib.dumps v) ≤ max_envelope_chars)
unfolding canonical
canonical-ok lib id v t h = ground (arith, h)

-- An encrypted configuration that is accepted is an object with exactly the fields of the format; it is
-- for the firewall that delivers it, with a fingerprint of 24 and a code of 64 hexadecimal digits, a
-- clean host name, and a salted ciphertext of at least one whole block and at most 2.1 million bytes;
-- what is stored is its canonical form of at most 2.9 million characters.
pub validate_encrypted_device_backup-IsEncrypted :
    (lib : Codecs) (id : ℕ) (v : Json) (t : Text)
    → validate_encrypted_device_backup lib id v ≡ ok t
    → IsEncrypted lib id v t
unfolding validate_encrypted_device_backup
validate_encrypted_device_backup-IsEncrypted lib id v t h =
    let (m, o, h1) = >>=-eq-ok (object_of v _) _ h in
    let (_, f, h2) = >>=-eq-ok (raise_if (not (has_fields encrypted_envelope_fields m)) _) _ h1 in
    let (_, _, h3) =
      >>=-eq-ok (raise_if (not (is_text encrypted_format (get null (codes "format") m))) _) _ h2 in
    let (_, _, h4) = >>=-eq-ok (check_algorithms lib id m) _ h3 in
    let (_, d, h5) = >>=-eq-ok (check_device lib id m) _ h4 in
    let (_, k, h6) = >>=-eq-ok (check_hex lib id 24 (get null (codes "key_id") m) _) _ h5 in
    let (_, a, h7) = >>=-eq-ok (check_hex lib id 64 (get null (codes "mac") m) _) _ h6 in
    let (_, s, h8) = >>=-eq-ok (check_source lib id m) _ h7 in
    let (_, c, h9) = >>=-eq-ok (check_ciphertext lib id m) _ h8 in
    let (e, b) = canonical-ok lib id v t h9 in
    record {
      members = m;
      fields = (object_of-ok v _ m o, test-ok (has_fields encrypted_envelope_fields m) _ f);
      device = check_device-ok lib id m d;
      key = check_hex-ok lib id m 24 _ _ k;
      mac = check_hex-ok lib id m 64 _ _ a;
      hostname = check_source-ok lib id m s;
      ciphertext = check_ciphertext-ok lib id m c;
      stored = e;
      short = rw e b;
    }
