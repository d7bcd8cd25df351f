-- ===== src/TcpRelay/Hosts.antt =====
-- dashboard/app/services/tcp_relay.py: the texts that a relay is asked for with. What Python's uuid and
-- ipaddress read, and its codec for international names, are fields of `Stdlib`; identifiers of devices
-- and addresses are the numbers of their bits, the version of an address included.
use opnsense_hub.Base.{
  rstrip, ℕ, Bool, ◌&&◌, ◌||◌, not, Option, none, some, [], ltb, leb, any, length, contains, nat_eq,
  text_eq, ◌==◌, Text, codes, strip, lower, split, starts_with, ends_with, is_space, if◌then◌else◌,
  Result, ok, err, value_error,
}

pub record Stdlib : Type 0 where
  pub parse_uuid : Text → Option ℕ
  pub hex : ℕ → Text
  pub ip_address : Text → Option ℕ
  -- `.encode("idna").decode("ascii")`
  pub idna : Text → Option Text

-- `uuid.UUID | str`
pub data DeviceId : Type 0 where
  parsed : ℕ → DeviceId
  text : Text → DeviceId

-- `isalnum` of an ASCII character
unfoldable pub is_alnum : ℕ → Bool
is_alnum c = leb b'0' c && leb c b'9' || leb b'A' c && leb c b'Z' || leb b'a' c && leb c b'z'

-- What the code refuses in a label.
unfoldable pub is_bad_label : Text → Bool
unfolding is_alnum
is_bad_label label =
    label == []
    || ltb 63 (length label)
    || starts_with label (codes "-")
    || ends_with label (codes "-")
    || any (λ c. not (is_alnum c || c == b'-')) label

module _ (lib : Stdlib) where
  unfoldable pub parse_device_id : DeviceId → Result ℕ
  parse_device_id (parsed id) = ok id
  parse_device_id (text s) = elim (lib.parse_uuid s) [
    | some id ↦ ok id
    | none ↦ err (value_error "device_id must be a UUID")
  ]

  unfoldable pub normalize_public_base_host : Text → Result Text
  unfolding is_bad_label rstrip
  normalize_public_base_host public_base_host =
      let base_host = rstrip b'.' (strip public_base_host) in
      let invalid = value_error "public_base_host must be a DNS hostname" in
      if base_host == []
        || ltb 253 (length base_host)
        || any is_space base_host
        || any (contains (codes "/:@[]")) base_host
      then err invalid
      else elim (lib.idna base_host) [
        | none ↦ err invalid
        | some ascii ↦
            let ascii_host = lower ascii in
            if any is_bad_label (split b'.' ascii_host) then err invalid else ok ascii_host
      ]
