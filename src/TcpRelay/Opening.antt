-- ===== src/TcpRelay/Opening.antt =====
-- dashboard/app/services/tcp_relay.py: `create_relay`. The shuffle, what the system answers to
-- binding and to serving a port, and the clocks are fields of `Attempt`.
use opnsense_hub.Base.{
  ℕ, zero, suc, ◌+◌, ◌-◌, Bool, false, not, Option, none, some, List, [], ◌∷◌, ◌++◌, is_some,
  length, if◌then◌else◌, ◌==◌, nat_eq, text_eq, Text, codes, strip, raise_if, ◌>>=◌, ◌>>◌, Result,
  ok, err, Exception, value_error, runtime_error,
}
use opnsense_hub.Base.Integers.{ℤ, between, magnitude}
use opnsense_hub.Base.Decimal.{str}
use opnsense_hub.TcpRelay.{
  TcpRelayAllocation, RelayState, TcpRelayManager, started, lookup, assign, pop, update,
}
use opnsense_hub.TcpRelay.Hosts.{Stdlib, DeviceId, parse_device_id, normalize_public_base_host}

pub record Attempt : Type 0 where
  -- `random.shuffle`
  pub shuffle : List ℕ → List ℕ
  -- `asyncio.start_server` returns, and does not raise an `OSError`
  pub binds : ℕ → Bool
  -- what `server.start_serving` raises
  pub serving_raises : ℕ → Option Exception
  -- `datetime.now` and the clock of the loop
  pub now : ℕ
  pub loop_time : ℕ

-- The arguments of `create_relay`, after they are checked.
pub record Target : Type 0 where
  pub device_id : ℕ
  pub target_host : Text
  pub target_port : ℕ
  pub client_ip : ℕ
  pub public_host : Text

unfoldable pub count_from : (low n : ℕ) → List ℕ
count_from low zero = []
count_from low (suc n) = low ∷ count_from (suc low) n

-- `range(low, high + 1)`
unfoldable pub range : (low high : ℕ) → List ℕ
unfolding count_from
range low high = count_from low (suc high - low)

unfoldable pub new_allocation : TcpRelayManager → Attempt → Target → ℕ → TcpRelayAllocation
new_allocation m a t port = record {
  device_id = t.device_id;
  bind_host = m.bind_host;
  public_host = t.public_host;
  port = port;
  url = codes "https://" ++ t.public_host ++ codes ":" ++ str port ++ codes "/";
  expires_at = a.now + m.ttl;
}

unfoldable pub new_state : TcpRelayManager → Attempt → Target → ℕ → RelayState
unfolding new_allocation
new_state m a t port = record {
  ident = length m.made;
  allocation = new_allocation m a t port;
  target_host = t.target_host;
  target_port = t.target_port;
  allowed_client_ip = t.client_ip;
  expires_at = a.loop_time + m.ttl;
}

-- The loop's body once the port is bound.
unfoldable pub serve :
    Attempt → Target → (port : ℕ) → TcpRelayManager → Result TcpRelayAllocation × TcpRelayManager
unfolding new_state assign pop
serve a t port m =
    let state = new_state m a t port in
    let entered = record m {
      relays = assign port state m.relays;
      progress = update m.progress state.ident started;
    } in
    elim (a.serving_raises port) [
      | none ↦ (ok state.allocation, record entered { made = state ∷ m.made })
      | some e ↦ (err e, record entered { relays = pop port entered.relays })
    ]

-- A port is tried if it is not in the table and binds.
unfoldable pub is_usable : Attempt → TcpRelayManager → ℕ → Bool
unfolding lookup
is_usable a m port = if is_some (lookup port m.relays) then false else a.binds port

unfoldable pub try_ports :
    Attempt → Target → List ℕ → TcpRelayManager → Result TcpRelayAllocation × TcpRelayManager
unfolding serve is_usable
try_ports a t [] m = (err (runtime_error "no available TCP relay port"), m)
try_ports a t (port ∷ ports) m =
    let rest = try_ports a t ports m in if is_usable a m port then serve a t port m else rest

-- `ipaddress.ip_address`, which raises a `ValueError`
unfoldable pub read_address : Stdlib → Text → Result ℕ
read_address lib s = elim (lib.ip_address s) [
  | some ip ↦ ok ip
  | none ↦ err (value_error "not an address")
]

module _ (lib : Stdlib) where
  -- The part before the lock.
  unfoldable pub check_target :
      DeviceId
      → (target_host : Text) (target_port : ℤ) (allowed_client_ip public_base_host : Text)
      → Result Target
  unfolding parse_device_id read_address normalize_public_base_host
  check_target device_id target_host target_port allowed_client_ip public_base_host = do
    id ← parse_device_id lib device_id
    raise_if (strip target_host == []) (value_error "target_host must not be empty")
    raise_if (not (between 1 65535 target_port))
        (value_error "target_port must be between 1 and 65535")
    ip ← read_address lib allowed_client_ip
    base ← normalize_public_base_host lib public_base_host
    ok (record {
      device_id = id;
      target_host = strip target_host;
      target_port = magnitude target_port;
      client_ip = ip;
      public_host = codes "d-" ++ lib.hex id ++ codes "." ++ base;
    })

  unfoldable pub create_relay :
      Attempt
      → DeviceId
      → (target_host : Text) (target_port : ℤ) (allowed_client_ip base : Text) → TcpRelayManager
      → Result TcpRelayAllocation × TcpRelayManager
  unfolding check_target try_ports range
  create_relay a device_id target_host target_port allowed_client_ip base m =
      elim (check_target device_id target_host target_port allowed_client_ip base) [
        | err e ↦ (err e, m)
        | ok t ↦ try_ports a t (a.shuffle (range m.port_min m.port_max)) m
      ]
