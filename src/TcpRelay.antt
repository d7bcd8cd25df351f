-- ===== src/TcpRelay.antt =====
-- dashboard/app/services/tcp_relay.py: `TcpRelayManager`. The fields of a relay that the code assigns once
-- stand in `RelayState`, with the identity of the object (`is`) as a number; those that it changes stand in
-- `Progress`, under that identity, since tasks hold a relay after the table has dropped it. A coroutine is a
-- step for each stretch between two of its awaits that touches the table or a count. Times are in one
-- unit of the clock. The forwarding of bytes, the sockets and the closing of writers are not modelled.
pub mod Hosts
pub mod Opening
pub mod Calls
pub mod Table
pub mod Sound
pub mod Closing
pub mod Ports
pub mod Count
pub mod Steps
pub mod Runs
pub mod View
pub mod Removed
pub mod Refines
pub mod Final
pub mod Opens
use opnsense_hub.Base.{
  ℕ, suc, ◌+◌, ◌-◌, raise_if, ◌>>=◌, ◌>>◌, Bool, true, false, ◌&&◌, ◌||◌, not, Option, none, some,
  List, [], ◌∷◌, ◌++◌, map, select, find, length, is_some, ltb, leb, if◌then◌else◌, ◌==◌, nat_eq,
  text_eq, Text, codes, strip, Result, ok, err, Exception, value_error, runtime_error, Eq,
}
use opnsense_hub.Base.Integers.{ℤ, pos, negsuc, between, lez, ltz, magnitude}
use opnsense_hub.Base.Decimal.{str}
use Hosts.{Stdlib, DeviceId, parse_device_id, normalize_public_base_host}

pub record TcpRelayAllocation : Type 0 where
  pub device_id : ℕ
  pub bind_host : Text
  pub public_host : Text
  pub port : ℕ
  pub url : Text
  pub expires_at : ℕ

-- The comparison that the dataclass generates.
unfoldable pub same_allocation : (a b : TcpRelayAllocation) → Bool
same_allocation a b =
    a.device_id == b.device_id
    && a.bind_host == b.bind_host
    && a.public_host == b.public_host
    && a.port == b.port
    && a.url == b.url
    && a.expires_at == b.expires_at

pub record RelayState : Type 0 where
  pub ident : ℕ
  pub allocation : TcpRelayAllocation
  pub target_host : Text
  pub target_port : ℕ
  pub allowed_client_ip : ℕ
  pub expires_at : ℕ

pub record Progress : Type 0 where
  pub active_connections : ℕ
  pub closing : Bool

abbrev pub started : Progress
started = record { active_connections = 0; closing = false }

-- A running `_handle_client`, with its local `accepted`.
pub record Connection : Type 0 where
  pub task : ℕ
  pub state : RelayState
  pub peer : Option ℕ
  pub accepted : Bool

pub record TcpRelayManager : Type 0 where
  pub bind_host : Text
  pub port_min : ℕ
  pub port_max : ℕ
  pub ttl : ℕ
  pub idle_timeout : ℕ
  pub max_connections : ℕ
  -- the dictionary `_relays`, in its order
  pub relays : List (ℕ × RelayState)
  -- every relay ever made
  pub made : List RelayState
  pub progress : ℕ → Progress
  pub tasks : List Connection

-- `TcpRelayManager.__init__`
unfoldable pub init :
    (bind_host : Text) (port_min port_max ttl idle_timeout max_connections : ℤ)
    → Result TcpRelayManager
init bind_host port_min port_max ttl idle_timeout max_connections = do
  raise_if (strip bind_host == []) (value_error "bind_host must not be empty")
  raise_if (not (between 1 65535 port_min)) (value_error "port_min must be between 1 and 65535")
  raise_if (not (between 1 65535 port_max)) (value_error "port_max must be between 1 and 65535")
  raise_if (ltz port_max port_min) (value_error "port_min must not exceed port_max")
  raise_if (lez ttl (pos 0)) (value_error "ttl must be greater than zero")
  raise_if (lez idle_timeout (pos 0)) (value_error "idle_timeout must be greater than zero")
  raise_if (ltz max_connections (pos 1)) (value_error "max_connections must be at least one")
  ok (record {
    bind_host = strip bind_host;
    port_min = magnitude port_min;
    port_max = magnitude port_max;
    ttl = magnitude ttl;
    idle_timeout = magnitude idle_timeout;
    max_connections = magnitude max_connections;
    relays = [];
    made = [];
    progress = λ _. started;
    tasks = [];
  })

-- `_relays.get(port)`
unfoldable pub lookup : ℕ → List (ℕ × RelayState) → Option RelayState
lookup port [] = none
lookup port ((p, state) ∷ relays) = if p == port then some state else lookup port relays

-- `_relays[port] = state`
unfoldable pub assign : ℕ → RelayState → List (ℕ × RelayState) → List (ℕ × RelayState)
assign port state [] = (port, state) ∷ []
assign port state ((p, old) ∷ relays) =
    let rest = assign port state relays in
    if p == port then (p, state) ∷ relays else (p, old) ∷ rest

-- `_relays.pop(port, None)`
unfoldable pub pop : ℕ → List (ℕ × RelayState) → List (ℕ × RelayState)
pop port = select (λ e. not (e.0 == port))

abbrev pub update : (ℕ → Progress) → (ident : ℕ) → Progress → ℕ → Progress
update progress ident p i = if i == ident then p else progress i

-- The relay behind a reference.
unfoldable pub relay_at : (ident : ℕ) → List RelayState → Option RelayState
relay_at ident = find (λ state. state.ident == ident)

-- The state part of `_detach_relay`; that the server stops listening is the flag's meaning for `arrive`.
unfoldable pub detach_relay : RelayState → TcpRelayManager → TcpRelayManager
unfolding pop
detach_relay state m = record m {
  progress = update m.progress state.ident (record (m.progress state.ident) { closing = true });
  relays = pop state.allocation.port m.relays;
}

unfoldable pub detach_all : List RelayState → TcpRelayManager → TcpRelayManager
detach_all [] m = m
detach_all (state ∷ states) m = detach_all states (detach_relay state m)

unfoldable pub close_allocation : TcpRelayAllocation → TcpRelayManager → Bool × TcpRelayManager
unfolding lookup same_allocation detach_relay
close_allocation allocation m = elim (lookup allocation.port m.relays) [
  | none ↦ (false, m)
  | some state ↦
      if same_allocation state.allocation allocation
      then (true, detach_relay state m)
      else (false, m)
]

unfoldable pub close_device : Stdlib → DeviceId → TcpRelayManager → Result ℕ × TcpRelayManager
unfolding detach_all parse_device_id
close_device lib device_id m = elim (parse_device_id lib device_id) [
  | err e ↦ (err e, m)
  | ok id ↦
      let states = select (λ state. state.allocation.device_id == id) (map (λ e. e.1) m.relays) in
      (ok (length states), detach_all states m)
]

unfoldable pub close_all : TcpRelayManager → ℕ × TcpRelayManager
unfolding detach_all
close_all m = let states = map (λ e. e.1) m.relays in (length states, detach_all states m)

-- `_expire_relay` of a relay, once its wait is over.
unfoldable pub expire_relay : RelayState → TcpRelayManager → TcpRelayManager
unfolding lookup detach_relay
expire_relay state m = elim (lookup state.allocation.port m.relays) [
  | none ↦ m
  | some other ↦ if other.ident == state.ident then detach_relay state m else m
]

-- `_peer_is_allowed`, of the address that the peer's name reads as, or none
unfoldable pub peer_is_allowed : Option ℕ → ℕ → Bool
peer_is_allowed none allowed = false
peer_is_allowed (some ip) allowed = ip == allowed

-- `_handle_client` up to its first await: whether the client is accepted.
unfoldable pub accepts : RelayState → Option ℕ → TcpRelayManager → Bool
unfolding peer_is_allowed
accepts state peer m =
    let p = m.progress state.ident in
    not (p.closing || not (peer_is_allowed peer state.allowed_client_ip))
    && not (leb m.max_connections p.active_connections)

unfoldable pub begin_client : (task : ℕ) → RelayState → Option ℕ → TcpRelayManager → TcpRelayManager
unfolding accepts
begin_client task state peer m =
    let p = m.progress state.ident in
    let yes = accepts state peer m in
    record m {
      tasks = record { task = task; state = state; peer = peer; accepted = yes } ∷ m.tasks;
      progress =
          if yes
          then update m.progress state.ident
              (record p { active_connections = suc p.active_connections })
          else m.progress;
    }

unfoldable pub find_task : ℕ → List Connection → Option Connection
find_task task = find (λ c. c.task == task)

unfoldable pub discard_task : ℕ → List Connection → List Connection
discard_task task [] = []
discard_task task (c ∷ tasks) =
    let rest = discard_task task tasks in if c.task == task then tasks else c ∷ rest

-- The `finally` of `_handle_client`, which runs however the client's task ends. The count is a
-- natural number here; that it is above 0 at this point is a theorem.
unfoldable pub finish_client : (task : ℕ) → TcpRelayManager → TcpRelayManager
unfolding find_task discard_task
finish_client task m = elim (find_task task m.tasks) [
  | none ↦ m
  | some c ↦
      let p = m.progress c.state.ident in
      record m {
        tasks = discard_task task m.tasks;
        progress =
            if c.accepted
            then update m.progress c.state.ident
                (record p { active_connections = p.active_connections - 1 })
            else m.progress;
      }
]
