-- ===== src/TcpRelay/Calls.antt =====
-- dashboard/app/services/tcp_relay.py: the manager under any sequence of calls and events, in the order in
-- which the lock and the event loop let them run.
use opnsense_hub.Base.{ℕ, Option, none, some, List, [], ◌∷◌, nat_eq, Text}
use opnsense_hub.Base.Integers.{ℤ}
use opnsense_hub.TcpRelay.{
  TcpRelayAllocation, RelayState, TcpRelayManager, close_allocation, close_device, close_all,
  relay_at, expire_relay, begin_client, finish_client,
}
use opnsense_hub.TcpRelay.Hosts.{Stdlib, DeviceId}
use opnsense_hub.TcpRelay.Opening.{Attempt, create_relay}

pub data Call : Type 0 where
  creates :
      Attempt
      → DeviceId
      → (target_host : Text) (target_port : ℤ) (allowed_client_ip base : Text) → Call
  closes : TcpRelayAllocation → Call
  closes_device : DeviceId → Call
  closes_all : Call
  -- the end of the wait of a relay, by its identity
  expires : (ident : ℕ) → Call
  -- a client at the server of a relay, and the end of its task
  arrives : (task ident : ℕ) → (peer : Option ℕ) → Call
  leaves : (task : ℕ) → Call

abbrev pub with_relay :
    (ident : ℕ)
    → (RelayState → TcpRelayManager → TcpRelayManager)
    → TcpRelayManager
    → TcpRelayManager
with_relay ident f m = elim (relay_at ident m.made) [ none ↦ m | some state ↦ f state m ]

module _ (lib : Stdlib) where
  -- The manager after a call, whether it returned or raised.
  unfoldable pub step : Call → TcpRelayManager → TcpRelayManager
  step (creates a device_id host port ip base) m =
      (create_relay lib a device_id host port ip base m).1
  step (closes allocation) m = (close_allocation allocation m).1
  step (closes_device device_id) m = (close_device lib device_id m).1
  step closes_all m = (close_all m).1
  step (expires ident) m = with_relay ident expire_relay m
  step (arrives task ident peer) m = with_relay ident (λ state. begin_client task state peer) m
  step (leaves task) m = finish_client task m

  unfoldable pub run : List Call → TcpRelayManager → TcpRelayManager
  run [] m = m
  run (c ∷ calls) m = run calls (step c m)
