-- ===== src/TcpRelay/Closing.antt =====
-- dashboard/app/services/tcp_relay.py: the closing of relays by allocation, by device, all at once and by
-- time. Each is taken apart into its cases, and keeps the table sound.
use opnsense_hub.Base.{
  ℕ, ◌≡◌, inl, inr, true, some, select, map, ◌==◌, nat_eq, arith, All-select, Bool-cases,
  Option-cases, Result-cases, ok,
}
use opnsense_hub.TcpRelay.Hosts.{Stdlib, DeviceId, parse_device_id}
use opnsense_hub.TcpRelay.{
  TcpRelayAllocation, RelayState, TcpRelayManager, relay_at, lookup, detach_relay, detach_all,
  close_allocation, close_device, close_all, expire_relay, same_allocation,
}
use opnsense_hub.TcpRelay.Table.{Owns, All-of_map}
use opnsense_hub.TcpRelay.Sound.{
  IsSound, detach_relay-IsSound, detach_all-IsSound, owned, owned_at, IsOpen-at,
}

-- Closing an allocation leaves the manager as it is, or detaches the relay at its port.
pub close_allocation_cases {ℓ} :
    (P : TcpRelayManager → Type ℓ) (a : TcpRelayAllocation) (m : TcpRelayManager)
    → P m
    → ((state : RelayState)
        → lookup a.port m.relays ≡ some state
        → same_allocation state.allocation a ≡ true
        → P (detach_relay state m))
    → P (close_allocation a m).1
unfolding close_allocation
close_allocation_cases P a m kept closed = elim (Option-cases (lookup a.port m.relays)) [
  | inl e ↦ rw (e, close_allocation) kept
  | inr (state, e) ↦ elim (Bool-cases (same_allocation state.allocation a)) [
    | inr k ↦ rw (e, close_allocation, k) kept
    | inl k ↦ rw (e, close_allocation, k) (closed state e k)
  ]
]

pub expire_relay_cases {ℓ} :
    (P : TcpRelayManager → Type ℓ) (state : RelayState) (m : TcpRelayManager)
    → P m
    → ((other : RelayState)
        → lookup state.allocation.port m.relays ≡ some other
        → other.ident ≡ state.ident
        → P (detach_relay state m))
    → P (expire_relay state m)
unfolding expire_relay
expire_relay_cases P state m kept closed =
    elim (Option-cases (lookup state.allocation.port m.relays)) [
      | inl e ↦ rw (e, expire_relay) kept
      | inr (other, e) ↦ elim (Bool-cases (other.ident == state.ident)) [
        | inr k ↦ rw (e, expire_relay, k) kept
        | inl k ↦ rw (e, expire_relay, k) (closed other e (ground arith))
      ]
    ]

pub close_device_cases {ℓ} :
    (P : TcpRelayManager → Type ℓ) (lib : Stdlib) (d : DeviceId) (m : TcpRelayManager)
    → P m
    → ((id : ℕ)
        → parse_device_id lib d ≡ ok id
        → P (
            detach_all
              (select (λ state. state.allocation.device_id == id) (map (λ e. e.1) m.relays))
              m))
    → P (close_device lib d m).1
unfolding close_device
close_device_cases P lib d m kept closed = elim (Result-cases (parse_device_id lib d)) [
  | inr (problem, e) ↦ rw (e, close_device) kept
  | inl (id, e) ↦ rw (e, close_device) (closed id e)
]

pub close_allocation-IsSound :
    (a : TcpRelayAllocation) (m : TcpRelayManager) → IsSound m → IsSound (close_allocation a m).1
close_allocation-IsSound a m h =
    close_allocation_cases IsSound a m h
      λ state e k. detach_relay-IsSound state m (owned_at m a.port state h e) h

-- The relay in the table that has the identity of a relay is that relay.
pub same_relay :
    (m : TcpRelayManager) (port ident : ℕ) (state other : RelayState)
    → IsSound m
    → relay_at ident m.made ≡ some state
    → lookup port m.relays ≡ some other
    → other.ident ≡ ident
    → other ≡ state
same_relay m port ident state other h r e q = ground (arith, IsOpen-at m port other h e)

pub expire_relay-IsSound :
    (state : RelayState) (m : TcpRelayManager)
    → relay_at state.ident m.made ≡ some state
    → IsSound m
    → IsSound (expire_relay state m)
expire_relay-IsSound state m r h = expire_relay_cases IsSound state m h λ other e q.
    detach_relay-IsSound state m
      (rw (← same_relay m state.allocation.port state.ident state other h r e q)
        (owned_at m state.allocation.port other h e))
      h

pub close_device-IsSound :
    (lib : Stdlib) (d : DeviceId) (m : TcpRelayManager)
    → IsSound m
    → IsSound (close_device lib d m).1
close_device-IsSound lib d m h = close_device_cases IsSound lib d m h λ id e.
    detach_all-IsSound _ m
      (All-select (Owns m.relays) _ _ (All-of_map (Owns m.relays) m.relays (owned m h))) h

pub close_all-IsSound : (m : TcpRelayManager) → IsSound m → IsSound (close_all m).1
unfolding close_all
close_all-IsSound m h = detach_all-IsSound _ m (All-of_map (Owns m.relays) m.relays (owned m h)) h
