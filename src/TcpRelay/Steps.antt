-- ===== src/TcpRelay/Steps.antt =====
-- dashboard/app/services/tcp_relay.py: the table and the counts through one call or event.
use opnsense_hub.Base.{
  ℕ, ◌≤◌, ◌≡◌, refl, ap, ◌∙◌, inl, inr, true, none, some, map, nat_eq, Option-cases, Result-cases,
  ok, Text, text_eq,
}
use opnsense_hub.Base.Integers.{ℤ}
use opnsense_hub.TcpRelay.{
  RelayState, TcpRelayManager, lookup, relay_at, begin_client, expire_relay, close_all,
}
use opnsense_hub.TcpRelay.Hosts.{Stdlib, DeviceId}
use opnsense_hub.TcpRelay.Opening.{
  Attempt, Target, serve, check_target, create_relay, is_usable, new_state,
}
use opnsense_hub.TcpRelay.Calls.{
  Call, creates, closes, closes_device, closes_all, expires, arrives, leaves, step, with_relay,
}
use opnsense_hub.TcpRelay.Sound.{
  IsSound, begin_client-IsSound, finish_client-IsSound, relay_at-known,
}
use opnsense_hub.TcpRelay.Closing.{
  close_allocation_cases, close_allocation-IsSound, close_device_cases, close_device-IsSound,
  close_all-IsSound, expire_relay_cases, expire_relay-IsSound,
}
use opnsense_hub.TcpRelay.Ports.{
  IsShuffle, serve_ok, serve_err, serve-IsSound, try_ports_cases, is_usable-lookup, shuffled_range,
}
use opnsense_hub.TcpRelay.Count.{
  IsCounted, begin_client-IsCounted, finish_client-IsCounted, detach_relay-IsCounted,
  detach_all-IsCounted, withdrawn-IsCounted, opened-IsCounted,
}

-- The table and the counts together.
pub record IsConsistent (m : TcpRelayManager) : Type 0 where
  pub sound : IsSound m
  pub counted : IsCounted m

-- The shuffle of a call keeps the members of the list.
abbrev pub IsCall : Call → Type 0
IsCall (creates a device_id host port ip base) = IsShuffle a.shuffle
IsCall _ = Unit

-- A call that creates a relay leaves the manager as it is, or has tried a port of the range that is free.
pub create_relay_cases {ℓ} :
    (P : TcpRelayManager → Type ℓ) (lib : Stdlib) (a : Attempt) (d : DeviceId) (host : Text)
    (port : ℤ) (ip base : Text) (m : TcpRelayManager)
    → IsShuffle a.shuffle
    → P m
    → ((t : Target) (p : ℕ)
        → check_target lib d host port ip base ≡ ok t
        → m.port_min ≤ p
        → p ≤ m.port_max
        → is_usable a m p ≡ true
        → P (serve a t p m).1)
    → P (create_relay lib a d host port ip base m).1
unfolding create_relay
create_relay_cases P lib a d host port ip base m s kept served =
    elim (Result-cases (check_target lib d host port ip base)) [
      | inr (problem, e) ↦ rw (e, create_relay) kept
      | inl (t, e) ↦
          rw (e, create_relay)
            (try_ports_cases (λ r. P r.1) _ a t _ m
              (shuffled_range a.shuffle m.port_min m.port_max s) kept
              (λ p q u. served t p e q.0 q.1 u))
    ]

serve-IsConsistent :
    (a : Attempt) (t : Target) (p : ℕ) (m : TcpRelayManager)
    → lookup p m.relays ≡ none
    → m.port_min ≤ p
    → p ≤ m.port_max
    → IsConsistent m
    → IsConsistent (serve a t p m).1
serve-IsConsistent a t p m free low high h = record {
  sound = serve-IsSound a t p m free low high h.sound;
  counted = elim (Option-cases (a.serving_raises p)) [
    | inl e ↦
        rw (serve_ok a t p m free e)
          (opened-IsCounted (new_state m a t p) m (unfold new_state in refl) h.counted)
    | inr (problem, e) ↦ rw (serve_err a t p problem m free e) (withdrawn-IsCounted m h.counted)
  ];
}

pub with_relay_cases {ℓ} :
    (P : TcpRelayManager → Type ℓ) (ident : ℕ) (f : RelayState → TcpRelayManager → TcpRelayManager)
    (m : TcpRelayManager)
    → P m
    → ((state : RelayState) → relay_at ident m.made ≡ some state → P (f state m))
    → P (with_relay ident f m)
with_relay_cases P ident f m kept done = elim (Option-cases (relay_at ident m.made)) [
  | inl e ↦ rw (e, with_relay) kept
  | inr (state, e) ↦ rw (e, with_relay) (done state e)
]

close_all-IsCounted : (m : TcpRelayManager) → IsCounted m → IsCounted (close_all m).1
unfolding close_all
close_all-IsCounted m h = detach_all-IsCounted (map (λ e. e.1) m.relays) m h

pub step-IsConsistent :
    (lib : Stdlib) (c : Call) (m : TcpRelayManager)
    → IsCall c
    → IsConsistent m
    → IsConsistent (step lib c m)
unfolding step
step-IsConsistent lib (creates a d host port ip base) m s h =
    create_relay_cases IsConsistent lib a d host port ip base m s h
      λ t p e low high u. serve-IsConsistent a t p m (is_usable-lookup a m p u).0 low high h
step-IsConsistent lib (closes allocation) m s h = record {
  sound = close_allocation-IsSound allocation m h.sound;
  counted =
      close_allocation_cases IsCounted allocation m h.counted
        (λ state _ _. detach_relay-IsCounted state m h.counted);
}
step-IsConsistent lib (closes_device d) m s h = record {
  sound = close_device-IsSound lib d m h.sound;
  counted =
      close_device_cases IsCounted lib d m h.counted (λ id _. detach_all-IsCounted _ m h.counted);
}
step-IsConsistent lib closes_all m s h = record {
  sound = close_all-IsSound m h.sound;
  counted = close_all-IsCounted m h.counted;
}
step-IsConsistent lib (expires ident) m s h =
    with_relay_cases IsConsistent ident expire_relay m h λ state e. record {
      sound =
          expire_relay-IsSound state m
            (ap (λ i. relay_at i m.made) (relay_at-known ident state m h.sound e).0 ∙ e) h.sound;
      counted =
          expire_relay_cases IsCounted state m h.counted
            (λ other _ _. detach_relay-IsCounted state m h.counted);
    }
step-IsConsistent lib (arrives task ident peer) m s h =
    with_relay_cases IsConsistent ident (λ state. begin_client task state peer) m h
      λ state e. record {
        sound = begin_client-IsSound task state peer m h.sound;
        counted =
            begin_client-IsCounted task state peer m (relay_at-known ident state m h.sound e).1
              h.counted;
      }
step-IsConsistent lib (leaves task) m s h = record {
  sound = finish_client-IsSound task m h.sound;
  counted = finish_client-IsCounted task m h.counted;
}
