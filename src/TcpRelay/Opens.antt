-- ===== src/TcpRelay/Opens.antt =====
-- dashboard/app/services/tcp_relay.py: what `create_relay` answers.
use opnsense_hub.Base.{
  ℕ, ◌≤◌, ◌≡◌, refl, ◌∙◌, inl, inr, true, false, none, List, [], ◌∷◌, nat_eq, arith, All, All-map,
  Bool-cases, ok, err, runtime_error, contains, Text,
}
use opnsense_hub.Base.Integers.{ℤ}
use opnsense_hub.TcpRelay.{TcpRelayManager, lookup}
use opnsense_hub.TcpRelay.Hosts.{Stdlib, DeviceId}
use opnsense_hub.TcpRelay.Opening.{
  Attempt, Target, range, serve, check_target, create_relay, try_ports, is_usable, new_state,
  new_allocation,
}
use opnsense_hub.TcpRelay.Ports.{
  IsShuffle, opened, contains-range, shuffled_range, is_usable-lookup, serve_ok,
}

-- With a usable port among the tried ones, one of them is served.
try_ports_found :
    (a : Attempt) (t : Target) (Q : ℕ → Type 0) (ports : List ℕ) (p : ℕ) (m : TcpRelayManager)
    → All Q ports
    → contains ports p ≡ true
    → is_usable a m p ≡ true
    → (q : ℕ) × Q q × (is_usable a m q ≡ true) × (try_ports a t ports m ≡ serve a t q m)
unfolding try_ports contains
try_ports_found a t Q [] p m h c u = absurd (cc)
try_ports_found a t Q (port ∷ ports) p m h c u = elim (Bool-cases (is_usable a m port)) [
  | inl e ↦ (port, h.0, e, rw e refl)
  | inr e ↦ rw e (try_ports_found a t Q ports p m h.1 (ground (arith, c, e, u)) u)
]

-- With checked arguments, `create_relay` returns as soon as one port of the range is neither in the
-- table nor refused by the system, and serving raises nothing: the answer is an allocation for the
-- checked target at such a port, its relay is at the end of the table, and no entry is lost.
pub create_relay-opens :
    (lib : Stdlib) (a : Attempt) (d : DeviceId) (host : Text) (port : ℤ) (ip base : Text)
    (t : Target) (p : ℕ) (m : TcpRelayManager)
    → IsShuffle a.shuffle
    → check_target lib d host port ip base ≡ ok t
    → m.port_min ≤ p
    → p ≤ m.port_max
    → lookup p m.relays ≡ none
    → a.binds p ≡ true
    → ((q : ℕ) → a.serving_raises q ≡ none)
    → (q : ℕ) × (m.port_min ≤ q)
      × (q ≤ m.port_max)
      × (lookup q m.relays ≡ none)
      × (a.binds q ≡ true)
      × (create_relay lib a d host port ip base m
          ≡ (ok (new_allocation m a t q), opened m (new_state m a t q)))
unfolding create_relay is_usable
create_relay-opens lib a d host port ip base t p m s e low high free binds serving =
    let member : contains (a.shuffle (range m.port_min m.port_max)) p ≡ true =
      s (range m.port_min m.port_max) p
      ∙ contains-range m.port_min m.port_max p
      ∙ ground (arith, low, high) in
    let (q, (l, g), u, r) =
      try_ports_found a t _ (a.shuffle (range m.port_min m.port_max)) p m
        (shuffled_range a.shuffle m.port_min m.port_max s) member (ground (arith, free, binds)) in
    let (f, b) = is_usable-lookup a m q u in
    (q, l, g, f, b, rw (e, create_relay) (r ∙ serve_ok a t q m f (serving q)))

try_ports_none :
    (a : Attempt) (t : Target) (ports : List ℕ) (m : TcpRelayManager)
    → All (λ p. is_usable a m p ≡ false) ports
    → try_ports a t ports m ≡ (err (runtime_error "no available TCP relay port"), m)
unfolding try_ports
try_ports_none a t [] m h = refl
try_ports_none a t (p ∷ ports) m h = rw h.0 (try_ports_none a t ports m h.1)

-- With checked arguments, but where every port of the range is in the table or refused by the system,
-- `create_relay` raises a `RuntimeError` and leaves the manager as it was.
pub create_relay-refuses :
    (lib : Stdlib) (a : Attempt) (d : DeviceId) (host : Text) (port : ℤ) (ip base : Text)
    (t : Target) (m : TcpRelayManager)
    → IsShuffle a.shuffle
    → check_target lib d host port ip base ≡ ok t
    → ((p : ℕ) → m.port_min ≤ p → p ≤ m.port_max → is_usable a m p ≡ false)
    → create_relay lib a d host port ip base m
      ≡ (err (runtime_error "no available TCP relay port"), m)
unfolding create_relay
create_relay-refuses lib a d host port ip base t m s e none_left =
    rw (e, create_relay)
      (try_ports_none a t (a.shuffle (range m.port_min m.port_max)) m (
        All-map _ _ (a.shuffle (range m.port_min m.port_max)) (λ p b. none_left p b.0 b.1)
          (shuffled_range a.shuffle m.port_min m.port_max s)))
