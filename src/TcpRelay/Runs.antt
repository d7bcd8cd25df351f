-- ===== src/TcpRelay/Runs.antt =====
-- dashboard/app/services/tcp_relay.py: the manager from its constructor through any calls and events.
use opnsense_hub.Base.{
  ℕ, ◌≤◌, ◌≡◌, refl, true, false, not, List, [], ◌∷◌, ◌==◌, nat_eq, arith, All, ok, Text, >>=-eq-ok,
  raise_if, strip, text_eq,
}
use opnsense_hub.Base.Integers.{ℤ, pos, negsuc, magnitude, between, ltz, lez}
use opnsense_hub.TcpRelay.{TcpRelayManager, init, started}
use opnsense_hub.TcpRelay.Hosts.{Stdlib}
use opnsense_hub.TcpRelay.Calls.{Call, step, run}
use opnsense_hub.TcpRelay.Steps.{IsConsistent, IsCall, step-IsConsistent}

run-IsConsistent :
    (lib : Stdlib) (calls : List Call) (m : TcpRelayManager)
    → All IsCall calls
    → IsConsistent m
    → IsConsistent (run lib calls m)
unfolding run
run-IsConsistent lib [] m s h = h
run-IsConsistent lib (c ∷ calls) m s h =
    run-IsConsistent lib calls (step lib c m) s.1 (step-IsConsistent lib c m s.0 h)

-- A new manager has no relay and no client.
record IsNew (m : TcpRelayManager) : Type 0 where
  relays : m.relays ≡ []
  made : m.made ≡ []
  tasks : m.tasks ≡ []
  progress : (i : ℕ) → m.progress i ≡ started
  ports : (1 ≤ m.port_min) × (m.port_min ≤ m.port_max) × (m.port_max ≤ 65535)
  connections : 1 ≤ m.max_connections

magnitude-range :
    (a b : ℤ)
    → between 1 65535 a ≡ true
    → between 1 65535 b ≡ true
    → ltz b a ≡ false
    → (1 ≤ magnitude a) × (magnitude a ≤ magnitude b) × (magnitude b ≤ 65535)
magnitude-range (pos a) (pos b) h k l = ground arith
magnitude-range (negsuc a) b h k l = ground arith
magnitude-range (pos a) (negsuc b) h k l = ground arith

magnitude-positive : (c : ℤ) → ltz c (pos 1) ≡ false → 1 ≤ magnitude c
magnitude-positive (pos c) h = ground arith
magnitude-positive (negsuc c) h = ground arith

init-IsNew :
    (bind_host : Text) (port_min port_max ttl idle_timeout max_connections : ℤ)
    (m : TcpRelayManager)
    → init bind_host port_min port_max ttl idle_timeout max_connections ≡ ok m
    → IsNew m
unfolding init
init-IsNew bind_host a b ttl idle_timeout c m h =
    let (_, _, h1) = >>=-eq-ok (raise_if (strip bind_host == []) _) _ h in
    let (_, p1, h2) = >>=-eq-ok (raise_if (not (between 1 65535 a)) _) _ h1 in
    let (_, p2, h3) = >>=-eq-ok (raise_if (not (between 1 65535 b)) _) _ h2 in
    let (_, p3, h4) = >>=-eq-ok (raise_if (ltz b a) _) _ h3 in
    let (_, _, h5) = >>=-eq-ok (raise_if (lez ttl (pos 0)) _) _ h4 in
    let (_, _, h6) = >>=-eq-ok (raise_if (lez idle_timeout (pos 0)) _) _ h5 in
    let (_, p7, h7) = >>=-eq-ok (raise_if (ltz c (pos 1)) _) _ h6 in
    let q1 : between 1 65535 a ≡ true = ground (arith, p1) in
    let q2 : between 1 65535 b ≡ true = ground (arith, p2) in
    let q3 : ltz b a ≡ false = ground (arith, p3) in
    let q7 : ltz c (pos 1) ≡ false = ground (arith, p7) in
    let q : (record {
      bind_host = strip bind_host;
      port_min = magnitude a;
      port_max = magnitude b;
      ttl = magnitude ttl;
      idle_timeout = magnitude idle_timeout;
      max_connections = magnitude c;
      relays = [];
      made = [];
      progress = λ _. started;
      tasks = [];
    })
        ≡ m =
      ground (arith, h7) in
    rw (← q) (record {
      relays = refl;
      made = refl;
      tasks = refl;
      progress = λ i. refl;
      ports = magnitude-range a b q1 q2 q3;
      connections = magnitude-positive c q7;
    })

IsNew-IsConsistent : (m : TcpRelayManager) → IsNew m → IsConsistent m
IsNew-IsConsistent m n = record {
  sound = record { entries = rw n.relays tt; distinct = rw n.relays tt; numbered = rw n.made tt };
  counted = record {
    exact = λ i. rw (n.progress i, n.tasks) refl;
    bounded = λ i. rw n.tasks (omega arith);
    served = rw n.tasks tt;
  };
}

-- From the constructor through any calls and events, in any order, the ports in the table are distinct
-- and in range, each with its own relay that takes clients; the counter of a relay is the number of its
-- accepted tasks, at most `max_connections`; and each of these runs for the address the relay is for.
pub run-init-IsConsistent :
    (lib : Stdlib) (calls : List Call) (bind_host : Text)
    (port_min port_max ttl idle_timeout max_connections : ℤ) (m : TcpRelayManager)
    → init bind_host port_min port_max ttl idle_timeout max_connections ≡ ok m
    → All IsCall calls
    → IsConsistent (run lib calls m)
run-init-IsConsistent lib calls bind_host port_min port_max ttl idle_timeout max_connections m h s =
    run-IsConsistent lib calls m s (
      IsNew-IsConsistent m
        (init-IsNew bind_host port_min port_max ttl idle_timeout max_connections m h))
