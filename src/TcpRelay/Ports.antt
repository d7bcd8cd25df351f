-- ===== src/TcpRelay/Ports.antt =====
-- dashboard/app/services/tcp_relay.py: which ports `create_relay` tries, and which one it opens.
use opnsense_hub.Base.{
  ℕ, zero, suc, ◌+◌, ◌-◌, ◌≤◌, ◌≡◌, refl, inl, inr, true, ◌&&◌, none, some, List, [], ◌∷◌, ◌++◌,
  length, nat_eq, arith, All, All-map, leb, ltb, contains, Bool-cases, Option-cases, find,
  Exception, All-snoc, All-zip, Result, ok, err, runtime_error,
}
use opnsense_hub.TcpRelay.{
  TcpRelayAllocation, RelayState, TcpRelayManager, started, lookup, update, relay_at,
}
use opnsense_hub.TcpRelay.Opening.{
  Attempt, Target, count_from, range, new_allocation, new_state, serve, is_usable, try_ports,
}
use opnsense_hub.TcpRelay.Table.{Entry, IsDistinct-snoc, assign-absent, lookup_none→All, pop-snoc}
use opnsense_hub.TcpRelay.Sound.{IsOpen, IsSound}

-- A shuffled list has the members of the list.
abbrev pub IsShuffle : (List ℕ → List ℕ) → Type 0
IsShuffle f = (xs : List ℕ) (x : ℕ) → contains (f xs) x ≡ contains xs x

contains-count_from : (low n x : ℕ) → contains (count_from low n) x ≡ (leb low x && ltb x (low + n))
unfolding count_from contains
contains-count_from low zero x = ground arith
contains-count_from low (suc n) x = ground (arith, contains-count_from (suc low) n x)

pub contains-range : (low high x : ℕ) → contains (range low high) x ≡ (leb low x && leb x high)
unfolding range
contains-range low high x = ground (arith, contains-count_from low (suc high - low) x)

All-of_contains : (P : ℕ → Type 0) (xs : List ℕ) → ((x : ℕ) → contains xs x ≡ true → P x) → All P xs
unfolding contains
All-of_contains P [] h = tt
All-of_contains P (x ∷ xs) h =
    (h x (ground arith), All-of_contains P xs (λ y e. h y (ground arith)))

pub shuffled_range :
    (f : List ℕ → List ℕ) (low high : ℕ)
    → IsShuffle f
    → All (λ x. (low ≤ x) × (x ≤ high)) (f (range low high))
shuffled_range f low high s =
    All-of_contains _ _ λ x e. ground (arith, s (range low high) x, contains-range low high x)

pub is_usable-lookup :
    (a : Attempt) (m : TcpRelayManager) (port : ℕ)
    → is_usable a m port ≡ true
    → (lookup port m.relays ≡ none) × (a.binds port ≡ true)
unfolding is_usable
is_usable-lookup a m port h = ground arith

-- The loop serves the first usable port, and without one it raises and changes nothing.
pub try_ports_cases {ℓ} :
    (P : Result TcpRelayAllocation × TcpRelayManager → Type ℓ) (Q : ℕ → Type 0) (a : Attempt)
    (t : Target) (ports : List ℕ) (m : TcpRelayManager)
    → All Q ports
    → P (err (runtime_error "no available TCP relay port"), m)
    → ((port : ℕ) → Q port → is_usable a m port ≡ true → P (serve a t port m))
    → P (try_ports a t ports m)
unfolding try_ports
try_ports_cases P Q a t [] m q none_left served = none_left
try_ports_cases P Q a t (port ∷ ports) m q none_left served =
    elim (Bool-cases (is_usable a m port)) [
      | inl e ↦ rw e (served port q.0 e)
      | inr e ↦ rw e (try_ports_cases P Q a t ports m q.1 none_left served)
    ]

-- The manager once a new relay has been made and serves.
abbrev pub opened : TcpRelayManager → RelayState → TcpRelayManager
opened m state = record m {
  relays = m.relays ++ ((state.allocation.port, state) ∷ []);
  made = state ∷ m.made;
  progress = update m.progress state.ident started;
}

-- The manager once serving a new relay has failed.
abbrev pub withdrawn : TcpRelayManager → ℕ → TcpRelayManager
withdrawn m ident = record m { progress = update m.progress ident started }

pub serve_ok :
    (a : Attempt) (t : Target) (port : ℕ) (m : TcpRelayManager)
    → lookup port m.relays ≡ none
    → a.serving_raises port ≡ none
    → serve a t port m ≡ (ok (new_allocation m a t port), opened m (new_state m a t port))
unfolding serve new_state new_allocation
serve_ok a t port m free e =
    rw (e, serve, assign-absent port (new_state m a t port) m.relays free) refl

pub serve_err :
    (a : Attempt) (t : Target) (port : ℕ) (problem : Exception) (m : TcpRelayManager)
    → lookup port m.relays ≡ none
    → a.serving_raises port ≡ some problem
    → serve a t port m ≡ (err problem, withdrawn m (length m.made))
unfolding serve new_state
serve_err a t port problem m free e =
    rw
      (
        e,
        serve,
        assign-absent port (new_state m a t port) m.relays free,
        pop-snoc port (new_state m a t port) m.relays (lookup_none→All port m.relays free),
      )
      refl

-- An older entry when a new relay has been made.
IsOpen-opened :
    (m : TcpRelayManager) (state : RelayState) (e : Entry)
    → state.ident ≡ length m.made
    → IsOpen m e
    → IsOpen (opened m state) e
unfolding relay_at find
IsOpen-opened m state e q o = ground arith

IsOpen-new :
    (m : TcpRelayManager) (state : RelayState)
    → state.ident ≡ length m.made
    → m.port_min ≤ state.allocation.port
    → state.allocation.port ≤ m.port_max
    → IsOpen (opened m state) (state.allocation.port, state)
unfolding relay_at find
IsOpen-new m state q low high = ground arith

opened-IsSound :
    (a : Attempt) (t : Target) (port : ℕ) (m : TcpRelayManager)
    → lookup port m.relays ≡ none
    → m.port_min ≤ port
    → port ≤ m.port_max
    → IsSound m
    → IsSound (opened m (new_state m a t port))
unfolding new_state new_allocation
opened-IsSound a t port m free low high h = record {
  entries =
      All-snoc _ m.relays (port, new_state m a t port)
        (All-map _ _ m.relays (λ e. IsOpen-opened m (new_state m a t port) e refl) h.entries)
        (IsOpen-new m (new_state m a t port) refl low high);
  distinct =
      IsDistinct-snoc (port, new_state m a t port) m.relays
        (All-zip _ (IsOpen m) _ (λ e p o. (p, ground (arith, o.fresh))) m.relays
          (lookup_none→All port m.relays free) h.entries)
        h.distinct;
  numbered = (omega arith, All-map _ _ m.made (λ s l. omega (arith, l)) h.numbered);
}

IsOpen-withdrawn :
    (m : TcpRelayManager) (e : Entry) → IsOpen m e → IsOpen (withdrawn m (length m.made)) e
IsOpen-withdrawn m e o = ground arith

withdrawn-IsSound : (m : TcpRelayManager) → IsSound m → IsSound (withdrawn m (length m.made))
withdrawn-IsSound m h = record {
  entries = All-map _ _ m.relays (IsOpen-withdrawn m) h.entries;
  distinct = h.distinct;
  numbered = h.numbered;
}

pub serve-IsSound :
    (a : Attempt) (t : Target) (port : ℕ) (m : TcpRelayManager)
    → lookup port m.relays ≡ none
    → m.port_min ≤ port
    → port ≤ m.port_max
    → IsSound m
    → IsSound (serve a t port m).1
serve-IsSound a t port m free low high h = elim (Option-cases (a.serving_raises port)) [
  | inl e ↦ rw (serve_ok a t port m free e) (opened-IsSound a t port m free low high h)
  | inr (problem, e) ↦ rw (serve_err a t port problem m free e) (withdrawn-IsSound m h)
]
