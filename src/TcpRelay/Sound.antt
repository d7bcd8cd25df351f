-- ===== src/TcpRelay/Sound.antt =====
-- dashboard/app/services/tcp_relay.py: what holds of the table of relays between two calls, and the
-- operations that keep it.
use opnsense_hub.Base.{
  ℕ, ◌≤◌, ◌<◌, ◌≡◌, ◌≢◌, ◌∙◌, find-holds, find-All, inl, inr, false, Option, some, List, [], ◌∷◌,
  length, ◌==◌, nat_eq, arith, All, All-zip, All-map, Option-cases,
}
use opnsense_hub.TcpRelay.{
  Connection, find_task, begin_client, finish_client, RelayState, Progress, TcpRelayManager,
  relay_at, lookup, pop, detach_relay, detach_all,
}
use opnsense_hub.TcpRelay.Table.{
  Entry, IsDistinct, IsDistinct-pop, lookup-holds, pop-other, All-pop, Owns, Owns-each,
}

-- An entry stands at its relay's port, within the range, and its relay is one that was made and takes
-- clients.
pub record IsOpen (m : TcpRelayManager) (e : Entry) : Type 0 where
  pub port : e.0 ≡ e.1.allocation.port
  pub low : m.port_min ≤ e.0
  pub high : e.0 ≤ m.port_max
  pub fresh : e.1.ident < length m.made
  pub known : relay_at e.1.ident m.made ≡ some e.1
  pub taking : (m.progress e.1.ident).closing ≡ false

pub record IsSound (m : TcpRelayManager) : Type 0 where
  pub entries : All (IsOpen m) m.relays
  pub distinct : IsDistinct m.relays
  pub numbered : All (λ state. state.ident < length m.made) m.made

IsOpen-detach :
    (state : RelayState) (m : TcpRelayManager) (e : Entry)
    → (e.0 == state.allocation.port) ≡ (e.1.ident == state.ident)
    → IsOpen m e
    → e.0 ≢ state.allocation.port
    → IsOpen (detach_relay state m) e
unfolding detach_relay
IsOpen-detach state m e h o k = ground arith

pub detach_relay-IsSound :
    (state : RelayState) (m : TcpRelayManager)
    → Owns m.relays state
    → IsSound m
    → IsSound (detach_relay state m)
unfolding detach_relay
detach_relay-IsSound state m o h = record {
  entries =
      All-zip (λ e. e.0 ≢ state.allocation.port → IsOpen (detach_relay state m) e)
        (λ e. e.0 ≢ state.allocation.port) (IsOpen (detach_relay state m)) (λ e f. f)
        (pop state.allocation.port m.relays)
        (All-zip _ _ _ (IsOpen-detach state m) (pop state.allocation.port m.relays)
          (All-pop _ state.allocation.port m.relays o)
          (All-pop _ state.allocation.port m.relays h.entries))
        (pop-other state.allocation.port m.relays);
  distinct = IsDistinct-pop state.allocation.port m.relays h.distinct;
  numbered = h.numbered;
}

pub detach_all-IsSound :
    (states : List RelayState) (m : TcpRelayManager)
    → All (Owns m.relays) states
    → IsSound m
    → IsSound (detach_all states m)
unfolding detach_all
detach_all-IsSound [] m o h = h
detach_all-IsSound (state ∷ states) m o h =
    detach_all-IsSound states (detach_relay state m)
      (unfold detach_relay in
        All-map (Owns m.relays) (Owns (pop state.allocation.port m.relays)) states
          (λ s. All-pop _ state.allocation.port m.relays) o.1)
      (detach_relay-IsSound state m o.0 h)

pub owned : (m : TcpRelayManager) → IsSound m → All (λ e. Owns m.relays e.1) m.relays
owned m h = Owns-each m.relays (All-map _ _ m.relays (λ e o. o.port) h.entries) h.distinct

pub owned_at :
    (m : TcpRelayManager) (port : ℕ) (state : RelayState)
    → IsSound m
    → lookup port m.relays ≡ some state
    → Owns m.relays state
owned_at m port state h e = lookup-holds (λ f. Owns m.relays f.1) port state m.relays e (owned m h)

pub IsOpen-at :
    (m : TcpRelayManager) (port : ℕ) (state : RelayState)
    → IsSound m
    → lookup port m.relays ≡ some state
    → IsOpen m (port, state)
IsOpen-at m port state h e = lookup-holds (IsOpen m) port state m.relays e h.entries

-- The clients come and go without an effect on the table.
pub same_closing-IsSound :
    (progress : ℕ → Progress) (tasks : List Connection) (m : TcpRelayManager)
    → ((i : ℕ) → (progress i).closing ≡ (m.progress i).closing)
    → IsSound m
    → IsSound (record m { tasks = tasks; progress = progress })
same_closing-IsSound progress tasks m q h = record {
  entries =
      All-map (IsOpen m) _ m.relays
        (λ e o. record {
          port = o.port;
          low = o.low;
          high = o.high;
          fresh = o.fresh;
          known = o.known;
          taking = q e.1.ident ∙ o.taking;
        })
        h.entries;
  distinct = h.distinct;
  numbered = h.numbered;
}

pub begin_client-IsSound :
    (task : ℕ) (state : RelayState) (peer : Option ℕ) (m : TcpRelayManager)
    → IsSound m
    → IsSound (begin_client task state peer m)
unfolding begin_client
begin_client-IsSound task state peer m h = same_closing-IsSound _ _ m (λ i. ground arith) h

pub finish_client-IsSound :
    (task : ℕ) (m : TcpRelayManager) → IsSound m → IsSound (finish_client task m)
unfolding finish_client
finish_client-IsSound task m h = elim (Option-cases (find_task task m.tasks)) [
  | inl e ↦ rw (e, finish_client) h
  | inr (c, e) ↦ rw (e, finish_client) (same_closing-IsSound _ _ m (λ i. ground arith) h)
]

pub relay_at-known :
    (ident : ℕ) (state : RelayState) (m : TcpRelayManager)
    → IsSound m
    → relay_at ident m.made ≡ some state
    → (state.ident ≡ ident) × (state.ident < length m.made)
unfolding relay_at
relay_at-known ident state m h e = (
  ground (arith, find-holds (λ s. s.ident == ident) m.made state e),
  find-All _ _ m.made state e h.numbered,
)
