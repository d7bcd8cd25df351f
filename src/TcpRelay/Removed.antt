-- ===== src/TcpRelay/Removed.antt =====
-- dashboard/app/services/tcp_relay.py: what closing and the end of a wait remove from the list of the open
-- relays.
use opnsense_hub.Base.{
  ℕ, ◌≡◌, ◌≢◌, refl, sym, ap, ◌∙◌, inl, inr, Bool, true, false, none, some, List, [], ◌∷◌, map,
  select, ◌==◌, nat_eq, if◌then◌else◌, arith, All, All-map, All-zip, All-select, Bool-cases,
  Option-cases, Result-cases, Result, ok, err, text_eq,
}
use opnsense_hub.TcpRelay.{
  TcpRelayAllocation, RelayState, TcpRelayManager, relay_at, lookup, same_allocation, close_all,
  close_allocation, close_device, expire_relay,
}
use opnsense_hub.TcpRelay.Hosts.{Stdlib, DeviceId, parse_device_id}
use opnsense_hub.TcpRelay.Calls.{with_relay}
use opnsense_hub.TcpRelay.Table.{Entry, Owns, All-of_map, lookup_none→All}
use opnsense_hub.TcpRelay.View.{
  Handle, open_relays, without, among, without-eq, without_none, without_every,
  open_relays-detach_relay, open_relays-detach_all, among-select,
}
use opnsense_hub.TcpRelay.Sound.{IsOpen, IsSound, relay_at-known, owned, owned_at, IsOpen-at}

-- What closing a device removes, where its identifier reads.
abbrev pub Dropped : Result ℕ → (before after : List Handle) → Type 0
Dropped (ok id) before after = after ≡ without (λ h. h.1.device_id == id) before
Dropped (err problem) before after = after ≡ before

other_port : (a b : TcpRelayAllocation) → a.port ≢ b.port → same_allocation a b ≡ false
unfolding same_allocation
other_port a b h = ground arith

-- An allocation is that of an entry exactly if it is that of the relay at its port, and the entry is
-- this relay's.
same_entry :
    (m : TcpRelayManager) (x : TcpRelayAllocation) (state : RelayState) (f : Entry)
    → IsOpen m (x.port, state)
    → IsOpen m f
    → (f.0 == state.allocation.port) ≡ (f.1.ident == state.ident)
    → same_allocation f.1.allocation x
      ≡ (if f.1.ident == state.ident then same_allocation state.allocation x else false)
same_entry m x state f s o w = elim (Bool-cases (f.1.ident == state.ident)) [
  | inl e ↦
      let q : f.1 ≡ state = ground (arith, o.known, s.known) in
      rw e (ap (λ (g : RelayState). same_allocation g.allocation x) q)
  | inr e ↦ rw e (other_port f.1.allocation x (ground (arith, o.port, s.port)))
]

pub close_allocation-Change :
    (x : TcpRelayAllocation) (m : TcpRelayManager)
    → IsSound m
    → open_relays (close_allocation x m).1 ≡ without (λ h. same_allocation h.1 x) (open_relays m)
unfolding close_allocation
close_allocation-Change x m h = elim (Option-cases (lookup x.port m.relays)) [
  | inl e ↦
      rw (e, close_allocation)
        (sym (
          without_none _ m.relays (
            All-zip _ _ _ (λ f n o. other_port f.1.allocation x (ground (arith, o.port))) m.relays
              (lookup_none→All x.port m.relays e) h.entries)))
  | inr (state, e) ↦
      let same : All
          (λ f.
            same_allocation f.1.allocation x
            ≡ (if f.1.ident == state.ident then same_allocation state.allocation x else false))
          m.relays =
        All-zip _ _ _ (λ f. same_entry m x state f (IsOpen-at m x.port state h e)) m.relays
          h.entries (owned_at m x.port state h e) in
      elim (Bool-cases (same_allocation state.allocation x)) [
        | inr k ↦
            rw (e, close_allocation, k)
              (sym (without_none _ m.relays (All-map _ _ m.relays (λ f q. ground (arith, q)) same)))
        | inl k ↦
            rw (e, close_allocation, k)
              (open_relays-detach_relay state m (owned_at m x.port state h e)
                ∙ without-eq _ _ m.relays (All-map _ _ m.relays (λ f q. ground (arith, q)) same))
      ]
]

pub close_device-Change :
    (lib : Stdlib) (d : DeviceId) (m : TcpRelayManager)
    → IsSound m
    → Dropped (parse_device_id lib d) (open_relays m) (open_relays (close_device lib d m).1)
unfolding close_device
close_device-Change lib d m h = elim (Result-cases (parse_device_id lib d)) [
  | inr (problem, e) ↦ rw (e, close_device) refl
  | inl (id, e) ↦
      let p : RelayState → Bool = λ state. state.allocation.device_id == id in
      rw (e, close_device)
        (open_relays-detach_all (select p (map (λ e. e.1) m.relays)) m
            (All-select (Owns m.relays) p _ (All-of_map (Owns m.relays) m.relays (owned m h)))
          ∙ without-eq (among (select p (map (λ e. e.1) m.relays))) (λ h. h.1.device_id == id)
              m.relays (among-select p m.relays h.distinct))
]

select_every : (states : List RelayState) → select (λ _. true) states ≡ states
unfolding select
select_every [] = refl
select_every (state ∷ states) = rw (select_every states) refl

pub close_all-Change : (m : TcpRelayManager) → IsSound m → open_relays (close_all m).1 ≡ []
unfolding close_all
close_all-Change m h =
    open_relays-detach_all (map (λ e. e.1) m.relays) m
      (All-of_map (Owns m.relays) m.relays (owned m h))
    ∙ without_every _ m.relays (
        rw (← select_every (map (λ e. e.1) m.relays))
          (among-select (λ _. true) m.relays h.distinct))

-- An entry with the identity of a relay is that relay's.
known_relay :
    (m : TcpRelayManager) (ident : ℕ) (state : RelayState) (f : Entry)
    → relay_at ident m.made ≡ some state
    → IsOpen m f
    → (f.1.ident == ident) ≡ true
    → f.1 ≡ state
known_relay m ident state f r o e = ground (arith, o.known, r)

not_known :
    (m : TcpRelayManager) (ident : ℕ) (f : Entry)
    → relay_at ident m.made ≡ none
    → IsOpen m f
    → (f.1.ident == ident) ≡ false
not_known m ident f r o = ground (arith, o.known, r)

absent_relay :
    (m : TcpRelayManager) (state : RelayState) (f : Entry)
    → relay_at state.ident m.made ≡ some state
    → f.0 ≢ state.allocation.port
    → IsOpen m f
    → (f.1.ident == state.ident) ≡ false
absent_relay m state f r n o = elim (Bool-cases (f.1.ident == state.ident)) [
  | inr e ↦ e
  | inl e ↦ absurd (
      n (
        o.port
        ∙ ap (λ (g : RelayState). g.allocation.port) (known_relay m state.ident state f r o e)))
]

other_relay :
    (m : TcpRelayManager) (state other : RelayState) (f : Entry)
    → relay_at state.ident m.made ≡ some state
    → IsOpen m (state.allocation.port, other)
    → (other.ident == state.ident) ≡ false
    → IsOpen m f
    → (f.0 == other.allocation.port) ≡ (f.1.ident == other.ident)
    → (f.1.ident == state.ident) ≡ false
other_relay m state other f r p k o w = elim (Bool-cases (f.1.ident == state.ident)) [
  | inr e ↦ e
  | inl e ↦
      let q : f.0 ≡ other.allocation.port =
        o.port
        ∙ ap (λ (g : RelayState). g.allocation.port) (known_relay m state.ident state f r o e)
        ∙ p.port in
      ground (arith, q, w, e, k)
]

expire_relay-Change :
    (state : RelayState) (m : TcpRelayManager)
    → IsSound m
    → relay_at state.ident m.made ≡ some state
    → open_relays (expire_relay state m) ≡ without (λ h. h.0 == state.ident) (open_relays m)
unfolding expire_relay
expire_relay-Change state m h r = elim (Option-cases (lookup state.allocation.port m.relays)) [
  | inl e ↦
      rw (e, expire_relay)
        (sym (
          without_none _ m.relays (
            All-zip _ _ _ (λ f n o. absent_relay m state f r n o) m.relays
              (lookup_none→All state.allocation.port m.relays e) h.entries)))
  | inr (other, e) ↦ elim (Bool-cases (other.ident == state.ident)) [
    | inl k ↦
        rw (e, expire_relay, k)
          (open_relays-detach_relay state m (
            rw
              (← known_relay m state.ident state (state.allocation.port, other) r
                (IsOpen-at m state.allocation.port other h e) k)
              (owned_at m state.allocation.port other h e)))
    | inr k ↦
        rw (e, expire_relay, k)
          (sym (
            without_none _ m.relays (
              All-zip _ _ _
                (λ f o w.
                  other_relay m state other f r (IsOpen-at m state.allocation.port other h e) k o w)
                m.relays h.entries (owned_at m state.allocation.port other h e))))
  ]
]

pub expires-Change :
    (ident : ℕ) (m : TcpRelayManager)
    → IsSound m
    → open_relays (with_relay ident expire_relay m) ≡ without (λ h. h.0 == ident) (open_relays m)
expires-Change ident m h = elim (Option-cases (relay_at ident m.made)) [
  | inl e ↦
      rw (e, with_relay)
        (sym (
          without_none _ m.relays
            (All-map _ _ m.relays (λ f o. not_known m ident f e o) h.entries)))
  | inr (state, e) ↦
      let q : state.ident ≡ ident = (relay_at-known ident state m h e).0 in
      rw (e, with_relay)
        (expire_relay-Change state m h (ap (λ i. relay_at i m.made) q ∙ e)
          ∙ ap (λ i. without (λ h. h.0 == i) (open_relays m)) q)
]
