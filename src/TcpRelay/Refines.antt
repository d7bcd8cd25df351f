-- ===== src/TcpRelay/Refines.antt =====
-- dashboard/app/services/tcp_relay.py: every operation of the manager against what it is to do to the list
-- of the open relays.
use opnsense_hub.Base.{
  ℕ, ◌≡◌, ◌≢◌, refl, sym, ap, ◌∙◌, ◌⊎◌, inl, inr, not, Option, none, List, [], ◌∷◌, ◌++◌, ◌==◌,
  nat_eq, arith, All, All-zip, Option-cases, ok, Text, >>=-eq-ok, raise_if, strip, text_eq,
}
use opnsense_hub.TcpRelay.{
  RelayState, TcpRelayManager, lookup, same_allocation, begin_client, finish_client, find_task,
}
use opnsense_hub.TcpRelay.Hosts.{Stdlib, DeviceId, parse_device_id, normalize_public_base_host}
use opnsense_hub.TcpRelay.Calls.{
  Call, creates, closes, closes_device, closes_all, expires, arrives, leaves, step,
}
use opnsense_hub.TcpRelay.Opening.{
  Attempt, Target, serve, check_target, read_address, new_state, new_allocation,
}
use opnsense_hub.TcpRelay.Ports.{serve_ok, serve_err, is_usable-lookup}
use opnsense_hub.Base.Integers.{ℤ, between}
use opnsense_hub.TcpRelay.Steps.{IsCall, IsConsistent, with_relay_cases, create_relay_cases}
use opnsense_hub.TcpRelay.Table.{lookup_none→All}
use opnsense_hub.TcpRelay.View.{Handle, view, open_relays, without, open_relays-snoc, All-view}
use opnsense_hub.TcpRelay.Sound.{IsSound}
use opnsense_hub.TcpRelay.Removed.{
  Dropped, close_allocation-Change, close_device-Change, close_all-Change, expires-Change,
}

-- What a call may do to the list of the open relays.
abbrev pub Change : Stdlib → Call → (before after : List Handle) → Type 0
Change lib (creates a d host port ip base) before after =
    (after ≡ before)
    ⊎ ((h : Handle) × (after ≡ before ++ (h ∷ []))
        × (parse_device_id lib d ≡ ok h.1.device_id)
        × All (λ g. (g.0 ≢ h.0) × (g.1.port ≢ h.1.port)) before)
Change lib (closes x) before after = after ≡ without (λ h. same_allocation h.1 x) before
Change lib (closes_device d) before after = Dropped (parse_device_id lib d) before after
Change lib closes_all before after = after ≡ []
Change lib (expires ident) before after = after ≡ without (λ h. h.0 == ident) before
Change lib (arrives task ident peer) before after = after ≡ before
Change lib (leaves task) before after = after ≡ before

check_target-device :
    (lib : Stdlib) (d : DeviceId) (host : Text) (port : ℤ) (ip base : Text) (t : Target)
    → check_target lib d host port ip base ≡ ok t
    → parse_device_id lib d ≡ ok t.device_id
unfolding check_target
check_target-device lib d host port ip base t h =
    let (id, p, h1) = >>=-eq-ok (parse_device_id lib d) _ h in
    let (_, _, h2) = >>=-eq-ok (raise_if (strip host == []) _) _ h1 in
    let (_, _, h3) = >>=-eq-ok (raise_if (not (between 1 65535 port)) _) _ h2 in
    let (_, _, h4) = >>=-eq-ok (read_address lib ip) _ h3 in
    let (_, _, h5) = >>=-eq-ok (normalize_public_base_host lib base) _ h4 in
    p ∙ ap ok (ground (arith, h5))

-- Serving a port that is not in the table adds its relay to the view, or changes nothing.
serve-Change :
    (a : Attempt) (t : Target) (p : ℕ) (m : TcpRelayManager)
    → lookup p m.relays ≡ none
    → IsSound m
    → (open_relays (serve a t p m).1 ≡ open_relays m)
      ⊎ ((h : Handle) × (open_relays (serve a t p m).1 ≡ open_relays m ++ (h ∷ []))
          × (h.1.device_id ≡ t.device_id)
          × All (λ g. (g.0 ≢ h.0) × (g.1.port ≢ h.1.port)) (open_relays m))
unfolding new_state new_allocation
serve-Change a t p m free h = elim (Option-cases (a.serving_raises p)) [
  | inr (problem, e) ↦ inl (rw (serve_err a t p problem m free e) refl)
  | inl e ↦ inr (
    view (p, new_state m a t p),
    rw (serve_ok a t p m free e) (open_relays-snoc m.relays (p, new_state m a t p)),
    refl,
    All-view _ m.relays (
        All-zip _ _ _ (λ f n o. (ground (arith, o.fresh), ground (arith, o.port))) m.relays
          (lookup_none→All p m.relays free) h.entries),
  )
]

begin_client-Change :
    (task : ℕ) (state : RelayState) (peer : Option ℕ) (m : TcpRelayManager)
    → open_relays (begin_client task state peer m) ≡ open_relays m
unfolding begin_client
begin_client-Change task state peer m = refl

finish_client-Change :
    (task : ℕ) (m : TcpRelayManager) → open_relays (finish_client task m) ≡ open_relays m
unfolding finish_client
finish_client-Change task m = elim (Option-cases (find_task task m.tasks)) [
  | inl e ↦ rw (e, finish_client) refl
  | inr (c, e) ↦ rw (e, finish_client) refl
]

-- In a consistent manager, every call and event does to the open relays what its specification says:
-- a relay is at most added by `create_relay`, with a new identity and port and for the device that was
-- asked for; closing removes exactly the relays that the allocation or the device names, or all; the end
-- of a wait removes exactly its own relay; clients change nothing.
pub step-Change :
    (lib : Stdlib) (c : Call) (m : TcpRelayManager)
    → IsCall c
    → IsConsistent m
    → Change lib c (open_relays m) (open_relays (step lib c m))
unfolding step
step-Change lib (creates a d host port ip base) m s h =
    create_relay_cases
      (λ n. Change lib (creates a d host port ip base) (open_relays m) (open_relays n)) lib a d host
      port ip base m s (inl refl)
      λ t p e _ _ u. elim (serve-Change a t p m (is_usable-lookup a m p u).0 h.sound) [
        | inl q ↦ inl q
        | inr (g, q, w, f) ↦
            inr (g, q, check_target-device lib d host port ip base t e ∙ ap ok (sym w), f)
      ]
step-Change lib (closes x) m s h = close_allocation-Change x m h.sound
step-Change lib (closes_device d) m s h = close_device-Change lib d m h.sound
step-Change lib closes_all m s h = close_all-Change m h.sound
step-Change lib (expires ident) m s h = expires-Change ident m h.sound
step-Change lib (arrives task ident peer) m s h =
    with_relay_cases (λ n. open_relays n ≡ open_relays m) ident
      (λ state. begin_client task state peer) m refl
      (λ state e. begin_client-Change task state peer m)
step-Change lib (leaves task) m s h = finish_client-Change task m
