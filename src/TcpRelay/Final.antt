-- ===== src/TcpRelay/Final.antt =====
-- dashboard/app/services/tcp_relay.py: what stays true of a relay once it is closed.
use opnsense_hub.Base.{
  ℕ, ◌<◌, ◌≡◌, inl, inr, true, false, Option, none, some, List, [], ◌∷◌, length, nat_eq, arith, All,
  Bool-cases, Option-cases, map,
}
use opnsense_hub.TcpRelay.{
  RelayState, TcpRelayManager, TcpRelayAllocation, accepts, expire_relay, begin_client,
  finish_client, find_task, detach_relay, detach_all, close_all, close_allocation, lookup,
  same_allocation,
}
use opnsense_hub.TcpRelay.Hosts.{Stdlib}
use opnsense_hub.TcpRelay.Opening.{Target, Attempt, serve, new_state}
use opnsense_hub.TcpRelay.Calls.{
  Call, creates, closes, closes_device, closes_all, expires, arrives, leaves, step, run,
}
use opnsense_hub.TcpRelay.Closing.{close_allocation_cases, close_device_cases, expire_relay_cases}
use opnsense_hub.TcpRelay.Ports.{is_usable-lookup, serve_ok, serve_err}
use opnsense_hub.TcpRelay.Sound.{IsOpen, IsOpen-at}
use opnsense_hub.TcpRelay.Steps.{IsCall, IsConsistent, create_relay_cases, with_relay_cases}

-- The relay `ident` has been made, and is closing.
pub record IsClosed (ident : ℕ) (m : TcpRelayManager) : Type 0 where
  pub made : ident < length m.made
  pub closing : (m.progress ident).closing ≡ true

module _ (i : ℕ) where
  detach_relay-IsClosed :
      (state : RelayState) (m : TcpRelayManager) → IsClosed i m → IsClosed i (detach_relay state m)
  unfolding detach_relay
  detach_relay-IsClosed state m h = record { made = h.made; closing = ground (arith, h.closing) }

  detach_all-IsClosed :
      (states : List RelayState) (m : TcpRelayManager)
      → IsClosed i m
      → IsClosed i (detach_all states m)
  unfolding detach_all
  detach_all-IsClosed [] m h = h
  detach_all-IsClosed (state ∷ states) m h =
      detach_all-IsClosed states (detach_relay state m) (detach_relay-IsClosed state m h)

  serve-IsClosed :
      (a : Attempt) (t : Target) (p : ℕ) (m : TcpRelayManager)
      → lookup p m.relays ≡ none
      → IsClosed i m
      → IsClosed i (serve a t p m).1
  unfolding new_state
  serve-IsClosed a t p m free h = elim (Option-cases (a.serving_raises p)) [
    | inl e ↦
        rw (serve_ok a t p m free e)
          (record { made = omega (arith, h.made); closing = ground (arith, h.made, h.closing) })
    | inr (problem, e) ↦
        rw (serve_err a t p problem m free e)
          (record { made = h.made; closing = ground (arith, h.made, h.closing) })
  ]

  begin_client-IsClosed :
      (task : ℕ) (state : RelayState) (peer : Option ℕ) (m : TcpRelayManager)
      → IsClosed i m
      → IsClosed i (begin_client task state peer m)
  unfolding begin_client
  begin_client-IsClosed task state peer m h = record {
    made = h.made;
    closing = ground (arith, h.closing);
  }

  finish_client-IsClosed :
      (task : ℕ) (m : TcpRelayManager) → IsClosed i m → IsClosed i (finish_client task m)
  unfolding finish_client
  finish_client-IsClosed task m h = elim (Option-cases (find_task task m.tasks)) [
    | inl e ↦ rw (e, finish_client) h
    | inr (c, e) ↦
        rw (e, finish_client) (record { made = h.made; closing = ground (arith, h.closing) })
  ]

  close_all-IsClosed : (m : TcpRelayManager) → IsClosed i m → IsClosed i (close_all m).1
  unfolding close_all
  close_all-IsClosed m h = detach_all-IsClosed (map (λ e. e.1) m.relays) m h

  step-IsClosed :
      (lib : Stdlib) (c : Call) (m : TcpRelayManager)
      → IsCall c
      → IsClosed i m
      → IsClosed i (step lib c m)
  unfolding step
  step-IsClosed lib (creates a d host port ip base) m s h =
      create_relay_cases (IsClosed i) lib a d host port ip base m s h
        λ t p e _ _ u. serve-IsClosed a t p m (is_usable-lookup a m p u).0 h
  step-IsClosed lib (closes x) m s h =
      close_allocation_cases (IsClosed i) x m h λ state _ _. detach_relay-IsClosed state m h
  step-IsClosed lib (closes_device d) m s h =
      close_device_cases (IsClosed i) lib d m h λ id _. detach_all-IsClosed _ m h
  step-IsClosed lib closes_all m s h = close_all-IsClosed m h
  step-IsClosed lib (expires ident) m s h =
      with_relay_cases (IsClosed i) ident expire_relay m h λ state _.
        expire_relay_cases (IsClosed i) state m h λ _ _ _. detach_relay-IsClosed state m h
  step-IsClosed lib (arrives task ident peer) m s h =
      with_relay_cases (IsClosed i) ident (λ state. begin_client task state peer) m h
        λ state _. begin_client-IsClosed task state peer m h
  step-IsClosed lib (leaves task) m s h = finish_client-IsClosed task m h

  run-IsClosed :
      (lib : Stdlib) (calls : List Call) (m : TcpRelayManager)
      → All IsCall calls
      → IsClosed i m
      → IsClosed i (run lib calls m)
  unfolding run
  run-IsClosed lib [] m s h = h
  run-IsClosed lib (c ∷ calls) m s h =
      run-IsClosed lib calls (step lib c m) s.1 (step-IsClosed lib c m s.0 h)

close_allocation-IsClosed :
    (x : TcpRelayAllocation) (state : RelayState) (m : TcpRelayManager)
    → IsOpen m (x.port, state)
    → lookup x.port m.relays ≡ some state
    → (close_allocation x m).0 ≡ true
    → IsClosed state.ident (close_allocation x m).1
unfolding close_allocation detach_relay
close_allocation-IsClosed x state m o e c = elim (Bool-cases (same_allocation state.allocation x)) [
  | inl k ↦ rw (e, close_allocation, k) (record { made = o.fresh; closing = ground arith })
  | inr k ↦ absurd (ground (arith, e, k, c))
]

IsClosed-accepts :
    (state : RelayState) (peer : Option ℕ) (m : TcpRelayManager)
    → IsClosed state.ident m
    → accepts state peer m ≡ false
unfolding accepts
IsClosed-accepts state peer m h = ground (arith, h.closing)

-- Once the relay at the port of an allocation has been closed by it, the relay accepts no client at any
-- later time, whatever is called and whoever connects.
pub close_allocation-final :
    (lib : Stdlib) (x : TcpRelayAllocation) (state : RelayState) (peer : Option ℕ)
    (calls : List Call) (m : TcpRelayManager)
    → IsConsistent m
    → lookup x.port m.relays ≡ some state
    → (close_allocation x m).0 ≡ true
    → All IsCall calls
    → accepts state peer (run lib calls (close_allocation x m).1) ≡ false
close_allocation-final lib x state peer calls m h e c s = IsClosed-accepts state peer _ (
    run-IsClosed state.ident lib calls (close_allocation x m).1 s
      (close_allocation-IsClosed x state m (IsOpen-at m x.port state h.sound e) e c))
