-- ===== src/Tests/Relay.antt =====
-- The theorems of TcpRelay at a manager of three ports.
use opnsense_hub.Base.{
  ℕ, ◌≤◌, ◌≡◌, refl, Bool, true, false, ◌&&◌, Option, none, some, List, [], ◌∷◌, ok, err,
  runtime_error, Text, codes, arith, Option-cases, inl, inr, All, map, ltb, ◌==◌, nat_eq,
}
use opnsense_hub.Base.Integers.{pos}
use opnsense_hub.TcpRelay.{
  TcpRelayManager, TcpRelayAllocation, RelayState, started, init, lookup, accepts, close_allocation,
}
use opnsense_hub.TcpRelay.Hosts.{Stdlib, parsed, text}
use opnsense_hub.TcpRelay.Opening.{
  Attempt, Target, create_relay, new_allocation, new_state, check_target, is_usable,
}
use opnsense_hub.TcpRelay.Calls.{Call, creates, closes_device, arrives, leaves, step, run}
use opnsense_hub.TcpRelay.Steps.{IsConsistent}
use opnsense_hub.TcpRelay.Runs.{run-init-IsConsistent}
use opnsense_hub.TcpRelay.Refines.{Change, step-Change}
use opnsense_hub.TcpRelay.View.{open_relays}
use opnsense_hub.TcpRelay.Final.{close_allocation-final}
use opnsense_hub.TcpRelay.Ports.{opened}
use opnsense_hub.TcpRelay.Opens.{create_relay-opens}

abbrev stdlib : Stdlib
stdlib = record {
  parse_uuid = λ s. some 7;
  hex = λ n. codes "07";
  ip_address = λ s. some 9;
  idna = λ s. some s;
}

abbrev three_ports : TcpRelayManager
three_ports = record {
  bind_host = codes "0.0.0.0";
  port_min = 20000;
  port_max = 20002;
  ttl = 300;
  idle_timeout = 60;
  max_connections = 1;
  relays = [];
  made = [];
  progress = λ _. started;
  tasks = [];
}

abbrev attempt : Attempt
attempt = record {
  shuffle = λ xs. xs;
  binds = λ p. ltb 20000 p;
  serving_raises = λ p. none;
  now = 5;
  loop_time = 1;
}

abbrev target : Target
target = record {
  device_id = 7;
  target_host = codes "10.0.0.2";
  target_port = 443;
  client_ip = 9;
  public_host = codes "d-07.hub.example";
}

abbrev opens : Call
opens = creates attempt (parsed 7) (codes " 10.0.0.2") (pos 443) (codes "9") (codes "Hub.example.")

abbrev busy : List Call
busy = opens ∷ arrives 1 0 (some 9) ∷ arrives 2 0 (some 9) ∷ opens ∷ leaves 2 ∷ []

init-three_ports :
    init (codes "0.0.0.0 ") (pos 20000) (pos 20002) (pos 300) (pos 60) (pos 1) ≡ ok three_ports
unfolding init opnsense_hub.Base.text_beq opnsense_hub.Base.strip
init-three_ports = refl

abbrev one_open : TcpRelayManager
one_open = opened three_ports (new_state three_ports attempt target 20001)

create_one :
    create_relay stdlib attempt
      (parsed 7)
      (codes " 10.0.0.2")
      (pos 443)
      (codes "9")
      (codes "Hub.example.")
      three_ports
    ≡ (ok (new_allocation three_ports attempt target 20001), one_open)
unfolding create_relay opnsense_hub.Base.text_beq opnsense_hub.Base.strip opnsense_hub.Base.any
    opnsense_hub.Base.contains opnsense_hub.Base.split opnsense_hub.Base.lower
    opnsense_hub.Base.starts_with opnsense_hub.Base.ends_with
create_one = refl

run-init-IsConsistent_example : IsConsistent (run stdlib busy three_ports)
run-init-IsConsistent_example =
    run-init-IsConsistent stdlib busy (codes "0.0.0.0 ") (pos 20000) (pos 20002) (pos 300) (pos 60)
      (pos 1) three_ports init-three_ports ((λ xs x. refl), (tt, (tt, ((λ xs x. refl), (tt, tt)))))

IsConsistent-busy : IsConsistent (run stdlib busy three_ports)
IsConsistent-busy =
    run-init-IsConsistent stdlib busy (codes "0.0.0.0 ") (pos 20000) (pos 20002) (pos 300) (pos 60)
      (pos 1) three_ports init-three_ports ((λ xs x. refl), (tt, (tt, ((λ xs x. refl), (tt, tt)))))

run_one : run stdlib (opens ∷ []) three_ports ≡ one_open
unfolding run step create_relay opnsense_hub.Base.text_beq opnsense_hub.Base.strip
    opnsense_hub.Base.any opnsense_hub.Base.contains opnsense_hub.Base.split opnsense_hub.Base.lower
    opnsense_hub.Base.starts_with opnsense_hub.Base.ends_with
run_one = refl

IsConsistent-one : IsConsistent one_open
IsConsistent-one = rw (← run_one) (
    run-init-IsConsistent stdlib (opens ∷ []) (codes "0.0.0.0 ") (pos 20000) (pos 20002) (pos 300)
      (pos 60) (pos 1) three_ports init-three_ports ((λ xs x. refl), tt))

lookup_one : lookup 20001 one_open.relays ≡ some (new_state three_ports attempt target 20001)
unfolding lookup new_state
lookup_one = refl

closed_one : (close_allocation (new_allocation three_ports attempt target 20001) one_open).0 ≡ true
unfolding close_allocation new_state opnsense_hub.Base.text_beq opnsense_hub.Base.Decimal.str
closed_one = refl

-- The accepted client counts, the second and one from elsewhere are refused.
served_one :
    map
      (λ c. c.accepted)
      (run stdlib
        (opens ∷ arrives 1 0 (some 8) ∷ arrives 2 0 (some 9) ∷ arrives 3 0 (some 9) ∷ [])
        three_ports).tasks
    ≡ false ∷ true ∷ false ∷ []
unfolding run step opnsense_hub.TcpRelay.relay_at opnsense_hub.Base.find create_relay
    opnsense_hub.Base.text_beq opnsense_hub.Base.strip opnsense_hub.Base.any
    opnsense_hub.Base.contains opnsense_hub.Base.split opnsense_hub.Base.lower
    opnsense_hub.Base.starts_with opnsense_hub.Base.ends_with opnsense_hub.TcpRelay.begin_client
served_one = refl

check_one :
    check_target stdlib (parsed 7) (codes " 10.0.0.2") (pos 443) (codes "9") (codes "Hub.example.")
    ≡ ok target
unfolding check_target opnsense_hub.Base.text_beq opnsense_hub.Base.strip opnsense_hub.Base.any
    opnsense_hub.Base.contains opnsense_hub.Base.split opnsense_hub.Base.lower
    opnsense_hub.Base.starts_with opnsense_hub.Base.ends_with
check_one = refl

free_one : lookup 20002 one_open.relays ≡ none
unfolding lookup new_state
free_one = refl

create_relay-opens_example :
    (q : ℕ) × (20000 ≤ q)
    × (q ≤ 20002)
    × (lookup q one_open.relays ≡ none)
    × (attempt.binds q ≡ true)
    × (create_relay stdlib attempt
          (parsed 7)
          (codes " 10.0.0.2")
          (pos 443)
          (codes "9")
          (codes "Hub.example.")
          one_open
        ≡ (
          ok (new_allocation one_open attempt target q),
          opened one_open (new_state one_open attempt target q),
        ))
create_relay-opens_example =
    create_relay-opens stdlib attempt (parsed 7) (codes " 10.0.0.2") (pos 443) (codes "9")
      (codes "Hub.example.") target 20002 one_open (λ xs x. refl) check_one (omega arith)
      (omega arith) free_one refl (λ q. refl)

abbrev refusing : Attempt
refusing = record attempt { binds = λ p. false }

refusing_unusable : (p : ℕ) → is_usable refusing one_open p ≡ false
unfolding is_usable
refusing_unusable p = elim (Option-cases (lookup p one_open.relays)) [
  | inl e ↦ rw e refl
  | inr (_, e) ↦ rw e refl
]

step-Change_example :
    Change stdlib
      (closes_device (text (codes "7")))
      (open_relays (run stdlib busy three_ports))
      (open_relays (step stdlib (closes_device (text (codes "7"))) (run stdlib busy three_ports)))
step-Change_example =
    step-Change stdlib (closes_device (text (codes "7"))) (run stdlib busy three_ports) tt
      IsConsistent-busy

close_allocation-final_example :
    accepts (new_state three_ports attempt target 20001) (some 9) (
      run stdlib busy
        (close_allocation
          (new_allocation three_ports attempt target 20001)
          (opened three_ports (new_state three_ports attempt target 20001))).1)
    ≡ false
unfolding new_allocation
close_allocation-final_example =
    close_allocation-final stdlib (new_allocation three_ports attempt target 20001)
      (new_state three_ports attempt target 20001) (some 9) busy
      (opened three_ports (new_state three_ports attempt target 20001)) IsConsistent-one lookup_one
      closed_one ((λ xs x. refl), (tt, (tt, ((λ xs x. refl), (tt, tt)))))
