-- ===== src/TcpRelay/Count.antt =====
-- dashboard/app/services/tcp_relay.py: the clients of the relays. What the counter of a relay says of the
-- running tasks, and for whom they run.
use opnsense_hub.Base.{
  ℕ, suc, ◌+◌, ◌≤◌, ◌<◌, ◌≡◌, refl, inl, inr, Bool, true, false, ◌&&◌, Option, none, some, List, [],
  ◌∷◌, length, ◌==◌, nat_eq, if◌then◌else◌, arith, All, All-map, Bool-cases, Option-cases, find,
}
use opnsense_hub.TcpRelay.{
  RelayState, Connection, TcpRelayManager, accepts, peer_is_allowed, begin_client, finish_client,
  find_task, discard_task, detach_relay, detach_all,
}
use opnsense_hub.TcpRelay.Ports.{opened, withdrawn}

abbrev pub counts : ℕ → Connection → Bool
counts ident c = c.accepted && c.state.ident == ident

-- The accepted tasks of a relay.
abbrev pub accepted_tasks : ℕ → List Connection → ℕ
accepted_tasks ident [] = 0
accepted_tasks ident (c ∷ tasks) =
    let n = accepted_tasks ident tasks in if counts ident c then suc n else n

-- A task runs for a relay that was made, and if it was accepted, for the address that the relay is for.
pub record IsServed (made : List RelayState) (c : Connection) : Type 0 where
  pub made_before : c.state.ident < length made
  pub allowed : c.accepted ≡ true → c.peer ≡ some c.state.allowed_client_ip

pub record IsCounted (m : TcpRelayManager) : Type 0 where
  pub exact : (i : ℕ) → (m.progress i).active_connections ≡ accepted_tasks i m.tasks
  pub bounded : (i : ℕ) → accepted_tasks i m.tasks ≤ m.max_connections
  pub served : All (IsServed m.made) m.tasks

-- What an accepted client meets.
pub accepts-holds :
    (state : RelayState) (peer : Option ℕ) (m : TcpRelayManager)
    → accepts state peer m ≡ true
    → (peer ≡ some state.allowed_client_ip)
      × ((m.progress state.ident).active_connections < m.max_connections)
      × ((m.progress state.ident).closing ≡ false)
unfolding accepts peer_is_allowed
accepts-holds state none m h = ground arith
accepts-holds state (some ip) m h = ground arith

pub begin_client-IsCounted :
    (task : ℕ) (state : RelayState) (peer : Option ℕ) (m : TcpRelayManager)
    → state.ident < length m.made
    → IsCounted m
    → IsCounted (begin_client task state peer m)
unfolding begin_client accepts peer_is_allowed
begin_client-IsCounted task state peer m fresh h = record {
  exact = λ i. ground (arith, h.exact i, h.exact state.ident);
  bounded = λ i. ground (arith, h.exact i, h.bounded i);
  served =
      (record { made_before = fresh; allowed = λ e. (accepts-holds state peer m e).0 }, h.served);
}

accepted_tasks-discard :
    (task ident : ℕ) (tasks : List Connection) (c : Connection)
    → find_task task tasks ≡ some c
    → accepted_tasks ident tasks
      ≡ accepted_tasks ident (discard_task task tasks) + (if counts ident c then 1 else 0)
unfolding find_task find discard_task
accepted_tasks-discard task ident [] c h = ground arith
accepted_tasks-discard task ident (d ∷ tasks) c h =
    ground (arith, accepted_tasks-discard task ident tasks c)

All-discard :
    (P : Connection → Type 0) (task : ℕ) (tasks : List Connection)
    → All P tasks
    → All P (discard_task task tasks)
unfolding discard_task
All-discard P task [] h = tt
All-discard P task (c ∷ tasks) h = elim (Bool-cases (c.task == task)) [
  | inl e ↦ rw e h.1
  | inr e ↦ rw e (h.0, All-discard P task tasks h.1)
]

pub finish_client-IsCounted :
    (task : ℕ) (m : TcpRelayManager) → IsCounted m → IsCounted (finish_client task m)
unfolding finish_client
finish_client-IsCounted task m h = elim (Option-cases (find_task task m.tasks)) [
  | inl e ↦ rw (e, finish_client) h
  | inr (c, e) ↦
      rw (e, finish_client)
        (record {
          exact = λ i. ground (arith, h.exact i, accepted_tasks-discard task i m.tasks c e);
          bounded = λ i. ground (arith, h.bounded i, accepted_tasks-discard task i m.tasks c e);
          served = All-discard _ task m.tasks h.served;
        })
]

-- The count that a task of a relay is in is above zero, when it is subtracted from.
pub finish_client-positive :
    (task : ℕ) (c : Connection) (m : TcpRelayManager)
    → IsCounted m
    → find_task task m.tasks ≡ some c
    → c.accepted ≡ true
    → 0 < (m.progress c.state.ident).active_connections
finish_client-positive task c m h e k =
    ground (arith, h.exact c.state.ident, accepted_tasks-discard task c.state.ident m.tasks c e)

pub detach_relay-IsCounted :
    (state : RelayState) (m : TcpRelayManager) → IsCounted m → IsCounted (detach_relay state m)
unfolding detach_relay
detach_relay-IsCounted state m h = record {
  exact = λ i. ground (arith, h.exact i, h.exact state.ident);
  bounded = h.bounded;
  served = h.served;
}

pub detach_all-IsCounted :
    (states : List RelayState) (m : TcpRelayManager) → IsCounted m → IsCounted (detach_all states m)
unfolding detach_all
detach_all-IsCounted [] m h = h
detach_all-IsCounted (state ∷ states) m h =
    detach_all-IsCounted states (detach_relay state m) (detach_relay-IsCounted state m h)

accepted_tasks_fresh :
    (made : List RelayState) (tasks : List Connection)
    → All (IsServed made) tasks
    → accepted_tasks (length made) tasks ≡ 0
accepted_tasks_fresh made [] h = refl
accepted_tasks_fresh made (c ∷ tasks) h =
    ground (arith, h.0.made_before, accepted_tasks_fresh made tasks h.1)

-- A new relay starts without clients, whether it comes to serve or not.
pub withdrawn-IsCounted :
    (m : TcpRelayManager) → IsCounted m → IsCounted (withdrawn m (length m.made))
withdrawn-IsCounted m h = record {
  exact = λ i. ground (arith, h.exact i, accepted_tasks_fresh m.made m.tasks h.served);
  bounded = h.bounded;
  served = h.served;
}

pub opened-IsCounted :
    (state : RelayState) (m : TcpRelayManager)
    → state.ident ≡ length m.made
    → IsCounted m
    → IsCounted (opened m state)
opened-IsCounted state m q h = record {
  exact = λ i. ground (arith, h.exact i, accepted_tasks_fresh m.made m.tasks h.served);
  bounded = h.bounded;
  served =
      All-map _ _ m.tasks
        (λ c s. record { made_before = ground (arith, s.made_before); allowed = s.allowed })
        h.served;
}
