-- ===== src/TcpRelay/Table.antt =====
-- dashboard/app/services/tcp_relay.py: the dictionary of the relays under its operations.
use opnsense_hub.Base.{
  ℕ, ◌≡◌, ◌≢◌, refl, map, inl, inr, not, none, some, List, [], ◌∷◌, ◌++◌, select, ◌==◌, nat_eq,
  arith, All, All-select, All-map, All-snoc, Bool-cases,
}
use opnsense_hub.TcpRelay.{RelayState, lookup, assign, pop}

abbrev pub Entry : Type 0
Entry = ℕ × RelayState

-- Two entries have different ports and different relays.
abbrev pub Apart : Entry → Entry → Type 0
Apart e f = (e.0 ≢ f.0) × (e.1.ident ≢ f.1.ident)

abbrev pub IsDistinct : List Entry → Type 0
IsDistinct [] = Unit
IsDistinct (e ∷ es) = All (Apart e) es × IsDistinct es

pub assign-absent :
    (port : ℕ) (state : RelayState) (es : List Entry)
    → lookup port es ≡ none
    → assign port state es ≡ es ++ ((port, state) ∷ [])
unfolding assign lookup
assign-absent port state [] h = refl
assign-absent port state ((p, s) ∷ es) h = ground (arith, assign-absent port state es)

pub lookup_none→All :
    (port : ℕ) (es : List Entry) → lookup port es ≡ none → All (λ e. e.0 ≢ port) es
unfolding lookup
lookup_none→All port [] h = tt
lookup_none→All port ((p, s) ∷ es) h = ground (arith, lookup_none→All port es)

pub lookup-holds :
    (P : Entry → Type 0) (port : ℕ) (state : RelayState) (es : List Entry)
    → lookup port es ≡ some state
    → All P es
    → P (port, state)
unfolding lookup
lookup-holds P port state [] h k = absurd (cc)
lookup-holds P port state ((p, s) ∷ es) h k = elim (Bool-cases (p == port)) [
  | inl e ↦ let q : p ≡ port = ground arith in let r : s ≡ state = ground arith in rw (← q, ← r) k.0
  | inr e ↦ lookup-holds P port state es (ground arith) k.1
]

pub pop_not_there : (port : ℕ) (es : List Entry) → All (λ e. e.0 ≢ port) es → pop port es ≡ es
unfolding pop select
pop_not_there port [] h = refl
pop_not_there port ((p, s) ∷ es) h = ground (arith, pop_not_there port es)

pub pop-snoc :
    (port : ℕ) (state : RelayState) (es : List Entry)
    → All (λ e. e.0 ≢ port) es
    → pop port (es ++ ((port, state) ∷ [])) ≡ es
unfolding pop select
pop-snoc port state [] h = ground arith
pop-snoc port state ((p, s) ∷ es) h = ground (arith, pop-snoc port state es)

pub IsDistinct-pop : (port : ℕ) (es : List Entry) → IsDistinct es → IsDistinct (pop port es)
unfolding pop select
IsDistinct-pop port [] h = tt
IsDistinct-pop port (e ∷ es) h = elim (Bool-cases (e.0 == port)) [
  | inl k ↦ rw k (IsDistinct-pop port es h.1)
  | inr k ↦ rw k (All-select (Apart e) (λ f. not (f.0 == port)) es h.0, IsDistinct-pop port es h.1)
]

pub IsDistinct-snoc :
    (e : Entry) (es : List Entry)
    → All (λ f. Apart f e) es
    → IsDistinct es
    → IsDistinct (es ++ (e ∷ []))
IsDistinct-snoc e [] h k = (tt, tt)
IsDistinct-snoc e (f ∷ es) h k = (All-snoc (Apart f) es e k.0 h.0, IsDistinct-snoc e es h.1 k.1)

-- What is left after a pop has other ports.
pub pop-other : (port : ℕ) (es : List Entry) → All (λ e. e.0 ≢ port) (pop port es)
unfolding pop select
pop-other port [] = tt
pop-other port (e ∷ es) = ground (arith, pop-other port es)

pub All-pop : (P : Entry → Type 0) (port : ℕ) (es : List Entry) → All P es → All P (pop port es)
unfolding pop
All-pop P port es h = All-select P (λ e. not (e.0 == port)) es h

-- Of the entries, those at the port of `state` are those of the relay `state`.
abbrev pub Owns : List Entry → RelayState → Type 0
Owns es state = All (λ e. (e.0 == state.allocation.port) ≡ (e.1.ident == state.ident)) es

Owns-head :
    (e : Entry) (es : List Entry) → e.0 ≡ e.1.allocation.port → All (Apart e) es → Owns (e ∷ es) e.1
Owns-head e es q d = (ground arith, All-map (Apart e) _ es (λ f a. ground arith) d)

Owns-tail :
    (e : Entry) (es fs : List Entry)
    → All (λ f. f.0 ≡ f.1.allocation.port) fs
    → All (Apart e) fs
    → All (λ f. Owns es f.1) fs
    → All (λ f. Owns (e ∷ es) f.1) fs
Owns-tail e es [] q h k = tt
Owns-tail e es (f ∷ fs) q h k = ((ground (arith, q.0, h.0), k.0), Owns-tail e es fs q.1 h.1 k.1)

-- In a table of distinct entries, each at its relay's port, every entry owns its relay.
pub Owns-each :
    (es : List Entry)
    → All (λ e. e.0 ≡ e.1.allocation.port) es
    → IsDistinct es
    → All (λ e. Owns es e.1) es
Owns-each [] h d = tt
Owns-each (e ∷ es) h d = (Owns-head e es h.0 d.0, Owns-tail e es es h.1 d.0 (Owns-each es h.1 d.1))

pub All-of_map :
    (P : RelayState → Type 0) (es : List Entry) → All (λ e. P e.1) es → All P (map (λ e. e.1) es)
All-of_map P [] h = tt
All-of_map P (e ∷ es) h = (h.0, All-of_map P es h.1)
