-- ===== src/TcpRelay/View.antt =====
-- dashboard/app/services/tcp_relay.py: the abstract view of the table, the list of the relays that are
-- open, and what detaching does to it. Ports as keys, counters, tasks and flags are forgotten; a relay is
-- known by its identity.
use opnsense_hub.Base.{
  ℕ, ◌≡◌, refl, sym, ap, ◌∙◌, inl, inr, Bool, true, false, not, List, [], ◌∷◌, ◌++◌, map, select,
  any, ◌==◌, nat_eq, if◌then◌else◌, arith, All, All-map, All-every, Bool-cases,
}
use opnsense_hub.TcpRelay.{
  TcpRelayAllocation, RelayState, TcpRelayManager, pop, detach_relay, detach_all,
}
use opnsense_hub.TcpRelay.Table.{Entry, Apart, IsDistinct, Owns, All-pop}

-- An open relay: its identity and what its client was given.
abbrev pub Handle : Type 0
Handle = ℕ × TcpRelayAllocation

abbrev pub view : Entry → Handle
view e = (e.1.ident, e.1.allocation)

abbrev pub open_relays : TcpRelayManager → List Handle
open_relays m = map view m.relays

abbrev pub without : (Handle → Bool) → List Handle → List Handle
without p = select (λ h. not (p h))

pub without-eq :
    (p q : Handle → Bool) (es : List Entry)
    → All (λ e. p (view e) ≡ q (view e)) es
    → without p (map view es) ≡ without q (map view es)
unfolding select
without-eq p q [] h = refl
without-eq p q (e ∷ es) h = rw (h.0, without-eq p q es h.1) refl

pub without_none :
    (p : Handle → Bool) (es : List Entry)
    → All (λ e. p (view e) ≡ false) es
    → without p (map view es) ≡ map view es
unfolding select
without_none p [] h = refl
without_none p (e ∷ es) h = rw (h.0, without_none p es h.1) refl

pub without_every :
    (p : Handle → Bool) (es : List Entry)
    → All (λ e. p (view e) ≡ true) es
    → without p (map view es) ≡ []
unfolding select
without_every p [] h = refl
without_every p (e ∷ es) h = rw (h.0, without_every p es h.1) refl

without-pop :
    (state : RelayState) (es : List Entry)
    → Owns es state
    → map view (pop state.allocation.port es) ≡ without (λ h. h.0 == state.ident) (map view es)
unfolding pop select
without-pop state [] h = refl
without-pop state (e ∷ es) h = elim (Bool-cases (e.0 == state.allocation.port)) [
  | inl k ↦ rw (k, sym h.0 ∙ k) (without-pop state es h.1)
  | inr k ↦ rw (k, sym h.0 ∙ k, without-pop state es h.1) refl
]

abbrev pub among : List RelayState → Handle → Bool
among states h = any (λ s. h.0 == s.ident) states

without-without :
    (p q : Handle → Bool) (hs : List Handle)
    → without q (without p hs) ≡ without (λ h. if p h then true else q h) hs
unfolding select
without-without p q [] = refl
without-without p q (h ∷ hs) = elim (Bool-cases (p h)) [
  | inl e ↦ rw e (without-without p q hs)
  | inr e ↦ rw (e, without-without p q hs) refl
]

pub open_relays-detach_relay :
    (state : RelayState) (m : TcpRelayManager)
    → Owns m.relays state
    → open_relays (detach_relay state m) ≡ without (λ h. h.0 == state.ident) (open_relays m)
unfolding detach_relay
open_relays-detach_relay state m o = without-pop state m.relays o

-- Detaching relays of the table takes these out of the view.
pub open_relays-detach_all :
    (states : List RelayState) (m : TcpRelayManager)
    → All (Owns m.relays) states
    → open_relays (detach_all states m) ≡ without (among states) (open_relays m)
unfolding detach_all any
open_relays-detach_all [] m o =
    sym (without_none (among []) m.relays (All-every _ m.relays (λ e. refl)))
open_relays-detach_all (state ∷ states) m o =
    open_relays-detach_all states (detach_relay state m) (
      unfold detach_relay in
      All-map (Owns m.relays) (Owns (pop state.allocation.port m.relays)) states
        (λ s. All-pop _ state.allocation.port m.relays) o.1)
    ∙ ap (without (among states)) (open_relays-detach_relay state m o.0)
    ∙ without-without (λ h. h.0 == state.ident) (among states) (open_relays m)

-- A relay of the table is among the selected ones exactly if it passes the test.
among-Apart :
    (p : RelayState → Bool) (e : Entry) (es : List Entry)
    → All (Apart e) es
    → among (select p (map (λ f. f.1) es)) (view e) ≡ false
unfolding select any
among-Apart p e [] h = refl
among-Apart p e (f ∷ es) h = elim (Bool-cases (p f.1)) [
  | inl k ↦ rw k (ground (arith, h.0, among-Apart p e es h.1))
  | inr k ↦ rw k (among-Apart p e es h.1)
]

among_cons :
    (p : RelayState → Bool) (e : Entry) (es fs : List Entry)
    → All (Apart e) fs
    → All (λ f. among (select p (map (λ g. g.1) es)) (view f) ≡ p f.1) fs
    → All (λ f. among (select p (map (λ g. g.1) (e ∷ es))) (view f) ≡ p f.1) fs
unfolding select any
among_cons p e es [] h k = tt
among_cons p e es (f ∷ fs) h k = (
  elim (Bool-cases (p e.1)) [ inl q ↦ rw q (ground (arith, h.0, k.0)) | inr q ↦ rw q k.0 ],
  among_cons p e es fs h.1 k.1,
)

pub among-select :
    (p : RelayState → Bool) (es : List Entry)
    → IsDistinct es
    → All (λ e. among (select p (map (λ f. f.1) es)) (view e) ≡ p e.1) es
unfolding select any
among-select p [] d = tt
among-select p (e ∷ es) d = (
  elim (Bool-cases (p e.1)) [ inl q ↦ rw q (ground arith) | inr q ↦ rw q (among-Apart p e es d.0) ],
  among_cons p e es es d.0 (among-select p es d.1),
)

pub open_relays-snoc :
    (es : List Entry) (e : Entry) → map view (es ++ (e ∷ [])) ≡ map view es ++ (view e ∷ [])
open_relays-snoc [] e = refl
open_relays-snoc (f ∷ es) e = rw (open_relays-snoc es e) refl

pub All-view :
    (P : Handle → Type 0) (es : List Entry) → All (λ e. P (view e)) es → All P (map view es)
All-view P [] h = tt
All-view P (e ∷ es) h = (h.0, All-view P es h.1)
