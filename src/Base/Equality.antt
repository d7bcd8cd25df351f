-- ===== src/Base/Equality.antt =====
-- Python's `==` on the numbers and the texts of the model, behind one interface.
use Prim.Native.Nat.{ℕ, compare, Ordering}
use Prim.Native.String.{String}
use mathlib.Core.Path.{◌≡◌}
use mathlib.Core.Logic.{◌↔◌}
use mathlib.Core.Bool.{Bool, true, false}
use mathlib.Core.List.{List, [], ◌∷◌}
use native.Mathlib.Omega.{arith}
use text.Mathlib.Text.{◌==◌ as str_eq}
use text.Mathlib.TextEquality.{eq_iff}
use opnsense_hub.Base.Tests.{if◌then◌else◌}

-- A type whose values `==` compares.
pub record Eq {u} (T : Type u) : Type u where
  pub compares : T → T → Bool
  pub compares_iff : (x y : T) → (compares x y ≡ true) ↔ (x ≡ y)

abbrev pub ◌==◌ {u} : {T : Type u} ⦃eq : Eq T⦄ (x y : T) → Bool
◌==◌ ⦃eq⦄ x y = eq.compares x y

infix 50 ◌==◌
abbrev nat_beq : ℕ → ℕ → Bool
nat_beq a b = elim (compare a b) [ Ordering.eq ↦ true | _ ↦ false ]

pub nat_beq_iff : (a b : ℕ) → (nat_beq a b ≡ true) ↔ (a ≡ b)
nat_beq_iff a b = ground arith

instance abbrev pub nat_eq : Eq ℕ
nat_eq = record { compares = nat_beq; compares_iff = nat_beq_iff }

instance abbrev pub string_eq : Eq String
string_eq = record { compares = str_eq; compares_iff = eq_iff }

-- Python's `in` over a list.
unfoldable pub contains {ℓ} : {A : Type ℓ} ⦃e : Eq A⦄ → List A → A → Bool
contains [] a = false
contains (x ∷ xs) a = if x == a then true else contains xs a
