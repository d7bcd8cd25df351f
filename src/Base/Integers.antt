-- ===== src/Base/Integers.antt =====
-- Python's integers over the native numbers, with the comparisons that the program makes.
use Prim.Native.Nat.{ℕ, suc, ◌≤◌}
use mathlib.Core.Path.{◌≡◌, refl}
use mathlib.Core.Bool.{Bool, true, false, ◌&&◌, not}
use native.Mathlib.Omega.{arith}
use opnsense_hub.Base.Tests.{leb}

-- `negsuc n` is -(n + 1).
pub data ℤ : Type 0 where
  pos : ℕ → ℤ
  negsuc : ℕ → ℤ

-- The number that an integer is, if it is not negative.
abbrev pub magnitude : ℤ → ℕ
magnitude (pos n) = n
magnitude (negsuc n) = suc n

abbrev pub lez : ℤ → ℤ → Bool
lez (pos a) (pos b) = leb a b
lez (pos a) (negsuc b) = false
lez (negsuc a) (pos b) = true
lez (negsuc a) (negsuc b) = leb b a

abbrev pub ltz : ℤ → ℤ → Bool
ltz a b = not (lez b a)

-- `low <= z <= high`
abbrev pub between : (low high : ℕ) → ℤ → Bool
between low high z = lez (pos low) z && lez z (pos high)

pub between-bounds :
    (low high : ℕ) (z : ℤ)
    → between low high z ≡ true
    → (n : ℕ) × (z ≡ pos n) × (low ≤ n) × (n ≤ high)
between-bounds low high (pos n) h = (n, refl, ground arith, ground arith)
between-bounds low high (negsuc n) h = cc

-- A number that is neither at most 0 nor above a bound.
pub positive-bounds :
    (high : ℕ) (z : ℤ)
    → lez z (pos 0) ≡ false
    → ltz (pos high) z ≡ false
    → (n : ℕ) × (z ≡ pos n) × (1 ≤ n) × (n ≤ high)
positive-bounds high (pos n) h k = (n, refl, ground arith, ground arith)
positive-bounds high (negsuc n) h k = cc

pub positive : (z : ℤ) → lez z (pos 0) ≡ false → (n : ℕ) × (z ≡ pos n) × (1 ≤ n)
positive (pos n) h = (n, refl, ground arith)
positive (negsuc n) h = cc
