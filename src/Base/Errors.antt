-- ===== src/Base/Errors.antt =====
-- Exceptions as values: the classes that the program raises, and the chaining of fallible calls. A
-- message stands without the values that the source formats into it.
use Prim.Native.Nat.{ℕ}
use Prim.Native.String.{String}
use mathlib.Core.Path.{◌≡◌, refl}
use mathlib.Core.Logic.{◌⊎◌, inl, inr}
use mathlib.Core.Bool.{Bool, true, false}

pub data Exception : Type 0 where
  -- FastAPI's `HTTPException(status_code, detail)`
  http_exception : ℕ → String → Exception
  runtime_error : String → Exception
  value_error : String → Exception
  wireguard_error : String → Exception
  hardening_error : String → Exception
  overflow_error : Exception
  -- `subprocess.TimeoutExpired`
  timeout_expired : Exception

-- What a call that may raise gives back.
pub data Result {u} (T : Type u) : Type u where
  err : Exception → Result T
  ok : T → Result T

pub err-injective {u} : {T : Type u} {x y : Exception} → ◌≡◌ {A = Result T} (err x) (err y) → x ≡ y
err-injective h = cc

-- `if test: raise problem`
abbrev pub raise_if : (test : Bool) → Exception → Result (Unit {0})
raise_if false problem = ok tt
raise_if true problem = err problem

-- The code behind a call runs if the call has returned.
abbrev pub ◌>>=◌ {u v} : {T : Type u} {U : Type v} → Result T → (T → Result U) → Result U
err problem >>= next = err problem
ok x >>= next = next x

infixl 5 ◌>>=◌
abbrev pub ◌>>◌ {v} : {U : Type v} (first : Result (Unit {0})) (next : Result U) → Result U
first >> next = first >>= λ _. next

infixl 5 ◌>>◌
pub Result-cases {u} :
    {T : Type u} (r : Result T)
    → ((x : T) × (r ≡ ok x)) ⊎ ((problem : Exception) × (r ≡ err problem))
Result-cases (err problem) = inr (problem, refl)
Result-cases (ok x) = inl (x, refl)

pub >>=-eq-ok {u v} :
    {T : Type u} {U : Type v} (r : Result T) (next : T → Result U) {y : U} (h : (r >>= next) ≡ ok y)
    → (x : T) × (r ≡ ok x) × (next x ≡ ok y)
>>=-eq-ok (err problem) next h = cc
>>=-eq-ok (ok x) next h = (x, refl, h)
