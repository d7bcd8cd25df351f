-- ===== src/Base/Lists.antt =====
-- Lists measured by native numbers, and searched by Boolean tests.
use Prim.Native.Nat.{ℕ, zero, suc, ◌+◌, ◌≤◌, ◌<◌}
use mathlib.Core.Path.{◌≡◌, ◌∙◌, ap, sym, refl}
use mathlib.Core.Logic.{inl, inr, ◌≢◌}
use mathlib.Core.Bool.{Bool, true, false, ◌&&◌}
use mathlib.Core.List.{Mem, mem-cons_self, mem-cons_of_mem, List, [], ◌∷◌, ◌++◌, map}
use mathlib.Core.Option.{Option, none, some}
use native.Mathlib.Omega.{arith}
use opnsense_hub.Base.Tests.{if◌then◌else◌, Bool-cases}

module _ {ℓ} {A : Type ℓ} where
  abbrev pub length : List A → ℕ
  length [] = 0
  length (x ∷ xs) = suc (length xs)

  abbrev pub take : ℕ → List A → List A
  take zero xs = []
  take (suc n) [] = []
  take (suc n) (x ∷ xs) = x ∷ take n xs

  -- The elements that pass a test, in their order.
  unfoldable pub select : (A → Bool) → List A → List A
  select p [] = []
  select p (x ∷ xs) = let rest = select p xs in if p x then x ∷ rest else rest

  -- The first element that passes a test.
  unfoldable pub find : (A → Bool) → List A → Option A
  find p [] = none
  find p (x ∷ xs) = if p x then some x else find p xs

  unfoldable pub any : (A → Bool) → List A → Bool
  any p [] = false
  any p (x ∷ xs) = if p x then true else any p xs

  -- A predicate of every element.
  abbrev pub All {κ} : (A → Type κ) → List A → Type κ
  All P [] = Unit
  All P (x ∷ xs) = P x × All P xs

  pub length-append : (xs ys : List A) → length (xs ++ ys) ≡ length xs + length ys
  length-append [] ys = omega arith
  length-append (x ∷ xs) ys = omega (arith, length-append xs ys)

  pub find-holds : (p : A → Bool) (xs : List A) (a : A) → find p xs ≡ some a → p a ≡ true
  unfolding find
  find-holds p [] a h = ground arith
  find-holds p (x ∷ xs) a h = ground (arith, find-holds p xs a)

module _ {ℓ κ} {A : Type ℓ} (P : A → Type κ) where
  pub All-select : (p : A → Bool) (xs : List A) → All P xs → All P (select p xs)
  unfolding select
  All-select p [] h = tt
  All-select p (x ∷ xs) h = ground (arith, All-select p xs h.1)

  pub All-snoc : (xs : List A) (a : A) → All P xs → P a → All P (xs ++ (a ∷ []))
  All-snoc [] a h k = (k, tt)
  All-snoc (x ∷ xs) a h k = (h.0, All-snoc xs a h.1 k)

  -- What holds of the elements that pass a test holds of those that are selected.
  pub All-select_of :
      (p : A → Bool) (xs : List A) → All (λ a. p a ≡ true → P a) xs → All P (select p xs)
  unfolding select
  All-select_of p [] h = tt
  All-select_of p (x ∷ xs) (h, r) = elim (Bool-cases (p x)) [
    | inl e ↦ rw e (h e, All-select_of p xs r)
    | inr e ↦ rw e (All-select_of p xs r)
  ]

  pub All-map {μ} : (Q : A → Type μ) (xs : List A) → ((a : A) → P a → Q a) → All P xs → All Q xs
  All-map Q [] f h = tt
  All-map Q (x ∷ xs) f h = (f x h.0, All-map Q xs f h.1)

  pub All-after_map {β} :
      {B : Type β} (f : B → A) (xs : List B) → All (λ x. P (f x)) xs → All P (map f xs)
  All-after_map f [] h = tt
  All-after_map f (x ∷ xs) h = (h.0, All-after_map f xs h.1)

  pub All-every : (xs : List A) → ((a : A) → P a) → All P xs
  All-every [] f = tt
  All-every (x ∷ xs) f = (f x, All-every xs f)

  pub All-zip {μ ν} :
      (Q : A → Type μ) (R : A → Type ν)
      → ((a : A) → P a → Q a → R a)
      → (xs : List A) → All P xs
      → All Q xs
      → All R xs
  All-zip Q R f [] h k = tt
  All-zip Q R f (x ∷ xs) h k = (f x h.0 k.0, All-zip Q R f xs h.1 k.1)

  -- A conditional element.
  pub All-if : (b : Bool) (x : A) (xs : List A) → P x → All P xs → All P (if b then x ∷ xs else xs)
  All-if true x xs p h = (p, h)
  All-if false x xs p h = h

  -- What holds of every element holds of the one that is found.
  pub find-All : (p : A → Bool) (xs : List A) (x : A) → find p xs ≡ some x → All P xs → P x
  unfolding find
  find-All p [] x h k = absurd (cc)
  find-All p (y ∷ xs) x h k = elim (Bool-cases (p y)) [
    | inl e ↦ let q : y ≡ x = ground arith in rw (← q) k.0
    | inr e ↦ find-All p xs x (ground arith) k.1
  ]

module _ {ℓ κ} {A : Type ℓ} {K : Type κ} (key : A → K) where
  -- No two elements have one key.
  abbrev pub HasDistinct : List A → Type (ℓ ⊔ κ)
  HasDistinct [] = Unit
  HasDistinct (x ∷ xs) = All (λ y. key y ≢ key x) xs × HasDistinct xs

  -- The element that is found is the only one with its key.
  pub find-distinct :
      (q : A → Bool) (xs : List A) (x : A)
      → HasDistinct xs
      → find q xs ≡ some x
      → All (λ y. key y ≡ key x → y ≡ x) xs
  unfolding find
  find-distinct q [] x h e = tt
  find-distinct q (y ∷ xs) x h e = elim (Bool-cases (q y)) [
    | inl k ↦
        let same : y ≡ x = ground arith in
        (λ _. same, All-map _ _ xs (λ z n i. absurd (n (i ∙ ap key (sym same)))) h.0)
    | inr k ↦
        let rest : find q xs ≡ some x = ground arith in
        (
          λ i. absurd (find-All (λ z. key z ≢ key y) q xs x rest h.0 (sym i)),
          find-distinct q xs x h.1 rest,
        )
  ]

module _ {ℓ} {A : Type ℓ} (p : A → Bool) (x : A) where
  pub select-snoc : (xs : List A) → p x ≡ true → select p (xs ++ (x ∷ [])) ≡ select p xs ++ (x ∷ [])
  unfolding select
  select-snoc [] h = rw h refl
  select-snoc (y ∷ xs) h = ground (arith, select-snoc xs h)

  pub select-snoc_failed : (xs : List A) → p x ≡ false → select p (xs ++ (x ∷ [])) ≡ select p xs
  unfolding select
  select-snoc_failed [] h = rw h refl
  select-snoc_failed (y ∷ xs) h = ground (arith, select-snoc_failed xs h)

  pub find-snoc_none :
      (xs : List A) → find p xs ≡ none → p x ≡ true → find p (xs ++ (x ∷ [])) ≡ some x
  unfolding find
  find-snoc_none [] n h = rw h refl
  find-snoc_none (y ∷ xs) n h = ground (arith, find-snoc_none xs)

module _ {ℓ} {A : Type ℓ} where
  -- What is found among the elements that pass a test is one of the list.
  pub find-select-Mem :
      (p q : A → Bool) (xs : List A) (a : A) → find q (select p xs) ≡ some a → Mem a xs
  unfolding find select
  find-select-Mem p q [] a h = absurd (cc)
  find-select-Mem p q (x ∷ xs) a h = elim (Bool-cases (p x && q x)) [
    | inl e ↦ let same : x ≡ a = ground arith in rw same mem-cons_self
    | inr e ↦ mem-cons_of_mem x (find-select-Mem p q xs a (ground arith))
  ]

-- The numbers from `first` on.
abbrev pub numbers : (first count : ℕ) → List ℕ
numbers first zero = []
numbers first (suc count) = first ∷ numbers (first + 1) count

pub All-numbers {κ} :
    (P : ℕ → Type κ) (first count : ℕ)
    → ((n : ℕ) → first ≤ n → n < first + count → P n)
    → All P (numbers first count)
All-numbers P first zero h = tt
All-numbers P first (suc count) h = (
  h first (omega arith) (omega arith),
  All-numbers P (first + 1) count (λ n le lt. h n (omega arith) (omega arith)),
)
