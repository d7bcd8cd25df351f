-- ===== src/Base/Decimal.antt =====
-- `str` of a natural number, and `int` of a text of digits. (`int` also takes signs, white space and
-- underscores; the texts that the program hands to it here are printed by `str`.)
use Prim.Native.Nat.{ℕ, zero, suc, ◌+◌, ◌-◌, ◌*◌, ◌/◌, ◌%◌, ◌<◌}
use mathlib.Core.Path.{◌≡◌, refl, ◌∙◌}
use mathlib.Core.Bool.{◌&&◌}
use mathlib.Core.List.{[], ◌∷◌, ◌++◌}
use mathlib.Core.Option.{Option, none, some}
use native.Mathlib.Omega.{arith}
use opnsense_hub.Base.Tests.{leb, ltb, if◌then◌else◌}
use opnsense_hub.Base.Equality.{nat_eq}
use opnsense_hub.Base.Texts.{Text, rsplit_once}
use mathlib.Core.Logic.{◌≢◌}

-- The digits of `n` in front of `acc`. The fuel `n + 1` is enough, since `n` falls.
unfoldable pub print_digits : ℕ → ℕ → Text → Text
print_digits zero n acc = acc
print_digits (suc f) n acc =
    let rest = print_digits f (n / 10) ((48 + n % 10) ∷ acc) in
    if ltb n 10 then (48 + n) ∷ acc else rest

unfoldable pub str : ℕ → Text
unfolding print_digits
str n = print_digits (suc n) n []

unfoldable pub read_digits : ℕ → Text → Option ℕ
read_digits n [] = some n
read_digits n (c ∷ s) =
    let rest = read_digits (n * 10 + (c - 48)) s in if leb 48 c && leb c 57 then rest else none

unfoldable pub int : Text → Option ℕ
unfolding read_digits
int [] = none
int (c ∷ s) = read_digits 0 (c ∷ s)

read_digits-print_digits :
    (f n : ℕ) (acc : Text) → n < f → read_digits 0 (print_digits f n acc) ≡ read_digits n acc
unfolding print_digits read_digits
read_digits-print_digits zero n acc h = elim h [ ]
read_digits-print_digits (suc f) n acc h =
    ground (arith, read_digits-print_digits f (n / 10) ((48 + n % 10) ∷ acc))

print_digits-ne-nil : (f n : ℕ) (acc : Text) → n < f → print_digits f n acc ≢ []
unfolding print_digits
print_digits-ne-nil zero n acc h = elim h [ ]
print_digits-ne-nil (suc f) n acc h =
    ground (arith, print_digits-ne-nil f (n / 10) ((48 + n % 10) ∷ acc))

int-eq-read_digits : (s : Text) → s ≢ [] → int s ≡ read_digits 0 s
unfolding int
int-eq-read_digits [] h = absurd (h refl)
int-eq-read_digits (c ∷ s) h = refl

-- Reading a printed number gives the number.
pub int-str : (n : ℕ) → int (str n) ≡ some n
unfolding str
int-str n =
    int-eq-read_digits (print_digits (suc n) n []) (print_digits-ne-nil (suc n) n [] (omega arith))
    ∙ read_digits-print_digits (suc n) n [] (omega arith)
    ∙ unfold read_digits in refl

rsplit_once-print_digits :
    (sep f n : ℕ) (acc : Text)
    → 57 < sep
    → rsplit_once sep acc ≡ none
    → rsplit_once sep (print_digits f n acc) ≡ none
unfolding print_digits rsplit_once
rsplit_once-print_digits sep zero n acc h k = k
rsplit_once-print_digits sep (suc f) n acc h k =
    ground (arith, rsplit_once-print_digits sep f (n / 10) ((48 + n % 10) ∷ acc))

pub rsplit_once-str : (sep n : ℕ) → 57 < sep → rsplit_once sep (str n) ≡ none
unfolding str rsplit_once
rsplit_once-str sep n h = rsplit_once-print_digits sep (suc n) n [] h refl

-- The last separator is the one before a tail that has none.
pub rsplit_once-append :
    (sep : ℕ) (a s : Text)
    → rsplit_once sep s ≡ none
    → rsplit_once sep (a ++ (sep ∷ s)) ≡ some (a, s)
unfolding rsplit_once
rsplit_once-append sep [] s h = ground arith
rsplit_once-append sep (c ∷ a) s h = ground (arith, rsplit_once-append sep a s h)
