-- ===== src/Prelude/Text.antt =====
-- Go's strings: equality, and the order that `<` gives them (by bytes, which is by code points).
use Prim.Native.Nat.{Ordering}
use Prim.Native.String.{String, compare}
use Prim.Native.String.compare
use mathlib.Core.Path.{◌≡◌, refl}
use mathlib.Core.Bool.{Bool, true, false}
use native.Mathlib.Omega.{arith}
use text.Mathlib.TextEquality.{path_by_compare}
pub use text.Mathlib.Text.{◌==◌}
pub use text.Mathlib.TextEquality.{eq_iff}
pub use text.Mathlib.TextPositions.{eq_refl}

abbrev is_before : Ordering → Bool
is_before Ordering.lt = true
is_before _ = false

-- a < b
unfoldable pub str_ltb : String → String → Bool
str_ltb a b = is_before (compare a b)

abbrev flip : Ordering → Ordering
flip Ordering.lt = Ordering.gt
flip Ordering.eq = Ordering.eq
flip Ordering.gt = Ordering.lt

compare-flip : (a b : String) → compare b a ≡ flip (compare a b)
compare-flip String.[] String.[] = refl
compare-flip String.[] (String.◌∷◌ d t) = rw (compare.cons-nil d t, compare.nil-cons d t)
compare-flip (String.◌∷◌ c s) String.[] = rw (compare.cons-nil c s, compare.nil-cons c s)
compare-flip (String.◌∷◌ c s) (String.◌∷◌ d t) =
    rw (compare.cons-cons c d s t, compare.cons-cons d c t s) (ground (arith, compare-flip s t))

pub str_ltb_irrefl : (a : String) → str_ltb a a ≡ false
unfolding str_ltb
str_ltb_irrefl a = ground (arith, compare-flip a a)

pub str_ltb_asymm : (a b : String) → str_ltb a b ≡ true → str_ltb b a ≡ false
unfolding str_ltb
str_ltb_asymm a b h = ground (arith, compare-flip a b)

-- The order is total.
pub str_ltb_total : (a b : String) → str_ltb a b ≡ false → str_ltb b a ≡ false → a ≡ b
unfolding str_ltb
str_ltb_total a b h k = path_by_compare a b (ground (arith, compare-flip a b))

compare_trans :
    (a b c : String)
    → compare a b ≡ Ordering.lt
    → compare b c ≡ Ordering.lt
    → compare a c ≡ Ordering.lt
compare_trans a String.[] String.[] h k = cc
compare_trans String.[] b (String.◌∷◌ e u) h k = compare.nil-cons e u
compare_trans a (String.◌∷◌ d t) String.[] h k = cc (compare.cons-nil d t)
compare_trans (String.◌∷◌ c s) String.[] (String.◌∷◌ e u) h k = cc (compare.cons-nil c s)
compare_trans (String.◌∷◌ c s) (String.◌∷◌ d t) (String.◌∷◌ e u) h k =
    rw (compare.cons-cons c e s u)
      (ground (arith, compare.cons-cons c d s t, compare.cons-cons d e t u, compare_trans s t u))

pub str_ltb_trans : (a b c : String) → str_ltb a b ≡ true → str_ltb b c ≡ true → str_ltb a c ≡ true
unfolding str_ltb
str_ltb_trans a b c h k = ground (arith, compare_trans a b c)
