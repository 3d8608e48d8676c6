-- ===== src/Prelude/GoStrings/Decimal.antt =====
-- What %d prints, strconv reads back; and strings.Split at a character that a text lacks.
use Prim.Native.Nat.{ℕ, zero, suc, ◌+◌, ◌-◌, ◌*◌, ◌/◌, ◌%◌, ◌^◌, ◌<◌}
use Prim.Native.Char.{Char, code}
use Prim.Native.String.{String, ◌++◌}
use Prim.Native.String.append
use Prim.Native.String.compare
use mathlib.Core.Path.{◌≡◌, refl, ap, ◌∙◌}
use mathlib.Core.Logic.{inl, inr}
use mathlib.Core.Bool.{Bool, true, false, not, ◌&&◌}
use mathlib.Core.List.{[], ◌∷◌}
use mathlib.Core.Option.{some}
use native.Mathlib.Omega.{arith}
use faultlab.Prelude.Tests.{ltb, ◌=ℕ=◌, if◌then◌else◌, Bool-cases}
use faultlab.Prelude.Text.{◌==◌}
use faultlab.Prelude.Integer.{ℤ, pos, negsuc}
use faultlab.Prelude.GoStrings.Words.{is_solid, is_solid-append, IsWord}
use faultlab.Prelude.GoStrings.{
  is_space, is_digit, digits_from, unsigned, positive, negative, atoi, scan_digits, magnitude,
  positive_value, negative_value, atoi_value, digit, decimal_from, decimal, print_int, push_word,
  split_on,
}

-- The text does not hold the character.
abbrev pub lacks : ℕ → String → Bool
lacks k String.[] = true
lacks k (String.◌∷◌ c s) = not (code c =ℕ= k) && lacks k s

pub split_on-lacks : (k : ℕ) (s : String) → lacks k s ≡ true → split_on k s ≡ s ∷ []
unfolding split_on push_word
split_on-lacks k String.[] h = refl
split_on-lacks k (String.◌∷◌ c s) h = ground (arith, split_on-lacks k s)

pub split_on-append :
    (k : ℕ) (s : String) (c : Char) (t : String)
    → lacks k s ≡ true
    → (code c =ℕ= k) ≡ true
    → split_on k (s ++ String.◌∷◌ c t) ≡ s ∷ split_on k t
unfolding split_on push_word
split_on-append k String.[] c t h e = rw (append.nil (String.◌∷◌ c t)) (ground arith)
split_on-append k (String.◌∷◌ d s) c t h e =
    rw (append.cons d s (String.◌∷◌ c t)) (ground (arith, split_on-append k s c t))

scan_digits-digit :
    (n d : ℕ) → d < 10 → n * 10 + d < 2 ^ 64 → scan_digits n (digit d) ≡ some (n * 10 + d)
unfolding scan_digits digit is_digit
scan_digits-digit n zero h b = ground arith
scan_digits-digit n (suc zero) h b = ground arith
scan_digits-digit n (suc (suc zero)) h b = ground arith
scan_digits-digit n (suc (suc (suc zero))) h b = ground arith
scan_digits-digit n (suc (suc (suc (suc zero)))) h b = ground arith
scan_digits-digit n (suc (suc (suc (suc (suc zero))))) h b = ground arith
scan_digits-digit n (suc (suc (suc (suc (suc (suc zero)))))) h b = ground arith
scan_digits-digit n (suc (suc (suc (suc (suc (suc (suc zero))))))) h b = ground arith
scan_digits-digit n (suc (suc (suc (suc (suc (suc (suc (suc zero)))))))) h b = ground arith
scan_digits-digit n (suc (suc (suc (suc (suc (suc (suc (suc (suc zero))))))))) h b = ground arith
scan_digits-digit n (suc (suc (suc (suc (suc (suc (suc (suc (suc (suc d)))))))))) h b =
    absurd (omega arith)

scan_digits-append :
    (n v d : ℕ) (s : String)
    → scan_digits n s ≡ some v
    → d < 10
    → v * 10 + d < 2 ^ 64
    → scan_digits n (s ++ digit d) ≡ some (v * 10 + d)
unfolding scan_digits
scan_digits-append n v d String.[] e h b =
    rw (append.nil (digit d)) (ground (arith, scan_digits-digit n d))
scan_digits-append n v d (String.◌∷◌ c s) e h b =
    rw (append.cons c s (digit d))
      (ground (arith, scan_digits-append (n * 10 + (code c - b'0')) v d s))

scan_digits-decimal_from :
    (fuel n : ℕ) → n < fuel → n < 2 ^ 64 → scan_digits 0 (decimal_from fuel n) ≡ some n
unfolding decimal_from
scan_digits-decimal_from zero n h b = absurd (omega arith)
scan_digits-decimal_from (suc fuel) n h b = elim (Bool-cases (ltb n 10)) [
  | inl e ↦ rw e (ground (arith, scan_digits-digit 0 n))
  | inr e ↦ rw e (
      ground (
        arith,
        scan_digits-append 0 (n / 10) (n % 10) (decimal_from fuel (n / 10)),
        scan_digits-decimal_from fuel (n / 10),
      ))
]

-- The text starts with a digit.
abbrev starts : String → Bool
starts String.[] = false
starts (String.◌∷◌ c s) = is_digit (code c)

if_either : (P : String → Type 0) (b : Bool) (s t : String) → P s → P t → P (if b then s else t)
if_either P true s t p q = p
if_either P false s t p q = q

-- What holds of the ten digits.
digit-either :
    (P : String → Type 0) (d : ℕ)
    → P "0" × P "1" × P "2" × P "3" × P "4" × P "5" × P "6" × P "7" × P "8" × P "9"
    → P (digit d)
unfolding digit
digit-either P d (p0, p1, p2, p3, p4, p5, p6, p7, p8, p9) = if_either P _ _ _ p0 (
    if_either P _ _ _ p1 (
      if_either P _ _ _ p2 (
        if_either P _ _ _ p3 (
          if_either P _ _ _ p4 (
            if_either P _ _ _ p5
              (if_either P _ _ _ p6 (if_either P _ _ _ p7 (if_either P _ _ _ p8 (p9)))))))))

starts-digit : (d : ℕ) → starts (digit d) ≡ true
unfolding is_digit
starts-digit d =
    digit-either (λ s. starts s ≡ true) d
      (refl, refl, refl, refl, refl, refl, refl, refl, refl, refl)

starts-append : (s t : String) → starts s ≡ true → starts (s ++ t) ≡ true
starts-append String.[] t h = absurd (cc)
starts-append (String.◌∷◌ c s) t h = rw (append.cons c s t) h

starts-decimal_from : (fuel n : ℕ) → n < fuel → starts (decimal_from fuel n) ≡ true
unfolding decimal_from
starts-decimal_from zero n h = absurd (omega arith)
starts-decimal_from (suc fuel) n h = elim (Bool-cases (ltb n 10)) [
  | inl e ↦ rw e (starts-digit n)
  | inr e ↦ rw e (
      starts-append (decimal_from fuel (n / 10)) (digit (n % 10))
        (starts-decimal_from fuel (n / 10) (ground arith)))
]

starts-filled : (s : String) → starts s ≡ true → (s == "") ≡ false
starts-filled String.[] h = absurd (cc)
starts-filled (String.◌∷◌ c s) h = rw (compare.cons-nil c s) refl

-- ParseUint reads back what %d printed.
pub magnitude-decimal : (n : ℕ) → n < 2 ^ 64 → magnitude (decimal n) ≡ n
unfolding magnitude decimal
magnitude-decimal n b = ground (
  arith,
  scan_digits-decimal_from (n + 1) n,
  starts-filled (decimal_from (n + 1) n),
  starts-decimal_from (n + 1) n,
)

atoi_value-unsigned : (s : String) → starts s ≡ true → atoi_value s ≡ positive_value (magnitude s)
unfolding atoi_value is_digit
atoi_value-unsigned String.[] h = absurd (cc)
atoi_value-unsigned (String.◌∷◌ c s) h = ground arith

starts-decimal : (n : ℕ) → starts (decimal n) ≡ true
unfolding decimal
starts-decimal n = starts-decimal_from (n + 1) n (omega arith)

atoi_value-minus : (s : String) → atoi_value ("-" ++ s) ≡ negative_value (magnitude s)
unfolding atoi_value
atoi_value-minus s = rw (append.cons _ _ s) (rw (append.nil s) refl)

negative_value-suc : (n m : ℕ) → m ≡ suc n → n < 2 ^ 63 → negative_value m ≡ negsuc n
unfolding negative_value
negative_value-suc n m e h = rw e (ground arith)

-- The value is an int64.
abbrev pub IsInt64 : ℤ → Type 0
IsInt64 (pos n) = n < 2 ^ 63
IsInt64 (negsuc n) = n < 2 ^ 63

-- ParseInt reads back what %d printed.
pub atoi_value-print_int : (v : ℤ) → IsInt64 v → atoi_value (print_int v) ≡ v
unfolding print_int positive_value
atoi_value-print_int (pos n) h =
    ground (arith, atoi_value-unsigned (decimal n), starts-decimal n, magnitude-decimal n)
atoi_value-print_int (negsuc n) h =
    atoi_value-minus (decimal (n + 1))
    ∙ (ap negative_value (magnitude-decimal (n + 1) (omega arith))
        ∙ negative_value-suc n (n + 1) (omega arith) h)

lacks-digit : (k d : ℕ) → is_digit k ≡ false → lacks k (digit d) ≡ true
unfolding is_digit
lacks-digit k d h =
    digit-either (λ s. lacks k s ≡ true) d
      (
        ground arith,
        ground arith,
        ground arith,
        ground arith,
        ground arith,
        ground arith,
        ground arith,
        ground arith,
        ground arith,
        ground arith,
      )

pub lacks-append : (k : ℕ) (s t : String) → lacks k (s ++ t) ≡ (lacks k s && lacks k t)
lacks-append k String.[] t = rw (append.nil t)
lacks-append k (String.◌∷◌ c s) t = rw (append.cons c s t) (ground (arith, lacks-append k s t))

lacks-decimal_from : (k fuel n : ℕ) → is_digit k ≡ false → lacks k (decimal_from fuel n) ≡ true
unfolding decimal_from
lacks-decimal_from k zero n h = refl
lacks-decimal_from k (suc fuel) n h = ground (
  arith,
  lacks-digit k n,
  lacks-digit k (n % 10),
  lacks-append k (decimal_from fuel (n / 10)) (digit (n % 10)),
  lacks-decimal_from k fuel (n / 10),
)

pub lacks-print_int :
    (k : ℕ) (v : ℤ) → is_digit k ≡ false → lacks k "-" ≡ true → lacks k (print_int v) ≡ true
unfolding print_int decimal
lacks-print_int k (pos n) h minus = lacks-decimal_from k (n + 1) n h
lacks-print_int k (negsuc n) h minus = ground (
  arith,
  minus,
  lacks-append k "-" (decimal_from (n + 1 + 1) (n + 1)),
  lacks-decimal_from k (n + 1 + 1) (n + 1) h,
)

pub lacks-decimal : (k n : ℕ) → is_digit k ≡ false → lacks k (decimal n) ≡ true
unfolding decimal
lacks-decimal k n h = lacks-decimal_from k (n + 1) n h

digits_from-digit : (n d : ℕ) → d < 10 → digits_from n (digit d) ≡ some (n * 10 + d)
unfolding digits_from digit is_digit
digits_from-digit n zero h = ground arith
digits_from-digit n (suc zero) h = ground arith
digits_from-digit n (suc (suc zero)) h = ground arith
digits_from-digit n (suc (suc (suc zero))) h = ground arith
digits_from-digit n (suc (suc (suc (suc zero)))) h = ground arith
digits_from-digit n (suc (suc (suc (suc (suc zero))))) h = ground arith
digits_from-digit n (suc (suc (suc (suc (suc (suc zero)))))) h = ground arith
digits_from-digit n (suc (suc (suc (suc (suc (suc (suc zero))))))) h = ground arith
digits_from-digit n (suc (suc (suc (suc (suc (suc (suc (suc zero)))))))) h = ground arith
digits_from-digit n (suc (suc (suc (suc (suc (suc (suc (suc (suc zero))))))))) h = ground arith
digits_from-digit n (suc (suc (suc (suc (suc (suc (suc (suc (suc (suc d)))))))))) h =
    absurd (omega arith)

digits_from-append :
    (n v d : ℕ) (s : String)
    → digits_from n s ≡ some v
    → d < 10
    → digits_from n (s ++ digit d) ≡ some (v * 10 + d)
unfolding digits_from
digits_from-append n v d String.[] e h =
    rw (append.nil (digit d)) (ground (arith, digits_from-digit n d))
digits_from-append n v d (String.◌∷◌ c s) e h =
    rw (append.cons c s (digit d))
      (ground (arith, digits_from-append (n * 10 + (code c - b'0')) v d s))

digits_from-decimal_from : (fuel n : ℕ) → n < fuel → digits_from 0 (decimal_from fuel n) ≡ some n
unfolding decimal_from
digits_from-decimal_from zero n h = absurd (omega arith)
digits_from-decimal_from (suc fuel) n h = elim (Bool-cases (ltb n 10)) [
  | inl e ↦ rw e (ground (arith, digits_from-digit 0 n))
  | inr e ↦ rw e (
      ground (
        arith,
        digits_from-append 0 (n / 10) (n % 10) (decimal_from fuel (n / 10)),
        digits_from-decimal_from fuel (n / 10),
      ))
]

pub filled-decimal : (n : ℕ) → (decimal n == "") ≡ false
filled-decimal n = starts-filled (decimal n) (starts-decimal n)

digits_from-decimal : (n : ℕ) → digits_from 0 (decimal n) ≡ some n
unfolding decimal
digits_from-decimal n = digits_from-decimal_from (n + 1) n (omega arith)

unsigned-decimal : (n : ℕ) → unsigned (decimal n) ≡ some n
unfolding unsigned
unsigned-decimal n = ground (arith, filled-decimal n, digits_from-decimal n)

atoi-unsigned : (s : String) → starts s ≡ true → atoi s ≡ positive (unsigned s)
unfolding atoi is_digit
atoi-unsigned String.[] h = absurd (cc)
atoi-unsigned (String.◌∷◌ c s) h = ground arith

atoi-minus : (s : String) → atoi ("-" ++ s) ≡ negative (unsigned s)
unfolding atoi
atoi-minus s = rw (append.cons _ _ s) (rw (append.nil s) refl)

negative-suc : (n m : ℕ) → m ≡ suc n → n < 2 ^ 63 → negative (some m) ≡ some (negsuc n)
unfolding negative
negative-suc n m e h = rw e (ground arith)

-- Atoi reads back what %d printed.
pub atoi-print_int : (v : ℤ) → IsInt64 v → atoi (print_int v) ≡ some v
unfolding print_int positive
atoi-print_int (pos n) h =
    ground (arith, atoi-unsigned (decimal n), starts-decimal n, unsigned-decimal n)
atoi-print_int (negsuc n) h =
    atoi-minus (decimal (n + 1))
    ∙ (ap negative (unsigned-decimal (n + 1)) ∙ negative-suc n (n + 1) (omega arith) h)

is_solid-digit : (d : ℕ) → is_solid (digit d) ≡ true
unfolding is_solid is_space
is_solid-digit d =
    digit-either (λ s. is_solid s ≡ true) d
      (refl, refl, refl, refl, refl, refl, refl, refl, refl, refl)

is_solid-decimal_from : (fuel n : ℕ) → is_solid (decimal_from fuel n) ≡ true
unfolding decimal_from
is_solid-decimal_from zero n = unfold is_solid in refl
is_solid-decimal_from (suc fuel) n = ground (
  arith,
  is_solid-digit n,
  is_solid-digit (n % 10),
  is_solid-append (decimal_from fuel (n / 10)) (digit (n % 10)),
  is_solid-decimal_from fuel (n / 10),
)

is_solid-decimal : (n : ℕ) → is_solid (decimal n) ≡ true
unfolding decimal
is_solid-decimal n = is_solid-decimal_from (n + 1) n

filled-minus : (s : String) → (("-" ++ s) == "") ≡ false
filled-minus s = rw (append.cons _ _ s) (compare_filled (String.[] ++ s))
  where
    compare_filled : (t : String) → (String.◌∷◌ "-" t == "") ≡ false
    compare_filled t = rw (compare.cons-nil _ t) refl

is_solid-minus : (s : String) → is_solid s ≡ true → is_solid ("-" ++ s) ≡ true
is_solid-minus s h = is_solid-append "-" s ∙ (unfold is_solid is_space in h)

-- A printed number is one word.
pub print_int-IsWord : (v : ℤ) → IsWord (print_int v)
unfolding print_int
print_int-IsWord (pos n) = (is_solid-decimal n, filled-decimal n)
print_int-IsWord (negsuc n) =
    (is_solid-minus (decimal (n + 1)) (is_solid-decimal (n + 1)), filled-minus (decimal (n + 1)))
