-- ===== src/Quota/Amount/Decimal.antt =====
-- The decimal text of an amount, read back.
use lottery.Prelude.{
  Bool, Option, none, some, not, ℕ, ◌+◌, ◌-◌, ◌*◌, ◌/◌, ◌%◌, ◌^◌, ◌≤◌, ◌<◌, ◌≡◌, refl, ap, ◌∙◌, inl,
  inr, true, false, ◌&&◌, ◌||◌, [], ◌∷◌, ◌++◌, arith, ◌==◌, if◌then◌else◌, Bool-cases,
}
use lottery.Prelude.Text.{Text, is_empty, text_eq}
use lottery.Prelude.Numeral.{all_digits, digits_value, print_number, fixed_digits}
use lottery.Prelude.Numeral.RoundTrip.{
  print_number-read, print_number-all_digits, print_number-given, fixed_digits-all_digits,
}
use lottery.Quota.Amount.{
  Rat, magnitude, is_negative, scaled, sign_of, float_string, trim_right_of, exact_decimal,
}

abbrev pub before_point : Text → Text
before_point [] = []
before_point (c ∷ s) = if c == b'.' then [] else c ∷ before_point s

abbrev pub after_point : Text → Text
after_point [] = []
after_point (c ∷ s) = if c == b'.' then s else after_point s

-- The digits of a fraction, the first of which counts `weight`.
abbrev pub fraction_value : ℕ → Text → ℕ
fraction_value weight [] = 0
fraction_value weight (c ∷ s) = (c - b'0') * weight + fraction_value (weight / 10) s

-- A decimal number in units of 10^-12, read independently of how it is printed.
abbrev pub read_decimal : Text → ℕ
read_decimal s =
    digits_value 0 (before_point s) * 10 ^ 12 + fraction_value (10 ^ 11) (after_point s)

-- One digit or more, and perhaps a point with digits behind it.
abbrev pub is_decimal : Text → Bool
is_decimal s =
    not (is_empty (before_point s)) && all_digits (before_point s) && all_digits (after_point s)

-- The size of a decimal number.
abbrev pub read_size : Text → Option ℕ
read_size s = if is_decimal s then some (read_decimal s) else none

abbrev pub signed_size : Bool → Option ℕ → Option (Bool × ℕ)
signed_size negative none = none
signed_size negative (some n) = some (negative, n)

-- A decimal number that may have a minus sign: whether it has, and its size.
abbrev pub read_signed : Text → Option (Bool × ℕ)
read_signed [] = none
read_signed (c ∷ s) =
    if c == b'-' then signed_size true (read_size s) else signed_size false (read_size (c ∷ s))

pub before_point-append : (s f : Text) → all_digits s ≡ true → before_point (s ++ b'.' ∷ f) ≡ s
unfolding all_digits
before_point-append [] f h = refl
before_point-append (c ∷ s) f h = ground (arith, before_point-append s f)

pub after_point-append : (s f : Text) → all_digits s ≡ true → after_point (s ++ b'.' ∷ f) ≡ f
unfolding all_digits
after_point-append [] f h = refl
after_point-append (c ∷ s) f h = ground (arith, after_point-append s f)

before_point-digits : (s : Text) → all_digits s ≡ true → before_point s ≡ s
unfolding all_digits
before_point-digits [] h = refl
before_point-digits (c ∷ s) h = ground (arith, before_point-digits s)

after_point-digits : (s : Text) → all_digits s ≡ true → after_point s ≡ []
unfolding all_digits
after_point-digits [] h = refl
after_point-digits (c ∷ s) h = ground (arith, after_point-digits s)

trim_point-digits : (s : Text) → all_digits s ≡ true → trim_right_of b'.' s ≡ s
unfolding all_digits trim_right_of
trim_point-digits [] h = refl
trim_point-digits (c ∷ s) h = ground (arith, trim_point-digits s)

trim_right_of-digits : (s : Text) → all_digits s ≡ true → all_digits (trim_right_of b'0' s) ≡ true
unfolding all_digits trim_right_of
trim_right_of-digits [] h = refl
trim_right_of-digits (c ∷ s) h = ground (arith, trim_right_of-digits s)

-- A zero before nothing counts nothing.
fraction_value-drop :
    (weight c : ℕ) (f rest : Text)
    → fraction_value (weight / 10) rest ≡ fraction_value (weight / 10) f
    → fraction_value weight (if c == b'0' && is_empty rest then [] else c ∷ rest)
      ≡ fraction_value weight (c ∷ f)
fraction_value-drop weight c f [] h = elim (Bool-cases (c == b'0')) [
  | inl q ↦ let zero_digit : c - 48 ≡ 0 = ground arith in rw q (rw zero_digit (omega (arith, h)))
  | inr q ↦ rw q (omega (arith, h))
]
fraction_value-drop weight c f (d ∷ rest) h = ground arith

-- Trailing zeros of a fraction count nothing.
fraction_value-trim :
    (weight : ℕ) (f : Text) → fraction_value weight (trim_right_of b'0' f) ≡ fraction_value weight f
unfolding trim_right_of
fraction_value-trim weight [] = refl
fraction_value-trim weight (c ∷ f) =
    fraction_value-drop weight c f (trim_right_of b'0' f) (fraction_value-trim (weight / 10) f)

digit_back : (d : ℕ) → (48 + d) - 48 ≡ d
digit_back d = omega arith

fraction_value-fixed : (n : ℕ) → n < 10 ^ 12 → fraction_value (10 ^ 11) (fixed_digits 12 n) ≡ n
unfolding fixed_digits
fraction_value-fixed n h = simp digit_back (omega arith)

append-given : (s t : Text) → is_empty t ≡ false → is_empty (s ++ t) ≡ false
append-given [] t h = h
append-given (c ∷ s) t h = refl

-- What lies behind a rest that is not trimmed away stays.
trim_right_of-append :
    (d : ℕ) (s t : Text)
    → is_empty (trim_right_of d t) ≡ false
    → trim_right_of d (s ++ t) ≡ s ++ trim_right_of d t
unfolding trim_right_of
trim_right_of-append d [] t h = refl
trim_right_of-append d (c ∷ s) t h =
    rw (trim_right_of-append d s t h) (rw (append-given s (trim_right_of d t) h) (ground arith))

trim_right_of-empty :
    (d : ℕ) (s t : Text) → trim_right_of d t ≡ [] → trim_right_of d (s ++ t) ≡ trim_right_of d s
unfolding trim_right_of
trim_right_of-empty d [] t h = h
trim_right_of-empty d (c ∷ s) t h = rw (trim_right_of-empty d s t h) refl

-- The text without its trailing zeros, and without the point if no digit follows it.
trimmed : (s f : Text) → Text
trimmed s f = if is_empty f then s else s ++ b'.' ∷ f

trim_point-trimmed :
    (s g : Text)
    → all_digits s ≡ true
    → all_digits g ≡ true
    → trim_right_of b'.' (s ++ b'.' ∷ g) ≡ trimmed s g
unfolding trimmed trim_right_of
trim_point-trimmed s [] hs hg = trim_right_of-empty b'.' s (b'.' ∷ []) refl ∙ trim_point-digits s hs
trim_point-trimmed s (c ∷ g) hs hg =
    let whole = trim_point-digits (c ∷ g) hg in
    let kept : trim_right_of b'.' (b'.' ∷ c ∷ g) ≡ b'.' ∷ c ∷ g = ground arith in
    trim_right_of-append b'.' s (b'.' ∷ c ∷ g) (rw kept refl) ∙ ap (λ t. s ++ t) kept

trim-trimmed :
    (s f : Text)
    → all_digits s ≡ true
    → all_digits f ≡ true
    → trim_right_of b'.' (trim_right_of b'0' (s ++ b'.' ∷ f)) ≡ trimmed s (trim_right_of b'0' f)
unfolding trim_right_of
trim-trimmed s f hs hf =
    ap (trim_right_of b'.') (trim_right_of-append b'0' s (b'.' ∷ f) refl)
    ∙ trim_point-trimmed s (trim_right_of b'0' f) hs (trim_right_of-digits f hf)

trimmed-given : (s f : Text) → is_empty s ≡ false → is_empty (trimmed s f) ≡ false
unfolding trimmed
trimmed-given s [] h = h
trimmed-given [] (d ∷ f) h = refl
trimmed-given (c ∷ s) (d ∷ f) h = refl

-- What is left of the text of a number with its sign, without trailing zeros and a last point.
trim-signed :
    (negative : Bool) (s f : Text)
    → all_digits s ≡ true
    → is_empty s ≡ false
    → all_digits f ≡ true
    → trim_right_of b'.' (trim_right_of b'0' (sign_of negative ++ (s ++ b'.' ∷ f)))
      ≡ sign_of negative ++ trimmed s (trim_right_of b'0' f)
unfolding trim_right_of
trim-signed negative s f hs given hf =
    let g = trim_right_of b'0' f in
    let zeros = trim_right_of-append b'0' s (b'.' ∷ f) refl in
    let point = trim-trimmed s f hs hf in
    ap (trim_right_of b'.') (
      trim_right_of-append b'0' (sign_of negative) (s ++ b'.' ∷ f)
        (ap is_empty zeros ∙ append-given s (b'.' ∷ g) refl))
    ∙ trim_right_of-append b'.' (sign_of negative) (trim_right_of b'0' (s ++ b'.' ∷ f))
        (ap is_empty point ∙ trimmed-given s g given)
    ∙ ap (λ u. sign_of negative ++ u) point

-- Neither no text nor a bare sign, which exactDecimal replaces.
signed-given :
    (negative : Bool) (t : Text)
    → all_digits (before_point t) ≡ true
    → is_empty t ≡ false
    → (is_empty (sign_of negative ++ t) || text_eq (sign_of negative ++ t) (b'-' ∷ [])) ≡ false
unfolding text_eq all_digits
signed-given true [] d h = absurd (ground arith)
signed-given true (c ∷ t) d h = refl
signed-given false [] d h = absurd (ground arith)
signed-given false (c ∷ t) d h = ground arith

before_point-trimmed : (s f : Text) → all_digits s ≡ true → before_point (trimmed s f) ≡ s
unfolding trimmed
before_point-trimmed s [] h = before_point-digits s h
before_point-trimmed s (c ∷ f) h = before_point-append s (c ∷ f) h

after_point-trimmed : (s f : Text) → all_digits s ≡ true → after_point (trimmed s f) ≡ f
unfolding trimmed
after_point-trimmed s [] h = after_point-digits s h
after_point-trimmed s (c ∷ f) h = after_point-append s (c ∷ f) h

read_size-trimmed :
    (s f : Text) (q r : ℕ)
    → all_digits s ≡ true
    → is_empty s ≡ false
    → all_digits f ≡ true
    → digits_value 0 s ≡ q
    → fraction_value (10 ^ 11) f ≡ r
    → read_size (trimmed s (trim_right_of b'0' f)) ≡ some (q * 10 ^ 12 + r)
read_size-trimmed s f q r hs given hf hq hr =
    let g = trim_right_of b'0' f in
    let value : fraction_value (10 ^ 11) g ≡ r = fraction_value-trim (10 ^ 11) f ∙ hr in
    rw (before_point-trimmed s g hs, after_point-trimmed s g hs)
      (rw (given, hs, trim_right_of-digits f hf, hq, value) refl)

read_signed-sign :
    (negative : Bool) (t : Text) (n : ℕ)
    → read_size t ≡ some n
    → read_signed (sign_of negative ++ t) ≡ some (negative, n)
unfolding all_digits
read_signed-sign true t n h = rw h refl
read_signed-sign false [] n h = absurd (ground arith)
read_signed-sign false (c ∷ t) n h = elim (Bool-cases (c == b'-')) [
  | inl q ↦ absurd (ground arith)
  | inr q ↦ rw q (rw h refl)
]

exact_decimal-signed :
    (x : Rat) → read_signed (exact_decimal x) ≡ some (is_negative x, scaled (magnitude x) x.den)
unfolding exact_decimal float_string
exact_decimal-signed x =
    let v = scaled (magnitude x) x.den in
    let s = print_number (v / 10 ^ 12) in
    let f = fixed_digits 12 (v % 10 ^ 12) in
    let t = trimmed s (trim_right_of b'0' f) in
    let hs = print_number-all_digits (v / 10 ^ 12) in
    let given = print_number-given (v / 10 ^ 12) in
    let hf = fixed_digits-all_digits 12 (v % 10 ^ 12) in
    let digits : all_digits (before_point t) ≡ true =
      ap all_digits (before_point-trimmed s (trim_right_of b'0' f) hs) ∙ hs in
    let size =
      read_size-trimmed s f (v / 10 ^ 12) (v % 10 ^ 12) hs given hf
        (print_number-read (v / 10 ^ 12)) (fraction_value-fixed (v % 10 ^ 12) (omega arith)) in
    let whole : v / 10 ^ 12 * 10 ^ 12 + v % 10 ^ 12 ≡ v = omega arith in
    rw (trim-signed (is_negative x) s f hs given hf) (
      rw (signed-given (is_negative x) t digits (trimmed-given s (trim_right_of b'0' f) given))
        (read_signed-sign (is_negative x) t v (size ∙ ap some whole)))

scaled_near :
    (n den : ℕ)
    → 0 < den
    → (2 * scaled n den * den ≤ 2 * (n * 10 ^ 12) + den)
      × (2 * (n * 10 ^ 12) < 2 * scaled n den * den + den)
unfolding scaled
scaled_near n den h = grind arith

-- The exact decimal text of an amount is a decimal number, with a minus sign if and only if the
-- amount is negative. Read back, its size is the multiple of 10^-12 nearest to the size of the
-- amount: at most half a unit above it, and less than half below.
pub exact_decimal-read :
    (x : Rat)
    → 0 < x.den
    → (v : ℕ) × (read_signed (exact_decimal x) ≡ some (is_negative x, v))
      × (2 * v * x.den ≤ 2 * (magnitude x * 10 ^ 12) + x.den)
      × (2 * (magnitude x * 10 ^ 12) < 2 * v * x.den + x.den)
exact_decimal-read x h =
    let near = scaled_near (magnitude x) x.den h in
    (scaled (magnitude x) x.den, exact_decimal-signed x, near.0, near.1)
