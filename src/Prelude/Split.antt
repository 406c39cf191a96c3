-- ===== src/Prelude/Split.antt =====
-- Texts cut at a byte (strings.Split), and decimal numbers (strconv.Itoa and strconv.Atoi).
use Prim.Native.Nat.{ℕ, zero, suc, ◌+◌, ◌-◌, ◌*◌, ◌/◌, ◌%◌, ◌^◌, ◌≤◌, ◌<◌}
use mathlib.Core.Path.{◌≡◌, refl, sym, ap, ◌∙◌}
use mathlib.Core.Logic.{inl, inr}
use mathlib.Core.Bool.{Bool, true, false, ◌&&◌, ◌||◌}
use mathlib.Core.List.{List, [], ◌∷◌, ◌++◌}
use mathlib.Core.Option.{Option, none, some}
use native.Mathlib.Omega.{arith}
use blue.Prelude.Tests.{leb, ◌==◌, if◌then◌else◌, Bool-cases}
use blue.Prelude.Int.{ℤ, pos, neg_ℕ}
use blue.Prelude.Bytes.{Text, text_eq}
use blue.Prelude.Lists.{length}

abbrev pub is_digit : ℕ → Bool
is_digit c = leb 48 c && leb c 57

-- The decimal digits of a number, none for 0.
unfoldable pub decimal : ℕ → ℕ → Text
decimal zero n = []
decimal (suc fuel) n =
    let front = decimal fuel (n / 10) in if n == 0 then [] else front ++ (48 + n % 10) ∷ []

-- strconv.Itoa, of a number that is not negative
unfoldable pub itoa : ℕ → Text
itoa n = if n == 0 then 48 ∷ [] else decimal n n

-- The value of digits, after those read so far.
unfoldable pub digits_value : ℕ → Text → Option ℕ
digits_value a [] = some a
digits_value a (c ∷ s) =
    let rest = digits_value (a * 10 + (c - 48)) s in if is_digit c then rest else none

abbrev pub in_range : (ℕ → ℤ) → ℕ → Option ℕ → Option ℤ
in_range sign max none = none
in_range sign max (some v) = if leb v max then some (sign v) else none

abbrev pub magnitude : Text → Option ℕ
magnitude [] = none
magnitude (c ∷ s) = digits_value 0 (c ∷ s)

-- strconv.Atoi, on 64 bits
unfoldable pub atoi : Text → Option ℤ
atoi [] = none
atoi (c ∷ s) =
    if c == b'-'
    then in_range neg_ℕ (2 ^ 63) (magnitude s)
    else if c == b'+'
    then in_range pos (2 ^ 63 - 1) (magnitude s)
    else in_range pos (2 ^ 63 - 1) (magnitude (c ∷ s))

abbrev pub has_byte : ℕ → Text → Bool
has_byte b [] = false
has_byte b (c ∷ s) = (c == b) || has_byte b s

-- A byte put before the first part.
abbrev pub grow_first : ℕ → List Text → List Text
grow_first c [] = (c ∷ []) ∷ []
grow_first c (s ∷ parts) = (c ∷ s) ∷ parts

-- strings.Split, at one byte
unfoldable pub split : ℕ → Text → List Text
split b [] = [] ∷ []
split b (c ∷ s) = let rest = split b s in if c == b then [] ∷ rest else grow_first c rest

pub split-append :
    (b : ℕ) (s t : Text) → has_byte b s ≡ false → split b (s ++ b ∷ t) ≡ s ∷ split b t
unfolding split
split-append b [] t h = ground arith
split-append b (c ∷ s) t h = rw (split-append b s t (ground (arith, h))) (ground (arith, h))

pub split-whole : (b : ℕ) (s : Text) → has_byte b s ≡ false → split b s ≡ s ∷ []
unfolding split
split-whole b [] h = refl
split-whole b (c ∷ s) h = rw (split-whole b s (ground (arith, h))) (ground (arith, h))

length-grow_first : (c : ℕ) (ps : List Text) → 1 ≤ length ps → length (grow_first c ps) ≡ length ps
length-grow_first c [] h = ground arith
length-grow_first c (s ∷ ps) h = refl

eq_true : (b : ℕ) → (b == b) ≡ true
eq_true b = ground arith

split-positive : (b : ℕ) (s : Text) → 1 ≤ length (split b s)
unfolding split
split-positive b [] = ground arith
split-positive b (c ∷ s) = elim (Bool-cases (c == b)) [
  | inl e ↦ rw e (ground arith)
  | inr e ↦ rw (e, length-grow_first c (split b s) (split-positive b s)) (split-positive b s)
]

split-two : (b : ℕ) (s t : Text) → 2 ≤ length (split b (s ++ b ∷ t))
unfolding split
split-two b [] t = rw (eq_true b) (omega (arith, split-positive b t))
split-two b (c ∷ s) t = elim (Bool-cases (c == b)) [
  | inl e ↦ rw e (omega (arith, split-positive b (s ++ b ∷ t)))
  | inr e ↦
      rw (e, length-grow_first c (split b (s ++ b ∷ t)) (split-positive b (s ++ b ∷ t)))
        (split-two b s t)
]

-- A text with the byte before another of them falls into three parts or more.
pub split-long : (b : ℕ) (s t : Text) → has_byte b s ≡ true → 3 ≤ length (split b (s ++ b ∷ t))
unfolding split
split-long b [] t h = absurd (cc h)
split-long b (c ∷ s) t h = elim (Bool-cases (c == b)) [
  | inl e ↦ rw e (omega (arith, split-two b s t))
  | inr e ↦
      rw (e, length-grow_first c (split b (s ++ b ∷ t)) (split-positive b (s ++ b ∷ t)))
        (split-long b s t (ground (arith, h, e)))
]

digits_value-snoc :
    (s : Text) (a c : ℕ) {v : ℕ}
    → digits_value a s ≡ some v
    → is_digit c ≡ true
    → digits_value a (s ++ c ∷ []) ≡ some (v * 10 + (c - 48))
unfolding digits_value
digits_value-snoc [] a c h d = rw d (ap (λ (n : ℕ). some (n * 10 + (c - 48))) (cc h))
digits_value-snoc (e ∷ s) a c h d = elim (Bool-cases (is_digit e)) [
  | inl g ↦ rw g (digits_value-snoc s (a * 10 + (e - 48)) c (ground (arith, g, h)) d)
  | inr g ↦ absurd (ground (arith, g, h))
]

digits_value-decimal : (fuel n : ℕ) → n ≤ fuel → digits_value 0 (decimal fuel n) ≡ some n
unfolding digits_value decimal
digits_value-decimal zero n h = ground arith
digits_value-decimal (suc fuel) n h = elim (Bool-cases (n == 0)) [
  | inl z ↦ rw z (ground arith)
  | inr z ↦ rw z (
      digits_value-snoc (decimal fuel (n / 10)) 0 (48 + n % 10)
        (digits_value-decimal fuel (n / 10) (omega (arith, h))) (ground arith)
      ∙ ap some (omega arith))
]

decimal-zero : (fuel n : ℕ) → (n == 0) ≡ true → decimal fuel n ≡ []
unfolding decimal
decimal-zero zero n z = refl
decimal-zero (suc fuel) n z = rw z refl

-- The digits of a number begin with a digit.
decimal-starts :
    (fuel n : ℕ)
    → n ≤ fuel
    → (n == 0) ≡ false
    → (c : ℕ) × (s : Text) × (decimal fuel n ≡ c ∷ s) × (is_digit c ≡ true)
unfolding decimal
decimal-starts zero n h z = absurd (ground (arith, h, z))
decimal-starts (suc fuel) n h z = elim (Bool-cases (n / 10 == 0)) [
  | inl e ↦ (48 + n % 10, [], rw (z, decimal-zero fuel (n / 10) e) refl, ground arith)
  | inr e ↦
      let (c, s, g, d) = decimal-starts fuel (n / 10) (omega (arith, h)) e in
      (c, s ++ (48 + n % 10) ∷ [], rw (z, g) refl, d)
]

atoi-digits :
    (c : ℕ) (s : Text) {v : ℕ}
    → is_digit c ≡ true
    → digits_value 0 (c ∷ s) ≡ some v
    → v < 2 ^ 63
    → atoi (c ∷ s) ≡ some (pos v)
unfolding atoi
atoi-digits c s {v} d e h =
    let minus : (c == 45) ≡ false = ground (arith, d) in
    let plus : (c == 43) ≡ false = ground (arith, d) in
    let fits : leb v (2 ^ 63 - 1) ≡ true = ground (arith, h) in rw (minus, plus, e, fits) refl

-- Printing a number that fits in an int and reading it back.
pub atoi-itoa : (n : ℕ) → n < 2 ^ 63 → atoi (itoa n) ≡ some (pos n)
unfolding itoa atoi digits_value
atoi-itoa n h = elim (Bool-cases (n == 0)) [
  | inl z ↦ rw z (ap (λ k. some (pos k)) (ground (arith, z)))
  | inr z ↦
      let (c, s, e, d) = decimal-starts n n (omega arith) z in
      let v = digits_value-decimal n n (omega arith) in
      rw z (ap atoi e ∙ atoi-digits c s d (ap (digits_value 0) (sym e) ∙ v) h)
]

has_byte-snoc :
    (b : ℕ) (s : Text) (c : ℕ)
    → has_byte b s ≡ false
    → (c == b) ≡ false
    → has_byte b (s ++ c ∷ []) ≡ false
has_byte-snoc b [] c h d = rw d refl
has_byte-snoc b (e ∷ s) c h d = rw (has_byte-snoc b s c (ground (arith, h)) d) (ground (arith, h))

has_byte-decimal : (b fuel n : ℕ) → is_digit b ≡ false → has_byte b (decimal fuel n) ≡ false
unfolding decimal
has_byte-decimal b zero n h = refl
has_byte-decimal b (suc fuel) n h = elim (Bool-cases (n == 0)) [
  | inl z ↦ rw z refl
  | inr z ↦ rw z (
      has_byte-snoc b (decimal fuel (n / 10)) (48 + n % 10) (has_byte-decimal b fuel (n / 10) h)
        (ground arith))
]

-- A byte that is no digit is not in the digits of a number.
pub has_byte-itoa : (b n : ℕ) → is_digit b ≡ false → has_byte b (itoa n) ≡ false
unfolding itoa
has_byte-itoa b n h = elim (Bool-cases (n == 0)) [
  | inl z ↦ rw z (ground (arith, h))
  | inr z ↦ rw z (has_byte-decimal b n n h)
]

some-injective : {m n : ℕ} → some m ≡ some n → m ≡ n
some-injective e = cc e

digits_value-itoa : (n : ℕ) → digits_value 0 (itoa n) ≡ some n
unfolding itoa digits_value
digits_value-itoa n = elim (Bool-cases (n == 0)) [
  | inl z ↦ rw z (ap some (ground (arith, z)))
  | inr z ↦ rw z (digits_value-decimal n n (omega arith))
]

-- Printing tells numbers apart.
pub itoa-injective : (m n : ℕ) → itoa m ≡ itoa n → m ≡ n
itoa-injective m n e =
    some-injective (sym (digits_value-itoa m) ∙ ap (digits_value 0) e ∙ digits_value-itoa n)

-- Texts that end at their first such byte differ if what stands before it does.
pub joined-separate :
    (b : ℕ) (p q s t : Text)
    → has_byte b p ≡ false
    → has_byte b q ≡ false
    → text_eq p q ≡ false
    → text_eq (p ++ (b ∷ s)) (q ++ (b ∷ t)) ≡ false
unfolding text_eq
joined-separate b [] [] s t f g d = absurd (cc d)
joined-separate b [] (c ∷ q) s t f g d = ground arith
joined-separate b (c ∷ p) [] s t f g d = ground arith
joined-separate b (c ∷ p) (e ∷ q) s t f g d = ground (arith, joined-separate b p q s t)
