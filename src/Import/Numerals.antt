-- ===== src/Import/Numerals.antt =====
-- The cells of numbers: what is written in decimal digits is read back.
use mathlib.Core.List.{reverse, reverse-cons, reverse-reverse}
use ocm.Prelude.{
  ℕ, zero, suc, ◌+◌, ◌-◌, ◌*◌, ◌/◌, ◌%◌, ◌^◌, ◌≤◌, ◌<◌, ◌≡◌, refl, ap, sym, ◌∙◌, inl, inr, true,
  false, [], ◌∷◌, some, ltb, ◌==◌, All, All-append, Bool-cases, arith,
}
use ocm.Prelude.Int.{pos}
use ocm.Prelude.Text.{Text, is_space, trim_left, trim_space, decimal, decimal_on}
use ocm.Import.Cells.{digits_after, natural, atoi}

abbrev pub Digit : ℕ → Type 0
Digit c = (48 ≤ c) × (c ≤ 57)

abbrev pub Solid : ℕ → Type 0
Solid c = is_space c ≡ false

pub All-reverse : (P : ℕ → Type 0) (s : Text) → All P s → All P (reverse s)
All-reverse P [] a = tt
All-reverse P (c ∷ s) a =
    rw (reverse-cons c s) (All-append P (reverse s) (c ∷ []) (All-reverse P s a.1) (a.0, tt))

pub All-imp : (P Q : ℕ → Type 0) (s : Text) → ((c : ℕ) → P c → Q c) → All P s → All Q s
All-imp P Q [] f a = tt
All-imp P Q (c ∷ s) f a = (f c a.0, All-imp P Q s f a.1)

pub Digit-Solid : (c : ℕ) → Digit c → Solid c
unfolding is_space
Digit-Solid c d = ground (arith, d.0, d.1)

trim_left-Solid : (s : Text) → All Solid s → trim_left s ≡ s
unfolding trim_left
trim_left-Solid [] a = refl
trim_left-Solid (c ∷ s) a = rw (trim_left, a.0) refl

-- A text without spaces is not trimmed.
pub trim_space-Solid : (s : Text) → All Solid s → trim_space s ≡ s
unfolding trim_space
trim_space-Solid s a =
    ap (λ t. reverse (trim_left (reverse t))) (trim_left-Solid s a)
    ∙ ap reverse (trim_left-Solid (reverse s) (All-reverse Solid s a))
    ∙ reverse-reverse s

decimal_on-digits :
    (rounds n : ℕ) (rest : Text) → All Digit rest → All Digit (decimal_on rounds n rest)
unfolding decimal_on
decimal_on-digits zero n rest a = a
decimal_on-digits (suc rounds) n rest a = elim (Bool-cases (ltb n 10)) [
  | inl e ↦ rw (decimal_on, e) ((omega arith, ground (arith, e)), a)
  | inr e ↦
      rw (decimal_on, e)
        (decimal_on-digits rounds (n / 10) ((n % 10 + 48) ∷ rest) ((omega arith, omega arith), a))
]

pub decimal-digits : (n : ℕ) → All Digit (decimal n)
unfolding decimal
decimal-digits n = decimal_on-digits (suc n) n [] tt

decimal_on-cons :
    (rounds n x : ℕ) (rest : Text) → (c : ℕ) × (s : Text) × (decimal_on rounds n (x ∷ rest) ≡ c ∷ s)
unfolding decimal_on
decimal_on-cons zero n x rest = (x, rest, refl)
decimal_on-cons (suc rounds) n x rest = elim (Bool-cases (ltb n 10)) [
  | inl e ↦ rw (decimal_on, e) (n + 48, x ∷ rest, refl)
  | inr e ↦ rw (decimal_on, e) (decimal_on-cons rounds (n / 10) (n % 10 + 48) (x ∷ rest))
]

decimal-cons : (n : ℕ) → (c : ℕ) × (s : Text) × (decimal n ≡ c ∷ s)
unfolding decimal decimal_on
decimal-cons n = elim (Bool-cases (ltb n 10)) [
  | inl e ↦ rw (decimal, decimal_on, e) (n + 48, [], refl)
  | inr e ↦ rw (decimal, decimal_on, e) (decimal_on-cons n (n / 10) (n % 10 + 48) [])
]

digits_after-decimal_on :
    (rounds n : ℕ) (rest : Text)
    → n < rounds
    → digits_after 0 (decimal_on rounds n rest) ≡ digits_after n rest
unfolding digits_after decimal_on
digits_after-decimal_on zero n rest h = absurd (omega (arith, h))
digits_after-decimal_on (suc rounds) n rest h = elim (Bool-cases (ltb n 10)) [
  | inl e ↦
      let value : 0 * 10 + (n + 48 - 48) ≡ n = omega arith in rw (decimal_on, e) (ground (arith, e))
  | inr e ↦
      let smaller : n / 10 < rounds = ground (arith, e, h) in
      let value : n / 10 * 10 + (n % 10 + 48 - 48) ≡ n = omega arith in
      rw (decimal_on, e)
        (digits_after-decimal_on rounds (n / 10) ((n % 10 + 48) ∷ rest) smaller
          ∙ rw (digits_after, value) (ground arith))
]

natural-decimal : (n : ℕ) → natural (decimal n) ≡ some n
unfolding natural decimal digits_after
natural-decimal n =
    let (c, s, e) = decimal-cons n in
    let value : digits_after 0 (decimal n) ≡ some n =
      digits_after-decimal_on (suc n) n [] (omega arith) in
    ap natural e ∙ ap (digits_after 0) (sym e) ∙ value

-- A number below 2^63 is read back from its digits.
pub atoi-decimal : (n : ℕ) → n < 2 ^ 63 → atoi (decimal n) ≡ some (pos n)
unfolding atoi
atoi-decimal n h =
    let (c, s, e) = decimal-cons n in
    let digits : All Digit (c ∷ s) = rw e at (decimal-digits n) in
    let value : natural (c ∷ s) ≡ some n = ap natural (sym e) ∙ natural-decimal n in
    let no_minus : (c == 45) ≡ false = ground (arith, digits.0.0) in
    let no_plus : (c == 43) ≡ false = ground (arith, digits.0.0) in
    let small : ltb n (2 ^ 63) ≡ true = ground (arith, h) in
    ap atoi e ∙ rw (atoi, no_minus, no_plus, value, small) refl
