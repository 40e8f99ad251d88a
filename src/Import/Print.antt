-- ===== src/Import/Print.antt =====
-- How a part of a cell of weeks, such as "[1-3]单", is read in its printed form.
use mathlib.Core.List.{reverse, reverse-append, reverse-reverse}
use ocm.Prelude.{
  ℕ, zero, suc, ◌-◌, ◌%◌, ◌^◌, ◌≤◌, ◌<◌, ◌≡◌, refl, ap, sym, ◌∙◌, Bool, true, false, ◌&&◌, ◌||◌, [],
  ◌∷◌, ◌++◌, some, leb, ◌==◌, All, All-append, arith,
}
use ocm.Prelude.Int.{pos}
use ocm.Prelude.Text.{Text, codes, is_space, trim_space, decimal}
use ocm.Import.Cells.{
  Parity, each, odd, even, Segment, atoi, positive, cut_dash, parse_range, split_parity, strip_mark,
  drop_brackets, trim_brackets, parse_segment,
}
use ocm.Import.Numerals.{
  Digit, Solid, All-imp, Digit-Solid, trim_space-Solid, All-reverse, decimal-digits, atoi-decimal,
}

-- The weeks from a first to a last, all of them or those that a suffix picks.
pub data Mark : Type 0 where
  all_weeks odd_weeks even_weeks : Mark

pub record Part : Type 0 where
  pub first : ℕ
  pub last : ℕ
  pub mark : Mark

abbrev pub mark_text : Mark → Text
mark_text all_weeks = []
mark_text odd_weeks = codes "单"
mark_text even_weeks = codes "双"

abbrev pub ends_text : Part → Text
ends_text p = decimal p.first ++ b'-' ∷ decimal p.last

abbrev pub part_text : Part → Text
part_text p = (b'[' ∷ ends_text p ++ b']' ∷ []) ++ mark_text p.mark

-- A week belongs to a part: it is not before the first nor after the last, and has the remainder by
-- two that the suffix asks for.
abbrev pub marked_week : Mark → ℕ → Bool
marked_week all_weeks w = true
marked_week odd_weeks w = w % 2 == 1
marked_week even_weeks w = w % 2 == 0

abbrev pub belongs : ℕ → Part → Bool
belongs w p = leb p.first w && leb w p.last && marked_week p.mark w

-- Ends that are numbers from one on, in order and below the largest of the code's integers, at which
-- its loop would not end.
pub record Readable (p : Part) : Type 0 where
  pub from_one : 1 ≤ p.first
  pub in_order : p.first ≤ p.last
  pub small : p.last < 2 ^ 63 - 1

abbrev pub parity_of : Mark → Parity
parity_of all_weeks = each
parity_of odd_weeks = odd
parity_of even_weeks = even

abbrev pub segment_of : Part → Segment
segment_of p = record { first = p.first; last = p.last; parity = parity_of p.mark }

-- A character that is neither a bracket nor a dash.
abbrev Plain : ℕ → Type 0
Plain c = ((c == b'[' || c == b']') ≡ false) × ((c == b'-') ≡ false)

abbrev Inside : ℕ → Type 0
Inside c = (c == b'[' || c == b']') ≡ false

Digit-Plain : (c : ℕ) → Digit c → Plain c
Digit-Plain c d = (ground (arith, d.0, d.1), ground (arith, d.0, d.1))

cut_dash-at : (s t : Text) → All Plain s → cut_dash (s ++ b'-' ∷ t) ≡ (s, some t)
unfolding cut_dash
cut_dash-at [] t a = refl
cut_dash-at (c ∷ s) t a = rw (cut_dash, a.0.1, cut_dash-at s t a.1) refl

drop_brackets-Inside : (c : ℕ) (s : Text) → Inside c → drop_brackets (c ∷ s) ≡ c ∷ s
unfolding drop_brackets
drop_brackets-Inside c s h = rw (drop_brackets, h) refl

drop_brackets-All : (s : Text) → All Inside s → drop_brackets s ≡ s
unfolding drop_brackets
drop_brackets-All [] a = refl
drop_brackets-All (c ∷ s) a = drop_brackets-Inside c s a.0

-- The brackets around a text without brackets are taken off.
trim_brackets-body : (s : Text) → All Inside s → trim_brackets (b'[' ∷ s ++ b']' ∷ []) ≡ s
unfolding trim_brackets drop_brackets
trim_brackets-body [] a = refl
trim_brackets-body (c ∷ s) a =
    let opened : drop_brackets (c ∷ s ++ b']' ∷ []) ≡ c ∷ s ++ b']' ∷ [] =
      drop_brackets-Inside c (s ++ b']' ∷ []) a.0 in
    let turned : reverse (c ∷ s ++ b']' ∷ []) ≡ b']' ∷ reverse (c ∷ s) =
      reverse-append (c ∷ s) (b']' ∷ []) in
    let closed : drop_brackets (reverse (c ∷ s)) ≡ reverse (c ∷ s) =
      drop_brackets-All (reverse (c ∷ s)) (All-reverse Inside (c ∷ s) a) in
    ap (λ t. reverse (drop_brackets (reverse t))) opened
    ∙ ap (λ t. reverse (drop_brackets t)) turned
    ∙ ap reverse closed
    ∙ reverse-reverse (c ∷ s)

positive-pos : (n : ℕ) → 1 ≤ n → positive (some (pos n)) ≡ some n
positive-pos zero h = absurd (omega (arith, h))
positive-pos (suc n) h = refl

number-read : (n : ℕ) → 1 ≤ n → n < 2 ^ 63 → positive (atoi (trim_space (decimal n))) ≡ some n
number-read n h k =
    ap (λ t. positive (atoi t))
      (trim_space-Solid (decimal n)
        (All-imp Digit Solid (decimal n) Digit-Solid (decimal-digits n)))
    ∙ ap positive (atoi-decimal n k)
    ∙ positive-pos n h

ends-read : (p : Part) → Readable p → parse_range (cut_dash (ends_text p)) ≡ some (p.first, p.last)
unfolding parse_range
ends-read p r =
    let plain = All-imp Digit Plain (decimal p.first) Digit-Plain (decimal-digits p.first) in
    let first = number-read p.first r.from_one (omega (arith, r.in_order, r.small)) in
    let last =
      number-read p.last (omega (arith, r.from_one, r.in_order)) (omega (arith, r.small)) in
    let ordered : leb p.first p.last ≡ true = ground (arith, r.in_order) in
    ap parse_range (cut_dash-at (decimal p.first) (decimal p.last) plain)
    ∙ rw (parse_range, first, last, ordered) refl

-- What holds of the digits and of the dash holds of the text of two ends.
ends-All : (P : ℕ → Type 0) (p : Part) → ((c : ℕ) → Digit c → P c) → P b'-' → All P (ends_text p)
ends-All P p digits dashed =
    All-append P (decimal p.first) (b'-' ∷ decimal p.last)
      (All-imp Digit P (decimal p.first) digits (decimal-digits p.first))
      (dashed, All-imp Digit P (decimal p.last) digits (decimal-digits p.last))

abbrev pub bracketed : Part → Text
bracketed p = b'[' ∷ ends_text p ++ b']' ∷ []

pub bracketed-All :
    (P : ℕ → Type 0) (p : Part)
    → ((c : ℕ) → Digit c → P c)
    → P b'-'
    → P b'['
    → P b']'
    → All P (bracketed p)
bracketed-All P p digits dashed opened closed =
    (opened, All-append P (ends_text p) (b']' ∷ []) (ends-All P p digits dashed) (closed, tt))

dash-Solid : Solid b'-'
unfolding is_space
dash-Solid = refl

bracketed-Solid : (p : Part) → All Solid (bracketed p)
unfolding is_space
bracketed-Solid p = bracketed-All Solid p Digit-Solid refl refl refl

-- The suffix is split off.
split_parity-marked :
    (s : Text)
    → All Solid s
    → (split_parity (s ++ codes "单") ≡ (odd, s)) × (split_parity (s ++ codes "双") ≡ (even, s))
unfolding split_parity
split_parity-marked s a =
    let back : trim_space (reverse (reverse s)) ≡ s =
      ap trim_space (reverse-reverse s) ∙ trim_space-Solid s a in
    (
      ap strip_mark (reverse-append s (codes "单")) ∙ ap (λ t. (odd, t)) back,
      ap strip_mark (reverse-append s (codes "双")) ∙ ap (λ t. (even, t)) back,
    )

split_parity-plain : (s : Text) → split_parity (s ++ b']' ∷ []) ≡ (each, s ++ b']' ∷ [])
unfolding split_parity
split_parity-plain s =
    let turned : reverse (s ++ b']' ∷ []) ≡ b']' ∷ reverse s = reverse-append s (b']' ∷ []) in
    ap strip_mark turned
    ∙ ap (λ t. (each, t)) (ap reverse (sym turned) ∙ reverse-reverse (s ++ b']' ∷ []))

append_nil : (s : Text) → s ++ [] ≡ s
append_nil [] = refl
append_nil (c ∷ s) = ap (◌∷◌ c) (append_nil s)

split_parity-part : (p : Part) → split_parity (part_text p) ≡ (parity_of p.mark, bracketed p)
split_parity-part p = go p.mark
  where
    go : (m : Mark) → split_parity (bracketed p ++ mark_text m) ≡ (parity_of m, bracketed p)
    go all_weeks =
        ap split_parity (append_nil (bracketed p)) ∙ split_parity-plain (b'[' ∷ ends_text p)
    go odd_weeks = (split_parity-marked (bracketed p) (bracketed-Solid p)).0
    go even_weeks = (split_parity-marked (bracketed p) (bracketed-Solid p)).1

-- A printed part is read as it was meant.
pub parse_segment-part : (p : Part) → Readable p → parse_segment (part_text p) ≡ some (segment_of p)
unfolding parse_segment
parse_segment-part p r =
    let suffix = split_parity-part p in
    let inside : All Inside (ends_text p) = ends-All Inside p (λ c d. (Digit-Plain c d).0) refl in
    let body : trim_space (trim_brackets (bracketed p)) ≡ ends_text p =
      ap trim_space (trim_brackets-body (ends_text p) inside)
      ∙ trim_space-Solid (ends_text p) (ends-All Solid p Digit-Solid dash-Solid) in
    rw (parse_segment, suffix, body, ends-read p r, suffix) refl
