-- ===== src/Import/Cells.antt =====
-- backend/internal/importer/jwc/expand.go: the cells of periods, weekday and weeks.
use ocm.Prelude.{
  ℕ, zero, suc, ◌+◌, ◌-◌, ◌*◌, ◌%◌, ◌^◌, Bool, true, not, ◌||◌, List, [], ◌∷◌, Option, none, some,
  filter, length, leb, ltb, ◌==◌, if◌then◌else◌, Result, ok, err, ◌>>=◌, ◌>>◌, fail_if,
}
use mathlib.Core.List.{reverse}
use ocm.Prelude.Int.{ℤ, pos, negsuc}
use ocm.Prelude.Ordered.{dedup, sort}
use ocm.Prelude.Text.{Text, text_eq, trim_space, split_on}
use ocm.Calendar.{is_digit}

pub data Error : Type 0 where
  empty_periods bad_periods empty_weekday bad_weekday empty_weeks bad_weeks : Error

-- A number written in decimal digits, after the digits that `n` stands for.
unfoldable pub digits_after : ℕ → Text → Option ℕ
digits_after n [] = some n
digits_after n (c ∷ s) =
    let rest = digits_after (n * 10 + (c - 48)) s in if is_digit c then rest else none

unfoldable pub natural : Text → Option ℕ
natural [] = none
natural (c ∷ s) = digits_after 0 (c ∷ s)

abbrev negative : ℕ → ℤ
negative zero = pos 0
negative (suc n) = negsuc n

-- `strconv.Atoi` of 64 bits.
unfoldable pub atoi : Text → Option ℤ
atoi [] = none
atoi (c ∷ s) =
    if c == b'-'
    then elim (natural s) [
      | none ↦ none
      | some n ↦ if leb n (2 ^ 63) then some (negative n) else none
    ]
    else elim (natural (if c == b'+' then s else c ∷ s)) [
      | none ↦ none
      | some n ↦ if ltb n (2 ^ 63) then some (pos n) else none
    ]

-- A number that is at least one.
abbrev pub positive : Option ℤ → Option ℕ
positive none = none
positive (some (pos zero)) = none
positive (some (pos (suc n))) = some (suc n)
positive (some (negsuc n)) = none

-- A text up to the first dash, and behind it if there is one.
unfoldable pub cut_dash : Text → Text × Option Text
cut_dash [] = ([], none)
cut_dash (c ∷ s) = let rest = cut_dash s in if c == b'-' then ([], some s) else (c ∷ rest.0, rest.1)

-- A number, or two of which the second is not below the first.
unfoldable pub parse_range : Text × Option Text → Option (ℕ × ℕ)
parse_range (first, none) = elim (positive (atoi (trim_space first))) [
  | none ↦ none
  | some a ↦ some (a, a)
]
parse_range (first, some last) = elim (positive (atoi (trim_space first))) [
  | none ↦ none
  | some a ↦ elim (positive (atoi (trim_space last))) [
    | none ↦ none
    | some b ↦ if leb a b then some (a, b) else none
  ]
]

unfoldable pub parse_periods : Text → Result Error (ℕ × ℕ)
parse_periods cell =
    let s = trim_space cell in
    if text_eq s []
    then err empty_periods
    else elim (parse_range (cut_dash s)) [ none ↦ err bad_periods | some r ↦ ok r ]

unfoldable pub parse_weekday : Text → Result Error ℕ
parse_weekday cell =
    let s = trim_space cell in
    if text_eq s [] then err empty_weekday else elim (positive (atoi s)) [
      | none ↦ err bad_weekday
      | some n ↦ if ltb 7 n then err bad_weekday else ok n
    ]

pub data Parity : Type 0 where
  each odd even : Parity

-- The characters of the suffixes for odd and even weeks.
abbrev pub odd_mark : ℕ
odd_mark = 0x5355

abbrev pub even_mark : ℕ
even_mark = 0x53CC

abbrev pub strip_mark : Text → Parity × Text
strip_mark [] = (each, [])
strip_mark (c ∷ s) =
    if c == odd_mark
    then (odd, trim_space (reverse s))
    else if c == even_mark
    then (even, trim_space (reverse s))
    else (each, reverse (c ∷ s))

-- The parity that the suffix says, and the text without it.
unfoldable pub split_parity : Text → Parity × Text
split_parity seg = strip_mark (reverse seg)

unfoldable pub drop_brackets : Text → Text
drop_brackets [] = []
drop_brackets (c ∷ s) = let rest = drop_brackets s in if c == b'[' || c == b']' then rest else c ∷ s

-- `strings.Trim(seg, "[]")`.
unfoldable pub trim_brackets : Text → Text
unfolding drop_brackets
trim_brackets s = reverse (drop_brackets (reverse (drop_brackets s)))

pub record Segment : Type 0 where
  pub first : ℕ
  pub last : ℕ
  pub parity : Parity

unfoldable pub parse_segment : Text → Option Segment
parse_segment seg =
    let (parity, body) = split_parity seg in
    elim (parse_range (cut_dash (trim_space (trim_brackets body)))) [
      | none ↦ none
      | some (a, b) ↦ some (record { first = a; last = b; parity = parity })
    ]

abbrev pub has_parity : Parity → ℕ → Bool
has_parity each w = true
has_parity odd w = not (w % 2 == 0)
has_parity even w = not (w % 2 == 1)

-- So many weeks from one on. The code's counter has 64 bits, and a range that ends at the largest
-- number would not end there.
unfoldable pub weeks_from : ℕ → ℕ → List ℕ
weeks_from zero w = []
weeks_from (suc n) w = w ∷ weeks_from n (suc w)

abbrev pub weeks_of : Segment → List ℕ
weeks_of g = filter (has_parity g.parity) (weeks_from (suc g.last - g.first) g.first)

unfoldable pub collect_weeks : List Text → List ℕ → Result Error (List ℕ)
collect_weeks [] set = ok set
collect_weeks (part ∷ parts) set =
    let rest = collect_weeks parts in
    let seg = trim_space part in
    if text_eq seg []
    then rest set
    else elim (parse_segment seg) [ none ↦ err bad_weeks | some g ↦ rest (dedup (weeks_of g) set) ]

unfoldable pub expand_weeks : Text → Result Error (List ℕ)
expand_weeks cell =
    let s = trim_space cell in
    fail_if (text_eq s []) empty_weeks >> collect_weeks (split_on b',' s) [] >>= λ set.
    fail_if (length set == 0) empty_weeks >> ok (sort set)
