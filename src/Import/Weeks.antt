-- ===== src/Import/Weeks.antt =====
-- What weeks a cell names.
use ocm.Prelude.{
  ℕ, zero, suc, ◌+◌, ◌-◌, ◌≤◌, ◌≡◌, ap, ◌∙◌, inl, inr, Bool, false, not, ◌&&◌, ◌||◌, List, [], ◌∷◌,
  none, some, elem, any, filter, length, leb, ltb, ◌==◌, Bool-cases, Option-cases, Result-cases, ok,
  arith,
}
use ocm.Prelude.Ordered.{
  Ascending, Distinct, dedup, sort, sort-Ascending, elem-sort, length-sort, elem-dedup,
  dedup-Distinct,
}
use ocm.Prelude.Text.{Text, text_eq, trim_space, split_on}
use ocm.Import.Cells.{
  Segment, parse_segment, has_parity, weeks_from, weeks_of, collect_weeks, expand_weeks,
}

-- A week between the ends of a segment, of its parity.
abbrev pub covers : Segment → ℕ → Bool
covers g w = leb g.first w && leb w g.last && has_parity g.parity w

-- A part of the cell, between commas, names a week.
abbrev pub names : ℕ → Text → Bool
names w part =
    not (text_eq (trim_space part) [])
    && elim (parse_segment (trim_space part)) [ none ↦ false | some g ↦ covers g w ]

elem-filter : (p : ℕ → Bool) (w : ℕ) (ws : List ℕ) → elem w (filter p ws) ≡ (p w && elem w ws)
elem-filter p w [] = ground arith
elem-filter p w (v ∷ ws) = elim (Bool-cases (v == w)) [
  | inl e ↦
      let same : v ≡ w = ground (arith, e) in
      let g : p v ≡ p w = ap p same in ground (arith, elem-filter p w ws)
  | inr e ↦ ground (arith, elem-filter p w ws)
]

pub elem-weeks_from : (n a w : ℕ) → elem w (weeks_from n a) ≡ (leb a w && ltb w (a + n))
unfolding weeks_from
elem-weeks_from zero a w = ground arith
elem-weeks_from (suc n) a w = ground (arith, elem-weeks_from n (suc a) w)

elem-weeks_of : (g : Segment) (w : ℕ) → elem w (weeks_of g) ≡ covers g w
elem-weeks_of g w =
    rw
      (
        elem-filter (has_parity g.parity) w (weeks_from (suc g.last - g.first) g.first),
        elem-weeks_from (suc g.last - g.first) g.first w,
      )
      (ground arith)

-- The loop over the parts.
pub collect_weeks-set :
    (parts : List Text) (set out : List ℕ)
    → collect_weeks parts set ≡ ok out
    → Distinct set
    → Distinct out × ((w : ℕ) → elem w out ≡ (elem w set || any (names w) parts))
unfolding collect_weeks
collect_weeks-set [] set out h d =
    let same : set ≡ out = ground (arith, h) in rw (← same) (d, λ w. ground arith)
collect_weeks-set (part ∷ parts) set out h d = elim (Bool-cases (text_eq (trim_space part) [])) [
  | inl e ↦
      let (distinct, same) = collect_weeks-set parts set out (rw (collect_weeks, e) at h) d in
      (distinct, λ w. rw (same w, e) (ground arith))
  | inr e ↦ elim (Option-cases (parse_segment (trim_space part))) [
    | inl g ↦ absurd (ground (arith, rw (collect_weeks, e, g) at h))
    | inr (s, g) ↦
        let (distinct, same) =
          collect_weeks-set parts (dedup (weeks_of s) set) out (rw (collect_weeks, e, g) at h)
            (dedup-Distinct (weeks_of s) set d) in
        (
          distinct,
          λ w. rw (same w, e, g, elem-dedup w (weeks_of s) set, elem-weeks_of s w) (ground arith),
        )
  ]
]

-- A cell of weeks that is read gives a list that rises strictly and is not empty, and a week is in it
-- exactly when a part of the cell between commas names it: it lies between the ends of the part and
-- has the parity that the part's suffix asks for.
pub expand_weeks-names :
    (cell : Text) (ws : List ℕ)
    → expand_weeks cell ≡ ok ws
    → Ascending ws
      × (1 ≤ length ws)
      × ((w : ℕ) → elem w ws ≡ any (names w) (split_on b',' (trim_space cell)))
unfolding expand_weeks
expand_weeks-names cell ws h = elim (Bool-cases (text_eq (trim_space cell) [])) [
  | inl e ↦ absurd (ground (arith, rw (expand_weeks, e) at h))
  | inr e ↦ elim (Result-cases (collect_weeks (split_on b',' (trim_space cell)) [])) [
    | inr (x, g) ↦ absurd (ground (arith, rw (expand_weeks, e, g) at h))
    | inl (set, g) ↦ elim (Bool-cases (length set == 0)) [
      | inl z ↦ absurd (ground (arith, rw (expand_weeks, e, g, z) at h))
      | inr z ↦
          let same : ok (sort set) ≡ ok ws = rw (expand_weeks, e, g, z) at h in
          let result : sort set ≡ ws = ground (arith, same) in
          let (distinct, members) =
            collect_weeks-set (split_on b',' (trim_space cell)) [] set g tt in
          rw (← result) (
            sort-Ascending set distinct,
            rw (length-sort set) (ground (arith, z)),
            λ w. elem-sort w set ∙ members w,
          )
    ]
  ]
]
