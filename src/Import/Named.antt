-- ===== src/Import/Named.antt =====
-- What weeks a cell of printed parts names.
use ocm.Prelude.{
  ℕ, ◌%◌, ◌≤◌, ◌≡◌, refl, ap, sym, ◌∙◌, inl, inr, true, false, not, ◌&&◌, List, [], ◌∷◌, ◌++◌, map,
  elem, any, length, leb, ◌==◌, All, All-append, Bool-cases, Result, ok, err, arith,
}
use ocm.Prelude.Ordered.{Ascending, dedup, sort, sort-Ascending, elem-sort, length-sort}
use ocm.Prelude.Text.{Text, codes, text_eq, is_space, trim_space, split_on, join}
use ocm.Import.Cells.{Error, empty_weeks, has_parity, weeks_of, collect_weeks, expand_weeks}
use ocm.Import.Weeks.{names, covers, collect_weeks-set}
use ocm.Import.Numerals.{Solid, All-imp, Digit-Solid, trim_space-Solid}
use ocm.Import.Print.{
  Mark, all_weeks, odd_weeks, even_weeks, Part, mark_text, part_text, marked_week, belongs,
  Readable, parity_of, segment_of, bracketed, bracketed-All, parse_segment-part,
}

-- No character of a printed part is a space or a comma.
abbrev Inked : ℕ → Type 0
Inked c = Solid c × ((c == b',') ≡ false)

part-Inked : (p : Part) → All Inked (part_text p)
unfolding is_space
part-Inked p =
    All-append Inked (bracketed p) (mark_text p.mark)
      (bracketed-All Inked p (λ c d. (Digit-Solid c d, ground (arith, d.0, d.1))) (refl, refl)
        (refl, refl) (refl, refl))
      (suffix p.mark)
  where
    suffix : (m : Mark) → All Inked (mark_text m)
    suffix all_weeks = tt
    suffix odd_weeks = ((refl, refl), tt)
    suffix even_weeks = ((refl, refl), tt)

part-Solid : (p : Part) → All Solid (part_text p)
part-Solid p = All-imp Inked Solid (part_text p) (λ c i. i.0) (part-Inked p)

-- The names of a printed part are the weeks that belong to it.
odd_or_even : (w : ℕ) → (not (w % 2 == 0) ≡ (w % 2 == 1)) × (not (w % 2 == 1) ≡ (w % 2 == 0))
odd_or_even w = (ground arith, ground arith)

covers-belongs : (w : ℕ) (p : Part) → covers (segment_of p) w ≡ belongs w p
covers-belongs w p = ap (λ b. leb p.first w && leb w p.last && b) (go p.mark)
  where
    go : (m : Mark) → has_parity (parity_of m) w ≡ marked_week m w
    go all_weeks = refl
    go odd_weeks = (odd_or_even w).0
    go even_weeks = (odd_or_even w).1

names-part : (w : ℕ) (p : Part) → Readable p → names w (part_text p) ≡ belongs w p
names-part w p r =
    let same : trim_space (part_text p) ≡ part_text p =
      trim_space-Solid (part_text p) (part-Solid p) in
    let read = parse_segment-part p r in rw (same, read) (covers-belongs w p)

names-parts :
    (w : ℕ) (ps : List Part)
    → All Readable ps
    → any (names w) (map part_text ps) ≡ any (belongs w) ps
names-parts w [] a = refl
names-parts w (p ∷ ps) a = rw (names-part w p a.0, names-parts w ps a.1) refl

split_on-cons : (s : Text) → (part : Text) × (parts : List Text) × (split_on b',' s ≡ part ∷ parts)
unfolding split_on
split_on-cons [] = ([], [], refl)
split_on-cons (c ∷ s) =
    let (part, parts, e) = split_on-cons s in
    elim (Bool-cases (c == b',')) [
      | inl k ↦ ([], part ∷ parts, rw (split_on, e, k) refl)
      | inr k ↦ (c ∷ part, parts, rw (split_on, e, k) refl)
    ]

split_on-last : (s : Text) → All Inked s → split_on b',' s ≡ s ∷ []
unfolding split_on
split_on-last [] a = refl
split_on-last (c ∷ s) a = rw (split_on, split_on-last s a.1, a.0.1) refl

split_on-next : (s t : Text) → All Inked s → split_on b',' (s ++ b',' ∷ t) ≡ s ∷ split_on b',' t
unfolding split_on
split_on-next [] t a = let (part, parts, e) = split_on-cons t in rw (split_on, e) refl
split_on-next (c ∷ s) t a = rw (split_on, split_on-next s t a.1, a.0.1) refl

-- A cell of printed parts, and the parts that a reader finds in it.
abbrev pub cell_text : List Part → Text
cell_text ps = join (codes ",") (map part_text ps)

split_on-cell :
    (p : Part) (ps : List Part) → split_on b',' (cell_text (p ∷ ps)) ≡ map part_text (p ∷ ps)
unfolding join
split_on-cell p [] = split_on-last (part_text p) (part-Inked p)
split_on-cell p (q ∷ ps) =
    split_on-next (part_text p) (cell_text (q ∷ ps)) (part-Inked p)
    ∙ ap (◌∷◌ (part_text p)) (split_on-cell q ps)

cell-Solid : (ps : List Part) → All Solid (cell_text ps)
unfolding join is_space
cell-Solid [] = tt
cell-Solid (p ∷ []) = part-Solid p
cell-Solid (p ∷ q ∷ ps) =
    All-append Solid (part_text p) (b',' ∷ cell_text (q ∷ ps)) (part-Solid p)
      (refl, cell-Solid (q ∷ ps))

collect_weeks-read :
    (ps : List Part) (set : List ℕ)
    → All Readable ps
    → (out : List ℕ) × (collect_weeks (map part_text ps) set ≡ ok out)
unfolding collect_weeks
collect_weeks-read [] set a = (set, refl)
collect_weeks-read (p ∷ ps) set a =
    let same : trim_space (part_text p) ≡ part_text p =
      trim_space-Solid (part_text p) (part-Solid p) in
    let read = parse_segment-part p a.0 in
    let (out, e) = collect_weeks-read ps (dedup (weeks_of (segment_of p)) set) a.1 in
    (out, rw (collect_weeks, same, read) e)

-- What comes of a cell: the weeks of its parts in rising order, or the error that it has none.
pub data WeeksOf (ps : List Part) (r : Result Error (List ℕ)) : Type 0 where
  weeks :
      (ws : List ℕ)
      → r ≡ ok ws
      → Ascending ws
      → 1 ≤ length ws
      → ((w : ℕ) → elem w ws ≡ any (belongs w) ps)
      → WeeksOf ps r
  no_weeks : r ≡ err empty_weeks → ((w : ℕ) → any (belongs w) ps ≡ false) → WeeksOf ps r

no_elements : (set : List ℕ) (w : ℕ) → (length set == 0) ≡ true → elem w set ≡ false
no_elements [] w h = refl
no_elements (x ∷ set) w h = absurd (ground (arith, h))

not_blank : (p : Part) (ps : List Part) → text_eq (cell_text (p ∷ ps)) [] ≡ false
unfolding join
not_blank p [] = refl
not_blank p (q ∷ ps) = refl

-- A cell of parts in the printed form "[first-last]", with the suffix 单 or 双 or none, between commas,
-- where the ends are numbers from one on, in order and below 2^63 - 1: the reader gives, rising
-- strictly, the weeks that lie between the ends of some part and are odd where its suffix is 单 and even where
-- it is 双; and where there is no such week it answers that the cell is empty.
pub expand_weeks-print :
    (p : Part) (ps : List Part)
    → All Readable (p ∷ ps)
    → WeeksOf (p ∷ ps) (expand_weeks (cell_text (p ∷ ps)))
unfolding expand_weeks
expand_weeks-print p ps a =
    let cell = cell_text (p ∷ ps) in
    let trimmed : trim_space cell ≡ cell = trim_space-Solid cell (cell-Solid (p ∷ ps)) in
    let parts = split_on-cell p ps in
    let (set, read) = collect_weeks-read (p ∷ ps) [] a in
    let (distinct, members) = collect_weeks-set (map part_text (p ∷ ps)) [] set read tt in
    let named : (w : ℕ) → elem w set ≡ any (belongs w) (p ∷ ps) =
      λ w. members w ∙ names-parts w (p ∷ ps) a in
    elim (Bool-cases (length set == 0)) [
      | inl z ↦
          no_weeks (rw (expand_weeks, trimmed, not_blank p ps, parts, read, z) refl)
            (λ w. sym (named w) ∙ no_elements set w z)
      | inr z ↦
          weeks (sort set) (rw (expand_weeks, trimmed, not_blank p ps, parts, read, z) refl)
            (sort-Ascending set distinct) (rw (length-sort set) (ground (arith, z)))
            (λ w. elem-sort w set ∙ named w)
    ]
