-- ===== src/Import/Slots.antt =====
-- What holds of the slots that the rows are read to.
use ocm.Prelude.{
  ℕ, zero, suc, ◌≤◌, ◌≡◌, refl, sym, ◌∙◌, elem, mem_of_any, inl, inr, true, false, not, ◌&&◌, List,
  [], ◌∷◌, Option, none, some, All, All-append, map, any, leb, ltb, Bool-cases, Option-cases,
  Result-cases, ok, arith,
}
use ocm.Prelude.Ordered.{Ascending}
use ocm.Prelude.Int.{ℤ, pos, negsuc}
use ocm.Prelude.Text.{Text, text_eq, trim_space, split_on}
use ocm.Import.Cells.{
  positive, atoi, cut_dash, parse_range, Segment, parse_segment, split_parity, trim_brackets,
  parse_periods, parse_weekday, expand_weeks,
}
use ocm.Import.Weeks.{names, covers, expand_weeks-names}
use ocm.Import.Groups.{
  Row, Slot, Warning, SeqGroup, new_seq_group, add_teacher, is_non_physical_classroom, read_slot,
  add_slot, slot_key, put_row, group_by_seq, Pair, skips, mark, collect_pairs, mark_parallel,
}

positive-least : (o : Option ℤ) {n : ℕ} → positive o ≡ some n → 1 ≤ n
positive-least none h = absurd (ground (arith, h))
positive-least (some (pos zero)) h = absurd (ground (arith, h))
positive-least (some (pos (suc n))) h = ground (arith, h)
positive-least (some (negsuc n)) h = absurd (ground (arith, h))

parse_range-Ordered :
    (t : Text × Option Text) (r : ℕ × ℕ) → parse_range t ≡ some r → (1 ≤ r.0) × (r.0 ≤ r.1)
unfolding parse_range
parse_range-Ordered (first, none) r h = elim (Option-cases (positive (atoi (trim_space first)))) [
  | inl e ↦ absurd (ground (arith, rw (parse_range, e) at h))
  | inr (a, e) ↦
      let same : some (a, a) ≡ some r = rw (parse_range, e) at h in
      let is : (a, a) ≡ r = ground (arith, same) in
      rw (← is) (positive-least (atoi (trim_space first)) e, omega arith)
]
parse_range-Ordered (first, some last) r h =
    elim (Option-cases (positive (atoi (trim_space first)))) [
      | inl e ↦ absurd (ground (arith, rw (parse_range, e) at h))
      | inr (a, e) ↦ elim (Option-cases (positive (atoi (trim_space last)))) [
        | inl g ↦ absurd (ground (arith, rw (parse_range, e, g) at h))
        | inr (b, g) ↦ elim (Bool-cases (leb a b)) [
          | inr l ↦ absurd (ground (arith, rw (parse_range, e, g, l) at h))
          | inl l ↦
              let same : some (a, b) ≡ some r = rw (parse_range, e, g, l) at h in
              let is : (a, b) ≡ r = ground (arith, same) in
              rw (← is) (positive-least (atoi (trim_space first)) e, ground (arith, l))
        ]
      ]
    ]

-- The periods of a cell that is read run from a first, at least one, to a last.
parse_periods-Ordered :
    (cell : Text) (r : ℕ × ℕ) → parse_periods cell ≡ ok r → (1 ≤ r.0) × (r.0 ≤ r.1)
unfolding parse_periods
parse_periods-Ordered cell r h = elim (Bool-cases (text_eq (trim_space cell) [])) [
  | inl e ↦ absurd (ground (arith, rw (parse_periods, e) at h))
  | inr e ↦ elim (Option-cases (parse_range (cut_dash (trim_space cell)))) [
    | inl g ↦ absurd (ground (arith, rw (parse_periods, e, g) at h))
    | inr (s, g) ↦
        let same : ok s ≡ ok r = rw (parse_periods, e, g) at h in
        let is : s ≡ r = ground (arith, same) in
        rw (← is) (parse_range-Ordered (cut_dash (trim_space cell)) s g)
  ]
]

parse_weekday-bounds : (cell : Text) (n : ℕ) → parse_weekday cell ≡ ok n → (1 ≤ n) × (n ≤ 7)
unfolding parse_weekday
parse_weekday-bounds cell n h = elim (Bool-cases (text_eq (trim_space cell) [])) [
  | inl e ↦ absurd (ground (arith, rw (parse_weekday, e) at h))
  | inr e ↦ elim (Option-cases (positive (atoi (trim_space cell)))) [
    | inl g ↦ absurd (ground (arith, rw (parse_weekday, e, g) at h))
    | inr (m, g) ↦ elim (Bool-cases (ltb 7 m)) [
      | inl l ↦ absurd (ground (arith, rw (parse_weekday, e, g, l) at h))
      | inr l ↦
          let same : ok m ≡ ok n = rw (parse_weekday, e, g, l) at h in
          let is : m ≡ n = ground (arith, same) in
          rw (← is) (positive-least (atoi (trim_space cell)) g, ground (arith, l))
    ]
  ]
]

parse_segment-least : (seg : Text) (g : Segment) → parse_segment seg ≡ some g → 1 ≤ g.first
unfolding parse_segment
parse_segment-least seg g h =
    let body = cut_dash (trim_space (trim_brackets (split_parity seg).1)) in
    elim (Option-cases (parse_range body)) [
      | inl e ↦ absurd (ground (arith, rw (parse_segment, e) at h))
      | inr (r, e) ↦
          let same : some (record { first = r.0; last = r.1; parity = (split_parity seg).0 })
              ≡ some g =
            rw (parse_segment, e) at h in
          let is : record { first = r.0; last = r.1; parity = (split_parity seg).0 } ≡ g =
            ground (arith, same) in
          rw (← is) (parse_range-Ordered body r e).0
    ]

names-least : (w : ℕ) (part : Text) → names w part ≡ true → 1 ≤ w
names-least w part h = elim (Option-cases (parse_segment (trim_space part))) [
  | inl e ↦ absurd (ground (arith, rw e at h))
  | inr (g, e) ↦
      let covered : (not (text_eq (trim_space part) []) && covers g w) ≡ true = rw e at h in
      ground (arith, covered, parse_segment-least (trim_space part) g e)
]

-- The weeks of a cell that is read are numbered from one.
expand_weeks-least :
    (cell : Text) (ws : List ℕ) (w : ℕ) → expand_weeks cell ≡ ok ws → elem w ws ≡ true → 1 ≤ w
expand_weeks-least cell ws w h m =
    let same = (expand_weeks-names cell ws h).2 w in
    let (part, at, named) = mem_of_any (names w) (split_on b',' (trim_space cell)) (sym same ∙ m) in
    names-least w part named

-- A slot on a day of the week, from a first period to a last, in weeks from the first on that rise strictly, in a room.
pub record Proper (s : Slot) : Type 0 where
  pub day_least : 1 ≤ s.weekday
  pub day_most : s.weekday ≤ 7
  pub start_least : 1 ≤ s.period_start
  pub in_order : s.period_start ≤ s.period_end
  pub rising : Ascending s.weeks
  pub week_least : (w : ℕ) → elem w s.weeks ≡ true → 1 ≤ w
  pub in_room : text_eq s.classroom [] ≡ false

read_slot-Proper : (r : Row) → All Proper (read_slot r).0
unfolding read_slot
read_slot-Proper r = elim (Result-cases (parse_periods r.period_str)) [
  | inr (x, e) ↦ rw (read_slot, e) tt
  | inl (range, e) ↦ elim (Result-cases (expand_weeks r.week_str)) [
    | inr (x, f) ↦ rw (read_slot, e, f) tt
    | inl (weeks, f) ↦ elim (Result-cases (parse_weekday r.weekday_str)) [
      | inr (x, g) ↦ rw (read_slot, e, f, g) tt
      | inl (day, g) ↦ elim (Bool-cases (text_eq r.classroom [])) [
        | inl k ↦ rw (read_slot, e, f, g, k) tt
        | inr k ↦ elim (Bool-cases (is_non_physical_classroom r.classroom)) [
          | inl l ↦ rw (read_slot, e, f, g, k, l) tt
          | inr l ↦
              rw (read_slot, e, f, g, k, l)
                (
                  record {
                    day_least = (parse_weekday-bounds r.weekday_str day g).0;
                    day_most = (parse_weekday-bounds r.weekday_str day g).1;
                    start_least = (parse_periods-Ordered r.period_str range e).0;
                    in_order = (parse_periods-Ordered r.period_str range e).1;
                    rising = (expand_weeks-names r.week_str weeks f).0;
                    week_least = λ w m. expand_weeks-least r.week_str weeks w f m;
                    in_room = k;
                  },
                  tt,
                )
        ]
      ]
    ]
  ]
]

abbrev pub SlotsProper : SeqGroup → Type 0
SlotsProper g = All Proper g.slots

add_teacher-slots : (r : Row) (g : SeqGroup) → (add_teacher r g).slots ≡ g.slots
unfolding add_teacher
add_teacher-slots r g = ground arith

add_slot-Proper : (r : Row) (g : SeqGroup) → SlotsProper g → SlotsProper (add_slot r g).0
unfolding add_slot
add_slot-Proper r g h = elim (Bool-cases (any (text_eq (slot_key r)) g.slot_seen)) [
  | inl e ↦ rw (add_slot, e) h
  | inr e ↦ rw (add_slot, e) (All-append Proper g.slots (read_slot r).0 h (read_slot-Proper r))
]

add_row-Proper :
    (r : Row) (g : SeqGroup) → SlotsProper g → SlotsProper (add_slot r (add_teacher r g)).0
add_row-Proper r g h = add_slot-Proper r (add_teacher r g) (rw (add_teacher-slots r g) h)

put_row-Proper :
    (r : Row) (groups : List SeqGroup)
    → All SlotsProper groups
    → All SlotsProper (put_row r groups).0
unfolding put_row new_seq_group
put_row-Proper r [] h = (add_row-Proper r (new_seq_group r) tt, tt)
put_row-Proper r (g ∷ groups) h = elim (Bool-cases (text_eq g.seq r.course_seq)) [
  | inl e ↦ rw (put_row, e) (add_row-Proper r g h.0, h.1)
  | inr e ↦ rw (put_row, e) (h.0, put_row-Proper r groups h.1)
]

-- Every slot of every course that the rows are grouped to is on a day of the week, runs from a first
-- period to a last that is not before it, and has weeks that rise strictly and are numbered from one, whatever the cells of
-- the rows were.
pub group_by_seq-Proper :
    (rows : List Row) (groups : List SeqGroup) (warnings : List Warning)
    → All SlotsProper groups
    → All SlotsProper (group_by_seq rows groups warnings).0
unfolding group_by_seq
group_by_seq-Proper [] groups warnings h = h
group_by_seq-Proper (r ∷ rows) groups warnings h = elim (Bool-cases (text_eq r.course_seq [])) [
  | inl e ↦ rw (group_by_seq, e) (group_by_seq-Proper rows groups _ h)
  | inr e ↦
      rw (group_by_seq, e)
        (group_by_seq-Proper rows (put_row r groups).0 _ (put_row-Proper r groups h))
]

mark-slots : (pairs : List Pair) (g : SeqGroup) → (mark pairs g).slots ≡ g.slots
mark-slots pairs g = elim (Bool-cases (any (skips g.seq) pairs)) [
  | inl e ↦ rw e refl
  | inr e ↦ rw e refl
]

mark-Proper :
    (pairs : List Pair) (groups : List SeqGroup)
    → All SlotsProper groups
    → All SlotsProper (map (mark pairs) groups)
mark-Proper pairs [] h = tt
mark-Proper pairs (g ∷ groups) h = (rw (mark-slots pairs g) h.0, mark-Proper pairs groups h.1)

pub mark_parallel-Proper :
    (groups : List SeqGroup) → All SlotsProper groups → All SlotsProper (mark_parallel groups).0
unfolding mark_parallel
mark_parallel-Proper groups h = mark-Proper (collect_pairs groups []) groups h
