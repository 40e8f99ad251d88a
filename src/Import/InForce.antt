-- ===== src/Import/InForce.antt =====
-- What the check of the sessions against the regimes establishes.
use mathlib.Core.List.{Memᴰ}
use ocm.Prelude.{
  ℕ, suc, ◌-◌, ◌≤◌, ◌≡◌, refl, sym, ap, ◌∙◌, inl, inr, Bool, true, not, ◌&&◌, ◌||◌, List, [], ◌∷◌,
  ◌++◌, Option, none, some, any, elem, find, length, leb, ◌==◌, Bool-cases, Option-cases, ok, All,
  All-mem, mem_of_any, arith,
}
use ocm.Prelude.Ordered.{elem-dedup}
use ocm.Prelude.Text.{Text, text_eq, text_eq_sound, text_eq_refl}
use ocm.Calendar.{Date, parse_date}
use ocm.Schedule.{Regime, active_for, period_index_set}
use ocm.Import.Weeks.{elem-weeks_from}
use ocm.Import.Regimes.{
  SessionRec, DayPeriods, periods_of, put_day, periods_by_date, Violation, no_regime, bad_of,
  collect_bad, verdict, validate_regimes,
}

-- A day's period is listed.
abbrev listed : Text → ℕ → List DayPeriods → Bool
listed date p = any (λ d. text_eq d.date date && elem p d.periods)

text_eq_same : (s t u : Text) → text_eq s t ≡ true → text_eq s u ≡ text_eq t u
text_eq_same s t u h = ap (λ x. text_eq x u) (text_eq_sound s t h)

listed-put_day :
    (date : Text) (p : ℕ) (at : Text) (ps : List ℕ) (days : List DayPeriods)
    → listed date p (put_day at ps days) ≡ (text_eq at date && elem p ps || listed date p days)
unfolding put_day
listed-put_day date p at ps [] = ground (arith, elem-dedup p ps [])
listed-put_day date p at ps (d ∷ days) = elim (Bool-cases (text_eq d.date at)) [
  | inl e ↦ ground (arith, e, text_eq_same d.date at date e, elem-dedup p ps d.periods)
  | inr e ↦ ground (arith, e, listed-put_day date p at ps days)
]

listed-kept :
    (date : Text) (p : ℕ) (sessions : List SessionRec) (days : List DayPeriods)
    → listed date p days ≡ true
    → listed date p (periods_by_date sessions days) ≡ true
unfolding periods_by_date
listed-kept date p [] days h = h
listed-kept date p (s ∷ sessions) days h =
    listed-kept date p sessions (put_day s.date (periods_of s) days)
      (ground (arith, h, listed-put_day date p s.date (periods_of s) days))

-- Every period of every session is listed on its date.
listed-session :
    (s : SessionRec) (p : ℕ) (sessions : List SessionRec) (days : List DayPeriods)
    → Memᴰ s sessions
    → s.period_start ≤ p
    → p ≤ s.period_end
    → listed s.date p (periods_by_date sessions days) ≡ true
unfolding periods_by_date
listed-session s p [] days m low high = elim m [ ]
listed-session s p (x ∷ sessions) days (Memᴰ.head e) low high =
    listed-kept s.date p sessions (put_day x.date (periods_of x) days) (
      rw (← e) (
        ground (
          arith,
          listed-put_day s.date p s.date (periods_of s) days,
          text_eq_refl s.date,
          elem-weeks_from (suc s.period_end - s.period_start) s.period_start p,
          low,
          high,
        )))
listed-session s p (x ∷ sessions) days (Memᴰ.tail m) low high =
    listed-session s p sessions (put_day x.date (periods_of x) days) m low high

-- What the check asks of a day.
abbrev Fine : List Regime → DayPeriods → Type 0
Fine regimes d =
    (date : Date)
    → parse_date d.date ≡ some date
    → (r : Regime) × (active_for regimes date ≡ some r)
      × (find (λ p. not (elem p (period_index_set r))) d.periods ≡ none)

bad-none : (date : Text) (r : Regime) (o : Option ℕ) → bad_of date r o ≡ [] → o ≡ none
bad-none date r none h = refl
bad-none date r (some p) h = absurd (ground (arith, h))

append-none : {A : Type 0} (xs ys : List A) → xs ++ ys ≡ [] → (xs ≡ []) × (ys ≡ [])
append-none [] ys h = (refl, h)
append-none (x ∷ xs) ys h = absurd (ground (arith, h))

many-some : {A : Type 0} (xs : List A) → leb 5 (length xs) ≡ true → xs ≡ [] → ⊥
many-some [] h e = ground (arith, h)
many-some (x ∷ xs) h e = ground (arith, e)

collect_bad-Fine :
    (regimes : List Regime) (days : List DayPeriods) (bad : List Violation)
    → collect_bad regimes days bad ≡ []
    → (bad ≡ []) × All (Fine regimes) days
unfolding collect_bad
collect_bad-Fine regimes [] bad h = (h, tt)
collect_bad-Fine regimes (d ∷ days) bad h = elim (Option-cases (parse_date d.date)) [
  | inl e ↦
      let (clean, fine) = collect_bad-Fine regimes days bad (rw (collect_bad, e) at h) in
      (clean, ((λ date g. absurd (ground (arith, e, g))), fine))
  | inr (date, e) ↦ elim (Option-cases (active_for regimes date)) [
    | inl g ↦
        let (clean, fine) =
          collect_bad-Fine regimes days (bad ++ no_regime d.date ∷ [])
            (rw (collect_bad, e, g) at h) in
        let none_new = (append-none bad (no_regime d.date ∷ []) clean).1 in
        absurd (ground (arith, none_new))
    | inr (r, g) ↦
        let found = find (λ p. not (elem p (period_index_set r))) d.periods in
        let more : List Violation = bad ++ bad_of d.date r found in
        elim (Bool-cases (leb 5 (length more))) [
          | inl m ↦ absurd (many-some more m (rw (collect_bad, e, g, m) at h))
          | inr m ↦
              let (clean, fine) =
                collect_bad-Fine regimes days more (rw (collect_bad, e, g, m) at h) in
              let (empty, none_new) = append-none bad (bad_of d.date r found) clean in
              (
                empty,
                (
                  (λ other k.
                      let same : some date ≡ some other = sym e ∙ k in
                      let this : date ≡ other = ground (arith, same) in
                      (
                        r,
                        ap (active_for regimes) (sym this) ∙ g,
                        bad-none d.date r found none_new,
                      )),
                  fine,
                ),
              )
        ]
  ]
]

find-none :
    (q : ℕ → Bool) (p : ℕ) (ps : List ℕ)
    → find (λ x. not (q x)) ps ≡ none
    → elem p ps ≡ true
    → q p ≡ true
find-none q p [] h m = absurd (ground (arith, m))
find-none q p (x ∷ ps) h m = elim (Bool-cases (q x)) [
  | inr e ↦ absurd (ground (arith, rw e at h))
  | inl e ↦ elim (Bool-cases (x == p)) [
    | inl g ↦ let same : x ≡ p = ground (arith, g) in ap q (sym same) ∙ e
    | inr g ↦ find-none q p ps (rw e at h) (rw g at m)
  ]
]

verdict-ok : (bad : List Violation) → verdict bad ≡ ok tt → bad ≡ []
verdict-ok [] h = refl
verdict-ok (v ∷ bad) h = absurd (ground (arith, h))

-- One period of one session.
period-InForce :
    (sessions : List SessionRec) (regimes : List Regime) (s : SessionRec) (date : Date) (p : ℕ)
    → All (Fine regimes) (periods_by_date sessions [])
    → Memᴰ s sessions
    → parse_date s.date ≡ some date
    → s.period_start ≤ p
    → p ≤ s.period_end
    → (r : Regime) × (active_for regimes date ≡ some r) × (elem p (period_index_set r) ≡ true)
period-InForce sessions regimes s date p fine m e low high =
    let days = periods_by_date sessions [] in
    let (d, at, h) =
      mem_of_any (λ x. text_eq x.date s.date && elem p x.periods) days
        (listed-session s p sessions [] m low high) in
    let same : d.date ≡ s.date = text_eq_sound d.date s.date (ground (arith, h)) in
    let (r, active, none_bad) = All-mem (Fine regimes) days at fine date (ap parse_date same ∙ e) in
    (
      r,
      active,
      find-none (λ x. elem x (period_index_set r)) p d.periods none_bad (ground (arith, h)),
    )

-- A list of sessions that passes the check: on the date of each of them some regime is in force, and
-- it has every period of the session, from the first to the last.
pub validate_regimes-InForce :
    (sessions : List SessionRec) (regimes : List Regime) (s : SessionRec) (date : Date)
    → validate_regimes sessions regimes ≡ ok tt
    → Memᴰ s sessions
    → parse_date s.date ≡ some date
    → s.period_start ≤ s.period_end
    → (r : Regime) × (active_for regimes date ≡ some r)
      × ((p : ℕ) → s.period_start ≤ p → p ≤ s.period_end → elem p (period_index_set r) ≡ true)
unfolding validate_regimes
validate_regimes-InForce sessions regimes s date h m e some_period =
    let none_bad = verdict-ok (collect_bad regimes (periods_by_date sessions []) []) h in
    let fine = (collect_bad-Fine regimes (periods_by_date sessions []) [] none_bad).1 in
    let (r, active, first) =
      period-InForce sessions regimes s date s.period_start fine m e (omega arith) some_period in
    (
      r,
      active,
      λ p low high.
          let (other, also, has) = period-InForce sessions regimes s date p fine m e low high in
          let one : some other ≡ some r = sym also ∙ active in
          let same : other ≡ r = ground (arith, one) in
          ap (λ x. elem p (period_index_set x)) (sym same) ∙ has,
    )
