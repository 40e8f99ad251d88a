-- ===== src/Schedule/Active.antt =====
-- Which regime is in force on a date.
use mathlib.Core.List.{Memᴰ}
use ocm.Prelude.{
  ℕ, ◌≤◌, ◌<◌, ◌≡◌, ◌≢◌, refl, ◌⊎◌, inl, inr, List, [], ◌∷◌, Option, some, none, arith, All,
  All-mem, Bool-cases, leb, ltb, ◌&&◌, if◌then◌else◌,
}
use ocm.Calendar.{Date, month_day}
use ocm.Schedule.{Regime, Scan, effective, above, visit, scan, or_else, active_for}

-- Of the regimes seen, the last one that begins by today, and the last one of the year.
abbrev pub Begun : ℕ → List Regime → Option Regime → Type 0
Begun today rs none = All (λ r. today < effective r) rs
Begun today rs (some a) =
    Memᴰ a rs
    × (effective a ≤ today)
    × All (λ r. effective r ≤ today → effective r ≤ effective a) rs

abbrev pub Last : List Regime → Option Regime → Type 0
Last rs none = rs ≡ []
Last rs (some l) = Memᴰ l rs × All (λ r. effective r ≤ effective l) rs

All-imp {ℓ κ ι} :
    {A : Type ℓ} {P : A → Type κ} {Q : A → Type ι} (xs : List A)
    → ((x : A) → P x → Q x)
    → All P xs
    → All Q xs
All-imp [] f h = tt
All-imp (x ∷ xs) f h = (f x h.0, All-imp xs f h.1)

Begun-step :
    (today : ℕ) (rs : List Regime) (r : Regime) (a : Option Regime)
    → Begun today rs a
    → Begun today (r ∷ rs) (if leb (effective r) today && above (effective r) a then some r else a)
Begun-step today rs r none h = elim (Bool-cases (leb (effective r) today)) [
  | inl e ↦ rw e (
    Memᴰ.head refl,
    ground arith,
    ((λ _. omega arith), All-imp rs (λ x p q. absurd (omega arith)) h),
  )
  | inr e ↦ rw e (ground arith, h)
]
Begun-step today rs r (some a) h =
    elim (Bool-cases (leb (effective r) today && ltb (effective a) (effective r))) [
      | inl e ↦
          let lt : effective a < effective r = ground arith in
          rw e (
            Memᴰ.head refl,
            ground arith,
            ((λ _. omega arith), All-imp rs (λ x p q. omega (arith, p q)) h.2),
          )
      | inr e ↦ rw e (Memᴰ.tail h.0, h.1, ((λ q. ground arith), h.2))
    ]

Last-step :
    (rs : List Regime) (r : Regime) (l : Option Regime)
    → Last rs l
    → Last (r ∷ rs) (if above (effective r) l then some r else l)
Last-step rs r none h = rw h (Memᴰ.head refl, (omega arith, tt))
Last-step rs r (some l) h = elim (Bool-cases (ltb (effective l) (effective r))) [
  | inl e ↦
      let lt : effective l < effective r = ground arith in
      rw e (Memᴰ.head refl, (omega arith, All-imp rs (λ x p. omega arith) h.1))
  | inr e ↦ rw e (Memᴰ.tail h.0, (ground arith, h.1))
]

-- The regimes in the order in which the loop has gone through them, last first.
abbrev onto : List Regime → List Regime → List Regime
onto [] seen = seen
onto (r ∷ rs) seen = onto rs (r ∷ seen)

scan_lem :
    (today : ℕ) (rs seen : List Regime) (s : Scan)
    → Begun today seen s.active
    → Last seen s.latest
    → Begun today (onto rs seen) (scan today rs s).active
      × Last (onto rs seen) (scan today rs s).latest
unfolding scan visit
scan_lem today [] seen s a l = (a, l)
scan_lem today (r ∷ rs) seen s a l =
    scan_lem today rs (r ∷ seen) (visit today r s) (Begun-step today seen r s.active a)
      (Last-step seen r s.latest l)

mem_seen : {r : Regime} (rs seen : List Regime) → Memᴰ r seen → Memᴰ r (onto rs seen)
mem_seen [] seen m = m
mem_seen (x ∷ rs) seen m = mem_seen rs (x ∷ seen) (Memᴰ.tail m)

mem_onto : {r : Regime} (rs seen : List Regime) → Memᴰ r rs → Memᴰ r (onto rs seen)
mem_onto [] seen m = elim m [ ]
mem_onto (x ∷ rs) seen (Memᴰ.head e) = mem_seen rs (x ∷ seen) (Memᴰ.head e)
mem_onto (x ∷ rs) seen (Memᴰ.tail m) = mem_onto rs (x ∷ seen) m

of_onto : {r : Regime} (rs seen : List Regime) → Memᴰ r (onto rs seen) → Memᴰ r rs ⊎ Memᴰ r seen
of_onto [] seen m = inr m
of_onto (x ∷ rs) seen m = elim (of_onto rs (x ∷ seen) m) [
  | inl k ↦ inl (Memᴰ.tail k)
  | inr (Memᴰ.head e) ↦ inl (Memᴰ.head e)
  | inr (Memᴰ.tail k) ↦ inr k
]

-- `r` is in force on a day: the one that began last by that day or, where none has begun yet this
-- year, the last one of the year before.
pub data InForce (rs : List Regime) (today : ℕ) (r : Regime) : Type 0 where
  begun :
      effective r ≤ today
      → ((x : Regime) → Memᴰ x rs → effective x ≤ today → effective x ≤ effective r)
      → InForce rs today r
  carried :
      ((x : Regime) → Memᴰ x rs → (today < effective x) × (effective x ≤ effective r))
      → InForce rs today r

first_in : {r : Regime} (rs : List Regime) → Memᴰ r rs → rs ≡ [] → ⊥
first_in [] m e = elim m [ ]
first_in (x ∷ rs) m e = cc

chosen :
    (today : ℕ) (rs : List Regime) (a l : Option Regime)
    → rs ≢ []
    → ((r : Regime) → Memᴰ r (onto rs []) → Memᴰ r rs)
    → Begun today (onto rs []) a
    → Last (onto rs []) l
    → (r : Regime) × (or_else a l ≡ some r) × Memᴰ r rs × InForce rs today r
unfolding or_else
chosen today rs (some r) l ne back b e =
    (r, refl, back r b.0, begun b.1 (λ x m. All-mem _ (onto rs []) (mem_onto rs [] m) b.2))
chosen today [] none l ne back b e = absurd (ne refl)
chosen today (x ∷ rs) none none ne back b e =
    elim (first_in (onto (x ∷ rs) []) (mem_onto (x ∷ rs) [] (Memᴰ.head refl)) e) [ ]
chosen today (x ∷ rs) none (some r) ne back b e = (
  r,
  refl,
  back r e.0,
  carried (λ y m. (
    All-mem _ (onto (x ∷ rs) []) (mem_onto (x ∷ rs) [] m) b,
    All-mem _ (onto (x ∷ rs) []) (mem_onto (x ∷ rs) [] m) e.1,
  )),
)

-- Whenever there is a regime at all one is found, it is one of the list, and it is in force on that
-- date.
pub active_for-InForce :
    (rs : List Regime) (date : Date)
    → rs ≢ []
    → (r : Regime) × (active_for rs date ≡ some r) × Memᴰ r rs × InForce rs (month_day date) r
unfolding active_for
active_for-InForce rs date ne =
    let (a, l) =
      scan_lem (month_day date) rs [] (record { active = none; latest = none }) tt refl in
    chosen (month_day date) rs _ _ ne only a l
  where
    only : (r : Regime) → Memᴰ r (onto rs []) → Memᴰ r rs
    only r m = elim (of_onto rs [] m) [ inl k ↦ k | inr k ↦ elim k [ ] ]
