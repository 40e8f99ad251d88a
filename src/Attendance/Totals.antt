-- ===== src/Attendance/Totals.antt =====
-- The counts of a checkin add up.
use ocm.Prelude.{
  ℕ, suc, ◌+◌, ◌≤◌, ◌≡◌, refl, ◌⊎◌, if◌then◌else◌, inl, inr, Bool, false, not, ◌&&◌, List, [], ◌∷◌,
  some, ◌==◌, any, arith, Bool-cases, count_where,
}
use ocm.Prelude.Int.{ℤ, pos}
use ocm.Attendance.{
  in_roster, RecordStatus, present, absent, late, leave, Record, Profile, Db, attends, roster_count,
  in_checkin_roster, of_checkin, counts_of, roster_sizes,
}
use ocm.Attendance.Writes.{has_keys}
use ocm.Attendance.History.{OneEach}

abbrev of_it : ℕ → Record → Bool
of_it id r = r.checkin_id == id

status_cases : (s : RecordStatus) → (s ≡ present) ⊎ ((s ≡ late) ⊎ ((s ≡ absent) ⊎ (s ≡ leave)))
status_cases present = inl refl
status_cases late = inr (inl refl)
status_cases absent = inr (inr (inl refl))
status_cases leave = inr (inr (inr refl))

-- Each record has one of the four statuses.
four_statuses :
    (id : ℕ) (rs : List Record)
    → count_where (of_checkin id present) rs
        + count_where (of_checkin id late) rs
        + count_where (of_checkin id absent) rs
        + count_where (of_checkin id leave) rs
      ≡ count_where (of_it id) rs
four_statuses id [] = omega arith
four_statuses id (r ∷ rs) = elim (Bool-cases (of_it id r)) [
  | inr e ↦ rw e (four_statuses id rs)
  | inl e ↦ elim (status_cases r.status) [
    | inl s ↦ rw (e, s) (omega (arith, four_statuses id rs))
    | inr (inl s) ↦ rw (e, s) (omega (arith, four_statuses id rs))
    | inr (inr (inl s)) ↦ rw (e, s) (omega (arith, four_statuses id rs))
    | inr (inr (inr s)) ↦ rw (e, s) (omega (arith, four_statuses id rs))
  ]
]

-- Whether one of some profiles puts the record of a checkin into a roster.
abbrev rostered : Db → ℕ → ℤ → List Profile → Record → Bool
rostered db id o ps r =
    r.checkin_id == id && any (λ p. p.user_id == r.user_id && attends db o p.admin_class) ps

none_counted :
    (id u : ℕ) (rs : List Record)
    → any (has_keys id u) rs ≡ false
    → count_where (has_keys id u) rs ≡ 0
none_counted id u [] h = refl
none_counted id u (r ∷ rs) h = elim (Bool-cases (has_keys id u r)) [
  | inl e ↦ absurd (ground (arith, rw e at h))
  | inr e ↦ rw e (none_counted id u rs (rw e at h))
]

at_most_one : (id u : ℕ) (rs : List Record) → OneEach rs → count_where (has_keys id u) rs ≤ 1
at_most_one id u [] o = omega arith
at_most_one id u (r ∷ rs) o = elim (Bool-cases (has_keys id u r)) [
  | inr e ↦ rw e (at_most_one id u rs o.1)
  | inl e ↦
      let here : r.checkin_id ≡ id = ground arith in
      let who : r.user_id ≡ u = ground arith in
      let zero_more : count_where (has_keys id u) rs ≡ 0 =
        none_counted id u rs (rw (here, who) at o.0) in
      rw e (omega arith)
]

-- One more profile adds at most the records of its user.
one_profile :
    (db : Db) (id : ℕ) (o : ℤ) (p : Profile) (ps : List Profile) (rs : List Record)
    → count_where (rostered db id o (p ∷ ps)) rs
      ≤ (if attends db o p.admin_class then count_where (has_keys id p.user_id) rs else 0)
        + count_where (rostered db id o ps) rs
one_profile db id o p ps [] = ground arith
one_profile db id o p ps (r ∷ rs) = ground (arith, one_profile db id o p ps rs)

no_profile :
    (db : Db) (id : ℕ) (o : ℤ) (rs : List Record) → count_where (rostered db id o []) rs ≡ 0
no_profile db id o [] = refl
no_profile db id o (r ∷ rs) = ground (arith, no_profile db id o rs)

roster_bound :
    (db : Db) (id : ℕ) (o : ℤ) (ps : List Profile) (rs : List Record)
    → OneEach rs
    → count_where (rostered db id o ps) rs ≤ count_where (λ p. attends db o p.admin_class) ps
roster_bound db id o [] rs one = omega (arith, no_profile db id o rs)
roster_bound db id o (p ∷ ps) rs one = ground (
  arith,
  one_profile db id o p ps rs,
  at_most_one id p.user_id rs one,
  roster_bound db id o ps rs one,
)

-- A record of the checkin whose user is not in the roster.
abbrev pub outside : Db → ℕ → ℤ → Record → Bool
outside db id o r = r.checkin_id == id && not (in_roster db o r.user_id)

inside_or_outside :
    (db : Db) (id : ℕ) (o : ℤ) (rs : List Record)
    → count_where (of_it id) rs
      ≡ count_where (in_checkin_roster db id o) rs + count_where (outside db id o) rs
inside_or_outside db id o [] = omega arith
inside_or_outside db id o (r ∷ rs) = ground (arith, inside_or_outside db id o rs)

-- The counts of a checkin of an offering cover each student of the roster and each record of a
-- student outside it once: present, late, absent and leave add up to the roster's size and the number
-- of those records, where a student has at most one record at a checkin.
pub counts_add_up :
    (db : Db) (id n : ℕ)
    → OneEach db.records
    → let c = counts_of db id (some (pos (suc n))) in
      c.present + c.late + c.absent + c.leave
      ≡ c.expected + count_where (outside db id (pos (suc n))) db.records
unfolding counts_of roster_sizes in_roster roster_count
counts_add_up db id n one = ground (
  arith,
  four_statuses id db.records,
  inside_or_outside db id (pos (suc n)) db.records,
  roster_bound db id (pos (suc n)) db.profiles db.records one,
)
