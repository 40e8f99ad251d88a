-- ===== src/Attendance/Codes.antt =====
-- The codes of checkins: their text, and the loop that looks for a free one.
use ocm.Prelude.{
  ℕ, zero, suc, ◌+◌, ◌-◌, ◌*◌, ◌≤◌, ◌<◌, ◌==◌, ap, ◌∙◌, true, ◌≡◌, refl, inl, inr, false, [], ◌∷◌,
  arith, Faults, ok, Bool-cases,
}
use mathlib.Core.Path.{subst}
use ocm.Prelude.Text.{Text}
use ocm.Attendance.{Checkin, Db}
use ocm.Attendance.Create.{six_digits, insert_loop, code_taken, with_checkin}

-- The number that six digits write.
unfoldable pub code_value : Text → ℕ
code_value (a ∷ b ∷ c ∷ d ∷ e ∷ f ∷ []) =
    (a - 48) * 100000
    + (b - 48) * 10000
    + (c - 48) * 1000
    + (d - 48) * 100
    + (e - 48) * 10
    + (f - 48)
code_value _ = 0

-- The whole outcome of the loop from some attempt on: the row is inserted under the code of the first
-- draw that is free.
pub data Inserted (f : Faults) (draw : ℕ → ℕ) (row : Text → Checkin) (left at : ℕ) (last : ℕ)
    (db : Db) : Type 0 where
  under :
      (j : ℕ)
      → at ≤ j
      → j ≤ last
      → code_taken (six_digits (draw j)) db.checkins ≡ false
      → ((n : ℕ) → at ≤ n → n < j → code_taken (six_digits (draw n)) db.checkins ≡ true)
      → insert_loop f draw row left at db
        ≡ (with_checkin (row (six_digits (draw j))) db, ok db.next_id)
      → Inserted f draw row left at last db

insert_loop_now :
    (f : Faults) (draw : ℕ → ℕ) (row : Text → Checkin) (left at last : ℕ) (db : Db)
    → ((n : ℕ) → f n ≡ false)
    → at ≤ last
    → code_taken (six_digits (draw at)) db.checkins ≡ false
    → Inserted f draw row left at last db
unfolding insert_loop
insert_loop_now f draw row zero at last db calm h free =
    under at (omega arith) h free (λ n le lt. absurd (omega (arith, le, lt)))
      (rw (insert_loop, calm (suc at), free) refl)
insert_loop_now f draw row (suc left) at last db calm h free =
    under at (omega arith) h free (λ n le lt. absurd (omega (arith, le, lt)))
      (rw (insert_loop, calm (suc at), free) refl)

insert_loop_finds :
    (f : Faults) (draw : ℕ → ℕ) (row : Text → Checkin) (left at k : ℕ) (db : Db)
    → ((n : ℕ) → f n ≡ false)
    → k ≤ left
    → code_taken (six_digits (draw (at + k))) db.checkins ≡ false
    → Inserted f draw row left at (at + k) db
unfolding insert_loop
insert_loop_finds f draw row left at zero db calm h free =
    let here : at + zero ≡ at = omega arith in
    insert_loop_now f draw row left at (at + zero) db calm (omega arith) (rw here at free)
insert_loop_finds f draw row zero at (suc k) db calm h free = absurd (omega (arith, h))
insert_loop_finds f draw row (suc left) at (suc k) db calm h free =
    elim (Bool-cases (code_taken (six_digits (draw at)) db.checkins)) [
      | inr e ↦ insert_loop_now f draw row (suc left) at (at + suc k) db calm (omega arith) e
      | inl e ↦
          let shift : at + suc k ≡ suc at + k = omega arith in
          elim (insert_loop_finds f draw row left (suc at) k db calm (omega arith)
            (rw shift at free)) [
              | under j low high clear before all ↦
                  under j (omega arith) (omega arith) clear
                    (λ n le lt. elim (Bool-cases (n == at)) [
                      | inl q ↦
                          let same : n ≡ at = ground (arith, q) in
                          ap (λ x. code_taken (six_digits (draw x)) db.checkins) same ∙ e
                      | inr q ↦ before n (ground (arith, q, le)) lt
                    ])
                    (rw (insert_loop, calm (suc at), e) all)
            ]
    ]

-- Of the eleven draws of the loop of `CreateCheckin` one that is free is enough: where no statement
-- fails, the row is inserted under the code of the first draw that is free, nothing else changes, and
-- its id is answered.
pub eleven_draws :
    (f : Faults) (draw : ℕ → ℕ) (row : Text → Checkin) (k : ℕ) (db : Db)
    → ((n : ℕ) → f n ≡ false)
    → k ≤ 10
    → code_taken (six_digits (draw k)) db.checkins ≡ false
    → Inserted f draw row 10 0 k db
eleven_draws f draw row k db calm h free =
    let start : 0 + k ≡ k = omega arith in
    subst (λ last. Inserted f draw row 10 0 last db) start
      (insert_loop_finds f draw row 10 0 k db calm h (rw start free))
