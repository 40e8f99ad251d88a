-- ===== src/Repair/Race.antt =====
-- What the stores' statements do when another call has changed the ticket since it was read.
use mathlib.Core.List.{Memᴰ}
use ocm.Prelude.{
  ℕ, ◌≡◌, ◌⊎◌, inl, inr, refl, ap, Bool, true, false, List, [], ◌∷◌, some, arith, Faults, ok,
  Result-cases, Bool-cases, update_where, mem_of_update_where,
}
use ocm.Repair.{
  Status, completed, confirmed, Repair, Db, RepairUpdate, is_confirmed, get, update, update_check,
  confirm, confirm_check, has_id, to_confirm, updated, confirmed_row, may_set, set_repair,
}

updated_there :
    (id : ℕ) (f : Repair → Repair) (x : Repair) (rs : List Repair)
    → x.id ≡ id
    → Memᴰ x rs
    → Memᴰ (f x) (update_where (has_id id) f rs)
updated_there id f x [] e m = elim m [ ]
updated_there id f x (r ∷ rs) e (Memᴰ.head h) =
    let hit : has_id id r ≡ true = ground (arith, ap (λ y. y.id) h) in rw hit (Memᴰ.head (ap f h))
updated_there id f x (r ∷ rs) e (Memᴰ.tail m) = Memᴰ.tail (updated_there id f x rs e m)

update_check_passed :
    (failed : Bool) (seen : Db) (id : ℕ) (u : RepairUpdate) (s : Status) (r : Repair)
    → get failed seen id ≡ ok r
    → is_confirmed r.status ≡ false
    → u.status ≡ some s
    → may_set s ≡ true
    → update_check failed seen id u ≡ ok s
unfolding update_check
update_check_passed failed seen id u s r g c e m = ground arith

-- An update that read the ticket before its confirmation takes a confirmed ticket back to the status
-- that it asks for: the UPDATE statement selects by id alone.
pub update_reopens :
    (fails : Faults) (id : ℕ) (u : RepairUpdate) (s : Status) (user : ℕ) (seen db : Db)
    (r x : Repair)
    → get (fails 0) seen id ≡ ok r
    → is_confirmed r.status ≡ false
    → u.status ≡ some s
    → may_set s ≡ true
    → fails 1 ≡ false
    → Memᴰ x db.repairs
    → x.id ≡ id
    → x.status ≡ confirmed
    → Memᴰ (updated s u.remark user x) (update fails id u user seen db).0.repairs
      × (is_confirmed (updated s u.remark user x).status ≡ false)
unfolding update
update_reopens fails id u s user seen db r x g c e may f m same was = (
  rw (update_check_passed (fails 0) seen id u s r g c e may, update)
      (rw f (updated_there id (updated s u.remark user) x db.repairs same m)),
  ground arith,
)

confirmed_from :
    (id : ℕ) (r' : Repair) (rs : List Repair)
    → Memᴰ r' (update_where (to_confirm id) confirmed_row rs)
    → Memᴰ r' rs
      ⊎ ((r : Repair) × Memᴰ r rs × (r.id ≡ id) × (r.status ≡ completed) × (r' ≡ confirmed_row r))
confirmed_from id r' rs m = elim (mem_of_update_where (to_confirm id) confirmed_row rs m) [
  | inl t ↦ inl t
  | inr (r, t, h, g) ↦ inr (r, t, ground arith, ground arith, g)
]

confirm_table :
    (fails : Faults) (id user : ℕ) (seen db : Db)
    → ((confirm fails id user seen db).0 ≡ db)
      ⊎ ((confirm fails id user seen db).0 ≡ set_repair (to_confirm id) confirmed_row db)
unfolding confirm
confirm_table fails id user seen db = elim (Result-cases (confirm_check (fails 0) seen id user)) [
  | inl (r, e) ↦
      rw (e, confirm)
        (elim (Bool-cases (is_confirmed r.status)) [
          | inl done ↦ rw done (inl refl)
          | inr open_still ↦
              rw open_still
                (elim (Bool-cases (fails 1)) [ inl f ↦ rw f (inl refl) | inr f ↦ rw f (inr refl) ])
        ])
  | inr (x, e) ↦ rw (e, confirm) (inl refl)
]
