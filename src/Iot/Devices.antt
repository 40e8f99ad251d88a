-- ===== src/Iot/Devices.antt =====
-- The devices of the registry under messages and operators.
use ocm.Prelude.{
  ℕ, ◌≡◌, refl, inl, inr, Bool, true, false, List, [], ◌∷◌, Option, none, find, arith, Faults,
  Bool-cases, Option-cases, update_where, delete_where,
}
use ocm.Prelude.Text.{Text}
use ocm.Iot.Registry.{
  pending, Device, Db, has_id, has_identity, update_state, seen_row, new_device, insert_or_update,
  upsert_state, ensure_device, of_source, gone, mark_source_offline,
}

-- What a call may do to the table of devices; `claims` tells the id of the device that it approves.
pub data Change (claims : ℕ → Bool) (old new : List Device) (next : ℕ) : Type 0 where
  same : new ≡ old → Change claims old new next
  added :
      (d : Device)
      → d.status ≡ pending
      → d.id ≡ next
      → find (has_identity d.site d.source_id d.external_id) old ≡ none
      → new ≡ d ∷ old
      → Change claims old new next
  moved :
      (p : Device → Bool) (f : Device → Device)
      → ((d : Device)
          → ((f d).id ≡ d.id)
            × ((f d).site ≡ d.site)
            × ((f d).source_id ≡ d.source_id)
            × ((f d).external_id ≡ d.external_id))
      → ((d : Device)
          → p d ≡ true
          → d.status ≡ pending
          → claims d.id ≡ false
          → (f d).status ≡ pending)
      → new ≡ update_where p f old
      → Change claims old new next
  removed : (id : ℕ) → new ≡ delete_where (has_id id) old → Change claims old new next

abbrev pub Changes : (ℕ → Bool) → Db → Db → Type 0
Changes claims db db' = Change claims db.devices db'.devices db.next_device

pub update_state-Change :
    (claims : ℕ → Bool) (f : Faults) (n id : ℕ) (s : Option Text) (at : ℕ) (db : Db)
    → Changes claims db (update_state f n id s at db).0
unfolding update_state
update_state-Change claims f n id s at db = elim (Bool-cases (f n)) [
  | inl e ↦ rw e (same refl)
  | inr e ↦ rw e (
      moved (has_id id) (seen_row s at) (λ d. (refl, refl, refl, refl)) (λ d h q c. rw q refl) refl)
]

pub insert-Change :
    (claims : ℕ → Bool) (f : Faults) (site source external hint : Text) (s : Option Text) (at : ℕ)
    (db : Db)
    → Changes claims db (insert_or_update f site source external hint s at db).0
unfolding insert_or_update
insert-Change claims f site source external hint s at db = elim (Bool-cases (f 1)) [
  | inl e ↦ rw e (same refl)
  | inr e ↦ elim (Option-cases (find (has_identity site source external) db.devices)) [
    | inl g ↦ rw (e, g) (added (new_device db site source external hint s at) refl refl g refl)
    | inr (d, g) ↦ elim (Bool-cases (f 2)) [
      | inl h ↦ rw (e, g, h) (same refl)
      | inr h ↦ rw (e, g, h) (update_state-Change claims f 3 d.id s at db)
    ]
  ]
]

pub upsert-Change :
    (claims : ℕ → Bool) (f : Faults) (site source external hint : Text) (s : Option Text) (at : ℕ)
    (seen db : Db)
    → Changes claims db (upsert_state f site source external hint s at seen db).0
unfolding upsert_state
upsert-Change claims f site source external hint s at seen db = elim (Bool-cases (f 0)) [
  | inl e ↦ rw e (same refl)
  | inr e ↦ elim (Option-cases (find (has_identity site source external) seen.devices)) [
    | inl g ↦ rw (e, g) (insert-Change claims f site source external hint s at db)
    | inr (d, g) ↦ rw (e, g) (update_state-Change claims f 1 d.id s at db)
  ]
]

pub ensure-Change :
    (claims : ℕ → Bool) (f : Faults) (site source external : Text) (now : ℕ) (first seen db : Db)
    → Changes claims db (ensure_device f site source external now first seen db).0
unfolding ensure_device
ensure-Change claims f site source external now first seen db = elim (Bool-cases (f 9)) [
  | inl e ↦ rw e (same refl)
  | inr e ↦ elim (Option-cases (find (has_identity site source external) first.devices)) [
    | inl g ↦ rw (e, g) (upsert-Change claims f site source external [] none now seen db)
    | inr (d, g) ↦ rw (e, g) (same refl)
  ]
]

pub offline-Change :
    (claims : ℕ → Bool) (broken : Bool) (site source : Text) (db : Db)
    → Changes claims db (mark_source_offline broken site source db).0
unfolding mark_source_offline
offline-Change claims true site source db = same refl
offline-Change claims false site source db =
    moved (of_source site source) gone (λ d. (refl, refl, refl, refl))
      (λ d h q c. absurd (ground (arith, rw q at h))) refl
