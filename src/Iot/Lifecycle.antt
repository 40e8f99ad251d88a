-- ===== src/Iot/Lifecycle.antt =====
-- The life of a command under any sequence of the calls that make it, move it or delete it.
use mathlib.Core.List.{Memᴰ}
use ocm.Prelude.{
  ℕ, ◌≡◌, refl, inl, inr, Bool, true, false, not, ◌||◌, List, [], ◌∷◌, any, arith, Faults,
  Bool-cases, update_where, mem-update_where, mem_of_update_where, delete_where, mem-delete_where,
  mem_of_delete_where, All, ◌==◌,
}
use ocm.Prelude.Text.{Text, text_eq}
use ocm.Iot.Registry.{
  CommandStatus, queued, delivered, acked, failed, expired, Command, Db, delete_device,
  purge_expired, old_command,
}
use ocm.Iot.Commands.{
  new_command, create_command, transition_command, mark_command_published, fail_command, apply_ack,
  expire_commands, Outcome, refused, outcome_status, is_live, is_queued, to_move, moved_row,
  overdue, expired_row,
}

pub data Call : Type 0 where
  creates : Faults → Text → ℕ → Text → ℕ → ℕ → Call
  publishes : Faults → Text → Call
  gives_up : Faults → Text → Text → Call
  acks : Faults → Text → Outcome → Text → Call
  expires : Bool → ℕ → Call
  deletes : Faults → ℕ → Call
  purges : Faults → ℕ → ℕ → Call

unfoldable pub step : Call → Db → Db
step (creates f id device kind now ttl) db = (create_command f id device kind now ttl db).0
step (publishes f id) db = (mark_command_published f id db).0
step (gives_up f id detail) db = (fail_command f id detail db).0
step (acks f id o detail) db = (apply_ack f id o detail db).0
step (expires broken now) db = (expire_commands broken now db).0
step (deletes f id) db = (delete_device f id db).0
step (purges f now window) db = (purge_expired f now window db).0

unfoldable pub run : List Call → Db → Db
run [] db = db
run (x ∷ xs) db = run xs (step x db)

-- The edges of the states of a command.
infix 40 ◌⟶◌
pub data ◌⟶◌ : CommandStatus → CommandStatus → Type 0 where
  publish : queued ⟶ delivered
  settle : {s : CommandStatus} → is_live s ≡ true → (o : Outcome) → s ⟶ outcome_status o
  expire : {s : CommandStatus} → is_live s ≡ true → s ⟶ expired

-- A call does not delete a command: it is not the deletion of the command's device, nor a purge by
-- which the command is too old.
abbrev pub spares : Command → Call → Bool
spares c (deletes f id) = not (c.device_id == id)
spares c (purges f now window) = not (old_command now window c)
spares c (creates f id device kind now ttl) = true
spares c (publishes f id) = true
spares c (gives_up f id detail) = true
spares c (acks f id o detail) = true
spares c (expires broken now) = true

-- What one call does to the table of commands; `keep` are the commands that it spares.
data Change (keep : Command → Bool) (db db' : Db) : Type 0 where
  same : db'.commands ≡ db.commands → Change keep db db'
  removed :
      (p : Command → Bool)
      → ((c : Command) → keep c ≡ true → p c ≡ false)
      → db'.commands ≡ delete_where p db.commands
      → Change keep db db'
  added :
      (c : Command)
      → c.status ≡ queued
      → any (λ d. text_eq d.command_id c.command_id) db.commands ≡ false
      → db'.commands ≡ c ∷ db.commands
      → Change keep db db'
  moved :
      (p : Command → Bool) (f : Command → Command)
      → ((c : Command) → p c ≡ true → (c.status ⟶ (f c).status) × (is_live c.status ≡ true))
      → ((c : Command) → (f c).command_id ≡ c.command_id)
      → db'.commands ≡ update_where p f db.commands
      → Change keep db db'

transition-Change :
    (keep : Command → Bool) (f : Faults) (id : Text) (from : CommandStatus → Bool)
    (to : CommandStatus) (detail : Text) (db : Db)
    → ((s : CommandStatus) → from s ≡ true → (s ⟶ to) × (is_live s ≡ true))
    → Change keep db (transition_command f id from to detail db).0
unfolding transition_command
transition-Change keep f id from to detail db edge = elim (Bool-cases (f 0)) [
  | inl e ↦ rw e (same refl)
  | inr e ↦ rw e (
      moved (to_move from id) (moved_row to detail) (λ c h. edge c.status (ground arith))
        (λ c. refl) refl)
]

queued_edge : (s : CommandStatus) → is_queued s ≡ true → (s ⟶ delivered) × (is_live s ≡ true)
queued_edge queued h = (publish, refl)
queued_edge delivered h = absurd (ground arith)
queued_edge acked h = absurd (ground arith)
queued_edge failed h = absurd (ground arith)
queued_edge expired h = absurd (ground arith)

create-Change :
    (keep : Command → Bool) (f : Faults) (id : Text) (device : ℕ) (kind : Text) (now ttl : ℕ)
    (db : Db)
    → Change keep db (create_command f id device kind now ttl db).0
unfolding create_command
create-Change keep f id device kind now ttl db =
    elim (Bool-cases (f 0 || any (λ c. text_eq c.command_id id) db.commands)) [
      | inl e ↦ rw e (same refl)
      | inr e ↦ rw e (added (new_command id device kind now ttl) refl (ground arith) refl)
    ]

expire-Change :
    (keep : Command → Bool) (broken : Bool) (now : ℕ) (db : Db)
    → Change keep db (expire_commands broken now db).0
unfolding expire_commands
expire-Change keep true now db = same refl
expire-Change keep false now db =
    moved (overdue now) expired_row
      (λ c h. let live : is_live c.status ≡ true = ground arith in (expire live, live)) (λ c. refl)
      refl

delete-Change :
    (f : Faults) (id : ℕ) (db : Db)
    → Change (λ c. spares c (deletes f id)) db (delete_device f id db).0
unfolding delete_device
delete-Change f id db = elim (Bool-cases (f 0)) [
  | inl a ↦ rw a (same refl)
  | inr a ↦ elim (Bool-cases (f 1)) [
    | inl b ↦ rw (a, b) (same refl)
    | inr b ↦ elim (Bool-cases (f 2)) [
      | inl d ↦ rw (a, b, d) (removed (λ c. c.device_id == id) (λ c k. ground (arith, k)) refl)
      | inr d ↦ rw (a, b, d) (removed (λ c. c.device_id == id) (λ c k. ground (arith, k)) refl)
    ]
  ]
]

purge-Change :
    (f : Faults) (now window : ℕ) (db : Db)
    → Change (λ c. spares c (purges f now window)) db (purge_expired f now window db).0
unfolding purge_expired
purge-Change f now window db = elim (Bool-cases (f 0)) [
  | inl a ↦ rw a (same refl)
  | inr a ↦ elim (Bool-cases (f 1)) [
    | inl b ↦ rw (a, b) (same refl)
    | inr b ↦ rw (a, b) (removed (old_command now window) (λ c k. ground (arith, k)) refl)
  ]
]

step-Change : (x : Call) (db : Db) → Change (λ c. spares c x) db (step x db)
unfolding step mark_command_published fail_command apply_ack
step-Change (creates f id device kind now ttl) db = create-Change _ f id device kind now ttl db
step-Change (publishes f id) db = transition-Change _ f id is_queued delivered [] db queued_edge
step-Change (gives_up f id detail) db =
    transition-Change _ f id is_live failed detail db (λ s h. (settle h refused, h))
step-Change (acks f id o detail) db =
    transition-Change _ f id is_live (outcome_status o) detail db (λ s h. (settle h o, h))
step-Change (expires broken now) db = expire-Change _ broken now db
step-Change (deletes f id) db = delete-Change f id db
step-Change (purges f now window) db = purge-Change f now window db

Change-settled :
    {keep : Command → Bool} {db db' : Db} (c : Command)
    → Change keep db db'
    → keep c ≡ true
    → is_live c.status ≡ false
    → Memᴰ c db.commands
    → Memᴰ c db'.commands
Change-settled c (same e) k s m = rw e m
Change-settled {db = db} c (removed p out e) k s m =
    rw e (mem-delete_where p db.commands m (out c k))
Change-settled c (added d q free e) k s m = rw e (Memᴰ.tail m)
Change-settled {db = db} c (moved p f edge ids e) k s m = elim (Bool-cases (p c)) [
  | inl h ↦ let live = (edge c h).1 in absurd (ground (arith, live))
  | inr h ↦ rw e (mem-update_where p f db.commands m h)
]

-- A command that is settled, as acknowledged, failed or expired, stays as it is under every sequence
-- of calls on commands, the deletion of other devices and purges by which it is not too old among
-- them: no late ack and no publish brings it back.
pub settled_command_stays :
    (xs : List Call) (db : Db) (c : Command)
    → is_live c.status ≡ false
    → All (λ x. spares c x ≡ true) xs
    → Memᴰ c db.commands
    → Memᴰ c (run xs db).commands
unfolding run
settled_command_stays [] db c s a m = m
settled_command_stays (x ∷ xs) db c s a m =
    settled_command_stays xs (step x db) c s a.1 (Change-settled c (step-Change x db) a.0 s m)

-- Where a command after a call comes from.
pub data Origin (db : Db) (c' : Command) : Type 0 where
  kept : Memᴰ c' db.commands → Origin db c'
  fresh :
      c'.status ≡ queued
      → any (λ d. text_eq d.command_id c'.command_id) db.commands ≡ false
      → Origin db c'
  went :
      (c : Command)
      → Memᴰ c db.commands
      → c'.command_id ≡ c.command_id
      → c.status ⟶ c'.status
      → Origin db c'

Change-Origin :
    {keep : Command → Bool} {db db' : Db} (c' : Command)
    → Change keep db db'
    → Memᴰ c' db'.commands
    → Origin db c'
Change-Origin c' (same e) m = kept (rw e at m)
Change-Origin {db = db} c' (removed p out e) m =
    kept (mem_of_delete_where p db.commands (rw e at m))
Change-Origin {db = db} c' (added d q free e) m = elim (rw e at m) [
  | Memᴰ.head h ↦ rw h (fresh q free)
  | Memᴰ.tail t ↦ kept t
]
Change-Origin {db = db} c' (moved p f edge ids e) m =
    elim (mem_of_update_where p f db.commands (rw e at m)) [
      | inl t ↦ kept t
      | inr (c, t, h, g) ↦ rw g (went c t (ids c) (edge c h).0)
    ]

-- After one call each command was there before as it is, or is new, queued and under an id that no
-- command had, or went along an edge: from queued to delivered, or from one of these two to
-- acknowledged, failed or expired.
pub command-Origin :
    (x : Call) (db : Db) (c' : Command) → Memᴰ c' (step x db).commands → Origin db c'
command-Origin x db c' m = Change-Origin c' (step-Change x db) m
