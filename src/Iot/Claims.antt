-- ===== src/Iot/Claims.antt =====
-- Devices under messages, claims, sweeps and deletions: what each call may do to a device.
use mathlib.Core.List.{Memᴰ}
use ocm.Prelude.{
  ℕ, ◌≡◌, refl, inl, inr, Bool, true, false, ◌==◌, arith, Faults, Result-cases, Bool-cases,
  Option-cases, mem_of_update_where, mem_of_delete_where,
}
use ocm.Prelude.Text.{Text, codes, text_eq}
use ocm.Iot.Topic.{Channel, state, event, cmd, ack, DataTopic, parse_data_topic, parse_meta_topic}
use ocm.Iot.Registry.{
  CommandStatus, pending, Device, Db, ApproveInput, has_id, approve_device, approved_row, stale,
  gone, sweep_stale_devices, delete_device, ensure_device,
}
use ocm.Iot.Commands.{apply_ack, transition_command, is_live, outcome_status}
use ocm.Iot.Consumer.{
  Setting, Message, AckBody, EventBody, handle_message, handle_state, handle_event, handle_ack,
  handle_meta, route, insert_event, is_meta_topic,
}
use ocm.Iot.Devices.{
  Changes, same, added, moved, removed, upsert-Change, ensure-Change, offline-Change,
}

pub data Call : Type 0 where
  receives : Setting → Text → Message → Call
  approves : Faults → ℕ → ℕ → ℕ → ApproveInput → Call
  sweeps : Bool → ℕ → ℕ → Call
  deletes : Faults → ℕ → Call

unfoldable pub step : Call → Db → Db
step (receives w site m) db = handle_message w site m db
step (approves f now ttl id i) db = (approve_device f now ttl id i db).0
step (sweeps broken now ttl) db = (sweep_stale_devices broken now ttl db).0
step (deletes f id) db = (delete_device f id db).0

-- Whether a call is the approval of a device.
abbrev pub claims : Call → ℕ → Bool
claims (approves f now ttl id i) d = d == id
claims (receives w site m) d = false
claims (sweeps broken now ttl) d = false
claims (deletes f id) d = false

pub insert_event-devices :
    (broken : Bool) (digest : Text → ℕ → Text → Text) (now device : ℕ) (b : EventBody) (db : Db)
    → (insert_event broken digest now device b db).devices ≡ db.devices
unfolding insert_event
insert_event-devices broken digest now device b db = ground arith

event-Change :
    (c : ℕ → Bool) (w : Setting) (t : DataTopic) (b : EventBody) (db : Db)
    → Changes c db (handle_event w t b db)
unfolding handle_event
event-Change c w t b db =
    let change = ensure-Change c w.fails t.site t.source_id t.device_id w.now w.first w.seen db in
    let call = ensure_device w.fails t.site t.source_id t.device_id w.now w.first w.seen db in
    elim (Result-cases call.1) [
      | inr (x, e) ↦ rw (handle_event, e) change
      | inl (d, e) ↦
          rw (handle_event, e, insert_event-devices (w.fails 10) w.digest w.now d.0.id b call.0)
            change
    ]

transition-devices :
    (f : Faults) (id : Text) (from : CommandStatus → Bool) (to : CommandStatus) (detail : Text)
    (db : Db)
    → (transition_command f id from to detail db).0.devices ≡ db.devices
unfolding transition_command
transition-devices f id from to detail db = elim (Bool-cases (f 0)) [
  | inl e ↦ rw e refl
  | inr e ↦ rw e refl
]

pub ack-devices : (w : Setting) (b : AckBody) (db : Db) → (handle_ack w b db).devices ≡ db.devices
unfolding handle_ack apply_ack
ack-devices w b db =
    transition-devices w.fails b.command_id is_live (outcome_status b.outcome) b.detail db

ack-Change : (c : ℕ → Bool) (w : Setting) (b : AckBody) (db : Db) → Changes c db (handle_ack w b db)
ack-Change c w b db = same (ack-devices w b db)

route-Change :
    (c : ℕ → Bool) (w : Setting) (t : DataTopic) (ch : Channel) (m : Message) (db : Db)
    → Changes c db (route w t ch m db)
unfolding route handle_state
route-Change c w t cmd m db = same refl
route-Change c w t state m db = elim (Option-cases m.as_state) [
  | inl e ↦ rw e (same refl)
  | inr (b, e) ↦
      rw e
        (upsert-Change c w.fails t.site t.source_id t.device_id b.category b.attrs b.at w.seen db)
]
route-Change c w t event m db = elim (Option-cases m.as_event) [
  | inl e ↦ rw e (same refl)
  | inr (b, e) ↦ rw e (event-Change c w t b db)
]
route-Change c w t ack m db = elim (Option-cases m.as_ack) [
  | inl e ↦ rw e (same refl)
  | inr (b, e) ↦ rw e (ack-Change c w b db)
]

meta-Change :
    (c : ℕ → Bool) (w : Setting) (site topic : Text) (db : Db)
    → Changes c db (handle_meta w site topic db)
unfolding handle_meta
meta-Change c w site topic db = elim (Option-cases (parse_meta_topic topic)) [
  | inl e ↦ rw (handle_meta, e) (same refl)
  | inr (p, e) ↦ elim (Bool-cases (text_eq p.1 (codes "offline"))) [
    | inl g ↦ rw (handle_meta, e, g) (offline-Change c (w.fails 0) site p.0 db)
    | inr g ↦ rw (handle_meta, e, g) (same refl)
  ]
]

message-Change :
    (c : ℕ → Bool) (w : Setting) (site : Text) (m : Message) (db : Db)
    → Changes c db (handle_message w site m db)
unfolding handle_message
message-Change c w site m db = elim (Bool-cases (is_meta_topic m.topic)) [
  | inl e ↦ rw e (meta-Change c w site m.topic db)
  | inr e ↦ elim (Option-cases (parse_data_topic m.topic)) [
    | inl g ↦ rw (e, g) (same refl)
    | inr (t, g) ↦ elim (Bool-cases (text_eq t.site site)) [
      | inl h ↦ rw (e, g, h) (route-Change c w t t.channel m db)
      | inr h ↦ rw (e, g, h) (same refl)
    ]
  ]
]

delete-Change :
    (c : ℕ → Bool) (f : Faults) (id : ℕ) (db : Db) → Changes c db (delete_device f id db).0
unfolding delete_device
delete-Change c f id db = elim (Bool-cases (f 0)) [
  | inl e ↦ rw e (same refl)
  | inr e ↦ elim (Bool-cases (f 1)) [
    | inl g ↦ rw (e, g) (same refl)
    | inr g ↦ elim (Bool-cases (f 2)) [
      | inl h ↦ rw (e, g, h) (same refl)
      | inr h ↦ rw (e, g, h) (removed id refl)
    ]
  ]
]

approve-Change :
    (f : Faults) (now ttl id : ℕ) (i : ApproveInput) (db : Db)
    → Changes (λ d. d == id) db (approve_device f now ttl id i db).0
unfolding approve_device
approve-Change f now ttl id i db = elim (Bool-cases (f 0)) [
  | inl e ↦ rw e (same refl)
  | inr e ↦ rw e (
      moved (has_id id) (approved_row now ttl i) (λ d. (refl, refl, refl, refl))
        (λ d h q c. absurd (ground arith)) refl)
]

pub step-Change : (x : Call) (db : Db) → Changes (claims x) db (step x db)
unfolding step approve_device sweep_stale_devices
step-Change (receives w site m) db = message-Change _ w site m db
step-Change (approves f now ttl id i) db = approve-Change f now ttl id i db
step-Change (sweeps true now ttl) db = same refl
step-Change (sweeps false now ttl) db =
    moved (stale now ttl) gone (λ d. (refl, refl, refl, refl))
      (λ d h q c. absurd (ground (arith, rw q at h))) refl
step-Change (deletes f id) db = delete-Change _ f id db

-- Where a device after a call comes from.
pub data Origin (x : Call) (db : Db) (d' : Device) : Type 0 where
  kept : Memᴰ d' db.devices → Origin x db d'
  fresh : d'.status ≡ pending → d'.id ≡ db.next_device → Origin x db d'
  went :
      (d : Device)
      → Memᴰ d db.devices
      → d'.id ≡ d.id
      → (d'.site ≡ d.site) × (d'.source_id ≡ d.source_id) × (d'.external_id ≡ d.external_id)
      → (d.status ≡ pending → claims x d.id ≡ false → d'.status ≡ pending)
      → Origin x db d'

-- After one call each device was there before as it is, or is new, pending and under the next id, or
-- is a device with the same id and identity, which is still pending if it was and the call does not
-- approve it: no message of a source and no sweep takes a device out of the claim queue.
pub device-Origin :
    (x : Call) (db : Db) (d' : Device) → Memᴰ d' (step x db).devices → Origin x db d'
device-Origin x db d' m = elim (step-Change x db) [
  | same e ↦ kept (rw e at m)
  | added d q i free e ↦ elim (rw e at m) [ Memᴰ.head h ↦ rw h (fresh q i) | Memᴰ.tail t ↦ kept t ]
  | moved p f ids stay e ↦ elim (mem_of_update_where p f db.devices (rw e at m)) [
    | inl t ↦ kept t
    | inr (d, t, h, g) ↦
        rw g (went d t (ids d).0 ((ids d).1, (ids d).2, (ids d).3) (λ q c. stay d h q c))
  ]
  | removed id e ↦ kept (mem_of_delete_where (has_id id) db.devices (rw e at m))
]
