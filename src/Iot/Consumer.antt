-- ===== src/Iot/Consumer.antt =====
-- backend/internal/iot/mqtt/consumer.go: `handleMessage` and the handlers that it routes to. What the
-- JSON decoder and the validation of a payload gave is an argument, `none` where they refused it; the
-- broadcasts to the console are left out.
use ocm.Prelude.{
  ℕ, Bool, true, false, not, ◌&&◌, [], ◌∷◌, ◌++◌, Option, some, none, any, ◌==◌, Faults, ok, err,
  if◌then◌else◌,
}
use ocm.Prelude.Text.{Text, codes, text_eq}
use ocm.Iot.Topic.{
  Channel, state, event, cmd, ack, DataTopic, root, slash, meta, parse_data_topic, parse_meta_topic,
}
use ocm.Iot.Registry.{Db, Event, upsert_state, ensure_device, mark_source_offline}
use ocm.Iot.Commands.{Outcome, apply_ack}

pub record StateBody : Type 0 where
  pub category : Text
  pub attrs : Option Text
  pub at : ℕ

pub record EventBody : Type 0 where
  pub kind : Text
  pub content : Text
  pub at : ℕ

pub record AckBody : Type 0 where
  pub command_id : Text
  pub outcome : Outcome
  pub detail : Text

-- A message: its topic, and its payload as each handler would decode it.
pub record Message : Type 0 where
  pub topic : Text
  pub as_state : Option StateBody
  pub as_event : Option EventBody
  pub as_ack : Option AckBody

-- `strings.HasPrefix(s, prefix)`.
unfoldable pub has_prefix : Text → Text → Bool
has_prefix s [] = true
has_prefix [] (p ∷ ps) = false
has_prefix (c ∷ s) (p ∷ ps) = c == p && has_prefix s ps

abbrev pub meta_prefix : Text
meta_prefix = root ++ (slash ∷ (meta ++ (slash ∷ [])))

unfoldable pub is_meta_topic : Text → Bool
is_meta_topic topic = has_prefix topic meta_prefix

abbrev pub same_event : Event → Event → Bool
same_event a b =
    a.device_id == b.device_id
    && text_eq a.kind b.kind
    && a.occurred_at == b.occurred_at
    && text_eq a.dedup_hash b.dedup_hash

-- `InsertEvent`: the constraint on the digest drops a delivery that is there already. The digest of
-- type, time and payload is that of the library for SHA-256.
unfoldable pub insert_event : Bool → (Text → ℕ → Text → Text) → ℕ → ℕ → EventBody → Db → Db
insert_event broken digest now device b db =
    let e : Event = record {
      device_id = device;
      kind = b.kind;
      payload = b.content;
      occurred_at = b.at;
      received_at = now;
      dedup_hash = digest b.kind b.at b.content;
    } in
    if broken
    then db
    else if any (same_event e) db.events
    then db
    else record db { events = e ∷ db.events }

-- What surrounds the handling of one message: the failures of its statements, the clock, the digest,
-- and the databases that its reads saw before its writes.
pub record Setting : Type 0 where
  pub fails : Faults
  pub now : ℕ
  pub digest : Text → ℕ → Text → Text
  pub first : Db
  pub seen : Db

unfoldable pub handle_state : Setting → DataTopic → StateBody → Db → Db
handle_state w t b db =
    (upsert_state w.fails t.site t.source_id t.device_id b.category b.attrs b.at w.seen db).0

unfoldable pub handle_event : Setting → DataTopic → EventBody → Db → Db
handle_event w t b db =
    let (db', r) = ensure_device w.fails t.site t.source_id t.device_id w.now w.first w.seen db in
    elim r [ err e ↦ db' | ok d ↦ insert_event (w.fails 10) w.digest w.now d.0.id b db' ]

unfoldable pub handle_ack : Setting → AckBody → Db → Db
handle_ack w b db = (apply_ack w.fails b.command_id b.outcome b.detail db).0

unfoldable pub handle_meta : Setting → Text → Text → Db → Db
handle_meta w site topic db = elim (parse_meta_topic topic) [
  | none ↦ db
  | some (source, channel) ↦
      if text_eq channel (codes "offline")
      then (mark_source_offline (w.fails 0) site source db).0
      else db
]

-- The channel's handler, on the payload where it decodes.
unfoldable pub route : Setting → DataTopic → Channel → Message → Db → Db
route w t cmd m db = db
route w t state m db = elim m.as_state [ none ↦ db | some b ↦ handle_state w t b db ]
route w t event m db = elim m.as_event [ none ↦ db | some b ↦ handle_event w t b db ]
route w t ack m db = elim m.as_ack [ none ↦ db | some b ↦ handle_ack w b db ]

-- `handleMessage` of the consumer of a site.
unfoldable pub handle_message : Setting → Text → Message → Db → Db
handle_message w site m db =
    if is_meta_topic m.topic
    then handle_meta w site m.topic db
    else elim (parse_data_topic m.topic) [
      | none ↦ db
      | some t ↦ if not (text_eq t.site site) then db else route w t t.channel m db
    ]
