-- ===== src/Iot/Registry.antt =====
-- The device half of backend/internal/iot/store.go, over the types of backend/internal/iot/model.go.
-- Instants and durations are numbers of one unit.
use ocm.Prelude.{
  ℕ, suc, ◌+◌, Bool, true, false, ◌&&◌, List, [], ◌∷◌, Option, some, none, leb, ltb, ◌==◌, find,
  Faults, Result, ok, err, ◌>>=◌, ◌>>◌, fail_if, if◌then◌else◌, update_where, count_where,
  delete_where,
}
use ocm.Prelude.Text.{Text, codes, text_eq}

pub data DeviceStatus : Type 0 where
  pending online offline : DeviceStatus

pub record Device : Type 0 where
  pub id : ℕ
  pub site : Text
  pub source_id : Text
  pub external_id : Text
  pub name : Text
  pub category : Text
  pub classroom_id : Option ℕ
  pub status : DeviceStatus
  pub state : Option Text
  pub last_seen_at : Option ℕ

pub data CommandStatus : Type 0 where
  queued delivered acked failed expired : CommandStatus

pub record Command : Type 0 where
  pub command_id : Text
  pub device_id : ℕ
  pub kind : Text
  pub status : CommandStatus
  pub detail : Text
  pub created_at : ℕ
  pub expires_at : ℕ

pub record Event : Type 0 where
  pub device_id : ℕ
  pub kind : Text
  pub payload : Text
  pub occurred_at : ℕ
  pub received_at : ℕ
  pub dedup_hash : Text

pub record Db : Type 0 where
  pub devices : List Device
  pub commands : List Command
  pub events : List Event
  pub next_device : ℕ

pub data Error : Type 0 where
  not_found database : Error

abbrev pub is_pending : DeviceStatus → Bool
is_pending pending = true
is_pending _ = false

abbrev pub is_online : DeviceStatus → Bool
is_online online = true
is_online _ = false

abbrev pub has_id : ℕ → Device → Bool
has_id id d = d.id == id

abbrev pub has_identity : Text → Text → Text → Device → Bool
has_identity site source external d =
    text_eq d.site site && text_eq d.source_id source && text_eq d.external_id external

unfoldable pub get_device : Bool → Db → ℕ → Result Error Device
get_device broken db id = do
  fail_if broken database
  elim (find (has_id id) db.devices) [ none ↦ err not_found | some d ↦ ok d ]

abbrev pub set_devices : (Device → Bool) → (Device → Device) → Db → Db
set_devices p f db = record db { devices = update_where p f db.devices }

-- `CASE WHEN status = 'pending' THEN status ELSE 'online' END`.
abbrev pub seen_status : DeviceStatus → DeviceStatus
seen_status pending = pending
seen_status online = online
seen_status offline = online

abbrev pub seen_row : Option Text → ℕ → Device → Device
seen_row state at d = record d {
  status = seen_status d.status;
  state = state;
  last_seen_at = some at;
}

-- `updateState`: statements `n` and `n + 1`.
unfoldable pub update_state : Faults → ℕ → ℕ → Option Text → ℕ → Db → Db × Result Error Device
update_state fails n id state at db = if fails n then (db, err database) else (
  set_devices (has_id id) (seen_row state at) db,
  get_device (fails (suc n)) (set_devices (has_id id) (seen_row state at) db) id,
)

abbrev pub generic : Text
generic = codes "generic"

abbrev pub new_device : Db → Text → Text → Text → Text → Option Text → ℕ → Device
new_device db site source external hint state at = record {
  id = db.next_device;
  site = site;
  source_id = source;
  external_id = external;
  name = [];
  category = if text_eq hint [] then generic else hint;
  classroom_id = none;
  status = pending;
  state = state;
  last_seen_at = some at;
}

abbrev pub with_device : Device → Db → Db
with_device d db = record db { devices = d ∷ db.devices; next_device = suc db.next_device }

abbrev pub flagged : Bool → Db × Result Error Device → Db × Result Error (Device × Bool)
flagged is_new (db, r) = (db, do d ← r; ok (d, is_new))

-- The INSERT of a first report, and the update in its place where the identity is there already.
unfoldable pub insert_or_update :
    Faults → Text → Text → Text → Text → Option Text → ℕ → Db → Db × Result Error (Device × Bool)
insert_or_update fails site source external hint state at db =
    if fails 1
    then (db, err database)
    else elim (find (has_identity site source external) db.devices) [
      | some d ↦
          if fails 2
          then (db, err database)
          else flagged false (update_state fails 3 d.id state at db)
      | none ↦
          let db' = with_device (new_device db site source external hint state at) db in
          flagged true (db', get_device (fails 2) db' db.next_device)
    ]

-- `UpsertState`: `seen` is the database of its first read, `db` that of its writes.
unfoldable pub upsert_state :
    Faults
    → Text
    → Text
    → Text
    → Text
    → Option Text
    → ℕ
    → Db
    → Db
    → Db × Result Error (Device × Bool)
upsert_state fails site source external hint state at seen db =
    if fails 0
    then (db, err database)
    else elim (find (has_identity site source external) seen.devices) [
      | none ↦ insert_or_update fails site source external hint state at db
      | some d ↦ flagged false (update_state fails 1 d.id state at db)
    ]

-- `EnsureDevice`: the report that it makes has no state; it answers that the device is new. Its own
-- read is statement 9.
unfoldable pub ensure_device :
    Faults → Text → Text → Text → ℕ → Db → Db → Db → Db × Result Error (Device × Bool)
ensure_device fails site source external now first seen db =
    if fails 9
    then (db, err database)
    else elim (find (has_identity site source external) first.devices) [
      | some d ↦ (db, ok (d, false))
      | none ↦
          let (db', r) = upsert_state fails site source external [] none now seen db in
          (db', do d ← r; ok (d.0, true))
    ]

-- Presence at the claim: a report within the time to live.
abbrev pub is_fresh : ℕ → ℕ → Option ℕ → Bool
is_fresh now ttl none = false
is_fresh now ttl (some at) = leb now (at + ttl)

abbrev pub claimed_status : ℕ → ℕ → Device → DeviceStatus
claimed_status now ttl d =
    if is_pending d.status
    then (if is_fresh now ttl d.last_seen_at then online else offline)
    else d.status

pub record ApproveInput : Type 0 where
  pub name : Text
  pub classroom_id : ℕ
  pub category : Text

abbrev pub approved_row : ℕ → ℕ → ApproveInput → Device → Device
approved_row now ttl i d = record d {
  name = i.name;
  category = if text_eq i.category [] then d.category else i.category;
  classroom_id = some i.classroom_id;
  status = claimed_status now ttl d;
}

unfoldable pub approve_device : Faults → ℕ → ℕ → ℕ → ApproveInput → Db → Db × Result Error Device
approve_device fails now ttl id i db = if fails 0 then (db, err database) else (
  set_devices (has_id id) (approved_row now ttl i) db,
  get_device (fails 1) (set_devices (has_id id) (approved_row now ttl i) db) id,
)

-- `MarkSourceOffline`.
abbrev pub of_source : Text → Text → Device → Bool
of_source site source d = text_eq d.site site && text_eq d.source_id source && is_online d.status

abbrev pub gone : Device → Device
gone d = record d { status = offline }

unfoldable pub mark_source_offline : Bool → Text → Text → Db → Db × Result Error ℕ
mark_source_offline broken site source db = if broken then (db, err database) else (
  set_devices (of_source site source) gone db,
  ok (count_where (of_source site source) db.devices),
)

abbrev pub is_stale : ℕ → ℕ → Option ℕ → Bool
is_stale now ttl none = false
is_stale now ttl (some at) = ltb (at + ttl) now

abbrev pub stale : ℕ → ℕ → Device → Bool
stale now ttl d = is_online d.status && is_stale now ttl d.last_seen_at

unfoldable pub sweep_stale_devices : Bool → ℕ → ℕ → Db → Db × Result Error ℕ
sweep_stale_devices broken now ttl db =
    if broken
    then (db, err database)
    else (set_devices (stale now ttl) gone db, ok (count_where (stale now ttl) db.devices))

-- `DeleteDevice`: three statements outside a transaction.
abbrev pub without_events : ℕ → Db → Db
without_events id db = record db { events = delete_where (λ e. e.device_id == id) db.events }

abbrev pub without_commands : ℕ → Db → Db
without_commands id db = record db { commands = delete_where (λ c. c.device_id == id) db.commands }

unfoldable pub delete_device : Faults → ℕ → Db → Db × Result Error (Unit {0})
delete_device fails id db =
    if fails 0
    then (db, err database)
    else if fails 1
    then (without_events id db, err database)
    else if fails 2
    then (without_commands id (without_events id db), err database)
    else (
      record (without_commands id (without_events id db)) {
        devices = delete_where (has_id id) db.devices;
      },
      do fail_if (fails 3) database; fail_if (count_where (has_id id) db.devices == 0) not_found,
    )

-- `PurgeExpired`: two statements outside a transaction, which a failure of the first keeps from the
-- second. `window` is the retention of so many days.
abbrev pub old_event : ℕ → ℕ → Event → Bool
old_event now window e = ltb (e.received_at + window) now

abbrev pub old_command : ℕ → ℕ → Command → Bool
old_command now window c = ltb (c.created_at + window) now

abbrev pub without_old_events : ℕ → ℕ → Db → Db
without_old_events now window db = record db {
  events = delete_where (old_event now window) db.events;
}

abbrev pub without_old_commands : ℕ → ℕ → Db → Db
without_old_commands now window db = record db {
  commands = delete_where (old_command now window) db.commands;
}

unfoldable pub purge_expired : Faults → ℕ → ℕ → Db → Db × Result Error ℕ
purge_expired fails now window db =
    if fails 0
    then (db, err database)
    else if fails 1
    then (without_old_events now window db, err database)
    else (
      without_old_commands now window (without_old_events now window db),
      ok (
          (if fails 2 then 0 else count_where (old_event now window) db.events)
          + (if fails 3 then 0 else count_where (old_command now window) db.commands)),
    )
