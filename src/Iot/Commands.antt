-- ===== src/Iot/Commands.antt =====
-- The command half of backend/internal/iot/store.go, and the bounds on a command's time to live of
-- backend/internal/iot/model.go.
use ocm.Prelude.{
  ℕ, ◌+◌, ◌*◌, ◌%◌, Bool, true, false, ◌&&◌, ◌||◌, [], ◌∷◌, some, none, leb, ltb, ◌==◌, find, any,
  Faults, Result, ok, err, ◌>>◌, fail_if, if◌then◌else◌, not, update_where, count_where,
}
use ocm.Prelude.Int.{ℤ, pos, negsuc}
use ocm.Prelude.Text.{Text, codes, text_eq}
use ocm.Iot.Registry.{
  CommandStatus, queued, delivered, acked, failed, expired, Command, Db, Error, not_found, database,
}

unfoldable pub get_command : Bool → Db → Text → Result Error Command
get_command broken db id = do
  fail_if broken database
  elim (find (λ c. text_eq c.command_id id) db.commands) [ none ↦ err not_found | some c ↦ ok c ]

abbrev pub new_command : Text → ℕ → Text → ℕ → ℕ → Command
new_command id device kind now ttl = record {
  command_id = id;
  device_id = device;
  kind = kind;
  status = queued;
  detail = [];
  created_at = now;
  expires_at = now + ttl;
}

-- `CreateCommand`, with the id that the random source gave. An id that is taken is refused.
unfoldable pub create_command : Faults → Text → ℕ → Text → ℕ → ℕ → Db → Db × Result Error Command
create_command fails id device kind now ttl db =
    if fails 0 || any (λ c. text_eq c.command_id id) db.commands
    then (db, err database)
    else let db' : Db = record db { commands = new_command id device kind now ttl ∷ db.commands } in
      (db', get_command (fails 1) db' id)

abbrev pub is_queued : CommandStatus → Bool
is_queued queued = true
is_queued _ = false

-- A command that is queued or delivered.
abbrev pub is_live : CommandStatus → Bool
is_live queued = true
is_live delivered = true
is_live _ = false

abbrev pub to_move : (CommandStatus → Bool) → Text → Command → Bool
to_move from id c = text_eq c.command_id id && from c.status

abbrev pub moved_row : CommandStatus → Text → Command → Command
moved_row to detail c = record c { status = to; detail = detail }

-- `transitionCommand`, with the list of statuses it starts from as a test.
unfoldable pub transition_command :
    Faults → Text → (CommandStatus → Bool) → CommandStatus → Text → Db → Db × Result Error Bool
transition_command fails id from to detail db = if fails 0 then (db, err database) else (
  record db { commands = update_where (to_move from id) (moved_row to detail) db.commands },
  do fail_if (fails 1) database; ok (not (count_where (to_move from id) db.commands == 0)),
)

unfoldable pub mark_command_published : Faults → Text → Db → Db × Result Error Bool
mark_command_published fails id db = transition_command fails id is_queued delivered [] db

unfoldable pub fail_command : Faults → Text → Text → Db → Db × Result Error Bool
fail_command fails id detail db = transition_command fails id is_live failed detail db

-- The outcome that a device reports: the validated status of an ack.
pub data Outcome : Type 0 where
  succeeded refused : Outcome

abbrev pub outcome_status : Outcome → CommandStatus
outcome_status succeeded = acked
outcome_status refused = failed

unfoldable pub apply_ack : Faults → Text → Outcome → Text → Db → Db × Result Error Bool
apply_ack fails id o detail db = transition_command fails id is_live (outcome_status o) detail db

abbrev pub overdue : ℕ → Command → Bool
overdue now c = is_live c.status && leb c.expires_at now

abbrev pub expired_row : Command → Command
expired_row c = record c { status = expired; detail = codes "expired before delivery/ack" }

unfoldable pub expire_commands : Bool → ℕ → Db → Db × Result Error ℕ
expire_commands broken now db = if broken then (db, err database) else (
  record db { commands = update_where (overdue now) expired_row db.commands },
  ok (count_where (overdue now) db.commands),
)

-- `ClampCommandTTL`, in nanoseconds. The product of a number of seconds wraps around in 64 bits, and
-- is negative from 2^63 on.
abbrev pub seconds : ℕ → ℕ
seconds n = (n * 1000000000) % 18446744073709551616

unfoldable pub clamp_command_ttl : ℤ → ℕ
clamp_command_ttl (negsuc n) = 30000000000
clamp_command_ttl (pos n) =
    if n == 0
    then 30000000000
    else if leb 9223372036854775808 (seconds n)
    then 1000000000
    else if ltb (seconds n) 1000000000
    then 1000000000
    else if ltb 600000000000 (seconds n)
    then 600000000000
    else seconds n
