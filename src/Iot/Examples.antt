-- ===== src/Iot/Examples.antt =====
-- The theorems on devices and commands at two devices and two commands.
use mathlib.Core.List.{Memᴰ}
use ocm.Prelude.{ℕ, ◌≡◌, ◌*◌, ◌≤◌, ◌<◌, refl, false, List, [], ◌∷◌, some, none, no_faults, arith}
use ocm.Prelude.Int.{pos}
use ocm.Prelude.Text.{Text, codes, split_on}
use ocm.Iot.Topic.{event, DataTopic, valid_segment, parse_data_topic, parse_segments, parse_channel}
use ocm.Iot.Segments.{IsValid, print_topic, parse-print, print-parse}
use ocm.Iot.Registry.{
  sweep_stale_devices, DeviceStatus, online, queued, delivered, expired, acked, CommandStatus,
  Command, Device, Db, gone,
}
use ocm.Iot.Commands.{succeeded, clamp_command_ttl, transition_command, apply_ack}
use ocm.Iot.Lifecycle.{
  Call, acks, publishes, deletes, purges, step, run, settled_command_stays, Origin, command-Origin,
}
use ocm.Iot.Deadline.{clamp_command_ttl-exact}
use ocm.Iot.Consumer.{Setting, Message, handle_message}
use ocm.Iot.Isolation.{SameSites, other_site_kept, will_topic, will_reaches_each_site}
use ocm.Iot.Claims as Claims

abbrev lamp : DataTopic
lamp = record {
  site = codes "main";
  source_id = codes "gw-1";
  device_id = codes "lamp.2";
  channel = event;
}

lamp-IsValid : IsValid lamp
unfolding valid_segment
lamp-IsValid = record {
  site_valid = refl;
  site_plain = refl;
  source_valid = refl;
  device_valid = refl;
}

parse-print_example : parse_data_topic (print_topic lamp) ≡ some lamp
parse-print_example = parse-print lamp lamp-IsValid

print-parse_example : (print_topic lamp ≡ codes "iot/main/gw-1/lamp.2/event") × IsValid lamp
unfolding print_topic parse_data_topic parse_segments parse_channel valid_segment split_on
print-parse_example = print-parse (codes "iot/main/gw-1/lamp.2/event") lamp refl

abbrev door : CommandStatus → Command
door s = record {
  command_id = codes "a1";
  device_id = 1;
  kind = codes "door_open";
  status = s;
  detail = [];
  created_at = 5;
  expires_at = 35;
}

abbrev device : ℕ → Text → DeviceStatus → Device
device id site s = record {
  id = id;
  site = site;
  source_id = codes "gw-1";
  external_id = codes "lamp.2";
  name = [];
  category = codes "generic";
  classroom_id = none;
  status = s;
  state = none;
  last_seen_at = some 3;
}

abbrev registry : CommandStatus → Db
registry s = record {
  devices = device 2 (codes "north") online ∷ device 1 (codes "main") online ∷ [];
  commands = door s ∷ [];
  events = [];
  next_device = 3;
}

abbrev late : List Call
late =
    publishes no_faults (codes "a1")
    ∷ acks no_faults (codes "a1") succeeded []
    ∷ deletes no_faults 2
    ∷ purges no_faults 60 90
    ∷ []

settled_command_stays_example : Memᴰ (door expired) (run late (registry expired)).commands
settled_command_stays_example =
    settled_command_stays late (registry expired) (door expired) refl
      (refl, (refl, (refl, (refl, tt)))) (Memᴰ.head refl)

command-Origin_example : Origin (registry delivered) (door acked)
unfolding step apply_ack transition_command
command-Origin_example =
    command-Origin (acks no_faults (codes "a1") succeeded []) (registry delivered) (door acked)
      (Memᴰ.head refl)

clamp_command_ttl-exact_example :
    ((45 ≤ 600) → clamp_command_ttl (pos 45) ≡ 45 * 1000000000)
    × ((600 < 45) → (45 ≤ 9223372036) → clamp_command_ttl (pos 45) ≡ 600000000000)
    × ((9223372036 < 45) → (45 ≤ 18446744073) → clamp_command_ttl (pos 45) ≡ 1000000000)
clamp_command_ttl-exact_example = clamp_command_ttl-exact 45 (omega arith)

-- The will message of the source gw-1, published at the site north.
abbrev will : Message
will = record { topic = will_topic (codes "gw-1"); as_state = none; as_event = none; as_ack = none }

abbrev setting : Setting
setting = record {
  fails = no_faults;
  now = 9;
  digest = λ kind at content. content;
  first = registry queued;
  seen = registry queued;
}

one_site : SameSites (registry queued) (registry queued)
one_site a b (Memᴰ.head e) (Memᴰ.head g) i = rw (e, g) refl
one_site a b (Memᴰ.head e) (Memᴰ.tail (Memᴰ.head g)) i = absurd (ground (arith, rw (e, g) at i))
one_site a b (Memᴰ.tail (Memᴰ.head e)) (Memᴰ.head g) i = absurd (ground (arith, rw (e, g) at i))
one_site a b (Memᴰ.tail (Memᴰ.head e)) (Memᴰ.tail (Memᴰ.head g)) i = rw (e, g) refl
one_site a b (Memᴰ.tail (Memᴰ.tail m)) n i = elim m [ ]
one_site a b m (Memᴰ.tail (Memᴰ.tail n)) i = elim n [ ]

other_site_kept_example :
    Memᴰ
      (device 2 (codes "north") online)
      (handle_message setting (codes "main") will (registry queued)).devices
other_site_kept_example =
    other_site_kept setting (codes "main") will (registry queued) (device 2 (codes "north") online)
      one_site one_site refl (Memᴰ.head refl)

will_reaches_each_site_example :
    Memᴰ
      (gone (device 1 (codes "main") online))
      (handle_message setting (codes "main") will (registry queued)).devices
unfolding valid_segment
will_reaches_each_site_example =
    will_reaches_each_site setting (codes "main") (codes "gw-1") will (registry queued)
      (device 1 (codes "main") online) refl refl refl (Memᴰ.tail (Memᴰ.head refl)) refl

device-Origin_example :
    Claims.Origin
      (Claims.sweeps false 9 1)
      (registry queued)
      (gone (device 1 (codes "main") online))
unfolding Claims.step sweep_stale_devices
device-Origin_example =
    Claims.device-Origin (Claims.sweeps false 9 1) (registry queued)
      (gone (device 1 (codes "main") online)) (Memᴰ.tail (Memᴰ.head refl))
