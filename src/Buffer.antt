-- ===== src/Buffer.antt =====
-- iot/mqttc/queue.go: the queue of frames that a device side client keeps while its broker is
-- unreachable, in memory and in a file of one frame a line.
mod Waiting
mod Recovery
mod Oversize
mod Flow
mod Examples
use ocm.Prelude.{
  ℕ, suc, ◌-◌, ◌*◌, Bool, true, false, ◌++◌, List, [], ◌∷◌, Option, none, some, length, drop, leb,
  ltb, ◌==◌, if◌then◌else◌, Result, ok, err, ◌>>=◌, Faults,
}
use ocm.Prelude.Int.{ℤ, pos, pos_part, leb_ℤ}
use ocm.Prelude.Text.{Text, text_eq}

pub record Entry : Type 0 where
  pub topic : Text
  pub payload : Text
  pub retain : Bool

pub record Queue : Type 0 where
  pub path : Text
  pub max : ℕ
  pub entries : List Entry

-- The JSON of one entry, written and read by encoding/json. A payload that is not JSON is not
-- encoded.
pub record Codec : Type 0 where
  pub encode : Entry → Option Text
  pub decode : Text → Option Entry

-- What a file system holds under the path: nothing, or the lines of a file. The file beside it, to
-- which a new version is written first, is read by nobody.
abbrev pub File : Type 0
File = Option (List Text)

pub data Error : Type 0 where
  not_opened not_read tmp_not_opened not_encoded not_flushed not_closed not_swapped : Error

-- The size of the scanner's buffer in bytes: a line has to fit it with its newline.
abbrev pub max_token : ℕ
max_token = 1024 * 1024

-- The scanner's loop. A line that does not decode is dropped, one that does not fit is an error.
unfoldable pub read_lines : Codec → List Text → Result Error (List Entry)
read_lines codec [] = ok []
read_lines codec (line ∷ lines) =
    let rest = read_lines codec lines in
    if leb max_token (length line)
    then err not_read
    else elim (codec.decode line) [ none ↦ rest | some e ↦ rest >>= λ es. ok (e ∷ es) ]

abbrev pub capacity : ℤ → ℕ
capacity max = if leb_ℤ max (pos 0) then 10000 else pos_part max

-- Faults: 0 is opening the file, 1 is reading it.
unfoldable pub open_queue : Codec → Faults → Text → ℤ → File → Result Error Queue
open_queue codec faults path max file =
    if text_eq path []
    then ok (record { path = path; max = capacity max; entries = [] })
    else if faults 0
    then err not_opened
    else elim file [
      | none ↦ ok (record { path = path; max = capacity max; entries = [] })
      | some lines ↦
          if faults 1
          then err not_read
          else read_lines codec lines >>= λ es.
              ok (record { path = path; max = capacity max; entries = es })
    ]

unfoldable pub encode_lines : Codec → List Entry → Option (List Text)
encode_lines codec [] = some []
encode_lines codec (e ∷ es) = elim (codec.encode e) [
  | none ↦ none
  | some line ↦ elim (encode_lines codec es) [ none ↦ none | some lines ↦ some (line ∷ lines) ]
]

-- A queue and what its path holds.
pub record Store : Type 0 where
  pub queue : Queue
  pub file : File

-- Faults: 0 is opening the new version, 1 is writing it, 2, 3 and 4 are its flush, its closing and
-- the rename that puts it in place.
unfoldable pub persist_locked : Codec → Faults → Store → Result Error Unit × Store
persist_locked codec faults s =
    if text_eq s.queue.path []
    then (ok tt, s)
    else if faults 0
    then (err tmp_not_opened, s)
    else elim (encode_lines codec s.queue.entries) [
      | none ↦ (err not_encoded, s)
      | some lines ↦
          if faults 1
          then (err not_encoded, s)
          else if faults 2
          then (err not_flushed, s)
          else if faults 3
          then (err not_closed, s)
          else if faults 4
          then (err not_swapped, s)
          else (ok tt, record { queue = s.queue; file = some lines })
    ]

abbrev pub with_entries : List Entry → Store → Store
with_entries es s = record {
  queue = record { path = s.queue.path; max = s.queue.max; entries = es };
  file = s.file;
}

-- The entries of the slice after an append, the oldest cut off when they are too many.
abbrev pub trim : ℕ → List Entry → List Entry
trim max es = if ltb max (length es) then drop (length es - max) es else es

unfoldable pub add : Codec → Faults → Entry → Store → Result Error Unit × Store
add codec faults e s =
    persist_locked codec faults (with_entries (trim s.queue.max (s.queue.entries ++ e ∷ [])) s)

-- Whether the transport takes a frame, by the number of frames that it took in this drain before.
abbrev pub Transport : Type 0
Transport = ℕ → Entry → Bool

pub record Drained : Type 0 where
  pub sent : ℕ
  pub stopped : Bool
  pub kept : List Entry

unfoldable pub drain_loop : Transport → ℕ → List Entry → Drained
drain_loop publish sent [] = record { sent = sent; stopped = false; kept = [] }
drain_loop publish sent (e ∷ es) =
    let rest = drain_loop publish (suc sent) es in
    if publish sent e then rest else record { sent = sent; stopped = true; kept = e ∷ es }

-- The number of frames published, whether the transport refused one, and the store. That the new
-- version of the file is not written is logged and no more.
unfoldable pub drain : Codec → Faults → Transport → Store → ℕ × Bool × Store
drain codec faults publish s =
    let out = drain_loop publish 0 s.queue.entries in
    if length s.queue.entries == 0
    then (0, false, s)
    else (out.sent, out.stopped, (persist_locked codec faults (with_entries out.kept s)).1)

pub data Call : Type 0 where
  adds : Faults → Entry → Call
  drains : Faults → Transport → Call

unfoldable pub step : Codec → Call → Store → Store
step codec (adds faults e) s = (add codec faults e s).1
step codec (drains faults publish) s = (drain codec faults publish s).2

unfoldable pub run : Codec → List Call → Store → Store
run codec [] s = s
run codec (call ∷ calls) s = run codec calls (step codec call s)
