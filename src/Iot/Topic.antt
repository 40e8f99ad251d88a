-- ===== src/Iot/Topic.antt =====
-- backend/internal/iot/mqtt/topic.go. A text is a list of code points; a topic that the grammar
-- admits is ASCII, where bytes and code points are the same, and another is refused on either count.
use ocm.Prelude.{
  ℕ, Bool, false, not, ◌&&◌, ◌||◌, List, [], ◌∷◌, ◌++◌, Option, some, none, length, all, leb, ltb,
  ◌==◌, if◌then◌else◌,
}
use ocm.Prelude.Text.{Text, codes, text_eq, split_on}

pub data Channel : Type 0 where
  state event cmd ack : Channel

abbrev pub channel_text : Channel → Text
channel_text state = codes "state"
channel_text event = codes "event"
channel_text cmd = codes "cmd"
channel_text ack = codes "ack"

unfoldable pub parse_channel : Text → Option Channel
parse_channel s =
    if text_eq s (codes "state")
    then some state
    else if text_eq s (codes "event")
    then some event
    else if text_eq s (codes "cmd")
    then some cmd
    else if text_eq s (codes "ack")
    then some ack
    else none

abbrev pub slash : ℕ
slash = 47

abbrev pub root : Text
root = codes "iot"

abbrev pub meta : Text
meta = codes "_meta"

-- The characters of an identifier.
abbrev pub is_segment_char : ℕ → Bool
is_segment_char c =
    leb b'a' c && leb c b'z'
    || leb b'A' c && leb c b'Z'
    || leb b'0' c && leb c b'9'
    || c == b'-'
    || c == b'_'
    || c == b'.'

-- The source's test for a leading `$` is covered by that of the characters.
unfoldable pub valid_segment : Text → Bool
valid_segment [] = false
valid_segment (c ∷ s) =
    not (ltb 128 (length (c ∷ s))) && not (c == b'$') && all is_segment_char (c ∷ s)

pub record DataTopic : Type 0 where
  pub site : Text
  pub source_id : Text
  pub device_id : Text
  pub channel : Channel

-- The five segments of a data topic.
unfoldable pub parse_segments : List Text → Option DataTopic
parse_segments (r ∷ site ∷ source ∷ device ∷ channel ∷ []) =
    if not (text_eq r root) || text_eq site meta
    then none
    else if valid_segment site && valid_segment source && valid_segment device
    then elim (parse_channel channel) [
      | none ↦ none
      | some c ↦ some (record { site = site; source_id = source; device_id = device; channel = c })
    ]
    else none
parse_segments _ = none

unfoldable pub parse_data_topic : Text → Option DataTopic
parse_data_topic topic = parse_segments (split_on slash topic)

-- The source and the channel of a lifecycle topic.
unfoldable pub parse_meta_segments : List Text → Option (Text × Text)
parse_meta_segments (r ∷ m ∷ source ∷ channel ∷ []) =
    if text_eq r root && text_eq m meta && valid_segment source && valid_segment channel
    then some (source, channel)
    else none
parse_meta_segments _ = none

unfoldable pub parse_meta_topic : Text → Option (Text × Text)
parse_meta_topic topic = parse_meta_segments (split_on slash topic)

unfoldable pub command_topic : Text → Text → Text → Text
command_topic site source device =
    root
    ++ (slash ∷ (site ++ (slash ∷ (source ++ (slash ∷ (device ++ (slash ∷ channel_text cmd)))))))
