-- ===== src/Iot/Segments.antt =====
-- Splitting a topic and putting it together again.
use ocm.Prelude.{
  ℕ, ◌≡◌, refl, sym, ap, ◌∙◌, inl, inr, Bool, true, false, not, List, [], ◌∷◌, ◌++◌, some, all, any,
  ◌==◌, arith, Bool-cases, Option-cases,
}
use ocm.Prelude.Text.{Text, codes, text_eq, text_eq_sound, split_on, join}
use ocm.Iot.Topic.{
  Channel, state, event, cmd, ack, channel_text, parse_channel, slash, root, meta, is_segment_char,
  valid_segment, DataTopic, parse_segments, parse_data_topic,
}

abbrev lacks : ℕ → Text → Bool
lacks sep s = not (any (λ c. c == sep) s)

split-nonempty : (sep : ℕ) (s : Text) → (p : Text) × (ps : List Text) × (split_on sep s ≡ p ∷ ps)
unfolding split_on
split-nonempty sep [] = ([], [], refl)
split-nonempty sep (c ∷ s) =
    let (p, ps, e) = split-nonempty sep s in
    elim (Bool-cases (c == sep)) [
      | inl h ↦ ([], p ∷ ps, rw (split_on, e, h) refl)
      | inr h ↦ (c ∷ p, ps, rw (split_on, e, h) refl)
    ]

-- A part without the separator is split off whole.
pub split-part :
    (sep : ℕ) (s rest : Text)
    → lacks sep s ≡ true
    → split_on sep (s ++ (sep ∷ rest)) ≡ s ∷ split_on sep rest
unfolding split_on
split-part sep [] rest h =
    let (p, ps, e) = split-nonempty sep rest in
    let same : (sep == sep) ≡ true = ground arith in rw (split_on, e, same) refl
split-part sep (c ∷ s) rest h =
    let other : (c == sep) ≡ false = ground arith in
    rw (split_on, split-part sep s rest (ground arith), other) refl

pub split-last : (sep : ℕ) (s : Text) → lacks sep s ≡ true → split_on sep s ≡ s ∷ []
unfolding split_on
split-last sep [] h = refl
split-last sep (c ∷ s) h =
    let other : (c == sep) ≡ false = ground arith in
    rw (split_on, split-last sep s (ground arith), other) refl

join-cons :
    (sep c : ℕ) (p : Text) (ps : List Text)
    → join (sep ∷ []) ((c ∷ p) ∷ ps) ≡ c ∷ join (sep ∷ []) (p ∷ ps)
unfolding join
join-cons sep c p [] = refl
join-cons sep c p (q ∷ qs) = refl

-- The parts of a text, joined again, are the text.
join-split : (sep : ℕ) (s : Text) → join (sep ∷ []) (split_on sep s) ≡ s
unfolding split_on join
join-split sep [] = refl
join-split sep (c ∷ s) =
    let (p, ps, e) = split-nonempty sep s in
    let rest : join (sep ∷ []) (p ∷ ps) ≡ s = ap (join (sep ∷ [])) (sym e) ∙ join-split sep s in
    elim (Bool-cases (c == sep)) [
      | inl h ↦
          let it : c ≡ sep = ground arith in
          rw (split_on, e, h) (ap (λ x. sep ∷ x) rest ∙ ap (λ x. x ∷ s) (sym it))
      | inr h ↦ rw (split_on, e, h) (join-cons sep c p ps ∙ ap (λ x. c ∷ x) rest)
    ]

chars_lack : (s : Text) → all is_segment_char s ≡ true → lacks slash s ≡ true
chars_lack [] h = refl
chars_lack (c ∷ s) h = ground (arith, chars_lack s (ground arith))

pub valid_lacks : (s : Text) → valid_segment s ≡ true → lacks slash s ≡ true
unfolding valid_segment
valid_lacks [] h = refl
valid_lacks (c ∷ s) h = chars_lack (c ∷ s) (ground arith)

-- The text of a data topic.
unfoldable pub print_topic : DataTopic → Text
print_topic t =
    root
    ++ (slash
        ∷ (t.site
            ++ (slash
                ∷ (t.source_id ++ (slash ∷ (t.device_id ++ (slash ∷ channel_text t.channel)))))))

channel-round :
    (c : Channel)
    → (parse_channel (channel_text c) ≡ some c) × (lacks slash (channel_text c) ≡ true)
unfolding parse_channel
channel-round state = (refl, refl)
channel-round event = (refl, refl)
channel-round cmd = (refl, refl)
channel-round ack = (refl, refl)

pub record IsValid (t : DataTopic) : Type 0 where
  pub site_valid : valid_segment t.site ≡ true
  pub site_plain : text_eq t.site meta ≡ false
  pub source_valid : valid_segment t.source_id ≡ true
  pub device_valid : valid_segment t.device_id ≡ true

split-topic :
    (t : DataTopic)
    → IsValid t
    → split_on slash (print_topic t)
      ≡ root ∷ t.site ∷ t.source_id ∷ t.device_id ∷ channel_text t.channel ∷ []
unfolding print_topic
split-topic t v =
    split-part slash root _ refl
    ∙ ap (λ x. root ∷ x)
        (split-part slash t.site _ (valid_lacks t.site v.site_valid)
          ∙ ap (λ x. t.site ∷ x)
              (split-part slash t.source_id _ (valid_lacks t.source_id v.source_valid)
                ∙ ap (λ x. t.source_id ∷ x)
                    (split-part slash t.device_id _ (valid_lacks t.device_id v.device_valid)
                      ∙ ap (λ x. t.device_id ∷ x)
                          (split-last slash (channel_text t.channel) (channel-round t.channel).1))))

-- Parsing gives back the identifiers and the channel that a topic was made of, where the identifiers
-- are of the grammar and the site is not the reserved one.
pub parse-print : (t : DataTopic) → IsValid t → parse_data_topic (print_topic t) ≡ some t
unfolding parse_data_topic parse_segments
parse-print t v =
    rw
      (
        parse_data_topic,
        split-topic t v,
        parse_segments,
        v.site_plain,
        v.site_valid,
        v.source_valid,
        v.device_valid,
        (channel-round t.channel).0,
      )
      refl

channel-of : (s : Text) (c : Channel) → parse_channel s ≡ some c → s ≡ channel_text c
unfolding parse_channel
channel-of s c h = elim (Bool-cases (text_eq s (codes "state"))) [
  | inl e ↦
      let it : state ≡ c = ground (arith, rw (parse_channel, e) at h) in
      rw (← it) (text_eq_sound s (codes "state") e)
  | inr n1 ↦ elim (Bool-cases (text_eq s (codes "event"))) [
    | inl e ↦
        let it : event ≡ c = ground (arith, rw (parse_channel, n1, e) at h) in
        rw (← it) (text_eq_sound s (codes "event") e)
    | inr n2 ↦ elim (Bool-cases (text_eq s (codes "cmd"))) [
      | inl e ↦
          let it : cmd ≡ c = ground (arith, rw (parse_channel, n1, n2, e) at h) in
          rw (← it) (text_eq_sound s (codes "cmd") e)
      | inr n3 ↦ elim (Bool-cases (text_eq s (codes "ack"))) [
        | inl e ↦
            let it : ack ≡ c = ground (arith, rw (parse_channel, n1, n2, n3, e) at h) in
            rw (← it) (text_eq_sound s (codes "ack") e)
        | inr n4 ↦ absurd (ground (arith, rw (parse_channel, n1, n2, n3, n4) at h))
      ]
    ]
  ]
]

-- What a list of segments that is admitted looks like.
segments-of :
    (segs : List Text) (t : DataTopic)
    → parse_segments segs ≡ some t
    → (segs ≡ root ∷ t.site ∷ t.source_id ∷ t.device_id ∷ channel_text t.channel ∷ []) × IsValid t
unfolding parse_segments
segments-of (r ∷ site ∷ source ∷ device ∷ channel ∷ []) t h =
    elim (Option-cases (parse_channel channel)) [
      | inl e ↦ absurd (ground arith)
      | inr (c, e) ↦
          let is_root : text_eq r root ≡ true = ground arith in
          let plain : text_eq site meta ≡ false = ground arith in
          let v1 : valid_segment site ≡ true = ground arith in
          let v2 : valid_segment source ≡ true = ground arith in
          let v3 : valid_segment device ≡ true = ground arith in
          let it : DataTopic = record {
            site = site;
            source_id = source;
            device_id = device;
            channel = c;
          } in
          let same : it ≡ t =
            ground (arith, rw (parse_segments, is_root, plain, v1, v2, v3, e) at h) in
          rw (← same) (
            rw (text_eq_sound r root is_root, channel-of channel c e) refl,
            record { site_valid = v1; site_plain = plain; source_valid = v2; device_valid = v3 },
          )
    ]
segments-of [] t h = absurd (ground arith)
segments-of (a ∷ []) t h = absurd (ground arith)
segments-of (a ∷ b ∷ []) t h = absurd (ground arith)
segments-of (a ∷ b ∷ c ∷ []) t h = absurd (ground arith)
segments-of (a ∷ b ∷ c ∷ d ∷ []) t h = absurd (ground arith)
segments-of (a ∷ b ∷ c ∷ d ∷ e ∷ f ∷ g) t h = absurd (ground arith)

join-topic :
    (t : DataTopic)
    → join (slash ∷ []) (root ∷ t.site ∷ t.source_id ∷ t.device_id ∷ channel_text t.channel ∷ [])
      ≡ print_topic t
unfolding join print_topic
join-topic t = refl

-- A topic that is parsed is the text of what the parser gave back, with identifiers of the grammar:
-- no two topics are parsed to the same identifiers and channel.
pub print-parse :
    (topic : Text) (t : DataTopic)
    → parse_data_topic topic ≡ some t
    → (print_topic t ≡ topic) × IsValid t
unfolding parse_data_topic
print-parse topic t h =
    let (segs, valid) = segments-of (split_on slash topic) t h in
    (sym (join-topic t) ∙ (ap (join (slash ∷ [])) (sym segs) ∙ join-split slash topic), valid)
