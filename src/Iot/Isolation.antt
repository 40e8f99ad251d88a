-- ===== src/Iot/Isolation.antt =====
-- Which devices a message may touch.
use mathlib.Core.List.{Memᴰ}
use ocm.Prelude.{
  ℕ, ◌≡◌, refl, ap, ◌∙◌, inl, inr, true, false, [], ◌∷◌, ◌++◌, Option, some, none, find, arith,
  Faults, Result-cases, Bool-cases, Option-cases, mem-update_where, mem-updated, mem_of_find,
}
use ocm.Prelude.Text.{Text, codes, text_eq, text_eq_sound, split_on}
use ocm.Iot.Topic.{
  Channel, state, event, cmd, ack, DataTopic, root, meta, slash, valid_segment, parse_data_topic,
  parse_meta_topic, parse_meta_segments,
}
use ocm.Iot.Segments.{split-part, split-last, valid_lacks}
use ocm.Iot.Registry.{
  Device, Db, has_id, has_identity, update_state, seen_row, insert_or_update, upsert_state,
  ensure_device, of_source, gone, mark_source_offline,
}
use ocm.Iot.Consumer.{
  Setting, Message, handle_message, handle_state, handle_event, handle_meta, route, is_meta_topic,
  has_prefix,
}
use ocm.Iot.Claims.{insert_event-devices, ack-devices}

-- An id names one device, also across the databases that a call has seen.
abbrev pub SameSites : Db → Db → Type 0
SameSites old new =
    (a b : Device) → Memᴰ a old.devices → Memᴰ b new.devices → a.id ≡ b.id → a.site ≡ b.site

update_state-keeps :
    (f : Faults) (n : ℕ) (a d : Device) (s : Option Text) (at : ℕ) (db : Db)
    → has_id a.id d ≡ false
    → Memᴰ d db.devices
    → Memᴰ d (update_state f n a.id s at db).0.devices
unfolding update_state
update_state-keeps f n a d s at db other m = elim (Bool-cases (f n)) [
  | inl e ↦ rw e m
  | inr e ↦ rw e (mem-update_where (has_id a.id) (seen_row s at) db.devices m other)
]

-- A device that an identity finds is none of another site.
other_device :
    (site source external : Text) (old db : Db) (a d : Device)
    → SameSites old db
    → find (has_identity site source external) old.devices ≡ some a
    → text_eq d.site site ≡ false
    → Memᴰ d db.devices
    → has_id a.id d ≡ false
other_device site source external old db a d one found foreign m =
    elim (Bool-cases (has_id a.id d)) [
      | inr e ↦ e
      | inl e ↦
          let (there, it) = mem_of_find (has_identity site source external) old.devices found in
          let here : text_eq a.site site ≡ true = ground arith in
          let same : a.site ≡ d.site = one a d there m (ground arith) in
          absurd (ground (arith, rw same at here))
    ]

upsert-keeps :
    (f : Faults) (site source external hint : Text) (s : Option Text) (at : ℕ) (seen db : Db)
    (d : Device)
    → SameSites seen db
    → SameSites db db
    → text_eq d.site site ≡ false
    → Memᴰ d db.devices
    → Memᴰ d (upsert_state f site source external hint s at seen db).0.devices
unfolding upsert_state insert_or_update
upsert-keeps f site source external hint s at seen db d past one foreign m =
    elim (Bool-cases (f 0)) [
      | inl e ↦ rw e m
      | inr e ↦ elim (Option-cases (find (has_identity site source external) seen.devices)) [
        | inr (a, g) ↦
            rw (e, g)
              (update_state-keeps f 1 a d s at db
                (other_device site source external seen db a d past g foreign m) m)
        | inl g ↦ elim (Bool-cases (f 1)) [
          | inl e1 ↦ rw (e, g, insert_or_update, e1) m
          | inr e1 ↦ elim (Option-cases (find (has_identity site source external) db.devices)) [
            | inl h ↦ rw (e, g, insert_or_update, e1, h) (Memᴰ.tail m)
            | inr (a, h) ↦ elim (Bool-cases (f 2)) [
              | inl e2 ↦ rw (e, g, insert_or_update, e1, h, e2) m
              | inr e2 ↦
                  rw (e, g, insert_or_update, e1, h, e2)
                    (update_state-keeps f 3 a d s at db
                      (other_device site source external db db a d one h foreign m) m)
            ]
          ]
        ]
      ]
    ]

ensure-keeps :
    (f : Faults) (site source external : Text) (now : ℕ) (first seen db : Db) (d : Device)
    → SameSites seen db
    → SameSites db db
    → text_eq d.site site ≡ false
    → Memᴰ d db.devices
    → Memᴰ d (ensure_device f site source external now first seen db).0.devices
unfolding ensure_device
ensure-keeps f site source external now first seen db d past one foreign m =
    elim (Bool-cases (f 9)) [
      | inl e ↦ rw e m
      | inr e ↦ elim (Option-cases (find (has_identity site source external) first.devices)) [
        | inr (a, g) ↦ rw (e, g) m
        | inl g ↦
            rw (e, g) (upsert-keeps f site source external [] none now seen db d past one foreign m)
      ]
    ]

event-keeps :
    (w : Setting) (t : DataTopic) (msg : Message) (db : Db) (d : Device)
    → SameSites w.seen db
    → SameSites db db
    → text_eq d.site t.site ≡ false
    → Memᴰ d db.devices
    → Memᴰ d (route w t event msg db).devices
unfolding route handle_event
event-keeps w t msg db d past one foreign m = elim (Option-cases msg.as_event) [
  | inl e ↦ rw e m
  | inr (b, e) ↦
      let stays =
        ensure-keeps w.fails t.site t.source_id t.device_id w.now w.first w.seen db d past one
          foreign m in
      let call = ensure_device w.fails t.site t.source_id t.device_id w.now w.first w.seen db in
      elim (Result-cases call.1) [
        | inr (x, g) ↦ rw (e, handle_event, g) stays
        | inl (v, g) ↦
            rw
              (e, handle_event, g, insert_event-devices (w.fails 10) w.digest w.now v.0.id b call.0)
              stays
      ]
]

route-keeps :
    (w : Setting) (t : DataTopic) (ch : Channel) (msg : Message) (db : Db) (d : Device)
    → SameSites w.seen db
    → SameSites db db
    → text_eq d.site t.site ≡ false
    → Memᴰ d db.devices
    → Memᴰ d (route w t ch msg db).devices
unfolding route handle_state
route-keeps w t cmd msg db d past one foreign m = m
route-keeps w t event msg db d past one foreign m = event-keeps w t msg db d past one foreign m
route-keeps w t ack msg db d past one foreign m = elim (Option-cases msg.as_ack) [
  | inl e ↦ rw e m
  | inr (b, e) ↦ rw (e, ack-devices w b db) m
]
route-keeps w t state msg db d past one foreign m = elim (Option-cases msg.as_state) [
  | inl e ↦ rw e m
  | inr (b, e) ↦
      rw (e, handle_state)
        (upsert-keeps w.fails t.site t.source_id t.device_id b.category b.attrs b.at w.seen db d
          past one foreign m)
]

-- No message, of whatever topic and payload, changes a device of another site than the consumer's,
-- where an id names a device of one site.
pub other_site_kept :
    (w : Setting) (site : Text) (msg : Message) (db : Db) (d : Device)
    → SameSites w.seen db
    → SameSites db db
    → text_eq d.site site ≡ false
    → Memᴰ d db.devices
    → Memᴰ d (handle_message w site msg db).devices
unfolding handle_message handle_meta mark_source_offline
other_site_kept w site msg db d past one foreign m = elim (Bool-cases (is_meta_topic msg.topic)) [
  | inl e ↦
      rw (handle_message, e)
        (elim (Option-cases (parse_meta_topic msg.topic)) [
          | inl g ↦ rw (handle_meta, g) m
          | inr (p, g) ↦ elim (Bool-cases (text_eq p.1 (codes "offline"))) [
            | inr h ↦ rw (handle_meta, g, h) m
            | inl h ↦ elim (Bool-cases (w.fails 0)) [
              | inl k ↦ rw (handle_meta, g, h, mark_source_offline, k) m
              | inr k ↦
                  rw (handle_meta, g, h, mark_source_offline, k)
                    (mem-update_where (of_source site p.0) gone db.devices m (ground arith))
            ]
          ]
        ])
  | inr e ↦ elim (Option-cases (parse_data_topic msg.topic)) [
    | inl g ↦ rw (handle_message, e, g) m
    | inr (t, g) ↦ elim (Bool-cases (text_eq t.site site)) [
      | inr h ↦ rw (handle_message, e, g, h) m
      | inl h ↦
          let same = text_eq_sound t.site site h in
          rw (handle_message, e, g, h)
            (route-keeps w t t.channel msg db d past one (rw same foreign) m)
    ]
  ]
]

abbrev pub will_topic : Text → Text
will_topic source = root ++ (slash ∷ (meta ++ (slash ∷ (source ++ (slash ∷ codes "offline")))))

will-parse :
    (source : Text)
    → valid_segment source ≡ true
    → parse_meta_topic (will_topic source) ≡ some (source, codes "offline")
unfolding parse_meta_topic parse_meta_segments valid_segment
will-parse source v =
    let split : split_on slash (will_topic source) ≡ root ∷ meta ∷ source ∷ codes "offline" ∷ [] =
      split-part slash root _ refl
      ∙ ap (λ x. root ∷ x)
          (split-part slash meta _ refl
            ∙ ap (λ x. meta ∷ x)
                (split-part slash source _ (valid_lacks source v)
                  ∙ ap (λ x. source ∷ x) (split-last slash (codes "offline") refl))) in
    rw (parse_meta_topic, split, parse_meta_segments, v) refl

-- The will message of a source has no site in its topic: at the consumer of every site it marks the
-- online devices of that site's source of the same name as offline.
pub will_reaches_each_site :
    (w : Setting) (site source : Text) (msg : Message) (db : Db) (d : Device)
    → msg.topic ≡ will_topic source
    → valid_segment source ≡ true
    → w.fails 0 ≡ false
    → Memᴰ d db.devices
    → of_source site source d ≡ true
    → Memᴰ (gone d) (handle_message w site msg db).devices
unfolding handle_message handle_meta mark_source_offline is_meta_topic has_prefix
will_reaches_each_site w site source msg db d topic v calm m online =
    rw (topic, handle_message, handle_meta, will-parse source v, mark_source_offline, calm)
      (mem-updated (of_source site source) gone db.devices m online)
