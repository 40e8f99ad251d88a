-- ===== src/Buffer/Flow.antt =====
-- What a drain sends, and when the queue runs empty.
use ocm.Prelude.{
  ℕ, suc, ◌+◌, ◌-◌, ◌≤◌, ◌≡◌, refl, ap, inl, inr, Bool, true, false, List, [], ◌∷◌, ◌++◌, length,
  take, length-drop, ◌==◌, Bool-cases, Faults, All, arith,
}
use ocm.Buffer.{
  Entry, Codec, Store, Transport, Drained, drain_loop, drain, with_entries, Call, adds, drains,
  step, run,
}
use ocm.Buffer.Waiting.{taken, drain-queue, persist_locked-queue}

-- The transport takes the first entries of a list, the first of them as its k-th.
abbrev pub Accepted : Transport → ℕ → List Entry → Type 0
Accepted publish k [] = Unit
Accepted publish k (e ∷ es) = (publish k e ≡ true) × Accepted publish (suc k) es

-- What is kept, when the drain stopped: a frame that the transport refused as its k-th, first.
abbrev pub Refused : Transport → ℕ → List Entry → Type 0
Refused publish k [] = ⊥
Refused publish k (e ∷ es) = publish k e ≡ false

abbrev pub Rest : Transport → ℕ → Bool → List Entry → Type 0
Rest publish k true es = Refused publish k es
Rest publish k false es = es ≡ []

record Split (publish : Transport) (k sent : ℕ) (stopped : Bool) (es kept : List Entry)
    : Type 0 where
  pub whole : take (sent - k) es ++ kept ≡ es
  pub accepted : Accepted publish k (take (sent - k) es)
  pub rest : Rest publish sent stopped kept
  pub count : k ≤ sent

drain_loop-Split :
    (publish : Transport) (k : ℕ) (es : List Entry)
    → let out = drain_loop publish k es in Split publish k out.sent out.stopped es out.kept
unfolding drain_loop
drain_loop-Split publish k [] = record {
  whole = let h : k - k ≡ 0 = omega arith in rw h refl;
  accepted = let h : k - k ≡ 0 = omega arith in rw h tt;
  rest = refl;
  count = omega arith;
}
drain_loop-Split publish k (e ∷ es) = elim (Bool-cases (publish k e)) [
  | inl a ↦
      let ih = drain_loop-Split publish (suc k) es in
      let out : Drained = drain_loop publish (suc k) es in
      let h : out.sent - k ≡ suc (out.sent - suc k) = omega (arith, ih.count) in
      rw (drain_loop, a)
        (record {
          whole = rw h (ap (◌∷◌ e) ih.whole);
          accepted = rw h (a, ih.accepted);
          rest = ih.rest;
          count = omega (arith, ih.count);
        })
  | inr a ↦
      let h : k - k ≡ 0 = omega arith in
      rw (drain_loop, a)
        (record { whole = rw h refl; accepted = rw h tt; rest = a; count = omega arith })
]

empty : (es : List Entry) → (length es == 0) ≡ true → es ≡ []
empty [] h = refl
empty (e ∷ es) h = absurd (ground (arith, h))

none_left : (es : List Entry) → length es ≤ 0 → es ≡ []
none_left [] h = refl
none_left (e ∷ es) h = absurd (omega (arith, h))

taken-some :
    (publish : Transport) (es : List Entry)
    → ((e : Entry) → publish 0 e ≡ true)
    → length es ≤ taken publish 0 es + (length es - 1)
taken-some publish [] takes = omega arith
taken-some publish (e ∷ es) takes = ground (arith, takes e)

-- A drain, of any store and with any faults of the file system: what was sent and what is kept are
-- together the old entries in their order, so that no frame is lost or sent twice; the transport
-- took each frame that was sent, oldest first; and either a refused frame is the first of those kept,
-- or nothing is kept.
pub drain-Whole :
    (codec : Codec) (faults : Faults) (publish : Transport) (s : Store)
    → let (sent, stopped, after) = drain codec faults publish s in
      (take sent s.queue.entries ++ after.queue.entries ≡ s.queue.entries)
      × Accepted publish 0 (take sent s.queue.entries)
      × Rest publish sent stopped after.queue.entries
unfolding drain
drain-Whole codec faults publish s =
    let split = drain_loop-Split publish 0 s.queue.entries in
    let out : Drained = drain_loop publish 0 s.queue.entries in
    let from : out.sent - 0 ≡ out.sent = omega arith in
    elim (Bool-cases (length s.queue.entries == 0)) [
      | inl e ↦ rw (drain, e) (refl, tt, empty s.queue.entries e)
      | inr e ↦
          let queue =
            ap (λ q. q.entries) (persist_locked-queue codec faults (with_entries out.kept s)) in
          rw (drain, e, queue) (rw from at split.whole, rw from at split.accepted, split.rest)
    ]

-- A drain whose first frame is taken leaves fewer.
drain-shorter :
    (codec : Codec) (faults : Faults) (publish : Transport) (s : Store)
    → ((e : Entry) → publish 0 e ≡ true)
    → length (drain codec faults publish s).2.queue.entries ≤ length s.queue.entries - 1
drain-shorter codec faults publish s takes =
    let queue = ap (λ q. q.entries) (drain-queue codec faults publish s) in
    rw queue (
      omega (
        arith,
        length-drop (taken publish 0 s.queue.entries) s.queue.entries,
        taken-some publish s.queue.entries takes,
      ))

-- A drain whose transport takes the first frame that it is given.
abbrev pub Progress : Call → Type 0
Progress (adds faults e) = ⊥
Progress (drains faults publish) = (e : Entry) → publish 0 e ≡ true

-- The queue runs empty: as many drains in a row as there are frames, each of which gets at least its
-- first frame through, leave nothing behind, whatever they do with the file.
pub drained :
    (codec : Codec) (calls : List Call) (s : Store)
    → All Progress calls
    → length s.queue.entries ≤ length calls
    → (run codec calls s).queue.entries ≡ []
unfolding run step
drained codec [] s progress h = none_left s.queue.entries h
drained codec (adds faults e ∷ calls) s progress h = absurd progress.0
drained codec (drains faults publish ∷ calls) s progress h =
    drained codec calls (drain codec faults publish s).2 progress.1
      (omega (arith, h, drain-shorter codec faults publish s progress.0))
