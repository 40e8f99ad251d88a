-- ===== src/Buffer/Waiting.antt =====
-- What waits in the queue, against a ledger of the frames that were ever put in it.
use ocm.Prelude.{
  ℕ, zero, suc, ◌+◌, ◌-◌, ◌≤◌, ◌≡◌, refl, sym, ap, ◌∙◌, inl, inr, true, List, [], ◌∷◌, ◌++◌, length,
  drop, length-append, length-drop, ltb, ◌==◌, if◌then◌else◌, Bool-cases, Option-cases, Faults,
  arith,
}
use mathlib.Core.Path.{subst}
use ocm.Buffer.{
  Entry, Codec, Store, persist_locked, encode_lines, with_entries, trim, add, Transport, drain_loop,
  drain, Call, adds, drains, step, run,
}

-- All frames in the order in which they came, and how many at the front no longer wait.
pub record Ledger : Type 0 where
  pub frames : List Entry
  pub gone : ℕ

abbrev pub waiting : Ledger → List Entry
waiting l = drop l.gone l.frames

-- The larger of two numbers.
abbrev later : ℕ → ℕ → ℕ
later a b = a + (b - a)

-- A frame comes; of the frames from the start, only the last `max` may wait.
abbrev pub enter : ℕ → Entry → Ledger → Ledger
enter max e l = record {
  frames = l.frames ++ e ∷ [];
  gone = later l.gone (suc (length l.frames) - max);
}

-- How many frames the transport takes before it refuses one.
abbrev pub taken : Transport → ℕ → List Entry → ℕ
taken publish k [] = 0
taken publish k (e ∷ es) =
    let rest = taken publish (suc k) es in if publish k e then suc rest else 0

abbrev pub leave : Transport → Ledger → Ledger
leave publish l = record { frames = l.frames; gone = l.gone + taken publish 0 (waiting l) }

abbrev pub enters : ℕ → List Call → Ledger → Ledger
enters max [] l = l
enters max (adds faults e ∷ calls) l = enters max calls (enter max e l)
enters max (drains faults publish ∷ calls) l = enters max calls (leave publish l)

module _ {ℓ} {A : Type ℓ} where
  drop-drop : (m n : ℕ) (xs : List A) → drop n (drop m xs) ≡ drop (m + n) xs
  drop-drop zero n xs = let h : 0 + n ≡ n = omega arith in rw h refl
  drop-drop (suc m) zero [] = let h : suc m + 0 ≡ suc m = omega arith in rw h refl
  drop-drop (suc m) (suc n) [] = let h : suc m + suc n ≡ suc (m + suc n) = omega arith in rw h refl
  drop-drop (suc m) n (x ∷ xs) =
      let h : suc m + n ≡ suc (m + n) = omega arith in rw h (drop-drop m n xs)

  drop-none : (n : ℕ) (xs : List A) → (length xs == 0) ≡ true → drop n xs ≡ xs
  drop-none zero [] h = refl
  drop-none (suc n) [] h = refl
  drop-none n (x ∷ xs) h = absurd (ground (arith, h))

  drop-append : (n : ℕ) (xs ys : List A) → n ≤ length xs → drop n (xs ++ ys) ≡ drop n xs ++ ys
  drop-append zero xs ys h = refl
  drop-append (suc n) [] ys h = absurd (omega (arith, h))
  drop-append (suc n) (x ∷ xs) ys h = drop-append n xs ys (omega (arith, h))

-- A store keeps its queue whatever becomes of its file.
pub persist_locked-queue :
    (codec : Codec) (faults : Faults) (s : Store)
    → (persist_locked codec faults s).1.queue ≡ s.queue
unfolding persist_locked
persist_locked-queue codec faults s = elim (Option-cases (encode_lines codec s.queue.entries)) [
  | inl e ↦ ground (arith, e)
  | inr (lines, e) ↦ ground (arith, e)
]

taken-below : (publish : Transport) (k : ℕ) (es : List Entry) → taken publish k es ≤ length es
taken-below publish k [] = omega arith
taken-below publish k (e ∷ es) = ground (arith, taken-below publish (suc k) es)

-- The loop keeps what the transport does not take, and counts what it takes.
pub drain_loop-kept :
    (publish : Transport) (k : ℕ) (es : List Entry)
    → (drain_loop publish k es).kept ≡ drop (taken publish k es) es
unfolding drain_loop
drain_loop-kept publish k [] = refl
drain_loop-kept publish k (e ∷ es) = ground (arith, drain_loop-kept publish (suc k) es)

drain_loop-sent :
    (publish : Transport) (k : ℕ) (es : List Entry)
    → (drain_loop publish k es).sent ≡ k + taken publish k es
unfolding drain_loop
drain_loop-sent publish k [] = omega arith
drain_loop-sent publish k (e ∷ es) = ground (arith, drain_loop-sent publish (suc k) es)

trim-drop : (max : ℕ) (es : List Entry) → trim max es ≡ drop (length es - max) es
trim-drop max es = elim (Bool-cases (ltb max (length es))) [
  | inl e ↦ rw e refl
  | inr e ↦ let h : length es - max ≡ 0 = ground arith in rw (e, h) refl
]

pub add-queue :
    (codec : Codec) (faults : Faults) (e : Entry) (s : Store)
    → (add codec faults e s).1.queue
      ≡ (with_entries (trim s.queue.max (s.queue.entries ++ e ∷ [])) s).queue
unfolding add
add-queue codec faults e s =
    persist_locked-queue codec faults
      (with_entries (trim s.queue.max (s.queue.entries ++ e ∷ [])) s)

-- A drain of an empty queue is told from one that publishes nothing by its writing no file.
pub drain-queue :
    (codec : Codec) (faults : Faults) (publish : Transport) (s : Store)
    → (drain codec faults publish s).2.queue
      ≡ (with_entries (drop (taken publish 0 s.queue.entries) s.queue.entries) s).queue
unfolding drain
drain-queue codec faults publish s = elim (Bool-cases (length s.queue.entries == 0)) [
  | inl e ↦ rw (e, drop-none (taken publish 0 s.queue.entries) s.queue.entries e) refl
  | inr e ↦
      rw
        (
          e,
          persist_locked-queue codec faults
              (with_entries (drain_loop publish 0 s.queue.entries).kept s),
          drain_loop-kept publish 0 s.queue.entries,
        )
        refl
]

-- A store agrees with a ledger when its entries are the waiting frames.
pub record Agree (l : Ledger) (s : Store) : Type 0 where
  pub same : s.queue.entries ≡ waiting l
  pub below : l.gone ≤ length l.frames

-- An append to what waits, with the oldest shed.
trim-waiting :
    (max : ℕ) (e : Entry) (l : Ledger)
    → l.gone ≤ length l.frames
    → trim max (waiting l ++ e ∷ []) ≡ waiting (enter max e l)
trim-waiting max e l h =
    let together : waiting l ++ e ∷ [] ≡ drop l.gone (l.frames ++ e ∷ []) =
      sym (drop-append l.gone l.frames (e ∷ []) h) in
    let size : length (l.frames ++ e ∷ []) ≡ suc (length l.frames) =
      omega (arith, length-append l.frames (e ∷ [])) in
    let count : length (drop l.gone (l.frames ++ e ∷ [])) ≡ length (l.frames ++ e ∷ []) - l.gone =
      length-drop l.gone (l.frames ++ e ∷ []) in
    let index : l.gone + (length (drop l.gone (l.frames ++ e ∷ [])) - max) ≡ (enter max e l).gone =
      omega (arith, size, count) in
    trim-drop max (waiting l ++ e ∷ [])
    ∙ ap (λ es. drop (length es - max) es) together
    ∙ drop-drop l.gone (length (drop l.gone (l.frames ++ e ∷ [])) - max) (l.frames ++ e ∷ [])
    ∙ ap (λ n. drop n (l.frames ++ e ∷ [])) index

enter-Agree :
    (codec : Codec) (faults : Faults) (e : Entry) (l : Ledger) (s : Store)
    → Agree l s
    → Agree (enter s.queue.max e l) (add codec faults e s).1
enter-Agree codec faults e l s a = record {
  same =
      ap (λ q. q.entries) (add-queue codec faults e s)
      ∙ ap (λ es. trim s.queue.max (es ++ e ∷ [])) a.same
      ∙ trim-waiting s.queue.max e l a.below;
  below =
      let size : length (l.frames ++ e ∷ []) ≡ suc (length l.frames) =
        omega (arith, length-append l.frames (e ∷ [])) in
      omega (arith, size, a.below);
}

leave-Agree :
    (codec : Codec) (faults : Faults) (publish : Transport) (l : Ledger) (s : Store)
    → Agree l s
    → Agree (leave publish l) (drain codec faults publish s).2
leave-Agree codec faults publish l s a = record {
  same =
      ap (λ q. q.entries) (drain-queue codec faults publish s)
      ∙ ap (λ es. drop (taken publish 0 es) es) a.same
      ∙ drop-drop l.gone (taken publish 0 (waiting l)) l.frames;
  below = omega (arith, a.below, taken-below publish 0 (waiting l), length-drop l.gone l.frames);
}

-- No call changes the path or the capacity.
keeps_fixed :
    (codec : Codec) (call : Call) (s : Store)
    → ((step codec call s).queue.path ≡ s.queue.path)
      × ((step codec call s).queue.max ≡ s.queue.max)
unfolding step
keeps_fixed codec (adds faults e) s =
    let same = add-queue codec faults e s in (ap (λ q. q.path) same, ap (λ q. q.max) same)
keeps_fixed codec (drains faults publish) s =
    let same = drain-queue codec faults publish s in (ap (λ q. q.path) same, ap (λ q. q.max) same)

pub run-fixed :
    (codec : Codec) (calls : List Call) (s : Store)
    → ((run codec calls s).queue.path ≡ s.queue.path)
      × ((run codec calls s).queue.max ≡ s.queue.max)
unfolding run
run-fixed codec [] s = (refl, refl)
run-fixed codec (call ∷ calls) s =
    let (path, max) = run-fixed codec calls (step codec call s) in
    (path ∙ (keeps_fixed codec call s).0, max ∙ (keeps_fixed codec call s).1)

-- After any calls, whether or not the file could be written, the queue holds the frames that wait:
-- of all that came, in order, without those that the transport took from the front and without the
-- oldest that were over the capacity when a frame came.
pub run-Agree :
    (codec : Codec) (calls : List Call) (max : ℕ) (l : Ledger) (s : Store)
    → s.queue.max ≡ max
    → Agree l s
    → Agree (enters max calls l) (run codec calls s)
unfolding run step
run-Agree codec [] max l s m a = a
run-Agree codec (adds faults e ∷ calls) max l s m a =
    run-Agree codec calls max (enter max e l) (add codec faults e s).1
      ((keeps_fixed codec (adds faults e) s).1 ∙ m)
      (subst (λ n. Agree (enter n e l) (add codec faults e s).1) m
        (enter-Agree codec faults e l s a))
run-Agree codec (drains faults publish ∷ calls) max l s m a =
    run-Agree codec calls max (leave publish l) (drain codec faults publish s).2
      ((keeps_fixed codec (drains faults publish) s).1 ∙ m) (leave-Agree codec faults publish l s a)
