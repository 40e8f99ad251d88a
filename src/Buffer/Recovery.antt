-- ===== src/Buffer/Recovery.antt =====
-- What a new start finds in the file of the queue.
use ocm.Prelude.{
  ℕ, zero, suc, ◌-◌, ◌<◌, ◌≡◌, refl, sym, ap, ◌∙◌, inl, inr, false, List, [], ◌∷◌, ◌++◌, length,
  drop, leb, ltb, ◌==◌, Bool-cases, some, none, Faults, no_faults, All, All-append, Result, ok, err,
  ◌>>=◌, Result-cases, arith,
}
use ocm.Prelude.Int.{ℤ}
use ocm.Prelude.Text.{Text, text_eq}
use ocm.Buffer.{
  Entry, Codec, Queue, File, Store, Error, max_token, capacity, read_lines, open_queue,
  persist_locked, encode_lines, with_entries, trim, add, Transport, drain_loop, drain, Call, adds,
  drains, step, run,
}
use ocm.Buffer.Waiting.{taken, drain_loop-kept, run-fixed}

-- An entry whose line is read back as the entry, and fits the scanner's buffer.
abbrev pub Sound : Codec → Entry → Type 0
Sound codec e =
    (line : Text) × (codec.encode e ≡ some line)
    × (codec.decode line ≡ some e)
    × (length line < max_token)

abbrev pub load : Codec → File → Result Error (List Entry)
load codec none = ok []
load codec (some lines) = read_lines codec lines

-- The lines of sound entries are read back as the entries.
pub encode-read :
    (codec : Codec) (es : List Entry)
    → All (Sound codec) es
    → (lines : List Text) × (encode_lines codec es ≡ some lines) × (read_lines codec lines ≡ ok es)
unfolding encode_lines read_lines
encode-read codec [] h = ([], refl, refl)
encode-read codec (e ∷ es) h =
    let (line, written, decoded, short) = h.0 in
    let (lines, all_written, all_read) = encode-read codec es h.1 in
    let fits : leb max_token (length line) ≡ false = ground (arith, short) in
    (
      line ∷ lines,
      rw (encode_lines, written, all_written) refl,
      rw (read_lines, fits, decoded, all_read) refl,
    )

pub All-drop {ℓ κ} :
    {A : Type ℓ} (P : A → Type κ) (n : ℕ) (xs : List A) → All P xs → All P (drop n xs)
All-drop P zero xs h = h
All-drop P (suc n) [] h = h
All-drop P (suc n) (x ∷ xs) h = All-drop P n xs h.1

-- The file holds the entries of the queue.
pub record Saved (codec : Codec) (s : Store) : Type 0 where
  pub loads : load codec s.file ≡ ok s.queue.entries
  pub sound : All (Sound codec) s.queue.entries
  pub named : text_eq s.queue.path [] ≡ false

-- A frame that is sound, and a file system that works.
abbrev pub Clean : Codec → Call → Type 0
Clean codec (adds faults e) = ((k : ℕ) → faults k ≡ false) × Sound codec e
Clean codec (drains faults publish) = (k : ℕ) → faults k ≡ false

persist_locked-Saved :
    (codec : Codec) (faults : Faults) (s : Store)
    → ((k : ℕ) → faults k ≡ false)
    → All (Sound codec) s.queue.entries
    → text_eq s.queue.path [] ≡ false
    → Saved codec (persist_locked codec faults s).1
unfolding persist_locked
persist_locked-Saved codec faults s works h n =
    let (lines, written, same) = encode-read codec s.queue.entries h in
    rw (n, works 0, written, works 1, works 2, works 3, works 4)
      (record { loads = same; sound = h; named = n })

pub All-trim : (P : Entry → Type 0) (max : ℕ) (es : List Entry) → All P es → All P (trim max es)
All-trim P max es h = elim (Bool-cases (ltb max (length es))) [
  | inl e ↦ rw e (All-drop P (length es - max) es h)
  | inr e ↦ rw e h
]

add-Saved :
    (codec : Codec) (faults : Faults) (e : Entry) (s : Store)
    → ((k : ℕ) → faults k ≡ false)
    → Sound codec e
    → Saved codec s
    → Saved codec (add codec faults e s).1
unfolding add
add-Saved codec faults e s works h saved =
    persist_locked-Saved codec faults
      (with_entries (trim s.queue.max (s.queue.entries ++ e ∷ [])) s) works
      (All-trim (Sound codec) s.queue.max (s.queue.entries ++ e ∷ [])
        (All-append (Sound codec) s.queue.entries (e ∷ []) saved.sound (h, tt)))
      saved.named

drain-Saved :
    (codec : Codec) (faults : Faults) (publish : Transport) (s : Store)
    → ((k : ℕ) → faults k ≡ false)
    → Saved codec s
    → Saved codec (drain codec faults publish s).2
unfolding drain
drain-Saved codec faults publish s works saved = elim (Bool-cases (length s.queue.entries == 0)) [
  | inl e ↦ rw e saved
  | inr e ↦
      let kept = drain_loop-kept publish 0 s.queue.entries in
      rw e (
        persist_locked-Saved codec faults
          (with_entries (drain_loop publish 0 s.queue.entries).kept s) works
          (rw kept
            (All-drop (Sound codec) (taken publish 0 s.queue.entries) s.queue.entries saved.sound))
          saved.named)
]

run-Saved :
    (codec : Codec) (calls : List Call) (s : Store)
    → All (Clean codec) calls
    → Saved codec s
    → Saved codec (run codec calls s)
unfolding run step
run-Saved codec [] s clean saved = saved
run-Saved codec (adds faults e ∷ calls) s clean saved =
    run-Saved codec calls (add codec faults e s).1 clean.1
      (add-Saved codec faults e s clean.0.0 clean.0.1 saved)
run-Saved codec (drains faults publish ∷ calls) s clean saved =
    run-Saved codec calls (drain codec faults publish s).2 clean.1
      (drain-Saved codec faults publish s clean.0 saved)

pub open_queue-load :
    (codec : Codec) (path : Text) (max : ℤ) (file : File)
    → text_eq path [] ≡ false
    → open_queue codec no_faults path max file
      ≡ (load codec file >>= λ es. ok (record { path = path; max = capacity max; entries = es }))
unfolding open_queue
open_queue-load codec path max none named = rw named refl
open_queue-load codec path max (some lines) named = rw named refl

-- A queue that was opened is the path, the capacity and what the file holds.
opened-load :
    (codec : Codec) (path : Text) (max : ℤ) (file : File) (q : Queue)
    → text_eq path [] ≡ false
    → open_queue codec no_faults path max file ≡ ok q
    → (load codec file ≡ ok q.entries) × (q.path ≡ path) × (q.max ≡ capacity max)
opened-load codec path max file q named opened = elim (Result-cases (load codec file)) [
  | inl (es, e) ↦
      let h : ok (record { path = path; max = capacity max; entries = es }) ≡ ok q =
        rw e at (sym (open_queue-load codec path max file named) ∙ opened) in
      let same : record { path = path; max = capacity max; entries = es } ≡ q = ground (arith, h) in
      (e ∙ ap (λ r. ok r.entries) same, sym (ap (λ r. r.path) same), sym (ap (λ r. r.max) same))
  | inr (x, e) ↦
      let h : err x ≡ ok q = rw e at (sym (open_queue-load codec path max file named) ∙ opened) in
      absurd (ground (arith, h))
]

-- A process that stops after any calls, with a file system that works and frames that are sound,
-- and opens its queue again with the same path and capacity, has the queue that it had.
pub reopened :
    (codec : Codec) (path : Text) (max : ℤ) (file : File) (q : Queue) (calls : List Call)
    → text_eq path [] ≡ false
    → open_queue codec no_faults path max file ≡ ok q
    → All (Sound codec) q.entries
    → All (Clean codec) calls
    → let s = run codec calls (record { queue = q; file = file }) in
      open_queue codec no_faults path max s.file ≡ ok s.queue
reopened codec path max file q calls named opened sound clean =
    let start : Store = record { queue = q; file = file } in
    let (loads, named_so, holds) = opened-load codec path max file q named opened in
    let saved : Saved codec (run codec calls start) =
      run-Saved codec calls start clean
        (record { loads = loads; sound = sound; named = rw named_so named }) in
    let (path_kept, max_kept) = run-fixed codec calls start in
    let end : Queue = (run codec calls start).queue in
    rw (open_queue-load codec path max (run codec calls start).file named, saved.loads)
      (ap (λ p. ok (record { path = p; max = capacity max; entries = end.entries }))
          (sym (path_kept ∙ named_so))
        ∙ ap (λ m. ok (record { path = end.path; max = m; entries = end.entries }))
            (sym (max_kept ∙ holds)))
