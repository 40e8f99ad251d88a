-- ===== src/Buffer/Oversize.antt =====
-- A frame whose line is too long to be read back.
use mathlib.Core.List.{Memᴰ}
use ocm.Prelude.{
  ℕ, zero, suc, ◌-◌, ◌≤◌, ◌≡◌, refl, sym, ap, ◌∙◌, inl, inr, true, false, List, [], ◌∷◌, ◌++◌,
  length, drop, length-append, leb, ltb, Bool-cases, Option-cases, some, no_faults, All, All-append,
  ok, err, arith,
}
use ocm.Prelude.Int.{ℤ}
use ocm.Prelude.Text.{Text, text_eq}
use ocm.Buffer.{
  Entry, Codec, Store, max_token, not_read, read_lines, open_queue, persist_locked, encode_lines,
  trim, add,
}
use ocm.Buffer.Recovery.{All-trim, open_queue-load}

-- The lines of a list that is written.
encode_lines-cons :
    (codec : Codec) (x : Entry) (es : List Entry) (lines : List Text)
    → encode_lines codec (x ∷ es) ≡ some lines
    → (line : Text) × (rest : List Text) × (codec.encode x ≡ some line)
      × (encode_lines codec es ≡ some rest)
      × (lines ≡ line ∷ rest)
unfolding encode_lines
encode_lines-cons codec x es lines h = elim (Option-cases (codec.encode x)) [
  | inl e ↦ absurd (ground (arith, rw (encode_lines, e) at h))
  | inr (line, e) ↦ elim (Option-cases (encode_lines codec es)) [
    | inl g ↦ absurd (ground (arith, rw (encode_lines, e, g) at h))
    | inr (rest, g) ↦
        let same : some (line ∷ rest) ≡ some lines = rw (encode_lines, e, g) at h in
        (line, rest, e, g, ground (arith, same))
  ]
]

-- A frame whose line does not fit the scanner's buffer.
read_lines-long :
    (codec : Codec) {e : Entry} (es : List Entry) (line : Text) (lines : List Text)
    → Memᴰ e es
    → codec.encode e ≡ some line
    → max_token ≤ length line
    → encode_lines codec es ≡ some lines
    → read_lines codec lines ≡ err not_read
unfolding read_lines
read_lines-long codec [] line lines m written long all = elim m [ ]
read_lines-long codec (x ∷ es) line lines (Memᴰ.head e) written long all =
    let (first, rest, wrote, others, same) = encode_lines-cons codec x es lines all in
    let this : some line ≡ some first = sym written ∙ ap codec.encode e ∙ wrote in
    let too_long : leb max_token (length first) ≡ true = ground (arith, this, long) in
    rw (same, read_lines, too_long) refl
read_lines-long codec (x ∷ es) line lines (Memᴰ.tail m) written long all =
    let (first, rest, wrote, others, same) = encode_lines-cons codec x es lines all in
    let broken = read_lines-long codec es line rest m written long others in
    elim (Bool-cases (leb max_token (length first))) [
      | inl g ↦ rw (same, read_lines, g) refl
      | inr g ↦ elim (Option-cases (codec.decode first)) [
        | inl d ↦ rw (same, read_lines, g, d, broken) refl
        | inr (y, d) ↦ rw (same, read_lines, g, d, broken) refl
      ]
    ]

mem-last-drop :
    {A : Type 0} (n : ℕ) (xs : List A) (x : A) → n ≤ length xs → Memᴰ x (drop n (xs ++ x ∷ []))
mem-last-drop zero [] x h = Memᴰ.head refl
mem-last-drop zero (y ∷ xs) x h = Memᴰ.tail (mem-last-drop zero xs x (omega arith))
mem-last-drop (suc n) [] x h = absurd (omega (arith, h))
mem-last-drop (suc n) (y ∷ xs) x h = mem-last-drop n xs x (omega (arith, h))

-- An entry with a JSON payload.
abbrev pub Encoded : Codec → Entry → Type 0
Encoded codec e = (line : Text) × (codec.encode e ≡ some line)

encode-Encoded :
    (codec : Codec) (es : List Entry)
    → All (Encoded codec) es
    → (lines : List Text) × (encode_lines codec es ≡ some lines)
unfolding encode_lines
encode-Encoded codec [] h = ([], refl)
encode-Encoded codec (e ∷ es) h =
    let (lines, all) = encode-Encoded codec es h.1 in
    (h.0.0 ∷ lines, rw (encode_lines, h.0.1, all) refl)

-- The newest entry is never shed.
mem-trim : (max : ℕ) (xs : List Entry) (x : Entry) → 1 ≤ max → Memᴰ x (trim max (xs ++ x ∷ []))
mem-trim max xs x h = elim (Bool-cases (ltb max (length (xs ++ x ∷ [])))) [
  | inl e ↦ rw e (
      mem-last-drop (length (xs ++ x ∷ []) - max) xs x
        (omega (arith, h, length-append xs (x ∷ []))))
  | inr e ↦ rw e (mem-last-drop 0 xs x (omega arith))
]

-- A frame whose line has 1048576 bytes or more is queued and written without an error, when the
-- queue has a file and a capacity of at least one, the frames before it are encoded and the file
-- system works; and opening the file that this leaves fails: none of its frames is read.
pub long-unreadable :
    (codec : Codec) (e : Entry) (line : Text) (max : ℤ) (s : Store)
    → 1 ≤ s.queue.max
    → text_eq s.queue.path [] ≡ false
    → codec.encode e ≡ some line
    → max_token ≤ length line
    → All (Encoded codec) s.queue.entries
    → ((add codec no_faults e s).0 ≡ ok tt)
      × (open_queue codec no_faults s.queue.path max (add codec no_faults e s).1.file
          ≡ err not_read)
unfolding add persist_locked
long-unreadable codec e line max s room named written long others =
    let kept : List Entry = trim s.queue.max (s.queue.entries ++ e ∷ []) in
    let (lines, all) = encode-Encoded codec kept (
      All-trim (Encoded codec) s.queue.max (s.queue.entries ++ e ∷ [])
        (All-append (Encoded codec) s.queue.entries (e ∷ []) others ((line, written), tt))) in
    let broken =
      read_lines-long codec kept line lines (mem-trim s.queue.max s.queue.entries e room) written
        long all in
    let opening : open_queue codec no_faults s.queue.path max (some lines) ≡ err not_read =
      open_queue-load codec s.queue.path max (some lines) named ∙ rw broken refl in
    rw (add, persist_locked, named, all) (refl, opening)
