-- ===== src/Buffer/Examples.antt =====
-- The theorems on the queue at three frames.
use ocm.Prelude.{
  ℕ, zero, suc, ◌≤◌, ◌≡◌, refl, false, List, [], ◌∷◌, ◌++◌, length, take, ◌==◌, Option, some, none,
  ok, err, no_faults, arith,
}
use ocm.Prelude.Int.{pos}
use ocm.Prelude.Text.{Text, codes}
use ocm.Buffer.{
  Entry, Codec, Queue, Store, max_token, not_read, open_queue, add, Transport, drain_loop, drain,
  persist_locked, encode_lines, Call, adds, drains, run, step,
}
use ocm.Buffer.Waiting.{Agree, enters, run-Agree}
use ocm.Buffer.Recovery.{reopened}
use ocm.Buffer.Oversize.{long-unreadable}
use ocm.Buffer.Flow.{Accepted, Rest, drain-Whole, drained}

abbrev frame : ℕ → Entry
frame n = record { topic = codes "t"; payload = n ∷ []; retain = false }

-- A line is the payload; an empty one stands for a broken line.
abbrev of_line : Text → Option Entry
of_line [] = none
of_line (c ∷ line) = some (record { topic = codes "t"; payload = c ∷ line; retain = false })

abbrev codec : Codec
codec = record { encode = λ e. some e.payload; decode = of_line }

abbrev two : Queue
two = record { path = codes "buf"; max = 2; entries = [] }

abbrev empty_store : Store
empty_store = record { queue = two; file = none }

abbrev full_store : Store
full_store = record { queue = record two { entries = frame 1 ∷ frame 2 ∷ [] }; file = none }

-- Takes one frame and no other.
abbrev one : Transport
one k e = k == 0

abbrev three_frames : List Call
three_frames =
    adds no_faults (frame 1)
    ∷ adds no_faults (frame 2)
    ∷ adds no_faults (frame 3)
    ∷ drains no_faults one
    ∷ []

three_frames-left : (run codec three_frames empty_store).queue.entries ≡ frame 3 ∷ []
unfolding run step add drain drain_loop persist_locked encode_lines
three_frames-left = refl

run-Agree_example :
    Agree
      (enters 2 three_frames (record { frames = []; gone = 0 }))
      (run codec three_frames empty_store)
run-Agree_example =
    run-Agree codec three_frames 2 (record { frames = []; gone = 0 }) empty_store refl
      (record { same = refl; below = omega arith })

reopened_example :
    open_queue codec no_faults (codes "buf") (pos 2) (run codec three_frames empty_store).file
    ≡ ok (run codec three_frames empty_store).queue
unfolding open_queue
reopened_example = reopened codec (codes "buf") (pos 2) none two three_frames refl refl tt (
  ((λ k. refl), (1 ∷ [], refl, refl, omega arith)),
  (
    ((λ k. refl), (2 ∷ [], refl, refl, omega arith)),
    (((λ k. refl), (3 ∷ [], refl, refl, omega arith)), ((λ k. refl), tt)),
  ),
)

unfoldable repeat : ℕ → ℕ → Text
repeat zero c = []
repeat (suc n) c = c ∷ repeat n c

length-repeat : (n c : ℕ) → n ≤ length (repeat n c)
unfolding repeat
length-repeat zero c = omega arith
length-repeat (suc n) c = omega (arith, length-repeat n c)

abbrev long_frame : Entry
long_frame = record { topic = codes "t"; payload = repeat max_token 97; retain = false }

long-unreadable_example :
    ((add codec no_faults long_frame full_store).0 ≡ ok tt)
    × (open_queue codec no_faults
          (codes "buf")
          (pos 2)
          (add codec no_faults long_frame full_store).1.file
        ≡ err not_read)
long-unreadable_example =
    long-unreadable codec long_frame (repeat max_token 97) (pos 2) full_store (omega arith) refl
      refl (length-repeat max_token 97) ((1 ∷ [], refl), ((2 ∷ [], refl), tt))

drain-Whole_example :
    let (sent, stopped, after) = drain codec no_faults one full_store in
    (take sent full_store.queue.entries ++ after.queue.entries ≡ full_store.queue.entries)
    × Accepted one 0 (take sent full_store.queue.entries)
    × Rest one sent stopped after.queue.entries
drain-Whole_example = drain-Whole codec no_faults one full_store

drained_example :
    (run codec (drains no_faults one ∷ drains no_faults one ∷ []) full_store).queue.entries ≡ []
drained_example =
    drained codec (drains no_faults one ∷ drains no_faults one ∷ []) full_store
      ((λ e. refl), ((λ e. refl), tt)) (omega arith)
