-- ===== src/RingBuffer/Fifo.antt =====
-- ring_buffer.c against a bounded queue.
use atcortex.Base.{
  ℕ, ◌+◌, ◌-◌, ◌%◌, ◌≡◌, ◌≢◌, refl, ap, Bool, true, false, Option, none, some, List, [], ◌∷◌, ◌++◌,
  arith, length, get_or, set, ◌==◌, if◌then◌else◌, mod_once, Bool-cases, inl, inr,
}
use atcortex.RingBuffer.{
  RingBuffer, next_index, ring_buffer_write, ring_buffer_read, write_to, read_from,
}
use atcortex.RingBuffer.Bounds.{
  IsValid, storage, held, next_index_lem, write_to-IsValid, read_from-IsValid,
}
use atcortex.RingBuffer.Turns.{held_full, contents-write, contents-read}
use atcortex.RingBuffer.Contents.{contents, length-contents, span, byte_at}

-- The bounded queue.
unfoldable pub push : ℕ → List ℕ → ℕ → Bool × List ℕ
push c q byte = if length q + 1 == c then (false, q) else (true, q ++ (byte ∷ []))

unfoldable pub pop : List ℕ → Option ℕ × List ℕ
pop [] = (none, [])
pop (byte ∷ q) = (some byte, q)

-- The outcome of a write to `h`, against the queue of its bytes.
pub record Written (h : RingBuffer) (byte : ℕ) (done : Bool) (h' : RingBuffer) : Type 0 where
  pub valid : IsValid h'
  pub capacity : h'.capacity ≡ h.capacity
  pub queue : (done, contents h') ≡ push h.capacity (contents h) byte

write_to-full :
    {h : RingBuffer} (byte : ℕ)
    → IsValid h
    → ((h.write_index + 1) % h.capacity == h.read_index) ≡ true
    → write_to (storage h) h byte ≡ (false, h)
unfolding write_to
write_to-full {h} byte v e =
    ground (arith, next_index_lem h.write_index h.capacity v.write_in v.word)

write_to-room :
    {h : RingBuffer} (byte : ℕ)
    → IsValid h
    → ((h.write_index + 1) % h.capacity == h.read_index) ≡ false
    → write_to (storage h) h byte ≡ (
      true,
      record h {
        buffer = some (set (storage h) h.write_index byte);
        write_index = (h.write_index + 1) % h.capacity;
      },
    )
unfolding write_to
write_to-room {h} byte v e =
    ground (arith, next_index_lem h.write_index h.capacity v.write_in v.word)

write_to-push :
    {h : RingBuffer} (byte : ℕ)
    → IsValid h
    → let (done, h') = write_to (storage h) h byte in
      (done, contents h') ≡ push h.capacity (contents h) byte
unfolding push contents
write_to-push {h} byte v = elim (Bool-cases ((h.write_index + 1) % h.capacity == h.read_index)) [
  | inl full ↦
      rw (write_to-full byte v full)
        (ground (arith, length-contents h, held_full h.read_index h.write_index h.capacity))
  | inr room ↦ rw (write_to-room byte v room) (
      ground (
        arith,
        length-contents h,
        held_full h.read_index h.write_index h.capacity,
        contents-write (storage h) h.capacity h.read_index h.write_index byte,
      ))
]

capacity-write_to :
    (buffer : List ℕ) (h : RingBuffer) (byte : ℕ) → (write_to buffer h byte).1.capacity ≡ h.capacity
unfolding write_to
capacity-write_to buffer h byte = ground arith

write_to-Written :
    {h : RingBuffer} (byte : ℕ)
    → IsValid h
    → let (done, h') = write_to (storage h) h byte in Written h byte done h'
write_to-Written {h} byte v = record {
  valid = write_to-IsValid byte v;
  capacity = capacity-write_to (storage h) h byte;
  queue = write_to-push byte v;
}

-- The outcome of a read.
pub record Read (h : RingBuffer) (byte : Option ℕ) (h' : RingBuffer) : Type 0 where
  pub valid : IsValid h'
  pub capacity : h'.capacity ≡ h.capacity
  pub queue : (byte, contents h') ≡ pop (contents h)

pub contents-empty : {h : RingBuffer} → IsValid h → h.read_index ≡ h.write_index → contents h ≡ []
unfolding contents span
contents-empty {h} v e = ap (span (byte_at (storage h) h.capacity) h.read_index) none_held
  where
    none_held : held h ≡ 0
    none_held = omega (arith, mod_once (h.write_index + h.capacity - h.read_index) h.capacity)

contents-some :
    {h : RingBuffer}
    → IsValid h
    → h.read_index ≢ h.write_index
    → contents h
      ≡ get_or (storage h) h.read_index 0
        ∷ contents (record h { read_index = next_index h.read_index h.capacity })
unfolding contents
contents-some {h} v ne =
    rw (next_index_lem h.read_index h.capacity v.read_in v.word) (
      contents-read (storage h) h.capacity h.read_index h.write_index v.read_in v.write_in v.two ne)

read_from-pop :
    {h : RingBuffer}
    → IsValid h
    → let (byte, h') = read_from (storage h) h in (byte, contents h') ≡ pop (contents h)
unfolding read_from pop
read_from-pop {h} v = elim (Bool-cases (h.read_index == h.write_index)) [
  | inl e ↦ rw (e, contents-empty v (ground arith))
  | inr ne ↦ rw (ne, contents-some v (ground arith))
]

capacity-read_from :
    (buffer : List ℕ) (h : RingBuffer) → (read_from buffer h).1.capacity ≡ h.capacity
unfolding read_from
capacity-read_from buffer h = ground arith

read_from-Read :
    {h : RingBuffer} → IsValid h → let (byte, h') = read_from (storage h) h in Read h byte h'
read_from-Read {h} v = record {
  valid = read_from-IsValid v;
  capacity = capacity-read_from (storage h) h;
  queue = read_from-pop v;
}

pub write-stored :
    (h : RingBuffer) (b : List ℕ) (byte : ℕ)
    → h.buffer ≡ some b
    → ring_buffer_write (some h) byte ≡ ((write_to b h byte).0, some (write_to b h byte).1)
unfolding ring_buffer_write
write-stored h b byte e = simp e

pub read-stored :
    (h : RingBuffer) (b : List ℕ)
    → h.buffer ≡ some b
    → ring_buffer_read (some h) true ≡ ((read_from b h).0, some (read_from b h).1)
unfolding ring_buffer_read
read-stored h b e = simp e

-- `ring_buffer_write` on a valid handle answers as `push` on the queue of its bytes, keeps the
-- handle valid, and leaves it with the bytes of that queue.
pub ring_buffer_write_refines :
    {h : RingBuffer} (byte : ℕ)
    → IsValid h
    → (done : Bool) × (h' : RingBuffer) × (ring_buffer_write (some h) byte ≡ (done, some h'))
      × Written h byte done h'
ring_buffer_write_refines {h} byte v = (
  (write_to (storage h) h byte).0,
  (write_to (storage h) h byte).1,
  write-stored h (storage h) byte v.stored,
  write_to-Written byte v,
)

-- `ring_buffer_read` on a valid handle answers as `pop` on the queue of its bytes, keeps the
-- handle valid, and leaves it with the bytes of that queue.
pub ring_buffer_read_refines :
    {h : RingBuffer}
    → IsValid h
    → (byte : Option ℕ) × (h' : RingBuffer) × (ring_buffer_read (some h) true ≡ (byte, some h'))
      × Read h byte h'
ring_buffer_read_refines {h} v = (
  (read_from (storage h) h).0,
  (read_from (storage h) h).1,
  read-stored h (storage h) v.stored,
  read_from-Read v,
)

-- What the two sides ask of the ring: the interrupt writes, the event loop reads.
pub data Access : Type 0 where
  put : ℕ → Access
  get : Access

-- The answers to a sequence of calls, in any interleaving of the two sides.
unfoldable pub run : Option RingBuffer → List Access → List (Bool × Option ℕ)
run handle [] = []
run handle (put byte ∷ calls) =
    let (done, handle') = ring_buffer_write handle byte in (done, none) ∷ run handle' calls
run handle (get ∷ calls) =
    let (byte, handle') = ring_buffer_read handle true in (true, byte) ∷ run handle' calls

unfoldable pub run_queue : ℕ → List ℕ → List Access → List (Bool × Option ℕ)
run_queue c q [] = []
run_queue c q (put byte ∷ calls) =
    let (done, q') = push c q byte in (done, none) ∷ run_queue c q' calls
run_queue c q (get ∷ calls) = let (byte, q') = pop q in (true, byte) ∷ run_queue c q' calls

-- No sequence of writes and reads of a valid ring buffer, in whatever order the interrupt and the
-- event loop make them, gets other answers than from a queue that holds at most one byte fewer
-- than the capacity.
pub run_refines :
    (calls : List Access) {h : RingBuffer}
    → IsValid h
    → run (some h) calls ≡ run_queue h.capacity (contents h) calls
unfolding run run_queue
run_refines [] v = refl
run_refines (put byte ∷ calls) {h} v =
    let (done, h', e, w) = ring_buffer_write_refines byte v in
    rw (e, run_refines calls w.valid, ← w.queue, w.capacity)
run_refines (get ∷ calls) {h} v =
    let (byte, h', e, r) = ring_buffer_read_refines v in
    rw (e, run_refines calls r.valid, ← r.queue, r.capacity)
