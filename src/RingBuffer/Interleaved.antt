-- ===== src/RingBuffer/Interleaved.antt =====
-- ring_buffer.c, one access to shared memory at a time: the writer in the interrupt and the reader in
-- the event loop, each in the middle of its function while the other takes a step.
use atcortex.Base.{ℕ, List, [], ◌∷◌, ◌++◌, some, get_or, set, ◌==◌, if◌then◌else◌}
use atcortex.RingBuffer.{RingBuffer, next_index}
use atcortex.RingBuffer.Bounds.{storage}
use atcortex.RingBuffer.Contents.{contents}

-- Where the writer stands in `ring_buffer_write`: outside, behind the test for a full buffer, or
-- behind the store. It keeps `data` and `next_write`.
pub data Writer : Type 0 where
  writer_outside : Writer
  has_room has_stored : ℕ → ℕ → Writer

-- Where the reader stands in `ring_buffer_read`: outside, behind the test for an empty buffer, or
-- with the byte in `*data`.
pub data Reader : Type 0 where
  reader_outside has_byte : Reader
  has_read : ℕ → Reader

-- The next access of `ring_buffer_write`, called with `byte` if the writer is outside: it reads
-- `read_index`, stores the byte, or sets `write_index`. The list is what the call has written.
unfoldable pub writer_step : ℕ → Writer → RingBuffer → Writer × RingBuffer × List ℕ
writer_step byte writer_outside h =
    let next_write = next_index h.write_index h.capacity in
    (if next_write == h.read_index then writer_outside else has_room byte next_write, h, [])
writer_step byte (has_room b next_write) h =
    (has_stored b next_write, record h { buffer = some (set (storage h) h.write_index b) }, [])
writer_step byte (has_stored b next_write) h =
    (writer_outside, record h { write_index = next_write }, b ∷ [])

-- The next access of `ring_buffer_read`: it reads `write_index`, reads the byte, or sets
-- `read_index`. The list is what the call has read.
unfoldable pub reader_step : Reader → RingBuffer → Reader × RingBuffer × List ℕ
reader_step reader_outside h =
    (if h.read_index == h.write_index then reader_outside else has_byte, h, [])
reader_step has_byte h = (has_read (get_or (storage h) h.read_index 0), h, [])
reader_step (has_read b) h =
    (reader_outside, record h { read_index = next_index h.read_index h.capacity }, b ∷ [])

-- Both ends, and what they have written and read in all
pub record Machine : Type 0 where
  pub handle : RingBuffer
  pub writer : Writer
  pub reader : Reader
  pub written : List ℕ
  pub delivered : List ℕ

pub data Turn : Type 0 where
  write_turn : ℕ → Turn
  read_turn : Turn

unfoldable pub turn : Turn → Machine → Machine
turn (write_turn byte) m =
    let (writer, h, bytes) = writer_step byte m.writer m.handle in
    record m { handle = h; writer = writer; written = m.written ++ bytes }
turn read_turn m =
    let (reader, h, bytes) = reader_step m.reader m.handle in
    record m { handle = h; reader = reader; delivered = m.delivered ++ bytes }

-- Any order of turns: what the interrupt and the event loop can come to
unfoldable pub turns : List Turn → Machine → Machine
turns [] m = m
turns (t ∷ ts) m = turns ts (turn t m)

-- Both ends are outside, and the bytes held count as written.
abbrev pub outside : RingBuffer → Machine
outside h = record {
  handle = h;
  writer = writer_outside;
  reader = reader_outside;
  written = contents h;
  delivered = [];
}
