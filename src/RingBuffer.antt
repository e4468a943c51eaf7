-- ===== src/RingBuffer.antt =====
-- ring_buffer.c and ring_buffer.h: the byte ring between the receive interrupt and the event loop.
-- A C pointer that may be NULL is an `Option`; a function that updates `*handle` returns it beside
-- its result, and the `int` results 1 and 0 are `true` and `false`.
pub mod Init
pub mod Accesses
pub mod Bounds
pub mod Contents
pub mod Count
pub mod Turns
pub mod Interleaved
pub mod Spsc
pub mod Fifo
use atcortex.Base.{
  ℕ, ◌+◌, ◌-◌, ◌%◌, ◌^◌, Bool, true, false, Option, none, some, List, get_or, set, ltb, ◌==◌,
  if◌then◌else◌,
}

-- `ring_buffer_t`. Bytes are only moved, so a byte is any number.
pub record RingBuffer : Type 0 where
  pub buffer : Option (List ℕ)
  pub capacity : ℕ
  pub read_index : ℕ
  pub write_index : ℕ

-- `unsigned int` arithmetic
abbrev pub uint_mod : ℕ
uint_mod = 2 ^ 32

unfoldable pub ring_buffer_init : Option RingBuffer → Option (List ℕ) → ℕ → Bool × Option RingBuffer
ring_buffer_init none buffer capacity = (false, none)
ring_buffer_init (some handle) none capacity = (false, some handle)
ring_buffer_init (some handle) (some buffer) capacity =
    if ltb capacity 2 then (false, some handle) else (
      true,
      some (record { buffer = some buffer; capacity = capacity; read_index = 0; write_index = 0 }),
    )

unfoldable pub ring_buffer_deinit : Option RingBuffer → Option RingBuffer
ring_buffer_deinit none = none
ring_buffer_deinit (some handle) =
    some (record { buffer = none; capacity = 0; read_index = 0; write_index = 0 })

-- `(index + 1) % capacity`, as both ends advance
abbrev pub next_index : ℕ → ℕ → ℕ
next_index index capacity = (index + 1) % uint_mod % capacity

-- The part of `ring_buffer_write` behind its test for NULL.
unfoldable pub write_to : List ℕ → RingBuffer → ℕ → Bool × RingBuffer
write_to buffer handle byte =
    let next_write = next_index handle.write_index handle.capacity in
    if next_write == handle.read_index then (false, handle) else (
      true,
      record handle {
        buffer = some (set buffer handle.write_index byte);
        write_index = next_write;
      },
    )

unfoldable pub ring_buffer_write : Option RingBuffer → ℕ → Bool × Option RingBuffer
ring_buffer_write none byte = (false, none)
ring_buffer_write (some handle) byte = elim handle.buffer [
  | none ↦ (false, some handle)
  | some buffer ↦ let (done, h) = write_to buffer handle byte in (done, some h)
]

-- The part of `ring_buffer_read` behind its tests for NULL: the byte that goes through `data`.
unfoldable pub read_from : List ℕ → RingBuffer → Option ℕ × RingBuffer
read_from buffer handle = if handle.read_index == handle.write_index then (none, handle) else (
  some (get_or buffer handle.read_index 0),
  record handle { read_index = next_index handle.read_index handle.capacity },
)

-- `wants` says whether the pointer `data` is not NULL. `none` is the result 0.
unfoldable pub ring_buffer_read : Option RingBuffer → Bool → Option ℕ × Option RingBuffer
ring_buffer_read none wants = (none, none)
ring_buffer_read (some handle) wants = elim handle.buffer [
  | none ↦ (none, some handle)
  | some buffer ↦
      if wants
      then (let (byte, h) = read_from buffer handle in (byte, some h))
      else (none, some handle)
]

-- `none` is the result -1. The sum of unsigned numbers wraps.
unfoldable pub ring_buffer_data_count : Option RingBuffer → Option ℕ
ring_buffer_data_count none = none
ring_buffer_data_count (some handle) = elim handle.buffer [
  | none ↦ none
  | some buffer ↦ some (
      (handle.write_index + uint_mod - handle.read_index + handle.capacity)
      % uint_mod
      % handle.capacity)
]
