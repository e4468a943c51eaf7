-- ===== src/RingBuffer/Init.antt =====
-- ring_buffer.c: the handle that `ring_buffer_init` makes.
use atcortex.Base.{ℕ, ◌≤◌, ◌<◌, ◌≡◌, refl, true, some, List, [], arith, length}
use atcortex.RingBuffer.{RingBuffer, uint_mod, ring_buffer_init}
use atcortex.RingBuffer.Bounds.{IsValid}
use atcortex.RingBuffer.Fifo.{contents-empty}
use atcortex.RingBuffer.Contents.{contents}

-- What `ring_buffer_init` accepts, a capacity of at least 2 and below 2 ^ 32 with a storage of at
-- least that size, is a valid and empty handle.
pub ring_buffer_init-IsValid :
    (h : RingBuffer) (buffer : List ℕ) (capacity : ℕ)
    → 2 ≤ capacity
    → capacity ≤ length buffer
    → capacity < uint_mod
    → (h' : RingBuffer) × (ring_buffer_init (some h) (some buffer) capacity ≡ (true, some h'))
      × IsValid h'
      × (contents h' ≡ [])
      × (h'.capacity ≡ capacity)
unfolding ring_buffer_init
ring_buffer_init-IsValid h buffer capacity two fits word =
    let h' = fresh in (h', ground arith, valid, contents-empty valid refl, refl)
  where
    fresh : RingBuffer
    fresh = record { buffer = some buffer; capacity = capacity; read_index = 0; write_index = 0 }

    valid : IsValid fresh
    valid = record {
      stored = refl;
      two = two;
      fits = fits;
      word = word;
      read_in = omega arith;
      write_in = omega arith;
    }
