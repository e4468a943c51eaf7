-- ===== src/RingBuffer/Bounds.antt =====
-- The representation invariant of `ring_buffer_t` in ring_buffer.c.
use atcortex.Base.{
  ℕ, ◌+◌, ◌-◌, ◌%◌, ◌≤◌, ◌<◌, ◌≡◌, ap, Option, none, some, List, [], arith, length, length-set,
}
use atcortex.RingBuffer.{RingBuffer, uint_mod, write_to, read_from, next_index}

abbrev pub storage_of : Option (List ℕ) → List ℕ
storage_of none = []
storage_of (some buffer) = buffer

abbrev pub storage : RingBuffer → List ℕ
storage h = storage_of h.buffer

-- What holds of an initialised handle.
pub record IsValid (h : RingBuffer) : Type 0 where
  pub stored : h.buffer ≡ some (storage h)
  pub two : 2 ≤ h.capacity
  pub fits : h.capacity ≤ length (storage h)
  pub word : h.capacity < uint_mod
  pub read_in : h.read_index < h.capacity
  pub write_in : h.write_index < h.capacity

-- The number of bytes held, as a number without bound.
abbrev pub held : RingBuffer → ℕ
held h = (h.write_index + h.capacity - h.read_index) % h.capacity

pub next_index_lem : (i c : ℕ) → i < c → c < uint_mod → next_index i c ≡ (i + 1) % c
next_index_lem i c h k = ap (λ x. x % c) (omega arith)

pub write_to-IsValid :
    {h : RingBuffer} (byte : ℕ) → IsValid h → IsValid (write_to (storage h) h byte).1
unfolding write_to
write_to-IsValid {h} byte v = ground (arith, length-set (storage h) h.write_index byte)

pub read_from-IsValid : {h : RingBuffer} → IsValid h → IsValid (read_from (storage h) h).1
unfolding read_from
read_from-IsValid v = ground arith
