-- ===== src/RingBuffer/Count.antt =====
-- ring_buffer.c: `ring_buffer_data_count` and its unsigned sum.
use mathlib.Core.Option.{some-injective}
use native.Mathlib.Nat.{mod-eq_of_lt, mod-lt}
use atcortex.Base.{
  ℕ, ◌+◌, ◌-◌, ◌%◌, ◌^◌, ◌≤◌, ◌<◌, ◌≡◌, ◌≢◌, sym, ap, ◌∙◌, some, List, arith, length, mod_once,
}
use atcortex.RingBuffer.{RingBuffer, uint_mod, ring_buffer_data_count}
use atcortex.RingBuffer.Bounds.{IsValid, storage}
use atcortex.RingBuffer.Contents.{contents, length-contents}

-- The unsigned sum of `ring_buffer_data_count`, where it stays in range.
count_word :
    (r w c : ℕ) → r < c → w < c → c ≤ 2 ^ 31 → (w + uint_mod - r + c) % uint_mod ≡ w + c - r
count_word r w c hr hw small = omega arith

data_count-stored :
    (h : RingBuffer) (b : List ℕ)
    → h.buffer ≡ some b
    → ring_buffer_data_count (some h)
      ≡ some ((h.write_index + uint_mod - h.read_index + h.capacity) % uint_mod % h.capacity)
unfolding ring_buffer_data_count
data_count-stored h b e = simp e

-- On a valid handle of capacity at most 2 ^ 31 the count is the number of bytes that wait, and it
-- is below the capacity.
pub ring_buffer_data_count-length :
    {h : RingBuffer}
    → IsValid h
    → h.capacity ≤ 2 ^ 31
    → (ring_buffer_data_count (some h) ≡ some (length (contents h)))
      × (length (contents h) < h.capacity)
ring_buffer_data_count-length {h} v small = (
  data_count-stored h (storage h) v.stored
      ∙ ap some (
          ap (λ x. x % h.capacity)
            (count_word h.read_index h.write_index h.capacity v.read_in v.write_in small)
          ∙ sym (length-contents h)),
  omega (
    arith,
    length-contents h,
    mod-lt (h.write_index + h.capacity - h.read_index) {m = h.capacity},
  ),
)

-- Where the bytes held do not go round the end of the storage and their number with the capacity
-- reaches 2 ^ 32, the unsigned sum wraps, and the count is not the number of bytes that wait.
pub ring_buffer_data_count_wraps :
    {h : RingBuffer}
    → IsValid h
    → h.read_index ≤ h.write_index
    → uint_mod ≤ h.write_index - h.read_index + h.capacity
    → (length (contents h) ≡ h.write_index - h.read_index)
      × (ring_buffer_data_count (some h) ≢ some (length (contents h)))
ring_buffer_data_count_wraps {h} v order large = (
  counted,
  λ e. wrong (some-injective _ _ (sym (data_count-stored h (storage h) v.stored) ∙ e) ∙ counted),
)
  where
    open h use {capacity as c, read_index as r, write_index as w}

    counted : length (contents h) ≡ w - r
    counted = omega (arith, length-contents h, mod_once (w + c - r) c (omega arith))

    wrong : (w + uint_mod - r + c) % uint_mod % c ≢ w - r
    wrong =
        let sum : (w + uint_mod - r + c) % uint_mod ≡ w - r + c - uint_mod = omega arith in
        rw (sum, mod-eq_of_lt {n = w - r + c - uint_mod} {m = c} (omega arith)) (omega arith)
