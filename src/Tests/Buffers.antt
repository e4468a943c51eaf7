-- ===== src/Tests/Buffers.antt =====
-- Runs for ring_buffer.c and stack.c.
use atcortex.Base.{
  ℕ, zero, suc, ◌-◌, ◌<◌, ◌≡◌, ◌≢◌, ◌^◌, refl, some, List, [], ◌∷◌, ◌++◌, true, arith, length, take,
}
use atcortex.RingBuffer.{RingBuffer, ring_buffer_data_count}
use atcortex.RingBuffer.Bounds as Ring
use atcortex.RingBuffer.Contents.{contents}
use atcortex.RingBuffer.Fifo.{put, get, run, run_queue, run_refines}
use atcortex.RingBuffer.Interleaved.{write_turn, read_turn, turns, outside}
use atcortex.RingBuffer.Spsc.{turns_lem}
use atcortex.RingBuffer.Count.{ring_buffer_data_count-length, ring_buffer_data_count_wraps}
use atcortex.Stack.{Stack, stack_push_overwrite}
use atcortex.Stack.Bounds as Bounds
use atcortex.Stack.Laws.{elements, Holds, evicted, stack_push_overwrite_lem}
use atcortex.Tests.{ring}

valid_ring : Ring.IsValid ring
valid_ring = record {
  stored = refl;
  two = omega arith;
  fits = omega arith;
  word = omega arith;
  read_in = omega arith;
  write_in = omega arith;
}

run_refines_example :
    run (some ring) (get ∷ put 67 ∷ get ∷ [])
    ≡ run_queue 4 (contents ring) (get ∷ put 67 ∷ get ∷ [])
run_refines_example = run_refines (get ∷ put 67 ∷ get ∷ []) {h = ring} valid_ring

ring_buffer_data_count-length_example :
    (ring_buffer_data_count (some ring) ≡ some (length (contents ring)))
    × (length (contents ring) < 4)
ring_buffer_data_count-length_example =
    ring_buffer_data_count-length {h = ring} valid_ring (omega arith)

-- An array of `2 ^ 32 - 1` bytes, shut
zeros : ℕ → List ℕ
zeros zero = []
zeros (suc n) = 0 ∷ zeros n

length-zeros : (n : ℕ) → length (zeros n) ≡ n
unfolding zeros
length-zeros zero = refl
length-zeros (suc n) = omega (arith, length-zeros n)

abbrev large : RingBuffer
large = record {
  buffer = some (zeros (2 ^ 32 - 1));
  capacity = 2 ^ 32 - 1;
  read_index = 0;
  write_index = 1;
}

ring_buffer_data_count_wraps_example :
    (length (contents large) ≡ 1)
    × (ring_buffer_data_count (some large) ≢ some (length (contents large)))
ring_buffer_data_count_wraps_example =
    ring_buffer_data_count_wraps {h = large}
      (record {
        stored = refl;
        two = omega arith;
        fits = omega (arith, length-zeros (2 ^ 32 - 1));
        word = omega arith;
        read_in = omega arith;
        write_in = omega arith;
      })
      (omega arith) (omega arith)

-- A full stack of two items
abbrev pair : Stack
pair = record { block = 1; cells = 2; items = 8 ∷ 9 ∷ []; capacity = 2; top = 2 }

pair-IsValid : Bounds.IsValid pair
pair-IsValid = record { positive = omega arith; fits = omega arith; room = omega arith }

stack_push_overwrite_lem_example :
    let (done, freed, r) = stack_push_overwrite (some pair) 7 true in
    (done ≡ true)
    × (freed ≡ evicted 2 (elements pair) true)
    × Holds pair (take 2 (7 ∷ elements pair)) r
stack_push_overwrite_lem_example = stack_push_overwrite_lem {s = pair} 7 true pair-IsValid

abbrev made : Stack
made = record { block = 11; cells = 12; items = 0 ∷ 0 ∷ []; capacity = 2; top = 0 }

-- The writer is stopped behind its store, the reader behind its test.
turns_lem_example :
    let m =
      turns
        (write_turn 67
          ∷ write_turn 67
          ∷ read_turn
          ∷ write_turn 67
          ∷ read_turn
          ∷ write_turn 68
          ∷ read_turn
          ∷ [])
        (outside ring) in
    (m.written ≡ m.delivered ++ contents m.handle)
    × (length (contents m.handle) < m.handle.capacity)
    × Ring.IsValid m.handle
turns_lem_example =
    turns_lem
      (write_turn 67
        ∷ write_turn 67
        ∷ read_turn
        ∷ write_turn 67
        ∷ read_turn
        ∷ write_turn 68
        ∷ read_turn
        ∷ [])
      {h = ring} valid_ring
