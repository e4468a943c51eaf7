-- ===== src/Recv/Caller.antt =====
-- recv_data_handle.c with `sync_response_handler`: `recv_data_handle` on a whole answer to a command
-- in the ring, for a task whose caller waits.
use atcortex.Base.{ℕ, ◌≤◌, ◌≡◌, ◌≢◌, none, List, ◌∷◌, ◌++◌, length, take, min}
use mathlib.Core.List.{reverse}
use atcortex.Types.{Ptr, null, AtcResult, SendTask, sync_handler}
use atcortex.Platform.{Memory, Event, gave, World}
use atcortex.Context.{Context, State}
use atcortex.RingBuffer.Bounds as Ring
use atcortex.Recv.Lines.{as_strings}
use atcortex.Recv.Exchange.{released}

-- What the caller of a task that waits finds in its variables; `m` is what they were before.
abbrev pub Got : SendTask → AtcResult → List ℕ → Memory → Memory → Type 0
Got t result text m m' =
    let n = min (length text) (m.lengths t.sync_response_length) in
    (m'.results t.sync_send_result ≡ result)
    × (m'.lengths t.sync_response_length ≡ n)
    × (take n (m'.buffers t.sync_response_buf) ≡ take n text)
    × (length (m'.buffers t.sync_response_buf) ≡ length (m.buffers t.sync_response_buf))

-- The caller has given a variable for each of these, and a semaphore.
pub record IsGiven (t : SendTask) (m : Memory) : Type 0 where
  pub handler : t.response_handler ≡ sync_handler
  pub result : t.sync_send_result ≢ null
  pub buffer : t.sync_response_buf ≢ null
  pub size : t.sync_response_length ≢ null
  pub semaphore : t.semaphore ≢ null
  pub room : m.lengths t.sync_response_length ≤ length (m.buffers t.sync_response_buf)

-- What the caller of a task that waits has got, and what the context is then
abbrev pub ToldCaller :
    {W : Type 0} → Ptr → SendTask → AtcResult → List ℕ → List Event → World W → State W → Type 0
ToldCaller p t result text es w (c', w') =
    (c'.current_send_task ≡ none)
    × (c'.line_buffer_index ≡ 0)
    × (c'.response_length ≡ 0)
    × Got t result text w.memory w'.memory
    × (as_strings w'.trace
        ≡ released p t ++ (gave t.semaphore ∷ (reverse es ++ as_strings w.trace)))
