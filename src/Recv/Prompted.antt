-- ===== src/Recv/Prompted.antt =====
-- recv_data_handle.c: a whole prompt in the ring and the binary data behind it.
use atcortex.Base.{
  ℕ, ◌≤◌, ◌<◌, ◌≡◌, refl, ap, ◌∙◌, sym, subst, false, Option, some, List, [], ◌∷◌, ◌++◌, arith,
  length, drop, ◌==◌,
}
use atcortex.Types.{Ptr, success, SendTask, prompt_match, binary, atc_rx_response_max}
use atcortex.Platform.{World, Os}
use atcortex.RingBuffer.{RingBuffer}
use atcortex.RingBuffer.Bounds as Ring
use atcortex.RingBuffer.Contents.{contents}
use atcortex.Stack.{Stack, stack_clear}
use atcortex.Stack.Laws.{elements}
use atcortex.CString.{zeroed}
use atcortex.CString.Laws.{length-zeroed}
use atcortex.Context.{Context, State, Run, done, null_dereference, out_of_fuel, and_then}
use atcortex.Recv.{prompt_bytes, command_end_handle, recv_byte, recv_data_handle}
use atcortex.Recv.Prompt.Suffix.{AwaitsPrompt}
use atcortex.Recv.Binary.{receive_all, receive_all_lem}
use atcortex.Recv.Ring.{with_ring}
use atcortex.Recv.Feed.{Fed, recv_data_handle-Fed}
use atcortex.Recv.Prompt.Whole.{receive_prompt, prompt_matched-data}

and_then_assoc :
    {W : Type 0} (r : Run (State W)) (f g : State W → Run (State W))
    → and_then (and_then r f) g ≡ and_then r (λ s. and_then (f s) g)
and_then_assoc (done s) f g = refl
and_then_assoc null_dereference f g = refl
and_then_assoc out_of_fuel f g = refl

receive_all-append :
    {W : Type 0} (os : Os W) (xs ys : List ℕ) (c : Context) (w : World W)
    → receive_all os (xs ++ ys) c w
      ≡ and_then (receive_all os xs c w) (λ (s : State W). receive_all os ys s.0 s.1)
unfolding receive_all
receive_all-append os [] ys c w = refl
receive_all-append {W} os (x ∷ xs) ys c w =
    ap (λ (k : State W → Run (State W)). and_then (recv_byte os x c w) k)
      (λ i s. receive_all-append os xs ys s.0 s.1 i)
    ∙ sym (
        and_then_assoc (recv_byte os x c w) (λ s. receive_all os xs s.0 s.1)
          (λ s. receive_all os ys s.0 s.1))

-- The context at the end of the data, with the task that is the current one still
abbrev pub delivered : Ptr → SendTask → Context → Option Stack → List ℕ → Context
delivered p t c stack data_bytes = record c {
  byte_stack = stack;
  current_send_task = some (p, record t { status = binary });
  response = data_bytes ++ drop (length data_bytes) (zeroed atc_rx_response_max);
  response_length = length data_bytes;
}

module _ {W : Type 0} (os : Os W) (p : Ptr) (t : SendTask) where
  receive_all-prompted :
      (prompt_text data_bytes : List ℕ) {s : Stack} (c : Context) (w : World W)
      → AwaitsPrompt p t s c
      → t.status ≡ prompt_match
      → prompt_bytes t ≡ prompt_text
      → elements s ≡ []
      → length (prompt_bytes t) ≤ s.capacity
      → 0 < length data_bytes
      → length data_bytes ≡ t.need_recv_len
      → t.need_recv_len ≤ atc_rx_response_max
      → (s' : Option Stack) × (receive_all os (prompt_text ++ data_bytes) c w
          ≡ done (command_end_handle os success (delivered p t c s' data_bytes) w))
  receive_all-prompted [] data_bytes c w a b split e fits pos len room =
      absurd (omega (arith, a.positive, a.size, ap length split))
  receive_all-prompted (x ∷ xs) [] c w a b split e fits pos len room = absurd (omega arith)
  receive_all-prompted (x ∷ xs) (d ∷ ds) c w a b split e fits pos len room =
      let need : (t.need_recv_len == 0) ≡ false = ground arith in
      let (s', found) = receive_prompt os p t x xs [] c w a b need split e fits in
      let stack = (stack_clear (some s') false).1 in
      (
        stack,
        receive_all-append os (x ∷ xs) (d ∷ ds) c w
            ∙ ap (λ r. and_then r (λ (z : State W). receive_all os (d ∷ ds) z.0 z.1))
                (found ∙ ap done (prompt_matched-data os p t s' c w need))
            ∙ receive_all_lem os d ds {p = p} {t = record t { status = binary }}
                (record c {
                  byte_stack = stack;
                  current_send_task = some (p, record t { status = binary });
                  response = zeroed atc_rx_response_max;
                  response_length = 0;
                })
                w refl refl len room (length-zeroed atc_rx_response_max) refl,
      )

  -- Where the current task waits for a prompt of 1 or more bytes from 1 to 255, the valid prompt
  -- stack is empty and at least as deep as the prompt is long, and the valid ring holds the
  -- prompt and then just the data that the task needs, between 1 and 512 bytes of it,
  -- `recv_data_handle` comes to an end without dereferencing NULL. It has ended the task with
  -- success, with a response that is exactly the data and zeros, and with the length of the data;
  -- the ring is valid and empty.
  pub recv_data_handle-prompted :
      (data_bytes : List ℕ) {s : Stack} (c : Context) (w : World W)
      → AwaitsPrompt p t s c
      → t.status ≡ prompt_match
      → elements s ≡ []
      → length (prompt_bytes t) ≤ s.capacity
      → 0 < length data_bytes
      → length data_bytes ≡ t.need_recv_len
      → t.need_recv_len ≤ atc_rx_response_max
      → Ring.IsValid c.rx_buffer
      → contents c.rx_buffer ≡ prompt_bytes t ++ data_bytes
      → (s' : Option Stack) × (ring : RingBuffer) × Ring.IsValid ring
        × (contents ring ≡ [])
        × (recv_data_handle os c w
            ≡ done
                (with_ring ring (command_end_handle os success (delivered p t c s' data_bytes) w)))
  recv_data_handle-prompted data_bytes {s} c w a b e fits pos len room v q =
      let (s', run) =
        receive_all-prompted (prompt_bytes t) data_bytes c w a b refl e fits pos len room in
      let (ring, v', empty, end) =
        subst (λ r. Fed r (recv_data_handle os c w))
          (ap (λ bytes. receive_all os bytes c w) q ∙ run) (recv_data_handle-Fed os c w v) in
      (s', ring, v', empty, end)
