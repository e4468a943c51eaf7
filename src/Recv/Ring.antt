-- ===== src/Recv/Ring.antt =====
-- recv_data_handle.c: what is done with a byte does not depend on the ring buffer.
use atcortex.Base.{
  ℕ, zero, suc, ◌+◌, ◌-◌, ◌≡◌, refl, ap, ◌∙◌, sym, true, false, Bool, Option, none, some, List, [],
  ◌∷◌, ltb, leb, ◌&&◌, ◌==◌, Bool-cases, inl, inr,
}
use atcortex.Types.{
  Ptr, AtcResult, SendTask, SendTaskStatus, success, line_recv, prompt_match, binary,
  atc_rx_line_max_size, atc_rx_response_max,
}
use atcortex.Platform.{World, Os}
use atcortex.RingBuffer.{RingBuffer}
use atcortex.Context.{Context, UrcList, State, Run, done, null_dereference, out_of_fuel, and_then}
use atcortex.CString.{strlen, strncmp_eq}
use atcortex.Urc.{notify_in, urc_line_handle}
use atcortex.Recv.{
  clear_response_buffer, reset_reception, end_task, respond, command_end_handle,
  push_to_response_buffer, match_markers, command_end_markers, normal_line_handle, line_handle,
  put_line_byte, end_line, byte_line_handle, recv_for_status, recv_for, recv_byte, prompt_matched,
  prompt_loop, prompt_mismatch, on_mismatch, byte_prompt_handle, byte_binary_handle,
}
use atcortex.Stack.{stack_clear}
use atcortex.Recv.Binary.{receive_all}
use atcortex.Recv.Known.{tell_line, line_step, byte_line_step, byte_line_handle-step}

-- The same state with another handle of the ring
abbrev pub with_ring : {W : Type 0} → RingBuffer → State W → State W
with_ring h (c, w) = (record c { rx_buffer = h }, w)

module _ {W : Type 0} (os : Os W) (h : RingBuffer) where
  command_end_handle-task_ring :
      (o : Option (Ptr × SendTask)) (r : AtcResult) (c : Context) (w : World W)
      → command_end_handle os r (record c { rx_buffer = h; current_send_task = o }) w
        ≡ with_ring h (command_end_handle os r (record c { current_send_task = o }) w)
  unfolding command_end_handle reset_reception clear_response_buffer end_task respond
  command_end_handle-task_ring none r c w = refl
  command_end_handle-task_ring (some (p, t)) r c w = refl

  command_end_handle-ring :
      (r : AtcResult) (c : Context) (w : World W)
      → command_end_handle os r (record c { rx_buffer = h }) w
        ≡ with_ring h (command_end_handle os r c w)
  command_end_handle-ring r c w = command_end_handle-task_ring c.current_send_task r c w

  match_markers-ring :
      (markers : List (List ℕ)) (line : List ℕ) (n : ℕ) (c : Context) (w : World W)
      → match_markers os markers line n (record c { rx_buffer = h }) w
        ≡ with_ring h (match_markers os markers line n c w)
  unfolding match_markers
  match_markers-ring [] line n c w = refl
  match_markers-ring (m ∷ ms) line n c w =
      elim (Bool-cases (leb (strlen m) n && strncmp_eq line m (strlen m))) [
        | inl hit ↦ rw hit (command_end_handle-ring _ c w)
        | inr miss ↦ rw miss (match_markers-ring ms line n c w)
      ]

  push-ring :
      (c : Context) (line : List ℕ) (n : ℕ)
      → push_to_response_buffer (record c { rx_buffer = h }) line n
        ≡ record (push_to_response_buffer c line n) { rx_buffer = h }
  unfolding push_to_response_buffer
  push-ring c line n = elim (Bool-cases (ltb (c.response_length + n) atc_rx_response_max)) [
    | inl room ↦ rw room refl
    | inr full ↦ rw full refl
  ]

  line_step-ring :
      (line : List ℕ) (n : ℕ) (c : Context) (w : World W)
      → line_step os line n (record c { rx_buffer = h }) w ≡ with_ring h (line_step os line n c w)
  unfolding line_step normal_line_handle tell_line
  line_step-ring line n c w = elim (Bool-cases (leb n 2)) [
    | inl empty ↦ rw empty refl
    | inr more ↦ rw more (elim (Bool-cases (tell_line os line c w).0) [
      | inl urc ↦ rw urc refl
      | inr normal ↦ rw normal (
          ap (λ d. match_markers os command_end_markers line n d (tell_line os line c w).1)
            (push-ring c line n)
          ∙ match_markers-ring command_end_markers line n (push_to_response_buffer c line n)
              (tell_line os line c w).1)
    ])
  ]

  byte_line_step-ring :
      (byte : ℕ) (c : Context) (w : World W)
      → byte_line_step os byte (record c { rx_buffer = h }) w
        ≡ with_ring h (byte_line_step os byte c w)
  unfolding byte_line_step put_line_byte end_line
  byte_line_step-ring byte c w =
      elim (Bool-cases (ltb c.line_buffer_index (atc_rx_line_max_size - 1))) [
        | inr full ↦ rw full refl
        | inl room ↦ rw room (elim (Bool-cases (byte == b'\n')) [
          | inr more ↦ rw more refl
          | inl end ↦ rw end (
              ap (λ (s : State W). (record (s.0) { line_buffer_index = 0 }, s.1))
                (line_step-ring (end_line (put_line_byte c byte)).line_buffer
                  (c.line_buffer_index + 1) (end_line (put_line_byte c byte)) w))
        ])
      ]

-- The same outcome with another handle of the ring
abbrev pub run_with_ring : {W : Type 0} → RingBuffer → Run (State W) → Run (State W)
run_with_ring h (done s) = done (with_ring h s)
run_with_ring h null_dereference = null_dereference
run_with_ring h out_of_fuel = out_of_fuel

module _ {W : Type 0} (os : Os W) (h : RingBuffer) where
  prompt_matched-ring :
      (p : Ptr) (t : SendTask) (c : Context) (w : World W)
      → prompt_matched os p t (record c { rx_buffer = h }) w
        ≡ with_ring h (prompt_matched os p t c w)
  unfolding prompt_matched clear_response_buffer
  prompt_matched-ring p t c w = elim (Bool-cases (t.need_recv_len == 0)) [
    | inl nothing ↦ rw nothing (
        command_end_handle-ring os h success
          (record c { byte_stack = (stack_clear c.byte_stack false).1 }) w)
    | inr some_data ↦ rw some_data refl
  ]

  -- A byte of a line, by whether there is a list of handlers
  byte_line_handle-urcs_ring :
      (byte : ℕ) (o : Option UrcList) (c : Context) (w : World W)
      → byte_line_handle os byte (record c { rx_buffer = h; urc_handler_list = o }) w
        ≡ run_with_ring h (byte_line_handle os byte (record c { urc_handler_list = o }) w)
  unfolding byte_line_handle line_handle urc_line_handle notify_in put_line_byte end_line
  byte_line_handle-urcs_ring byte none c w =
      elim (Bool-cases (ltb c.line_buffer_index (atc_rx_line_max_size - 1))) [
        | inr full ↦ rw full refl
        | inl room ↦ rw room (elim (Bool-cases (byte == b'\n')) [
          | inr more ↦ rw more refl
          | inl end ↦ rw end (elim (Bool-cases (leb (c.line_buffer_index + 1) 2)) [
            | inl empty ↦ rw empty refl
            | inr long ↦ rw long refl
          ])
        ])
      ]
  byte_line_handle-urcs_ring byte (some l) c w =
      let d = record c { urc_handler_list = some l } in
      byte_line_handle-step os byte (record d { rx_buffer = h }) w tt
      ∙ ap done (byte_line_step-ring os h byte d w)
      ∙ sym (ap (run_with_ring h) (byte_line_handle-step os byte d w tt))

  byte_line_handle-ring :
      (byte : ℕ) (c : Context) (w : World W)
      → byte_line_handle os byte (record c { rx_buffer = h }) w
        ≡ run_with_ring h (byte_line_handle os byte c w)
  byte_line_handle-ring byte c w = byte_line_handle-urcs_ring byte c.urc_handler_list c w

  on_mismatch-ring :
      (m : Option Bool) (s : State W) (next next' : Run (State W))
      → next' ≡ run_with_ring h next
      → on_mismatch m (done (with_ring h s)) next' ≡ run_with_ring h (on_mismatch m (done s) next)
  on_mismatch-ring none s next next' e = refl
  on_mismatch-ring (some true) s next next' e = refl
  on_mismatch-ring (some false) s next next' e = e

  -- One round; `loop` is what is known of the rounds that follow.
  prompt_round-ring :
      (fuel i : ℕ) (o : Option (Ptr × SendTask)) (c : Context) (w : World W)
      → ((c' : Context) (w' : World W)
          → prompt_loop os fuel (i + 1) (record c' { rx_buffer = h }) w'
            ≡ run_with_ring h (prompt_loop os fuel (i + 1) c' w'))
      → prompt_loop os (suc fuel) i (record c { rx_buffer = h; current_send_task = o }) w
        ≡ run_with_ring h (prompt_loop os (suc fuel) i (record c { current_send_task = o }) w)
  unfolding prompt_loop
  prompt_round-ring fuel i none c w loop = refl
  prompt_round-ring fuel i (some (p, t)) c w loop =
      let d = record c { current_send_task = some (p, t) } in
      elim (Bool-cases (ltb i t.prompt_len)) [
        | inr past ↦ rw past refl
        | inl within ↦ rw within (elim (Bool-cases (i == t.prompt_len - 1)) [
          | inr before ↦ rw before (
              on_mismatch-ring (prompt_mismatch t c.byte_stack i) (d, w)
                (prompt_loop os fuel (i + 1) d w) _ (loop d w))
          | inl last ↦
              let (c', w') = prompt_matched os p t d w in
              rw last (
                on_mismatch-ring (prompt_mismatch t c.byte_stack i) (d, w)
                  (prompt_loop os fuel (i + 1) c' w') _
                  (ap (λ (s : State W). prompt_loop os fuel (i + 1) s.0 s.1)
                      (prompt_matched-ring p t d w)
                    ∙ loop c' w'))
        ])
      ]

  prompt_loop-ring :
      (fuel i : ℕ) (c : Context) (w : World W)
      → prompt_loop os fuel i (record c { rx_buffer = h }) w
        ≡ run_with_ring h (prompt_loop os fuel i c w)
  unfolding prompt_loop
  prompt_loop-ring zero i c w = refl
  prompt_loop-ring (suc fuel) i c w =
      prompt_round-ring fuel i c.current_send_task c w (prompt_loop-ring fuel (i + 1))

  byte_prompt_handle-ring :
      (byte : ℕ) (o : Option (Ptr × SendTask)) (c : Context) (w : World W)
      → byte_prompt_handle os byte (record c { rx_buffer = h; current_send_task = o }) w
        ≡ run_with_ring h (byte_prompt_handle os byte (record c { current_send_task = o }) w)
  unfolding byte_prompt_handle
  byte_prompt_handle-ring byte none c w = refl
  byte_prompt_handle-ring byte (some (p, t)) c w = prompt_loop-ring (t.prompt_len + 1) 0 _ w

  byte_binary_handle-ring :
      (byte : ℕ) (t : SendTask) (c : Context) (w : World W)
      → byte_binary_handle os byte t (record c { rx_buffer = h }) w
        ≡ with_ring h (byte_binary_handle os byte t c w)
  unfolding byte_binary_handle
  byte_binary_handle-ring byte t c w =
      elim (Bool-cases (ltb c.response_length atc_rx_response_max)) [
        | inr full ↦ rw full refl
        | inl room ↦ rw room (elim (Bool-cases (leb t.need_recv_len (c.response_length + 1))) [
          | inr more ↦ rw more refl
          | inl all ↦ rw all (command_end_handle-ring os h success _ w)
        ])
      ]

  recv_for_status-ring :
      (byte : ℕ) (status : SendTaskStatus) (t : SendTask) (c : Context) (w : World W)
      → recv_for_status os byte status t (record c { rx_buffer = h }) w
        ≡ run_with_ring h (recv_for_status os byte status t c w)
  unfolding recv_for_status
  recv_for_status-ring byte line_recv t c w = byte_line_handle-ring byte c w
  recv_for_status-ring byte prompt_match t c w =
      byte_prompt_handle-ring byte c.current_send_task c w
  recv_for_status-ring byte binary t c w = ap done (byte_binary_handle-ring byte t c w)

  recv_for-ring :
      (byte : ℕ) (o : Option (Ptr × SendTask)) (c : Context) (w : World W)
      → recv_for os byte o (record c { rx_buffer = h }) w ≡ run_with_ring h (recv_for os byte o c w)
  unfolding recv_for
  recv_for-ring byte none c w = byte_line_handle-ring byte c w
  recv_for-ring byte (some (p, t)) c w = recv_for_status-ring byte t.status t c w

  pub recv_byte-ring :
      (byte : ℕ) (c : Context) (w : World W)
      → recv_byte os byte (record c { rx_buffer = h }) w ≡ run_with_ring h (recv_byte os byte c w)
  unfolding recv_byte
  recv_byte-ring byte c w = recv_for-ring byte c.current_send_task c w

  run_with_ring-bind :
      (r : Run (State W)) (f : Context → World W → Run (State W))
      → ((c : Context) (w : World W) → f (record c { rx_buffer = h }) w ≡ run_with_ring h (f c w))
      → and_then (run_with_ring h r) (λ (s : State W). f s.0 s.1)
        ≡ run_with_ring h (and_then r (λ (s : State W). f s.0 s.1))
  run_with_ring-bind (done (c', w')) f same = same c' w'
  run_with_ring-bind null_dereference f same = refl
  run_with_ring-bind out_of_fuel f same = refl

  pub receive_all-ring :
      (bytes : List ℕ) (c : Context) (w : World W)
      → receive_all os bytes (record c { rx_buffer = h }) w
        ≡ run_with_ring h (receive_all os bytes c w)
  unfolding receive_all
  receive_all-ring [] c w = refl
  receive_all-ring (b ∷ bs) c w =
      ap (λ r. and_then r (λ (s : State W). receive_all os bs s.0 s.1)) (recv_byte-ring b c w)
      ∙ run_with_ring-bind (recv_byte os b c w) (receive_all os bs) (receive_all-ring bs)
