-- ===== src/Recv/Task.antt =====
-- recv_data_handle.c: what handling a byte outside a prompt match does to the current task.
use atcortex.Base.{
  ℕ, ◌+◌, ◌-◌, ◌≡◌, refl, ap, ◌∙◌, subst, Option, none, List, [], ◌∷◌, arith, ltb, leb, ◌⊎◌, ◌&&◌,
  ◌==◌, Bool-cases, inl, inr,
}
use atcortex.Types.{Ptr, AtcResult, success, SendTask, atc_rx_line_max_size, atc_rx_response_max}
use atcortex.Platform.{World, Os}
use atcortex.RingBuffer.{RingBuffer}
use atcortex.Context.{Context, UrcList}
use atcortex.CString.{strlen, strncmp_eq}
use atcortex.Recv.{
  reset_reception, command_end_handle, match_markers, command_end_markers, push_to_response_buffer,
  normal_line_handle, put_line_byte, end_line, byte_binary_handle, clear_response_buffer,
}
use atcortex.Recv.Safety.{context-command_end_handle}
use atcortex.Recv.Prompt.{task-command_end_handle}
use atcortex.Recv.Known.{tell_line, line_step, byte_line_step}

-- A step leaves the task as it is, or ends it, and leaves the ring buffer.
abbrev pub KeepsTask : Option (Ptr × SendTask) → Option (Ptr × SendTask) → Type 0
KeepsTask before after = (after ≡ before) ⊎ (after ≡ none)

-- The registry, and what the handling of a byte leaves alone
abbrev pub urcs : Context → Option UrcList × ℕ
urcs c = (c.urc_handler_list, c.urc_next_id)

abbrev pub fixed : Context → RingBuffer × (Option UrcList × ℕ)
fixed c = (c.rx_buffer, urcs c)

abbrev pub Keeps : Context → Context → Type 0
Keeps c c' = KeepsTask c.current_send_task c'.current_send_task × (fixed c' ≡ fixed c)

module _ {W : Type 0} (os : Os W) where
  pub command_end_handle-Keeps :
      (result : AtcResult) (c : Context) (w : World W)
      → Keeps c (command_end_handle os result c w).0
  unfolding reset_reception clear_response_buffer
  command_end_handle-Keeps result c w = (
    inr (task-command_end_handle os result c w),
    ap fixed (context-command_end_handle os result c w),
  )

  match_markers-Keeps :
      (markers : List (List ℕ)) (line : List ℕ) (n : ℕ) (c : Context) (w : World W)
      → Keeps c (match_markers os markers line n c w).0
  unfolding match_markers
  match_markers-Keeps [] line n c w = (inl refl, refl)
  match_markers-Keeps (m ∷ ms) line n c w =
      elim (Bool-cases (leb (strlen m) n && strncmp_eq line m (strlen m))) [
        | inl hit ↦ rw hit (command_end_handle-Keeps _ c w)
        | inr miss ↦ rw miss (match_markers-Keeps ms line n c w)
      ]

  task-push :
      (c : Context) (line : List ℕ) (n : ℕ)
      → (push_to_response_buffer c line n).current_send_task ≡ c.current_send_task
  unfolding push_to_response_buffer
  task-push c line n = ground arith

  fixed-push :
      (c : Context) (line : List ℕ) (n : ℕ) → fixed (push_to_response_buffer c line n) ≡ fixed c
  unfolding push_to_response_buffer
  fixed-push c line n = ground arith

  line_step-Keeps :
      (line : List ℕ) (n : ℕ) (c : Context) (w : World W) → Keeps c (line_step os line n c w).0
  unfolding line_step normal_line_handle
  line_step-Keeps line n c w = elim (Bool-cases (leb n 2)) [
    | inl empty ↦ rw empty (inl refl, refl)
    | inr full ↦ rw full (elim (Bool-cases (tell_line os line c w).0) [
      | inl urc ↦ rw urc (inl refl, refl)
      | inr normal ↦
          let w' = (tell_line os line c w).1 in
          let c' = push_to_response_buffer c line n in
          let after = (match_markers os command_end_markers line n c' w').0.current_send_task in
          let kept = match_markers-Keeps command_end_markers line n c' w' in
          rw normal (
            subst (λ o. KeepsTask o after) (task-push c line n) kept.0,
            kept.1 ∙ fixed-push c line n,
          )
    ])
  ]

  pub byte_line_step-Keeps :
      (byte : ℕ) (c : Context) (w : World W) → Keeps c (byte_line_step os byte c w).0
  unfolding byte_line_step put_line_byte end_line
  byte_line_step-Keeps byte c w =
      elim (Bool-cases (ltb c.line_buffer_index (atc_rx_line_max_size - 1))) [
        | inr full ↦ rw full (inl refl, refl)
        | inl room ↦ rw room (elim (Bool-cases (byte == b'\n')) [
          | inr more ↦ rw more (inl refl, refl)
          | inl end ↦ rw end (line_step-Keeps _ _ (end_line (put_line_byte c byte)) w)
        ])
      ]

  pub byte_binary_handle-Keeps :
      (byte : ℕ) (t : SendTask) (c : Context) (w : World W)
      → Keeps c (byte_binary_handle os byte t c w).0
  unfolding byte_binary_handle
  byte_binary_handle-Keeps byte t c w =
      elim (Bool-cases (ltb c.response_length atc_rx_response_max)) [
        | inr full ↦ rw full (inl refl, refl)
        | inl room ↦ rw room (elim (Bool-cases (leb t.need_recv_len (c.response_length + 1))) [
          | inl complete ↦ rw complete (command_end_handle-Keeps success _ w)
          | inr more ↦ rw more (inl refl, refl)
        ])
      ]
