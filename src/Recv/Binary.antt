-- ===== src/Recv/Binary.antt =====
-- recv_data_handle.c: the binary data behind a prompt.
use atcortex.Base.{
  sizes, ℕ, suc, ◌+◌, ◌≤◌, ◌<◌, ◌≡◌, refl, ap, ap₂, ◌∙◌, sym, true, false, List, [], ◌∷◌, some,
  ◌++◌, append_assoc, arith, length, length-append, drop, ltb, leb, if◌then◌else◌,
}
use atcortex.Types.{Ptr, success, SendTask, binary, atc_rx_response_max}
use atcortex.Platform.{World, Os}
use atcortex.Context.{Context, State, Run, done, and_then}
use atcortex.Recv.Line.{set-append}
use atcortex.Recv.{command_end_handle, byte_binary_handle, recv_for_status, recv_for, recv_byte}

module _ {W : Type 0} (os : Os W) where
  -- Bytes that are received one after another.
  unfoldable pub receive_all : List ℕ → Context → World W → Run (State W)
  receive_all [] c w = done (c, w)
  receive_all (byte ∷ bytes) c w = and_then (recv_byte os byte c w) (λ s. receive_all bytes s.0 s.1)

  -- A context whose response is `before`, with `after` behind it in the array.
  abbrev with_response : Context → List ℕ → List ℕ → Context
  with_response c before after = record c {
    response = before ++ after;
    response_length = length before;
  }

  recv_byte-binary :
      (byte : ℕ) {p : Ptr} {t : SendTask} (c : Context) (w : World W)
      → c.current_send_task ≡ some (p, t)
      → t.status ≡ binary
      → recv_byte os byte c w ≡ done (byte_binary_handle os byte t c w)
  unfolding recv_byte recv_for recv_for_status
  recv_byte-binary byte {p} {t} c w e b =
      ap (λ o. recv_for os byte o c w) e ∙ ap (λ s. recv_for_status os byte s t c w) b

  stored :
      (byte x : ℕ) (t : SendTask) (before after : List ℕ) (c : Context) (w : World W)
      → length before < atc_rx_response_max
      → byte_binary_handle os byte t (with_response c before (x ∷ after)) w ≡ (
          if leb t.need_recv_len (length before + 1)
          then command_end_handle os success (with_response c (before ++ (byte ∷ [])) after) w
          else (with_response c (before ++ (byte ∷ [])) after, w))
  unfolding byte_binary_handle
  stored byte x t before after c w lt =
      let inside : ltb (length before) atc_rx_response_max ≡ true = ground arith in
      rw inside (
        ap₂
          (λ l i.
            let c1 = record c { response = l; response_length = i } in
            if leb t.need_recv_len i then command_end_handle os success c1 w else (c1, w))
          (set-append before after x byte ∙ sym (append_assoc before (byte ∷ []) after))
          (grind sizes)
        ∙ ap
            (λ i.
              if leb t.need_recv_len i
              then command_end_handle os success (with_response c (before ++ (byte ∷ [])) after) w
              else (with_response c (before ++ (byte ∷ [])) after, w))
            (length-append {0} before (byte ∷ [])))

  receive_all-binary :
      (byte : ℕ) (bytes before after : List ℕ) {p : Ptr} {t : SendTask} (c : Context) (w : World W)
      → c.current_send_task ≡ some (p, t)
      → t.status ≡ binary
      → length before + suc (length bytes) ≡ t.need_recv_len
      → t.need_recv_len ≤ atc_rx_response_max
      → suc (length bytes) ≤ length after
      → receive_all (byte ∷ bytes) (with_response c before after) w
        ≡ done (
            command_end_handle os success
              (with_response c (before ++ (byte ∷ bytes)) (drop (suc (length bytes)) after))
              w)
  unfolding receive_all
  receive_all-binary byte bytes before [] c w e b need fits h = absurd (omega arith)
  receive_all-binary byte [] before (x ∷ after) {p} {t} c w e b need fits h =
      let last : leb t.need_recv_len (length before + 1) ≡ true = ground arith in
      ap (λ r. and_then r (λ s. done (s.0, s.1)))
        (recv_byte-binary byte {p = p} {t = t} (with_response c before (x ∷ after)) w e b
          ∙ ap done (stored byte x t before after c w (omega arith) ∙ rw last refl))
  receive_all-binary byte (next ∷ bytes) before (x ∷ after) {p} {t} c w e b need fits h =
      let more : leb t.need_recv_len (length before + 1) ≡ false = ground arith in
      ap (λ r. and_then r (λ s. receive_all (next ∷ bytes) s.0 s.1))
        (recv_byte-binary byte {p = p} {t = t} (with_response c before (x ∷ after)) w e b
          ∙ ap done (stored byte x t before after c w (omega arith) ∙ rw more refl))
      ∙ (receive_all-binary next bytes (before ++ (byte ∷ [])) after {p = p} {t = t} c w e b
            (grind sizes) fits (omega arith)
          ∙ ap
              (λ l. done (
                command_end_handle os success (with_response c l (drop (suc (length bytes)) after))
                  w))
              (append_assoc before (byte ∷ []) (next ∷ bytes)))

  -- Binary data ends with just the byte that completes it: where the current task waits for
  -- binary data, between 1 and 512 bytes of it, and none has come, then as many bytes end the
  -- task with success, and the response that its handler gets begins with exactly these bytes and
  -- has their length.
  pub receive_all_lem :
      (byte : ℕ) (bytes : List ℕ) {p : Ptr} {t : SendTask} (c : Context) (w : World W)
      → c.current_send_task ≡ some (p, t)
      → t.status ≡ binary
      → suc (length bytes) ≡ t.need_recv_len
      → t.need_recv_len ≤ atc_rx_response_max
      → length c.response ≡ atc_rx_response_max
      → c.response_length ≡ 0
      → receive_all (byte ∷ bytes) c w
        ≡ done (
            command_end_handle os success
              (record c {
                response = byte ∷ bytes ++ drop (suc (length bytes)) c.response;
                response_length = suc (length bytes);
              })
              w)
  receive_all_lem byte bytes {p} {t} c w e b need fits size start =
      ap (λ i. receive_all (byte ∷ bytes) (record c { response_length = i }) w) start
      ∙ receive_all-binary byte bytes [] c.response {p = p} {t = t} c w e b (omega arith) fits
          (omega arith)
