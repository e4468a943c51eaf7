-- ===== src/Recv/Feed.antt =====
-- recv_data_handle.c: `recv_data_handle` handles the bytes of the ring one after another.
use atcortex.Base.{
  ℕ, zero, suc, ◌<◌, ◌≡◌, refl, ap, ◌∙◌, sym, subst, Option, none, some, List, [], ◌∷◌, arith,
  length, inl, inr,
}
use atcortex.Types.{Ptr, SendTask, line_recv}
use atcortex.Platform.{World, Os}
use atcortex.RingBuffer.{RingBuffer}
use atcortex.RingBuffer.Bounds as Ring
use atcortex.RingBuffer.Contents.{contents, length-contents-lt}
use atcortex.RingBuffer.Fifo.{pop, ring_buffer_read_refines}
use atcortex.Context.{Context, UrcList, State, Run, done, null_dereference, out_of_fuel, and_then}
use atcortex.Recv.{recv_for_status, recv_for, recv_byte, recv_loop, recv_data_handle}
use atcortex.Recv.Line.{feed}
use atcortex.Recv.Task.{byte_line_step-Keeps}
use atcortex.Recv.Binary.{receive_all}
use atcortex.Recv.Drain.{recv_loop_after, recv_loop_step}
use atcortex.Recv.Ring.{with_ring, run_with_ring, recv_byte-ring, receive_all-ring}
use atcortex.Recv.Known.{IsThere, byte_line_step, byte_line_handle-step}

pop-none : (q rest : List ℕ) → (none, rest) ≡ pop q → (q ≡ []) × (rest ≡ [])
unfolding pop
pop-none [] rest e = (refl, ap (λ (x : Option ℕ × List ℕ). x.1) e)
pop-none (x ∷ q) rest e = cc

pop-some : (byte : ℕ) (q rest : List ℕ) → (some byte, rest) ≡ pop q → q ≡ byte ∷ rest
unfolding pop
pop-some byte [] rest e = cc
pop-some byte (x ∷ q) rest e = cc

-- What the loop comes to, by what the bytes come to without a ring: the same outcome, with a ring that
-- is empty.
abbrev pub Fed : {W : Type 0} → Run (State W) → Run (State W) → Type 0
Fed (done s) r = (h : RingBuffer) × Ring.IsValid h × (contents h ≡ []) × (r ≡ done (with_ring h s))
Fed null_dereference r = r ≡ null_dereference
Fed out_of_fuel r = r ≡ out_of_fuel

Fed-ring : {W : Type 0} (h : RingBuffer) (r s : Run (State W)) → Fed (run_with_ring h r) s → Fed r s
Fed-ring h (done x) s f = f
Fed-ring h null_dereference s f = f
Fed-ring h out_of_fuel s f = f

-- No task, or one that waits for lines
abbrev pub WaitsForLines : Option (Ptr × SendTask) → Type 0
WaitsForLines none = Unit {0}
WaitsForLines (some (p, t)) = t.status ≡ line_recv

module _ {W : Type 0} (os : Os W) where
  -- A byte that has been handled, and the rounds behind it; `loop` is what is known of these.
  and_then-Fed :
      (fuel : ℕ) (h : RingBuffer) (bytes : List ℕ) (r : Run (State W))
      → ((c : Context) (w : World W)
          → Fed
              (receive_all os bytes (record c { rx_buffer = h }) w)
              (recv_loop os fuel (record c { rx_buffer = h }) w))
      → Fed
          (and_then r (λ (s : State W). receive_all os bytes s.0 s.1))
          (and_then (run_with_ring h r) (λ (s : State W). recv_loop os fuel s.0 s.1))
  and_then-Fed fuel h bytes (done (c, w)) loop =
      Fed-ring h (receive_all os bytes c w) (recv_loop os fuel (record c { rx_buffer = h }) w) (
        subst (λ r. Fed r (recv_loop os fuel (record c { rx_buffer = h }) w))
          (receive_all-ring os h bytes c w) (loop c w))
  and_then-Fed fuel h bytes null_dereference loop = refl
  and_then-Fed fuel h bytes out_of_fuel loop = refl

  recv_loop_after-Fed :
      (fuel : ℕ) (read : Option ℕ) (h : RingBuffer) (c : Context) (w : World W)
      → Ring.IsValid h
      → (read, contents h) ≡ pop (contents c.rx_buffer)
      → length (contents c.rx_buffer) < suc fuel
      → ((c' : Context) (w' : World W)
          → Ring.IsValid c'.rx_buffer
          → length (contents c'.rx_buffer) < fuel
          → Fed (receive_all os (contents c'.rx_buffer) c' w') (recv_loop os fuel c' w'))
      → Fed
          (receive_all os (contents c.rx_buffer) c w)
          (recv_loop_after os fuel read (record c { rx_buffer = h }) w)
  unfolding recv_loop_after receive_all
  recv_loop_after-Fed fuel none h c w v e f loop =
      let (empty, rest) = pop-none (contents c.rx_buffer) (contents h) e in
      subst (λ q. Fed (receive_all os q c w) (done (record c { rx_buffer = h }, w))) (sym empty)
        (h, v, rest, refl)
  recv_loop_after-Fed fuel (some byte) h c w v e f loop =
      let q = pop-some byte (contents c.rx_buffer) (contents h) e in
      let left = ap length q in
      subst
        (λ (x : List ℕ × Run (State W)).
          Fed (receive_all os x.0 c w) (and_then x.1 (λ (s : State W). recv_loop os fuel s.0 s.1)))
        (ap (λ b. (b, run_with_ring h (recv_byte os byte c w))) (sym q)
          ∙ ap (λ r. (contents c.rx_buffer, r)) (sym (recv_byte-ring os h byte c w)))
        (and_then-Fed fuel h (contents h) (recv_byte os byte c w)
          λ c' w'. loop (record c' { rx_buffer = h }) w' v (omega arith))

  recv_loop-Fed :
      (fuel : ℕ) (c : Context) (w : World W)
      → Ring.IsValid c.rx_buffer
      → length (contents c.rx_buffer) < fuel
      → Fed (receive_all os (contents c.rx_buffer) c w) (recv_loop os fuel c w)
  recv_loop-Fed zero c w v f = absurd (omega arith)
  recv_loop-Fed (suc fuel) c w v f =
      let (read, h, e, answer) = ring_buffer_read_refines v in
      rw (recv_loop_step os fuel c w read h e)
        (recv_loop_after-Fed fuel read h c w answer.valid answer.queue f (recv_loop-Fed fuel))

  -- On a valid ring buffer `recv_data_handle` does what handling the bytes in the ring one after
  -- another does, the oldest first, each by the state that the task has by then: it comes to an
  -- end just if that does, with the same context and the same calls but for the ring, which is
  -- valid and empty, and it dereferences NULL just if that does.
  pub recv_data_handle-Fed :
      (c : Context) (w : World W)
      → Ring.IsValid c.rx_buffer
      → Fed (receive_all os (contents c.rx_buffer) c w) (recv_data_handle os c w)
  unfolding recv_data_handle
  recv_data_handle-Fed c w v = recv_loop-Fed c.rx_buffer.capacity c w v (length-contents-lt v)

  recv_for-line :
      (byte : ℕ) (o : Option (Ptr × SendTask)) (c : Context) (w : World W)
      → WaitsForLines o
      → IsThere c.urc_handler_list
      → recv_for os byte o c w ≡ done (byte_line_step os byte c w)
  unfolding recv_for recv_for_status
  recv_for-line byte none c w s u = byte_line_handle-step os byte c w u
  recv_for-line byte (some (p, t)) c w s u =
      ap (λ st. recv_for_status os byte st t c w) s ∙ byte_line_handle-step os byte c w u

  WaitsForLines-byte :
      (byte : ℕ) (c : Context) (w : World W)
      → WaitsForLines c.current_send_task
      → WaitsForLines (byte_line_step os byte c w).0.current_send_task
  WaitsForLines-byte byte c w s = elim (byte_line_step-Keeps os byte c w).0 [
    | inl same ↦ subst WaitsForLines (sym same) s
    | inr ended ↦ subst WaitsForLines (sym ended) tt
  ]

  IsThere-byte :
      (byte : ℕ) (c : Context) (w : World W)
      → IsThere c.urc_handler_list
      → IsThere (byte_line_step os byte c w).0.urc_handler_list
  IsThere-byte byte c w u =
      subst (λ (x : RingBuffer × (Option UrcList × ℕ)). IsThere x.1.0)
        (sym (byte_line_step-Keeps os byte c w).1) u

  pub receive_all-lines :
      (bytes : List ℕ) (c : Context) (w : World W)
      → WaitsForLines c.current_send_task
      → IsThere c.urc_handler_list
      → receive_all os bytes c w ≡ done (feed os bytes c w)
  unfolding receive_all feed recv_byte
  receive_all-lines [] c w s u = refl
  receive_all-lines (b ∷ bs) c w s u =
      ap (λ r. and_then r (λ (x : State W). receive_all os bs x.0 x.1))
        (recv_for-line b c.current_send_task c w s u)
      ∙ receive_all-lines bs (byte_line_step os b c w).0 (byte_line_step os b c w).1
          (WaitsForLines-byte b c w s) (IsThere-byte b c w u)
