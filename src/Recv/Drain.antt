-- ===== src/Recv/Drain.antt =====
-- recv_data_handle.c: the whole of `recv_data_handle`, from the ring buffer to the handling of bytes.
use atcortex.Base.{
  ℕ, zero, suc, ◌<◌, ◌≡◌, refl, ap, ◌∙◌, sym, subst, true, Option, none, some, List, [], ◌∷◌, arith,
  length,
}
use atcortex.Platform.{World, Os}
use atcortex.RingBuffer.{RingBuffer, ring_buffer_read}
use atcortex.RingBuffer.Bounds as Ring
use atcortex.RingBuffer.Contents.{contents, length-contents-lt}
use atcortex.RingBuffer.Fifo.{ring_buffer_read_refines, pop}
use atcortex.Context.{Context, UrcList, State, Run, done, null_dereference, out_of_fuel, and_then}
use atcortex.Recv.{recv_byte, recv_loop, recv_data_handle, set_rx_buffer}
use atcortex.Recv.Task.{urcs, fixed}
use atcortex.Recv.Ready.{IsReady, Ends, recv_byte-Ends}

-- The state behind a run that read everything, with the registry `u`.
abbrev pub Drained : Option UrcList × ℕ → Context → Type 0
Drained u c = IsReady (fixed c) c × (contents c.rx_buffer ≡ []) × (urcs c ≡ u)

module _ {W : Type 0} (os : Os W) where
  pub set_ring-IsReady :
      {c : Context} (h : RingBuffer)
      → IsReady (fixed c) c
      → Ring.IsValid h
      → IsReady (fixed (record c { rx_buffer = h })) (record c { rx_buffer = h })
  set_ring-IsReady {c} h r v = record {
    formed = record {
      ring = v;
      line_size = r.formed.line_size;
      line_in = r.formed.line_in;
      fits = r.formed.fits;
      stack = r.formed.stack;
    };
    task = r.task;
    handlers = r.handlers;
    same = refl;
  }

  pub Ends-bind :
      (P Q : Context → Type 0) (r : Run (State W)) (f : State W → Run (State W))
      → Ends P r
      → ((c : Context) (w : World W) → P c → Ends Q (f (c, w)))
      → Ends Q (and_then r f)
  Ends-bind P Q (done (c, w)) f h next = next c w h
  Ends-bind P Q null_dereference f h next = absurd h
  Ends-bind P Q out_of_fuel f h next = absurd h

  -- What `pop` says of the bytes that are left.
  abbrev Popped : Option ℕ → List ℕ → List ℕ → Type 0
  Popped none q rest = (q ≡ []) × (rest ≡ [])
  Popped (some byte) q rest = suc (length rest) ≡ length q

  pop-Popped : (read : Option ℕ) (q rest : List ℕ) → (read, rest) ≡ pop q → Popped read q rest
  unfolding pop
  pop-Popped none [] rest e = (refl, ap (λ (x : Option ℕ × List ℕ). x.1) e)
  pop-Popped none (x ∷ q) rest e = cc
  pop-Popped (some byte) [] rest e = cc
  pop-Popped (some byte) (x ∷ q) rest e = ap (λ (y : Option ℕ × List ℕ). suc (length y.1)) e

  -- What the loop does with the answer of a read.
  unfoldable pub recv_loop_after : ℕ → Option ℕ → Context → World W → Run (State W)
  recv_loop_after fuel read c w = elim read [
    | none ↦ done (c, w)
    | some byte ↦ and_then (recv_byte os byte c w) (λ (c', w'). recv_loop os fuel c' w')
  ]

  pub recv_loop_step :
      (fuel : ℕ) (c : Context) (w : World W) (read : Option ℕ) (handle : RingBuffer)
      → ring_buffer_read (some c.rx_buffer) true ≡ (read, some handle)
      → recv_loop os (suc fuel) c w ≡ recv_loop_after fuel read (record c { rx_buffer = handle }) w
  unfolding recv_loop set_rx_buffer recv_loop_after
  recv_loop_step fuel c w read handle e =
      ap (λ (x : Option ℕ × Option RingBuffer). recv_loop_after fuel x.0 (set_rx_buffer c x.1) w) e

  -- The induction: `loop` is what is known of the rounds that follow.
  recv_loop_after-Drained :
      (u : Option UrcList × ℕ) (fuel : ℕ) (read : Option ℕ) (q : List ℕ) {c : Context} (w : World W)
      → IsReady (fixed c) c
      → Popped read q (contents c.rx_buffer)
      → urcs c ≡ u
      → length q < suc fuel
      → ((c' : Context) (w' : World W)
          → IsReady (fixed c') c'
          → urcs c' ≡ u
          → length (contents c'.rx_buffer) < fuel
          → Ends (Drained u) (recv_loop os fuel c' w'))
      → Ends (Drained u) (recv_loop_after fuel read c w)
  unfolding recv_loop_after
  recv_loop_after-Drained u fuel none q w r p e h loop = (r, p.1, e)
  recv_loop_after-Drained u fuel (some byte) q {c} w r p e h loop =
      Ends-bind (IsReady (fixed c)) (Drained u) (recv_byte os byte c w) _
        (recv_byte-Ends os (fixed c) byte w r)
        λ c' w' r'.
          let ring = ap (λ (x : RingBuffer × (Option UrcList × ℕ)). x.0) r'.same in
          let list = ap (λ (x : RingBuffer × (Option UrcList × ℕ)). x.1) r'.same in
          loop c' w' (subst (λ h. IsReady h c') (sym r'.same) r') (list ∙ e)
            (subst (λ h. length (contents h) < fuel) (sym ring) (omega arith))

  recv_loop-Drained :
      (u : Option UrcList × ℕ) (fuel : ℕ) (c : Context) (w : World W)
      → IsReady (fixed c) c
      → urcs c ≡ u
      → length (contents c.rx_buffer) < fuel
      → Ends (Drained u) (recv_loop os fuel c w)
  recv_loop-Drained u zero c w r e h = absurd (omega arith)
  recv_loop-Drained u (suc fuel) c w r e h =
      let (read, handle, f, answer) = ring_buffer_read_refines r.formed.ring in
      rw (recv_loop_step fuel c w read handle f) (
        recv_loop_after-Drained u fuel read (contents c.rx_buffer) w
          (set_ring-IsReady handle r answer.valid)
          (pop-Popped read (contents c.rx_buffer) (contents handle) answer.queue) e h
          (recv_loop-Drained u fuel))

  -- From a well-formed context with a list of handlers, whose task, if it waits for a prompt, has
  -- the whole of it and data to follow it, `recv_data_handle` comes to an end without
  -- dereferencing NULL or reading past the prompt. It has read every byte of the ring then, and
  -- the context is such a one again, with every index inside its array and the registry as
  -- before.
  pub recv_data_handle-Drained :
      (c : Context) (w : World W)
      → IsReady (fixed c) c
      → Ends (Drained (urcs c)) (recv_data_handle os c w)
  unfolding recv_data_handle
  recv_data_handle-Drained c w r =
      recv_loop-Drained (urcs c) c.rx_buffer.capacity c w r refl (length-contents-lt r.formed.ring)
