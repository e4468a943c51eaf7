-- ===== src/Recv/Arrival.antt =====
-- recv_data_handle.c: what `atc_receive_data` stores of the bytes that the interrupt brings.
use atcortex.Base.{
  ℕ, zero, suc, ◌+◌, ◌-◌, ◌≡◌, ◌≢◌, refl, ap, ap₂, ◌∙◌, sym, subst, Bool, true, false, Option, some,
  List, [], ◌∷◌, ◌++◌, arith, length, take, min, leb, ◌==◌, if◌then◌else◌, Bool-cases, inl, inr,
  append_assoc, append-nil, length-append,
}
use atcortex.Platform.{World, Os, semaphore_give_isr}
use atcortex.RingBuffer.{RingBuffer, ring_buffer_write}
use atcortex.RingBuffer.Bounds as Ring
use atcortex.RingBuffer.Contents.{contents, length-contents-lt}
use atcortex.RingBuffer.Fifo.{push, Written, ring_buffer_write_refines}
use atcortex.Context.{Context}
use atcortex.Recv.{set_rx_buffer, receive_loop, atc_receive_data}

-- The number of bytes that still fit
abbrev pub room : RingBuffer → ℕ
room h = h.capacity - 1 - length (contents h)

-- What storing `bytes` in the ring of `c` comes to: the bytes that fit are appended to those that
-- wait, in order, and are counted, and the result says whether that was all.
pub record Stored (bytes : List ℕ) (count : ℕ) (c : Context) (r : (ℕ × Bool) × Context)
    : Type 0 where
  pub valid : Ring.IsValid r.1.rx_buffer
  pub capacity : r.1.rx_buffer.capacity ≡ c.rx_buffer.capacity
  pub bytes_in : contents r.1.rx_buffer ≡ contents c.rx_buffer ++ take (room c.rx_buffer) bytes
  pub counted : r.0.0 ≡ count + min (length bytes) (room c.rx_buffer)
  pub whole : r.0.1 ≡ leb (length bytes) (room c.rx_buffer)
  pub rest : r.1 ≡ record c { rx_buffer = r.1.rx_buffer }

take-nil : (n : ℕ) → take {A = ℕ} n [] ≡ []
take-nil zero = refl
take-nil (suc n) = refl

-- One round, when the write has been made.
receive_next : List ℕ → ℕ → Context → Bool × Option RingBuffer → (ℕ × Bool) × Context
receive_next bytes count c (ok, handle) =
    if ok
    then receive_loop bytes (count + 1) (set_rx_buffer c handle)
    else ((count, false), set_rx_buffer c handle)

receive_loop_step :
    (byte : ℕ) (bytes : List ℕ) (count : ℕ) (c : Context)
    → receive_loop (byte ∷ bytes) count c
      ≡ receive_next bytes count c (ring_buffer_write (some c.rx_buffer) byte)
unfolding receive_loop receive_next
receive_loop_step byte bytes count c = refl

push_refused :
    (c byte : ℕ) (q q' : List ℕ) → (false, q') ≡ push c q byte → (length q + 1 ≡ c) × (q' ≡ q)
unfolding push
push_refused c byte q q' e = elim (Bool-cases (length q + 1 == c)) [
  | inl full ↦ (ground arith, ap (λ r. r.1) (rw full at e))
  | inr more ↦ absurd (ground arith)
]

push_accepted :
    (c byte : ℕ) (q q' : List ℕ)
    → (true, q') ≡ push c q byte
    → (length q + 1 ≢ c) × (q' ≡ q ++ (byte ∷ []))
unfolding push
push_accepted c byte q q' e = elim (Bool-cases (length q + 1 == c)) [
  | inl full ↦ absurd (ground arith)
  | inr more ↦ (ground arith, ap (λ r. r.1) (rw more at e))
]

receive_full :
    (byte : ℕ) (bytes : List ℕ) (count : ℕ) (c : Context) (h : RingBuffer)
    → Written c.rx_buffer byte false h
    → Stored (byte ∷ bytes) count c (receive_next bytes count c (false, some h))
unfolding receive_next set_rx_buffer
receive_full byte bytes count c h v =
    let (full, same) =
      push_refused c.rx_buffer.capacity byte (contents c.rx_buffer) (contents h) v.queue in
    let none_left : room c.rx_buffer ≡ 0 = omega arith in
    record {
      valid = v.valid;
      capacity = v.capacity;
      bytes_in =
          same
          ∙ (sym (append-nil (contents c.rx_buffer))
              ∙ ap (λ n. contents c.rx_buffer ++ take n (byte ∷ bytes)) (sym none_left));
      counted = omega arith;
      whole = ground arith;
      rest = refl;
    }

receive_more :
    (byte : ℕ) (bytes : List ℕ) (count : ℕ) (c : Context) (h : RingBuffer)
    → Ring.IsValid c.rx_buffer
    → Written c.rx_buffer byte true h
    → Stored bytes
        (count + 1)
        (record c { rx_buffer = h })
        (receive_loop bytes (count + 1) (record c { rx_buffer = h }))
    → Stored (byte ∷ bytes) count c (receive_next bytes count c (true, some h))
unfolding receive_next set_rx_buffer
receive_more byte bytes count c h k v later =
    let (more, longer) =
      push_accepted c.rx_buffer.capacity byte (contents c.rx_buffer) (contents h) v.queue in
    let grown : length (contents h) ≡ length (contents c.rx_buffer) + 1 =
      ap (λ l. length l) longer ∙ length-append (contents c.rx_buffer) (byte ∷ []) in
    let one_less : room c.rx_buffer ≡ suc (room h) =
      omega (arith, v.capacity, length-contents-lt k) in
    record {
      valid = later.valid;
      capacity = later.capacity ∙ v.capacity;
      bytes_in =
          later.bytes_in
          ∙ (ap (λ q. q ++ take (room h) bytes) longer
              ∙ (append_assoc (contents c.rx_buffer) (byte ∷ []) (take (room h) bytes)
                  ∙ ap (λ n. contents c.rx_buffer ++ take n (byte ∷ bytes)) (sym one_less)));
      counted = omega (arith, later.counted);
      whole = later.whole ∙ ground arith;
      rest = later.rest;
    }

receive_loop-Stored :
    (bytes : List ℕ) (count : ℕ) (c : Context)
    → Ring.IsValid c.rx_buffer
    → Stored bytes count c (receive_loop bytes count c)
unfolding receive_loop receive_next
receive_loop-Stored [] count c k = record {
  valid = k;
  capacity = refl;
  bytes_in =
      sym (append-nil (contents c.rx_buffer))
      ∙ ap (λ l. contents c.rx_buffer ++ l) (sym (take-nil (room c.rx_buffer)));
  counted = omega arith;
  whole = ground arith;
  rest = refl;
}
receive_loop-Stored (byte ∷ bytes) count c k =
    let (done, h, e, v) = ring_buffer_write_refines {h = c.rx_buffer} byte k in
    subst (λ r. Stored (byte ∷ bytes) count c (receive_next bytes count c r)) (sym e)
      (after (λ h v. receive_loop-Stored bytes (count + 1) (record c { rx_buffer = h }) v) done h v)
  where
    after :
        ((h : RingBuffer)
          → Ring.IsValid h
          → Stored bytes
              (count + 1)
              (record c { rx_buffer = h })
              (receive_loop bytes (count + 1) (record c { rx_buffer = h })))
        → (done : Bool) (h : RingBuffer) → Written c.rx_buffer byte done h
        → Stored (byte ∷ bytes) count c (receive_next bytes count c (done, some h))
    after later true h v = receive_more byte bytes count c h k v (later h v.valid)
    after later false h v = receive_full byte bytes count c h v

-- What `atc_receive_data` comes to: the bytes that fit are appended to those that wait, in order, and
-- are counted. The event loop is woken if all fit.
pub record Arrived {W : Type 0} (os : Os W) (bytes : List ℕ) (c : Context) (w : World W) (count : ℕ)
    (c' : Context) (w' : World W) : Type 0 where
  pub valid : Ring.IsValid c'.rx_buffer
  pub contents_lem : contents c'.rx_buffer ≡ contents c.rx_buffer ++ take (room c.rx_buffer) bytes
  pub counted : count ≡ min (length bytes) (room c.rx_buffer)
  pub woken : w' ≡ (
      if leb (length bytes) (room c.rx_buffer)
      then (semaphore_give_isr os c.wake_semaphore w).1
      else w)
  pub rest : c' ≡ record c { rx_buffer = c'.rx_buffer }

-- `atc_receive_data` appends the bytes that still fit to those that wait, in order, keeps the
-- ring valid, and changes nothing else in the context. It returns their number. It wakes the
-- event loop if all of the bytes fit, and does not wake it if not, although bytes may have come.
pub atc_receive_data_lem :
    {W : Type 0} (os : Os W) (byte : ℕ) (bytes : List ℕ) (c : Context) (w : World W)
    → Ring.IsValid c.rx_buffer
    → (count : ℕ) × (c' : Context) × (w' : World W) × (atc_receive_data os
          (some c)
          (some (byte ∷ bytes))
          w
        ≡ (count, some c', w'))
      × Arrived os (byte ∷ bytes) c w count c' w'
unfolding atc_receive_data
atc_receive_data_lem os byte bytes c w k =
    let r = receive_loop (byte ∷ bytes) 0 c in
    let s = receive_loop-Stored (byte ∷ bytes) 0 c k in
    (
      r.0.0,
      r.1,
      if r.0.1 then (semaphore_give_isr os r.1.wake_semaphore w).1 else w,
      refl,
      record {
        valid = s.valid;
        contents_lem = s.bytes_in;
        counted = omega (arith, s.counted);
        woken =
            ap₂ (λ b p. if b then (semaphore_give_isr os p w).1 else w) s.whole
              (ap (λ (x : Context). x.wake_semaphore) s.rest);
        rest = s.rest;
      },
    )
