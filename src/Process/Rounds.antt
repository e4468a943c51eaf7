-- ===== src/Process/Rounds.antt =====
-- ATCortex.c: the rounds of the event loop.
use atcortex.Base.{
  ℕ, zero, suc, ◌+◌, ◌*◌, ◌≤◌, ◌<◌, ◌≡◌, refl, ap, sym, subst, Option, List, [], ◌∷◌, length, none,
  some, arith, leb, ◌==◌, Bool-cases, inl, inr,
}
use atcortex.Types.{
  Ptr, null, SendTask, Msg, timeout, hardware_error, atc_rx_response_max, AtcResult, success, error,
}
use atcortex.Platform.{World, Os, malloc, recv_msg, recv_task, get_tick_ms}
use atcortex.CString.{zeroed}
use atcortex.RingBuffer.{RingBuffer}
use atcortex.RingBuffer.Contents.{contents}
use atcortex.Urc.{int_max, nodes_of}
use atcortex.Context.{UrcList, Context, State, Run, done, null_dereference, out_of_fuel, and_then}
use atcortex.Recv.{clear_response_buffer, command_end_handle, recv_data_handle}
use atcortex.Recv.Safety.{
  set_task-WellFormed, zeroed-Fits, WellFormed, command_end_handle-WellFormed,
}
use atcortex.Recv.Task.{urcs, command_end_handle-Keeps}
use atcortex.Recv.Ready.{Ends, TaskIsSafe}
use atcortex.Recv.Drain.{set_ring-IsReady, Drained, Ends-bind, recv_data_handle-Drained}
use atcortex.Send.Handle.{
  task_size, after_send, send_received, receive_task, send_next, send_msg_handle,
}
use atcortex.Extern.{handle_msg, extern_msg_handle}
use atcortex.Process.{
  minus_uint32, atc_time_get, check_timeout, check_send_timeout, wait_for_events, interrupt,
  process_round, atc_process,
}
use atcortex.Process.Queues.{received, AsksForData, Queues, Runs, left, left-recv}
use atcortex.Process.Messages.{EndsQuiet, handle_msg-Quiet}
use atcortex.Recv.{atc_receive_data, prompt_bytes}
use atcortex.Recv.Arrival.{atc_receive_data_lem}
use atcortex.Recv.Known.{IsThere}

-- Between two rounds the ring is empty.
abbrev pub Settled : ℕ → Context → Type 0
Settled k c = Runs k c × (contents c.rx_buffer ≡ [])

module _ {W : Type 0} {os : Os W} (qs : Queues os) where
  fewer : {k m : ℕ} {c : Context} → m ≤ k → Runs k c → Runs m c
  fewer le r = record { ready = r.ready; next = r.next; room = omega (arith, r.room) }

  -- What the loop over the messages does with what it has received
  extern_after : ℕ → Option Msg → Context → World W → Run (State W)
  extern_after fuel rmsg c w = elim rmsg [
    | none ↦ done (c, w)
    | some m ↦ and_then (handle_msg os m c w) (λ s. extern_msg_handle os fuel s.0 s.1)
  ]

  Quiet-bind :
      (k n : ℕ) (w : World W) (r : Run (State W)) (f : State W → Run (State W))
      → EndsQuiet qs n w r
      → ((c' : Context) (w' : World W)
          → Runs n c'
          → left qs w' ≤ left qs w
          → Ends (Runs k) (f (c', w')))
      → Ends (Runs k) (and_then r f)
  Quiet-bind k n w (done (c, w')) f (a, b) next = next c w' a b
  Quiet-bind k n w null_dereference f h next = absurd h
  Quiet-bind k n w out_of_fuel f h next = absurd h

  extern_after-Runs :
      (k n fuel : ℕ) (rmsg : Option Msg) (c : Context) (w : World W)
      → Runs (n + k) c
      → left qs w + received rmsg ≤ n
      → n < suc fuel
      → ((m : ℕ) (c' : Context) (w' : World W)
          → Runs (m + k) c'
          → left qs w' ≤ m
          → m < fuel
          → Ends (Runs k) (extern_msg_handle os fuel c' w'))
      → Ends (Runs k) (extern_after fuel rmsg c w)
  unfolding extern_after
  extern_after-Runs k n fuel none c w r e f loop = fewer (omega arith) r
  extern_after-Runs k zero fuel (some m) c w r e f loop = absurd (omega arith)
  extern_after-Runs k (suc n) fuel (some m) c w r e f loop =
      Quiet-bind k (n + k) w (handle_msg os m c w) _
        (handle_msg-Quiet qs (n + k) m c w (fewer (omega arith) r))
        λ c' w' r' l. loop n c' w' r' (omega arith) (omega arith)

  -- `n` bounds the messages that wait.
  extern_msg_handle-Runs :
      (k n fuel : ℕ) (c : Context) (w : World W)
      → Runs (n + k) c
      → left qs w ≤ n
      → n < fuel
      → Ends (Runs k) (extern_msg_handle os fuel c w)
  unfolding extern_msg_handle extern_after
  extern_msg_handle-Runs k n zero c w r e f = absurd (omega arith)
  extern_msg_handle-Runs k n (suc fuel) c w r e f =
      extern_after-Runs k n fuel (recv_msg os c.external_api_queue 0 w).0 c
        (recv_msg os c.external_api_queue 0 w).1 r
        (omega (arith, left-recv qs c.external_api_queue 0 w)) f
        λ m c' w' r' e' f'. extern_msg_handle-Runs k m fuel c' w' r' e' f'

  -- A step that leaves the ring and the registry
  step-Runs :
      {k : ℕ} {c c' : Context}
      → WellFormed c'
      → TaskIsSafe c'.current_send_task
      → urcs c' ≡ urcs c
      → Runs k c
      → Runs k c'
  step-Runs {k} v t u r = record {
    ready = record {
      formed = v;
      task = t;
      handlers = subst (λ (x : Option UrcList × ℕ). IsThere x.0) (sym u) r.ready.handlers;
      same = refl;
    };
    next = subst (λ (x : Option UrcList × ℕ). x.1 ≤ int_max) (sym u) r.next;
    room = subst (λ (x : Option UrcList × ℕ). length (nodes_of x.0) + k < int_max) (sym u) r.room;
  }

  command_end_handle-Runs :
      {k : ℕ} (result : AtcResult) {c : Context} (w : World W)
      → Runs k c
      → Runs k (command_end_handle os result c w).0
  command_end_handle-Runs result {c} w r =
      let (task, rest) = command_end_handle-Keeps os result c w in
      let safe : TaskIsSafe (command_end_handle os result c w).0.current_send_task = elim task [
        | inl same ↦ subst TaskIsSafe (sym same) r.ready.task
        | inr ended ↦ subst TaskIsSafe (sym ended) tt
      ] in
      step-Runs (command_end_handle-WellFormed os result w r.ready.formed) safe
        (ap (λ (x : RingBuffer × (Option UrcList × ℕ)). x.1) rest) r

  after_send-Runs :
      {k : ℕ} (ret : AtcResult) {c : Context} (w : World W)
      → Runs k c
      → Runs k (after_send os ret c w).0
  unfolding after_send
  after_send-Runs success w r = r
  after_send-Runs error w r = command_end_handle-Runs hardware_error w r
  after_send-Runs timeout w r = command_end_handle-Runs hardware_error w r
  after_send-Runs hardware_error w r = command_end_handle-Runs hardware_error w r

  receive_task-Runs :
      {k : ℕ} (o : Option SendTask) {c : Context} (w : World W)
      → AsksForData o
      → Runs k c
      → Runs k (receive_task os o c w).0
  unfolding receive_task send_received clear_response_buffer prompt_bytes
  receive_task-Runs none w a r = r
  receive_task-Runs (some t) {c} w a r =
      let v = r.ready.formed in
      let p = (malloc os task_size w).0 in
      let now = get_tick_ms os (malloc os task_size w).1 in
      let started : Runs _ (record c {
        response = zeroed atc_rx_response_max;
        response_length = 0;
        current_send_task = some (p, record t { timestamp = now.0 });
      }) =
        step-Runs
          (record {
            ring = v.ring;
            line_size = v.line_size;
            line_in = v.line_in;
            fits = zeroed-Fits;
            stack = v.stack;
          })
          a refl r in
      elim (Bool-cases (p == null)) [
        | inl b ↦ rw b (step-Runs (set_task-WellFormed none v) tt refl r)
        | inr b ↦ rw b (after_send-Runs _ _ started)
      ]

  send_next-Runs :
      {k : ℕ} (o : Option (Ptr × SendTask)) {c : Context} (w : World W)
      → Runs k c
      → Runs k (send_next os o c w).0
  unfolding send_next recv_task
  send_next-Runs (some t) w r = r
  send_next-Runs none {c} w r = receive_task-Runs _ _ (qs.asks c.send_queue 0 w.system) r

  command_end_handle-Settled :
      {k : ℕ} (result : AtcResult) {c : Context} (w : World W)
      → Settled k c
      → Settled k (command_end_handle os result c w).0
  command_end_handle-Settled result {c} w (r, empty) = (
    command_end_handle-Runs result w r,
    subst (λ (x : RingBuffer × (Option UrcList × ℕ)). contents x.0 ≡ [])
        (sym (command_end_handle-Keeps os result c w).1) empty,
  )

  check_timeout-Settled :
      {k : ℕ} (o : Option (Ptr × SendTask)) {c : Context} (w : World W)
      → Settled k c
      → Settled k (check_timeout os o c w).0
  unfolding check_timeout
  check_timeout-Settled none w r = r
  check_timeout-Settled (some (p, t)) w r =
      elim (Bool-cases (leb t.timeout_ms (minus_uint32 (atc_time_get os w).0 t.timestamp))) [
        | inl b ↦ rw b (command_end_handle-Settled timeout _ r)
        | inr b ↦ rw b r
      ]

  interrupt-Runs :
      {k : ℕ} (bytes : List ℕ) {c : Context} (w : World W)
      → Runs k c
      → Runs k (interrupt os bytes c w).0
  unfolding interrupt atc_receive_data
  interrupt-Runs [] w r = r
  interrupt-Runs {k} (byte ∷ bytes) {c} w r =
      let (count, c', w', e, a) = atc_receive_data_lem os byte bytes c w r.ready.formed.ring in
      let ready = set_ring-IsReady os c'.rx_buffer r.ready a.valid in
      subst (λ x. Runs k (elim x.1 as (λ _. Context) [ none ↦ c | some d ↦ d ])) (sym e)
        (subst (Runs k) (sym a.rest) (record { ready = ready; next = r.next; room = r.room }))

  process_round-Settled :
      (k fuel : ℕ) (bytes : List ℕ) (c : Context) (w : World W)
      → 5 < fuel
      → Runs (5 + k) c
      → Ends (Settled k) (process_round os fuel bytes c w)
  unfolding process_round send_msg_handle wait_for_events check_send_timeout
  process_round-Settled k fuel bytes c w f r =
      Ends-bind os (Runs k) (Settled k) (extern_msg_handle os fuel c w) _
        (extern_msg_handle-Runs k 5 fuel c w r (qs.few w.system) f)
        λ c1 w1 r1.
          let (c2, w2) = send_msg_handle os c1 w1 in
          let (c3, w3) = interrupt os bytes c2 w2 in
          let r3 = interrupt-Runs bytes w2 (send_next-Runs c1.current_send_task w1 r1) in
          Ends-bind os (Drained (urcs c3)) (Settled k) (recv_data_handle os c3 w3) _
            (recv_data_handle-Drained os c3 w3 r3.ready)
            λ c4 w4 d.
              check_timeout-Settled c4.current_send_task w4
                (step-Runs d.0.formed d.0.task d.2 r3, d.1)

  pub atc_process-Settled :
      (k fuel : ℕ) (arrivals : List (List ℕ × List ℕ)) (c : Context) (w : World W)
      → 5 < fuel
      → Settled (5 * length arrivals + k) c
      → Ends (Settled k) (atc_process os fuel arrivals c w)
  unfolding atc_process
  atc_process-Settled k fuel [] c w f (r, empty) = (fewer (omega arith) r, empty)
  atc_process-Settled k fuel ((before, within) ∷ arrivals) c w f (r, empty) =
      let (c1, w1) = interrupt os before c w in
      Ends-bind os (Settled (5 * length arrivals + k)) (Settled k)
        (process_round os fuel within c1 w1) _
        (process_round-Settled (5 * length arrivals + k) fuel within c1 w1 f
          (fewer (omega arith) (interrupt-Runs before w r)))
        λ c' w' r'. atc_process-Settled k fuel arrivals c' w' f r'
