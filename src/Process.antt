-- ===== src/Process.antt =====
-- ATCortex.c: setting a context up, the timeout of the current task, and one round of the event loop.
pub mod Init
pub mod Messages
pub mod Queues
pub mod Rounds
pub mod Start
pub mod Timeout
use atcortex.Base.{
  ℕ, zero, suc, ◌+◌, ◌-◌, ◌%◌, ◌^◌, Option, none, some, List, [], ◌∷◌, ltb, leb, ◌==◌,
  if◌then◌else◌,
}
use atcortex.Types.{Ptr, null, AtcResult, success, error, timeout, atc_timeout_max, SendTask}
use atcortex.Platform.{World, Os, Call, semaphore_create, semaphore_take, get_tick_ms}
use atcortex.Context.{Context, State, Run, done, and_then}
use atcortex.Recv.{command_end_handle, recv_data_handle, atc_receive_data, recv_data_init}
use atcortex.Urc.{urc_init}
use atcortex.Send.Handle.{send_msg_queue_init, send_msg_handle}
use atcortex.Extern.{extern_msg_queue_init, extern_msg_handle}

-- `a - b` of `uint32_t`
unfoldable pub minus_uint32 : ℕ → ℕ → ℕ
minus_uint32 a b = (a + (2 ^ 32 - b)) % 2 ^ 32

-- `_atc_time_get`
unfoldable pub atc_time_get : {W : Type 0} → Os W → Call W ℕ
atc_time_get os w = get_tick_ms os w

unfoldable pub check_timeout :
    {W : Type 0} → Os W → Option (Ptr × SendTask) → Context → World W → State W
check_timeout os none c w = (c, w)
check_timeout os (some (p, t)) c w =
    let (now, w1) = atc_time_get os w in
    if leb t.timeout_ms (minus_uint32 now t.timestamp)
    then command_end_handle os timeout c w1
    else (c, w1)

-- `check_send_timeout`
unfoldable pub check_send_timeout : {W : Type 0} → Os W → Context → World W → State W
check_send_timeout os c w = check_timeout os c.current_send_task c w

-- What is left of the timeout: the calculation of `wait_ms` in `atc_process`
unfoldable pub remaining : ℕ → ℕ → ℕ
remaining timeout_ms elapsed = if ltb elapsed timeout_ms then timeout_ms - elapsed else 0

unfoldable pub wait_ms : {W : Type 0} → Os W → Option (Ptr × SendTask) → Call W ℕ
wait_ms os none w = (atc_timeout_max, w)
wait_ms os (some (p, t)) w =
    let (now, w1) = atc_time_get os w in (remaining t.timeout_ms (minus_uint32 now t.timestamp), w1)

-- The end of a round: the timeout is checked, and the thread waits for what is left of it.
unfoldable pub wait_for_events : {W : Type 0} → Os W → Context → World W → State W
wait_for_events os c w =
    let (c1, w1) = check_send_timeout os c w in
    let (ms, w2) = wait_ms os c1.current_send_task w1 in
    (c1, (semaphore_take os c1.wake_semaphore ms w2).1)

-- The interrupt brings bytes: `atc_receive_data` on the context of the loop.
unfoldable pub interrupt : {W : Type 0} → Os W → List ℕ → Context → World W → State W
interrupt os bytes c w =
    let (count, c', w') = atc_receive_data os (some c) (some bytes) w in
    (elim c' [ none ↦ c | some d ↦ d ], w')

-- One round of the loop of `atc_process`, with fuel for the loop over the messages, and the bytes
-- that the interrupt brings in it, just before it works the ring off.
unfoldable pub process_round : {W : Type 0} → Os W → ℕ → List ℕ → Context → World W → Run (State W)
process_round os fuel bytes c w = and_then (extern_msg_handle os fuel c w) (λ s1.
    let s2 = send_msg_handle os s1.0 s1.1 in
    let s3 = interrupt os bytes s2.0 s2.1 in
    and_then (recv_data_handle os s3.0 s3.1) (λ s4. done (wait_for_events os s4.0 s4.1)))

-- Rounds of `atc_process`, which never returns: each with the bytes that the interrupt brings before
-- it and in it.
unfoldable pub atc_process :
    {W : Type 0} → Os W → ℕ → List (List ℕ × List ℕ) → Context → World W → Run (State W)
atc_process os fuel [] c w = done (c, w)
atc_process os fuel ((before, within) ∷ arrivals) c w =
    let (c1, w1) = interrupt os before c w in
    and_then (process_round os fuel within c1 w1) (λ s. atc_process os fuel arrivals s.0 s.1)

-- The next step of `atc_init`, if the last one was successful
abbrev pub and_init :
    {W : Type 0}
    → AtcResult × State W
    → (Context → World W → AtcResult × State W)
    → AtcResult × State W
and_init (success, (c, w)) next = next c w
and_init (r, s) next = (error, s)

unfoldable pub create_wake_semaphore : {W : Type 0} → Os W → Context → World W → AtcResult × State W
create_wake_semaphore os c w =
    let (p, w1) = semaphore_create os w in
    (if p == null then error else success, (record c { wake_semaphore = p }, w1))

-- `atc_init`. The lists are what `rx_buffer_data` holds, and what the allocator leaves in the stack's
-- array.
unfoldable pub atc_init :
    {W : Type 0} → Os W → List ℕ → List Ptr → Context → World W → AtcResult × State W
atc_init os rx_buffer_data garbage c w =
    and_init (recv_data_init os rx_buffer_data garbage c w) (λ c1 w1.
      and_init (extern_msg_queue_init os c1 w1) (λ c2 w2.
        and_init (send_msg_queue_init os c2 w2)
          (λ c3 w3. and_init (urc_init os c3 w3) (λ c4 w4. create_wake_semaphore os c4 w4))))
