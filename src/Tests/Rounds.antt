-- ===== src/Tests/Rounds.antt =====
-- Runs for the event loop, with messages that come while it waits.
use atcortex.Base.{
  List, ℕ, ◌+◌, ◌-◌, ◌≤◌, ◌<◌, refl, min, Bool-cases, inl, inr, Option, none, some, [], ◌∷◌, true,
  arith, ◌==◌, if◌then◌else◌,
}
use atcortex.Types.{success, Msg, urc_register}
use atcortex.Platform.{Os, World}
use atcortex.CString.{zeroed}
use atcortex.CString.Laws.{length-zeroed, ZeroFrom-zeroed}
use atcortex.Context.{Context}
use atcortex.Recv.Ready.{Ends}
use atcortex.Platform.{malloc, queue_create, semaphore_create}
use atcortex.RingBuffer.{ring_buffer_init}
use atcortex.Stack.{stack_create}
use atcortex.Recv.{recv_data_init, after_ring, init_stack, set_rx_buffer}
use atcortex.Extern.{extern_msg_queue_init, handle_msg}
use atcortex.Extern.Answer.{Answered, handle_msg_lem}
use atcortex.Send.Handle.{send_msg_queue_init}
use atcortex.Urc.{urc_init, urc_init_in, nodes_of}
use atcortex.Process.{atc_init, atc_process, create_wake_semaphore}
use atcortex.Process.Queues.{received, Queues}
use atcortex.Recv.{prompt_bytes}
use atcortex.Process.Rounds.{Settled}
use atcortex.Process.Start.{process-init}
use atcortex.Tests.{memory, prompt_task, context}

abbrev message : Msg
message = record {
  addr = 60;
  body = urc_register (record { id = 0; prefix = 43 ∷ []; handler = 9 }) 61;
  semaphore = 62;
}

-- The last address given out, and the number of messages that wait
abbrev recv : ℕ × ℕ → Option Msg × (ℕ × ℕ)
recv (a, n) = if n == 0 then (none, (a, 0)) else (some message, (a, min n 5 - 1))

-- Two messages come whenever the loop waits.
abbrev busy_os : Os (ℕ × ℕ)
busy_os = record {
  os_malloc = λ n s. (s.0 + 1, (s.0 + 1, s.1));
  os_free = λ p s. s;
  os_queue_create = λ n s. (s.0 + 1, (s.0 + 1, s.1));
  os_send_task = λ q t ms s. (true, s);
  os_recv_task = λ q ms s. (some prompt_task, s);
  os_send_msg = λ q m ms s. (true, s);
  os_recv_msg = λ q ms s. recv s;
  os_send = λ bytes n s. (success, s);
  os_semaphore_create = λ s. (s.0 + 1, (s.0 + 1, s.1));
  os_semaphore_take = λ p ms m s. (m, (s.0, 2));
  os_semaphore_give = λ p s. s;
  os_semaphore_give_isr = λ p s. s;
  os_semaphore_delete = λ p s. s;
  os_get_tick_ms = λ s. (84, s);
  os_response_handler = λ h r bytes n s. s;
  os_urc_handler = λ h line s. s;
}

taken : (n a : ℕ) → min (recv (a, n)).1.1 5 + received (recv (a, n)).0 ≤ min n 5
taken n a = elim (Bool-cases (n == 0)) [
  | inl b ↦ rw b (omega arith)
  | inr b ↦ let p : 0 < n = ground arith in rw b (omega arith)
]

busy-Queues : Queues busy_os
unfolding prompt_bytes
busy-Queues = record {
  waiting = λ s. min s.1 5;
  few = λ s. omega arith;
  taken = λ q ms s. taken s.1 s.0;
  malloc_adds_none = λ n s. omega arith;
  free_adds_none = λ p s. omega arith;
  give_adds_none = λ p s. omega arith;
  asks = λ q ms s e. (omega arith, omega arith);
}

abbrev blank : Context
blank = record context { current_send_task = none; urc_handler_list = none; urc_next_id = 0 }

abbrev start : World (ℕ × ℕ)
start = record { system = (10, 2); trace = []; memory = memory }

-- A URC before the first round, the prompt in it, and data in the others
abbrev arrivals : List (List ℕ × List ℕ)
arrivals = (43 ∷ 67 ∷ 13 ∷ 10 ∷ [], 62 ∷ []) ∷ ([], 0 ∷ 10 ∷ []) ∷ (255 ∷ [], 0 ∷ 65 ∷ []) ∷ []

process-init_example : Ends (Settled 0) (
    atc_process busy_os 6 arrivals
      (atc_init busy_os (zeroed 256) (zeroed 20) blank start).1.0
      (atc_init busy_os (zeroed 256) (zeroed 20) blank start).1.1)
unfolding atc_init recv_data_init ring_buffer_init stack_create after_ring init_stack set_rx_buffer
    extern_msg_queue_init send_msg_queue_init urc_init urc_init_in create_wake_semaphore
    queue_create semaphore_create malloc nodes_of
process-init_example =
    process-init busy-Queues arrivals 0 (zeroed 256) (zeroed 20) blank start
      (record {
        line_size = length-zeroed 256;
        line_in = omega arith;
        fits = record {
          size = length-zeroed 512;
          within = omega arith;
          zeros = ZeroFrom-zeroed 512 0;
        };
        idle = refl;
        entries = omega arith;
        next = omega arith;
      })
      (omega (arith, length-zeroed 256)) (omega (arith, length-zeroed 20)) (omega arith) refl

handle_msg_lem_example :
    Answered busy_os message context start message.body (handle_msg busy_os message context start)
unfolding nodes_of
handle_msg_lem_example =
    handle_msg_lem busy_os message context start (omega arith) (omega arith) (omega arith)
      (omega arith) (omega arith)
