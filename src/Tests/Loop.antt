-- ===== src/Tests/Loop.antt =====
-- Runs for the event loop: recv_data_handle.c and ATCortex.c.
use atcortex.Process.{atc_init, create_wake_semaphore}
use atcortex.Process.Init.{IsStarted, atc_init_lem}
use atcortex.Recv.{recv_data_init, after_ring, init_stack, set_rx_buffer}
use atcortex.RingBuffer.{ring_buffer_init}
use atcortex.Stack.{stack_create}
use atcortex.Extern.{extern_msg_queue_init}
use atcortex.Send.Handle.{send_msg_queue_init}
use atcortex.Urc.{nodes_of, urc_init, urc_init_in}
use atcortex.Platform.{queue_create, semaphore_create, malloc}
use atcortex.Base.{none, Option}
use atcortex.Base.{
  ℕ, ◌<◌, ◌≡◌, refl, some, List, [], ◌∷◌, ◌≢◌, zero, suc, sym, leb, false, arith, length, get_or,
  if◌then◌else◌, ap, ◌+◌, ◌++◌,
}
use mathlib.Core.List.{reverse}
use atcortex.Types.{success, timeout, SendTask}
use atcortex.Platform.{get_tick_ms}
use atcortex.CString.{zeroed}
use atcortex.CString.Laws.{ZeroFrom-zeroed, length-zeroed, begins_with}
use atcortex.RingBuffer.Bounds as Ring
use atcortex.Stack.{Stack, stack_push_overwrite}
use atcortex.Stack.Bounds as Bounds
use atcortex.Stack.Bounds.{tops}
use atcortex.Stack.Laws.{elements}
use atcortex.Context.{Context, done}
use atcortex.Recv.{recv_data_handle, byte_prompt_handle, command_end_handle, prompt_bytes}
use atcortex.Recv.Safety.{WellFormed}
use atcortex.Recv.Ready.{Ends}
use atcortex.Recv.Task.{urcs}
use atcortex.Recv.Drain.{Drained, recv_data_handle-Drained}
use atcortex.Recv.Line.{with_line}
use atcortex.Recv.Overlong.{recv_data_handle-overlong}
use atcortex.RingBuffer.{RingBuffer}
use atcortex.RingBuffer.Contents.{contents, span}
use atcortex.Recv.Ring.{with_ring}
use atcortex.Recv.Prompted.{delivered, recv_data_handle-prompted}
use atcortex.Recv.Prompt.{matched}
use atcortex.Recv.Prompt.Suffix.{AwaitsPrompt, recent, byte_prompt_handle_lem, long_prompt_lem}
use atcortex.Process.{check_send_timeout, wait_ms}
use atcortex.Process.Timeout.{check_send_timeout_lem, timeout_after_wait_lem}
use atcortex.Tests.{test_os, world, ring, stack, context, idle, prompt_task}

ring-IsValid : Ring.IsValid ring
ring-IsValid = record {
  stored = refl;
  two = omega arith;
  fits = omega arith;
  word = omega arith;
  read_in = omega arith;
  write_in = omega arith;
}

stack-IsValid : Bounds.IsValid stack
stack-IsValid = record { positive = omega arith; fits = omega arith; room = omega arith }

context-WellFormed : WellFormed context
context-WellFormed = record {
  ring = ring-IsValid;
  line_size = length-zeroed 256;
  line_in = omega arith;
  fits = record { size = length-zeroed 512; within = omega arith; zeros = ZeroFrom-zeroed 512 0 };
  stack = (stack-IsValid, refl);
}

recv_data_handle-Drained_example :
    Ends (Drained (urcs context)) (recv_data_handle test_os context world)
unfolding prompt_bytes
recv_data_handle-Drained_example = recv_data_handle-Drained test_os context world (record {
  formed = context-WellFormed;
  task = λ e. (omega arith, omega arith);
  handlers = tt;
  same = refl;
})

-- The line buffer has one place left, and two bytes wait.
recv_data_handle-overlong_example :
    (h : RingBuffer) × Ring.IsValid h
    × (contents h ≡ [])
    × (recv_data_handle test_os (with_line test_os idle (zeroed 254) (zeroed 2)) world
        ≡ done (
          record (with_line test_os idle (zeroed 254 ++ (65 ∷ [])) (0 ∷ [])) { rx_buffer = h },
          world,
        ))
unfolding contents zeroed span
recv_data_handle-overlong_example =
    recv_data_handle-overlong test_os (zeroed 254) (zeroed 2) (65 ∷ []) (66 ∷ []) idle world
      (omega arith, tt) (ap (λ n. n + 1) (length-zeroed 254)) (ap (λ n. n + 2) (length-zeroed 254))
      ring-IsValid refl tt tt

-- So many prompt bytes
prompts : ℕ → List ℕ
prompts zero = []
prompts (suc n) = 62 ∷ prompts n

IsBytes-prompts : (n i : ℕ) → get_or (prompts n) i 0 < 256
unfolding prompts
IsBytes-prompts zero i = omega arith
IsBytes-prompts (suc n) zero = omega arith
IsBytes-prompts (suc n) (suc i) = IsBytes-prompts n i

NoZero-prompts : (n i : ℕ) → i < length (prompts n) → get_or (prompts n) i 0 ≢ 0
unfolding prompts
NoZero-prompts zero i h = absurd (omega arith)
NoZero-prompts (suc n) zero h = omega arith
NoZero-prompts (suc n) (suc i) h = NoZero-prompts n i (omega arith)

length-prompts : (n : ℕ) → length (prompts n) ≡ n
unfolding prompts
length-prompts zero = refl
length-prompts (suc n) = omega (arith, length-prompts n)

abbrev task_for : ℕ → SendTask
task_for n = record prompt_task {
  prompt = some (record { addr = 2; bytes = prompts n });
  prompt_len = n;
}

AwaitsPrompt-prompts :
    (n : ℕ)
    → 0 < n
    → AwaitsPrompt 13
        (task_for n)
        stack
        (record context { current_send_task = some (13, task_for n) })
unfolding elements tops prompt_bytes
AwaitsPrompt-prompts n h = record {
  current = refl;
  stack = refl;
  valid = stack-IsValid;
  bytes = λ i. omega arith;
  prompt = IsBytes-prompts n;
  no_zero = NoZero-prompts n;
  size = sym (length-prompts n);
  positive = h;
}

abbrev waiting : ℕ → Context
waiting n = record context { current_send_task = some (13, task_for n) }

byte_prompt_handle_lem_example :
    let c1 = record (waiting 1) { byte_stack = (stack_push_overwrite (some stack) 62 false).2 } in
    byte_prompt_handle test_os 62 (waiting 1) world ≡ (
      if begins_with (recent stack 62) (reverse (prompt_bytes (task_for 1)))
      then matched test_os 13 (task_for 1) c1 world
      else done (c1, world))
byte_prompt_handle_lem_example =
    byte_prompt_handle_lem test_os 62 {p = 13} {t = task_for 1} {s = stack} {c = waiting 1} world
      (AwaitsPrompt-prompts 1 (omega arith)) (omega arith)

long_prompt_lem_example :
    byte_prompt_handle test_os 62 (waiting 21) world
    ≡ done
        (record (waiting 21) { byte_stack = (stack_push_overwrite (some stack) 62 false).2 }, world)
long_prompt_lem_example =
    long_prompt_lem test_os 62 {p = 13} {t = task_for 21} {s = stack} {c = waiting 21} world
      (AwaitsPrompt-prompts 21 (omega arith)) (omega arith) (omega arith)

-- The clock has moved on from 0xfffffff0 to 84, so that 100 ms have passed.
check_send_timeout_lem_example : check_send_timeout test_os context world ≡ (
    if leb 100 100
    then command_end_handle test_os timeout context (get_tick_ms test_os world).1
    else (context, (get_tick_ms test_os world).1))
unfolding get_tick_ms
check_send_timeout_lem_example =
    check_send_timeout_lem test_os 13 100 prompt_task context world refl (omega arith) (omega arith)
      refl

timeout_after_wait_lem_example : check_send_timeout test_os context world ≡ (
    if leb (wait_ms test_os context.current_send_task world).0 0
    then command_end_handle test_os timeout context (get_tick_ms test_os world).1
    else (context, (get_tick_ms test_os world).1))
unfolding get_tick_ms
timeout_after_wait_lem_example =
    timeout_after_wait_lem test_os 13 100 0 prompt_task context world world refl (omega arith)
      (omega arith) refl refl

abbrev blank : Context
blank = record context { current_send_task = none }

atc_init_lem_example : IsStarted 1 (atc_init test_os (zeroed 256) (zeroed 20) blank world).1.0
unfolding atc_init recv_data_init ring_buffer_init stack_create after_ring init_stack set_rx_buffer
    extern_msg_queue_init send_msg_queue_init urc_init urc_init_in create_wake_semaphore
    queue_create semaphore_create malloc nodes_of
atc_init_lem_example =
    atc_init_lem test_os (zeroed 256) (zeroed 20) blank world
      (record {
        line_size = length-zeroed 256;
        line_in = omega arith;
        fits = record {
          size = length-zeroed 512;
          within = omega arith;
          zeros = ZeroFrom-zeroed 512 0;
        };
        idle = refl;
        entries = omega arith;
        next = omega arith;
      })
      (omega (arith, length-zeroed 256)) (omega (arith, length-zeroed 20)) refl

-- The prompt `>>` and four bytes of data
abbrev prompted : Context
prompted = record (waiting 2) {
  rx_buffer = record {
    buffer = some (62 ∷ 62 ∷ 0 ∷ 10 ∷ 255 ∷ 0 ∷ 0 ∷ []);
    capacity = 7;
    read_index = 0;
    write_index = 6;
  };
}

prompted-IsValid : Ring.IsValid prompted.rx_buffer
prompted-IsValid = record {
  stored = refl;
  two = omega arith;
  fits = omega arith;
  word = omega arith;
  read_in = omega arith;
  write_in = omega arith;
}

AwaitsPrompt-prompted : AwaitsPrompt 13 (task_for 2) stack prompted
AwaitsPrompt-prompted =
    let a = AwaitsPrompt-prompts 2 (omega arith) in
    record {
      current = refl;
      stack = refl;
      valid = a.valid;
      bytes = a.bytes;
      prompt = a.prompt;
      no_zero = a.no_zero;
      size = a.size;
      positive = a.positive;
    }

recv_data_handle-prompted_example :
    (s' : Option Stack) × (handle : RingBuffer) × Ring.IsValid handle
    × (contents handle ≡ [])
    × (recv_data_handle test_os prompted world
        ≡ done (
            with_ring handle (
              command_end_handle test_os success
                (delivered 13 (task_for 2) prompted s' (0 ∷ 10 ∷ 255 ∷ 0 ∷ []))
                world)))
unfolding elements tops prompt_bytes prompts contents span
recv_data_handle-prompted_example =
    recv_data_handle-prompted test_os 13 (task_for 2) (0 ∷ 10 ∷ 255 ∷ 0 ∷ []) {s = stack} prompted
      world AwaitsPrompt-prompted refl refl (omega arith) (omega arith) refl (omega arith)
      prompted-IsValid refl
