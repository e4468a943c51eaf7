-- ===== src/Send.antt =====
-- send_msg_handle.c: the functions that queue a task for the event loop. Prompt has those with a prompt,
-- Handle the step of the event loop that takes the next task and sends its command.
-- A pointer to a caller's bytes is the list of the bytes, `none` for NULL; a context that is `none` is
-- NULL. A task that stands in a queue owns its blocks.
pub mod Ending
pub mod Async
pub mod Failure
pub mod Handle
pub mod Lifecycle
pub mod Prompt
pub mod PromptFailure
use atcortex.Base.{
  ℕ, Bool, true, false, Option, none, some, List, [], take, ◌==◌, ◌||◌, if◌then◌else◌,
}
use atcortex.Types.{
  Ptr, null, AtcResult, success, error, timeout, hardware_error, atc_timeout_max, Block,
  ResponseHandler, no_handler, sync_handler, line_recv, prompt_match, SendTask,
}
use atcortex.Platform.{
  World, Os, Call, malloc, free, semaphore_create, semaphore_take, semaphore_give, semaphore_delete,
  queue_create, send_task, recv_task, send, get_tick_ms, pure, ◌>>◌,
}
use atcortex.Context.{Context, State}
use atcortex.Recv.{clear_response_buffer, command_end_handle}

-- `struct send_task task = {0}`
abbrev pub zero_task : SendTask
zero_task = record {
  payload = none;
  size = 0;
  response_handler = no_handler;
  timeout_ms = 0;
  timestamp = 0;
  semaphore = null;
  sync_send_result = null;
  sync_response_buf = null;
  sync_response_length = null;
  prompt = none;
  prompt_len = 0;
  need_recv_len = 0;
  status = line_recv;
}

-- A timeout of 0 stands for none.
unfoldable pub effective_timeout : ℕ → ℕ
effective_timeout ms = if ms == 0 then atc_timeout_max else ms

-- A block with a copy of the first `n` bytes, if the allocator gives one.
unfoldable pub copy_bytes : {W : Type 0} → Os W → List ℕ → ℕ → Call W (Option Block)
copy_bytes os bytes n w =
    let (p, w') = malloc os n w in
    (if p == null then none else some (record { addr = p; bytes = take n bytes }), w')

-- What follows the allocation: one thing with the block, another without.
unfoldable pub with_copy :
    {W : Type 0} → (Block → Call W AtcResult) → Call W AtcResult → Option Block → Call W AtcResult
with_copy ok failed none = failed
with_copy ok failed (some block) = ok block

-- Where the caller waits for the answer: the variables for the result, the response and its length.
pub record SyncCall : Type 0 where
  pub send_result : Ptr
  pub response_buf : Ptr
  pub response_length : Ptr

-- The caller's part of a synchronous send behind the queue: wake the event loop, wait, and give the
-- semaphore back.
unfoldable pub await_answer : {W : Type 0} → Os W → Context → Ptr → Call W AtcResult
await_answer os c semaphore =
    semaphore_give os c.wake_semaphore
    >> semaphore_take os semaphore atc_timeout_max
    >> semaphore_delete os semaphore
    >> pure success

-- What the four functions set in a task alike: the data, the handler and the timeout.
abbrev pub with_data : Block → ℕ → ResponseHandler → ℕ → SendTask → SendTask
with_data payload length callback ms t = record t {
  payload = some payload;
  size = length;
  response_handler = callback;
  timeout_ms = ms;
  timestamp = 0;
}

abbrev pub with_sync : Ptr → SyncCall → SendTask → SendTask
with_sync semaphore call t = record t {
  semaphore = semaphore;
  sync_send_result = call.send_result;
  sync_response_buf = call.response_buf;
  sync_response_length = call.response_length;
}

abbrev pub with_prompt : Block → ℕ → ℕ → SendTask → SendTask
with_prompt prompt prompt_len recv_len t = record t {
  prompt = some prompt;
  prompt_len = prompt_len;
  need_recv_len = recv_len;
  status = prompt_match;
}

unfoldable pub send_sync_with :
    {W : Type 0} → Os W → Context → Block → ℕ → SyncCall → ℕ → Call W AtcResult
send_sync_with os c payload length call ms w =
    let (semaphore, w1) = semaphore_create os w in
    let task = with_sync semaphore call (with_data payload length sync_handler ms zero_task) in
    if semaphore == null
    then (error, (free os payload.addr w1).1)
    else (let (queued, w2) = send_task os c.send_queue task 1000 w1 in
        if queued
        then await_answer os c semaphore w2
        else (error, (semaphore_delete os semaphore (free os payload.addr w2).1).1))

-- Guards of `atc_send_sync`: no data, or a response buffer without a variable for its length.
unfoldable pub is_invalid_sync : ℕ → SyncCall → Bool
is_invalid_sync length call =
    length == 0 || (if call.response_buf == null then false else call.response_length == null)

-- `atc_send_sync`. The first argument says whether the interface has the four semaphore functions.
unfoldable pub atc_send_sync :
    {W : Type 0}
    → Os W
    → Bool
    → Option Context
    → Option (List ℕ)
    → ℕ
    → SyncCall
    → ℕ
    → Call W AtcResult
atc_send_sync os false context payload length call ms w = (error, w)
atc_send_sync os true none payload length call ms w = (error, w)
atc_send_sync os true (some c) none length call ms w = (error, w)
atc_send_sync os true (some c) (some bytes) length call ms w =
    let (copy, w1) = copy_bytes os bytes length w in
    if is_invalid_sync length call
    then (error, w)
    else with_copy (λ d. send_sync_with os c d length call (effective_timeout ms)) (λ v. (error, v))
        copy w1

unfoldable pub send_async_with :
    {W : Type 0} → Os W → Context → Block → ℕ → ResponseHandler → ℕ → Call W AtcResult
send_async_with os c payload length callback ms w =
    let (queued, w1) =
      send_task os c.send_queue (with_data payload length callback ms zero_task) 1000 w in
    if queued
    then (success, (semaphore_give os c.wake_semaphore w1).1)
    else (error, (free os payload.addr w1).1)

-- `atc_send_async`
unfoldable pub atc_send_async :
    {W : Type 0}
    → Os W
    → Option Context
    → Option (List ℕ)
    → ℕ
    → ResponseHandler
    → ℕ
    → Call W AtcResult
atc_send_async os none payload length callback ms w = (error, w)
atc_send_async os (some c) none length callback ms w = (error, w)
atc_send_async os (some c) (some bytes) length callback ms w =
    let (copy, w1) = copy_bytes os bytes length w in
    if length == 0
    then (error, w)
    else with_copy (λ d. send_async_with os c d length callback (effective_timeout ms))
        (λ v. (error, v)) copy w1
