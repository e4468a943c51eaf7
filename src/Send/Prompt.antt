-- ===== src/Send/Prompt.antt =====
-- send_msg_handle.c: the two sending functions for commands that are answered by a prompt and binary data.
use atcortex.Base.{ℕ, Bool, true, false, Option, none, some, List, [], ◌==◌, ◌||◌, if◌then◌else◌}
use atcortex.Types.{
  Ptr, null, AtcResult, success, error, Block, ResponseHandler, sync_handler, SendTask,
}
use atcortex.Platform.{
  Os, Call, free, semaphore_create, semaphore_give, semaphore_delete, send_task,
}
use atcortex.Context.{Context}
use atcortex.Send.{
  zero_task, effective_timeout, copy_bytes, with_copy, SyncCall, await_answer, with_data, with_sync,
  with_prompt,
}

unfoldable pub is_none : Option (List ℕ) → Bool
is_none none = true
is_none (some bytes) = false

-- The bytes of a prompt that is not NULL
unfoldable pub bytes_of : Option (List ℕ) → List ℕ
bytes_of none = []
bytes_of (some bytes) = bytes

-- The prompt, its length, and the number of bytes to receive behind it.
pub record PromptCall : Type 0 where
  pub prompt_bytes : Option (List ℕ)
  pub prompt_len : ℕ
  pub recv_len : ℕ

unfoldable pub send_prompt_async_queue :
    {W : Type 0} → Os W → Context → Block → Block → SendTask → Call W AtcResult
send_prompt_async_queue os c payload prompt task w =
    let (queued, w1) = send_task os c.send_queue task 1000 w in
    if queued
    then (success, (semaphore_give os c.wake_semaphore w1).1)
    else (error, (free os prompt.addr (free os payload.addr w1).1).1)

unfoldable pub send_prompt_async_with :
    {W : Type 0} → Os W → Context → Block → ℕ → PromptCall → ResponseHandler → ℕ → Call W AtcResult
send_prompt_async_with os c payload data_len p callback ms w =
    let (prompt, w1) = copy_bytes os (bytes_of p.prompt_bytes) p.prompt_len w in
    with_copy
      (λ block. send_prompt_async_queue os c payload block (
        with_prompt block p.prompt_len p.recv_len
          (with_data payload data_len callback ms zero_task)))
      (λ v. (error, (free os payload.addr v).1)) prompt w1

-- `atc_send_with_prompt_binary_rx_async`
unfoldable pub atc_send_with_prompt_binary_rx_async :
    {W : Type 0}
    → Os W
    → Option Context
    → Option (List ℕ)
    → ℕ
    → PromptCall
    → ResponseHandler
    → ℕ
    → Call W AtcResult
atc_send_with_prompt_binary_rx_async os none payload data_len p h ms w = (error, w)
atc_send_with_prompt_binary_rx_async os (some c) none data_len p h ms w = (error, w)
atc_send_with_prompt_binary_rx_async os (some c) (some bytes) data_len p h ms w =
    let (copy, w1) = copy_bytes os bytes data_len w in
    if data_len == 0 || (is_none p.prompt_bytes || p.prompt_len == 0)
    then (error, w)
    else with_copy (λ d. send_prompt_async_with os c d data_len p h (effective_timeout ms))
        (λ v. (error, v)) copy w1

unfoldable pub send_prompt_sync_queue :
    {W : Type 0} → Os W → Context → Block → Block → Ptr → SendTask → Call W AtcResult
send_prompt_sync_queue os c payload prompt semaphore task w =
    let (queued, w1) = send_task os c.send_queue task 1000 w in
    if queued then await_answer os c semaphore w1 else (
      error,
      (semaphore_delete os semaphore (free os prompt.addr (free os payload.addr w1).1).1).1,
    )

unfoldable pub send_prompt_sync_with :
    {W : Type 0} → Os W → Context → Block → ℕ → PromptCall → SyncCall → Ptr → ℕ → Call W AtcResult
send_prompt_sync_with os c payload data_len p call semaphore ms w =
    let (prompt, w1) = copy_bytes os (bytes_of p.prompt_bytes) p.prompt_len w in
    with_copy
      (λ block. send_prompt_sync_queue os c payload block semaphore (
        with_prompt block p.prompt_len p.recv_len
          (with_sync semaphore call (with_data payload data_len sync_handler ms zero_task))))
      (λ v. (error, (semaphore_delete os semaphore (free os payload.addr v).1).1)) prompt w1

unfoldable pub send_prompt_sync_semaphore :
    {W : Type 0} → Os W → Context → Block → ℕ → PromptCall → SyncCall → ℕ → Call W AtcResult
send_prompt_sync_semaphore os c payload data_len p call ms w =
    let (semaphore, w1) = semaphore_create os w in
    if semaphore == null
    then (error, (free os payload.addr w1).1)
    else send_prompt_sync_with os c payload data_len p call semaphore ms w1

-- `atc_send_with_prompt_binary_rx_sync`
unfoldable pub atc_send_with_prompt_binary_rx_sync :
    {W : Type 0}
    → Os W
    → Option Context
    → Option (List ℕ)
    → ℕ
    → PromptCall
    → SyncCall
    → ℕ
    → Call W AtcResult
atc_send_with_prompt_binary_rx_sync os none payload data_len p h ms w = (error, w)
atc_send_with_prompt_binary_rx_sync os (some c) none data_len p h ms w = (error, w)
atc_send_with_prompt_binary_rx_sync os (some c) (some bytes) data_len p h ms w =
    let (copy, w1) = copy_bytes os bytes data_len w in
    if data_len == 0 || (is_none p.prompt_bytes || p.prompt_len == 0)
    then (error, w)
    else with_copy (λ d. send_prompt_sync_semaphore os c d data_len p h (effective_timeout ms))
        (λ v. (error, v)) copy w1
