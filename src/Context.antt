-- ===== src/Context.antt =====
-- `struct atc_context` of include/ATCortex.h, and the outcome of code that can dereference NULL.
use atcortex.Base.{ℕ, Option, List}
use atcortex.Types.{Ptr, SendTask, UrcHandlerEntry}
use atcortex.RingBuffer.{RingBuffer}
use atcortex.Stack.{Stack}
use atcortex.Platform.{World}

-- A node of the list of URC handlers: its address, the address of its data, and the entry there.
pub record UrcNode : Type 0 where
  pub node : Ptr
  pub item : Ptr
  pub entry : UrcHandlerEntry

-- `slist_t` of such nodes, with the address of its block.
pub record UrcList : Type 0 where
  pub block : Ptr
  pub nodes : List UrcNode

-- `rx_buffer_data` is the storage in `rx_buffer`. The current task stands with the address of its
-- block.
pub record Context : Type 0 where
  pub rx_buffer : RingBuffer
  pub external_api_queue : Ptr
  pub send_queue : Ptr
  pub urc_handler_list : Option UrcList
  pub urc_next_id : ℕ
  pub current_send_task : Option (Ptr × SendTask)
  pub line_buffer : List ℕ
  pub line_buffer_index : ℕ
  pub response : List ℕ
  pub response_length : ℕ
  pub byte_stack : Option Stack
  pub wake_semaphore : Ptr

-- The context and the world behind a step of the event loop.
abbrev pub State : Type 0 → Type 0
State W = Context × World W

-- How a piece of the event loop ends.
pub data Run (A : Type 0) : Type 0 where
  done : A → Run A
  null_dereference : Run A
  out_of_fuel : Run A

abbrev pub and_then : {A B : Type 0} → Run A → (A → Run B) → Run B
and_then (done a) f = f a
and_then null_dereference f = null_dereference
and_then out_of_fuel f = out_of_fuel
