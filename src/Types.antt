-- ===== src/Types.antt =====
-- The shared types of include/ATCortex.h, send_msg_handle.h, urc_handle.h and extern_msg_handle.c.
-- An address is a number, and NULL is 0. `size_t` and `uint32_t` values are numbers; where the code
-- computes with them and they can wrap, the function that computes writes the wrap out.
use atcortex.Base.{ℕ, Option, List}

abbrev pub Ptr : Type 0
Ptr = ℕ

abbrev pub null : Ptr
null = 0

-- `enum atc_result`
pub data AtcResult : Type 0 where
  success error timeout hardware_error : AtcResult

abbrev pub atc_rx_buffer_size : ℕ
atc_rx_buffer_size = 256

abbrev pub atc_rx_line_max_size : ℕ
atc_rx_line_max_size = 256

abbrev pub atc_rx_response_max : ℕ
atc_rx_response_max = 512

abbrev pub atc_prompt_stack_max_depth : ℕ
atc_prompt_stack_max_depth = 20

-- `ATC_TIMEOUT_MAX`: wait for ever
abbrev pub atc_timeout_max : ℕ
atc_timeout_max = 0xffffffff

-- A block from `atc_malloc` that one owner holds, with what was copied into it.
pub record Block : Type 0 where
  pub addr : Ptr
  pub bytes : List ℕ

-- What `atc_cmd_response_handler_t` can point to: NULL, the library's own handler, or a handler of
-- the user's.
pub data ResponseHandler : Type 0 where
  no_handler sync_handler : ResponseHandler
  user_handler : ℕ → ResponseHandler

-- `enum send_task_status`
pub data SendTaskStatus : Type 0 where
  line_recv prompt_match binary : SendTaskStatus

-- `struct send_task`; the field `data` is `payload` here.
pub record SendTask : Type 0 where
  pub payload : Option Block
  pub size : ℕ
  pub response_handler : ResponseHandler
  pub timeout_ms : ℕ
  pub timestamp : ℕ
  pub semaphore : Ptr
  pub sync_send_result : Ptr
  pub sync_response_buf : Ptr
  pub sync_response_length : Ptr
  pub prompt : Option Block
  pub prompt_len : ℕ
  pub need_recv_len : ℕ
  pub status : SendTaskStatus

-- `struct urc_handler_entry`: the prefix is the `char` array up to its end, the handler a function
-- pointer, by its address.
pub record UrcHandlerEntry : Type 0 where
  pub id : ℕ
  pub prefix : List ℕ
  pub handler : Ptr

-- `struct msg` with its `data`: the payload is the block that `free_fn` gives back, and the pointer
-- is that of the caller's variable for the answer.
pub data MsgBody : Type 0 where
  urc_register : (entry : UrcHandlerEntry) (out_id : Ptr) → MsgBody
  urc_unregister : (id : ℕ) (out_result : Ptr) → MsgBody

pub record Msg : Type 0 where
  pub addr : Ptr
  pub body : MsgBody
  pub semaphore : Ptr
