-- ===== src/Tests.antt =====
-- Runs of the theorems at concrete inputs, with a platform whose allocator counts up.
pub mod Loop
pub mod Answers
pub mod Buffers
pub mod Handlers
pub mod Lists
pub mod Messages
pub mod Reception
pub mod Rounds
use atcortex.Base.{ℕ, ◌+◌, Option, none, some, List, [], ◌∷◌, true, false}
use atcortex.Types.{Ptr, null, success, Block, SendTask, no_handler, line_recv, prompt_match}
use atcortex.Platform.{Os, World, Memory}
use atcortex.CString.{zeroed}
use atcortex.RingBuffer.{RingBuffer}
use atcortex.Stack.{Stack}
use atcortex.Context.{Context, UrcList}

abbrev pub memory : Memory
memory = record { results = λ p. success; ids = λ p. none; lengths = λ p. 0; buffers = λ p. [] }

-- A task with a one-byte command that waits for the prompt `>`
abbrev pub prompt_task : SendTask
prompt_task = record {
  payload = some (record { addr = 1; bytes = 65 ∷ [] });
  size = 1;
  response_handler = no_handler;
  timeout_ms = 100;
  timestamp = 0xfffffff0;
  semaphore = null;
  sync_send_result = null;
  sync_response_buf = null;
  sync_response_length = null;
  prompt = some (record { addr = 2; bytes = 62 ∷ [] });
  prompt_len = 1;
  need_recv_len = 4;
  status = prompt_match;
}

-- The state is the last address given out, the clock shows 84, and the queue of tasks always has one.
abbrev pub test_os : Os ℕ
test_os = record {
  os_malloc = λ n s. (s + 1, s + 1);
  os_free = λ p s. s;
  os_queue_create = λ n s. (s + 1, s + 1);
  os_send_task = λ q t ms s. (true, s);
  os_recv_task = λ q ms s. (some prompt_task, s);
  os_send_msg = λ q m ms s. (true, s);
  os_recv_msg = λ q ms s. (none, s);
  os_send = λ bytes n s. (success, s);
  os_semaphore_create = λ s. (s + 1, s + 1);
  os_semaphore_take = λ p ms m s. (m, s);
  os_semaphore_give = λ p s. s;
  os_semaphore_give_isr = λ p s. s;
  os_semaphore_delete = λ p s. s;
  os_get_tick_ms = λ s. (84, s);
  os_response_handler = λ h r bytes n s. s;
  os_urc_handler = λ h line s. s;
}

abbrev pub world : World ℕ
world = record { system = 10; trace = []; memory = memory }

-- Two bytes, of which the second has gone round the end of the storage
abbrev pub ring : RingBuffer
ring = record {
  buffer = some (66 ∷ 0 ∷ 0 ∷ 65 ∷ []);
  capacity = 4;
  read_index = 3;
  write_index = 1;
}

-- An empty prompt stack
abbrev pub stack : Stack
stack = record {
  block = 3;
  cells = 4;
  items = 0 ∷ 0 ∷ 0 ∷ 0 ∷ 0 ∷ 0 ∷ 0 ∷ 0 ∷ 0 ∷ 0 ∷ 0 ∷ 0 ∷ 0 ∷ 0 ∷ 0 ∷ 0 ∷ 0 ∷ 0 ∷ 0 ∷ 0 ∷ [];
  capacity = 20;
  top = 0;
}

abbrev pub urc_list : UrcList
urc_list = record {
  block = 5;
  nodes =
      record { node = 6; item = 7; entry = record { id = 1; prefix = 43 ∷ []; handler = 9 } } ∷ [];
}

abbrev pub context : Context
context = record {
  rx_buffer = ring;
  external_api_queue = 11;
  send_queue = 12;
  urc_handler_list = some urc_list;
  urc_next_id = 1;
  current_send_task = some (13, prompt_task);
  line_buffer = zeroed 256;
  line_buffer_index = 0;
  response = zeroed 512;
  response_length = 0;
  byte_stack = some stack;
  wake_semaphore = 14;
}

-- The context between two tasks
abbrev pub idle : Context
idle = record context { current_send_task = none }
