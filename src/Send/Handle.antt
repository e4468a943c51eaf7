-- ===== src/Send/Handle.antt =====
-- send_msg_handle.c: the step of the event loop that takes the next task and sends its command.
use atcortex.Base.{ℕ, Option, none, some, List, [], ◌==◌, if◌then◌else◌}
use atcortex.Types.{Ptr, null, AtcResult, success, error, timeout, hardware_error, Block, SendTask}
use atcortex.Platform.{World, Os, malloc, queue_create, recv_task, send, get_tick_ms}
use atcortex.Context.{Context, State}
use atcortex.Recv.{clear_response_buffer, command_end_handle}

-- The size of a task's block: it matters to the allocator only.
abbrev pub task_size : ℕ
task_size = 104

-- What is sent of a payload
unfoldable pub payload_bytes : Option Block → List ℕ
payload_bytes none = []
payload_bytes (some b) = b.bytes

-- The queue holds 6 tasks.
unfoldable pub send_msg_queue_init : {W : Type 0} → Os W → Context → World W → AtcResult × State W
send_msg_queue_init os c w =
    let (q, w1) = queue_create os 6 w in
    (if q == null then error else success, (record c { send_queue = q }, w1))

-- What follows the call of `atc_send`: a task that the hardware refuses is ended.
unfoldable pub after_send : {W : Type 0} → Os W → AtcResult → Context → World W → State W
after_send os success c w = (c, w)
after_send os error c w = command_end_handle os hardware_error c w
after_send os timeout c w = command_end_handle os hardware_error c w
after_send os hardware_error c w = command_end_handle os hardware_error c w

-- What `send_msg_handle` does with a task that it has received.
unfoldable pub send_received : {W : Type 0} → Os W → SendTask → Context → World W → State W
send_received os rtask c w =
    let (p, w1) = malloc os task_size w in
    let c2 = clear_response_buffer c in
    let (now, w2) = get_tick_ms os w1 in
    let task = record rtask { timestamp = now } in
    let (send_ret, w3) = send os (payload_bytes task.payload) task.size w2 in
    if p == null
    then (record c { current_send_task = none }, w1)
    else after_send os send_ret (record c2 { current_send_task = some (p, task) }) w3

unfoldable pub receive_task : {W : Type 0} → Os W → Option SendTask → Context → World W → State W
receive_task os none c w = (c, w)
receive_task os (some rtask) c w = send_received os rtask c w

-- The test of `current_send_task` at the start of `send_msg_handle`
unfoldable pub send_next :
    {W : Type 0} → Os W → Option (Ptr × SendTask) → Context → World W → State W
send_next os (some t) c w = (c, w)
send_next os none c w =
    let (rtask, w1) = recv_task os c.send_queue 0 w in receive_task os rtask c w1

-- `send_msg_handle`, but for the debug output
unfoldable pub send_msg_handle : {W : Type 0} → Os W → Context → World W → State W
send_msg_handle os c w = send_next os c.current_send_task c w
