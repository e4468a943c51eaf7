-- ===== src/Recv.antt =====
-- recv_data_handle.c: received bytes become lines, prompt matches and binary data.
pub mod Bytes
pub mod Arrival
pub mod Binary
pub mod Caller
pub mod Drain
pub mod Verdict
pub mod Known
pub mod Line
pub mod Overlong
pub mod Lines
pub mod Prompt
pub mod Prompted
pub mod Ready
pub mod Response
pub mod Answer
pub mod Exchange
pub mod Feed
pub mod Ring
pub mod Safety
pub mod Stream
pub mod Task
use atcortex.Base.{
  ℕ, zero, suc, ◌+◌, ◌-◌, ◌%◌, Bool, true, false, Option, none, some, List, [], ◌∷◌, ◌++◌, ◌||◌,
  ◌&&◌, not, take, drop, get_elem?, get_or, set, length, min, ltb, leb, ◌==◌, if◌then◌else◌,
}
use atcortex.Types.{
  Ptr, null, AtcResult, success, error, Block, ResponseHandler, no_handler, sync_handler,
  user_handler, SendTask, SendTaskStatus, line_recv, prompt_match, binary, atc_rx_line_max_size,
  atc_rx_response_max, atc_rx_buffer_size, atc_prompt_stack_max_depth,
}
use atcortex.Platform.{
  World, Os, Call, free, call_response_handler, semaphore_give, semaphore_give_isr, write_result,
  update, pure, ◌>>=◌, ◌>>◌,
}
use atcortex.SyncResponse.{sync_response_handler}
use atcortex.CString.{zeroed, strlen, strncmp_eq, strcmp_eq, strncat}
use atcortex.RingBuffer.{RingBuffer, ring_buffer_read, ring_buffer_write, ring_buffer_init}
use atcortex.Stack.{Stack, stack_create, stack_clear, stack_peek_at, stack_push_overwrite}
use atcortex.Context.{Context, State, Run, done, null_dereference, out_of_fuel, and_then}
use atcortex.Urc.{urc_line_handle}

-- `command_end_markers`: OK and ERROR
abbrev pub ok_marker : List ℕ
ok_marker = 79 ∷ 75 ∷ []

abbrev pub command_end_markers : List (List ℕ)
command_end_markers = ok_marker ∷ (69 ∷ 82 ∷ 82 ∷ 79 ∷ 82 ∷ []) ∷ []

unfoldable pub clear_response_buffer : Context → Context
clear_response_buffer c = record c { response = zeroed atc_rx_response_max; response_length = 0 }

unfoldable pub push_to_response_buffer : Context → List ℕ → ℕ → Context
push_to_response_buffer c line n =
    if ltb (c.response_length + n) atc_rx_response_max
    then record c { response = strncat c.response line n; response_length = c.response_length + n }
    else c

-- The call of `context->current_send_task->response_handler`, if there is one.
unfoldable pub respond : {W : Type 0} → Os W → SendTask → AtcResult → Context → Call W (Unit {0})
respond os t result c = elim t.response_handler [
  | no_handler ↦ pure tt
  | sync_handler ↦ sync_response_handler os t result c.response c.response_length
  | user_handler h ↦ call_response_handler os h result c.response c.response_length
]

unfoldable pub free_block : {W : Type 0} → Os W → Option Block → Call W (Unit {0})
free_block os none = pure tt
free_block os (some b) = free os b.addr

-- What stands in `command_end_handle` behind the test of `current_send_task`.
unfoldable pub reset_reception : Context → Context
reset_reception c =
    let c' = clear_response_buffer c in
    record c' { byte_stack = (stack_clear c'.byte_stack false).1 }

unfoldable pub end_task :
    {W : Type 0} → Os W → Ptr → SendTask → AtcResult → Context → Call W (Unit {0})
end_task os p t result c =
    respond os t result c >> free_block os t.payload >> free_block os t.prompt >> free os p

unfoldable pub command_end_handle : {W : Type 0} → Os W → AtcResult → Context → World W → State W
command_end_handle os result c w = elim c.current_send_task [
  | none ↦ (reset_reception c, w)
  | some (p, t) ↦
      (reset_reception (record c { current_send_task = none }), (end_task os p t result c w).1)
]

-- The loop of `normal_line_handle` over the markers: it ends at the first one that begins the line.
unfoldable pub match_markers :
    {W : Type 0} → Os W → List (List ℕ) → List ℕ → ℕ → Context → World W → State W
match_markers os [] line n c w = (c, w)
match_markers os (marker ∷ markers) line n c w =
    let rest = match_markers os markers line n c w in
    if leb (strlen marker) n && strncmp_eq line marker (strlen marker)
    then command_end_handle os (if strcmp_eq marker ok_marker then success else error) c w
    else rest

unfoldable pub normal_line_handle : {W : Type 0} → Os W → List ℕ → ℕ → Context → World W → State W
normal_line_handle os line n c w =
    match_markers os command_end_markers line n (push_to_response_buffer c line n) w

-- A line of at most two bytes is empty. (The line is never NULL: the only caller passes the buffer.)
unfoldable pub line_handle : {W : Type 0} → Os W → List ℕ → ℕ → Context → World W → Run (State W)
line_handle os line n c w =
    if leb n 2
    then done (c, w)
    else and_then (urc_line_handle os line c w)
        (λ (is_urc, w'). done (if is_urc then (c, w') else normal_line_handle os line n c w'))

-- The byte goes into the line buffer.
unfoldable pub put_line_byte : Context → ℕ → Context
put_line_byte c byte = record c {
  line_buffer = set c.line_buffer c.line_buffer_index byte;
  line_buffer_index = c.line_buffer_index + 1;
}

-- The 0 behind the line.
unfoldable pub end_line : Context → Context
end_line c = record c { line_buffer = set c.line_buffer c.line_buffer_index 0 }

unfoldable pub byte_line_handle : {W : Type 0} → Os W → ℕ → Context → World W → Run (State W)
byte_line_handle os byte c w =
    let c1 = put_line_byte c byte in
    let c2 = end_line c1 in
    if ltb c.line_buffer_index (atc_rx_line_max_size - 1)
    then (if byte == b'\n'
        then and_then (line_handle os c2.line_buffer c2.line_buffer_index c2 w)
            (λ (c3, w'). done (record c3 { line_buffer_index = 0 }, w'))
        else done (c1, w))
    else done (c, w)

unfoldable pub prompt_bytes : SendTask → List ℕ
prompt_bytes t = elim t.prompt [ none ↦ [] | some b ↦ b.bytes ]

-- The byte of the prompt that round `i` compares; `none` is a read through NULL or past the block.
unfoldable pub prompt_byte : SendTask → ℕ → Option ℕ
prompt_byte t i = get_elem? (prompt_bytes t) (t.prompt_len - 1 - i)

-- The test of round `i` of `byte_prompt_handle`. A byte 0 on the stack is a NULL pointer, and the
-- prompt is not read then.
unfoldable pub prompt_mismatch : SendTask → Option Stack → ℕ → Option Bool
prompt_mismatch t stack i =
    let stack_byte = stack_peek_at stack i in
    if stack_byte == null then some true else elim (prompt_byte t i) [
      | none ↦ none
      | some byte ↦ some (not (stack_byte % 256 == byte % 256))
    ]

-- The loop stops at a mismatch; the test itself can fail.
abbrev pub on_mismatch : {A : Type 0} → Option Bool → Run A → Run A → Run A
on_mismatch none stop next = null_dereference
on_mismatch (some true) stop next = stop
on_mismatch (some false) stop next = next

-- What `byte_prompt_handle` does in the round that completes the match.
unfoldable pub prompt_matched : {W : Type 0} → Os W → Ptr → SendTask → Context → World W → State W
prompt_matched os p t c w =
    let c1 = record c { byte_stack = (stack_clear c.byte_stack false).1 } in
    if t.need_recv_len == 0 then command_end_handle os success c1 w else (
      record (clear_response_buffer c1) {
        current_send_task = some (p, record t { status = binary });
      },
      w,
    )

-- The loop of `byte_prompt_handle`. Each test of its condition reads through `current_send_task`.
unfoldable pub prompt_loop : {W : Type 0} → Os W → ℕ → ℕ → Context → World W → Run (State W)
prompt_loop os zero i c w = out_of_fuel
prompt_loop os (suc fuel) i c w = elim c.current_send_task [
  | none ↦ null_dereference
  | some (p, t) ↦
      let next =
        let (c', w') = if i == t.prompt_len - 1 then prompt_matched os p t c w else (c, w) in
        prompt_loop os fuel (i + 1) c' w' in
      if ltb i t.prompt_len
      then on_mismatch (prompt_mismatch t c.byte_stack i) (done (c, w)) next
      else done (c, w)
]

-- The loop runs for at most `prompt_len` rounds and tests its condition once more.
unfoldable pub byte_prompt_handle : {W : Type 0} → Os W → ℕ → Context → World W → Run (State W)
byte_prompt_handle os byte c w =
    let c1 = record c { byte_stack = (stack_push_overwrite c.byte_stack byte false).2 } in
    elim c.current_send_task [
      | none ↦ null_dereference
      | some (p, t) ↦ prompt_loop os (t.prompt_len + 1) 0 c1 w
    ]

unfoldable pub byte_binary_handle : {W : Type 0} → Os W → ℕ → SendTask → Context → World W → State W
byte_binary_handle os byte t c w =
    if ltb c.response_length atc_rx_response_max
    then (let c1 = record c {
      response = set c.response c.response_length byte;
      response_length = c.response_length + 1;
    } in
        if leb t.need_recv_len c1.response_length
        then command_end_handle os success c1 w
        else (c1, w))
    else (c, w)

-- The body of the loop of `recv_data_handle`: the state of the current task says what a byte is.
unfoldable pub recv_for_status :
    {W : Type 0} → Os W → ℕ → SendTaskStatus → SendTask → Context → World W → Run (State W)
recv_for_status os byte line_recv t c w = byte_line_handle os byte c w
recv_for_status os byte prompt_match t c w = byte_prompt_handle os byte c w
recv_for_status os byte binary t c w = done (byte_binary_handle os byte t c w)

unfoldable pub recv_for :
    {W : Type 0} → Os W → ℕ → Option (Ptr × SendTask) → Context → World W → Run (State W)
recv_for os byte none c w = byte_line_handle os byte c w
recv_for os byte (some (p, t)) c w = recv_for_status os byte t.status t c w

unfoldable pub recv_byte : {W : Type 0} → Os W → ℕ → Context → World W → Run (State W)
recv_byte os byte c w = recv_for os byte c.current_send_task c w

unfoldable pub set_rx_buffer : Context → Option RingBuffer → Context
set_rx_buffer c none = c
set_rx_buffer c (some h) = record c { rx_buffer = h }

-- The loop of `recv_data_handle`.
unfoldable pub recv_loop : {W : Type 0} → Os W → ℕ → Context → World W → Run (State W)
recv_loop os zero c w = out_of_fuel
recv_loop os (suc fuel) c w =
    let (read, handle) = ring_buffer_read (some c.rx_buffer) true in
    let c' = set_rx_buffer c handle in
    elim read [
      | none ↦ done (c', w)
      | some byte ↦ and_then (recv_byte os byte c' w) (λ (c'', w'). recv_loop os fuel c'' w')
    ]

-- A ring of capacity `n` holds fewer than `n` bytes.
unfoldable pub recv_data_handle : {W : Type 0} → Os W → Context → World W → Run (State W)
recv_data_handle os c w = recv_loop os c.rx_buffer.capacity c w

-- The loop of `atc_receive_data`: the count, and whether every byte went in.
unfoldable pub receive_loop : List ℕ → ℕ → Context → (ℕ × Bool) × Context
receive_loop [] count c = ((count, true), c)
receive_loop (byte ∷ bytes) count c =
    let (ok, handle) = ring_buffer_write (some c.rx_buffer) byte in
    let c' = set_rx_buffer c handle in
    let rest = receive_loop bytes (count + 1) c' in if ok then rest else ((count, false), c')

-- `none` stands for a NULL context or NULL data.
unfoldable pub atc_receive_data :
    {W : Type 0} → Os W → Option Context → Option (List ℕ) → World W → ℕ × Option Context × World W
atc_receive_data os none bytes w = (0, none, w)
atc_receive_data os (some c) none w = (0, some c, w)
atc_receive_data os (some c) (some []) w = (0, some c, w)
atc_receive_data os (some c) (some (byte ∷ bytes)) w =
    let ((count, all), c') = receive_loop (byte ∷ bytes) 0 c in
    (count, some c', if all then (semaphore_give_isr os c'.wake_semaphore w).1 else w)

-- The end of `recv_data_init`: the stack that has been created, or NULL, goes into the context.
unfoldable pub init_stack : {W : Type 0} → Context → Option Stack → World W → AtcResult × State W
init_stack c none w = (error, (record c { byte_stack = none }, w))
init_stack c (some s) w = (success, (record c { byte_stack = some s }, w))

-- What follows `ring_buffer_init`, by its result.
unfoldable pub after_ring :
    {W : Type 0} → Os W → List Ptr → Bool → Context → World W → AtcResult × State W
after_ring os garbage false c w = (error, (c, w))
after_ring os garbage true c w =
    let (stack, w') = stack_create os garbage atc_prompt_stack_max_depth w in init_stack c stack w'

-- `rx_buffer_data` is the context's own array, and `garbage` what the new stack's array holds.
unfoldable pub recv_data_init :
    {W : Type 0} → Os W → List ℕ → List Ptr → Context → World W → AtcResult × State W
recv_data_init os rx_buffer_data garbage c w =
    let (ok, handle) =
      ring_buffer_init (some c.rx_buffer) (some rx_buffer_data) atc_rx_buffer_size in
    after_ring os garbage ok (set_rx_buffer c handle) w
