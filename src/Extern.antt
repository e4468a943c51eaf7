-- ===== src/Extern.antt =====
-- extern_msg_handle.c: registering and unregistering URC handlers from other threads, through a
-- queue of messages, and the step of the event loop that works the queue off.
pub mod Answer
pub mod Waiting
use atcortex.Base.{
  ℕ, zero, suc, ◌-◌, Bool, true, false, Option, none, some, List, take, leb, ◌==◌, ◌||◌,
  if◌then◌else◌,
}
use atcortex.Types.{
  Ptr, null, AtcResult, success, error, atc_timeout_max, UrcHandlerEntry, MsgBody, urc_register,
  urc_unregister, Msg,
}
use atcortex.Platform.{
  World, Os, Call, malloc, free, semaphore_create, semaphore_take, semaphore_give, semaphore_delete,
  queue_create, send_msg, recv_msg, write_result, write_id, pure, ◌>>◌,
}
use atcortex.CString.{strlen}
use atcortex.Context.{Context, State, Run, done, out_of_fuel, and_then}
use atcortex.Urc.{atc_urc_register_entry, atc_urc_unregister_id}

-- The size of `prefix` in `struct urc_handler_entry`
abbrev pub prefix_size : ℕ
prefix_size = 32

-- `snprintf(prefix, 32, "%s", s)`: what is stored of the string, up to its end.
abbrev pub stored_prefix : List ℕ → List ℕ
stored_prefix s = take (prefix_size - 1) (take (strlen s) s)

-- The caller's part behind the queue: wake the event loop, wait, and give the semaphore back.
unfoldable pub await_reply : {W : Type 0} → Os W → Context → Ptr → Call W (Unit {0})
await_reply os c semaphore =
    semaphore_give os c.wake_semaphore
    >> semaphore_take os semaphore atc_timeout_max
    >> semaphore_delete os semaphore

-- Both functions put their message, whose block is `block`, into the queue, and wait for the answer.
-- The result says whether the message was queued.
unfoldable pub queue_and_wait : {W : Type 0} → Os W → Context → Ptr → MsgBody → Call W Bool
queue_and_wait os c block body w =
    let (semaphore, w1) = semaphore_create os w in
    let msg : Msg = record { addr = block; body = body; semaphore = semaphore } in
    let (queued, w2) = send_msg os c.external_api_queue msg 1000 w1 in
    if semaphore == null
    then (false, (free os block w1).1)
    else (if queued
        then (true, (await_reply os c semaphore w2).1)
        else (false, (semaphore_delete os semaphore (free os block w2).1).1))

unfoldable pub register_prefix :
    {W : Type 0} → Os W → Context → Ptr → List ℕ → Ptr → Call W (Option ℕ)
register_prefix os c out_id prefix handler w =
    let (block, w1) = malloc os 64 w in
    let entry : UrcHandlerEntry = record {
      id = 0;
      prefix = stored_prefix prefix;
      handler = handler;
    } in
    let (queued, w2) =
      queue_and_wait os c block (urc_register entry out_id) (write_id out_id none w1).1 in
    if block == null
    then (none, w1)
    else (if leb prefix_size (strlen prefix)
        then (none, (free os block w1).1)
        else (if queued then w2.memory.ids out_id else none, w2))

-- `atc_urc_register`; `none` is the result -1. `out_id` is the address of its variable `assigned_id`,
-- and the second argument says whether the interface has the four semaphore functions.
unfoldable pub atc_urc_register :
    {W : Type 0} → Os W → Bool → Ptr → Option Context → Option (List ℕ) → Ptr → Call W (Option ℕ)
atc_urc_register os semaphores out_id none prefix handler w = (none, w)
atc_urc_register os semaphores out_id (some c) none handler w = (none, w)
atc_urc_register os semaphores out_id (some c) (some prefix) handler w =
    let registered = register_prefix os c out_id prefix handler w in
    if handler == null || strlen prefix == 0
    then (none, w)
    else (if semaphores then registered else (none, w))

unfoldable pub unregister_id : {W : Type 0} → Os W → Context → Ptr → ℕ → Call W AtcResult
unregister_id os c out_result id w =
    let (block, w1) = malloc os 16 w in
    let (queued, w2) =
      queue_and_wait os c block (urc_unregister id out_result)
        (write_result out_result error w1).1 in
    if block == null
    then (error, w1)
    else (if queued then w2.memory.results out_result else error, w2)

-- `atc_urc_unregister`, for an identifier that is not negative. `out_result` is the address of its
-- variable `result`.
unfoldable pub atc_urc_unregister :
    {W : Type 0} → Os W → Bool → Ptr → Option Context → ℕ → Call W AtcResult
atc_urc_unregister os semaphores out_result none id w = (error, w)
atc_urc_unregister os semaphores out_result (some c) id w =
    let unregistered = unregister_id os c out_result id w in
    if id == 0 then (error, w) else (if semaphores then unregistered else (error, w))

-- The queue holds 5 messages.
unfoldable pub extern_msg_queue_init : {W : Type 0} → Os W → Context → World W → AtcResult × State W
extern_msg_queue_init os c w =
    let (q, w1) = queue_create os 5 w in
    (if q == null then error else success, (record c { external_api_queue = q }, w1))

-- `if(m->out_id) *m->out_id = assigned_id`
unfoldable pub answer_id : {W : Type 0} → Ptr → Option ℕ → Call W (Unit {0})
answer_id p id = if p == null then pure tt else write_id p id

unfoldable pub answer_result : {W : Type 0} → Ptr → AtcResult → Call W (Unit {0})
answer_result p r = if p == null then pure tt else write_result p r

unfoldable pub answer_register : {W : Type 0} → Ptr → Option ℕ × State W → Run (State W)
answer_register out_id (id, (c, w)) = done (c, (answer_id out_id id w).1)

-- The two cases of the `switch` of `extern_msg_handle`, for data that is there
unfoldable pub dispatch_body : {W : Type 0} → Os W → MsgBody → Context → World W → Run (State W)
dispatch_body os (urc_register entry out_id) c w =
    and_then (atc_urc_register_entry os entry c w) (answer_register out_id)
dispatch_body os (urc_unregister id out_result) c w =
    let (r, (c1, w1)) = atc_urc_unregister_id os id c w in
    done (c1, (answer_result out_result r w1).1)

-- The `switch`: a message without data is not carried out.
unfoldable pub dispatch : {W : Type 0} → Os W → Msg → Context → World W → Run (State W)
dispatch os m c w = if m.addr == null then done (c, w) else dispatch_body os m.body c w

-- What follows the `switch`: the waiting caller is woken, then the message's block is freed.
unfoldable pub finish_msg : {W : Type 0} → Os W → Msg → State W → State W
finish_msg os m (c, w) = (
  c,
  (((if m.semaphore == null then pure tt else semaphore_give os m.semaphore)
        >> (if m.addr == null then pure tt else free os m.addr))
      w).1,
)

unfoldable pub handle_msg : {W : Type 0} → Os W → Msg → Context → World W → Run (State W)
handle_msg os m c w = and_then (dispatch os m c w) (λ s. done (finish_msg os m s))

-- `extern_msg_handle`, with fuel for its loop: as long as a message comes, it is handled.
unfoldable pub extern_msg_handle : {W : Type 0} → Os W → ℕ → Context → World W → Run (State W)
extern_msg_handle os zero c w = out_of_fuel
extern_msg_handle os (suc fuel) c w =
    let (rmsg, w1) = recv_msg os c.external_api_queue 0 w in
    elim rmsg [
      | none ↦ done (c, w1)
      | some m ↦ and_then (handle_msg os m c w1) (λ s. extern_msg_handle os fuel s.0 s.1)
    ]
