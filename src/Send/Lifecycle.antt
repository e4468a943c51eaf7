-- ===== src/Send/Lifecycle.antt =====
-- send_msg_handle.c and `command_end_handle` of recv_data_handle.c: the blocks of a task on their way
-- from the queue through the event loop.
use atcortex.Base.{
  ℕ, ◌+◌, ◌≡◌, refl, ap, ◌∙◌, sym, Bool, true, false, Option, none, some, List, [], ◌∷◌, ◌++◌, ◌==◌,
  Bool-cases, inl, inr,
}
use atcortex.Types.{Ptr, null, AtcResult, success, error, timeout, hardware_error, SendTask}
use atcortex.Platform.{World, Os, malloc, send, get_tick_ms, recv_task}
use atcortex.Platform.Ledger as Ledger
use atcortex.Platform.Ledger.{blocks, remove, count, Same}
use atcortex.Context.{Context, State}
use atcortex.Send.Handle.{
  task_size, payload_bytes, after_send, send_received, receive_task, send_next, send_msg_handle,
}
use atcortex.Send.Ending.{task_blocks, command_end_handle-blocks}

-- What becomes of a task that has been taken from the queue, by whether there was no block for it, its
-- block, the time of sending and the result of sending. Without a block it is dropped: its own blocks
-- are lost, as nothing gives them back. One that is sent is the current one, and holds one more block.
-- One that the hardware refuses is ended, with all its blocks given back.
abbrev pub Taken :
    {W : Type 0} → SendTask → List Ptr → Bool → Ptr → ℕ → AtcResult → State W → Type 0
Taken t bs true p now r (c, w) =
    (c.current_send_task ≡ none) × Same (blocks w.trace) (task_blocks t ++ bs)
Taken t bs false p now success (c, w) =
    (c.current_send_task ≡ some (p, record t { timestamp = now }))
    × Same (blocks w.trace) (p ∷ (task_blocks t ++ bs))
Taken t bs false p now error (c, w) = (c.current_send_task ≡ none) × Same (blocks w.trace) bs
Taken t bs false p now timeout (c, w) = (c.current_send_task ≡ none) × Same (blocks w.trace) bs
Taken t bs false p now hardware_error (c, w) =
    (c.current_send_task ≡ none) × Same (blocks w.trace) bs

-- The answers that the platform gives in the world behind the look into the queue: the block, the time
-- then, and the result of sending the task's bytes then.
abbrev pub Sent : {W : Type 0} → Os W → SendTask → List Ptr → World W → State W → Type 0
Sent os t bs w s =
    let (p, w1) = malloc os task_size w in
    let (now, w2) = get_tick_ms os w1 in
    Taken t bs (p == null) p now (send os (payload_bytes t.payload) t.size w2).0 s

-- The blocks of what comes from the queue
abbrev pub queued_blocks : Option SendTask → List Ptr
queued_blocks none = []
queued_blocks (some t) = task_blocks t

-- What `send_msg_handle` does, by the current task and what comes from the queue; `w1` is the world
-- behind the look into the queue.
abbrev pub Handled :
    {W : Type 0}
    → Os W
    → List Ptr
    → Context
    → World W
    → World W
    → Option (Ptr × SendTask)
    → Option SendTask
    → State W
    → Type 0
Handled os bs c w w1 (some held) got s = s ≡ (c, w)
Handled os bs c w w1 none none s = s ≡ (c, w1)
Handled os bs c w w1 none (some t) s = Sent os t bs w1 s

module _ {W : Type 0} (os : Os W) where
  blocks-send :
      (bytes : List ℕ) (n : ℕ) (w : World W) → blocks (send os bytes n w).1.trace ≡ blocks w.trace
  unfolding send blocks
  blocks-send bytes n w = refl

  blocks-get_tick_ms : (w : World W) → blocks (get_tick_ms os w).1.trace ≡ blocks w.trace
  unfolding get_tick_ms
  blocks-get_tick_ms w = refl

  blocks-recv_task :
      (q ms : ℕ) (w : World W) → blocks (recv_task os q ms w).1.trace ≡ blocks w.trace
  unfolding recv_task
  blocks-recv_task q ms w = refl

  after_send-Taken :
      (r : AtcResult) (p now : ℕ) (t : SendTask) (c : Context) (bs : List Ptr) (w : World W)
      → c.current_send_task ≡ some (p, record t { timestamp = now })
      → Same (blocks w.trace) (p ∷ (task_blocks t ++ bs))
      → Taken t bs false p now r (after_send os r c w)
  unfolding after_send
  after_send-Taken success p now t c bs w e s = (e, s)
  after_send-Taken error p now t c bs w e s =
      command_end_handle-blocks os p (record t { timestamp = now }) hardware_error c bs w e s
  after_send-Taken timeout p now t c bs w e s =
      command_end_handle-blocks os p (record t { timestamp = now }) hardware_error c bs w e s
  after_send-Taken hardware_error p now t c bs w e s =
      command_end_handle-blocks os p (record t { timestamp = now }) hardware_error c bs w e s

  send_received-Sent :
      (t : SendTask) (c : Context) (bs : List Ptr) (w : World W)
      → Same (blocks w.trace) (task_blocks t ++ bs)
      → Sent os t bs w (send_received os t c w)
  unfolding send_received
  send_received-Sent t c bs w e = elim (Bool-cases ((malloc os task_size w).0 == null)) [
    | inl no_block ↦
        rw no_block (refl, λ x. ap (count x) (Ledger.malloc_failed os task_size w no_block) ∙ e x)
    | inr got ↦ rw got (
        after_send-Taken (send os (payload_bytes t.payload) t.size w2).0 (malloc os task_size w).0
          (get_tick_ms os w1).0 t _ bs (send os (payload_bytes t.payload) t.size w2).1 refl
          (held got))
  ]
    where
      w1 : World W
      w1 = (malloc os task_size w).1

      w2 : World W
      w2 = (get_tick_ms os w1).1

      held :
          ((malloc os task_size w).0 == null) ≡ false
          → Same
              (blocks (send os (payload_bytes t.payload) t.size w2).1.trace)
              ((malloc os task_size w).0 ∷ (task_blocks t ++ bs))
      held got x =
          ap (count x) (
            blocks-send (payload_bytes t.payload) t.size w2
            ∙ (blocks-get_tick_ms w1 ∙ Ledger.malloc_done os task_size w got))
          ∙ (Ledger.count-cons x (malloc os task_size w).0 (blocks w.trace)
              ∙ (ap (λ n. count x ((malloc os task_size w).0 ∷ []) + n) (e x)
                  ∙ sym (Ledger.count-cons x (malloc os task_size w).0 (task_blocks t ++ bs))))

  send_next-Handled :
      (held : Option (Ptr × SendTask)) (c : Context) (bs : List Ptr) (w : World W)
      → Same (blocks w.trace) (queued_blocks (recv_task os c.send_queue 0 w).0 ++ bs)
      → Handled os bs c w
          (recv_task os c.send_queue 0 w).1
          held
          (recv_task os c.send_queue 0 w).0
          (send_next os held c w)
  unfolding send_next receive_task
  send_next-Handled (some held) c bs w e = refl
  send_next-Handled none c bs w e = received (recv_task os c.send_queue 0 w).0 e
    where
      w1 : World W
      w1 = (recv_task os c.send_queue 0 w).1

      received :
          (got : Option SendTask)
          → Same (blocks w.trace) (queued_blocks got ++ bs)
          → Handled os bs c w w1 none got (receive_task os got c w1)
      received none s = refl
      received (some t) s =
          send_received-Sent t c bs w1 (λ x. ap (count x) (blocks-recv_task c.send_queue 0 w) ∙ s x)

  -- Where the blocks outstanding are those of the task that comes from the queue and others, an
  -- event loop that has no task takes that task. If the allocator gives no block for it, it is
  -- dropped without giving its blocks back. Otherwise, if sending succeeds, it is the current one
  -- in that block, which is one block more, with the time of sending; and if sending does not
  -- succeed, there is no current task and every block of it has been given back. A loop that has
  -- a task, or finds none in the queue, stays as it is.
  pub send_msg_handle_lem :
      (c : Context) (bs : List Ptr) (w : World W)
      → Same (blocks w.trace) (queued_blocks (recv_task os c.send_queue 0 w).0 ++ bs)
      → Handled os bs c w
          (recv_task os c.send_queue 0 w).1
          c.current_send_task
          (recv_task os c.send_queue 0 w).0
          (send_msg_handle os c w)
  unfolding send_msg_handle
  send_msg_handle_lem c bs w e = send_next-Handled c.current_send_task c bs w e
