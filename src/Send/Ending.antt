-- ===== src/Send/Ending.antt =====
-- recv_data_handle.c: the blocks of a task at its end.
use atcortex.Base.{
  ℕ, ◌-◌, ◌≡◌, refl, ap, ◌∙◌, sym, subst, Option, none, some, List, [], ◌∷◌, ◌++◌, arith,
}
use atcortex.Types.{Ptr, AtcResult, Block, no_handler, sync_handler, user_handler, SendTask}
use atcortex.Platform.{World, Os, free, semaphore_give, call_response_handler}
use atcortex.Platform.Ledger as Ledger
use atcortex.Platform.Ledger.{blocks, remove, count, Same}
use atcortex.Context.{Context, State}
use atcortex.SyncResponse.{sync_response_handler, copy_response}
use atcortex.Recv.{respond, free_block, reset_reception, end_task, command_end_handle}
use atcortex.Recv.Prompt.{task-command_end_handle}

abbrev pub block_addr : Option Block → List Ptr
block_addr none = []
block_addr (some b) = b.addr ∷ []

-- The blocks that a task owns, the latest first.
abbrev pub task_blocks : SendTask → List Ptr
task_blocks t = block_addr t.prompt ++ block_addr t.payload

module _ {W : Type 0} (os : Os W) where
  -- Answering a task gives no block back, and takes none.
  blocks-sync_response_handler :
      (t : SendTask) (r : AtcResult) (bytes : List ℕ) (n : ℕ) (w : World W)
      → blocks (sync_response_handler os t r bytes n w).1.trace ≡ blocks w.trace
  unfolding sync_response_handler copy_response semaphore_give blocks
  blocks-sync_response_handler t r bytes n w = ground arith

  blocks-respond :
      (t : SendTask) (r : AtcResult) (c : Context) (w : World W)
      → blocks (respond os t r c w).1.trace ≡ blocks w.trace
  unfolding respond call_response_handler blocks sync_response_handler copy_response
  blocks-respond t r c w =
      elim t.response_handler
        as (λ h.
          blocks (respond os (record t { response_handler = h }) r c w).1.trace ≡ blocks w.trace) [
            | no_handler ↦ refl
            | sync_handler ↦ blocks-sync_response_handler t r c.response c.response_length w
            | user_handler h ↦ refl
          ]

  count-free :
      (x p : Ptr) (w : World W)
      → count x (blocks (free os p w).1.trace) ≡ count x (blocks w.trace) - count x (p ∷ [])
  count-free x p w =
      ap (count x) (Ledger.free_lem os p w) ∙ Ledger.count-remove x p (blocks w.trace)

  count-free_block :
      (x : Ptr) (o : Option Block) (w : World W)
      → count x (blocks (free_block os o w).1.trace)
        ≡ count x (blocks w.trace) - count x (block_addr o)
  unfolding free_block count
  count-free_block x none w = omega arith
  count-free_block x (some b) w = count-free x b.addr w

  -- Ending a task gives back its block, and the blocks that it owns.
  blocks-end_task :
      (p : Ptr) (t : SendTask) (r : AtcResult) (c : Context) (bs : List Ptr) (w : World W)
      → Same (blocks w.trace) (p ∷ (task_blocks t ++ bs))
      → Same (blocks (end_task os p t r c w).1.trace) bs
  unfolding end_task
  blocks-end_task p t r c bs w e x = omega (
    arith,
    count-free x p w3,
    count-free_block x t.prompt w2,
    count-free_block x t.payload w1,
    ap (count x) (blocks-respond t r c w),
    e x,
    Ledger.count-cons x p (task_blocks t ++ bs),
    Ledger.count-append x (task_blocks t) bs,
    Ledger.count-append x (block_addr t.prompt) (block_addr t.payload),
  )
    where
      w1 : World W
      w1 = (respond os t r c w).1

      w2 : World W
      w2 = (free_block os t.payload w1).1

      w3 : World W
      w3 = (free_block os t.prompt w2).1

  world-command_end_handle :
      (p : Ptr) (t : SendTask) (r : AtcResult) (c : Context) (w : World W)
      → c.current_send_task ≡ some (p, t)
      → (command_end_handle os r c w).1 ≡ (end_task os p t r c w).1
  unfolding command_end_handle
  world-command_end_handle p t r c w e =
      ap
        (λ o.
          (elim o as (λ x. State W) [
            | none ↦ (reset_reception c, w)
            | some (q, u) ↦
                (reset_reception (record c { current_send_task = none }), (end_task os q u r c w).1)
          ]).1)
        e

  -- Where the blocks outstanding are those of the current task and others, and however the task
  -- ends, the context has no task then. The block that holds it, its command and its prompt have
  -- been given back, and nothing else has been.
  pub command_end_handle-blocks :
      (p : Ptr) (t : SendTask) (r : AtcResult) (c : Context) (bs : List Ptr) (w : World W)
      → c.current_send_task ≡ some (p, t)
      → Same (blocks w.trace) (p ∷ (task_blocks t ++ bs))
      → ((command_end_handle os r c w).0.current_send_task ≡ none)
        × Same (blocks (command_end_handle os r c w).1.trace) bs
  command_end_handle-blocks p t r c bs w e s = (
    task-command_end_handle os r c w,
    subst (λ (v : World W). Same (blocks v.trace) bs) (sym (world-command_end_handle p t r c w e))
        (blocks-end_task p t r c bs w s),
  )
