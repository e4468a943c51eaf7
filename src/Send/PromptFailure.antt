-- ===== src/Send/PromptFailure.antt =====
-- send_msg_handle.c: what the two sending functions with a prompt leave behind.
use atcortex.Base.{
  Bool, ℕ, ◌≡◌, refl, ap, ◌∙◌, true, false, Option, none, some, List, [], ◌∷◌, ◌==◌, ◌||◌,
  Bool-cases, inl, inr,
}
use atcortex.Types.{Ptr, null, error, Block, SendTask}
use atcortex.Platform.{Event, queued_task, World, Os, free, semaphore_create, send_task}
use atcortex.Platform.Refusal.{no_semaphore, no_task}
use atcortex.Platform.Ledger as Ledger
use atcortex.Platform.Ledger.{blocks, semaphores, handed, remove}
use atcortex.Context.{Context}
use atcortex.Send.Ending.{task_blocks}
use atcortex.Send.{SyncCall, effective_timeout}
use atcortex.Send.Prompt.{
  PromptCall, is_none, bytes_of, send_prompt_sync_queue, send_prompt_sync_with,
  send_prompt_sync_semaphore, atc_send_with_prompt_binary_rx_sync,
}
use atcortex.Send.Failure.{
  is_missing, Leaves, LeavesSome, either, freed_newest, freed_two, deleted_newest,
  blocks-await_answer, semaphores-await_answer, handed-await_answer, await_answer-success,
}

-- What the two functions do not allow
abbrev pub is_invalid_prompt : Option Context → Option (List ℕ) → ℕ → PromptCall → Bool
is_invalid_prompt c bytes n p =
    is_missing c || (is_missing bytes || (n == 0 || (is_none p.prompt_bytes || p.prompt_len == 0)))

module _ {W : Type 0} (os : Os W) where
  prompt_sync_queue :
      (invalid : Bool) (c : Context) (d b : Block) (s : Ptr) (t : SendTask) (bs ss : List Ptr)
      (hs : List Event) (w : World W)
      → blocks w.trace ≡ b.addr ∷ d.addr ∷ bs
      → semaphores w.trace ≡ s ∷ ss
      → handed w.trace ≡ hs
      → task_blocks t ≡ b.addr ∷ d.addr ∷ []
      → Leaves os invalid bs ss hs (b.addr ∷ d.addr ∷ []) (send_prompt_sync_queue os c d b s t w)
  unfolding send_prompt_sync_queue
  prompt_sync_queue invalid c d b s t bs ss hs w e f g own =
      elim (Bool-cases (send_task os c.send_queue t 1000 w).0) [
        | inl queued ↦ rw queued (
            inl (
              await_answer-success os c s w1,
              blocks-await_answer os c s w1 ∙ bs1,
              semaphores-await_answer os c s ss w1 ss1,
              t,
              handed-await_answer os c s w1 ∙ hs1 queued,
              own,
            ))
        | inr full ↦ rw full (
            inr (
              refl,
              Ledger.blocks-semaphore_delete os s w2 ∙ freed_two os b.addr d.addr bs w1 bs1,
              deleted_newest os s ss w2 (
                  Ledger.semaphores-free os b.addr (free os d.addr w1).1
                  ∙ (Ledger.semaphores-free os d.addr w1 ∙ ss1)),
              Ledger.handed-semaphore_delete os s w2
                  ∙ Ledger.handed-free os b.addr (free os d.addr w1).1
                  ∙ Ledger.handed-free os d.addr w1
                  ∙ hs2 full,
              inr (no_task c.send_queue t 1000 w full),
            ))
      ]
    where
      w1 : World W
      w1 = (send_task os c.send_queue t 1000 w).1

      w2 : World W
      w2 = (free os b.addr (free os d.addr w1).1).1

      hs1 : (send_task os c.send_queue t 1000 w).0 ≡ true → handed w1.trace ≡ queued_task t ∷ hs
      hs1 queued =
          Ledger.send_task_done os c.send_queue t 1000 w queued ∙ ap (λ l. queued_task t ∷ l) g

      hs2 : (send_task os c.send_queue t 1000 w).0 ≡ false → handed w1.trace ≡ hs
      hs2 full = Ledger.send_task_failed os c.send_queue t 1000 w full ∙ g

      bs1 : blocks w1.trace ≡ b.addr ∷ d.addr ∷ bs
      bs1 = Ledger.blocks-send_task os c.send_queue t 1000 w ∙ e

      ss1 : semaphores w1.trace ≡ s ∷ ss
      ss1 = Ledger.semaphores-send_task os c.send_queue t 1000 w ∙ f

  prompt_sync_with :
      (invalid : Bool) (c : Context) (d : Block) (n : ℕ) (p : PromptCall) (call : SyncCall)
      (s ms : ℕ) (w0 w : World W)
      → blocks w.trace ≡ d.addr ∷ blocks w0.trace
      → semaphores w.trace ≡ s ∷ semaphores w0.trace
      → handed w.trace ≡ handed w0.trace
      → LeavesSome os invalid 2 w0 (send_prompt_sync_with os c d n p call s ms w)
  unfolding send_prompt_sync_with
  prompt_sync_with invalid c d n p call s ms w0 w e f h0 =
      either os (LeavesSome os invalid 2 w0) _ _ (bytes_of p.prompt_bytes) p.prompt_len w
        (λ v g k q x. (
          null ∷ null ∷ [],
          refl,
          inr (
            refl,
            Ledger.blocks-semaphore_delete os s (free os d.addr v).1
                ∙ freed_newest os d.addr (blocks w0.trace) v (g ∙ e),
            deleted_newest os s (semaphores w0.trace) (free os d.addr v).1
                (Ledger.semaphores-free os d.addr v ∙ (k ∙ f)),
            Ledger.handed-semaphore_delete os s (free os d.addr v).1
                ∙ Ledger.handed-free os d.addr v
                ∙ q
                ∙ h0,
            inr x,
          ),
        ))
        (λ b v g k q. (
          b.addr ∷ d.addr ∷ [],
          refl,
          prompt_sync_queue invalid c d b s _ (blocks w0.trace) (semaphores w0.trace)
              (handed w0.trace) v (g ∙ ap (λ l. b.addr ∷ l) e) (k ∙ f) (q ∙ h0) refl,
        ))

  prompt_sync_semaphore :
      (invalid : Bool) (c : Context) (d : Block) (n : ℕ) (p : PromptCall) (call : SyncCall) (ms : ℕ)
      (w0 w : World W)
      → blocks w.trace ≡ d.addr ∷ blocks w0.trace
      → semaphores w.trace ≡ semaphores w0.trace
      → handed w.trace ≡ handed w0.trace
      → LeavesSome os invalid 2 w0 (send_prompt_sync_semaphore os c d n p call ms w)
  unfolding send_prompt_sync_semaphore
  prompt_sync_semaphore invalid c d n p call ms w0 w e f h0 =
      let s = (semaphore_create os w).0 in
      let w1 = (semaphore_create os w).1 in
      elim (Bool-cases ((semaphore_create os w).0 == null)) [
        | inl none_left ↦ rw none_left (
          null ∷ null ∷ [],
          refl,
          inr (
            refl,
            freed_newest os d.addr (blocks w0.trace) w1 (Ledger.blocks-semaphore_create os w ∙ e),
            Ledger.semaphores-free os d.addr w1 ∙ (Ledger.semaphore_failed os w none_left ∙ f),
            Ledger.handed-free os d.addr w1 ∙ Ledger.handed-semaphore_create os w ∙ h0,
            inr (no_semaphore w none_left),
          ),
        )
        | inr got ↦ rw got (
            prompt_sync_with invalid c d n p call s ms w0 w1
              (Ledger.blocks-semaphore_create os w ∙ e)
              (Ledger.semaphore_done os w got ∙ ap (λ l. s ∷ l) f)
              (Ledger.handed-semaphore_create os w ∙ h0))
      ]

  -- The function deletes the semaphore that it has created, whatever happens. It fails with no
  -- block left over and nothing queued, and does so only if an argument is NULL, there is no data
  -- or no prompt, or the platform refuses a block, the semaphore or the task; or it succeeds with
  -- two blocks more outstanding, which are those of the task that it has queued.
  pub atc_send_with_prompt_binary_rx_sync_lem :
      (c : Option Context) (bytes : Option (List ℕ)) (n : ℕ) (p : PromptCall) (call : SyncCall)
      (ms : ℕ) (w : World W)
      → LeavesSome os
          (is_invalid_prompt c bytes n p)
          2
          w
          (atc_send_with_prompt_binary_rx_sync os c bytes n p call ms w)
  unfolding atc_send_with_prompt_binary_rx_sync
  atc_send_with_prompt_binary_rx_sync_lem none bytes n p call ms w =
      (null ∷ null ∷ [], refl, inr (refl, refl, refl, refl, inl refl))
  atc_send_with_prompt_binary_rx_sync_lem (some c) none n p call ms w =
      (null ∷ null ∷ [], refl, inr (refl, refl, refl, refl, inl refl))
  atc_send_with_prompt_binary_rx_sync_lem (some c) (some bytes) n p call ms w =
      elim (Bool-cases (n == 0 || (is_none p.prompt_bytes || p.prompt_len == 0))) [
        | inl invalid ↦ rw invalid (null ∷ null ∷ [], refl, inr (refl, refl, refl, refl, inl refl))
        | inr valid ↦ rw valid (
            either os (LeavesSome os false 2 w)
              (λ d. send_prompt_sync_semaphore os c d n p call (effective_timeout ms))
              (λ v. (error, v)) bytes n w
              (λ v e f g x. (null ∷ null ∷ [], refl, inr (refl, e, f, g, inr x)))
              (λ b v e f g.
                prompt_sync_semaphore false c b n p call (effective_timeout ms) w v e f g))
      ]
