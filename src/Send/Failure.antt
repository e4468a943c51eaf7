-- ===== src/Send/Failure.antt =====
-- send_msg_handle.c: what the sending functions without a prompt leave behind.
use atcortex.Base.{
  not, ◌||◌, ℕ, ◌≡◌, refl, ap, ◌∙◌, Bool, true, false, Option, none, some, List, [], ◌∷◌, ◌++◌, ◌⊎◌,
  ◌==◌, Bool-cases, inl, inr, take, length,
}
use atcortex.Types.{
  Ptr, null, AtcResult, success, error, atc_timeout_max, Block, SendTask, sync_handler,
}
use atcortex.Platform.{
  Event, queued_task, World, Os, Call, malloc, free, semaphore_create, semaphore_delete,
  semaphore_give, semaphore_take, send_task,
}
use atcortex.Platform.Refusal.{Refusal, no_block, no_semaphore, no_task, Cause}
use atcortex.Platform.Ledger as Ledger
use atcortex.Platform.Ledger.{blocks, semaphores, handed, remove}
use atcortex.Context.{Context}
use atcortex.Send.Ending.{task_blocks}
use atcortex.Send.{
  copy_bytes, with_copy, SyncCall, await_answer, with_data, with_sync, zero_task, send_sync_with,
  is_invalid_sync, atc_send_sync, effective_timeout,
}

-- A function that had `bs` and `ss` outstanding, and `hs` handed over, comes back with `extra` more
-- blocks on success, which are those of a task that it has queued, and on failure with none, for which
-- there is a cause. It leaves as many semaphores as before.
abbrev pub Leaves :
    {W : Type 0}
    → Os W
    → Bool
    → List Ptr
    → List Ptr
    → List Event
    → List Ptr
    → AtcResult × World W
    → Type 0
Leaves os invalid bs ss hs extra (r, w) =
    ((r ≡ success)
      × (blocks w.trace ≡ extra ++ bs)
      × (semaphores w.trace ≡ ss)
      × (t : SendTask) × (handed w.trace ≡ queued_task t ∷ hs)
      × (task_blocks t ≡ extra))
    ⊎ ((r ≡ error)
        × (blocks w.trace ≡ bs)
        × (semaphores w.trace ≡ ss)
        × (handed w.trace ≡ hs)
        × Cause os invalid)

-- So many more blocks are outstanding on success.
abbrev pub LeavesSome : {W : Type 0} → Os W → Bool → ℕ → World W → AtcResult × World W → Type 0
LeavesSome os invalid n w r =
    (ps : List Ptr) × (length ps ≡ n)
    × Leaves os invalid (blocks w.trace) (semaphores w.trace) (handed w.trace) ps r

-- NULL in place of a context or of bytes
abbrev pub is_missing : {A : Type 0} → Option A → Bool
is_missing none = true
is_missing (some x) = false

-- What `atc_send_sync` does not allow
abbrev pub is_invalid_call : Bool → Option Context → Option (List ℕ) → ℕ → SyncCall → Bool
is_invalid_call semaphores c bytes n call =
    not semaphores || (is_missing c || (is_missing bytes || is_invalid_sync n call))

module _ {W : Type 0} (os : Os W) where
  -- Either there is no block, and nothing is outstanding beside what was; or there is one.
  pub either :
      (P : AtcResult × World W → Type 0) (ok : Block → Call W AtcResult) (failed : Call W AtcResult)
      (bytes : List ℕ) (n : ℕ) (w : World W)
      → ((v : World W)
          → blocks v.trace ≡ blocks w.trace
          → semaphores v.trace ≡ semaphores w.trace
          → handed v.trace ≡ handed w.trace
          → Refusal os
          → P (failed v))
      → ((b : Block) (v : World W)
          → blocks v.trace ≡ b.addr ∷ blocks w.trace
          → semaphores v.trace ≡ semaphores w.trace
          → handed v.trace ≡ handed w.trace
          → P (ok b v))
      → P (with_copy ok failed (copy_bytes os bytes n w).0 (copy_bytes os bytes n w).1)
  unfolding copy_bytes with_copy
  either P ok failed bytes n w f g = elim (Bool-cases ((malloc os n w).0 == null)) [
    | inl no_block_left ↦ rw no_block_left (
        f (malloc os n w).1 (Ledger.malloc_failed os n w no_block_left)
          (Ledger.semaphores-malloc os n w) (Ledger.handed-malloc os n w)
          (no_block n w no_block_left))
    | inr got ↦ rw got (
        g (record { addr = (malloc os n w).0; bytes = take n bytes }) (malloc os n w).1
          (Ledger.malloc_done os n w got) (Ledger.semaphores-malloc os n w)
          (Ledger.handed-malloc os n w))
  ]

  -- Waiting for the answer gives the semaphore back.
  pub blocks-await_answer :
      (c : Context) (s : Ptr) (w : World W)
      → blocks (await_answer os c s w).1.trace ≡ blocks w.trace
  unfolding await_answer
  blocks-await_answer c s w =
      let w1 = (semaphore_give os c.wake_semaphore w).1 in
      let w2 = (semaphore_take os s atc_timeout_max w1).1 in
      Ledger.blocks-semaphore_delete os s w2
      ∙ (Ledger.blocks-semaphore_take os s atc_timeout_max w1
          ∙ Ledger.blocks-semaphore_give os c.wake_semaphore w)

  pub semaphores-await_answer :
      (c : Context) (s : Ptr) (ss : List Ptr) (w : World W)
      → semaphores w.trace ≡ s ∷ ss
      → semaphores (await_answer os c s w).1.trace ≡ ss
  unfolding await_answer
  semaphores-await_answer c s ss w e =
      let w1 = (semaphore_give os c.wake_semaphore w).1 in
      let w2 = (semaphore_take os s atc_timeout_max w1).1 in
      Ledger.semaphore_delete_lem os s w2
      ∙ (ap (remove s) (
            Ledger.semaphores-semaphore_take os s atc_timeout_max w1
            ∙ (Ledger.semaphores-semaphore_give os c.wake_semaphore w ∙ e))
          ∙ Ledger.remove_newest s ss)

  pub handed-await_answer :
      (c : Context) (s : Ptr) (w : World W)
      → handed (await_answer os c s w).1.trace ≡ handed w.trace
  unfolding await_answer
  handed-await_answer c s w =
      let w1 = (semaphore_give os c.wake_semaphore w).1 in
      let w2 = (semaphore_take os s atc_timeout_max w1).1 in
      Ledger.handed-semaphore_delete os s w2
      ∙ Ledger.handed-semaphore_take os s atc_timeout_max w1
      ∙ Ledger.handed-semaphore_give os c.wake_semaphore w

  pub await_answer-success :
      (c : Context) (s : Ptr) (w : World W) → (await_answer os c s w).0 ≡ success
  unfolding await_answer
  await_answer-success c s w = refl

  pub freed_newest :
      (p : Ptr) (bs : List Ptr) (w : World W)
      → blocks w.trace ≡ p ∷ bs
      → blocks (free os p w).1.trace ≡ bs
  freed_newest p bs w e = Ledger.free_lem os p w ∙ (ap (remove p) e ∙ Ledger.remove_newest p bs)

  pub freed_two :
      (q p : Ptr) (bs : List Ptr) (w : World W)
      → blocks w.trace ≡ q ∷ p ∷ bs
      → blocks (free os q (free os p w).1).1.trace ≡ bs
  freed_two q p bs w e =
      freed_newest q bs (free os p w).1
        (Ledger.free_lem os p w ∙ (ap (remove p) e ∙ Ledger.remove_second q p bs))

  pub deleted_newest :
      (s : Ptr) (ss : List Ptr) (w : World W)
      → semaphores w.trace ≡ s ∷ ss
      → semaphores (semaphore_delete os s w).1.trace ≡ ss
  deleted_newest s ss w e =
      Ledger.semaphore_delete_lem os s w ∙ (ap (remove s) e ∙ Ledger.remove_newest s ss)

  -- A queued task that the caller waits for, or one that the queue had no room for
  sync_with :
      (invalid : Bool) (c : Context) (d : Block) (n : ℕ) (call : SyncCall) (ms : ℕ)
      (bs ss : List Ptr) (hs : List Event) (w : World W)
      → blocks w.trace ≡ d.addr ∷ bs
      → semaphores w.trace ≡ ss
      → handed w.trace ≡ hs
      → Leaves os invalid bs ss hs (d.addr ∷ []) (send_sync_with os c d n call ms w)
  unfolding send_sync_with
  sync_with invalid c d n call ms bs ss hs w e f g = elim (Bool-cases (s == null)) [
    | inl none_left ↦ rw none_left (
        inr (
          refl,
          freed_newest d.addr bs w1 bs1,
          Ledger.semaphores-free os d.addr w1 ∙ (Ledger.semaphore_failed os w none_left ∙ f),
          Ledger.handed-free os d.addr w1 ∙ hs1,
          inr (no_semaphore w none_left),
        ))
    | inr got ↦ rw got (elim (Bool-cases (send_task os c.send_queue t 1000 w1).0) [
      | inl queued ↦ rw queued (
          inl (
            await_answer-success c s w2,
            blocks-await_answer c s w2 ∙ bs2,
            semaphores-await_answer c s ss w2 (ss2 got),
            t,
            handed-await_answer c s w2
                ∙ Ledger.send_task_done os c.send_queue t 1000 w1 queued
                ∙ ap (λ l. queued_task t ∷ l) hs1,
            refl,
          ))
      | inr full ↦ rw full (
          inr (
            refl,
            Ledger.blocks-semaphore_delete os s (free os d.addr w2).1
                ∙ freed_newest d.addr bs w2 bs2,
            deleted_newest s ss (free os d.addr w2).1
                (Ledger.semaphores-free os d.addr w2 ∙ ss2 got),
            Ledger.handed-semaphore_delete os s (free os d.addr w2).1
                ∙ Ledger.handed-free os d.addr w2
                ∙ Ledger.send_task_failed os c.send_queue t 1000 w1 full
                ∙ hs1,
            inr (no_task c.send_queue t 1000 w1 full),
          ))
    ])
  ]
    where
      s : Ptr
      s = (semaphore_create os w).0

      w1 : World W
      w1 = (semaphore_create os w).1

      t : SendTask
      t = with_sync s call (with_data d n sync_handler ms zero_task)

      w2 : World W
      w2 = (send_task os c.send_queue t 1000 w1).1

      hs1 : handed w1.trace ≡ hs
      hs1 = Ledger.handed-semaphore_create os w ∙ g

      bs1 : blocks w1.trace ≡ d.addr ∷ bs
      bs1 = Ledger.blocks-semaphore_create os w ∙ e

      bs2 : blocks w2.trace ≡ d.addr ∷ bs
      bs2 = Ledger.blocks-send_task os c.send_queue t 1000 w1 ∙ bs1

      ss2 : (s == null) ≡ false → semaphores w2.trace ≡ s ∷ ss
      ss2 got =
          Ledger.semaphores-send_task os c.send_queue t 1000 w1
          ∙ (Ledger.semaphore_done os w got ∙ ap (λ l. s ∷ l) f)

  -- `atc_send_sync` deletes the semaphore that it has created, whatever happens. It fails with no
  -- block left over and nothing queued, and does so only if an argument or the interface does not
  -- allow the call or the platform refuses a block, the semaphore or the task; or it succeeds
  -- with one block more outstanding, which is the one of the task that it has queued.
  pub atc_send_sync_lem :
      (semaphores : Bool) (c : Option Context) (bytes : Option (List ℕ)) (n : ℕ) (call : SyncCall)
      (ms : ℕ) (w : World W)
      → LeavesSome os
          (is_invalid_call semaphores c bytes n call)
          1
          w
          (atc_send_sync os semaphores c bytes n call ms w)
  unfolding atc_send_sync
  atc_send_sync_lem false c bytes n call ms w =
      (null ∷ [], refl, inr (refl, refl, refl, refl, inl refl))
  atc_send_sync_lem true none bytes n call ms w =
      (null ∷ [], refl, inr (refl, refl, refl, refl, inl refl))
  atc_send_sync_lem true (some c) none n call ms w =
      (null ∷ [], refl, inr (refl, refl, refl, refl, inl refl))
  atc_send_sync_lem true (some c) (some bytes) n call ms w =
      elim (Bool-cases (is_invalid_sync n call)) [
        | inl invalid ↦ rw invalid (null ∷ [], refl, inr (refl, refl, refl, refl, inl refl))
        | inr valid ↦ rw valid (
            either (LeavesSome os false 1 w)
              (λ d. send_sync_with os c d n call (effective_timeout ms)) (λ v. (error, v)) bytes n w
              (λ v e f g x. (null ∷ [], refl, inr (refl, e, f, g, inr x)))
              (λ b v e f g. (
                b.addr ∷ [],
                refl,
                sync_with false c b n call (effective_timeout ms) (blocks w.trace)
                    (Ledger.semaphores w.trace) (handed w.trace) v e f g,
              )))
      ]
