-- ===== src/Extern/Waiting.antt =====
-- extern_msg_handle.c: what `atc_urc_register` and `atc_urc_unregister` leave behind.
use atcortex.Base.{
  not, ℕ, ◌≡◌, refl, ap, ◌∙◌, Bool, true, false, Option, none, some, List, ◌∷◌, ◌⊎◌, leb, ◌==◌,
  ◌||◌, if◌then◌else◌, Bool-cases, inl, inr,
}
use atcortex.Types.{Ptr, null, error, atc_timeout_max, MsgBody, urc_register, urc_unregister, Msg}
use atcortex.Platform.{
  Event, queued_msg, World, Os, malloc, free, semaphore_create, semaphore_take, semaphore_give,
  send_msg, write_id, write_result,
}
use atcortex.Platform.Refusal.{Refusal, no_block, no_semaphore, no_msg, Cause}
use atcortex.Platform.Ledger as Ledger
use atcortex.Platform.Ledger.{blocks, semaphores, handed}
use atcortex.Context.{Context}
use atcortex.CString.{strlen}
use atcortex.Send.Failure.{is_missing, freed_newest, deleted_newest}
use atcortex.Extern.{
  prefix_size, stored_prefix, await_reply, queue_and_wait, register_prefix, atc_urc_register,
  unregister_id, atc_urc_unregister,
}

-- A call that comes to nothing fails, with the blocks outstanding and what was handed over as before,
-- and for a cause.
-- One that has handed its message to the event loop leaves the block of that message, and its result is
-- the answer that it reads then. Either way as many semaphores as before are left.
abbrev pub Balanced :
    {A W : Type 0} → Os W → Bool → A → (World W → A) → World W → A × World W → Type 0
Balanced os invalid failed answer w (r, w') =
    (semaphores w'.trace ≡ semaphores w.trace)
    × (((r ≡ failed)
          × (blocks w'.trace ≡ blocks w.trace)
          × (handed w'.trace ≡ handed w.trace)
          × Cause os invalid)
        ⊎ ((r ≡ answer w')
            × (m : Msg) × (handed w'.trace ≡ queued_msg m ∷ handed w.trace)
            × (blocks w'.trace ≡ m.addr ∷ blocks w.trace)))

-- What queueing a message comes to.
abbrev Waited : {W : Type 0} → Os W → List Ptr → List Ptr → List Event → Bool × World W → Type 0
Waited os bs ss hs (true, w) =
    (semaphores w.trace ≡ ss)
    × (m : Msg) × (handed w.trace ≡ queued_msg m ∷ hs)
    × (blocks w.trace ≡ m.addr ∷ bs)
Waited os bs ss hs (false, w) =
    (semaphores w.trace ≡ ss) × (blocks w.trace ≡ bs) × (handed w.trace ≡ hs) × Refusal os

-- What `atc_urc_register` does not allow
abbrev pub is_invalid_prefix : Bool → Option Context → Option (List ℕ) → Ptr → Bool
is_invalid_prefix semaphores none prefix h = true
is_invalid_prefix semaphores (some c) none h = true
is_invalid_prefix semaphores (some c) (some prefix) h =
    (h == null || strlen prefix == 0) || (not semaphores || leb prefix_size (strlen prefix))

module _ {W : Type 0} (os : Os W) where
  queue_and_wait-Waited :
      (c : Context) (block : Ptr) (body : MsgBody) (bs ss : List Ptr) (hs : List Event)
      (w : World W)
      → blocks w.trace ≡ block ∷ bs
      → semaphores w.trace ≡ ss
      → handed w.trace ≡ hs
      → Waited os bs ss hs (queue_and_wait os c block body w)
  unfolding queue_and_wait await_reply
  queue_and_wait-Waited c block body bs ss hs w e f g = elim (Bool-cases (s == null)) [
    | inl none_left ↦ rw none_left (
      Ledger.semaphores-free os block w1 ∙ (Ledger.semaphore_failed os w none_left ∙ f),
      freed_newest os block bs w1 bs1,
      Ledger.handed-free os block w1 ∙ hs1,
      no_semaphore w none_left,
    )
    | inr got ↦ rw got (elim (Bool-cases (send_msg os c.external_api_queue m 1000 w1).0) [
      | inl queued ↦ rw queued (
        deleted_newest os s ss w4 (
            Ledger.semaphores-semaphore_take os s atc_timeout_max w3
            ∙ (Ledger.semaphores-semaphore_give os c.wake_semaphore w2 ∙ ss2 got)),
        m,
        Ledger.handed-semaphore_delete os s w4
            ∙ Ledger.handed-semaphore_take os s atc_timeout_max w3
            ∙ Ledger.handed-semaphore_give os c.wake_semaphore w2
            ∙ Ledger.send_msg_done os c.external_api_queue m 1000 w1 queued
            ∙ ap (λ l. queued_msg m ∷ l) hs1,
        Ledger.blocks-semaphore_delete os s w4
            ∙ (Ledger.blocks-semaphore_take os s atc_timeout_max w3
                ∙ (Ledger.blocks-semaphore_give os c.wake_semaphore w2 ∙ bs2)),
      )
      | inr full ↦ rw full (
        deleted_newest os s ss (free os block w2).1 (Ledger.semaphores-free os block w2 ∙ ss2 got),
        Ledger.blocks-semaphore_delete os s (free os block w2).1 ∙ freed_newest os block bs w2 bs2,
        Ledger.handed-semaphore_delete os s (free os block w2).1
            ∙ Ledger.handed-free os block w2
            ∙ Ledger.send_msg_failed os c.external_api_queue m 1000 w1 full
            ∙ hs1,
        no_msg c.external_api_queue m 1000 w1 full,
      )
    ])
  ]
    where
      s : Ptr
      s = (semaphore_create os w).0

      w1 : World W
      w1 = (semaphore_create os w).1

      m : Msg
      m = record { addr = block; body = body; semaphore = s }

      w2 : World W
      w2 = (send_msg os c.external_api_queue m 1000 w1).1

      w3 : World W
      w3 = (semaphore_give os c.wake_semaphore w2).1

      w4 : World W
      w4 = (semaphore_take os s atc_timeout_max w3).1

      hs1 : handed w1.trace ≡ hs
      hs1 = Ledger.handed-semaphore_create os w ∙ g

      bs1 : blocks w1.trace ≡ block ∷ bs
      bs1 = Ledger.blocks-semaphore_create os w ∙ e

      bs2 : blocks w2.trace ≡ block ∷ bs
      bs2 = Ledger.blocks-send_msg os c.external_api_queue m 1000 w1 ∙ bs1

      ss2 : (s == null) ≡ false → semaphores w2.trace ≡ s ∷ ss
      ss2 got =
          Ledger.semaphores-send_msg os c.external_api_queue m 1000 w1
          ∙ (Ledger.semaphore_done os w got ∙ ap (λ l. s ∷ l) f)

  -- The answer is read only behind the queue.
  answered :
      {A : Type 0} (invalid : Bool) (failed : A) (answer : World W → A) (w : World W)
      (r : Bool × World W)
      → Waited os (blocks w.trace) (semaphores w.trace) (handed w.trace) r
      → Balanced os invalid failed answer w (if r.0 then answer r.1 else failed, r.1)
  answered invalid failed answer w (true, w') (s, m, h, b) = (s, inr (refl, m, h, b))
  answered invalid failed answer w (false, w') (s, b, h, x) = (s, inl (refl, b, h, inr x))

  register_prefix-Balanced :
      (c : Context) (out_id : Ptr) (prefix : List ℕ) (h : Ptr) (w : World W)
      → Balanced os
          (leb prefix_size (strlen prefix))
          none
          (λ v. v.memory.ids out_id)
          w
          (register_prefix os c out_id prefix h w)
  unfolding register_prefix
  register_prefix-Balanced c out_id prefix h w = elim (Bool-cases ((malloc os 64 w).0 == null)) [
    | inl none_left ↦ rw none_left (
      Ledger.semaphores-malloc os 64 w,
      inl (
        refl,
        Ledger.malloc_failed os 64 w none_left,
        Ledger.handed-malloc os 64 w,
        inr (no_block 64 w none_left),
      ),
    )
    | inr got ↦ rw got (elim (Bool-cases (leb prefix_size (strlen prefix))) [
      | inl long ↦ rw long (
        Ledger.semaphores-free os block w1 ∙ Ledger.semaphores-malloc os 64 w,
        inl (
          refl,
          freed_newest os block (blocks w.trace) w1 (Ledger.malloc_done os 64 w got),
          Ledger.handed-free os block w1 ∙ Ledger.handed-malloc os 64 w,
          inl refl,
        ),
      )
      | inr short ↦ rw short (
          answered false none (λ v. v.memory.ids out_id) w
            (queue_and_wait os c block
              (urc_register (record { id = 0; prefix = stored_prefix prefix; handler = h }) out_id)
              (write_id out_id none w1).1)
            (queue_and_wait-Waited c block _ (blocks w.trace) (semaphores w.trace) (handed w.trace)
              (write_id out_id none w1).1 (Ledger.malloc_done os 64 w got)
              (Ledger.semaphores-malloc os 64 w) (Ledger.handed-malloc os 64 w)))
    ])
  ]
    where
      block : Ptr
      block = (malloc os 64 w).0

      w1 : World W
      w1 = (malloc os 64 w).1

  -- `atc_urc_register` deletes the semaphore that it has created, whatever happens. It fails with
  -- no block left over and nothing queued, and does so only if an argument or the interface does
  -- not allow the call, which wants a handler and a prefix of 1 to 31 bytes, or the platform
  -- refuses a block, the semaphore or the message; or it has queued a message, whose block is the
  -- one block more that is outstanding, and then its result is what stands in its variable
  -- `assigned_id`.
  pub atc_urc_register_lem :
      (semaphores : Bool) (out_id : Ptr) (c : Option Context) (prefix : Option (List ℕ)) (h : Ptr)
      (w : World W)
      → Balanced os
          (is_invalid_prefix semaphores c prefix h)
          none
          (λ v. v.memory.ids out_id)
          w
          (atc_urc_register os semaphores out_id c prefix h w)
  unfolding atc_urc_register
  atc_urc_register_lem semaphores out_id none prefix h w = (refl, inl (refl, refl, refl, inl refl))
  atc_urc_register_lem semaphores out_id (some c) none h w =
      (refl, inl (refl, refl, refl, inl refl))
  atc_urc_register_lem sems out_id (some c) (some prefix) h w =
      elim (Bool-cases (h == null || strlen prefix == 0)) [
        | inl invalid ↦ rw invalid (refl, inl (refl, refl, refl, inl refl))
        | inr valid ↦ rw valid (if_there sems)
      ]
    where
      if_there :
          (b : Bool)
          → Balanced os
              (not b || leb prefix_size (strlen prefix))
              none
              (λ v. v.memory.ids out_id)
              w
              (if b then register_prefix os c out_id prefix h w else (none, w))
      if_there true = register_prefix-Balanced c out_id prefix h w
      if_there false = (refl, inl (refl, refl, refl, inl refl))

  unregister_id-Balanced :
      (c : Context) (out_result : Ptr) (id : ℕ) (w : World W)
      → Balanced os false error
          (λ v. v.memory.results out_result)
          w
          (unregister_id os c out_result id w)
  unfolding unregister_id
  unregister_id-Balanced c out_result id w = elim (Bool-cases ((malloc os 16 w).0 == null)) [
    | inl none_left ↦ rw none_left (
      Ledger.semaphores-malloc os 16 w,
      inl (
        refl,
        Ledger.malloc_failed os 16 w none_left,
        Ledger.handed-malloc os 16 w,
        inr (no_block 16 w none_left),
      ),
    )
    | inr got ↦ rw got (
        answered false error (λ v. v.memory.results out_result) w
          (queue_and_wait os c block (urc_unregister id out_result)
            (write_result out_result error w1).1)
          (queue_and_wait-Waited c block _ (blocks w.trace) (semaphores w.trace) (handed w.trace)
            (write_result out_result error w1).1 (Ledger.malloc_done os 16 w got)
            (Ledger.semaphores-malloc os 16 w) (Ledger.handed-malloc os 16 w)))
  ]
    where
      block : Ptr
      block = (malloc os 16 w).0

      w1 : World W
      w1 = (malloc os 16 w).1

  -- `atc_urc_unregister` deletes the semaphore that it has created, whatever happens. It fails with
  -- no block left over and nothing queued, and does so only if an argument or the interface does not
  -- allow the call or the platform refuses a block, the semaphore or the message; or it has queued a
  -- message, whose block is the one block more that is outstanding, and then its result is what
  -- stands in its variable `result`.
  atc_urc_unregister_lem :
      (semaphores : Bool) (out_result : Ptr) (c : Option Context) (id : ℕ) (w : World W)
      → Balanced os
          (is_missing c || (id == 0 || not semaphores))
          error
          (λ v. v.memory.results out_result)
          w
          (atc_urc_unregister os semaphores out_result c id w)
  unfolding atc_urc_unregister
  atc_urc_unregister_lem semaphores out_result none id w = (refl, inl (refl, refl, refl, inl refl))
  atc_urc_unregister_lem sems out_result (some c) id w = elim (Bool-cases (id == 0)) [
    | inl invalid ↦ rw invalid (refl, inl (refl, refl, refl, inl refl))
    | inr valid ↦ rw valid (if_there sems)
  ]
    where
      if_there :
          (b : Bool)
          → Balanced os
              (not b)
              error
              (λ v. v.memory.results out_result)
              w
              (if b then unregister_id os c out_result id w else (error, w))
      if_there true = unregister_id-Balanced c out_result id w
      if_there false = (refl, inl (refl, refl, refl, inl refl))
