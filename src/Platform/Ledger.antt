-- ===== src/Platform/Ledger.antt =====
-- What a trace of calls leaves outstanding: blocks that were allocated and not freed, and semaphores
-- that were created and not deleted, the latest first.
use atcortex.Base.{
  ℕ, suc, ◌+◌, ◌-◌, ◌++◌, true, false, refl, ◌≡◌, List, [], ◌∷◌, arith, ◌==◌, if◌then◌else◌,
}
use atcortex.Types.{Ptr, null, SendTask, Msg}
use atcortex.Platform.{
  Event, queued_task, queued_msg, allocated, freed, created, deleted, World, Os, malloc, free,
  semaphore_create, semaphore_take, semaphore_give, semaphore_delete, send_task, send_msg,
}

unfoldable pub remove : Ptr → List Ptr → List Ptr
remove p [] = []
remove p (q ∷ qs) = if q == p then qs else q ∷ remove p qs

unfoldable pub blocks : List Event → List Ptr
unfolding remove
blocks [] = []
blocks (e ∷ es) =
    let rest = blocks es in elim e [ allocated p ↦ p ∷ rest | freed p ↦ remove p rest | _ ↦ rest ]

unfoldable pub semaphores : List Event → List Ptr
unfolding remove
semaphores [] = []
semaphores (e ∷ es) =
    let rest = semaphores es in
    elim e [ created p ↦ p ∷ rest | deleted p ↦ remove p rest | _ ↦ rest ]

-- What has been handed to the event loop: the tasks and messages that went into their queues
unfoldable pub handed : List Event → List Event
handed [] = []
handed (e ∷ es) =
    let rest = handed es in
    elim e [ queued_task t ↦ queued_task t ∷ rest | queued_msg m ↦ queued_msg m ∷ rest | _ ↦ rest ]

-- The newest block goes first.
pub remove_newest : (p : Ptr) (ps : List Ptr) → remove p (p ∷ ps) ≡ ps
unfolding remove
remove_newest p ps = ground arith

-- The block below the newest goes, whether the two addresses differ or not.
pub remove_second : (p q : Ptr) (ps : List Ptr) → remove q (p ∷ q ∷ ps) ≡ p ∷ ps
unfolding remove
remove_second p q ps = ground arith

-- How often an address is outstanding
unfoldable pub count : Ptr → List Ptr → ℕ
count p [] = 0
count p (q ∷ qs) = if q == p then suc (count p qs) else count p qs

-- The same addresses are outstanding equally often, in whatever order.
abbrev pub Same : List Ptr → List Ptr → Type 0
Same ps qs = (p : Ptr) → count p ps ≡ count p qs

pub count-cons : (x p : Ptr) (ps : List Ptr) → count x (p ∷ ps) ≡ count x (p ∷ []) + count x ps
unfolding count
count-cons x p ps = ground arith

pub count-append : (x : Ptr) (ps qs : List Ptr) → count x (ps ++ qs) ≡ count x ps + count x qs
unfolding count
count-append x [] qs = omega arith
count-append x (p ∷ ps) qs = ground (arith, count-append x ps qs)

pub count-remove :
    (x p : Ptr) (ps : List Ptr) → count x (remove p ps) ≡ count x ps - count x (p ∷ [])
unfolding count remove
count-remove x p [] = ground arith
count-remove x p (q ∷ ps) = ground (arith, count-remove x p ps)

-- What the platform's calls do to the blocks that are outstanding.
module _ {W : Type 0} (os : Os W) where
  pub malloc_failed :
      (n : ℕ) (w : World W)
      → ((malloc os n w).0 == null) ≡ true
      → blocks (malloc os n w).1.trace ≡ blocks w.trace
  unfolding malloc
  malloc_failed n w e = ground arith

  pub malloc_done :
      (n : ℕ) (w : World W)
      → ((malloc os n w).0 == null) ≡ false
      → blocks (malloc os n w).1.trace ≡ (malloc os n w).0 ∷ blocks w.trace
  unfolding malloc blocks
  malloc_done n w e = ground arith

  pub free_lem : (p : Ptr) (w : World W) → blocks (free os p w).1.trace ≡ remove p (blocks w.trace)
  unfolding free blocks
  free_lem p w = refl

  pub semaphore_failed :
      (w : World W)
      → ((semaphore_create os w).0 == null) ≡ true
      → semaphores (semaphore_create os w).1.trace ≡ semaphores w.trace
  unfolding semaphore_create
  semaphore_failed w e = ground arith

  pub semaphore_done :
      (w : World W)
      → ((semaphore_create os w).0 == null) ≡ false
      → semaphores (semaphore_create os w).1.trace ≡ (semaphore_create os w).0 ∷ semaphores w.trace
  unfolding semaphore_create semaphores
  semaphore_done w e = ground arith

  pub semaphore_delete_lem :
      (p : Ptr) (w : World W)
      → semaphores (semaphore_delete os p w).1.trace ≡ remove p (semaphores w.trace)
  unfolding semaphore_delete semaphores
  semaphore_delete_lem p w = refl

  -- The other calls leave the one ledger or the other alone.
  pub blocks-semaphore_create :
      (w : World W) → blocks (semaphore_create os w).1.trace ≡ blocks w.trace
  unfolding semaphore_create blocks
  blocks-semaphore_create w = ground arith

  pub semaphores-malloc :
      (n : ℕ) (w : World W) → semaphores (malloc os n w).1.trace ≡ semaphores w.trace
  unfolding malloc semaphores
  semaphores-malloc n w = ground arith

  pub semaphores-free :
      (p : Ptr) (w : World W) → semaphores (free os p w).1.trace ≡ semaphores w.trace
  unfolding free semaphores
  semaphores-free p w = refl

  pub blocks-semaphore_delete :
      (p : Ptr) (w : World W) → blocks (semaphore_delete os p w).1.trace ≡ blocks w.trace
  unfolding semaphore_delete blocks
  blocks-semaphore_delete p w = refl

  pub blocks-semaphore_give :
      (p : Ptr) (w : World W) → blocks (semaphore_give os p w).1.trace ≡ blocks w.trace
  unfolding semaphore_give blocks
  blocks-semaphore_give p w = refl

  pub semaphores-semaphore_give :
      (p : Ptr) (w : World W) → semaphores (semaphore_give os p w).1.trace ≡ semaphores w.trace
  unfolding semaphore_give semaphores
  semaphores-semaphore_give p w = refl

  pub blocks-semaphore_take :
      (p ms : ℕ) (w : World W) → blocks (semaphore_take os p ms w).1.trace ≡ blocks w.trace
  unfolding semaphore_take blocks
  blocks-semaphore_take p ms w = refl

  pub semaphores-semaphore_take :
      (p ms : ℕ) (w : World W) → semaphores (semaphore_take os p ms w).1.trace ≡ semaphores w.trace
  unfolding semaphore_take semaphores
  semaphores-semaphore_take p ms w = refl

  pub blocks-send_task :
      (q : Ptr) (t : SendTask) (ms : ℕ) (w : World W)
      → blocks (send_task os q t ms w).1.trace ≡ blocks w.trace
  unfolding send_task blocks
  blocks-send_task q t ms w = ground arith

  pub semaphores-send_task :
      (q : Ptr) (t : SendTask) (ms : ℕ) (w : World W)
      → semaphores (send_task os q t ms w).1.trace ≡ semaphores w.trace
  unfolding send_task semaphores
  semaphores-send_task q t ms w = ground arith

  pub blocks-send_msg :
      (q : Ptr) (m : Msg) (ms : ℕ) (w : World W)
      → blocks (send_msg os q m ms w).1.trace ≡ blocks w.trace
  unfolding send_msg blocks
  blocks-send_msg q m ms w = ground arith

  pub semaphores-send_msg :
      (q : Ptr) (m : Msg) (ms : ℕ) (w : World W)
      → semaphores (send_msg os q m ms w).1.trace ≡ semaphores w.trace
  unfolding send_msg semaphores
  semaphores-send_msg q m ms w = ground arith

-- Only the queues are handed anything.
module _ {W : Type 0} (os : Os W) where
  pub handed-malloc : (n : ℕ) (w : World W) → handed (malloc os n w).1.trace ≡ handed w.trace
  unfolding malloc handed
  handed-malloc n w = ground arith

  pub handed-free : (p : Ptr) (w : World W) → handed (free os p w).1.trace ≡ handed w.trace
  unfolding free handed
  handed-free p w = refl

  pub handed-semaphore_create :
      (w : World W) → handed (semaphore_create os w).1.trace ≡ handed w.trace
  unfolding semaphore_create handed
  handed-semaphore_create w = ground arith

  pub handed-semaphore_delete :
      (p : Ptr) (w : World W) → handed (semaphore_delete os p w).1.trace ≡ handed w.trace
  unfolding semaphore_delete handed
  handed-semaphore_delete p w = refl

  pub handed-semaphore_give :
      (p : Ptr) (w : World W) → handed (semaphore_give os p w).1.trace ≡ handed w.trace
  unfolding semaphore_give handed
  handed-semaphore_give p w = refl

  pub handed-semaphore_take :
      (p ms : ℕ) (w : World W) → handed (semaphore_take os p ms w).1.trace ≡ handed w.trace
  unfolding semaphore_take handed
  handed-semaphore_take p ms w = refl

  pub send_task_done :
      (q : Ptr) (t : SendTask) (ms : ℕ) (w : World W)
      → (send_task os q t ms w).0 ≡ true
      → handed (send_task os q t ms w).1.trace ≡ queued_task t ∷ handed w.trace
  unfolding send_task handed
  send_task_done q t ms w e = ground arith

  pub send_task_failed :
      (q : Ptr) (t : SendTask) (ms : ℕ) (w : World W)
      → (send_task os q t ms w).0 ≡ false
      → handed (send_task os q t ms w).1.trace ≡ handed w.trace
  unfolding send_task
  send_task_failed q t ms w e = ground arith

  pub send_msg_done :
      (q : Ptr) (m : Msg) (ms : ℕ) (w : World W)
      → (send_msg os q m ms w).0 ≡ true
      → handed (send_msg os q m ms w).1.trace ≡ queued_msg m ∷ handed w.trace
  unfolding send_msg handed
  send_msg_done q m ms w e = ground arith

  pub send_msg_failed :
      (q : Ptr) (m : Msg) (ms : ℕ) (w : World W)
      → (send_msg os q m ms w).0 ≡ false
      → handed (send_msg os q m ms w).1.trace ≡ handed w.trace
  unfolding send_msg
  send_msg_failed q m ms w e = ground arith
