-- ===== src/Platform/Refusal.antt =====
-- What the platform can refuse a caller of the library.
use atcortex.Base.{ℕ, ◌≡◌, Bool, true, false, ◌==◌, ◌⊎◌}
use atcortex.Types.{Ptr, null, SendTask, Msg}
use atcortex.Platform.{World, Os, malloc, semaphore_create, send_task, send_msg}

-- A block or a semaphore that there is not in some world, or a queue that takes no more there
pub data Refusal {W : Type 0} (os : Os W) : Type 0 where
  no_block : (n : ℕ) (w : World W) → ((malloc os n w).0 == null) ≡ true → Refusal os
  no_semaphore : (w : World W) → ((semaphore_create os w).0 == null) ≡ true → Refusal os
  no_task :
      (q : Ptr) (t : SendTask) (ms : ℕ) (w : World W)
      → (send_task os q t ms w).0 ≡ false
      → Refusal os
  no_msg :
      (q : Ptr) (m : Msg) (ms : ℕ) (w : World W) → (send_msg os q m ms w).0 ≡ false → Refusal os

-- Why a call fails: its arguments are invalid, or the platform refuses something.
abbrev pub Cause : {W : Type 0} → Os W → Bool → Type 0
Cause os invalid = (invalid ≡ true) ⊎ Refusal os
