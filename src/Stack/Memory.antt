-- ===== src/Stack/Memory.antt =====
-- stack.c: `stack_create` and `stack_destroy` against the platform's allocator.
use atcortex.Base.{ℕ, ◌≤◌, ◌≡◌, Option, none, some, List, [], ◌∷◌, ◌++◌, arith, length}
use atcortex.Types.{Ptr}
use atcortex.Platform.{World, Os, malloc, free}
use atcortex.Platform.Ledger.{blocks}
use atcortex.Stack.{Stack, stack_create, stack_destroy}
use atcortex.Stack.Bounds.{IsValid, tops}
use atcortex.Stack.Laws.{elements}

-- The blocks that a stack owns, the latest first.
unfoldable pub owned : Option Stack → List Ptr
owned none = []
owned (some s) = s.cells ∷ s.block ∷ []

module _ {W : Type 0} (os : Os W) where
  -- `stack_create` owns exactly the blocks of the stack that it returns: where it returns NULL it
  -- has given back what it had allocated.
  stack_create-blocks :
      (garbage : List Ptr) (capacity : ℕ) (w : World W)
      → let (r, w') = stack_create os garbage capacity w in
        blocks w'.trace ≡ owned r ++ blocks w.trace
  unfolding stack_create malloc free blocks owned
  stack_create-blocks garbage capacity w = ground arith

  -- The stack that `stack_create` returns, where the new array has room for the capacity asked
  -- for, is valid and empty, and of that capacity.
  pub stack_create-IsValid :
      (garbage : List Ptr) (capacity : ℕ) (w : World W) {s : Stack}
      → capacity ≤ length garbage
      → (stack_create os garbage capacity w).0 ≡ some s
      → IsValid s × (s.capacity ≡ capacity) × (elements s ≡ [])
  unfolding stack_create elements tops
  stack_create-IsValid garbage capacity w fits e = ground arith

  -- Creating a stack and destroying it leaves no block outstanding.
  stack_destroy-create :
      (garbage : List Ptr) (capacity : ℕ) (w : World W)
      → let (r, w') = stack_create os garbage capacity w in
        blocks (stack_destroy os r w').1.trace ≡ blocks w.trace
  unfolding stack_destroy stack_create malloc free blocks
  stack_destroy-create garbage capacity w = ground arith
