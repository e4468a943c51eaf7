-- ===== src/Stack.antt =====
-- stack.c and stack.h: the bounded stack of pointers that prompts are matched with.
-- `stack_create` and `stack_destroy` call the platform's allocator; the other functions work on the
-- block. A `Stack *` that may be NULL is an `Option`; a function that updates `*s` returns it
-- beside its result. A free function is a parameter: what it is called with is returned, in order.
pub mod Bounds
pub mod Laws
pub mod Memory
pub mod Reads
use atcortex.Base.{
  ℕ, zero, suc, ◌+◌, ◌-◌, ◌*◌, Bool, true, false, Option, none, some, List, [], ◌∷◌, ◌++◌, not,
  ◌&&◌, drop, take, get_or, set, length, ltb, leb, ◌==◌, if◌then◌else◌,
}
use atcortex.Types.{Ptr, null}
use atcortex.Platform.{World, Os, Call, malloc, free, pure, ◌>>=◌, ◌>>◌}

-- `struct Stack`: `block` and `cells` are the addresses of its two blocks, `items` what the second
-- one holds.
pub record Stack : Type 0 where
  pub block : Ptr
  pub cells : Ptr
  pub items : List Ptr
  pub capacity : ℕ
  pub top : ℕ

-- `garbage` is what the new array holds.
unfoldable pub stack_create : {W : Type 0} → Os W → List Ptr → ℕ → Call W (Option Stack)
stack_create os garbage capacity = if capacity == 0 then pure none else do
  s ← malloc os 24
  if s == null then pure none else do
    items ← malloc os (8 * capacity)
    let made : Stack = record {
      block = s;
      cells = items;
      items = garbage;
      capacity = capacity;
      top = 0;
    }
    if items == null then (free os s >> pure none) else pure (some made)

-- A stack that `stack_create` made has `items`, and so no NULL there.
unfoldable pub stack_destroy : {W : Type 0} → Os W → Option Stack → Call W (Unit {0})
stack_destroy os none = pure tt
stack_destroy os (some s) =
    (if s.cells == null then pure tt else free os s.cells) >> free os s.block

unfoldable pub stack_push : Option Stack → Ptr → Bool × Option Stack
stack_push none item = (false, none)
stack_push (some s) item =
    if leb s.capacity s.top
    then (false, some s)
    else (true, some (record s { items = set s.items s.top item; top = s.top + 1 }))

-- `memmove(&items[0], &items[1], n * sizeof(void*))`: the first `n` places take the values of the
-- `n` places behind the first.
unfoldable pub move_down : List Ptr → ℕ → List Ptr
move_down items n = take n (drop 1 items) ++ drop n items

-- `frees` says whether there is a free function; the list is what it was called with.
unfoldable pub stack_push_overwrite : Option Stack → Ptr → Bool → Bool × List Ptr × Option Stack
stack_push_overwrite none item frees = (false, [], none)
stack_push_overwrite (some s) item frees =
    if s.capacity == 0
    then (false, [], some s)
    else (if ltb s.top s.capacity
        then (true, [], some (record s { items = set s.items s.top item; top = s.top + 1 }))
        else (let bottom = get_or s.items 0 null in
            let moved = if ltb 1 s.capacity then move_down s.items (s.capacity - 1) else s.items in
            (
              true,
              if frees && not (bottom == null) then bottom ∷ [] else [],
              some (record s { items = set moved (s.capacity - 1) item }),
            )))

-- NULL is the answer of an empty stack.
unfoldable pub stack_pop : Option Stack → Ptr × Option Stack
stack_pop none = (null, none)
stack_pop (some s) =
    if s.top == 0
    then (null, some s)
    else (get_or s.items (s.top - 1) null, some (record s { top = s.top - 1 }))

unfoldable pub stack_peek : Option Stack → Ptr
stack_peek none = null
stack_peek (some s) = if s.top == 0 then null else get_or s.items (s.top - 1) null

unfoldable pub stack_peek_at : Option Stack → ℕ → Ptr
stack_peek_at none index = null
stack_peek_at (some s) index =
    if leb s.top index then null else get_or s.items (s.top - 1 - index) null

unfoldable pub stack_is_empty : Option Stack → Bool
stack_is_empty none = true
stack_is_empty (some s) = s.top == 0

unfoldable pub stack_is_full : Option Stack → Bool
stack_is_full none = false
stack_is_full (some s) = s.top == s.capacity

unfoldable pub stack_size : Option Stack → ℕ
stack_size none = 0
stack_size (some s) = s.top

unfoldable pub stack_capacity : Option Stack → ℕ
stack_capacity none = 0
stack_capacity (some s) = s.capacity

-- The loop of `stack_clear`: the items that the free function is called with, from index `i` on for
-- `n` rounds.
unfoldable pub clear_items : List Ptr → ℕ → ℕ → List Ptr
clear_items items i zero = []
clear_items items i (suc n) =
    let rest = clear_items items (i + 1) n in
    let item = get_or items i null in if item == null then rest else item ∷ rest

unfoldable pub stack_clear : Option Stack → Bool → List Ptr × Option Stack
stack_clear none frees = ([], none)
stack_clear (some s) frees =
    (if frees then clear_items s.items 0 s.top else [], some (record s { top = 0 }))
