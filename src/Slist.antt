-- ===== src/Slist.antt =====
-- slist.c and slist.h: the singly linked list, with its nodes at addresses.
-- A `slist_t *` is an `Option`, `none` for NULL; a function that updates the list returns it behind
-- its result. The list may have a function that it hands the data of a dropped node to, which works
-- on the world and not on the nodes. A read or write through NULL, or through an address that holds
-- no node, is a `null_dereference`. The loops over the nodes have one round more than the list has
-- nodes.
pub mod Append
pub mod Destroy
pub mod Linked
pub mod Reads
pub mod Removal
pub mod Reverse
pub mod Unlink
pub mod Registry
use atcortex.Base.{
  ℕ, zero, suc, ◌+◌, ◌-◌, Bool, true, false, Option, none, some, List, [], ◌∷◌, ltb, leb, ◌==◌,
  ◌||◌, if◌then◌else◌,
}
use atcortex.Types.{Ptr, null}
use atcortex.Platform.{World, Os, Call, malloc, free}
use atcortex.Context.{Run, done, null_dereference, out_of_fuel, and_then}

-- `slist_node_t`; the field `data` is `item` here.
pub record Cell : Type 0 where
  pub item : Ptr
  pub next : Ptr

abbrev pub cell : Ptr → Ptr → Cell
cell item next = record { item = item; next = next }

-- The nodes in memory: `none` where no node is.
abbrev pub Store : Type 0
Store = Ptr → Option Cell

unfoldable pub put : Store → Ptr → Option Cell → Store
put s p c q = if q == p then c else s q

-- `slist_t`, with the address of its block
pub record Slist (W : Type 0) : Type 0 where
  pub block : Ptr
  pub head : Ptr
  pub tail : Ptr
  pub len : ℕ
  pub free_fn : Option (Ptr → World W → World W)

-- What an operation may end with: a result, the nodes and the world.
abbrev pub Cmd : Type 0 → Type 0 → Type 0
Cmd W A = Store → World W → Run (A × Store × World W)

-- `*p`, for code that goes on with the node there
unfoldable pub with_node : {A : Type 0} → Option Cell → (Cell → Run A) → Run A
with_node none k = null_dereference
with_node (some c) k = k c

module _ {W : Type 0} where
  -- `if(list->free_fn && curr->data) list->free_fn(curr->data)`
  unfoldable pub release : Option (Ptr → World W → World W) → Ptr → World W → World W
  release none item w = w
  release (some f) item w = if item == null then w else f item w

module _ {W : Type 0} (os : Os W) where
  -- `_slist_new_node`
  unfoldable pub slist_new_node : Ptr → Store → World W → Ptr × Store × World W
  slist_new_node item s w =
      let (p, w1) = malloc os 16 w in
      (p, if p == null then s else put s p (some (cell item null)), w1)

  unfoldable pub slist_create : Option (Ptr → World W → World W) → Call W (Option (Slist W))
  slist_create free_fn w =
      let (p, w1) = malloc os 32 w in
      (
        if p == null
            then none
            else some (record { block = p; head = null; tail = null; len = 0; free_fn = free_fn }),
        w1,
      )

  -- The loop of `slist_destroy`
  unfoldable pub destroy_loop : ℕ → Slist W → Ptr → Cmd W (Unit {0})
  destroy_loop zero l curr s w = out_of_fuel
  destroy_loop (suc fuel) l curr s w =
      let rest = with_node (s curr) (λ c.
        destroy_loop fuel l c.next (put s curr none)
          (free os curr (release l.free_fn c.item w)).1) in
      if curr == null then done (tt, s, w) else rest

  unfoldable pub slist_destroy : Option (Slist W) → Cmd W (Unit {0})
  slist_destroy none s w = done (tt, s, w)
  slist_destroy (some l) s w =
      and_then (destroy_loop (l.len + 1) l l.head s w)
        (λ (u, s', w'). done (tt, s', (free os l.block w').1))

  -- The part of `slist_append` behind the allocation
  unfoldable pub append_node : Slist W → Ptr → Cmd W (Bool × Option (Slist W))
  append_node l node s w =
      let l' = record l { tail = node; len = l.len + 1 } in
      if l.len == 0
      then done ((true, some (record l' { head = node })), s, w)
      else with_node (s l.tail)
          (λ c. done ((true, some l'), put s l.tail (some (record c { next = node })), w))

  unfoldable pub slist_append : Option (Slist W) → Ptr → Cmd W (Bool × Option (Slist W))
  slist_append none item s w = done ((false, none), s, w)
  slist_append (some l) item s w =
      let (node, s1, w1) = slist_new_node item s w in
      if node == null then done ((false, some l), s1, w1) else append_node l node s1 w1

  -- The part of `slist_prepend` behind the allocation
  unfoldable pub prepend_node : Slist W → Ptr → Cmd W (Bool × Option (Slist W))
  prepend_node l node s w =
      let l' = record l { head = node; len = l.len + 1 } in
      if l.len == 0
      then done ((true, some (record l' { tail = node })), s, w)
      else with_node (s node)
          (λ c. done ((true, some l'), put s node (some (record c { next = l.head })), w))

  unfoldable pub slist_prepend : Option (Slist W) → Ptr → Cmd W (Bool × Option (Slist W))
  slist_prepend none item s w = done ((false, none), s, w)
  slist_prepend (some l) item s w =
      let (node, s1, w1) = slist_new_node item s w in
      if node == null then done ((false, some l), s1, w1) else prepend_node l node s1 w1

  -- What `slist_remove` and `slist_remove_at` do with the node `curr`, which holds `c`, behind `prev`:
  -- the list takes the node out, its data goes to the free function, and the node is freed.
  unfoldable pub drop_node : Slist W → Ptr → Cell → Cmd W (Bool × Option (Slist W))
  drop_node l curr c s w = done (
    (true, some (record l { len = l.len - 1 })),
    put s curr none,
    (free os curr (release l.free_fn c.item w)).1,
  )

  unfoldable pub unlink : Slist W → Ptr → Ptr → Cell → Cmd W (Bool × Option (Slist W))
  unlink l prev curr c s w =
      if prev == null
      then drop_node (record l { head = c.next; tail = if l.len == 1 then null else l.tail }) curr c
          s w
      else with_node (s prev) (λ before.
        drop_node (record l { tail = if curr == l.tail then prev else l.tail }) curr c
          (put s prev (some (record before { next = c.next }))) w)

  -- The loop of `slist_remove`
  unfoldable pub remove_loop : Slist W → Ptr → ℕ → Ptr → Ptr → Cmd W (Bool × Option (Slist W))
  remove_loop l item zero prev curr s w = out_of_fuel
  remove_loop l item (suc fuel) prev curr s w =
      let rest = with_node (s curr) (λ c.
        if c.item == item
        then unlink l prev curr c s w
        else remove_loop l item fuel curr c.next s w) in
      if curr == null then done ((false, some l), s, w) else rest

  unfoldable pub slist_remove : Option (Slist W) → Ptr → Cmd W (Bool × Option (Slist W))
  slist_remove none item s w = done ((false, none), s, w)
  slist_remove (some l) item s w =
      if l.len == 0
      then done ((false, some l), s, w)
      else remove_loop l item (l.len + 1) null l.head s w

  -- The loop of `slist_remove_at`: `n` steps on from `curr`, and the removal of the node that is reached
  unfoldable pub remove_at_loop : Slist W → ℕ → Ptr → Ptr → Cmd W (Bool × Option (Slist W))
  remove_at_loop l zero prev curr s w = with_node (s curr) (λ c. unlink l prev curr c s w)
  remove_at_loop l (suc n) prev curr s w =
      with_node (s curr) (λ c. remove_at_loop l n curr c.next s w)

  unfoldable pub slist_remove_at : Option (Slist W) → ℕ → Cmd W (Bool × Option (Slist W))
  slist_remove_at none index s w = done ((false, none), s, w)
  slist_remove_at (some l) index s w =
      if leb l.len index
      then done ((false, some l), s, w)
      else remove_at_loop l index null l.head s w

-- The loop of `slist_get`: at most `n` steps on from `curr`
unfoldable pub get_loop : ℕ → Ptr → Store → Run Ptr
get_loop zero curr s = if curr == null then done null else with_node (s curr) (λ c. done c.item)
get_loop (suc n) curr s =
    let rest = with_node (s curr) (λ c. get_loop n c.next s) in
    if curr == null then done null else rest

-- The loop of `slist_reverse`
unfoldable pub reverse_loop : ℕ → Ptr → Ptr → Store → Run (Ptr × Store)
reverse_loop zero prev curr s = out_of_fuel
reverse_loop (suc fuel) prev curr s =
    let rest =
      with_node (s curr)
        (λ c. reverse_loop fuel curr c.next (put s curr (some (record c { next = prev })))) in
    if curr == null then done (prev, s) else rest

-- `SLIST_FOREACH`: the data of the nodes, in the order in which the loop comes to them
unfoldable pub foreach : ℕ → Ptr → Store → Run (List Ptr)
foreach zero node s = out_of_fuel
foreach (suc fuel) node s =
    let rest =
      with_node (s node) (λ c. and_then (foreach fuel c.next s) (λ items. done (c.item ∷ items))) in
    if node == null then done [] else rest

module _ {W : Type 0} where
  unfoldable pub slist_len : Option (Slist W) → ℕ
  slist_len none = 0
  slist_len (some l) = l.len

  unfoldable pub slist_get : Option (Slist W) → ℕ → Store → Run Ptr
  slist_get none index s = done null
  slist_get (some l) index s =
      if leb l.len index
      then done null
      else (if index == l.len - 1
          then with_node (s l.tail) (λ c. done c.item)
          else get_loop index l.head s)

  unfoldable pub slist_reverse : Option (Slist W) → Store → Run (Option (Slist W) × Store)
  slist_reverse none s = done (none, s)
  slist_reverse (some l) s =
      if ltb l.len 2
      then done (some l, s)
      else and_then (reverse_loop (l.len + 1) null l.head s)
          (λ (head, s'). done (some (record l { head = head; tail = l.head }), s'))
