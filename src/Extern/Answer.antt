-- ===== src/Extern/Answer.antt =====
-- extern_msg_handle.c: what the caller of a message gets, and what is left of the message.
use atcortex.Base.{
  ℕ, ◌≤◌, ◌<◌, ◌≡◌, ◌≢◌, refl, ap, ◌∙◌, false, Option, none, some, List, [], ◌∷◌, arith, length,
  ◌==◌, Bool-cases, inl, inr,
}
use atcortex.Types.{Ptr, null, UrcHandlerEntry, MsgBody, urc_register, urc_unregister, Msg}
use atcortex.Platform.{
  World, Os, Memory, freed, gave, update, malloc, free, semaphore_give, write_id, write_result,
}
use atcortex.Context.{Context, UrcNode, UrcList, State, Run, done, and_then}
use atcortex.Urc.{
  int_max, nodes_of, first_candidate, slist_append, slist_remove, add_entry, register_found,
  register_in, atc_urc_register_entry, item_of, unregister_item, unregister_in,
  atc_urc_unregister_id,
}
use atcortex.Urc.Fresh.{IsId, find_id_lem}
use atcortex.Extern.{
  answer_id, answer_result, answer_register, dispatch, dispatch_body, finish_msg, handle_msg,
}

-- The address of the variable that the answer goes to
abbrev pub answers_to : MsgBody → Ptr
answers_to (urc_register entry out_id) = out_id
answers_to (urc_unregister id out_result) = out_result

nonnull : (p : ℕ) → p ≢ null → (p == null) ≡ false
nonnull p h = ground arith

module _ {W : Type 0} (os : Os W) where
  memory-malloc : (n : ℕ) (w : World W) → (malloc os n w).1.memory ≡ w.memory
  unfolding malloc
  memory-malloc n w = elim (Bool-cases ((os.os_malloc n w.system).0 == null)) [
    | inl b ↦ rw b refl
    | inr b ↦ rw b refl
  ]

  memory-free : (p : Ptr) (w : World W) → (free os p w).1.memory ≡ w.memory
  unfolding free
  memory-free p w = refl

  memory-add_entry :
      (entry : UrcHandlerEntry) (id : ℕ) (l : UrcList) (c : Context) (w : World W)
      → (add_entry os entry id l c w).1.1.memory ≡ w.memory
  unfolding add_entry slist_append
  memory-add_entry entry id l c w =
      let w1 = (malloc os 48 w).1 in
      let a = memory-malloc 48 w in
      let b = memory-malloc 16 w1 in
      elim (Bool-cases ((malloc os 48 w).0 == null)) [
        | inl no_entry ↦ rw no_entry a
        | inr got ↦ rw got (elim (Bool-cases ((malloc os 16 w1).0 == null)) [
          | inl no_node ↦ rw no_node (memory-free (malloc os 48 w).0 (malloc os 16 w1).1 ∙ b ∙ a)
          | inr node ↦ rw node (b ∙ a)
        ])
      ]

  memory-slist_remove :
      (item : Ptr) (ns : List UrcNode) (w : World W)
      → (slist_remove os item ns w).1.memory ≡ w.memory
  unfolding slist_remove
  memory-slist_remove item [] w = refl
  memory-slist_remove item (n ∷ ns) w = elim (Bool-cases (n.item == item)) [
    | inr other ↦ rw other (memory-slist_remove item ns w)
    | inl hit ↦ rw hit (elim (Bool-cases (n.item == null)) [
      | inl empty ↦ rw empty (memory-free n.node w)
      | inr full ↦ rw full (memory-free n.node (free os n.item w).1 ∙ memory-free n.item w)
    ])
  ]

  -- Registering comes to an end, and writes to no variable of a caller's.
  register_in-memory :
      (entry : UrcHandlerEntry) (o : Option UrcList) (c : Context) (w : World W)
      → length (nodes_of o) < int_max
      → c.urc_next_id ≤ int_max
      → (id : Option ℕ) × (s : State W) × (register_in os entry o c w ≡ done (id, s))
        × (s.1.memory ≡ w.memory)
  unfolding register_in register_found nodes_of
  register_in-memory entry none c w few next = (none, (c, w), refl, refl)
  register_in-memory entry (some l) c w few next =
      let first : IsId (first_candidate c.urc_next_id) = unfold first_candidate in ground arith in
      let (id, found, i, fresh) = find_id_lem (first_candidate c.urc_next_id) l.nodes first few in
      (
        (add_entry os entry id l c w).0,
        (add_entry os entry id l c w).1,
        ap (λ o. register_found os entry l o c w) found,
        memory-add_entry entry id l c w,
      )

  memory-unregister_item :
      (l : UrcList) (o : Option Ptr) (c : Context) (w : World W)
      → (unregister_item os l o c w).1.1.memory ≡ w.memory
  unfolding unregister_item
  memory-unregister_item l none c w = refl
  memory-unregister_item l (some item) c w = memory-slist_remove item l.nodes w

  memory-unregister_in :
      (id : ℕ) (o : Option UrcList) (c : Context) (w : World W)
      → (unregister_in os id o c w).1.1.memory ≡ w.memory
  unfolding unregister_in
  memory-unregister_in id none c w = refl
  memory-unregister_in id (some l) c w = memory-unregister_item l (item_of id l.nodes) c w

  -- What comes of a message: the registry as the operation leaves it, with its result in the variable
  -- of the caller's and in no other. The last calls, the latest first, free the block of the message
  -- and wake the caller.
  abbrev pub Answered : Msg → Context → World W → MsgBody → Run (State W) → Type 0
  Answered m c w (urc_register entry out_id) r =
      (id : Option ℕ) × (s : State W) × (w' : World W) × (atc_urc_register_entry os entry c w
        ≡ done (id, s))
      × (r ≡ done (s.0, w'))
      × (w'.memory ≡ record (w.memory) { ids = update w.memory.ids out_id id })
      × (w'.trace ≡ freed m.addr ∷ (gave m.semaphore ∷ s.1.trace))
  Answered m c w (urc_unregister id out_result) r =
      (w' : World W) × (r ≡ done ((atc_urc_unregister_id os id c w).1.0, w'))
      × (w'.memory ≡ record (w.memory) {
        results = update w.memory.results out_result (atc_urc_unregister_id os id c w).0;
      })
      × (w'.trace ≡ freed m.addr ∷ (gave m.semaphore ∷ (atc_urc_unregister_id os id c w).1.1.trace))

  -- The end of every message
  finish_msg_lem :
      (m : Msg) (c : Context) (w : World W)
      → m.addr ≢ null
      → m.semaphore ≢ null
      → ((finish_msg os m (c, w)).1.memory ≡ w.memory)
        × ((finish_msg os m (c, w)).1.trace ≡ freed m.addr ∷ (gave m.semaphore ∷ w.trace))
  unfolding finish_msg free semaphore_give
  finish_msg_lem m c w a b = rw (nonnull m.addr a, nonnull m.semaphore b) (refl, refl)

  dispatch_body-Answered :
      (m : Msg) (body : MsgBody) (c : Context) (w : World W)
      → m.addr ≢ null
      → m.semaphore ≢ null
      → answers_to body ≢ null
      → length (nodes_of c.urc_handler_list) < int_max
      → c.urc_next_id ≤ int_max
      → Answered m c w body (and_then (dispatch_body os body c w) (λ s. done (finish_msg os m s)))
  unfolding dispatch_body answer_register answer_id answer_result atc_urc_register_entry
      atc_urc_unregister_id finish_msg
  dispatch_body-Answered m (urc_register entry out_id) c w a b o few next =
      let (id, s, e, same) = register_in-memory entry c.urc_handler_list c w few next in
      let w1 = (write_id out_id id s.1).1 in
      let (x, y) = finish_msg_lem m s.0 w1 a b in
      (
        id,
        s,
        (finish_msg os m (s.0, w1)).1,
        e,
        rw (e, nonnull out_id o) refl,
        x ∙ ap (λ (v : Memory). record v { ids = update v.ids out_id id }) same,
        y,
      )
  dispatch_body-Answered m (urc_unregister id out_result) c w a b o few next =
      let r = unregister_in os id c.urc_handler_list c w in
      let same = memory-unregister_in id c.urc_handler_list c w in
      let w1 = (write_result out_result r.0 r.1.1).1 in
      let (x, y) = finish_msg_lem m r.1.0 w1 a b in
      (
        (finish_msg os m (r.1.0, w1)).1,
        rw (nonnull out_result o) refl,
        x ∙ ap (λ (v : Memory). record v { results = update v.results out_result r.0 }) same,
        y,
      )

  -- Where a message has a block, a semaphore and a variable for its answer, and the registry has
  -- room, handling it comes to an end. The registry is as the operation leaves it, its result
  -- stands in the variable of the caller, no other variable of a caller is written to, and the
  -- last two calls wake the caller and then free the block of the message.
  pub handle_msg_lem :
      (m : Msg) (c : Context) (w : World W)
      → m.addr ≢ null
      → m.semaphore ≢ null
      → answers_to m.body ≢ null
      → length (nodes_of c.urc_handler_list) < int_max
      → c.urc_next_id ≤ int_max
      → Answered m c w m.body (handle_msg os m c w)
  unfolding handle_msg dispatch
  handle_msg_lem m c w a b o few next =
      rw (nonnull m.addr a) (dispatch_body-Answered m m.body c w a b o few next)
