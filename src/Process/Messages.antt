-- ===== src/Process/Messages.antt =====
-- ATCortex.c: the messages that the event loop works off.
use atcortex.Base.{
  ℕ, suc, ◌+◌, ◌≤◌, ◌<◌, ◌≡◌, refl, sym, subst, Option, none, some, List, [], ◌∷◌, ◌++◌, arith,
  length, length-append, ◌==◌, if◌then◌else◌, Bool-cases, inl, inr,
}
use atcortex.Types.{
  Ptr, null, AtcResult, UrcHandlerEntry, MsgBody, urc_register, urc_unregister, Msg,
}
use atcortex.Platform.{World, Os, malloc, free, semaphore_give, pure}
use atcortex.Context.{
  Context, UrcNode, UrcList, State, Run, done, null_dereference, out_of_fuel, and_then,
}
use atcortex.Urc.{
  int_max, nodes_of, next_id, first_candidate, slist_append, slist_remove, add_entry,
  register_found, register_in, atc_urc_register_entry, item_of, unregister_item, unregister_in,
  atc_urc_unregister_id,
}
use atcortex.Urc.Fresh.{IsId, next_id-IsId, find_id_lem}
use atcortex.Extern.{
  answer_id, answer_result, answer_register, dispatch, dispatch_body, finish_msg, handle_msg,
}
use atcortex.Process.Queues.{Queues, Runs, left, left-malloc, left-free, left-give, set_urcs-Runs}

module _ {W : Type 0} {os : Os W} (qs : Queues os) where
  -- The state is ready for more, and no message has come.
  abbrev pub Quiet : ℕ → World W → State W → Type 0
  Quiet k w (c', w') = Runs k c' × (left qs w' ≤ left qs w)

  -- The run is done, in such a state.
  abbrev pub EndsQuiet : ℕ → World W → Run (State W) → Type 0
  EndsQuiet k w (done s) = Quiet k w s
  EndsQuiet k w null_dereference = ⊥
  EndsQuiet k w out_of_fuel = ⊥

  fewer : {k : ℕ} {c : Context} → Runs (suc k) c → Runs k c
  fewer r = record { ready = r.ready; next = r.next; room = omega (arith, r.room) }

  add_entry-Quiet :
      (k id : ℕ) (entry : UrcHandlerEntry) (l : UrcList) (c : Context) (w : World W)
      → c.urc_handler_list ≡ some l
      → IsId id
      → Runs (suc k) c
      → Quiet k w (add_entry os entry id l c w).1
  unfolding add_entry slist_append nodes_of
  add_entry-Quiet k id entry l c w e i r =
      let w1 = (malloc os 48 w).1 in
      let room = subst (λ o. length (nodes_of o) + suc k < int_max) e r.room in
      let n = (next_id-IsId id i).1 in
      let same =
        set_urcs-Runs {m = k} c.urc_handler_list (next_id id) r n (omega (arith, r.room))
          r.ready.handlers in
      let a = left-malloc qs 48 w in
      let b = left-malloc qs 16 w1 in
      let d = left-free qs (malloc os 48 w).0 (malloc os 16 w1).1 in
      elim (Bool-cases ((malloc os 48 w).0 == null)) [
        | inl no_entry ↦ rw no_entry (same, a)
        | inr got ↦ rw got (elim (Bool-cases ((malloc os 16 w1).0 == null)) [
          | inl no_node ↦ rw no_node (same, omega arith)
          | inr node ↦ rw node (
            set_urcs-Runs
                (some (record l {
                  nodes = l.nodes ++ (added (malloc os 16 w1).0 (malloc os 48 w).0 ∷ []);
                }))
                (next_id id) r n (omega (arith, longer (malloc os 16 w1).0 (malloc os 48 w).0)) tt,
            omega arith,
          )
        ])
      ]
    where
      added : Ptr → Ptr → UrcNode
      added node item = record { node = node; item = item; entry = record entry { id = id } }

      longer : (node item : Ptr) → length (l.nodes ++ (added node item ∷ [])) ≡ length l.nodes + 1
      longer node item = length-append l.nodes (added node item ∷ [])

  -- The same of a run that has a result besides
  abbrev AnswersQuiet : ℕ → World W → Run (Option ℕ × State W) → Type 0
  AnswersQuiet k w (done (id, s)) = Quiet k w s
  AnswersQuiet k w null_dereference = ⊥
  AnswersQuiet k w out_of_fuel = ⊥

  register_in-Quiet :
      (k : ℕ) (entry : UrcHandlerEntry) (o : Option UrcList) (c : Context) (w : World W)
      → c.urc_handler_list ≡ o
      → Runs (suc k) c
      → AnswersQuiet k w (register_in os entry o c w)
  unfolding register_in register_found nodes_of
  register_in-Quiet k entry none c w e r = (fewer r, omega arith)
  register_in-Quiet k entry (some l) c w e r =
      let room = subst (λ o. length (nodes_of o) + suc k < int_max) e r.room in
      let first : IsId (first_candidate c.urc_next_id) =
        unfold first_candidate in ground (arith, r.next) in
      let (id, found, i, fresh) =
        find_id_lem (first_candidate c.urc_next_id) l.nodes first (omega (arith, room)) in
      subst (λ o. AnswersQuiet k w (register_found os entry l o c w)) (sym found)
        (add_entry-Quiet k id entry l c w e i r)

  left-answer_id :
      (p : Ptr) (id : Option ℕ) (w : World W) → left qs (answer_id p id w).1 ≡ left qs w
  unfolding answer_id
  left-answer_id p id w = elim (Bool-cases (p == null)) [ inl b ↦ rw b refl | inr b ↦ rw b refl ]

  answer_register-Quiet :
      (k : ℕ) (out_id : Ptr) (w : World W) (r : Run (Option ℕ × State W))
      → AnswersQuiet k w r
      → EndsQuiet k w (and_then r (answer_register out_id))
  unfolding answer_register
  answer_register-Quiet k out_id w (done (id, (c, w'))) (r, e) =
      (r, omega (arith, left-answer_id out_id id w'))
  answer_register-Quiet k out_id w null_dereference h = h
  answer_register-Quiet k out_id w out_of_fuel h = h

  slist_remove-fewer :
      (item : Ptr) (ns : List UrcNode) (w : World W)
      → (length (slist_remove os item ns w).0.1 ≤ length ns)
        × (left qs (slist_remove os item ns w).1 ≤ left qs w)
  unfolding slist_remove
  slist_remove-fewer item [] w = (omega arith, omega arith)
  slist_remove-fewer item (n ∷ ns) w =
      let (a, b) = slist_remove-fewer item ns w in
      elim (Bool-cases (n.item == item)) [
        | inr other ↦ rw other (omega arith, b)
        | inl hit ↦ rw hit (elim (Bool-cases (n.item == null)) [
          | inl empty ↦ rw empty (omega arith, left-free qs n.node w)
          | inr full ↦
              let d = left-free qs n.item w in
              let e = left-free qs n.node (free os n.item w).1 in rw full (omega arith, omega arith)
        ])
      ]

  unregister_item-Quiet :
      (k : ℕ) (l : UrcList) (o : Option Ptr) (c : Context) (w : World W)
      → c.urc_handler_list ≡ some l
      → Runs (suc k) c
      → Quiet k w (unregister_item os l o c w).1
  unfolding unregister_item nodes_of
  unregister_item-Quiet k l none c w e r = (fewer r, omega arith)
  unregister_item-Quiet k l (some item) c w e r =
      let room = subst (λ o. length (nodes_of o) + suc k < int_max) e r.room in
      let (a, b) = slist_remove-fewer item l.nodes w in
      (
        set_urcs-Runs (some (record l { nodes = (slist_remove os item l.nodes w).0.1 }))
            c.urc_next_id r r.next (omega (arith, room)) tt,
        b,
      )

  unregister_in-Quiet :
      (k id : ℕ) (o : Option UrcList) (c : Context) (w : World W)
      → c.urc_handler_list ≡ o
      → Runs (suc k) c
      → Quiet k w (unregister_in os id o c w).1
  unfolding unregister_in
  unregister_in-Quiet k id none c w e r = (fewer r, omega arith)
  unregister_in-Quiet k id (some l) c w e r = unregister_item-Quiet k l (item_of id l.nodes) c w e r

  left-answer_result :
      (p : Ptr) (r : AtcResult) (w : World W) → left qs (answer_result p r w).1 ≡ left qs w
  unfolding answer_result
  left-answer_result p r w = elim (Bool-cases (p == null)) [ inl b ↦ rw b refl | inr b ↦ rw b refl ]

  dispatch_body-Quiet :
      (k : ℕ) (body : MsgBody) (c : Context) (w : World W)
      → Runs (suc k) c
      → EndsQuiet k w (dispatch_body os body c w)
  unfolding dispatch_body atc_urc_register_entry atc_urc_unregister_id
  dispatch_body-Quiet k (urc_register entry out_id) c w r =
      answer_register-Quiet k out_id w (register_in os entry c.urc_handler_list c w)
        (register_in-Quiet k entry c.urc_handler_list c w refl r)
  dispatch_body-Quiet k (urc_unregister id out_result) c w r =
      let o = unregister_in os id c.urc_handler_list c w in
      let (a, b) = unregister_in-Quiet k id c.urc_handler_list c w refl r in
      (a, omega (arith, b, left-answer_result out_result o.0 o.1.1))

  dispatch-Quiet :
      (k : ℕ) (m : Msg) (c : Context) (w : World W)
      → Runs (suc k) c
      → EndsQuiet k w (dispatch os m c w)
  unfolding dispatch
  dispatch-Quiet k m c w r = elim (Bool-cases (m.addr == null)) [
    | inl no_data ↦ rw no_data (fewer r, omega arith)
    | inr given ↦ rw given (dispatch_body-Quiet k m.body c w r)
  ]

  left-finish_msg :
      (m : Msg) (c : Context) (w : World W) → left qs (finish_msg os m (c, w)).1 ≤ left qs w
  unfolding finish_msg
  left-finish_msg m c w =
      let w1 = ((if m.semaphore == null then pure tt else semaphore_give os m.semaphore) w).1 in
      let a : left qs w1 ≤ left qs w = elim (Bool-cases (m.semaphore == null)) [
        | inl b ↦ rw b (omega arith)
        | inr b ↦ rw b (left-give qs m.semaphore w)
      ] in
      elim (Bool-cases (m.addr == null)) [
        | inl b ↦ rw b a
        | inr b ↦ rw b (omega (arith, a, left-free qs m.addr w1))
      ]

  finish_msg-Quiet :
      (k : ℕ) (m : Msg) (w : World W) (r : Run (State W))
      → EndsQuiet k w r
      → EndsQuiet k w (and_then r (λ s. done (finish_msg os m s)))
  unfolding finish_msg
  finish_msg-Quiet k m w (done (c, w')) (r, e) = (r, omega (arith, left-finish_msg m c w'))
  finish_msg-Quiet k m w null_dereference h = h
  finish_msg-Quiet k m w out_of_fuel h = h

  pub handle_msg-Quiet :
      (k : ℕ) (m : Msg) (c : Context) (w : World W)
      → Runs (suc k) c
      → EndsQuiet k w (handle_msg os m c w)
  unfolding handle_msg
  handle_msg-Quiet k m c w r = finish_msg-Quiet k m w (dispatch os m c w) (dispatch-Quiet k m c w r)
