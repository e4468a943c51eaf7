-- ===== src/Urc/Registry.antt =====
-- urc_handle.c: `_atc_urc_register`, its outcomes and its blocks.
use atcortex.Base.{
  ℕ, ◌+◌, ◌≤◌, ◌<◌, ◌≡◌, refl, ap, ◌∙◌, true, false, Option, none, some, [], ◌∷◌, ◌++◌, arith,
  length, ◌==◌, Bool-cases, inl, inr,
}
use atcortex.Types.{Ptr, null, UrcHandlerEntry}
use atcortex.Platform.{World, Os, malloc, free}
use atcortex.Platform.Ledger.{blocks, remove, remove_newest, malloc_failed, malloc_done, free_lem}
use atcortex.Context.{Context, State, done, UrcNode, UrcList}
use atcortex.Urc.{
  int_max, has_id, find_id, first_candidate, add_entry, slist_append, register_in, register_found,
  atc_urc_register_entry,
}
use atcortex.Urc.Fresh.{IsId, next_id-IsId, find_id_lem}

-- What registering `entry` in `l` comes to, by its result: on failure the list is as before, and no
-- block is left over; on success the entry stands at the end, at the address `item`, under an identifier that was free.
abbrev pub Registered :
    {W : Type 0} → UrcHandlerEntry → UrcList → World W → Ptr → Option ℕ → State W → Type 0
Registered entry l w item none (c', w') =
    (c'.urc_handler_list ≡ some l) × (blocks w'.trace ≡ blocks w.trace) × IsId c'.urc_next_id
Registered entry l w item (some id) (c', w') =
    (node : UrcNode) × (c'.urc_handler_list ≡ some (record l { nodes = l.nodes ++ (node ∷ []) }))
    × (node.entry ≡ record entry { id = id })
    × (node.item ≡ item)
    × ((item == null) ≡ false)
    × IsId id
    × (has_id id l.nodes ≡ false)
    × (blocks w'.trace ≡ node.node ∷ (node.item ∷ blocks w.trace))
    × IsId c'.urc_next_id

module _ {W : Type 0} (os : Os W) where
  add_entry-Registered :
      (entry : UrcHandlerEntry) (id : ℕ) (l : UrcList) (c : Context) (w : World W)
      → c.urc_handler_list ≡ some l
      → IsId id
      → has_id id l.nodes ≡ false
      → Registered entry l w
          (malloc os 48 w).0
          (add_entry os entry id l c w).0
          (add_entry os entry id l c w).1
  unfolding add_entry slist_append
  add_entry-Registered entry id l c w e i fresh = elim (Bool-cases ((malloc os 48 w).0 == null)) [
    | inl no_entry ↦ rw no_entry (e, malloc_failed os 48 w no_entry, next_id-IsId id i)
    | inr got ↦ rw got (elim (Bool-cases ((malloc os 16 w1).0 == null)) [
      | inl no_node ↦ rw no_node (e, given_back no_node got, next_id-IsId id i)
      | inr node ↦ rw node (
        record {
          node = (malloc os 16 w1).0;
          item = (malloc os 48 w).0;
          entry = record entry { id = id };
        },
        refl,
        refl,
        refl,
        got,
        i,
        fresh,
        malloc_done os 16 w1 node ∙ ap (λ b. (malloc os 16 w1).0 ∷ b) (malloc_done os 48 w got),
        next_id-IsId id i,
      )
    ])
  ]
    where
      w1 : World W
      w1 = (malloc os 48 w).1

      given_back :
          ((malloc os 16 w1).0 == null) ≡ true
          → ((malloc os 48 w).0 == null) ≡ false
          → blocks (free os (malloc os 48 w).0 (malloc os 16 w1).1).1.trace ≡ blocks w.trace
      given_back no_node got =
          free_lem os (malloc os 48 w).0 (malloc os 16 w1).1
          ∙ ap (remove (malloc os 48 w).0)
              (malloc_failed os 16 w1 no_node ∙ malloc_done os 48 w got)
          ∙ remove_newest (malloc os 48 w).0 (blocks w.trace)

  -- With fewer entries than INT_MAX and a next identifier in range, registering comes to an end.
  -- It fails with the list as before and no block left over, or the entry stands at the end of
  -- the list under an identifier from 1 to INT_MAX that no other entry has, and two blocks hold
  -- it.
  pub atc_urc_register_entry_lem :
      (entry : UrcHandlerEntry) (l : UrcList) (c : Context) (w : World W)
      → c.urc_handler_list ≡ some l
      → length l.nodes < int_max
      → c.urc_next_id ≤ int_max
      → (id : Option ℕ) × (s : State W) × (atc_urc_register_entry os entry c w ≡ done (id, s))
        × Registered entry l w (malloc os 48 w).0 id s
  unfolding atc_urc_register_entry
  atc_urc_register_entry_lem entry l c w e few next =
      let (id, found, i, fresh) = find_id_lem (first_candidate c.urc_next_id) l.nodes first few in
      (
        (add_entry os entry id l c w).0,
        (add_entry os entry id l c w).1,
        ap (λ o. register_in os entry o c w) e ∙ in_list id found,
        add_entry-Registered entry id l c w e i fresh,
      )
    where
      first : IsId (first_candidate c.urc_next_id)
      first = unfold first_candidate in ground arith

      in_list :
          (id : ℕ)
          → find_id (length l.nodes + 1) l.nodes (first_candidate c.urc_next_id) ≡ some id
          → register_in os entry (some l) c w ≡ done (add_entry os entry id l c w)
      in_list id found =
          unfold register_in register_found in ap (λ o. register_found os entry l o c w) found
