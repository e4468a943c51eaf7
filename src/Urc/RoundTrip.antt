-- ===== src/Urc/RoundTrip.antt =====
-- urc_handle.c: `_atc_urc_register` followed by `_atc_urc_unregister`.
use atcortex.Base.{
  ℕ, ◌≤◌, ◌<◌, ◌≡◌, refl, ap, subst, ◌∙◌, sym, true, false, Option, none, some, List, [], ◌∷◌, ◌++◌,
  arith, length, ◌==◌, if◌then◌else◌,
}
use atcortex.Types.{Ptr, null, success, UrcHandlerEntry}
use atcortex.Platform.{World, Os, malloc}
use atcortex.Platform.Ledger.{blocks, remove, remove_newest, remove_second}
use atcortex.Context.{Context, State, Run, done, null_dereference, out_of_fuel, UrcNode, UrcList}
use atcortex.Urc.{int_max, has_id, atc_urc_register_entry, atc_urc_unregister_id}
use atcortex.Urc.Registry.{Registered, atc_urc_register_entry_lem}
use atcortex.Urc.Removal.{
  has_item, Apart, drop_id, node_of, without, Unregistered, atc_urc_unregister_id_lem,
}

has_id-last :
    (id : ℕ) (ns : List UrcNode) (n : UrcNode)
    → has_id id (ns ++ (n ∷ [])) ≡ (if has_id id ns then true else n.entry.id == id)
unfolding has_id
has_id-last id [] n = ground arith
has_id-last id (m ∷ ns) n = ground (arith, has_id-last id ns n)

has_item-last :
    (item : Ptr) (ns : List UrcNode) (n : UrcNode)
    → has_item item (ns ++ (n ∷ [])) ≡ (if has_item item ns then true else n.item == item)
unfolding has_item
has_item-last item [] n = ground arith
has_item-last item (m ∷ ns) n = ground (arith, has_item-last item ns n)

-- A new node with an identifier and a block of its own keeps the nodes apart.
Apart-last :
    (ns : List UrcNode) (n : UrcNode)
    → Apart ns
    → has_id n.entry.id ns ≡ false
    → has_item n.item ns ≡ false
    → Apart (ns ++ (n ∷ []))
unfolding has_id has_item
Apart-last [] n a e f = (refl, refl, tt)
Apart-last (m ∷ ns) n a e f = (
  ground (arith, has_id-last m.entry.id ns n, a.0),
  ground (arith, has_item-last m.item ns n, a.1),
  Apart-last ns n a.2 (ground arith) (ground arith),
)

drop_id-last :
    (ns : List UrcNode) (n : UrcNode)
    → has_id n.entry.id ns ≡ false
    → drop_id n.entry.id (ns ++ (n ∷ [])) ≡ ns
unfolding has_id drop_id
drop_id-last [] n e = ground arith
drop_id-last (m ∷ ns) n e = ground (arith, drop_id-last ns n)

node_of-last :
    (ns : List UrcNode) (n : UrcNode)
    → has_id n.entry.id ns ≡ false
    → node_of n.entry.id (ns ++ (n ∷ [])) ≡ some n
unfolding has_id node_of
node_of-last [] n e = ground arith
node_of-last (m ∷ ns) n e = ground (arith, node_of-last ns n)

-- The two blocks of a node go, whatever others there are.
without-last :
    (n : UrcNode) (bs : List Ptr)
    → (n.item == null) ≡ false
    → without n (n.node ∷ (n.item ∷ bs)) ≡ bs
without-last n bs e =
    rw e (ap (remove n.node) (remove_second n.node n.item bs) ∙ remove_newest n.node bs)

module _ {W : Type 0} (os : Os W) where
  -- The list and the blocks behind registering and then unregistering the identifier, or behind
  -- registering in vain.
  abbrev pub Undone : UrcList → World W → Run (Option ℕ × State W) → Type 0
  Undone l w (done (none, (c1, w1))) =
      (c1.urc_handler_list ≡ some l) × (blocks w1.trace ≡ blocks w.trace)
  Undone l w (done (some id, (c1, w1))) =
      let (result, (c2, w2)) = atc_urc_unregister_id os id c1 w1 in
      (l1 : UrcList) × (c1.urc_handler_list ≡ some l1)
      × Apart l1.nodes
      × (result ≡ success)
      × (c2.urc_handler_list ≡ some l)
      × (blocks w2.trace ≡ blocks w.trace)
  Undone l w null_dereference = ⊥
  Undone l w out_of_fuel = ⊥

  Registered-Undone :
      (entry : UrcHandlerEntry) (l : UrcList) (w : World W) (item : Ptr) (id : Option ℕ)
      (s : State W)
      → Apart l.nodes
      → has_item item l.nodes ≡ false
      → Registered entry l w item id s
      → Undone l w (done (id, s))
  Registered-Undone entry l w item none (c1, w1) a fresh r = (r.0, r.1)
  Registered-Undone entry l w item (some id) (c1, w1) a fresh
        (n, list, e, at, real, i, free, b, next) =
      let same : n.entry.id ≡ id = ap (λ (x : UrcHandlerEntry). x.id) e in
      let new : has_id n.entry.id l.nodes ≡ false = ap (λ k. has_id k l.nodes) same ∙ free in
      let apart : Apart (l.nodes ++ (n ∷ [])) =
        Apart-last l.nodes n a new (ap (λ p. has_item p l.nodes) at ∙ fresh) in
      let has : has_id id (l.nodes ++ (n ∷ [])) ≡ true =
        ground (arith, has_id-last id l.nodes n, same, free) in
      let l1 : UrcList = record l { nodes = l.nodes ++ (n ∷ []) } in
      let (ok, list', others, m, first, gone) =
        subst (λ b. Unregistered id l1 c1 w1 b (atc_urc_unregister_id os id c1 w1)) has
          (atc_urc_unregister_id_lem os id l1 c1 w1 list apart) in
      let found : some n ≡ some m =
        sym (node_of-last l.nodes n new) ∙ ap (λ k. node_of k (l.nodes ++ (n ∷ []))) same ∙ first in
      let it : n ≡ m = cc in
      (
        l1,
        list,
        apart,
        ok,
        list'
            ∙ ap (λ ns. some (record l { nodes = ns }))
                (ap (λ k. drop_id k (l.nodes ++ (n ∷ []))) (sym same) ∙ drop_id-last l.nodes n new),
        gone
            ∙ ap (λ x. without x (blocks w1.trace)) (sym it)
            ∙ ap (without n) b
            ∙ without-last n (blocks w.trace) (ap (λ p. p == null) at ∙ real),
      )

  -- Where the entries have identifiers and blocks of their own, there are fewer than INT_MAX, the
  -- next identifier is in range, and the block that the allocator gives belongs to no entry yet,
  -- registering an entry fails with the list and the blocks as they were, or keeps the entries
  -- apart, and unregistering the identifier that it returned succeeds and makes the list the one
  -- from before, with the blocks from before outstanding.
  pub unregister-register :
      (entry : UrcHandlerEntry) (l : UrcList) (c : Context) (w : World W)
      → c.urc_handler_list ≡ some l
      → length l.nodes < int_max
      → c.urc_next_id ≤ int_max
      → Apart l.nodes
      → has_item (malloc os 48 w).0 l.nodes ≡ false
      → Undone l w (atc_urc_register_entry os entry c w)
  unregister-register entry l c w e few next a fresh =
      let (id, s, run, r) = atc_urc_register_entry_lem os entry l c w e few next in
      subst (Undone l w) (sym run) (Registered-Undone entry l w (malloc os 48 w).0 id s a fresh r)
