-- ===== src/Slist/Registry.antt =====
-- The list of URC handlers in memory: slist.c's operations as urc_handle.c uses them.
use atcortex.Base.{
  ◌≡◌, ◌≢◌, refl, ap, ◌∙◌, sym, subst, Bool, false, Bool-cases, inl, inr, Option, none, some, List,
  [], ◌∷◌, ◌++◌, arith, ◌==◌, if◌then◌else◌,
}
use atcortex.Types.{Ptr, null, UrcHandlerEntry}
use atcortex.Platform.{World, Os, malloc, free, pure}
use atcortex.Context.{UrcNode, UrcList}
use atcortex.Urc
use atcortex.Slist.{Store, Slist, release, slist_append, slist_remove}
use atcortex.Slist.Linked.{Cells, has, IsList, Becomes, Ends, Ends-map}
use atcortex.Slist.Append.{slist_append-Becomes}
use atcortex.Slist.Removal.{has_item, erase, owner, slist_remove-Becomes}

-- The nodes of a list of handlers: their addresses, and those of their entries
abbrev pub cells_of : List UrcNode → Cells
cells_of [] = []
cells_of (n ∷ ns) = (n.node, n.item) ∷ cells_of ns

cells_of-append : (ns ms : List UrcNode) → cells_of (ns ++ ms) ≡ cells_of ns ++ cells_of ms
cells_of-append [] ms = refl
cells_of-append (n ∷ ns) ms = ap (◌∷◌ (n.node, n.item)) (cells_of-append ns ms)

module _ {W : Type 0} (os : Os W) where
  -- `urc_free`
  unfoldable pub urc_free : Ptr → World W → World W
  urc_free p w = (free os p w).1

  -- What is done with the entry of a node that goes
  release_entry :
      (a b : Ptr) (w : World W)
      → a ≡ b
      → ((if a == null then pure tt else free os a) w).1 ≡ release (some urc_free) b w
  unfolding release urc_free
  release_entry a b w e = elim (Bool-cases (b == null)) [
    | inl h ↦ rw (e, h) refl
    | inr h ↦ rw (e, h) refl
  ]

  slist_remove-erase :
      (item : Ptr) (ns : List UrcNode) (w : World W)
      → ((Urc.slist_remove os item ns w).0.0 ≡ has_item item (cells_of ns))
        × (cells_of (Urc.slist_remove os item ns w).0.1 ≡ erase item (cells_of ns))
        × ((Urc.slist_remove os item ns w).1 ≡ (
            if has_item item (cells_of ns)
            then (free os (owner item (cells_of ns)) (release (some urc_free) item w)).1
            else w))
  unfolding Urc.slist_remove
  slist_remove-erase item [] w = (refl, refl, refl)
  slist_remove-erase item (n ∷ ns) w =
      let (a, b, c) = slist_remove-erase item ns w in
      elim (Bool-cases (n.item == item)) [
        | inl h ↦
            let e : n.item ≡ item = ground arith in
            rw h (refl, refl, ap (λ v. (free os n.node v).1) (release_entry n.item item w e))
        | inr h ↦ simp (h, a, b, c) (refl, refl, refl)
      ]

  -- An operation in memory ends with the result, the nodes and the world that one on the registry ends
  -- with, and the rest of memory, at `q`, as before.
  abbrev pub EndsAs :
      Slist W
      → Store
      → Ptr
      → (Bool × List UrcNode) × World W
      → Bool × Option (Slist W)
      → Store
      → World W
      → Type 0
  EndsAs l s q ((found, ns), w1) (ok, l') s' w' =
      (ok ≡ found) × Becomes l (cells_of ns) s' l' × (w' ≡ w1) × (s' q ≡ s q)

  -- For a list in memory whose data `urc_free` frees, and whose nodes are those of the registry,
  -- `slist_remove` of slist.c ends as the operation on the list of nodes does: the same result
  -- and the same calls of the allocator, and memory with the nodes that are left. An address that
  -- no node has is as before.
  pub slist_remove-EndsAs :
      (l : Slist W) (ns : List UrcNode) (item : Ptr) (s : Store) (w : World W) (q : Ptr)
      → IsList s l (cells_of ns)
      → l.free_fn ≡ some urc_free
      → has q (cells_of ns) ≡ false
      → Ends (EndsAs l s q (Urc.slist_remove os item ns w)) (slist_remove os (some l) item s w)
  slist_remove-EndsAs l ns item s w q i f h =
      let (a, b, c) = slist_remove-erase item ns w in
      Ends-map
        (λ o s' w' (x, y, z, t, u). (
          x ∙ sym a,
          subst (λ ds. Becomes l ds s' o.1) (sym b) y,
          z
              ∙ ap
                  (λ g.
                    if has_item item (cells_of ns)
                    then (free os (owner item (cells_of ns)) (release g item w)).1
                    else w)
                  f
              ∙ sym c,
          u,
        ))
        (slist_remove os (some l) item s w) (slist_remove-Becomes os l (cells_of ns) item s w q i h)

  -- For a list in memory whose nodes are those of the registry, and an allocator that gives no
  -- address of a node, `slist_append` of slist.c ends as the operation on the list of nodes does:
  -- the same result and the same calls of the allocator, and memory with the nodes of the longer
  -- list, or of the old one where the allocator fails. An address that neither is new nor belongs
  -- to a node is as before.
  pub slist_append-EndsAs :
      (l : Slist W) (u : UrcList) (item : Ptr) (entry : UrcHandlerEntry) (s : Store) (w : World W)
      (q : Ptr)
      → IsList s l (cells_of u.nodes)
      → s (malloc os 16 w).0 ≡ none
      → has q (cells_of u.nodes) ≡ false
      → q ≢ (malloc os 16 w).0
      → Ends
          (EndsAs l s q (
            (
              (Urc.slist_append os u item entry w).0.0,
              (Urc.slist_append os u item entry w).0.1.nodes,
            ),
            (Urc.slist_append os u item entry w).1,
          ))
          (slist_append os (some l) item s w)
  unfolding Urc.slist_append
  slist_append-EndsAs l u item entry s w q i f h n =
      let p = (malloc os 16 w).0 in
      let r = slist_append-Becomes os l (cells_of u.nodes) item s w q i f h n in
      let node : UrcNode = record { node = p; item = item; entry = entry } in
      elim (Bool-cases (p == null)) [
        | inl b ↦ simp b (simp b at r)
        | inr b ↦
            let e = sym (cells_of-append u.nodes (node ∷ [])) in
            simp b (
              Ends-map (λ o s' w' (x, y, z, t). (x, subst (λ ds. Becomes l ds s' o.1) e y, z, t))
                (slist_append os (some l) item s w) (simp b at r))
      ]
