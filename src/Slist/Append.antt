-- ===== src/Slist/Append.antt =====
-- slist_append and slist_prepend.
use atcortex.Base.{
  ◌≡◌, ◌≢◌, refl, ◌∙◌, sym, true, false, not, none, some, [], ◌∷◌, ◌++◌, arith, length-append,
  Bool-cases, inl, inr, ◌==◌, if◌then◌else◌,
}
use atcortex.Types.{Ptr, null}
use atcortex.Platform.{World, Os, malloc}
use atcortex.Slist.{
  cell, Store, put, Slist, with_node, slist_new_node, append_node, slist_append, prepend_node,
  slist_prepend,
}
use atcortex.Slist.Linked.{
  Cells, has, last_from, item_from, suc_nonzero, Linked, put-same, put-other, has-other, IsList,
  Becomes, Ends, Ends-map, IsList-put, Linked-put, Linked-has, has-last, has-append, Linked-last,
  last-append,
}

-- The last node is linked to a new one, which stands behind no other.
Linked-link :
    (s : Store) (p d : Ptr) (cs : Cells) (node item : Ptr)
    → Linked s ((p, d) ∷ cs) null
    → has node ((p, d) ∷ cs) ≡ false
    → node ≢ null
    → s node ≡ some (cell item null)
    → Linked
        (put s (last_from p cs) (some (cell (item_from d cs) node)))
        (((p, d) ∷ cs) ++ ((node, item) ∷ []))
        null
Linked-link s p d [] node item (a, b, c, k) h n e =
    let o : node ≢ p = ground arith in
    (a, put-same s p _, ground arith, (n, put-other s p _ node o ∙ e, refl, tt))
Linked-link s p d ((q, x) ∷ cs) node item (a, b, c, k) h n e =
    let m = has-append p ((q, x) ∷ cs) ((node, item) ∷ []) in
    let o = has-other p (last_from q cs) ((q, x) ∷ cs) c (has-last q x cs) in
    (
      a,
      put-other s (last_from q cs) _ p o ∙ b,
      ground arith,
      Linked-link s q x cs node item k (ground arith) n e,
    )

module _ {W : Type 0} (os : Os W) where
  -- The new node's place in the list, whether or not it is the first one
  append_node-Becomes :
      (l : Slist W) (cs : Cells) (node item : Ptr) (s : Store) (w : World W) (q : Ptr)
      → IsList s l cs
      → has node cs ≡ false
      → node ≢ null
      → s node ≡ some (cell item null)
      → has q cs ≡ false
      → Ends
          (λ (ok, l') s' w'.
            (ok ≡ true) × Becomes l (cs ++ ((node, item) ∷ [])) s' l' × (w' ≡ w) × (s' q ≡ s q))
          (append_node os l node s w)
  unfolding append_node with_node
  append_node-Becomes l [] node item s w q (i1, i2, i3, k) h n e o =
      simp i3 (refl, ((refl, refl, refl, (n, e, refl, tt)), refl, refl), refl, refl)
  append_node-Becomes l ((p, d) ∷ cs) node item s w q (i1, i2, i3, k) h n e o =
      let j = Linked-last s p d cs null k in
      let r = Linked-link s p d cs node item k h n e in
      let m = length-append ((p, d) ∷ cs) ((node, item) ∷ []) in
      let t = last-append p cs ((node, item) ∷ []) in
      let u = has-other q (last_from p cs) ((p, d) ∷ cs) o (has-last p d cs) in
      simp (i3, i2, j, suc_nonzero)
        (refl, ((i1, sym t, omega arith, r), refl, refl), refl, put-other s (last_from p cs) _ q u)

  -- `slist_append` on a list whose nodes are linked in memory, with an allocator that gives no
  -- address of a node, ends without dereferencing NULL. It fails with the list as before exactly
  -- when the allocator does, or the list has the new node with the data at its end, with head,
  -- tail, length and links in order. An address that neither is new nor belongs to a node is as
  -- before.
  pub slist_append-Becomes :
      (l : Slist W) (cs : Cells) (item : Ptr) (s : Store) (w : World W) (q : Ptr)
      → IsList s l cs
      → s (malloc os 16 w).0 ≡ none
      → has q cs ≡ false
      → q ≢ (malloc os 16 w).0
      → Ends
          (λ (ok, l') s' w'.
            (ok ≡ not ((malloc os 16 w).0 == null))
            × Becomes l
                (if (malloc os 16 w).0 == null then cs else cs ++ (((malloc os 16 w).0, item) ∷ []))
                s'
                l'
            × (w' ≡ (malloc os 16 w).1)
            × (s' q ≡ s q))
          (slist_append os (some l) item s w)
  unfolding slist_append slist_new_node
  slist_append-Becomes l cs item s w q i f h n =
      let p = (malloc os 16 w).0 in
      let s1 = put s p (some (cell item null)) in
      elim (Bool-cases (p == null)) [
        | inl b ↦ rw b (refl, (i, refl, refl), refl, refl)
        | inr b ↦
            let o = Linked-has s p cs null f i.3 in
            let r =
              append_node-Becomes l cs p item s1 (malloc os 16 w).1 q (IsList-put s p _ l cs o i) o
                (ground arith) (put-same s p _) h in
            rw b (
              Ends-map (λ a s' w' (x, y, z, t). (x, y, z, t ∙ put-other s p _ q n))
                (append_node os l p s1 (malloc os 16 w).1) r)
      ]

  prepend_node-Becomes :
      (l : Slist W) (cs : Cells) (node item : Ptr) (s : Store) (w : World W) (q : Ptr)
      → IsList s l cs
      → has node cs ≡ false
      → node ≢ null
      → s node ≡ some (cell item null)
      → q ≢ node
      → Ends
          (λ (ok, l') s' w'.
            (ok ≡ true) × Becomes l ((node, item) ∷ cs) s' l' × (w' ≡ w) × (s' q ≡ s q))
          (prepend_node os l node s w)
  unfolding prepend_node with_node
  prepend_node-Becomes l [] node item s w q (i1, i2, i3, k) h n e o =
      simp i3 (refl, ((refl, refl, refl, (n, e, refl, tt)), refl, refl), refl, refl)
  prepend_node-Becomes l ((p, d) ∷ cs) node item s w q (i1, i2, i3, k) h n e o =
      let c = (p, d) ∷ cs in
      simp (i3, i1, e, suc_nonzero)
        (
          refl,
          (
            (refl, i2, omega arith, (n, put-same s node _, h, Linked-put s node _ c null h k)),
            refl,
            refl,
          ),
          refl,
          put-other s node _ q o,
        )

  slist_prepend-Becomes :
      (l : Slist W) (cs : Cells) (item : Ptr) (s : Store) (w : World W) (q : Ptr)
      → IsList s l cs
      → s (malloc os 16 w).0 ≡ none
      → q ≢ (malloc os 16 w).0
      → Ends
          (λ (ok, l') s' w'.
            (ok ≡ not ((malloc os 16 w).0 == null))
            × Becomes l
                (if (malloc os 16 w).0 == null then cs else ((malloc os 16 w).0, item) ∷ cs)
                s'
                l'
            × (w' ≡ (malloc os 16 w).1)
            × (s' q ≡ s q))
          (slist_prepend os (some l) item s w)
  unfolding slist_prepend slist_new_node
  slist_prepend-Becomes l cs item s w q i f n =
      let p = (malloc os 16 w).0 in
      let s1 = put s p (some (cell item null)) in
      elim (Bool-cases (p == null)) [
        | inl b ↦ rw b (refl, (i, refl, refl), refl, refl)
        | inr b ↦
            let o = Linked-has s p cs null f i.3 in
            let r =
              prepend_node-Becomes l cs p item s1 (malloc os 16 w).1 q (IsList-put s p _ l cs o i) o
                (ground arith) (put-same s p _) n in
            rw b (
              Ends-map (λ a s' w' (x, y, z, t). (x, y, z, t ∙ put-other s p _ q n))
                (prepend_node os l p s1 (malloc os 16 w).1) r)
      ]
