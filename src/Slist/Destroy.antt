-- ===== src/Slist/Destroy.antt =====
-- slist_create and slist_destroy.
use atcortex.Base.{
  ℕ, zero, suc, ◌+◌, ◌<◌, ◌≡◌, refl, ap, ◌∙◌, Option, none, some, [], ◌∷◌, arith, length,
  if◌then◌else◌,
}
use atcortex.Types.{Ptr, null}
use atcortex.Platform.{World, Os, free}
use atcortex.Context.{Run, done, null_dereference, out_of_fuel, and_then}
use atcortex.Slist.{Store, put, Slist, with_node, release, destroy_loop, slist_destroy}
use atcortex.Slist.Linked.{Cells, first, has, Linked, IsList, Ends, Ends-map, Linked-put, eq_false}

put-freed :
    (s : Store) (q p d : Ptr) (cs : Cells)
    → (if has q cs then none else put s p none q) ≡ (if has q ((p, d) ∷ cs) then none else s q)
unfolding put
put-freed s q p d cs = ground arith

module _ {W : Type 0} (os : Os W) where
  -- The data of each node is released, and the node freed, from the front on.
  abbrev pub free_all : Cells → Option (Ptr → World W → World W) → World W → World W
  free_all [] f w = w
  free_all ((p, d) ∷ cs) f w = free_all cs f (free os p (release f d w)).1

  destroy_loop-Ends :
      (l : Slist W) (cs : Cells) (fuel : ℕ) (s : Store) (w : World W) (q : Ptr)
      → Linked s cs null
      → length cs < fuel
      → Ends
          (λ u s' w'. (s' q ≡ (if has q cs then none else s q)) × (w' ≡ free_all cs l.free_fn w))
          (destroy_loop os fuel l (first cs null) s w)
  unfolding destroy_loop with_node
  destroy_loop-Ends l cs zero s w q k f = ground arith
  destroy_loop-Ends l [] (suc fuel) s w q k f = (refl, refl)
  destroy_loop-Ends l ((p, d) ∷ cs) (suc fuel) s w q (n, e, u, k) f =
      let w1 = (free os p (release l.free_fn d w)).1 in
      let r =
        destroy_loop-Ends l cs fuel (put s p none) w1 q (Linked-put s p none cs null u k)
          (omega arith) in
      simp (eq_false p null n, e)
        (Ends-map (λ a s' w' (x, y). (x ∙ put-freed s q p d cs, y))
          (destroy_loop os fuel l (first cs null) (put s p none) w1) r)

  Ends-and_then :
      (l : Slist W) (cs : Cells) (s : Store) (w : World W) (q : Ptr)
      → (r : Run (Unit {0} × Store × World W))
      → Ends
          (λ u s' w'. (s' q ≡ (if has q cs then none else s q)) × (w' ≡ free_all cs l.free_fn w))
          r
      → Ends
          (λ u s' w'.
            (s' q ≡ (if has q cs then none else s q))
            × (w' ≡ (free os l.block (free_all cs l.free_fn w)).1))
          (and_then r (λ (u, s', w'). done (tt, s', (free os l.block w').1)))
  Ends-and_then l cs s w q (done (u, s', w')) (a, b) = (a, ap (λ w. (free os l.block w).1) b)
  Ends-and_then l cs s w q null_dereference h = h
  Ends-and_then l cs s w q out_of_fuel h = h

  -- `slist_destroy` on a list whose nodes are linked in memory ends without dereferencing NULL.
  -- From the front on, each data that is not NULL has gone to the free function, if there is one,
  -- and its node has been freed, and in the end the list itself. No node of the list is in memory
  -- then, and every other node still is.
  pub slist_destroy-Ends :
      (l : Slist W) (cs : Cells) (s : Store) (w : World W) (q : Ptr)
      → IsList s l cs
      → Ends
          (λ u s' w'.
            (s' q ≡ (if has q cs then none else s q))
            × (w' ≡ (free os l.block (free_all cs l.free_fn w)).1))
          (slist_destroy os (some l) s w)
  unfolding slist_destroy
  slist_destroy-Ends l cs s w q i =
      let r = destroy_loop-Ends l cs (length cs + 1) s w q i.3 (omega arith) in
      simp (i.2, i.0)
        (Ends-and_then l cs s w q (destroy_loop os (length cs + 1) l (first cs null) s w) r)
