-- ===== src/Slist/Removal.antt =====
-- slist_remove and slist_remove_at.
use atcortex.Base.{
  ℕ, zero, suc, ◌+◌, ◌<◌, ◌≡◌, refl, ap, sym, subst, Bool, true, false, Bool-cases, inl, inr, some,
  [], ◌∷◌, ◌++◌, ◌||◌, arith, length, append_assoc, ltb, leb, ◌==◌, if◌then◌else◌,
}
use atcortex.Types.{Ptr, null}
use atcortex.Platform.{World, Os}
use atcortex.Slist.{
  cell, Store, Slist, with_node, unlink, remove_loop, slist_remove, remove_at_loop, slist_remove_at,
}
use atcortex.Slist.Linked.{
  Cells, first, has, last_from, IsList, Ends, Linked-back, eq_false, suc_nonzero, last-append,
}
use atcortex.Slist.Unlink.{Removed, unlink-Becomes}

-- Whether the data is in the list, the list without the first node that has it, and that node
abbrev pub has_item : Ptr → Cells → Bool
has_item item [] = false
has_item item ((p, d) ∷ cs) = (d == item) || has_item item cs

abbrev pub erase : Ptr → Cells → Cells
erase item [] = []
erase item ((p, d) ∷ cs) = if d == item then cs else ((p, d) ∷ erase item cs)

abbrev pub owner : Ptr → Cells → Ptr
owner item [] = null
owner item ((p, d) ∷ cs) = if d == item then p else owner item cs

-- The list without the node at a place, and that node
abbrev pub erase_at : ℕ → Cells → Cells
erase_at n [] = []
erase_at zero ((p, d) ∷ cs) = cs
erase_at (suc n) ((p, d) ∷ cs) = (p, d) ∷ erase_at n cs

abbrev pub node_at : ℕ → Cells → Ptr × Ptr
node_at n [] = (null, null)
node_at zero ((p, d) ∷ cs) = (p, d)
node_at (suc n) ((p, d) ∷ cs) = node_at n cs

erase_at-out : (n : ℕ) (cs : Cells) → leb (length cs) n ≡ true → erase_at n cs ≡ cs
erase_at-out n [] h = refl
erase_at-out zero ((p, d) ∷ cs) h = ground arith
erase_at-out (suc n) ((p, d) ∷ cs) h = ap (◌∷◌ (p, d)) (erase_at-out n cs (ground arith))

module _ {W : Type 0} (os : Os W) where
  -- The search has passed the nodes `pre`, none of which has the data.
  remove_loop-Becomes :
      (l : Slist W) (pre rest : Cells) (item : Ptr) (fuel : ℕ) (s : Store) (w : World W) (q : Ptr)
      → IsList s l (pre ++ rest)
      → has q (pre ++ rest) ≡ false
      → length rest < fuel
      → Ends
          (Removed os l (has_item item rest) (pre ++ erase item rest) (owner item rest) item s w q)
          (remove_loop os l item fuel (last_from null pre) (first rest null) s w)
  unfolding remove_loop with_node
  remove_loop-Becomes l pre rest item zero s w q i h f = ground arith
  remove_loop-Becomes l pre [] item (suc fuel) s w q i h f =
      (refl, (i, refl, refl), refl, refl, refl)
  remove_loop-Becomes l pre ((p, d) ∷ cs) item (suc fuel) s w q i h f =
      let (n, e, x, k) = Linked-back s pre ((p, d) ∷ cs) null i.3 in
      simp (eq_false p null n, e)
        (elim (Bool-cases (d == item)) [
          | inl b ↦
              let g : d ≡ item = ground arith in
              simp b (
                subst
                  (λ x.
                    Ends (Removed os l true (pre ++ cs) p x s w q)
                      (unlink os l (last_from null pre) p (cell d (first cs null)) s w))
                  g (unlink-Becomes os l pre p d cs s w q i h))
          | inr b ↦
              let c : Cells = (p, d) ∷ [] in
              let a = append_assoc pre c cs in
              let r =
                remove_loop-Becomes l (pre ++ c) cs item fuel s w q (subst (IsList s l) (sym a) i)
                  (subst (λ ds. has q ds ≡ false) (sym a) h) (omega arith) in
              simp b (simp (last-append null pre c, append_assoc) at r)
        ])

  -- `slist_remove` on a list whose nodes are linked in memory ends without dereferencing NULL,
  -- and reports a success exactly when some node has the data. The first such node is out of the
  -- list then, with head, tail, length and links in order; its data has gone to the free
  -- function, if there is one and the data is not NULL, and then the node has been freed. If no
  -- node has the data, list and calls are as before. An address that no node has is as before in
  -- both cases.
  pub slist_remove-Becomes :
      (l : Slist W) (cs : Cells) (item : Ptr) (s : Store) (w : World W) (q : Ptr)
      → IsList s l cs
      → has q cs ≡ false
      → Ends
          (Removed os l (has_item item cs) (erase item cs) (owner item cs) item s w q)
          (slist_remove os (some l) item s w)
  unfolding slist_remove
  slist_remove-Becomes l [] item s w q i h =
      simp (i.2) (refl, ((i.0, i.1, refl, i.3), refl, refl), refl, refl, refl)
  slist_remove-Becomes l ((p, d) ∷ cs) item s w q i h =
      let r =
        remove_loop-Becomes l [] ((p, d) ∷ cs) item (l.len + 1) s w q i h (omega (arith, i.2)) in
      simp (i.2, i.0, suc_nonzero) (simp (i.2) at r)

  -- The nodes `pre` have been passed, and `n` of the others are still to pass.
  remove_at_loop-Becomes :
      (l : Slist W) (pre rest : Cells) (n : ℕ) (s : Store) (w : World W) (q : Ptr)
      → IsList s l (pre ++ rest)
      → has q (pre ++ rest) ≡ false
      → n < length rest
      → Ends
          (Removed os l true (pre ++ erase_at n rest) (node_at n rest).0 (node_at n rest).1 s w q)
          (remove_at_loop os l n (last_from null pre) (first rest null) s w)
  unfolding remove_at_loop with_node
  remove_at_loop-Becomes l pre [] n s w q i h f = ground arith
  remove_at_loop-Becomes l pre ((p, d) ∷ cs) zero s w q i h f =
      let (n, e, x, k) = Linked-back s pre ((p, d) ∷ cs) null i.3 in
      simp e (unlink-Becomes os l pre p d cs s w q i h)
  remove_at_loop-Becomes l pre ((p, d) ∷ cs) (suc n) s w q i h f =
      let (n', e, x, k) = Linked-back s pre ((p, d) ∷ cs) null i.3 in
      let c : Cells = (p, d) ∷ [] in
      let a = append_assoc pre c cs in
      let r =
        remove_at_loop-Becomes l (pre ++ c) cs n s w q (subst (IsList s l) (sym a) i)
          (subst (λ ds. has q ds ≡ false) (sym a) h) (omega arith) in
      simp e (simp (last-append null pre c, append_assoc) at r)

  -- `slist_remove_at` on a list whose nodes are linked in memory ends without dereferencing NULL,
  -- and reports a success exactly when the index is below the length. The node at the index is
  -- out of the list then, with head, tail, length and links in order; its data has gone to the
  -- free function, if there is one and the data is not NULL, and then the node has been freed.
  -- Out of range, list and calls are as before. An address that no node has is as before in both
  -- cases.
  pub slist_remove_at-Becomes :
      (l : Slist W) (cs : Cells) (index : ℕ) (s : Store) (w : World W) (q : Ptr)
      → IsList s l cs
      → has q cs ≡ false
      → Ends
          (Removed os l
            (ltb index (length cs))
            (erase_at index cs)
            (node_at index cs).0
            (node_at index cs).1
            s
            w
            q)
          (slist_remove_at os (some l) index s w)
  unfolding slist_remove_at
  slist_remove_at-Becomes l cs index s w q i h = elim (Bool-cases (ltb index (length cs))) [
    | inl b ↦
        let c : leb (length cs) index ≡ false = ground arith in
        let f : index < length cs = ground arith in
        simp (i.2, i.0, b, c) (remove_at_loop-Becomes l [] cs index s w q i h f)
    | inr b ↦
        let c : leb (length cs) index ≡ true = ground arith in
        simp (i.2, b, c, erase_at-out index cs c)
          (refl, ((i.0, i.1, refl, i.3), refl, refl), refl, refl, refl)
  ]
