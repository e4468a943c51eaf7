-- ===== src/Slist/Unlink.antt =====
-- The part that slist_remove and slist_remove_at share: a node leaves the list.
use atcortex.Base.{
  ℕ, ◌-◌, ◌≡◌, ◌≢◌, refl, ap, ◌∙◌, sym, Bool, true, false, Option, none, some, [], ◌∷◌, ◌++◌, arith,
  length, length-append, ◌==◌, if◌then◌else◌,
}
use atcortex.Types.{Ptr, null}
use atcortex.Platform.{World, Os, free}
use atcortex.Slist.{cell, Store, put, Slist, with_node, release, drop_node, unlink}
use atcortex.Slist.Linked.{
  Cells, first, has, last_from, item_from, Linked, IsList, Becomes, Ends, Linked-put, Linked-last,
  Linked-front, Linked-back, eq_false, has-head, has-tail, has_none, has-without, put-same,
  put-other, has-other, has-last, last-append,
}

-- The node behind `(a, x) ∷ pre` is taken out.
Linked-unlink :
    (s : Store) (a x : Ptr) (pre : Cells) (p d : Ptr) (post : Cells)
    → Linked s (((a, x) ∷ pre) ++ ((p, d) ∷ post)) null
    → Linked
        (put (put s (last_from a pre) (some (cell (item_from x pre) (first post null)))) p none)
        (((a, x) ∷ pre) ++ post)
        null
Linked-unlink s a x [] p d post (h1, h2, h3, (k1, k2, k3, k)) =
    let o = has-head a p d post h3 in
    let h = has-tail a p d post h3 in
    let s1 = put s a (some (cell x (first post null))) in
    (
      h1,
      put-other s1 p none a o ∙ put-same s a _,
      h,
      Linked-put s1 p none post null k3 (Linked-put s a _ post null h k),
    )
Linked-unlink s a x ((b, y) ∷ pre) p d post (h1, h2, h3, k) =
    let s1 = put s (last_from b pre) (some (cell (item_from y pre) (first post null))) in
    let (m, m') = has_none a ((b, y) ∷ pre) ((p, d) ∷ post) h3 in
    let n = has-other a (last_from b pre) ((b, y) ∷ pre) m (has-last b y pre) in
    (
      h1,
      put-other s1 p none a (has-head a p d post m') ∙ put-other s (last_from b pre) _ a n ∙ h2,
      has-without a ((b, y) ∷ pre) p d post h3,
      Linked-unlink s b y pre p d post k,
    )

Linked-nonnull :
    (s : Store) (p d : Ptr) (cs : Cells) (stop : Ptr)
    → Linked s ((p, d) ∷ cs) stop
    → last_from p cs ≢ null
Linked-nonnull s p d [] stop (a, b, c, k) = a
Linked-nonnull s p d ((q, e) ∷ cs) stop (a, b, c, k) = Linked-nonnull s q e cs stop k

-- The tail behind a node that goes: it moves exactly when the node was the last.
tail-unlink :
    (s : Store) (prev p d : Ptr) (post : Cells)
    → Linked s ((p, d) ∷ post) null
    → (if p == last_from p post then prev else last_from p post) ≡ last_from prev post
tail-unlink s prev p d [] k = ground arith
tail-unlink s prev p d ((q, e) ∷ post) (a, b, c, k) =
    let o = has-other p (last_from q post) ((q, e) ∷ post) c (has-last q e post) in
    rw (eq_false p (last_from q post) o) refl

tail-head :
    (n p d : ℕ) (post : Cells)
    → n ≡ length ((p, d) ∷ post)
    → (if n == 1 then null else last_from p post) ≡ last_from null post
tail-head n p d [] e = ground arith
tail-head n p d ((q, x) ∷ post) e = ground arith

module _ {W : Type 0} (os : Os W) where
  -- What a removal from the list `l` ends with: whether a node was `found`, the nodes `left`, the data
  -- `item` released and the `node` freed if it was, and the rest of memory, at `q`, as before.
  abbrev pub Removed :
      Slist W
      → Bool
      → Cells
      → Ptr
      → Ptr
      → Store
      → World W
      → Ptr
      → Bool × Option (Slist W)
      → Store
      → World W
      → Type 0
  Removed l found left node item s w q (ok, l') s' w' =
      (ok ≡ found)
      × Becomes l left s' l'
      × (w' ≡ (if found then (free os node (release l.free_fn item w)).1 else w))
      × ((if found then s' node else none) ≡ none)
      × (s' q ≡ s q)

  pub unlink-Becomes :
      (l : Slist W) (pre : Cells) (p item : Ptr) (post : Cells) (s : Store) (w : World W) (q : Ptr)
      → IsList s l (pre ++ ((p, item) ∷ post))
      → has q (pre ++ ((p, item) ∷ post)) ≡ false
      → Ends
          (Removed l true (pre ++ post) p item s w q)
          (unlink os l (last_from null pre) p (cell item (first post null)) s w)
  unfolding unlink drop_node with_node
  unlink-Becomes l [] p item post s w q (i1, i2, i3, (a, b, c, k)) h =
      let m : l.len - 1 ≡ length post = omega arith in
      let t = ap (λ t. if l.len == 1 then null else t) i2 ∙ tail-head l.len p item post i3 in
      (
        refl,
        ((refl, t, m, Linked-put s p none post null c k), refl, refl),
        refl,
        put-same s p none,
        put-other s p none q (has-head q p item post h),
      )
  unlink-Becomes l ((a, x) ∷ pre) p item post s w q (i1, i2, i3, k) h =
      let c = (p, item) ∷ post in
      let f = Linked-front s ((a, x) ∷ pre) c null k in
      let n = eq_false (last_from a pre) null (Linked-nonnull s a x pre _ f) in
      let v = Linked-last s a x pre _ f in
      let t = i2 ∙ last-append a pre c in
      let m = length-append ((a, x) ∷ pre) c in
      let m' = length-append ((a, x) ∷ pre) post in
      let (g, g') = has_none q ((a, x) ∷ pre) c h in
      let o = has-other q (last_from a pre) ((a, x) ∷ pre) g (has-last a x pre) in
      let o' = has-head q p item post g' in
      let s1 = put s (last_from a pre) (some (cell (item_from x pre) (first post null))) in
      let u =
        ap (λ t. if p == t then last_from a pre else t) t
        ∙ tail-unlink s (last_from a pre) p item post (Linked-back s ((a, x) ∷ pre) c null k)
        ∙ sym (last-append a pre post) in
      simp (v, n)
        (
          refl,
          ((i1, u, omega arith, Linked-unlink s a x pre p item post k), refl, refl),
          refl,
          put-same s1 p none,
          put-other s1 p none q o' ∙ put-other s (last_from a pre) _ q o,
        )
