-- ===== src/Slist/Reads.antt =====
-- slist_len, slist_get and SLIST_FOREACH.
use atcortex.Base.{
  ℕ, zero, suc, ◌+◌, ◌-◌, ◌≡◌, ◌≢◌, refl, ap, ◌∙◌, sym, subst, true, false, Bool-cases, inl, inr,
  some, List, [], ◌∷◌, arith, length, leb, ◌==◌,
}
use atcortex.Types.{Ptr, null}
use atcortex.Context.{done}
use atcortex.Slist.{Store, Slist, with_node, get_loop, slist_get, foreach}
use atcortex.Slist.Linked.{Cells, first, item_from, Linked, IsList, Linked-last}

-- The data of the nodes, and the data at a place of them, NULL out of range
abbrev pub items : Cells → List Ptr
items [] = []
items ((p, d) ∷ cs) = d ∷ items cs

abbrev pub item_at : Cells → ℕ → Ptr
item_at [] n = null
item_at ((p, d) ∷ cs) zero = d
item_at ((p, d) ∷ cs) (suc n) = item_at cs n

null_at : (q : ℕ) → q ≢ null → (q == null) ≡ false
null_at q h = ground arith

-- The walk from the head
get_loop-item_at :
    (cs : Cells) (n : ℕ) (s : Store)
    → Linked s cs null
    → get_loop n (first cs null) s ≡ done (item_at cs n)
unfolding get_loop with_node
get_loop-item_at [] zero s k = refl
get_loop-item_at [] (suc n) s k = refl
get_loop-item_at ((p, d) ∷ cs) zero s (a, b, c, k) = rw (b, null_at p a) refl
get_loop-item_at ((p, d) ∷ cs) (suc n) s (a, b, c, k) =
    rw (b, null_at p a) (get_loop-item_at cs n s k)

item_at-last : (p d : Ptr) (cs : Cells) → item_at ((p, d) ∷ cs) (length cs) ≡ item_from d cs
item_at-last p d [] = refl
item_at-last p d ((q, e) ∷ cs) = item_at-last q e cs

item_at-out : (cs : Cells) (n : ℕ) → leb (length cs) n ≡ true → item_at cs n ≡ null
item_at-out [] n h = refl
item_at-out ((p, d) ∷ cs) zero h = ground arith
item_at-out ((p, d) ∷ cs) (suc n) h = item_at-out cs n (ground arith)

-- With a node there is a last one.
tail-item :
    {W : Type 0} (l : Slist W) (cs : Cells) (s : Store)
    → IsList s l cs
    → leb (length cs) (length cs - 1) ≡ false
    → with_node (s l.tail) (λ c. done c.item) ≡ done (item_at cs (length cs - 1))
unfolding with_node
tail-item l [] s i h = ground arith
tail-item l ((p, d) ∷ cs) s (a, b, c, k) h =
    let e : length cs ≡ suc (length cs) - 1 = omega arith in
    let f = sym (item_at-last p d cs) ∙ ap (item_at ((p, d) ∷ cs)) e in
    rw (b, Linked-last s p d cs null k) (ap done f)

foreach-nodes :
    (cs : Cells) (s : Store)
    → Linked s cs null
    → foreach (suc (length cs)) (first cs null) s ≡ done (items cs)
unfolding foreach with_node
foreach-nodes [] s k = refl
foreach-nodes ((p, d) ∷ cs) s (a, b, c, k) = rw (b, null_at p a, foreach-nodes cs s k) refl

module _ {W : Type 0} where
  foreach-items :
      (l : Slist W) (cs : Cells) (s : Store)
      → IsList s l cs
      → foreach (l.len + 1) l.head s ≡ done (items cs)
  foreach-items l cs s (a, b, c, k) =
      let e : length cs + 1 ≡ suc (length cs) = omega arith in rw (c, a, e) (foreach-nodes cs s k)

  -- On a list whose nodes are linked in memory, `slist_get` with its shortcut for the last node
  -- is the plain walk from the head, for every index. Both return the data at the index, NULL out
  -- of range, and dereference no NULL.
  pub slist_get-get_loop :
      (l : Slist W) (cs : Cells) (index : ℕ) (s : Store)
      → IsList s l cs
      → (slist_get (some l) index s ≡ get_loop index l.head s)
        × (slist_get (some l) index s ≡ done (item_at cs index))
  unfolding slist_get
  slist_get-get_loop l cs index s i = (e ∙ sym f, e)
    where
      f : get_loop index l.head s ≡ done (item_at cs index)
      f = rw (i.0) (get_loop-item_at cs index s i.3)

      e : slist_get (some l) index s ≡ done (item_at cs index)
      e = elim (Bool-cases (leb (length cs) index)) [
        | inl b ↦ simp (i.2, b) (ap done (sym (item_at-out cs index b)))
        | inr b ↦ elim (Bool-cases (index == length cs - 1)) [
          | inl c ↦
              let g : index ≡ length cs - 1 = ground arith in
              let t = tail-item l cs s i (subst (λ n. leb (length cs) n ≡ false) g b) in
              simp (i.2, b, c) (t ∙ ap (λ n. done (item_at cs n)) (sym g))
          | inr c ↦ simp (i.2, b, c) f
        ]
      ]
