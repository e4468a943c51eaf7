-- ===== src/Slist/Reverse.antt =====
-- slist_reverse.
use atcortex.Base.{
  ℕ, zero, suc, ◌+◌, ◌<◌, ◌≡◌, refl, ◌∙◌, sym, subst, false, Option, some, [], ◌∷◌, ◌++◌, arith,
  length, length-append, append-nil, append_assoc, ltb,
}
use atcortex.Types.{Ptr, null}
use atcortex.Context.{Run, done, null_dereference, out_of_fuel, and_then}
use atcortex.Slist.{cell, Store, put, Slist, with_node, reverse_loop, slist_reverse}
use atcortex.Slist.Linked.{
  Cells, first, has, last-append, Linked, IsList, Becomes, Linked-put, eq_false, has-head, has-tail,
  put-same, put-other,
}

abbrev pub reverse : Cells → Cells
reverse [] = []
reverse (c ∷ cs) = reverse cs ++ (c ∷ [])

-- The nodes that are turned already, `acc`, lie apart from the others.
abbrev Apart : Cells → Cells → Type 0
Apart [] acc = Unit
Apart ((p, d) ∷ cs) acc = (has p acc ≡ false) × Apart cs acc

Apart-turn :
    (p d : Ptr) (cs acc : Cells) → has p cs ≡ false → Apart cs acc → Apart cs ((p, d) ∷ acc)
Apart-turn p d [] acc h k = tt
Apart-turn p d ((q, e) ∷ cs) acc h (a, k) =
    let n = has-head p q e cs h in (ground arith, Apart-turn p d cs acc (has-tail p q e cs h) k)

Apart-nil : (cs : Cells) → Apart cs []
Apart-nil [] = tt
Apart-nil ((p, d) ∷ cs) = (refl, Apart-nil cs)

-- The loop returns the new head, and the nodes in the store are linked the other way round.
abbrev pub Turned : Cells → Store → Ptr → Run (Ptr × Store) → Type 0
Turned cs s q (done (head, s')) = (head ≡ first cs null) × Linked s' cs null × (s' q ≡ s q)
Turned cs s q null_dereference = ⊥
Turned cs s q out_of_fuel = ⊥

Turned-before :
    (cs : Cells) (s s1 : Store) (q : Ptr)
    → s1 q ≡ s q
    → (r : Run (Ptr × Store)) → Turned cs s1 q r
    → Turned cs s q r
Turned-before cs s s1 q e (done (head, s')) (a, b, c) = (a, b, c ∙ e)
Turned-before cs s s1 q e null_dereference h = h
Turned-before cs s s1 q e out_of_fuel h = h

reverse_loop-Turned :
    (cs acc : Cells) (fuel : ℕ) (s : Store) (q : Ptr)
    → Linked s cs null
    → Linked s acc null
    → Apart cs acc
    → has q cs ≡ false
    → length cs < fuel
    → Turned (reverse cs ++ acc) s q (reverse_loop fuel (first acc null) (first cs null) s)
unfolding reverse_loop with_node
reverse_loop-Turned cs acc zero s q k m d h f = ground arith
reverse_loop-Turned [] acc (suc fuel) s q k m d h f = (refl, m, refl)
reverse_loop-Turned ((p, x) ∷ cs) acc (suc fuel) s q (n, e, u, k) m (a, d) h f =
    let c = cell x (first acc null) in
    let s1 = put s p (some c) in
    let r =
      reverse_loop-Turned cs ((p, x) ∷ acc) fuel s1 q (Linked-put s p _ cs null u k)
        (n, put-same s p _, a, Linked-put s p _ acc null a m) (Apart-turn p x cs acc u d)
        (has-tail q p x cs h) (omega arith) in
    simp (eq_false p null n, e, append_assoc)
      (Turned-before (reverse cs ++ ((p, x) ∷ acc)) s s1 q (put-other s p _ q (has-head q p x cs h))
        (reverse_loop fuel p (first cs null) s1) r)

length-reverse : (cs : Cells) → length (reverse cs) ≡ length cs
length-reverse [] = refl
length-reverse (c ∷ cs) = length-append (reverse cs) (c ∷ []) ∙ omega (arith, length-reverse cs)

module _ {W : Type 0} where
  -- The call returns the list with its nodes in the other order, and the rest of memory, at `q`, as
  -- before.
  abbrev pub Reversed : Slist W → Cells → Store → Ptr → Run (Option (Slist W) × Store) → Type 0
  Reversed l cs s q (done (l', s')) = Becomes l (reverse cs) s' l' × (s' q ≡ s q)
  Reversed l cs s q null_dereference = ⊥
  Reversed l cs s q out_of_fuel = ⊥

  Turned-Reversed :
      (l : Slist W) (p d : Ptr) (cs : Cells) (s : Store) (q : Ptr)
      → IsList s l ((p, d) ∷ cs)
      → (r : Run (Ptr × Store)) → Turned (reverse ((p, d) ∷ cs)) s q r
      → Reversed l
          ((p, d) ∷ cs)
          s
          q
          (and_then r (λ (head, s'). done (some (record l { head = head; tail = l.head }), s')))
  Turned-Reversed l p d cs s q i (done (head, s')) (a, b, c) =
      let t = last-append null (reverse cs) ((p, d) ∷ []) in
      let n = length-reverse ((p, d) ∷ cs) in (((a, i.0 ∙ sym t, i.2 ∙ sym n, b), refl, refl), c)
  Turned-Reversed l p d cs s q i null_dereference h = h
  Turned-Reversed l p d cs s q i out_of_fuel h = h

  -- `slist_reverse` on a list whose nodes are linked in memory ends without dereferencing NULL.
  -- The list has the same nodes in the other order then, with head, tail and links in order. An
  -- address that no node has is as before.
  pub slist_reverse-Reversed :
      (l : Slist W) (cs : Cells) (s : Store) (q : Ptr)
      → IsList s l cs
      → has q cs ≡ false
      → Reversed l cs s q (slist_reverse (some l) s)
  unfolding slist_reverse
  slist_reverse-Reversed l [] s q i h = simp (i.2) (((i.0, i.1, refl, i.3), refl, refl), refl)
  slist_reverse-Reversed l (c ∷ []) s q i h = simp (i.2) (((i.0, i.1, refl, i.3), refl, refl), refl)
  slist_reverse-Reversed l ((p, d) ∷ c ∷ cs) s q i h =
      let all : Cells = (p, d) ∷ c ∷ cs in
      let e : ltb l.len 2 ≡ false = ground (arith, i.2) in
      let r =
        reverse_loop-Turned all [] (l.len + 1) s q i.3 tt (Apart-nil all) h (omega (arith, i.2)) in
      simp e (
        Turned-Reversed l p d (c ∷ cs) s q i (reverse_loop (l.len + 1) null l.head s) (
          subst (λ h. Turned (reverse all) s q (reverse_loop (l.len + 1) null h s)) (sym i.0)
            (simp append-nil at r)))
