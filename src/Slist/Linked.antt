-- ===== src/Slist/Linked.antt =====
-- The nodes of a list of slist.c as a list of addresses and data, and the store that holds them.
use atcortex.Base.{
  ℕ, suc, ◌≡◌, ◌≢◌, refl, ap, ◌∙◌, Bool, true, false, Option, none, some, List, [], ◌∷◌, ◌++◌, ◌||◌,
  arith, length, ◌==◌,
}
use atcortex.Types.{Ptr, null}
use atcortex.Platform.{World}
use atcortex.Context.{Run, done, null_dereference, out_of_fuel}
use atcortex.Slist.{Cell, cell, Store, put, Slist}

-- The address of each node with its data
abbrev pub Cells : Type 0
Cells = List (Ptr × Ptr)

-- The address that a pointer to the nodes has, where `stop` comes behind them
abbrev pub first : Cells → Ptr → Ptr
first [] stop = stop
first ((p, d) ∷ cs) stop = p

abbrev pub has : Ptr → Cells → Bool
has q [] = false
has q ((p, d) ∷ cs) = (q == p) || has q cs

-- The last node's address and data, behind an address and data that come before the nodes
abbrev pub last_from : Ptr → Cells → Ptr
last_from a [] = a
last_from a ((p, d) ∷ cs) = last_from p cs

abbrev pub item_from : Ptr → Cells → Ptr
item_from x [] = x
item_from x ((p, d) ∷ cs) = item_from d cs

-- The store holds the nodes, at different addresses, each with the next one's address.
abbrev pub Linked : Store → Cells → Ptr → Type 0
Linked s [] stop = Unit
Linked s ((p, d) ∷ cs) stop =
    (p ≢ null) × (s p ≡ some (cell d (first cs stop))) × (has p cs ≡ false) × Linked s cs stop

module _ {W : Type 0} where
  -- A list header and the nodes in the store agree.
  abbrev pub IsList : Store → Slist W → Cells → Type 0
  IsList s l cs =
      (l.head ≡ first cs null)
      × (l.tail ≡ last_from null cs)
      × (l.len ≡ length cs)
      × Linked s cs null

  -- The list `l` has become one with the nodes `cs`.
  abbrev pub Becomes : Slist W → Cells → Store → Option (Slist W) → Type 0
  Becomes l cs s none = ⊥
  Becomes l cs s (some l') = IsList s l' cs × (l'.block ≡ l.block) × (l'.free_fn ≡ l.free_fn)

  -- The operation returns, and what it returns satisfies `P`.
  abbrev pub Ends :
      {A : Type 0} → (A → Store → World W → Type 0) → Run (A × Store × World W) → Type 0
  Ends P (done (a, s, w)) = P a s w
  Ends P null_dereference = ⊥
  Ends P out_of_fuel = ⊥

pub put-same : (s : Store) (q : Ptr) (v : Option Cell) → put s q v q ≡ v
unfolding put
put-same s q v = ground arith

pub put-other : (s : Store) (q : Ptr) (v : Option Cell) (p : Ptr) → p ≢ q → put s q v p ≡ s p
unfolding put
put-other s q v p h = ground arith

pub has-other : (p q : Ptr) (cs : Cells) → has p cs ≡ false → has q cs ≡ true → p ≢ q
has-other p q cs h k e = cc

pub Ends-map :
    {W A : Type 0} {P Q : A → Store → World W → Type 0}
    → ((a : A) (s : Store) (w : World W) → P a s w → Q a s w)
    → (r : Run (A × Store × World W)) → Ends P r
    → Ends Q r
Ends-map f (done (a, s, w)) h = f a s w h
Ends-map f null_dereference h = h
Ends-map f out_of_fuel h = h

pub eq_false : (p q : ℕ) → p ≢ q → (p == q) ≡ false
eq_false p q h = ground arith

pub has-head : (q p d : Ptr) (cs : Cells) → has q ((p, d) ∷ cs) ≡ false → q ≢ p
has-head q p d cs h = ground arith

pub has-tail : (q p d : Ptr) (cs : Cells) → has q ((p, d) ∷ cs) ≡ false → has q cs ≡ false
has-tail q p d cs h = ground arith

-- The store changes at a node that the list does not have.
pub Linked-put :
    (s : Store) (q : Ptr) (v : Option Cell) (cs : Cells) (stop : Ptr)
    → has q cs ≡ false
    → Linked s cs stop
    → Linked (put s q v) cs stop
unfolding put
Linked-put s q v [] stop h k = tt
Linked-put s q v ((p, d) ∷ cs) stop h (a, b, c, k) =
    (a, ground arith, c, Linked-put s q v cs stop (ground arith) k)

pub IsList-put :
    {W : Type 0} (s : Store) (q : Ptr) (v : Option Cell) (l : Slist W) (cs : Cells)
    → has q cs ≡ false
    → IsList s l cs
    → IsList (put s q v) l cs
IsList-put s q v l cs h (a, b, c, k) = (a, b, c, Linked-put s q v cs null h k)

-- An address with no node is not one of the list's.
pub Linked-has :
    (s : Store) (q : Ptr) (cs : Cells) (stop : Ptr)
    → s q ≡ none
    → Linked s cs stop
    → has q cs ≡ false
Linked-has s q [] stop h k = refl
Linked-has s q ((p, d) ∷ cs) stop h (a, b, c, k) =
    let r = Linked-has s q cs stop h k in ground arith

pub has-last : (p d : Ptr) (cs : Cells) → has (last_from p cs) ((p, d) ∷ cs) ≡ true
has-last p d [] = ground arith
has-last p d ((q, e) ∷ cs) = let r = has-last q e cs in ground arith

pub has-append : (q : Ptr) (cs ds : Cells) → has q (cs ++ ds) ≡ (has q cs || has q ds)
has-append q [] ds = refl
has-append q ((p, d) ∷ cs) ds = let r = has-append q cs ds in ground arith

-- What the last node holds
pub Linked-last :
    (s : Store) (p d : Ptr) (cs : Cells) (stop : Ptr)
    → Linked s ((p, d) ∷ cs) stop
    → s (last_from p cs) ≡ some (cell (item_from d cs) stop)
Linked-last s p d [] stop (a, b, c, k) = b
Linked-last s p d ((q, e) ∷ cs) stop (a, b, c, k) = Linked-last s q e cs stop k

first-append : (cs ds : Cells) (stop : Ptr) → first (cs ++ ds) stop ≡ first cs (first ds stop)
first-append [] ds stop = refl
first-append ((p, d) ∷ cs) ds stop = refl

-- The front part of a list
pub Linked-front :
    (s : Store) (cs ds : Cells) (stop : Ptr)
    → Linked s (cs ++ ds) stop
    → Linked s cs (first ds stop)
Linked-front s [] ds stop k = tt
Linked-front s ((p, d) ∷ cs) ds stop (a, b, c, k) =
    let m = has-append p cs ds in
    let e = ap (λ q. some (cell d q)) (first-append cs ds stop) in
    (a, b ∙ e, ground arith, Linked-front s cs ds stop k)

pub Linked-back :
    (s : Store) (cs ds : Cells) (stop : Ptr) → Linked s (cs ++ ds) stop → Linked s ds stop
Linked-back s [] ds stop k = k
Linked-back s ((p, d) ∷ cs) ds stop (a, b, c, k) = Linked-back s cs ds stop k

pub last-append : (a : Ptr) (cs ds : Cells) → last_from a (cs ++ ds) ≡ last_from (last_from a cs) ds
last-append a [] ds = refl
last-append a ((p, d) ∷ cs) ds = last-append p cs ds

-- An address that none of the nodes has
pub has_none :
    (q : Ptr) (cs ds : Cells) → has q (cs ++ ds) ≡ false → (has q cs ≡ false) × (has q ds ≡ false)
has_none q cs ds h = let m = has-append q cs ds in (ground arith, ground arith)

pub has-without :
    (q : Ptr) (cs : Cells) (p d : Ptr) (ds : Cells)
    → has q (cs ++ ((p, d) ∷ ds)) ≡ false
    → has q (cs ++ ds) ≡ false
has-without q cs p d ds h =
    let k = has_none q cs ((p, d) ∷ ds) h in
    let t = has-tail q p d ds k.1 in let m = has-append q cs ds in cc

pub suc_nonzero : (n : ℕ) → (suc n == 0) ≡ false
suc_nonzero n = ground arith
