-- ===== src/Stack/Reads.antt =====
-- stack.c: what is read off a stack, and `stack_clear`.
use mathlib.Core.List.{reverse, reverse-cons}
use atcortex.Base.{
  ℕ, zero, suc, ◌+◌, ◌-◌, ◌<◌, ◌≡◌, refl, ap, ap₂, ◌∙◌, sym, Bool, some, List, [], ◌∷◌, ◌++◌, arith,
  get_or, drop, leb, ◌==◌, if◌then◌else◌, Bool-cases, inl, inr,
}
use atcortex.Types.{Ptr, null}
use atcortex.Stack.{Stack, stack_pop, stack_peek_at, stack_clear, clear_items}
use atcortex.Stack.Bounds.{IsValid, tops, get_or-tops, get_or_past}
use atcortex.Stack.Laws.{elements, length-elements, Holds}

-- `stack_peek_at` reads the item that many places below the top, and NULL past the bottom.
pub stack_peek_at_lem : (s : Stack) (k : ℕ) → stack_peek_at (some s) k ≡ get_or (elements s) k null
unfolding stack_peek_at elements
stack_peek_at_lem s k = elim (Bool-cases (leb s.top k)) [
  | inl past ↦ rw (past, get_or_past (elements s) k (ground (arith, length-elements s)))
  | inr below ↦ rw below (sym (get_or-tops s.items s.top k (ground arith)))
]

pop-tops :
    (items : List Ptr) (n : ℕ)
    → 0 < n
    → tops items n ≡ get_or items (n - 1) null ∷ tops items (n - 1)
unfolding tops
pop-tops items zero h = absurd (omega arith)
pop-tops items (suc n) h = let e : suc n - 1 ≡ n = omega arith in rw e

popped : Stack → Stack
popped s = record s { top = s.top - 1 }

elements-empty : (s : Stack) → s.top ≡ 0 → elements s ≡ []
unfolding elements tops
elements-empty s e = ap (tops s.items) e

elements-some :
    (s : Stack) → 0 < s.top → elements s ≡ get_or s.items (s.top - 1) null ∷ elements (popped s)
unfolding elements popped
elements-some s h = pop-tops s.items s.top h

popped-Holds : {s : Stack} → IsValid s → 0 < s.top → Holds s (drop 1 (elements s)) (some (popped s))
unfolding popped
popped-Holds {s} v h = record {
  stack = popped s;
  is = refl;
  valid = record { positive = v.positive; fits = v.fits; room = omega arith };
  capacity = refl;
  items = rw (elements-some s h);
}

-- `stack_pop` on a valid stack returns the item on top, NULL if there is none, and leaves the
-- others.
stack_pop_lem :
    {s : Stack}
    → IsValid s
    → ((stack_pop (some s)).0 ≡ get_or (elements s) 0 null)
      × Holds s (drop 1 (elements s)) (stack_pop (some s)).1
unfolding stack_pop popped
stack_pop_lem {s} v = elim (Bool-cases (s.top == 0)) [
  | inl e ↦
      let no_items = elements-empty s (ground arith) in
      rw (e, no_items)
        (refl, record { stack = s; is = refl; valid = v; capacity = refl; items = no_items })
  | inr ne ↦ let h : 0 < s.top = ground arith in rw ne (rw (elements-some s h), popped-Holds v h)
]

-- The pointers of a list that are not NULL.
unfoldable pub present : List Ptr → List Ptr
present [] = []
present (x ∷ xs) = if x == null then present xs else x ∷ present xs

present-append : (xs ys : List Ptr) → present (xs ++ ys) ≡ present xs ++ present ys
unfolding present
present-append [] ys = refl
present-append (x ∷ xs) ys = ground (arith, present-append xs ys)

clear_items-snoc :
    (items : List Ptr) (i n : ℕ)
    → clear_items items i (suc n)
      ≡ clear_items items i n ++ present (get_or items (i + n) null ∷ [])
unfolding clear_items present
clear_items-snoc items i zero = ap (λ k. present (get_or items k null ∷ [])) (omega arith)
clear_items-snoc items i (suc n) =
    let e : i + 1 + n ≡ i + suc n = omega arith in
    ground (arith, clear_items-snoc items (i + 1) n, ap (λ k. get_or items k null) e)

clear_items-tops :
    (items : List Ptr) (n : ℕ) → clear_items items 0 n ≡ present (reverse (tops items n))
unfolding clear_items present tops
clear_items-tops items zero = refl
clear_items-tops items (suc n) =
    clear_items-snoc items 0 n
    ∙ ap₂ (λ l k. l ++ present (get_or items k null ∷ [])) (clear_items-tops items n) (omega arith)
    ∙ sym (present-append (reverse (tops items n)) (get_or items n null ∷ []))
    ∙ ap present (sym (reverse-cons (get_or items n null) (tops items n)))

-- `stack_clear` empties a valid stack and hands every item that is not NULL to the free function,
-- if there is one, from the bottom to the top.
pub stack_clear_lem :
    {s : Stack} (frees : Bool)
    → IsValid s
    → ((stack_clear (some s) frees).0 ≡ (if frees then present (reverse (elements s)) else []))
      × Holds s [] (stack_clear (some s) frees).1
unfolding stack_clear elements tops
stack_clear_lem {s} frees v = (
  ap (λ l. if frees then l else []) (clear_items-tops s.items s.top),
  record {
    stack = record s { top = 0 };
    is = refl;
    valid = record { positive = v.positive; fits = v.fits; room = omega arith };
    capacity = refl;
    items = refl;
  },
)
