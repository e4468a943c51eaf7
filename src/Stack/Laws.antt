-- ===== src/Stack/Laws.antt =====
-- stack.c against a list of at most `capacity` items, the top first.
use atcortex.Base.{
  ℕ, zero, suc, ◌+◌, ◌-◌, ◌≤◌, ◌<◌, ◌≡◌, refl, ap, ap₂, ◌∙◌, sym, Bool, true, false, Option, some,
  List, [], ◌∷◌, not, ◌&&◌, arith, length, get_or, set, take, length-set, ltb, leb, ◌==◌,
  if◌then◌else◌, Bool-cases, inl, inr,
}
use atcortex.Types.{Ptr, null}
use atcortex.Stack.{Stack, stack_push, stack_push_overwrite, move_down}
use atcortex.Stack.Bounds.{
  IsValid, tops, length-tops, get_or-set_self, tops-set, get_or-tops, get_or_past, tops-move_down,
  length-move_down,
}

-- The items of a stack, the top first.
unfoldable pub elements : Stack → List Ptr
elements s = tops s.items s.top

pub length-elements : (s : Stack) → length (elements s) ≡ s.top
unfolding elements
length-elements s = length-tops s.items s.top

-- What an operation leaves: a valid stack of the same capacity that holds `ts`.
pub record Holds (s : Stack) (ts : List Ptr) (r : Option Stack) : Type 0 where
  pub stack : Stack
  pub is : r ≡ some stack
  pub valid : IsValid stack
  pub capacity : stack.capacity ≡ s.capacity
  pub items : elements stack ≡ ts

tops-set_top :
    (items : List Ptr) (n x : ℕ)
    → n < length items
    → tops (set items n x) (suc n) ≡ x ∷ tops items n
unfolding tops
tops-set_top items n x h =
    ap₂ ◌∷◌ (get_or-set_self items n x h) (tops-set items n x n (omega arith))

pushed : Stack → Ptr → Stack
pushed s x = record s { items = set s.items s.top x; top = s.top + 1 }

pushed-Holds :
    {s : Stack} (x : Ptr)
    → IsValid s
    → s.top < s.capacity
    → Holds s (x ∷ elements s) (some (pushed s x))
unfolding pushed elements tops
pushed-Holds {s} x v room = record {
  stack = pushed s x;
  is = refl;
  valid = record {
    positive = v.positive;
    fits = omega (arith, length-set {0} s.items s.top x);
    room = omega arith;
  };
  capacity = refl;
  items =
      ap (tops (set s.items s.top x)) {y = suc s.top} (omega arith)
      ∙ tops-set_top s.items s.top x (omega arith);
}

unchanged-Holds : {s : Stack} → IsValid s → Holds s (elements s) (some s)
unchanged-Holds {s} v = record { stack = s; is = refl; valid = v; capacity = refl; items = refl }

-- `stack_push` on a valid stack succeeds exactly when the stack has room. It puts the item on top
-- then, and leaves a full stack as it is.
stack_push_lem :
    {s : Stack} (x : Ptr)
    → IsValid s
    → ((stack_push (some s) x).0 ≡ ltb s.top s.capacity)
      × Holds s
          (if ltb s.top s.capacity then x ∷ elements s else elements s)
          (stack_push (some s) x).1
unfolding stack_push pushed
stack_push_lem {s} x v = elim (Bool-cases (leb s.capacity s.top)) [
  | inl full ↦
      let e : ltb s.top s.capacity ≡ false = ground arith in rw (full, e) (refl, unchanged-Holds v)
  | inr room ↦
      let e : ltb s.top s.capacity ≡ true = ground arith in
      rw (room, e) (refl, pushed-Holds x v (ground arith))
]

pub take-all : (xs : List ℕ) (n : ℕ) → length xs ≤ n → take n xs ≡ xs
take-all [] zero h = refl
take-all [] (suc n) h = refl
take-all (x ∷ xs) zero h = absurd (omega arith)
take-all (x ∷ xs) (suc n) h = ap (λ t. x ∷ t) (take-all xs n (omega arith))

-- The item that a push on `ts` drops, if it is to be freed and is not NULL.
unfoldable pub evicted : ℕ → List Ptr → Bool → List Ptr
evicted c ts frees =
    let bottom = get_or ts (c - 1) null in if frees && not (bottom == null) then bottom ∷ [] else []

-- The items after the move, whether `memmove` runs or not.
moved : List Ptr → ℕ → List Ptr
moved items c = if ltb 1 c then move_down items (c - 1) else items

length-moved :
    (items : List Ptr) (c : ℕ) → 0 < c → c ≤ length items → length (moved items c) ≡ length items
unfolding moved
length-moved items c p h = ground (arith, length-move_down items (c - 1))

moved-suc : (items : List Ptr) (n : ℕ) → moved items (suc (suc n)) ≡ move_down items (suc n)
unfolding moved
moved-suc items n =
    let e : ltb 1 (suc (suc n)) ≡ true = ground arith in
    let i : suc (suc n) - 1 ≡ suc n = omega arith in rw (e, i)

tops-moved :
    (items : List Ptr) (n : ℕ)
    → n < length items
    → tops (moved items (suc n)) n ≡ take n (tops items (suc n))
unfolding tops
tops-moved items zero h = refl
tops-moved items (suc n) h =
    ap (λ l. tops l (suc n)) (moved-suc items n) ∙ tops-move_down items (suc n) h

shifted : Stack → Ptr → Stack
shifted s x = record s { items = set (moved s.items s.capacity) (s.capacity - 1) x }

shifted-elements :
    (items : List Ptr) (x c n : ℕ)
    → c ≡ suc n
    → c ≤ length items
    → tops (set (moved items c) (c - 1) x) c ≡ take c (x ∷ tops items c)
shifted-elements items x c n e h =
    let i : suc n - 1 ≡ n = omega arith in
    rw (e, i)
      (tops-set_top (moved items (suc n)) n x
          (omega (arith, length-moved items (suc n) (omega arith) (omega arith)))
        ∙ ap (λ t. x ∷ t) (tops-moved items n (omega arith)))

shifted-Holds :
    {s : Stack} (x : Ptr)
    → IsValid s
    → s.top ≡ s.capacity
    → Holds s (take s.capacity (x ∷ elements s)) (some (shifted s x))
unfolding shifted elements
shifted-Holds {s} x v full = record {
  stack = shifted s x;
  is = refl;
  valid = record {
    positive = v.positive;
    fits = omega (
      arith,
      length-set {0} (moved s.items s.capacity) (s.capacity - 1) x,
      length-moved s.items s.capacity v.positive v.fits,
    );
    room = v.room;
  };
  capacity = refl;
  items =
      ap (tops (set (moved s.items s.capacity) (s.capacity - 1) x)) full
      ∙ shifted-elements s.items x s.capacity (s.capacity - 1) (omega arith) v.fits
      ∙ ap (λ n. take s.capacity (x ∷ tops s.items n)) (sym full);
}

overwrite-room :
    {s : Stack} (x : Ptr) (frees : Bool)
    → IsValid s
    → ltb s.top s.capacity ≡ true
    → stack_push_overwrite (some s) x frees ≡ (true, [], some (pushed s x))
unfolding stack_push_overwrite pushed
overwrite-room {s} x frees v room = let e : (s.capacity == 0) ≡ false = ground arith in rw (e, room)

overwrite-full :
    {s : Stack} (x : Ptr) (frees : Bool)
    → IsValid s
    → ltb s.top s.capacity ≡ false
    → stack_push_overwrite (some s) x frees ≡ (
      true,
      if frees && not (get_or s.items 0 null == null) then get_or s.items 0 null ∷ [] else [],
      some (shifted s x),
    )
unfolding stack_push_overwrite shifted moved
overwrite-full {s} x frees v full = let e : (s.capacity == 0) ≡ false = ground arith in rw (e, full)

evicted-room :
    {s : Stack} (frees : Bool)
    → IsValid s
    → s.top < s.capacity
    → evicted s.capacity (elements s) frees ≡ []
unfolding evicted
evicted-room {s} frees v room =
    let none_there : get_or (elements s) (s.capacity - 1) null ≡ null =
      get_or_past (elements s) (s.capacity - 1) (omega (arith, length-elements s)) in
    rw none_there (ground arith)

evicted-full :
    {s : Stack} (frees : Bool)
    → IsValid s
    → s.top ≡ s.capacity
    → evicted s.capacity (elements s) frees
      ≡ (if frees && not (get_or s.items 0 null == null) then get_or s.items 0 null ∷ [] else [])
unfolding evicted elements
evicted-full {s} frees v full =
    let at_bottom : get_or (tops s.items s.top) (s.capacity - 1) null ≡ get_or s.items 0 null =
      get_or-tops s.items s.top (s.capacity - 1) (omega arith)
      ∙ ap (λ i. get_or s.items i null) (omega arith) in
    rw at_bottom

-- `stack_push_overwrite` on a valid stack succeeds. It leaves the new item on top of the others,
-- of which it keeps the topmost that fit, and hands the one that falls out at the bottom to the
-- free function, if there is one and the item is not NULL.
pub stack_push_overwrite_lem :
    {s : Stack} (x : Ptr) (frees : Bool)
    → IsValid s
    → let (done, freed, r) = stack_push_overwrite (some s) x frees in
      (done ≡ true)
      × (freed ≡ evicted s.capacity (elements s) frees)
      × Holds s (take s.capacity (x ∷ elements s)) r
stack_push_overwrite_lem {s} x frees v = elim (Bool-cases (ltb s.top s.capacity)) [
  | inl room ↦
      let lt : s.top < s.capacity = ground arith in
      rw
        (
          overwrite-room x frees v room,
          take-all (x ∷ elements s) s.capacity (omega (arith, length-elements s)),
        )
        (refl, sym (evicted-room frees v lt), pushed-Holds x v lt)
  | inr full ↦
      let e : s.top ≡ s.capacity = ground arith in
      rw (overwrite-full x frees v full) (refl, sym (evicted-full frees v e), shifted-Holds x v e)
]
