-- ===== src/Stack/Bounds.antt =====
-- The representation of stack.c's stack: its invariant, and the list of its items from the top down.
use atcortex.Base.{
  sizes, ℕ, zero, suc, ◌-◌, ◌≤◌, ◌<◌, ◌≡◌, ◌≢◌, refl, ap, ap₂, ◌∙◌, List, [], ◌∷◌, ◌++◌, arith,
  length, get_or, set, take, drop,
}
use atcortex.Types.{Ptr, null}
use atcortex.Stack.{Stack, move_down}

pub record IsValid (s : Stack) : Type 0 where
  pub positive : 0 < s.capacity
  pub fits : s.capacity ≤ length s.items
  pub room : s.top ≤ s.capacity

-- The first `n` items, the last one first.
unfoldable pub tops : List Ptr → ℕ → List Ptr
tops items zero = []
tops items (suc n) = get_or items n null ∷ tops items n

pub length-tops : (items : List Ptr) (n : ℕ) → length (tops items n) ≡ n
unfolding tops
length-tops items zero = refl
length-tops items (suc n) = ap suc (length-tops items n)

pub get_or-set_self : (xs : List ℕ) (i v : ℕ) → i < length xs → get_or (set xs i v) i null ≡ v
get_or-set_self [] i v h = absurd (omega arith)
get_or-set_self (x ∷ xs) zero v h = refl
get_or-set_self (x ∷ xs) (suc i) v h = get_or-set_self xs i v (omega arith)

get_or-set_ne : (xs : List ℕ) (i j v : ℕ) → i ≢ j → get_or (set xs i v) j null ≡ get_or xs j null
get_or-set_ne [] i j v h = refl
get_or-set_ne (x ∷ xs) zero zero v h = absurd (h refl)
get_or-set_ne (x ∷ xs) zero (suc j) v h = refl
get_or-set_ne (x ∷ xs) (suc i) zero v h = refl
get_or-set_ne (x ∷ xs) (suc i) (suc j) v h = get_or-set_ne xs i j v (λ e. h (ap suc e))

-- A write at or above index `n` leaves the first `n` items.
pub tops-set : (items : List Ptr) (i v n : ℕ) → n ≤ i → tops (set items i v) n ≡ tops items n
unfolding tops
tops-set items i v zero h = refl
tops-set items i v (suc n) h =
    ap₂ ◌∷◌ (get_or-set_ne items i n v (omega arith)) (tops-set items i v n (omega arith))

-- The item `k` places below the top.
pub get_or-tops :
    (items : List Ptr) (n k : ℕ)
    → k < n
    → get_or (tops items n) k null ≡ get_or items (n - 1 - k) null
unfolding tops
get_or-tops items zero k h = absurd (omega arith)
get_or-tops items (suc n) zero h = ap (λ i. get_or items i null) (omega arith)
get_or-tops items (suc n) (suc k) h =
    get_or-tops items n k (omega arith) ∙ ap (λ i. get_or items i null) (omega arith)

pub get_or_past : (xs : List ℕ) (k : ℕ) → length xs ≤ k → get_or xs k null ≡ null
get_or_past [] k h = refl
get_or_past (x ∷ xs) zero h = absurd (omega arith)
get_or_past (x ∷ xs) (suc k) h = get_or_past xs k (omega arith)

get_or-take-append :
    (xs ys : List ℕ) (n k : ℕ)
    → k < n
    → n ≤ length xs
    → get_or (take n xs ++ ys) k null ≡ get_or xs k null
get_or-take-append xs ys zero k lt h = absurd (omega arith)
get_or-take-append [] ys (suc n) k lt h = absurd (omega arith)
get_or-take-append (x ∷ xs) ys (suc n) zero lt h = refl
get_or-take-append (x ∷ xs) ys (suc n) (suc k) lt h =
    get_or-take-append xs ys n k (omega arith) (omega arith)

get_or-move_down :
    (items : List Ptr) (n k : ℕ)
    → k < n
    → n < length items
    → get_or (move_down items n) k null ≡ get_or items (suc k) null
unfolding move_down
get_or-move_down [] n k lt h = absurd (omega arith)
get_or-move_down (x ∷ items) n k lt h =
    get_or-take-append items (drop n (x ∷ items)) n k lt (omega arith)

-- Items that moved down by one place: the top `n` of `n + 1`.
tops-shift :
    (items moved : List Ptr) (n : ℕ)
    → ((k : ℕ) → k < n → get_or moved k null ≡ get_or items (suc k) null)
    → tops moved n ≡ take n (tops items (suc n))
unfolding tops
tops-shift items moved zero h = refl
tops-shift items moved (suc n) h =
    ap₂ ◌∷◌ (h n (omega arith)) (tops-shift items moved n (λ k lt. h k (omega arith)))

pub tops-move_down :
    (items : List Ptr) (n : ℕ)
    → n < length items
    → tops (move_down items n) n ≡ take n (tops items (suc n))
tops-move_down items n h =
    tops-shift items (move_down items n) n (λ k lt. get_or-move_down items n k lt h)

pub length-move_down :
    (items : List Ptr) (n : ℕ) → n < length items → length (move_down items n) ≡ length items
unfolding move_down
length-move_down items n h = grind sizes
