-- ===== src/CString/Laws.antt =====
-- The <string.h> functions of `CString`: what `strncat` writes and where, and what a comparison with
-- a whole string means.
use atcortex.Base.{
  sizes, ℕ, zero, suc, ◌+◌, ◌-◌, ◌≤◌, ◌<◌, ◌≡◌, ◌≢◌, refl, ap, ◌∙◌, true, false, List, [], ◌∷◌,
  ◌++◌, arith, length, get_or, set, take, drop, length-replicate, if◌then◌else◌, Bool,
  length-append, length-take, length-drop, ◌==◌,
}
use atcortex.CString.{zeroed, strlen, prefix_of, strncat, strncmp_eq}

-- From index `n` on there are only zeros.
abbrev pub ZeroFrom : ℕ → List ℕ → Type 0
ZeroFrom n bs = (i : ℕ) → n ≤ i → get_or bs i 0 ≡ 0

strlen-le-length : (bs : List ℕ) → strlen bs ≤ length bs
unfolding strlen
strlen-le-length [] = omega arith
strlen-le-length (b ∷ bs) = ground (arith, strlen-le-length bs)

pub strlen-le : (bs : List ℕ) (n : ℕ) → ZeroFrom n bs → strlen bs ≤ n
unfolding strlen
strlen-le [] n z = omega arith
strlen-le (b ∷ bs) zero z = let e : b ≡ 0 = z 0 (omega arith) in ground arith
strlen-le (b ∷ bs) (suc n) z = ground (arith, strlen-le bs n (λ i h. z (suc i) (omega arith)))

length-prefix_of : (n : ℕ) (bs : List ℕ) → length (prefix_of n bs) ≤ n
unfolding prefix_of
length-prefix_of zero bs = omega arith
length-prefix_of (suc n) [] = omega arith
length-prefix_of (suc n) (b ∷ bs) = ground (arith, length-prefix_of n bs)

-- `strncat` writes inside the array where there is room for the bytes and the 0 behind them.
pub length-strncat :
    (to from : List ℕ) (n : ℕ) → strlen to + n < length to → length (strncat to from n) ≡ length to
unfolding strncat
length-strncat to from n h =
    let k = strlen to in
    let text = prefix_of n from in
    omega (
      arith,
      length-append {0} (take k to) (text ++ (0 ∷ drop (k + length text + 1) to)),
      length-append {0} text (0 ∷ drop (k + length text + 1) to),
      length-take {0} k to,
      length-drop {0} (k + length text + 1) to,
      length-prefix_of n from,
    )

get_or-append_right :
    (xs ys : List ℕ) (i : ℕ) → length xs ≤ i → get_or (xs ++ ys) i 0 ≡ get_or ys (i - length xs) 0
get_or-append_right [] ys i h = ap (λ k. get_or ys k 0) (omega arith)
get_or-append_right (x ∷ xs) ys zero h = absurd (omega arith)
get_or-append_right (x ∷ xs) ys (suc i) h =
    get_or-append_right xs ys i (omega arith) ∙ ap (λ k. get_or ys k 0) (omega arith)

get_or-drop : (n : ℕ) (xs : List ℕ) (i : ℕ) → get_or (drop n xs) i 0 ≡ get_or xs (n + i) 0
get_or-drop zero xs i = ap (λ k. get_or xs k 0) (omega arith)
get_or-drop (suc n) [] i = refl
get_or-drop (suc n) (x ∷ xs) i =
    get_or-drop n xs i ∙ ap (λ k. get_or (x ∷ xs) k 0) {x = suc (n + i)} (omega arith)

zero-cons :
    (bs : List ℕ) (i : ℕ) → ((j : ℕ) → suc j ≡ i → get_or bs j 0 ≡ 0) → get_or (0 ∷ bs) i 0 ≡ 0
zero-cons bs zero h = refl
zero-cons bs (suc i) h = h i refl

-- Behind the bytes that `strncat` can have put there, what was zero stays zero.
pub ZeroFrom-strncat :
    (to from : List ℕ) (l n : ℕ)
    → strlen to ≤ l
    → l ≤ length to
    → ZeroFrom l to
    → ZeroFrom (l + n) (strncat to from n)
unfolding strncat
ZeroFrom-strncat to from l n short fits z i h =
    get_or-append_right (take k to) (text ++ (0 ∷ rest)) i (omega (arith, size, room))
    ∙ get_or-append_right text (0 ∷ rest) (i - length (take k to)) (omega (arith, size, room))
    ∙ zero-cons rest (i - length (take k to) - length text) λ j e.
      get_or-drop (k + length text + 1) to j
      ∙ z (k + length text + 1 + j) (omega (arith, size, room))
  where
    k : ℕ
    k = strlen to

    text : List ℕ
    text = prefix_of n from

    rest : List ℕ
    rest = drop (k + length text + 1) to

    size : length (take k to) ≡ k
    size = grind sizes

    room : length text ≤ n
    room = length-prefix_of n from

-- An array of zeros.
pub ZeroFrom-zeroed : (n k : ℕ) → ZeroFrom k (zeroed n)
unfolding zeroed
ZeroFrom-zeroed zero k i h = refl
ZeroFrom-zeroed (suc n) k zero h = refl
ZeroFrom-zeroed (suc n) k (suc i) h = ZeroFrom-zeroed n 0 i (omega arith)

pub length-zeroed : (n : ℕ) → length (zeroed n) ≡ n
unfolding zeroed
length-zeroed n = length-replicate n 0

-- Storing a byte at index `n` moves the zeros on by one.
pub ZeroFrom-set : (bs : List ℕ) (n v : ℕ) → ZeroFrom n bs → ZeroFrom (n + 1) (set bs n v)
ZeroFrom-set [] n v z i h = refl
ZeroFrom-set (b ∷ bs) zero v z zero h = absurd (omega arith)
ZeroFrom-set (b ∷ bs) zero v z (suc i) h = z (suc i) (omega arith)
ZeroFrom-set (b ∷ bs) (suc n) v z zero h = absurd (omega arith)
ZeroFrom-set (b ∷ bs) (suc n) v z (suc i) h =
    ZeroFrom-set bs n v (λ j g. z (suc j) (omega arith)) i (omega arith)

-- A byte 0 nowhere: the list is one string.
abbrev pub NoZero : List ℕ → Type 0
NoZero [] = Unit {0}
NoZero (b ∷ bs) = (b ≢ 0) × NoZero bs

pub prefix_of-NoZero :
    (text rest : List ℕ) → NoZero text → prefix_of (length text) (text ++ rest) ≡ text
unfolding prefix_of
prefix_of-NoZero [] rest h = refl
prefix_of-NoZero (b ∷ bs) rest h = ground (arith, prefix_of-NoZero bs rest h.1)

pub strlen-NoZero : (text rest : List ℕ) → NoZero text → strlen (text ++ (0 ∷ rest)) ≡ length text
unfolding strlen
strlen-NoZero [] rest h = refl
strlen-NoZero (b ∷ bs) rest h = ground (arith, strlen-NoZero bs rest h.1)

-- Comparing with the whole of a string asks whether the array begins with it.
unfoldable pub begins_with : List ℕ → List ℕ → Bool
begins_with line [] = true
begins_with [] (y ∷ ys) = false
begins_with (x ∷ xs) (y ∷ ys) = let rest = begins_with xs ys in if x == y then rest else false

pub strncmp_eq-begins_with :
    (line text : List ℕ) → NoZero text → strncmp_eq line text (length text) ≡ begins_with line text
unfolding strncmp_eq begins_with
strncmp_eq-begins_with [] [] h = refl
strncmp_eq-begins_with (x ∷ xs) [] h = refl
strncmp_eq-begins_with [] (y ∷ ys) h = ground arith
strncmp_eq-begins_with (x ∷ xs) (y ∷ ys) h = ground (arith, strncmp_eq-begins_with xs ys h.1)
