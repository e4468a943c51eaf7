-- ===== src/RingBuffer/Contents.antt =====
-- The bytes that a handle of ring_buffer.c holds, as a list, and what a write to the storage does to
-- it.
use atcortex.Base.{
  ℕ, zero, suc, ◌+◌, ◌-◌, ◌%◌, ◌<◌, ◌≡◌, ◌≢◌, refl, ap, ap₂, ◌∙◌, List, [], ◌∷◌, ◌++◌, arith,
  length, get_or, set, ◌==◌, if◌then◌else◌, mod_once,
}
use native.Mathlib.Nat.{mod-lt}
use atcortex.RingBuffer.{RingBuffer}
use atcortex.RingBuffer.Bounds.{IsValid, storage, held}

-- `f start`, `f (start + 1)` and so on, `n` values.
unfoldable pub span : (ℕ → ℕ) → ℕ → ℕ → List ℕ
span f start zero = []
span f start (suc n) = f start ∷ span f (suc start) n

length-span : (f : ℕ → ℕ) (start n : ℕ) → length (span f start n) ≡ n
unfolding span
length-span f start zero = refl
length-span f start (suc n) = ap suc (length-span f (suc start) n)

pub span-congr :
    (f g : ℕ → ℕ) (i j n : ℕ) → ((k : ℕ) → k < n → f (i + k) ≡ g (j + k)) → span f i n ≡ span g j n
unfolding span
span-congr f g i j zero h = refl
span-congr f g i j (suc n) h =
    ap₂ ◌∷◌ (ap f (omega arith) ∙ h 0 (omega arith) ∙ ap g (omega arith)) (
      span-congr f g (suc i) (suc j) n
        (λ k lt. ap f (omega arith) ∙ h (suc k) (omega arith) ∙ ap g (omega arith)))

pub span-snoc : (f : ℕ → ℕ) (i n : ℕ) → span f i (suc n) ≡ span f i n ++ (f (i + n) ∷ [])
unfolding span
span-snoc f i zero = ap (λ k. f k ∷ []) (omega arith)
span-snoc f i (suc n) =
    ap (λ t. f i ∷ t)
      (span-snoc f (suc i) n ∙ ap (λ k. span f (suc i) n ++ (f k ∷ [])) (omega arith))

-- The byte at a place counted on past the end of the storage.
abbrev pub byte_at : List ℕ → ℕ → ℕ → ℕ
byte_at buffer c i = get_or buffer (i % c) 0

-- The bytes that wait to be read, the oldest first.
unfoldable pub contents : RingBuffer → List ℕ
contents h = span (byte_at (storage h) h.capacity) h.read_index (held h)

pub length-contents : (h : RingBuffer) → length (contents h) ≡ held h
unfolding contents
length-contents h = length-span (byte_at (storage h) h.capacity) h.read_index (held h)

pub get_or-set :
    (xs : List ℕ) (i j v : ℕ)
    → i < length xs
    → get_or (set xs i v) j 0 ≡ (if i == j then v else get_or xs j 0)
get_or-set [] i j v h = absurd (omega arith)
get_or-set (x ∷ xs) zero zero v h = refl
get_or-set (x ∷ xs) zero (suc j) v h = ground arith
get_or-set (x ∷ xs) (suc i) zero v h = ground arith
get_or-set (x ∷ xs) (suc i) (suc j) v h = ground (arith, get_or-set xs i j v)

-- The place that is written is the first one behind the bytes held, and none of theirs.
pub behind : (r w c : ℕ) → r < c → w < c → (r + (w + c - r) % c) % c ≡ w
behind r w c hr hw = omega (
  arith,
  mod_once (w + c - r) c (omega arith),
  mod_once (r + (w + c - r) % c) c (omega (arith, mod_once (w + c - r) c (omega arith))),
)

pub not_behind : (r w c k : ℕ) → r < c → w < c → k < (w + c - r) % c → (r + k) % c ≢ w
not_behind r w c k hr hw hk =
    let m = mod_once (w + c - r) c (omega arith) in
    let n = mod_once (r + k) c (omega arith) in omega arith

-- Fewer bytes are held than the capacity.
pub length-contents-lt : {h : RingBuffer} → IsValid h → length (contents h) < h.capacity
length-contents-lt {h} v =
    omega (
      arith,
      length-contents h,
      mod-lt (h.write_index + h.capacity - h.read_index) {m = h.capacity},
    )
