-- ===== src/RingBuffer/Turns.antt =====
-- How the bytes that a handle of ring_buffer.c holds change as its indices go round the storage.
use native.Mathlib.Nat.{mod-eq_of_lt, mod-add-mod}
use atcortex.Base.{
  sym, ℕ, suc, ◌+◌, ◌-◌, ◌%◌, ◌≤◌, ◌<◌, ◌≡◌, ◌≢◌, ap, ap₂, ◌∙◌, List, [], ◌∷◌, ◌++◌, arith, length,
  get_or, set, ◌==◌, mod_once,
}
use atcortex.RingBuffer.Contents.{
  span, span-congr, span-snoc, byte_at, get_or-set, behind, not_behind,
}

-- `held` and the full test agree.
pub held_full :
    (r w c : ℕ) → r < c → w < c → 2 ≤ c → ((w + 1) % c == r) ≡ ((w + c - r) % c + 1 == c)
held_full r w c hr hw hc =
    let m = mod_once (w + 1) c (omega arith) in
    let n = mod_once (w + c - r) c (omega arith) in ground arith

held_next :
    (r w c : ℕ)
    → r < c
    → w < c
    → 2 ≤ c
    → (w + 1) % c ≢ r
    → ((w + 1) % c + c - r) % c ≡ (w + c - r) % c + 1
held_next r w c hr hw hc ne =
    let m = mod_once (w + 1) c (omega arith) in
    let n = mod_once (w + c - r) c (omega arith) in
    let o = mod_once ((w + 1) % c + c - r) c (omega arith) in omega arith

held_less :
    (r w c : ℕ) → r < c → w < c → 2 ≤ c → r ≢ w → (w + c - r) % c ≡ suc ((w + c - (r + 1) % c) % c)
held_less r w c hr hw hc ne =
    let m = mod_once (r + 1) c (omega arith) in
    let n = mod_once (w + c - r) c (omega arith) in
    let o = mod_once (w + c - (r + 1) % c) c (omega arith) in omega arith

pub contents-write :
    (buffer : List ℕ) (c r w byte : ℕ)
    → c ≤ length buffer
    → r < c
    → w < c
    → 2 ≤ c
    → (w + 1) % c ≢ r
    → span (byte_at (set buffer w byte) c) r (((w + 1) % c + c - r) % c)
      ≡ span (byte_at buffer c) r ((w + c - r) % c) ++ (byte ∷ [])
contents-write buffer c r w byte hl hr hw hc ne =
    ap (span f' r) (held_next r w c hr hw hc ne ∙ omega arith)
    ∙ span-snoc f' r n
    ∙ ap₂ (λ s b. s ++ (b ∷ [])) (span-congr f' f r r n old) new
  where
    n : ℕ
    n = (w + c - r) % c

    f : ℕ → ℕ
    f = byte_at buffer c

    f' : ℕ → ℕ
    f' = byte_at (set buffer w byte) c

    old : (k : ℕ) → k < n → f' (r + k) ≡ f (r + k)
    old k lt =
        let ne = not_behind r w c k hr hw lt in
        ground (arith, get_or-set buffer w ((r + k) % c) byte (omega arith))

    new : f' (r + n) ≡ byte
    new = ground (arith, behind r w c hr hw, get_or-set buffer w ((r + n) % c) byte (omega arith))

pub contents-read :
    (buffer : List ℕ) (c r w : ℕ)
    → r < c
    → w < c
    → 2 ≤ c
    → r ≢ w
    → span (byte_at buffer c) r ((w + c - r) % c)
      ≡ get_or buffer r 0 ∷ span (byte_at buffer c) ((r + 1) % c) ((w + c - (r + 1) % c) % c)
unfolding span
contents-read buffer c r w hr hw hc ne =
    ap (span f r) (held_less r w c hr hw hc ne)
    ∙ ap₂ ◌∷◌ (ap (λ i. get_or buffer i 0) (mod-eq_of_lt hr)) (
        span-congr f f (suc r) ((r + 1) % c) n λ k lt.
          ap (λ i. get_or buffer i 0)
            (ap (λ i. i % c) (omega arith) ∙ sym (mod-add-mod (r + 1) c k)))
  where
    n : ℕ
    n = (w + c - (r + 1) % c) % c

    f : ℕ → ℕ
    f = byte_at buffer c
