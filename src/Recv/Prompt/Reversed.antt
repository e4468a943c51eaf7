-- ===== src/Recv/Prompt/Reversed.antt =====
-- recv_data_handle.c: the comparison of a prompt with the bytes received, both from the end on.
use mathlib.Core.List.{reverse, reverse-cons}
use native.Mathlib.Decide.{dec_lt}
use atcortex.Base.{
  ℕ, zero, suc, ◌+◌, ◌-◌, ◌%◌, ◌≤◌, ◌<◌, ◌≡◌, ◌≢◌, refl, ap, ap₂, ◌∙◌, sym, true, some, List, [],
  ◌∷◌, ◌++◌, arith, length, get_or, drop, take, length-append, ◌||◌, not, ◌==◌, if◌then◌else◌,
  Bool-cases, inl, inr,
}
use atcortex.Types.{SendTask}
use atcortex.Stack.{Stack}
use atcortex.Stack.Laws.{elements}
use atcortex.Stack.Reads.{stack_peek_at_lem}
use atcortex.CString.Laws.{begins_with}
use atcortex.Recv.{prompt_bytes}
use atcortex.Recv.Prompt.{differs, all_match}

-- Bytes, as numbers below 256; the list is 0 past its end.
abbrev pub IsBytes : List ℕ → Type 0
IsBytes xs = (i : ℕ) → get_or xs i 0 < 256

abbrev pub HasNoZero : List ℕ → Type 0
HasNoZero xs = (i : ℕ) → i < length xs → get_or xs i 0 ≢ 0

drop-some : (xs : List ℕ) (i : ℕ) → i < length xs → drop i xs ≡ get_or xs i 0 ∷ drop (suc i) xs
drop-some [] i h = absurd (omega arith)
drop-some (x ∷ xs) zero h = refl
drop-some (x ∷ xs) (suc i) h = drop-some xs i (omega arith)

drop-past : (xs : List ℕ) (i : ℕ) → length xs ≤ i → drop i xs ≡ []
drop-past [] zero h = refl
drop-past [] (suc i) h = refl
drop-past (x ∷ xs) zero h = absurd (omega arith)
drop-past (x ∷ xs) (suc i) h = drop-past xs i (omega arith)

get_or-past : (xs : List ℕ) (i : ℕ) → length xs ≤ i → get_or xs i 0 ≡ 0
get_or-past [] i h = refl
get_or-past (x ∷ xs) zero h = absurd (omega arith)
get_or-past (x ∷ xs) (suc i) h = get_or-past xs i (omega arith)

get_or-snoc :
    (xs : List ℕ) (x i : ℕ)
    → get_or (xs ++ (x ∷ [])) i 0 ≡ (if i == length xs then x else get_or xs i 0)
get_or-snoc [] x zero = refl
get_or-snoc [] x (suc i) = ground arith
get_or-snoc (y ∷ xs) x zero = ground arith
get_or-snoc (y ∷ xs) x (suc i) = ground (arith, get_or-snoc xs x i)

pub length-reverse : (xs : List ℕ) → length (reverse xs) ≡ length xs
length-reverse [] = refl
length-reverse (x ∷ xs) =
    rw (reverse-cons x xs)
      (omega (arith, length-append {0} (reverse xs) (x ∷ []), length-reverse xs))

get_or-reverse :
    (xs : List ℕ) (i : ℕ)
    → i < length xs
    → get_or (reverse xs) i 0 ≡ get_or xs (length xs - 1 - i) 0
get_or-reverse [] i h = absurd (omega arith)
get_or-reverse (x ∷ xs) i h = rw (reverse-cons x xs) (
    get_or-snoc (reverse xs) x i
    ∙ rw (length-reverse xs) (elim (Bool-cases (i == length xs)) [
      | inl last ↦ rw last (ap (λ k. get_or (x ∷ xs) k 0) {x = 0} (ground arith))
      | inr inner ↦ rw inner (
          get_or-reverse xs i (ground arith)
          ∙ ap (λ k. get_or (x ∷ xs) k 0) {x = suc (length xs - 1 - i)} (ground arith))
    ]))

same_byte :
    (x y : ℕ) → x < 256 → y < 256 → y ≢ 0 → (x == 0 || not (x % 256 == y % 256)) ≡ not (x == y)
same_byte x y hx hy ne = ground arith

-- One round: the item on the stack is the prompt's byte.
mismatch-same :
    (t : SendTask) (s : Stack) (i : ℕ)
    → IsBytes (elements s)
    → IsBytes (prompt_bytes t)
    → HasNoZero (prompt_bytes t)
    → t.prompt_len ≡ length (prompt_bytes t)
    → i < t.prompt_len
    → differs t (some s) i ≡ not (get_or (elements s) i 0 == get_or (reverse (prompt_bytes t)) i 0)
unfolding differs
mismatch-same t s i es ps zs len lt =
    let k = length (prompt_bytes t) - 1 - i in
    ap₂ (λ (x y : ℕ). x == 0 || not (x % 256 == y % 256)) (stack_peek_at_lem s i)
      (ap (λ j. get_or (prompt_bytes t) (j - 1 - i) 0) len)
    ∙ same_byte (get_or (elements s) i 0) (get_or (prompt_bytes t) k 0) (es i) (ps k)
        (zs k (omega arith))
    ∙ ap (λ y. not (get_or (elements s) i 0 == y))
        (sym (get_or-reverse (prompt_bytes t) i (omega arith)))

begins_with-nil : (line : List ℕ) → begins_with line [] ≡ true
unfolding begins_with
begins_with-nil [] = refl
begins_with-nil (x ∷ xs) = refl

-- The rounds from `i` on compare what is left of the two lists.
pub all_match-begins_with :
    (t : SendTask) (s : Stack) (m i : ℕ)
    → IsBytes (elements s)
    → IsBytes (prompt_bytes t)
    → HasNoZero (prompt_bytes t)
    → t.prompt_len ≡ length (prompt_bytes t)
    → i + m ≡ t.prompt_len
    → all_match t (some s) i m
      ≡ begins_with (drop i (elements s)) (drop i (reverse (prompt_bytes t)))
unfolding all_match begins_with
all_match-begins_with t s zero i es ps zs len e =
    rw (drop-past (reverse (prompt_bytes t)) i (omega (arith, length-reverse (prompt_bytes t))))
      (sym (begins_with-nil (drop i (elements s))))
all_match-begins_with t s (suc m) i es ps zs len e =
    rw
      (
        mismatch-same t s i es ps zs len (omega arith),
        drop-some (reverse (prompt_bytes t)) i (omega (arith, length-reverse (prompt_bytes t))),
        all_match-begins_with t s m (suc i) es ps zs len (omega arith),
      )
      (elim (dec_lt i (length (elements s))) [
        | yes lt ↦ rw (drop-some (elements s) i lt) (ground arith)
        | no past ↦
            rw (drop-past (elements s) i (omega arith), get_or-past (elements s) i (omega arith))
              (ground (
                arith,
                get_or-reverse (prompt_bytes t) i (omega arith),
                zs (length (prompt_bytes t) - 1 - i) (omega arith),
              ))
      ])

pub IsBytes-cons : (x : ℕ) (xs : List ℕ) → x < 256 → IsBytes xs → IsBytes (x ∷ xs)
IsBytes-cons x xs h hs zero = h
IsBytes-cons x xs h hs (suc i) = hs i

pub IsBytes-take : (n : ℕ) (xs : List ℕ) → IsBytes xs → IsBytes (take n xs)
IsBytes-take zero xs h i = omega arith
IsBytes-take (suc n) [] h i = omega arith
IsBytes-take (suc n) (x ∷ xs) h zero = h 0
IsBytes-take (suc n) (x ∷ xs) h (suc i) = IsBytes-take n xs (λ j. h (suc j)) i

pub begins_with-length :
    (line text : List ℕ) → begins_with line text ≡ true → length text ≤ length line
unfolding begins_with
begins_with-length line [] h = omega arith
begins_with-length [] (y ∷ ys) h = cc
begins_with-length (x ∷ xs) (y ∷ ys) h = ground (arith, begins_with-length xs ys)
