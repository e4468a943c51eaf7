-- ===== src/CString.antt =====
-- The functions of <string.h> that the library calls on `char` arrays. An array is a list of bytes; a
-- string in it ends at its first 0, or at the end of the list.
pub mod Laws
use atcortex.Base.{
  ℕ, zero, suc, ◌+◌, Bool, true, false, List, [], ◌∷◌, ◌++◌, ◌&&◌, take, drop, length, replicate,
  ◌==◌, if◌then◌else◌,
}

-- `memset(array, 0, n)` on an array of `n` bytes
unfoldable pub zeroed : ℕ → List ℕ
zeroed n = replicate n 0

unfoldable pub strlen : List ℕ → ℕ
strlen [] = 0
strlen (b ∷ bs) = if b == 0 then 0 else suc (strlen bs)

-- At most `n` bytes of the string.
unfoldable pub prefix_of : ℕ → List ℕ → List ℕ
prefix_of zero bs = []
prefix_of (suc n) [] = []
prefix_of (suc n) (b ∷ bs) = if b == 0 then [] else b ∷ prefix_of n bs

-- `strncmp(a, b, n) == 0`
unfoldable pub strncmp_eq : List ℕ → List ℕ → ℕ → Bool
strncmp_eq a b zero = true
strncmp_eq [] [] (suc n) = true
strncmp_eq [] (y ∷ ys) (suc n) = y == 0
strncmp_eq (x ∷ xs) [] (suc n) = x == 0
strncmp_eq (x ∷ xs) (y ∷ ys) (suc n) =
    let rest = strncmp_eq xs ys n in if x == y then (if x == 0 then true else rest) else false

-- `strcmp(a, b) == 0`
unfoldable pub strcmp_eq : List ℕ → List ℕ → Bool
strcmp_eq [] [] = true
strcmp_eq [] (y ∷ ys) = y == 0
strcmp_eq (x ∷ xs) [] = x == 0
strcmp_eq (x ∷ xs) (y ∷ ys) =
    let rest = strcmp_eq xs ys in if x == y then (if x == 0 then true else rest) else false

-- `strncat(to, from, n)`: the bytes go over the 0 that ends `to`, and a 0 is put behind them.
unfoldable pub strncat : List ℕ → List ℕ → ℕ → List ℕ
unfolding strlen prefix_of
strncat to from n =
    let text = prefix_of n from in
    take (strlen to) to ++ (text ++ (0 ∷ drop (strlen to + length text + 1) to))
