-- ===== src/Urc/Fresh.antt =====
-- urc_handle.c: the search of `_atc_urc_register` for an identifier.
use atcortex.Base.{
  ℕ, zero, suc, ◌+◌, ◌-◌, ◌≤◌, ◌<◌, ◌≡◌, ◌≢◌, sym, true, false, none, some, List, [], ◌∷◌, arith,
  length, ltb, ◌==◌, if◌then◌else◌, Bool-cases, Option-cases, inl, inr,
}
use mathlib.Core.Option.{some-injective}
use atcortex.Context.{UrcNode}
use atcortex.Urc.{int_max, has_id, next_id, find_id}

-- An `int` that is an identifier.
abbrev pub IsId : ℕ → Type 0
IsId id = (1 ≤ id) × (id ≤ int_max)

pub next_id-IsId : (id : ℕ) → IsId id → IsId (next_id id)
unfolding next_id
next_id-IsId id h = ground arith

-- The first `m` candidates are all taken.
AllTaken : ℕ → ℕ → List UrcNode → Type 0
AllTaken zero c ns = Unit {0}
AllTaken (suc m) c ns = (has_id c ns ≡ true) × AllTaken m (next_id c) ns

find_id-AllTaken : (fuel c : ℕ) (ns : List UrcNode) → find_id fuel ns c ≡ none → AllTaken fuel c ns
unfolding find_id AllTaken
find_id-AllTaken zero c ns e = tt
find_id-AllTaken (suc fuel) c ns e = elim (Bool-cases (has_id c ns)) [
  | inl taken ↦ (taken, find_id-AllTaken fuel (next_id c) ns (ground arith))
  | inr free ↦ absurd (ground arith)
]

-- The nodes without the first that has the identifier.
without : ℕ → List UrcNode → List UrcNode
without id [] = []
without id (n ∷ ns) = if n.entry.id == id then ns else n ∷ without id ns

length-without :
    (id : ℕ) (ns : List UrcNode) → has_id id ns ≡ true → length ns ≡ suc (length (without id ns))
unfolding has_id without
length-without id [] h = cc
length-without id (n ∷ ns) h = ground (arith, length-without id ns)

has_id-without :
    (id other : ℕ) (ns : List UrcNode)
    → other ≢ id
    → has_id other ns ≡ true
    → has_id other (without id ns) ≡ true
unfolding has_id without
has_id-without id other [] ne h = cc
has_id-without id other (n ∷ ns) ne h = ground (arith, has_id-without id other ns)

-- `c` comes `d` steps behind `id`.
abbrev Behind : ℕ → ℕ → ℕ → Type 0
Behind id d c = c ≡ (if ltb int_max (id + d) then id + d - int_max else id + d)

Behind-next : (id d c : ℕ) → IsId id → d < int_max → Behind id d c → Behind id (suc d) (next_id c)
unfolding next_id
Behind-next id d c i lt h = ground arith

Behind-first : (c : ℕ) → IsId c → Behind c 1 (next_id c)
unfolding next_id
Behind-first c i = ground arith

-- Fewer than `INT_MAX` steps do not lead back.
AllTaken-without :
    (m id d c : ℕ) (ns : List UrcNode)
    → IsId id
    → 1 ≤ d
    → d + m ≤ int_max
    → Behind id d c
    → AllTaken m c ns
    → AllTaken m c (without id ns)
unfolding AllTaken
AllTaken-without zero id d c ns i one lt b t = tt
AllTaken-without (suc m) id d c ns i one lt b t = (
  has_id-without id c ns (ground arith) t.0,
  AllTaken-without m id (suc d) (next_id c) ns i (omega arith) (omega arith)
      (Behind-next id d c i (omega arith) b) t.1,
)

-- So many candidates are taken by as many entries.
AllTaken-length :
    (m c : ℕ) (ns : List UrcNode) → IsId c → m ≤ int_max → AllTaken m c ns → m ≤ length ns
unfolding AllTaken
AllTaken-length zero c ns i lt t = omega arith
AllTaken-length (suc m) c ns i lt t =
    let fewer : AllTaken m (next_id c) (without c ns) =
      AllTaken-without m c 1 (next_id c) ns i (omega arith) (omega arith) (Behind-first c i) t.1 in
    omega (
      arith,
      length-without c ns t.0,
      AllTaken-length m (next_id c) (without c ns) (next_id-IsId c i) (omega arith) fewer,
    )

-- What a search finds is an identifier that no entry has.
find_id-free :
    (fuel c : ℕ) (ns : List UrcNode) {id : ℕ}
    → IsId c
    → find_id fuel ns c ≡ some id
    → IsId id × (has_id id ns ≡ false)
unfolding find_id
find_id-free zero c ns i e = cc
find_id-free (suc fuel) c ns i e = elim (Bool-cases (has_id c ns)) [
  | inl taken ↦ find_id-free fuel (next_id c) ns (next_id-IsId c i) (ground arith)
  | inr free ↦ let same = some-injective _ _ (sym (rw free at e)) in rw same (i, free)
]

-- With one round more than there are entries, and fewer entries than INT_MAX, the search for an
-- identifier ends. It has found one from 1 to INT_MAX then that no entry has.
pub find_id_lem :
    (c : ℕ) (ns : List UrcNode)
    → IsId c
    → length ns < int_max
    → (id : ℕ) × (find_id (length ns + 1) ns c ≡ some id) × IsId id × (has_id id ns ≡ false)
find_id_lem c ns i small = elim (Option-cases (find_id (length ns + 1) ns c)) [
  | inl ran_out ↦ absurd (
      omega (
        arith,
        AllTaken-length (length ns + 1) c ns i (omega arith)
            (find_id-AllTaken (length ns + 1) c ns ran_out),
      ))
  | inr (id, e) ↦ let (ok, free) = find_id-free (length ns + 1) c ns i e in (id, e, ok, free)
]
