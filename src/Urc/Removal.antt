-- ===== src/Urc/Removal.antt =====
-- urc_handle.c: `_atc_urc_unregister`, and the list without an entry.
use atcortex.Base.{
  ℕ, ◌≡◌, refl, ap, subst, sym, ◌∙◌, Bool, true, false, Option, none, some, List, [], ◌∷◌, arith,
  ◌==◌, if◌then◌else◌, Bool-cases, inl, inr,
}
use atcortex.Platform.Ledger.{blocks, remove, free_lem}
use atcortex.Types.{null, Ptr, AtcResult, success, error}
use atcortex.Platform.{World, Os, free, pure}
use atcortex.Context.{Context, State, UrcNode, UrcList}
use atcortex.Urc.{
  has_id, slist_remove, item_of, unregister_item, unregister_in, atc_urc_unregister_id,
}

-- Whether a node's data is at the address.
unfoldable pub has_item : Ptr → List UrcNode → Bool
has_item item [] = false
has_item item (n ∷ ns) = if n.item == item then true else has_item item ns

-- No two nodes have one identifier, or one block for their data.
abbrev pub Apart : List UrcNode → Type 0
Apart [] = Unit {0}
Apart (n ∷ ns) = (has_id n.entry.id ns ≡ false) × (has_item n.item ns ≡ false) × Apart ns

-- The nodes but the first with the identifier.
unfoldable pub drop_id : ℕ → List UrcNode → List UrcNode
drop_id id [] = []
drop_id id (n ∷ ns) = if n.entry.id == id then ns else n ∷ drop_id id ns

-- The first node with the identifier.
unfoldable pub node_of : ℕ → List UrcNode → Option UrcNode
node_of id [] = none
node_of id (n ∷ ns) = if n.entry.id == id then some n else node_of id ns

-- The blocks that are outstanding behind the freeing of a node and its data
abbrev pub without : UrcNode → List Ptr → List Ptr
without n bs = remove n.node (if n.item == null then bs else remove n.item bs)

has_id-drop_id :
    (id other : ℕ) (ns : List UrcNode)
    → Apart ns
    → has_id other (drop_id id ns) ≡ (if other == id then false else has_id other ns)
unfolding has_id drop_id
has_id-drop_id id other [] a = ground arith
has_id-drop_id id other (n ∷ ns) a = ground (arith, has_id-drop_id id other ns a.2)

item_of-has_item :
    (id : ℕ) (ns : List UrcNode) (item : Ptr) → item_of id ns ≡ some item → has_item item ns ≡ true
unfolding item_of has_item
item_of-has_item id [] item e = cc
item_of-has_item id (n ∷ ns) item e = ground (arith, item_of-has_item id ns item)

item_of-none : (id : ℕ) (ns : List UrcNode) → has_id id ns ≡ false → item_of id ns ≡ none
unfolding item_of has_id
item_of-none id [] h = refl
item_of-none id (n ∷ ns) h = ground (arith, item_of-none id ns)

item_of-some :
    (id : ℕ) (ns : List UrcNode) → has_id id ns ≡ true → (item : Ptr) × (item_of id ns ≡ some item)
unfolding item_of has_id
item_of-some id [] h = cc
item_of-some id (n ∷ ns) h = elim (Bool-cases (n.entry.id == id)) [
  | inl same ↦ (n.item, rw same)
  | inr other ↦ let (item, e) = item_of-some id ns (rw other at h) in (item, rw other e)
]

module _ {W : Type 0} (os : Os W) where
  -- Where the entry's data is at an address of its own, removing by address removes by identifier.
  slist_remove-drop_id :
      (id item : ℕ) (ns : List UrcNode) (w : World W)
      → Apart ns
      → item_of id ns ≡ some item
      → (slist_remove os item ns w).0 ≡ (true, drop_id id ns)
  unfolding slist_remove item_of drop_id
  slist_remove-drop_id id item [] w a e = cc
  slist_remove-drop_id id item (n ∷ ns) w a e = ground (
    arith,
    slist_remove-drop_id id item ns w a.2,
    item_of-has_item id ns item,
    has_id-drop_id id id ns a.2,
  )

  free_node :
      (n : UrcNode) (w : World W)
      → blocks ((free os n.node ((if n.item == null then pure tt else free os n.item) w).1).1.trace)
        ≡ without n (blocks w.trace)
  free_node n w = elim (Bool-cases (n.item == null)) [
    | inl null_item ↦ rw null_item (free_lem os n.node w)
    | inr item ↦
        rw item
          (free_lem os n.node (free os n.item w).1 ∙ ap (remove n.node) (free_lem os n.item w))
  ]

  -- What is freed is the node with the identifier.
  slist_remove-blocks :
      (id item : ℕ) (ns : List UrcNode) (w : World W)
      → Apart ns
      → item_of id ns ≡ some item
      → (n : UrcNode) × (node_of id ns ≡ some n)
        × (blocks (slist_remove os item ns w).1.trace ≡ without n (blocks w.trace))
  unfolding slist_remove item_of node_of
  slist_remove-blocks id item [] w a e = cc
  slist_remove-blocks id item (n ∷ ns) w a e = elim (Bool-cases (n.entry.id == id)) [
    | inl same ↦
        let e' = rw same at e in
        let eq : n.item ≡ item = cc in
        let here : (n.item == item) ≡ true = ground arith in (n, rw same, rw here (free_node n w))
    | inr other ↦
        let e' = rw other at e in
        let has = item_of-has_item id ns item e' in
        let apart : (n.item == item) ≡ false = elim (Bool-cases (n.item == item)) [
          | inl one ↦ let eq : n.item ≡ item = ground arith in let no = a.1 in cc
          | inr two ↦ two
        ] in
        let (m, f, b) = slist_remove-blocks id item ns w a.2 e' in (m, rw other f, rw apart b)
  ]

-- What unregistering an identifier comes to, by whether an entry has it. If one has, just this entry
-- goes, with its blocks: the identifier is free then, and every other is as it was. If none has, nothing changes.
abbrev pub Unregistered :
    {W : Type 0} → ℕ → UrcList → Context → World W → Bool → AtcResult × State W → Type 0
Unregistered id l c w true (result, (c', w')) =
    (result ≡ success)
    × (c'.urc_handler_list ≡ some (record l { nodes = drop_id id l.nodes }))
    × ((other : ℕ)
        → has_id other (drop_id id l.nodes) ≡ (if other == id then false else has_id other l.nodes))
    × (n : UrcNode) × (node_of id l.nodes ≡ some n)
    × (blocks w'.trace ≡ without n (blocks w.trace))
Unregistered id l c w false r = r ≡ (error, (c, w))

module _ {W : Type 0} (os : Os W) where
  unregister_found :
      (id item : ℕ) (l : UrcList) (c : Context) (w : World W)
      → Apart l.nodes
      → item_of id l.nodes ≡ some item
      → Unregistered id l c w true (unregister_item os l (some item) c w)
  unfolding unregister_item
  unregister_found id item l c w a e =
      let (n, f, b) = slist_remove-blocks os id item l.nodes w a e in
      (
        refl,
        ap (λ r. some (record l { nodes = r.1 })) (slist_remove-drop_id os id item l.nodes w a e),
        λ other. has_id-drop_id id other l.nodes a,
        n,
        f,
        b,
      )

  unregister_in-Unregistered :
      (id : ℕ) (l : UrcList) (c : Context) (w : World W) (has : Bool)
      → Apart l.nodes
      → has_id id l.nodes ≡ has
      → Unregistered id l c w has (unregister_in os id (some l) c w)
  unfolding unregister_in unregister_item
  unregister_in-Unregistered id l c w true a h =
      let (item, f) = item_of-some id l.nodes h in
      subst (λ o. Unregistered id l c w true (unregister_item os l o c w)) (sym f)
        (unregister_found id item l c w a f)
  unregister_in-Unregistered id l c w false a h =
      ap (λ o. unregister_item os l o c w) (item_of-none id l.nodes h)

  -- Where no two entries of the list share an identifier or a block, unregistering an identifier
  -- that some entry has succeeds: just this entry goes, so that the identifier is free and every
  -- other is as it was, and the blocks of its node and its data, if it has any, are given back.
  -- Unregistering an identifier that no entry has is an error, and changes nothing.
  pub atc_urc_unregister_id_lem :
      (id : ℕ) (l : UrcList) (c : Context) (w : World W)
      → c.urc_handler_list ≡ some l
      → Apart l.nodes
      → Unregistered id l c w (has_id id l.nodes) (atc_urc_unregister_id os id c w)
  unfolding atc_urc_unregister_id
  atc_urc_unregister_id_lem id l c w e a =
      subst (λ o. Unregistered id l c w (has_id id l.nodes) (unregister_in os id o c w)) (sym e)
        (unregister_in-Unregistered id l c w (has_id id l.nodes) a refl)
