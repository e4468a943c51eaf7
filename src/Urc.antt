-- ===== src/Urc.antt =====
-- urc_handle.c: the registry of handlers for unsolicited lines.
pub mod Dispatch
pub mod Fresh
pub mod Registry
pub mod Removal
pub mod RoundTrip
use atcortex.Base.{
  ℕ, zero, suc, ◌+◌, ◌-◌, ◌^◌, Bool, true, false, Option, none, some, List, [], ◌∷◌, ◌++◌, length,
  ltb, ◌==◌, if◌then◌else◌,
}
use atcortex.Types.{Ptr, null, AtcResult, success, error, UrcHandlerEntry}
use atcortex.Platform.{World, Os, Call, malloc, free, call_urc_handler, pure, ◌>>=◌, ◌>>◌}
use atcortex.CString.{strlen, strncmp_eq}
use atcortex.Context.{Context, UrcNode, UrcList, State, Run, done, null_dereference, out_of_fuel}

-- `INT_MAX`
abbrev pub int_max : ℕ
int_max = 2 ^ 31 - 1

-- The test of `urc_line_handle`.
unfoldable pub matches : List ℕ → UrcHandlerEntry → Bool
matches line entry = strncmp_eq line entry.prefix (strlen entry.prefix)

-- The loop of `urc_line_handle` over the nodes: every entry that matches is called, if it has a
-- handler.
unfoldable pub notify : {W : Type 0} → Os W → List ℕ → List UrcNode → Bool → Call W Bool
notify os line [] is_urc w = (is_urc, w)
notify os line (n ∷ ns) is_urc w =
    let hit = matches line n.entry in
    let w' =
      if hit
      then (if n.entry.handler == null then w else (call_urc_handler os n.entry.handler line w).1)
      else w in
    notify os line ns (if hit then true else is_urc) w'

-- The entries that there are; where there is no list, none
unfoldable pub nodes_of : Option UrcList → List UrcNode
nodes_of none = []
nodes_of (some l) = l.nodes

-- `SLIST_FOREACH` reads the head of the list, whether there is one or not.
unfoldable pub notify_in :
    {W : Type 0} → Os W → List ℕ → Option UrcList → World W → Run (Bool × World W)
notify_in os line none w = null_dereference
notify_in os line (some l) w = done (notify os line l.nodes false w)

-- The line is never NULL: the only caller passes the line buffer.
unfoldable pub urc_line_handle :
    {W : Type 0} → Os W → List ℕ → Context → World W → Run (Bool × World W)
urc_line_handle os line c w = notify_in os line c.urc_handler_list w

-- `slist_create` with `urc_free`, where there is no list yet
unfoldable pub urc_init_in :
    {W : Type 0} → Os W → Option UrcList → Context → World W → AtcResult × State W
urc_init_in os (some l) c w = (success, (c, w))
urc_init_in os none c w =
    let (p, w') = malloc os 32 w in
    if p == null then (error, (c, w')) else (
      success,
      (
        record c { urc_handler_list = some (record { block = p; nodes = [] }); urc_next_id = 1 },
        w',
      ),
    )

unfoldable pub urc_init : {W : Type 0} → Os W → Context → World W → AtcResult × State W
urc_init os c w = urc_init_in os c.urc_handler_list c w

-- Whether an entry has the identifier, as the inner loop of `_atc_urc_register` finds out.
unfoldable pub has_id : ℕ → List UrcNode → Bool
has_id id [] = false
has_id id (n ∷ ns) = if n.entry.id == id then true else has_id id ns

-- One step on through the identifiers: behind `INT_MAX` comes 1.
unfoldable pub next_id : ℕ → ℕ
next_id candidate = if ltb candidate int_max then candidate + 1 else 1

-- The loop of `_atc_urc_register`; `none` means that the fuel ran out.
unfoldable pub find_id : ℕ → List UrcNode → ℕ → Option ℕ
find_id zero nodes candidate = none
find_id (suc fuel) nodes candidate =
    let rest = find_id fuel nodes (next_id candidate) in
    if has_id candidate nodes then rest else some candidate

-- `slist_append` on the list of nodes: a new node, if the allocator gives one, goes to the end.
unfoldable pub slist_append :
    {W : Type 0} → Os W → UrcList → Ptr → UrcHandlerEntry → Call W (Bool × UrcList)
slist_append os l item entry w =
    let (p, w') = malloc os 16 w in
    let node : UrcNode = record { node = p; item = item; entry = entry } in
    if p == null
    then ((false, l), w')
    else ((true, record l { nodes = l.nodes ++ (node ∷ []) }), w')

-- `slist_remove` with `urc_free`: the first node whose data is at the address goes, the data and then
-- the node are freed. The result says whether there was one.
unfoldable pub slist_remove :
    {W : Type 0} → Os W → Ptr → List UrcNode → Call W (Bool × List UrcNode)
slist_remove os item [] w = ((false, []), w)
slist_remove os item (n ∷ ns) w =
    let rest = slist_remove os item ns w in
    if n.item == item
    then ((true, ns), (free os n.node ((if n.item == null then pure tt else free os n.item) w).1).1)
    else ((rest.0.0, n ∷ rest.0.1), rest.1)

-- The identifier that the search starts with.
unfoldable pub first_candidate : ℕ → ℕ
first_candidate urc_next_id = if urc_next_id == 0 then 1 else urc_next_id

-- What `_atc_urc_register` does with the identifier that it has found; `none` is the result -1.
unfoldable pub add_entry :
    {W : Type 0} → Os W → UrcHandlerEntry → ℕ → UrcList → Context → World W → Option ℕ × State W
add_entry os entry id l c w =
    let c1 = record c { urc_next_id = next_id id } in
    let (tmp, w1) = malloc os 48 w in
    if tmp == null
    then (none, (c1, w1))
    else (let ((ok, l'), w2) = slist_append os l tmp (record entry { id = id }) w1 in
        if ok
        then (some id, (record c1 { urc_handler_list = some l' }, w2))
        else (none, (c1, (free os tmp w2).1)))

unfoldable pub register_found :
    {W : Type 0}
    → Os W
    → UrcHandlerEntry
    → UrcList
    → Option ℕ
    → Context
    → World W
    → Run (Option ℕ × State W)
register_found os entry l none c w = out_of_fuel
register_found os entry l (some id) c w = done (add_entry os entry id l c w)

unfoldable pub register_in :
    {W : Type 0}
    → Os W
    → UrcHandlerEntry
    → Option UrcList
    → Context
    → World W
    → Run (Option ℕ × State W)
register_in os entry none c w = done (none, (c, w))
register_in os entry (some l) c w =
    register_found os entry l (find_id (length l.nodes + 1) l.nodes (first_candidate c.urc_next_id))
      c w

-- `_atc_urc_register`, for an entry that is not NULL. The search has as many rounds as there are
-- entries, and one.
unfoldable pub atc_urc_register_entry :
    {W : Type 0} → Os W → UrcHandlerEntry → Context → World W → Run (Option ℕ × State W)
atc_urc_register_entry os entry c w = register_in os entry c.urc_handler_list c w

-- The loop of `_atc_urc_unregister`: the data of the first entry with the identifier.
unfoldable pub item_of : ℕ → List UrcNode → Option Ptr
item_of id [] = none
item_of id (n ∷ ns) = if n.entry.id == id then some n.item else item_of id ns

unfoldable pub unregister_item :
    {W : Type 0} → Os W → UrcList → Option Ptr → Context → World W → AtcResult × State W
unregister_item os l none c w = (error, (c, w))
unregister_item os l (some item) c w =
    let ((found, ns), w') = slist_remove os item l.nodes w in
    (success, (record c { urc_handler_list = some (record l { nodes = ns }) }, w'))

unfoldable pub unregister_in :
    {W : Type 0} → Os W → ℕ → Option UrcList → Context → World W → AtcResult × State W
unregister_in os id none c w = (error, (c, w))
unregister_in os id (some l) c w = unregister_item os l (item_of id l.nodes) c w

-- `_atc_urc_unregister`
unfoldable pub atc_urc_unregister_id :
    {W : Type 0} → Os W → ℕ → Context → World W → AtcResult × State W
atc_urc_unregister_id os id c w = unregister_in os id c.urc_handler_list c w
