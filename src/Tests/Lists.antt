-- ===== src/Tests/Lists.antt =====
-- Runs for slist.c.
use atcortex.Base.{ℕ, ◌≡◌, refl, true, not, none, some, [], ◌∷◌, ◌++◌, arith, if◌then◌else◌, ◌==◌}
use atcortex.Types.{null}
use atcortex.Platform.{malloc, free}
use atcortex.Context.{done}
use atcortex.Urc
use atcortex.Slist.{
  cell, Store, Slist, slist_destroy, slist_append, slist_remove, slist_remove_at, slist_get,
  get_loop, slist_reverse,
}
use atcortex.Slist.Linked.{Cells, IsList, Becomes, Ends}
use atcortex.Slist.Append.{slist_append-Becomes}
use atcortex.Slist.Reads.{item_at, slist_get-get_loop}
use atcortex.Slist.Unlink.{Removed}
use atcortex.Slist.Removal.{slist_remove-Becomes, slist_remove_at-Becomes}
use atcortex.Slist.Reverse.{Reversed, slist_reverse-Reversed}
use atcortex.Slist.Destroy.{free_all, slist_destroy-Ends}
use atcortex.Slist.Registry.{urc_free, cells_of, EndsAs, slist_append-EndsAs, slist_remove-EndsAs}
use atcortex.Tests.{test_os, world, urc_list}

-- Two nodes, at 20 and 30, with the data 21 and 31
abbrev cells : Cells
cells = (20, 21) ∷ (30, 31) ∷ []

abbrev store : Store
store q = if q == 20 then some (cell 21 30) else (if q == 30 then some (cell 31 null) else none)

abbrev list : Slist ℕ
list = record { block = 5; head = 20; tail = 30; len = 2; free_fn = none }

list-IsList : IsList store list cells
list-IsList = (refl, refl, refl, (omega arith, refl, refl, (omega arith, refl, refl, tt)))

slist_append-Becomes_example :
    Ends
      (λ (ok, l') s' w'.
        (ok ≡ not ((malloc test_os 16 world).0 == null))
        × Becomes list
            (if (malloc test_os 16 world).0 == null
              then cells
              else cells ++ (((malloc test_os 16 world).0, 41) ∷ []))
            s'
            l'
        × (w' ≡ (malloc test_os 16 world).1)
        × (s' 50 ≡ store 50))
      (slist_append test_os (some list) 41 store world)
unfolding malloc
slist_append-Becomes_example =
    slist_append-Becomes test_os list cells 41 store world 50 list-IsList refl refl (omega arith)

slist_get-get_loop_example :
    (slist_get (some list) 1 store ≡ get_loop 1 list.head store)
    × (slist_get (some list) 1 store ≡ done (item_at cells 1))
slist_get-get_loop_example = slist_get-get_loop list cells 1 store list-IsList

slist_remove-Becomes_example :
    Ends
      (Removed test_os list true ((20, 21) ∷ []) 30 31 store world 50)
      (slist_remove test_os (some list) 31 store world)
slist_remove-Becomes_example =
    slist_remove-Becomes test_os list cells 31 store world 50 list-IsList refl

slist_remove_at-Becomes_example :
    Ends
      (Removed test_os list true ((30, 31) ∷ []) 20 21 store world 50)
      (slist_remove_at test_os (some list) 0 store world)
slist_remove_at-Becomes_example =
    slist_remove_at-Becomes test_os list cells 0 store world 50 list-IsList refl

slist_reverse-Reversed_example : Reversed list cells store 50 (slist_reverse (some list) store)
slist_reverse-Reversed_example = slist_reverse-Reversed list cells store 50 list-IsList refl

slist_destroy-Ends_example :
    Ends
      (λ u s' w'. (s' 20 ≡ none) × (w' ≡ (free test_os 5 (free_all test_os cells none world)).1))
      (slist_destroy test_os (some list) store world)
slist_destroy-Ends_example = slist_destroy-Ends test_os list cells store world 20 list-IsList

-- The list of `urc_list` in memory
abbrev handlers : Slist ℕ
handlers = record { block = 5; head = 6; tail = 6; len = 1; free_fn = some (urc_free test_os) }

abbrev handler_store : Store
handler_store q = if q == 6 then some (cell 7 null) else none

handlers-IsList : IsList handler_store handlers (cells_of urc_list.nodes)
handlers-IsList = (refl, refl, refl, (omega arith, refl, refl, tt))

slist_append-EndsAs_example :
    Ends
      (EndsAs test_os handlers handler_store 50 (
        (
          (Urc.slist_append test_os urc_list 41
              (record { id = 2; prefix = 43 ∷ []; handler = 9 })
              world).0.0,
          (Urc.slist_append test_os urc_list 41
              (record { id = 2; prefix = 43 ∷ []; handler = 9 })
              world).0.1.nodes,
        ),
        (Urc.slist_append test_os urc_list 41
            (record { id = 2; prefix = 43 ∷ []; handler = 9 })
            world).1,
      ))
      (slist_append test_os (some handlers) 41 handler_store world)
unfolding malloc
slist_append-EndsAs_example =
    slist_append-EndsAs test_os handlers urc_list 41
      (record { id = 2; prefix = 43 ∷ []; handler = 9 }) handler_store world 50 handlers-IsList refl
      refl (omega arith)

slist_remove-EndsAs_example :
    Ends
      (EndsAs test_os handlers handler_store 50 (Urc.slist_remove test_os 7 urc_list.nodes world))
      (slist_remove test_os (some handlers) 7 handler_store world)
slist_remove-EndsAs_example =
    slist_remove-EndsAs test_os handlers urc_list.nodes 7 handler_store world 50 handlers-IsList
      refl refl
