-- ===== src/Tests/Handlers.antt =====
-- Runs for urc_handle.c and interface.c.
use atcortex.Base.{ℕ, ◌≡◌, refl, Option, some, [], ◌∷◌, true, arith, if◌then◌else◌}
use atcortex.Platform.{malloc}
use atcortex.Types.{error, success, UrcHandlerEntry}
use atcortex.Context.{State, done}
use atcortex.Urc.{has_id, atc_urc_register_entry, atc_urc_unregister_id}
use atcortex.Urc.Registry.{Registered, atc_urc_register_entry_lem}
use atcortex.Urc.Removal.{has_item, Unregistered, atc_urc_unregister_id_lem}
use atcortex.Urc.RoundTrip.{Undone, unregister-register}
use atcortex.Interface.{Interface, atc_interface_register}
use atcortex.Interface.Registration.{any_null, fields, atc_interface_register_lem}
use atcortex.Tests.{test_os, world, context, urc_list}

abbrev entry : UrcHandlerEntry
entry = record { id = 0; prefix = 43 ∷ 67 ∷ []; handler = 15 }

atc_urc_register_entry_lem_example :
    (id : Option ℕ) × (s : State ℕ) × (atc_urc_register_entry test_os entry context world
      ≡ done (id, s))
    × Registered entry urc_list world (malloc test_os 48 world).0 id s
atc_urc_register_entry_lem_example =
    atc_urc_register_entry_lem test_os entry urc_list context world refl (omega arith) (omega arith)

atc_urc_unregister_id_lem_example :
    Unregistered 1 urc_list context world true (atc_urc_unregister_id test_os 1 context world)
unfolding has_id has_item
atc_urc_unregister_id_lem_example =
    atc_urc_unregister_id_lem test_os 1 urc_list context world refl (refl, refl, tt)

-- Everything is there but the last function.
abbrev given : Interface
given = record {
  atc_malloc = 1;
  atc_free = 2;
  atc_queue_create = 3;
  atc_queue_send = 4;
  atc_queue_recv = 5;
  atc_log = 6;
  atc_send = 7;
  atc_semaphore_create_binary = 8;
  atc_semaphore_take = 9;
  atc_semaphore_give = 10;
  atc_semaphore_delete = 11;
  atc_semaphore_give_isr = 12;
  atc_get_tick_ms = 0;
}

atc_interface_register_lem_example :
    atc_interface_register (some given) given
    ≡ (if any_null (fields given) then (error, given) else (success, given))
atc_interface_register_lem_example = atc_interface_register_lem (some given) given

unregister-register_example :
    Undone test_os urc_list world (atc_urc_register_entry test_os entry context world)
unfolding has_item malloc
unregister-register_example =
    unregister-register test_os entry urc_list context world refl (omega arith) (omega arith)
      (unfold has_id in (refl, refl, tt)) refl
