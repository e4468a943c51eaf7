-- ===== src/Interface/Registration.antt =====
-- interface.c: what `atc_interface_register` takes over.
use atcortex.Base.{
  Bool, true, false, Option, none, some, List, [], ◌∷◌, refl, ◌≡◌, arith, if◌then◌else◌,
}
use atcortex.Types.{Ptr, success, error}
use atcortex.Interface.{Interface, is_null, atc_interface_register}

abbrev pub fields : Interface → List Ptr
fields i =
    i.atc_malloc ∷ i.atc_free ∷ i.atc_log ∷ i.atc_send ∷ i.atc_queue_create ∷ i.atc_queue_send
    ∷ i.atc_queue_recv ∷ i.atc_semaphore_create_binary ∷ i.atc_semaphore_take ∷ i.atc_semaphore_give
    ∷ i.atc_semaphore_delete ∷ i.atc_semaphore_give_isr ∷ i.atc_get_tick_ms ∷ []

unfoldable pub any_null : List Ptr → Bool
any_null [] = false
any_null (p ∷ ps) = if is_null p then true else any_null ps

-- An interface is registered just if none of its 13 functions is NULL. If one is, or there is no
-- interface, the result is an error and the interface in use stays as it is.
pub atc_interface_register_lem :
    (given : Option Interface) (g : Interface)
    → atc_interface_register given g ≡ elim given [
      | none ↦ (error, g)
      | some i ↦ if any_null (fields i) then (error, g) else (success, i)
    ]
unfolding atc_interface_register any_null
atc_interface_register_lem none g = refl
atc_interface_register_lem (some i) g = ground arith
