-- ===== src/Interface.antt =====
-- interface.c: registering the platform's functions. A function pointer is its address, and the two
-- structures are the caller's and `g_atc_interface`.
pub mod Registration
use atcortex.Base.{Bool, true, false, Option, none, some, ◌==◌, ◌||◌, if◌then◌else◌}
use atcortex.Types.{Ptr, null, AtcResult, success, error}

-- `struct atc_interface`
pub record Interface : Type 0 where
  pub atc_malloc : Ptr
  pub atc_free : Ptr
  pub atc_queue_create : Ptr
  pub atc_queue_send : Ptr
  pub atc_queue_recv : Ptr
  pub atc_log : Ptr
  pub atc_send : Ptr
  pub atc_semaphore_create_binary : Ptr
  pub atc_semaphore_take : Ptr
  pub atc_semaphore_give : Ptr
  pub atc_semaphore_delete : Ptr
  pub atc_semaphore_give_isr : Ptr
  pub atc_get_tick_ms : Ptr

unfoldable pub is_null : Ptr → Bool
is_null p = p == null

-- `atc_interface_register`: the result, and `g_atc_interface` behind it.
unfoldable pub atc_interface_register : Option Interface → Interface → AtcResult × Interface
atc_interface_register none g = (error, g)
atc_interface_register (some i) g =
    if is_null i.atc_malloc || (is_null i.atc_free || (is_null i.atc_log || is_null i.atc_send))
    then (error, g)
    else (if is_null i.atc_queue_create || (is_null i.atc_queue_send || is_null i.atc_queue_recv)
        then (error, g)
        else (if is_null i.atc_semaphore_create_binary
              || (is_null i.atc_semaphore_take
                  || (is_null i.atc_semaphore_give
                      || (is_null i.atc_semaphore_delete || is_null i.atc_semaphore_give_isr)))
            then (error, g)
            else (if is_null i.atc_get_tick_ms then (error, g) else (success, i))))
