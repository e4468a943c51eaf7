-- ===== src/Platform.antt =====
-- What the library does not implement: the functions of `struct atc_interface` (include/ATCortex.h)
-- and the user's callbacks are a parameter, `Os`, over a state `W` of the system's own, which holds
-- the message queues, the semaphores, the clock and what other threads do.
-- A `World` is that state with the memory of callers that answers are written to, and with the
-- trace of the calls that the library has made, the latest first. A trace only grows, and no call
-- reads it: it is there to state what the code does. Logging is left out.
pub mod Ledger
pub mod Refusal
use atcortex.Base.{ℕ, Bool, true, false, Option, none, some, List, [], ◌∷◌, ◌==◌, if◌then◌else◌}
use atcortex.Types.{Ptr, null, AtcResult, SendTask, Msg}

-- The variables and buffers of callers, by address: results, identifiers (`none` is -1), lengths and
-- bytes.
pub record Memory : Type 0 where
  pub results : Ptr → AtcResult
  pub ids : Ptr → Option ℕ
  pub lengths : Ptr → ℕ
  pub buffers : Ptr → List ℕ

-- The functions that the library calls. `0` is a failed allocation or creation. The `int` that
-- taking and giving a semaphore return is read nowhere in the source. The two queues hold
-- `struct send_task` and `struct msg`, so sending and receiving stand here once for each.
-- While a thread waits for a semaphore, others run, and may write to the waiting thread's variables.
pub record Os (W : Type 0) : Type 0 where
  pub os_malloc : ℕ → W → Ptr × W
  pub os_free : Ptr → W → W
  pub os_queue_create : ℕ → W → Ptr × W
  pub os_send_task : Ptr → SendTask → ℕ → W → Bool × W
  pub os_recv_task : Ptr → ℕ → W → Option SendTask × W
  pub os_send_msg : Ptr → Msg → ℕ → W → Bool × W
  pub os_recv_msg : Ptr → ℕ → W → Option Msg × W
  pub os_send : List ℕ → ℕ → W → AtcResult × W
  pub os_semaphore_create : W → Ptr × W
  pub os_semaphore_take : Ptr → ℕ → Memory → W → Memory × W
  pub os_semaphore_give : Ptr → W → W
  pub os_semaphore_give_isr : Ptr → W → W
  pub os_semaphore_delete : Ptr → W → W
  pub os_get_tick_ms : W → ℕ × W
  pub os_response_handler : ℕ → AtcResult → List ℕ → ℕ → W → W
  pub os_urc_handler : Ptr → List ℕ → W → W

-- A call that the library made.
pub data Event : Type 0 where
  allocated freed : Ptr → Event
  created_queue : Ptr → Event
  queued_task : SendTask → Event
  queued_msg : Msg → Event
  sent : List ℕ → ℕ → Event
  created deleted gave gave_isr : Ptr → Event
  took : Ptr → ℕ → Event
  responded : ℕ → AtcResult → List ℕ → ℕ → Event
  notified : Ptr → List ℕ → Event

pub record World (W : Type 0) : Type 0 where
  pub system : W
  pub trace : List Event
  pub memory : Memory

abbrev pub update {ℓ} : {A : Type ℓ} → (Ptr → A) → Ptr → A → Ptr → A
update f p v q = if q == p then v else f q

-- A computation that calls the platform.
abbrev pub Call : Type 0 → Type 0 → Type 0
Call W A = World W → A × World W

module _ {W : Type 0} where
  abbrev pub pure {ℓ} : {A : Type ℓ} → A → World W → A × World W
  pure a w = (a, w)

  infixl 5 ◌>>=◌ ◌>>◌
  abbrev pub ◌>>=◌ : {A B : Type 0} → Call W A → (A → Call W B) → Call W B
  ◌>>=◌ m f w = f (m w).0 (m w).1

  abbrev pub ◌>>◌ : {B : Type 0} → Call W (Unit {0}) → Call W B → Call W B
  ◌>>◌ m k w = k (m w).1

  -- the system moves on, and the trace gets an event
  abbrev pub step : Event → W → World W → World W
  step e s w = record w { system = s; trace = e ∷ w.trace }

  -- a caller's variables
  abbrev pub write_result : Ptr → AtcResult → Call W (Unit {0})
  write_result p r w =
      (tt, record w { memory = record (w.memory) { results = update w.memory.results p r } })

  abbrev pub write_id : Ptr → Option ℕ → Call W (Unit {0})
  write_id p i w = (tt, record w { memory = record (w.memory) { ids = update w.memory.ids p i } })

module _ {W : Type 0} (os : Os W) where
  unfoldable pub malloc : ℕ → Call W Ptr
  malloc n w =
      let (p, s) = os.os_malloc n w.system in
      if p == null then (p, record w { system = s }) else (p, step (allocated p) s w)

  unfoldable pub free : Ptr → Call W (Unit {0})
  free p w = (tt, step (freed p) (os.os_free p w.system) w)

  unfoldable pub semaphore_create : Call W Ptr
  semaphore_create w =
      let (p, s) = os.os_semaphore_create w.system in
      if p == null then (p, record w { system = s }) else (p, step (created p) s w)

  unfoldable pub semaphore_take : Ptr → ℕ → Call W (Unit {0})
  semaphore_take p ms w =
      let (m, s) = os.os_semaphore_take p ms w.memory w.system in
      (tt, step (took p ms) s (record w { memory = m }))

  unfoldable pub semaphore_give : Ptr → Call W (Unit {0})
  semaphore_give p w = (tt, step (gave p) (os.os_semaphore_give p w.system) w)

  unfoldable pub semaphore_give_isr : Ptr → Call W (Unit {0})
  semaphore_give_isr p w = (tt, step (gave_isr p) (os.os_semaphore_give_isr p w.system) w)

  unfoldable pub semaphore_delete : Ptr → Call W (Unit {0})
  semaphore_delete p w = (tt, step (deleted p) (os.os_semaphore_delete p w.system) w)

  unfoldable pub queue_create : ℕ → Call W Ptr
  queue_create n w =
      let (p, s) = os.os_queue_create n w.system in
      if p == null then (p, record w { system = s }) else (p, step (created_queue p) s w)

  unfoldable pub send_task : Ptr → SendTask → ℕ → Call W Bool
  send_task q t ms w =
      let (done, s) = os.os_send_task q t ms w.system in
      if done then (true, step (queued_task t) s w) else (false, record w { system = s })

  unfoldable pub recv_task : Ptr → ℕ → Call W (Option SendTask)
  recv_task q ms w = let (t, s) = os.os_recv_task q ms w.system in (t, record w { system = s })

  unfoldable pub send_msg : Ptr → Msg → ℕ → Call W Bool
  send_msg q m ms w =
      let (done, s) = os.os_send_msg q m ms w.system in
      if done then (true, step (queued_msg m) s w) else (false, record w { system = s })

  unfoldable pub recv_msg : Ptr → ℕ → Call W (Option Msg)
  recv_msg q ms w = let (m, s) = os.os_recv_msg q ms w.system in (m, record w { system = s })

  unfoldable pub send : List ℕ → ℕ → Call W AtcResult
  send bytes n w = let (r, s) = os.os_send bytes n w.system in (r, step (sent bytes n) s w)

  unfoldable pub get_tick_ms : Call W ℕ
  get_tick_ms w = let (t, s) = os.os_get_tick_ms w.system in (t, record w { system = s })

  unfoldable pub call_response_handler : ℕ → AtcResult → List ℕ → ℕ → Call W (Unit {0})
  call_response_handler h r bytes n w =
      (tt, step (responded h r bytes n) (os.os_response_handler h r bytes n w.system) w)

  unfoldable pub call_urc_handler : Ptr → List ℕ → Call W (Unit {0})
  call_urc_handler h line w = (tt, step (notified h line) (os.os_urc_handler h line w.system) w)
