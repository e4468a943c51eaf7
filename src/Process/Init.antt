-- ===== src/Process/Init.antt =====
-- ATCortex.c: the context that `atc_init` makes.
use atcortex.Base.{
  ℕ, ◌≤◌, ◌<◌, ◌≡◌, refl, subst, sym, Option, none, some, List, [], arith, length, ◌==◌, Bool-cases,
  inl, inr,
}
use atcortex.Types.{
  Ptr, null, AtcResult, success, error, timeout, hardware_error, atc_rx_buffer_size,
  atc_rx_line_max_size, atc_prompt_stack_max_depth,
}
use atcortex.Platform.{World, Os, queue_create, semaphore_create, malloc}
use atcortex.RingBuffer.Contents.{contents}
use atcortex.RingBuffer.Bounds as Ring
use atcortex.RingBuffer.Init.{ring_buffer_init-IsValid}
use atcortex.Stack.{Stack, stack_create}
use atcortex.Stack.Bounds as Bounds
use atcortex.Stack.Memory.{stack_create-IsValid}
use atcortex.Context.{Context, State, UrcList}
use atcortex.Recv.{set_rx_buffer, init_stack, after_ring, recv_data_init}
use atcortex.Recv.Safety.{ResponseFits, WellFormed}
use atcortex.Urc.{int_max, nodes_of, urc_init_in, urc_init}
use atcortex.Send.Handle.{send_msg_queue_init}
use atcortex.Extern.{extern_msg_queue_init}
use atcortex.Process.{and_init, create_wake_semaphore, atc_init}
use atcortex.Recv.Known.{IsThere}

-- A context with its arrays, and without a task, and at most `k` handlers: with none, what
-- static storage gives, or memset.
pub record IsBlank (k : ℕ) (c : Context) : Type 0 where
  pub line_size : length c.line_buffer ≡ atc_rx_line_max_size
  pub line_in : c.line_buffer_index < atc_rx_line_max_size
  pub fits : ResponseFits c.response c.response_length
  pub idle : c.current_send_task ≡ none
  pub entries : length (nodes_of c.urc_handler_list) ≤ k
  pub next : c.urc_next_id ≤ int_max

-- What holds behind a successful `recv_data_init`, and is kept by what follows.
pub record IsStarted (k : ℕ) (c : Context) : Type 0 where
  pub formed : WellFormed c
  pub idle : c.current_send_task ≡ none
  pub empty : contents c.rx_buffer ≡ []
  pub entries : length (nodes_of c.urc_handler_list) ≤ k
  pub next : c.urc_next_id ≤ int_max

-- Success leaves such a context.
abbrev Succeeds : {W : Type 0} → (Context → Type 0) → AtcResult × State W → Type 0
Succeeds P (r, (c, w)) = r ≡ success → P c

and_init-Succeeds :
    {W : Type 0} (P Q : Context → Type 0) (x : AtcResult × State W)
    (next : Context → World W → AtcResult × State W)
    → Succeeds P x
    → ((c : Context) (w : World W) → P c → Succeeds Q (next c w))
    → Succeeds Q (and_init x next)
and_init-Succeeds P Q (success, (c, w)) next s f = f c w (s refl)
and_init-Succeeds P Q (error, s) next t f = λ e. cc
and_init-Succeeds P Q (timeout, s) next t f = λ e. cc
and_init-Succeeds P Q (hardware_error, s) next t f = λ e. cc

-- The four later steps set other fields.
abbrev Starts : {W : Type 0} → ℕ → AtcResult × State W → Type 0
Starts k x = Succeeds (IsStarted k) x

and_init-Starts :
    {W : Type 0} {k : ℕ} (x : AtcResult × State W) (next : Context → World W → AtcResult × State W)
    → Starts k x
    → ((c : Context) (w : World W) → IsStarted k c → Starts k (next c w))
    → Starts k (and_init x next)
and_init-Starts {k = k} x next s f = and_init-Succeeds (IsStarted k) (IsStarted k) x next s f

-- There is a list of handlers.
abbrev HasList : Context → Type 0
HasList c = IsThere c.urc_handler_list

abbrev Any : Context → Type 0
Any c = Unit {0}

module _ {W : Type 0} {k : ℕ} (os : Os W) where
  init_stack-Starts :
      (o : Option Stack) (c : Context) (w : World W)
      → IsBlank k c
      → Ring.IsValid c.rx_buffer
      → contents c.rx_buffer ≡ []
      → ((s : Stack) → o ≡ some s → Bounds.IsValid s × (s.capacity ≡ atc_prompt_stack_max_depth))
      → Starts k (init_stack c o w)
  unfolding init_stack
  init_stack-Starts none c w b v nothing f = λ e. cc
  init_stack-Starts (some s) c w b v nothing f = λ e. record {
    formed = record {
      ring = v;
      line_size = b.line_size;
      line_in = b.line_in;
      fits = b.fits;
      stack = f s refl;
    };
    idle = b.idle;
    empty = nothing;
    entries = b.entries;
    next = b.next;
  }

  recv_data_init-Starts :
      (buffer : List ℕ) (garbage : List Ptr) (c : Context) (w : World W)
      → IsBlank k c
      → atc_rx_buffer_size ≤ length buffer
      → atc_prompt_stack_max_depth ≤ length garbage
      → Starts k (recv_data_init os buffer garbage c w)
  unfolding recv_data_init after_ring set_rx_buffer
  recv_data_init-Starts buffer garbage c w b room fits =
      let (h, e, v, nothing, size) =
        ring_buffer_init-IsValid c.rx_buffer buffer atc_rx_buffer_size (omega arith) room
          (omega arith) in
      subst (λ r. Starts k (after_ring os garbage r.0 (set_rx_buffer c r.1) w)) (sym e)
        (init_stack-Starts (stack_create os garbage atc_prompt_stack_max_depth w).0
          (record c { rx_buffer = h }) (stack_create os garbage atc_prompt_stack_max_depth w).1
          (record {
            line_size = b.line_size;
            line_in = b.line_in;
            fits = b.fits;
            idle = b.idle;
            entries = b.entries;
            next = b.next;
          })
          v nothing
          (λ s f.
            let (valid, capacity, items) =
              stack_create-IsValid os garbage atc_prompt_stack_max_depth w {s = s} fits f in
            (valid, capacity)))

  -- A step that sets other fields keeps all that.
  other_fields :
      (c : Context) (api send next wake : ℕ) (l : Option UrcList)
      → IsStarted k c
      → length (nodes_of l) ≤ k
      → next ≤ int_max
      → IsStarted k (record c {
        external_api_queue = api;
        send_queue = send;
        urc_handler_list = l;
        urc_next_id = next;
        wake_semaphore = wake;
      })
  other_fields c api send next wake l s n m = record {
    formed = record {
      ring = s.formed.ring;
      line_size = s.formed.line_size;
      line_in = s.formed.line_in;
      fits = s.formed.fits;
      stack = s.formed.stack;
    };
    idle = s.idle;
    empty = s.empty;
    entries = n;
    next = m;
  }

  extern_msg_queue_init-Starts :
      (c : Context) (w : World W) → IsStarted k c → Starts k (extern_msg_queue_init os c w)
  unfolding extern_msg_queue_init
  extern_msg_queue_init-Starts c w s e =
      other_fields c (queue_create os 5 w).0 c.send_queue c.urc_next_id c.wake_semaphore
        c.urc_handler_list s s.entries s.next

  send_msg_queue_init-Starts :
      (c : Context) (w : World W) → IsStarted k c → Starts k (send_msg_queue_init os c w)
  unfolding send_msg_queue_init
  send_msg_queue_init-Starts c w s e =
      other_fields c c.external_api_queue (queue_create os 6 w).0 c.urc_next_id c.wake_semaphore
        c.urc_handler_list s s.entries s.next

  create_wake_semaphore-Starts :
      (c : Context) (w : World W) → IsStarted k c → Starts k (create_wake_semaphore os c w)
  unfolding create_wake_semaphore
  create_wake_semaphore-Starts c w s e =
      other_fields c c.external_api_queue c.send_queue c.urc_next_id (semaphore_create os w).0
        c.urc_handler_list s s.entries s.next

  urc_init_in-Starts :
      (o : Option UrcList) (c : Context) (w : World W)
      → IsStarted k c
      → Starts k (urc_init_in os o c w)
  unfolding urc_init_in nodes_of
  urc_init_in-Starts (some l) c w s = λ e. s
  urc_init_in-Starts none c w s = elim (Bool-cases ((malloc os 32 w).0 == null)) [
    | inl failed ↦ rw failed (λ e. cc)
    | inr got ↦ rw got (λ e.
        other_fields c c.external_api_queue c.send_queue 1 c.wake_semaphore
          (some (record { block = (malloc os 32 w).0; nodes = [] })) s (omega arith) (omega arith))
  ]

  urc_init-Starts : (c : Context) (w : World W) → IsStarted k c → Starts k (urc_init os c w)
  unfolding urc_init
  urc_init-Starts c w s = urc_init_in-Starts c.urc_handler_list c w s

  -- Where the context is blank with at most `k` handlers, its ring storage has 256 bytes and the
  -- new stack has room for 20 items, and `atc_init` is successful, the context is well formed
  -- then, with an empty ring, no task, at most `k` handlers and the next identifier in range.
  pub atc_init_lem :
      (buffer : List ℕ) (garbage : List Ptr) (c : Context) (w : World W)
      → IsBlank k c
      → atc_rx_buffer_size ≤ length buffer
      → atc_prompt_stack_max_depth ≤ length garbage
      → (atc_init os buffer garbage c w).0 ≡ success
      → IsStarted k (atc_init os buffer garbage c w).1.0
  unfolding atc_init
  atc_init_lem buffer garbage c w b room fits =
      and_init-Starts (recv_data_init os buffer garbage c w) _
        (recv_data_init-Starts buffer garbage c w b room fits)
        (λ c1 w1 s1.
          and_init-Starts (extern_msg_queue_init os c1 w1) _ (extern_msg_queue_init-Starts c1 w1 s1)
            (λ c2 w2 s2.
              and_init-Starts (send_msg_queue_init os c2 w2) _ (send_msg_queue_init-Starts c2 w2 s2)
                (λ c3 w3 s3.
                  and_init-Starts (urc_init os c3 w3) _ (urc_init-Starts c3 w3 s3)
                    (λ c4 w4 s4. create_wake_semaphore-Starts c4 w4 s4))))

module _ {W : Type 0} (os : Os W) where
  urc_init_in-HasList :
      (o : Option UrcList) (c : Context) (w : World W)
      → c.urc_handler_list ≡ o
      → Succeeds HasList (urc_init_in os o c w)
  unfolding urc_init_in
  urc_init_in-HasList (some l) c w same = λ e. subst IsThere (sym same) tt
  urc_init_in-HasList none c w same = elim (Bool-cases ((malloc os 32 w).0 == null)) [
    | inl failed ↦ rw failed (λ e. cc)
    | inr got ↦ rw got (λ e. tt)
  ]

  -- A successful `atc_init` leaves a list of handlers.
  pub atc_init-HasList :
      (buffer : List ℕ) (garbage : List Ptr) (c : Context) (w : World W)
      → (atc_init os buffer garbage c w).0 ≡ success
      → IsThere (atc_init os buffer garbage c w).1.0.urc_handler_list
  unfolding atc_init urc_init create_wake_semaphore
  atc_init-HasList buffer garbage c w =
      and_init-Succeeds Any HasList (recv_data_init os buffer garbage c w) _ (λ e. tt)
        (λ c1 w1 s1.
          and_init-Succeeds Any HasList (extern_msg_queue_init os c1 w1) _ (λ e. tt)
            (λ c2 w2 s2.
              and_init-Succeeds Any HasList (send_msg_queue_init os c2 w2) _ (λ e. tt)
                (λ c3 w3 s3.
                  and_init-Succeeds HasList HasList (urc_init_in os c3.urc_handler_list c3 w3) _
                    (urc_init_in-HasList c3.urc_handler_list c3 w3 refl) (λ c4 w4 there e. there))))
