-- ===== src/Process/Start.antt =====
-- ATCortex.c: the event loop, from the start on.
use atcortex.Base.{ℕ, ◌+◌, ◌*◌, ◌≤◌, ◌<◌, ◌≡◌, refl, sym, subst, List, arith, length}
use atcortex.Types.{Ptr, success, atc_rx_buffer_size, atc_prompt_stack_max_depth}
use atcortex.Platform.{World, Os}
use atcortex.Context.{Context}
use atcortex.Urc.{int_max}
use atcortex.Recv.Ready.{TaskIsSafe, Ends}
use atcortex.Process.{atc_init, atc_process}
use atcortex.Process.Init.{IsBlank, IsStarted, atc_init_lem, atc_init-HasList}
use atcortex.Process.Queues.{Queues, Runs}
use atcortex.Process.Rounds.{Settled, atc_process-Settled}
use atcortex.Recv.Known.{IsThere}

started-Runs :
    (k n : ℕ) {c : Context}
    → n + k < int_max
    → IsStarted n c
    → IsThere c.urc_handler_list
    → Runs k c
started-Runs k n {c} few s there = record {
  ready = record {
    formed = s.formed;
    task = subst TaskIsSafe (sym s.idle) tt;
    handlers = there;
    same = refl;
  };
  next = s.next;
  room = omega (arith, few, s.entries);
}

module _ {W : Type 0} {os : Os W} (qs : Queues os) where
  -- Where at most 5 messages wait at a time, none comes while the loop works the others off, and
  -- who sends a prompt gives all of it and wants data behind it, a successful `atc_init` on a
  -- blank context with few handlers, an array of 256 bytes and room for 20 items in the stack, is
  -- followed by as many rounds of `atc_process` as the identifiers last for, with up to 5 new
  -- handlers each, and with any bytes that the interrupt brings between two rounds and, within
  -- each, before the ring is worked off. Every round comes to an end without dereferencing NULL
  -- or reading past the prompt, with fuel for 6 messages, and behind the last one the ring is
  -- empty and the context is well formed, with every index inside its array.
  pub process-init :
      (arrivals : List (List ℕ × List ℕ)) (n : ℕ) (buffer : List ℕ) (garbage : List Ptr)
      (c : Context) (w : World W)
      → IsBlank n c
      → atc_rx_buffer_size ≤ length buffer
      → atc_prompt_stack_max_depth ≤ length garbage
      → n + 5 * length arrivals < int_max
      → (atc_init os buffer garbage c w).0 ≡ success
      → Ends (Settled 0) (
          atc_process os 6 arrivals
            (atc_init os buffer garbage c w).1.0
            (atc_init os buffer garbage c w).1.1)
  process-init arrivals n buffer garbage c w b room fits few e =
      let started = atc_init_lem os buffer garbage c w b room fits e in
      atc_process-Settled qs 0 6 arrivals _ _ (omega arith) (
        started-Runs (5 * length arrivals + 0) n (omega arith) started
            (atc_init-HasList os buffer garbage c w e),
        started.empty,
      )
