-- ===== src/Process/Queues.antt =====
-- ATCortex.c: what the event loop relies on of the message queues, and the invariant of its rounds.
use atcortex.Base.{ℕ, ◌+◌, ◌≤◌, ◌<◌, refl, Option, none, some, length, ◌==◌, Bool-cases, inl, inr}
use atcortex.Types.{Ptr, null, SendTask, Msg}
use atcortex.Platform.{World, Os, malloc, free, semaphore_give, recv_msg}
use atcortex.Context.{Context, UrcList}
use atcortex.Urc.{int_max, nodes_of}
use atcortex.Recv.Task.{fixed}
use atcortex.Recv.Known.{IsThere}
use atcortex.Recv.Ready.{WantsData, IsReady}

abbrev pub received : Option Msg → ℕ
received none = 0
received (some m) = 1

-- A caller that sends a prompt wants data behind it.
abbrev pub AsksForData : Option SendTask → Type 0
AsksForData none = Unit {0}
AsksForData (some t) = WantsData t

-- The queue of messages has room for 5, receiving takes one out, and no message comes while the loop
-- that works it off allocates, frees or wakes a caller. The tasks in the other queue are as their
-- senders should make them.
pub record Queues {W : Type 0} (os : Os W) : Type 0 where
  pub waiting : W → ℕ
  pub few : (s : W) → waiting s ≤ 5
  pub taken :
      (q ms : ℕ) (s : W)
      → waiting (os.os_recv_msg q ms s).1 + received (os.os_recv_msg q ms s).0 ≤ waiting s
  pub malloc_adds_none : (n : ℕ) (s : W) → waiting (os.os_malloc n s).1 ≤ waiting s
  pub free_adds_none : (p : Ptr) (s : W) → waiting (os.os_free p s) ≤ waiting s
  pub give_adds_none : (p : Ptr) (s : W) → waiting (os.os_semaphore_give p s) ≤ waiting s
  pub asks : (q ms : ℕ) (s : W) → AsksForData (os.os_recv_task q ms s).0

-- The context is ready for bytes, and the registry has room for `k` more entries.
pub record Runs (k : ℕ) (c : Context) : Type 0 where
  pub ready : IsReady (fixed c) c
  pub next : c.urc_next_id ≤ int_max
  pub room : length (nodes_of c.urc_handler_list) + k < int_max

module _ {W : Type 0} {os : Os W} (qs : Queues os) where
  -- How many messages wait in a world
  abbrev pub left : World W → ℕ
  left w = qs.waiting w.system

  pub left-malloc : (n : ℕ) (w : World W) → left (malloc os n w).1 ≤ left w
  unfolding malloc
  left-malloc n w = elim (Bool-cases ((os.os_malloc n w.system).0 == null)) [
    | inl b ↦ rw b (qs.malloc_adds_none n w.system)
    | inr b ↦ rw b (qs.malloc_adds_none n w.system)
  ]

  pub left-free : (p : Ptr) (w : World W) → left (free os p w).1 ≤ left w
  unfolding free
  left-free p w = qs.free_adds_none p w.system

  pub left-give : (p : Ptr) (w : World W) → left (semaphore_give os p w).1 ≤ left w
  unfolding semaphore_give
  left-give p w = qs.give_adds_none p w.system

  pub left-recv :
      (q ms : ℕ) (w : World W)
      → left (recv_msg os q ms w).1 + received (recv_msg os q ms w).0 ≤ left w
  unfolding recv_msg
  left-recv q ms w = qs.taken q ms w.system

-- The registry changes.
pub set_urcs-Runs :
    {k m : ℕ} {c : Context} (l : Option UrcList) (n : ℕ)
    → Runs k c
    → n ≤ int_max
    → length (nodes_of l) + m < int_max
    → IsThere l
    → Runs m (record c { urc_handler_list = l; urc_next_id = n })
set_urcs-Runs l n r next room there = record {
  ready = record {
    formed = record {
      ring = r.ready.formed.ring;
      line_size = r.ready.formed.line_size;
      line_in = r.ready.formed.line_in;
      fits = r.ready.formed.fits;
      stack = r.ready.formed.stack;
    };
    task = r.ready.task;
    handlers = there;
    same = refl;
  };
  next = next;
  room = room;
}
