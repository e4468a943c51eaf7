-- ===== src/Recv/Safety.antt =====
-- recv_data_handle.c: the invariant of the context, with every index inside its array.
use atcortex.Base.{
  ℕ, ◌+◌, ◌≤◌, ◌<◌, ◌≡◌, subst, ◌∙◌, sym, false, Option, none, some, List, arith, length, ltb,
  Bool-cases, inl, inr,
}
use atcortex.Types.{
  Ptr, AtcResult, SendTask, atc_rx_line_max_size, atc_rx_response_max, atc_prompt_stack_max_depth,
}
use atcortex.Platform.{World, Os}
use atcortex.RingBuffer.Bounds as Ring
use atcortex.Stack.{Stack, stack_clear, stack_push_overwrite}
use atcortex.Stack.Bounds as Bounds
use atcortex.Stack.Laws.{Holds, stack_push_overwrite_lem}
use atcortex.Stack.Reads.{stack_clear_lem}
use atcortex.CString.{zeroed, strlen, strncat}
use atcortex.CString.Laws.{
  ZeroFrom, strlen-le, length-strncat, ZeroFrom-strncat, ZeroFrom-zeroed, length-zeroed,
}
use atcortex.Context.{Context}
use atcortex.Recv.{
  clear_response_buffer, push_to_response_buffer, reset_reception, command_end_handle,
}

-- The response buffer: the bytes behind the response are zero.
pub record ResponseFits (response : List ℕ) (n : ℕ) : Type 0 where
  pub size : length response ≡ atc_rx_response_max
  pub within : n ≤ atc_rx_response_max
  pub zeros : ZeroFrom n response

pub zeroed-Fits : ResponseFits (zeroed atc_rx_response_max) 0
zeroed-Fits = record {
  size = length-zeroed atc_rx_response_max;
  within = omega arith;
  zeros = ZeroFrom-zeroed atc_rx_response_max 0;
}

strncat-Fits :
    {response : List ℕ} {k : ℕ} (line : List ℕ) (n : ℕ)
    → ResponseFits response k
    → k + n < atc_rx_response_max
    → ResponseFits (strncat response line n) (k + n)
strncat-Fits {response} {k} line n f lt = record {
  size = length-strncat response line n (omega (arith, short)) ∙ f.size;
  within = omega arith;
  zeros = ZeroFrom-strncat response line k n short (omega arith) f.zeros;
}
  where
    short : strlen response ≤ k
    short = strlen-le response k f.zeros

-- The prompt stack is there, and is as `recv_data_init` made it but for its items.
abbrev pub StackFits : Option Stack → Type 0
StackFits none = ⊥
StackFits (some s) = Bounds.IsValid s × (s.capacity ≡ atc_prompt_stack_max_depth)

pub record WellFormed (c : Context) : Type 0 where
  pub ring : Ring.IsValid c.rx_buffer
  pub line_size : length c.line_buffer ≡ atc_rx_line_max_size
  pub line_in : c.line_buffer_index < atc_rx_line_max_size
  pub fits : ResponseFits c.response c.response_length
  pub stack : StackFits c.byte_stack

Holds-Fits :
    {s : Stack} {ts : List Ptr} {r : Option Stack}
    → s.capacity ≡ atc_prompt_stack_max_depth
    → Holds s ts r
    → StackFits r
Holds-Fits e h = subst StackFits (sym h.is) (h.valid, h.capacity ∙ e)

pub clear-StackFits : (r : Option Stack) → StackFits r → StackFits (stack_clear r false).1
clear-StackFits none f = absurd f
clear-StackFits (some s) f = Holds-Fits f.1 (stack_clear_lem false f.0).1

pub push-StackFits :
    (r : Option Stack) (x : Ptr) → StackFits r → StackFits (stack_push_overwrite r x false).2
push-StackFits none x f = absurd f
push-StackFits (some s) x f = Holds-Fits f.1 (stack_push_overwrite_lem x false f.0).2

reset-WellFormed : {c : Context} → WellFormed c → WellFormed (reset_reception c)
unfolding reset_reception clear_response_buffer
reset-WellFormed {c} v = record {
  ring = v.ring;
  line_size = v.line_size;
  line_in = v.line_in;
  fits = zeroed-Fits;
  stack = clear-StackFits c.byte_stack v.stack;
}

pub push-WellFormed :
    {c : Context} (line : List ℕ) (n : ℕ)
    → WellFormed c
    → WellFormed (push_to_response_buffer c line n)
unfolding push_to_response_buffer
push-WellFormed {c} line n v = elim (Bool-cases (ltb (c.response_length + n) atc_rx_response_max)) [
  | inl room ↦ rw room (record {
    ring = v.ring;
    line_size = v.line_size;
    line_in = v.line_in;
    fits = strncat-Fits line n v.fits (ground arith);
    stack = v.stack;
  })
  | inr full ↦ rw full v
]

-- The context behind `command_end_handle`, with a task or without one.
pub context-command_end_handle :
    {W : Type 0} (os : Os W) (result : AtcResult) (c : Context) (w : World W)
    → (command_end_handle os result c w).0 ≡ reset_reception (record c { current_send_task = none })
unfolding command_end_handle
context-command_end_handle os result c w = ground arith

-- The invariant does not speak of the task.
pub set_task-WellFormed :
    {c : Context} (o : Option (Ptr × SendTask))
    → WellFormed c
    → WellFormed (record c { current_send_task = o })
set_task-WellFormed o v = record {
  ring = v.ring;
  line_size = v.line_size;
  line_in = v.line_in;
  fits = v.fits;
  stack = v.stack;
}

pub command_end_handle-WellFormed :
    {W : Type 0} (os : Os W) (result : AtcResult) {c : Context} (w : World W)
    → WellFormed c
    → WellFormed (command_end_handle os result c w).0
command_end_handle-WellFormed os result {c} w v =
    rw (context-command_end_handle os result c w) (reset-WellFormed (set_task-WellFormed none v))
