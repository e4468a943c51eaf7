-- ===== src/Recv/Ready.antt =====
-- recv_data_handle.c: what every byte leaves of the context, whatever the task waits for.
use atcortex.Base.{
  ℕ, suc, ◌+◌, ◌-◌, ◌≡◌, ◌≢◌, refl, ◌∙◌, sym, subst, false, Option, none, some, arith, ◌==◌,
  Bool-cases, inl, inr,
}
use atcortex.Types.{Ptr, SendTask, SendTaskStatus, line_recv, prompt_match, binary}
use atcortex.Platform.{World, Os}
use atcortex.RingBuffer.{RingBuffer}
use atcortex.Stack.{Stack}
use atcortex.Context.{Context, UrcList, State, Run, done, null_dereference, out_of_fuel}
use atcortex.Recv.{
  byte_line_handle, recv_for_status, recv_for, recv_byte, prompt_loop, prompt_matched,
  byte_prompt_handle, clear_response_buffer,
}
use native.Mathlib.Decide.{dec_lt}
use native.Mathlib.Numerals.{add-one}
use atcortex.Recv.Safety.{WellFormed, StackFits, zeroed-Fits, clear-StackFits, push-StackFits}
use atcortex.Recv.Bytes.{byte_line_step-WellFormed, byte_binary_handle-WellFormed}
use atcortex.Recv.Task.{Keeps, fixed, byte_line_step-Keeps, byte_binary_handle-Keeps}
use atcortex.Recv.Prompt.{HasPrompt, all_match, matched-more, prompt_loop_lem, prompt_loop_empty}
use atcortex.Recv.Prompt.Suffix.{handle_current}
use atcortex.Recv.Known.{IsThere, byte_line_handle-step}

-- A task that waits for a prompt has the prompt, and data to follow it.
abbrev pub WantsData : SendTask → Type 0
WantsData t = t.status ≡ prompt_match → (t.need_recv_len ≢ 0) × HasPrompt t

abbrev pub TaskIsSafe : Option (Ptr × SendTask) → Type 0
TaskIsSafe none = Unit {0}
TaskIsSafe (some (p, t)) = WantsData t

pub record IsReady (rx : RingBuffer × (Option UrcList × ℕ)) (c : Context) : Type 0 where
  pub formed : WellFormed c
  pub task : TaskIsSafe c.current_send_task
  pub handlers : IsThere c.urc_handler_list
  pub same : fixed c ≡ rx

-- The run is done, in a state with the property.
abbrev pub Ends : {W : Type 0} → (Context → Type 0) → Run (State W) → Type 0
Ends P (done (c, w)) = P c
Ends P null_dereference = ⊥
Ends P out_of_fuel = ⊥

module _ {W : Type 0} (os : Os W) (rx : RingBuffer × (Option UrcList × ℕ)) where
  prompt_matched-IsReady :
      (p : Ptr) (t : SendTask) {c : Context} (w : World W)
      → WellFormed c
      → IsThere c.urc_handler_list
      → fixed c ≡ rx
      → (t.need_recv_len == 0) ≡ false
      → IsReady rx (prompt_matched os p t c w).0
  unfolding prompt_matched clear_response_buffer
  prompt_matched-IsReady p t {c} w v there same more = rw more (record {
    formed = record {
      ring = v.ring;
      line_size = v.line_size;
      line_in = v.line_in;
      fits = zeroed-Fits;
      stack = clear-StackFits c.byte_stack v.stack;
    };
    task = λ e. cc;
    handlers = there;
    same = same;
  })

  -- The loop over the prompt, started with the rounds that it is given.
  prompt_loop-Ends :
      (p : Ptr) (t : SendTask) {c : Context} (w : World W)
      → WellFormed c
      → IsThere c.urc_handler_list
      → fixed c ≡ rx
      → c.current_send_task ≡ some (p, t)
      → (t.need_recv_len ≢ 0) × HasPrompt t
      → Ends (IsReady rx) (prompt_loop os (t.prompt_len + 1) 0 c w)
  prompt_loop-Ends p t {c} w v there same e (more, has) = elim (dec_lt 0 t.prompt_len) [
    | no empty ↦ rw (add-one, prompt_loop_empty os p t t.prompt_len c w e (omega arith)) ready
    | yes some_bytes ↦
        rw
          (prompt_loop_lem os p t (t.prompt_len - 1) 0 (t.prompt_len + 1) c w e has (omega arith)
            (omega arith))
          (elim (Bool-cases (all_match t c.byte_stack 0 (suc (t.prompt_len - 1)))) [
            | inr miss ↦ rw miss ready
            | inl hit ↦
                rw (hit, matched-more os p t c w wants)
                  (prompt_matched-IsReady p t w v there same wants)
          ])
  ]
    where
      ready : IsReady rx c
      ready = record {
        formed = v;
        task = subst TaskIsSafe (sym e) (λ _. (more, has));
        handlers = there;
        same = same;
      }

      wants : (t.need_recv_len == 0) ≡ false
      wants = ground arith

  set_stack-WellFormed :
      {c : Context} (r : Option Stack)
      → StackFits r
      → WellFormed c
      → WellFormed (record c { byte_stack = r })
  set_stack-WellFormed r f v = record {
    ring = v.ring;
    line_size = v.line_size;
    line_in = v.line_in;
    fits = v.fits;
    stack = f;
  }

  byte_prompt_handle-Ends :
      (byte : ℕ) (p : Ptr) (t : SendTask) {c : Context} (w : World W)
      → WellFormed c
      → IsThere c.urc_handler_list
      → fixed c ≡ rx
      → c.current_send_task ≡ some (p, t)
      → (t.need_recv_len ≢ 0) × HasPrompt t
      → Ends (IsReady rx) (byte_prompt_handle os byte c w)
  byte_prompt_handle-Ends byte p t {c} w v there same e more =
      rw (handle_current os byte p t c w e) (
        prompt_loop-Ends p t w (set_stack-WellFormed _ (push-StackFits c.byte_stack byte v.stack) v)
          there same e more)

  kept_handlers : (c c' : Context) → fixed c' ≡ fixed c → IsReady rx c → IsThere c'.urc_handler_list
  kept_handlers c c' kept r =
      subst (λ (x : RingBuffer × (Option UrcList × ℕ)). IsThere x.1.0) (sym kept) r.handlers

  Keeps-IsReady : (c c' : Context) → Keeps c c' → IsReady rx c → WellFormed c' → IsReady rx c'
  Keeps-IsReady c c' (inl same, ring) r v = record {
    formed = v;
    task = subst TaskIsSafe (sym same) r.task;
    handlers = kept_handlers c c' ring r;
    same = ring ∙ r.same;
  }
  Keeps-IsReady c c' (inr ended, ring) r v = record {
    formed = v;
    task = subst TaskIsSafe (sym ended) tt;
    handlers = kept_handlers c c' ring r;
    same = ring ∙ r.same;
  }

  byte_line_handle-Ends :
      (byte : ℕ) {c : Context} (w : World W)
      → IsReady rx c
      → Ends (IsReady rx) (byte_line_handle os byte c w)
  byte_line_handle-Ends byte {c} w r = rw (byte_line_handle-step os byte c w r.handlers) (
      Keeps-IsReady c _ (byte_line_step-Keeps os byte c w) r
        (byte_line_step-WellFormed os byte w r.formed))

  recv_for_status-Ends :
      (byte : ℕ) (st : SendTaskStatus) (p : Ptr) (t : SendTask) {c : Context} (w : World W)
      → t.status ≡ st
      → c.current_send_task ≡ some (p, t)
      → IsReady rx c
      → Ends (IsReady rx) (recv_for_status os byte st t c w)
  unfolding recv_for_status
  recv_for_status-Ends byte line_recv p t {c} w s e r = byte_line_handle-Ends byte w r
  recv_for_status-Ends byte prompt_match p t {c} w s e r =
      byte_prompt_handle-Ends byte p t w r.formed r.handlers r.same e (subst TaskIsSafe e r.task s)
  recv_for_status-Ends byte binary p t {c} w s e r =
      Keeps-IsReady c _ (byte_binary_handle-Keeps os byte t c w) r
        (byte_binary_handle-WellFormed os byte t w r.formed)

  recv_for-Ends :
      (byte : ℕ) (o : Option (Ptr × SendTask)) {c : Context} (w : World W)
      → c.current_send_task ≡ o
      → IsReady rx c
      → Ends (IsReady rx) (recv_for os byte o c w)
  unfolding recv_for
  recv_for-Ends byte none {c} w e r = byte_line_handle-Ends byte w r
  recv_for-Ends byte (some (p, t)) {c} w e r = recv_for_status-Ends byte t.status p t w refl e r

  -- Any byte, whatever the current task waits for.
  pub recv_byte-Ends :
      (byte : ℕ) {c : Context} (w : World W)
      → IsReady rx c
      → Ends (IsReady rx) (recv_byte os byte c w)
  unfolding recv_byte
  recv_byte-Ends byte {c} w r = recv_for-Ends byte c.current_send_task w refl r
