-- ===== src/Recv/Prompt/Suffix.antt =====
-- recv_data_handle.c: the prompt match against the last bytes received.
use mathlib.Core.List.{reverse}
use atcortex.Base.{
  ℕ, suc, ◌+◌, ◌-◌, ◌<◌, ◌≡◌, ap, ap₂, ◌∙◌, sym, Bool, false, Option, none, some, List, ◌∷◌, arith,
  length, take, length-take, subst, if◌then◌else◌, Bool-cases, inl, inr,
}
use atcortex.Types.{Ptr, SendTask}
use atcortex.Platform.{World, Os}
use atcortex.Stack.{Stack, stack_push_overwrite}
use atcortex.Stack.Bounds.{IsValid}
use atcortex.Stack.Laws.{Holds, elements, stack_push_overwrite_lem}
use atcortex.CString.Laws.{begins_with}
use atcortex.Context.{Context, State, Run, done, null_dereference}
use atcortex.Recv.{prompt_bytes, prompt_loop, byte_prompt_handle}
use atcortex.Recv.Prompt.{all_match, matched, prompt_loop_lem}
use atcortex.Recv.Prompt.Reversed.{
  HasNoZero, IsBytes, IsBytes-cons, IsBytes-take, all_match-begins_with, begins_with-length,
  length-reverse,
}

-- What the prompt stack holds behind a byte: the last bytes received, the latest first.
abbrev pub recent : Stack → ℕ → List ℕ
recent s byte = take s.capacity (byte ∷ elements s)

-- What is known of a task that waits for its prompt, in a context with its prompt stack.
pub record AwaitsPrompt (p : Ptr) (t : SendTask) (s : Stack) (c : Context) : Type 0 where
  pub current : c.current_send_task ≡ some (p, t)
  pub stack : c.byte_stack ≡ some s
  pub valid : IsValid s
  pub bytes : IsBytes (elements s)
  pub prompt : IsBytes (prompt_bytes t)
  pub no_zero : HasNoZero (prompt_bytes t)
  pub size : t.prompt_len ≡ length (prompt_bytes t)
  pub positive : 0 < t.prompt_len

module _ {W : Type 0} (os : Os W) where
  pub handle_current :
      (byte : ℕ) (p : Ptr) (t : SendTask) (c : Context) (w : World W)
      → c.current_send_task ≡ some (p, t)
      → byte_prompt_handle os byte c w
        ≡ prompt_loop os
            (t.prompt_len + 1)
            0
            (record c { byte_stack = (stack_push_overwrite c.byte_stack byte false).2 })
            w
  unfolding byte_prompt_handle
  handle_current byte p t c w e =
      ap
        (λ (o : Option (Ptr × SendTask)). elim o as (λ _. Run (State W)) [
          | none ↦ null_dereference
          | some (p, t) ↦
              prompt_loop os (t.prompt_len + 1) 0
                (record c { byte_stack = (stack_push_overwrite c.byte_stack byte false).2 }) w
        ])
        e

  prompt_handle_step :
      (byte : ℕ) (p : Ptr) (t : SendTask) (s : Stack) (c : Context) (w : World W)
      → c.current_send_task ≡ some (p, t)
      → c.byte_stack ≡ some s
      → byte_prompt_handle os byte c w
        ≡ prompt_loop os
            (t.prompt_len + 1)
            0
            (record c { byte_stack = (stack_push_overwrite (some s) byte false).2 })
            w
  prompt_handle_step byte p t s c w e f =
      handle_current byte p t c w e
      ∙ ap
          (λ r.
            prompt_loop os (t.prompt_len + 1) 0
              (record c { byte_stack = (stack_push_overwrite r byte false).2 }) w)
          f

  -- A byte below 256 that arrives while a task waits for a prompt without a byte 0 is remembered,
  -- and the prompt is found exactly when the last bytes received, as far as the prompt stack
  -- holds them, end with the prompt; otherwise nothing else changes. Where no data is to follow a
  -- match, the loop then reads through the NULL pointer that ending the task has left.
  pub byte_prompt_handle_lem :
      (byte : ℕ) {p : Ptr} {t : SendTask} {s : Stack} {c : Context} (w : World W)
      → AwaitsPrompt p t s c
      → byte < 256
      → let c1 = record c { byte_stack = (stack_push_overwrite (some s) byte false).2 } in
        byte_prompt_handle os byte c w ≡ (
          if begins_with (recent s byte) (reverse (prompt_bytes t))
          then matched os p t c1 w
          else done (c1, w))
  byte_prompt_handle_lem byte {p} {t} {s} {c} w a small =
      prompt_handle_step byte p t s c w a.current a.stack
      ∙ prompt_loop_lem os p t (t.prompt_len - 1) 0 (t.prompt_len + 1) c1 w a.current
          (omega (arith, a.size)) (omega arith) (omega arith)
      ∙ ap (λ b. if b then matched os p t c1 w else done (c1, w)) found
    where
      c1 : Context
      c1 = record c { byte_stack = (stack_push_overwrite (some s) byte false).2 }

      pushed : Holds s (recent s byte) (stack_push_overwrite (some s) byte false).2
      pushed = (stack_push_overwrite_lem byte false a.valid).2

      found :
          all_match t c1.byte_stack 0 (suc (t.prompt_len - 1))
          ≡ begins_with (recent s byte) (reverse (prompt_bytes t))
      found =
          ap₂ (λ r n. all_match t r 0 n) pushed.is (omega arith)
          ∙ all_match-begins_with t pushed.stack t.prompt_len 0
              (subst IsBytes (sym pushed.items) (
                IsBytes-take s.capacity (byte ∷ elements s)
                  (IsBytes-cons byte (elements s) small a.bytes)))
              a.prompt a.no_zero a.size (omega arith)
          ∙ ap (λ l. begins_with l (reverse (prompt_bytes t))) pushed.items

  -- A prompt without a byte 0 that is longer than the stack is deep is never found: the byte that
  -- arrives is remembered, and the task goes on waiting.
  pub long_prompt_lem :
      (byte : ℕ) {p : Ptr} {t : SendTask} {s : Stack} {c : Context} (w : World W)
      → AwaitsPrompt p t s c
      → byte < 256
      → s.capacity < t.prompt_len
      → byte_prompt_handle os byte c w
        ≡ done (record c { byte_stack = (stack_push_overwrite (some s) byte false).2 }, w)
  long_prompt_lem byte {p} {t} {s} {c} w a small long =
      byte_prompt_handle_lem byte w a small ∙ elim (Bool-cases found) [
        | inr miss ↦ rw miss
        | inl hit ↦ absurd (
            omega (
              arith,
              begins_with-length (recent s byte) (reverse (prompt_bytes t)) hit,
              length-reverse (prompt_bytes t),
              length-take {0} s.capacity (byte ∷ elements s),
              a.size,
            ))
      ]
    where
      found : Bool
      found = begins_with (recent s byte) (reverse (prompt_bytes t))
