-- ===== src/Recv/Prompt.antt =====
-- recv_data_handle.c: the loop of `byte_prompt_handle`.
pub mod Reversed
pub mod Suffix
pub mod Whole
use atcortex.Base.{
  ℕ, zero, suc, ◌+◌, ◌-◌, ◌%◌, ◌≤◌, ◌<◌, ◌≡◌, ◌≢◌, ◌⊎◌, refl, ap, subst, ap₂, ◌∙◌, sym, Bool, true,
  false, Option, none, some, List, [], ◌∷◌, ◌++◌, arith, length, get_elem?-get_or, get_or, set,
  length-set, take, length-append, ltb, leb, ◌&&◌, ◌||◌, not, ◌==◌, if◌then◌else◌, Bool-cases, inl,
  inr,
}
use atcortex.Types.{
  Ptr, null, AtcResult, success, Block, SendTask, SendTaskStatus, line_recv, prompt_match, binary,
}
use atcortex.Platform.{World, Os}
use atcortex.Stack.{Stack, stack_clear, stack_push_overwrite, stack_peek_at}
use atcortex.Stack.Laws.{Holds, elements, stack_push_overwrite_lem}
use atcortex.Stack.Reads.{stack_peek_at_lem}
use atcortex.CString.Laws.{begins_with}
use atcortex.Context.{Context, State, Run, done, null_dereference, out_of_fuel}
use atcortex.Recv.Safety.{context-command_end_handle}
use atcortex.Recv.{
  command_end_handle, reset_reception, clear_response_buffer, prompt_bytes, prompt_mismatch,
  prompt_byte, on_mismatch, prompt_matched, prompt_loop, byte_prompt_handle,
}

-- What the tests of round `i` read is there.
abbrev pub HasPrompt : SendTask → Type 0
HasPrompt t = t.prompt_len ≤ length (prompt_bytes t)

-- The test of round `i`, where it can read what it reads
unfoldable pub differs : SendTask → Option Stack → ℕ → Bool
differs t stack i =
    let stack_byte = stack_peek_at stack i in
    stack_byte == null
    || not (stack_byte % 256 == get_or (prompt_bytes t) (t.prompt_len - 1 - i) 0 % 256)

prompt_mismatch-differs :
    (t : SendTask) (stack : Option Stack) (i : ℕ)
    → HasPrompt t
    → i < t.prompt_len
    → prompt_mismatch t stack i ≡ some (differs t stack i)
unfolding prompt_mismatch differs prompt_byte
prompt_mismatch-differs t stack i has lt =
    let byte = get_elem?-get_or (prompt_bytes t) (t.prompt_len - 1 - i) 0 (omega arith) in
    elim (Bool-cases (stack_peek_at stack i == null)) [
      | inl empty ↦ rw empty refl
      | inr full ↦ rw (full, byte) refl
    ]

-- Whether the `n` rounds from round `i` on find no mismatch.
unfoldable pub all_match : SendTask → Option Stack → ℕ → ℕ → Bool
all_match t stack i zero = true
all_match t stack i (suc n) =
    let rest = all_match t stack (suc i) n in if differs t stack i then false else rest

-- Ending a task leaves none.
pub task-command_end_handle :
    {W : Type 0} (os : Os W) (result : AtcResult) (c : Context) (w : World W)
    → (command_end_handle os result c w).0.current_send_task ≡ none
unfolding reset_reception clear_response_buffer
task-command_end_handle os result c w =
    ap (λ (x : Context). x.current_send_task) (context-command_end_handle os result c w)

loop_without :
    {W : Type 0} (os : Os W) (fuel i : ℕ) (c : Context) (w : World W)
    → c.current_send_task ≡ none
    → prompt_loop os (suc fuel) i c w ≡ null_dereference
unfolding prompt_loop
loop_without os fuel i c w e = simp (e, prompt_loop)

module _ {W : Type 0} (os : Os W) (p : Ptr) (t : SendTask) where
  -- What a complete match leads to. Where no data is to follow, the task is ended, and the loop then
  -- reads its condition through the NULL pointer that is left.
  unfoldable pub matched : Context → World W → Run (State W)
  matched c w = if t.need_recv_len == 0 then null_dereference else done (prompt_matched os p t c w)

  matched-no_data :
      (c : Context) (w : World W) → (t.need_recv_len == 0) ≡ true → matched c w ≡ null_dereference
  unfolding matched
  matched-no_data c w h = rw h

  pub matched-more :
      (c : Context) (w : World W)
      → (t.need_recv_len == 0) ≡ false
      → matched c w ≡ done (prompt_matched os p t c w)
  unfolding matched
  matched-more c w h = rw h

  -- After the last round of a match with data to follow the loop stops.
  loop_stops :
      (c : Context) (w : World W) (fuel i : ℕ)
      → (t.need_recv_len == 0) ≡ false
      → t.prompt_len ≤ i
      → let (c', w') = prompt_matched os p t c w in
        prompt_loop os (suc fuel) i c' w' ≡ done (c', w')
  unfolding prompt_loop prompt_matched
  loop_stops c w fuel i more past =
      let stop : ltb i t.prompt_len ≡ false = ground arith in rw (more, stop)

  loop_test :
      (fuel i : ℕ) (c : Context) (w : World W)
      → c.current_send_task ≡ some (p, t)
      → prompt_loop os (suc fuel) i c w ≡ (
          if ltb i t.prompt_len
          then on_mismatch (prompt_mismatch t c.byte_stack i) (done (c, w)) (
              let (c', w') = if i == t.prompt_len - 1 then prompt_matched os p t c w else (c, w) in
              prompt_loop os fuel (i + 1) c' w')
          else done (c, w))
  unfolding prompt_loop
  loop_test fuel i c w e = simp (e, prompt_loop)

  loop_step :
      (fuel i : ℕ) (c : Context) (w : World W)
      → c.current_send_task ≡ some (p, t)
      → HasPrompt t
      → i < t.prompt_len
      → prompt_loop os (suc fuel) i c w
        ≡ on_mismatch (some (differs t c.byte_stack i)) (done (c, w)) (
            let (c', w') = if i == t.prompt_len - 1 then prompt_matched os p t c w else (c, w) in
            prompt_loop os fuel (i + 1) c' w')
  loop_step fuel i c w e has lt =
      let in_range : ltb i t.prompt_len ≡ true = ground arith in
      loop_test fuel i c w e ∙ rw (in_range, prompt_mismatch-differs t c.byte_stack i has lt) refl

  -- After the last round of a match with no data to follow it reads through NULL.
  loop_faults :
      (c : Context) (w : World W) (fuel i : ℕ)
      → (t.need_recv_len == 0) ≡ true
      → let (c', w') = prompt_matched os p t c w in
        prompt_loop os (suc fuel) i c' w' ≡ null_dereference
  unfolding prompt_matched
  loop_faults c w fuel i no_data =
      rw no_data (loop_without os fuel i _ _ (task-command_end_handle os success _ w))

  pub prompt_loop_empty :
      (fuel : ℕ) (c : Context) (w : World W)
      → c.current_send_task ≡ some (p, t)
      → t.prompt_len ≡ 0
      → prompt_loop os (suc fuel) 0 c w ≡ done (c, w)
  prompt_loop_empty fuel c w e none_there =
      let out : ltb 0 t.prompt_len ≡ false = ground arith in loop_test fuel 0 c w e ∙ rw out

  -- From round `i` on, with `n + 1` rounds to go: a mismatch ends the loop with nothing changed.
  pub prompt_loop_lem :
      (n i fuel : ℕ) (c : Context) (w : World W)
      → c.current_send_task ≡ some (p, t)
      → HasPrompt t
      → i + suc n ≡ t.prompt_len
      → suc n < fuel
      → prompt_loop os fuel i c w
        ≡ (if all_match t c.byte_stack i (suc n) then matched c w else done (c, w))
  unfolding all_match
  prompt_loop_lem n i zero c w e has len h = absurd (omega arith)
  prompt_loop_lem n i (suc zero) c w e has len h = absurd (omega arith)
  prompt_loop_lem zero i (suc (suc fuel)) c w e has len h =
      let last : (i == t.prompt_len - 1) ≡ true = ground arith in
      loop_step (suc fuel) i c w e has (omega arith)
      ∙ elim (Bool-cases (differs t c.byte_stack i)) [
        | inl differ ↦ rw differ
        | inr same ↦
            rw (same, last)
              (elim (Bool-cases (t.need_recv_len == 0)) [
                | inl no_data ↦
                    loop_faults c w fuel (i + 1) no_data ∙ sym (matched-no_data c w no_data)
                | inr more ↦
                    loop_stops c w fuel (i + 1) more (omega arith) ∙ sym (matched-more c w more)
              ])
      ]
  prompt_loop_lem (suc n) i (suc (suc fuel)) c w e has len h =
      let not_last : (i == t.prompt_len - 1) ≡ false = ground arith in
      let next : i + 1 ≡ suc i = omega arith in
      loop_step (suc fuel) i c w e has (omega arith)
      ∙ elim (Bool-cases (differs t c.byte_stack i)) [
        | inl differ ↦ rw differ
        | inr same ↦
            rw (same, not_last, next)
              (prompt_loop_lem n (suc i) (suc fuel) c w e has (omega arith) (omega arith))
      ]
