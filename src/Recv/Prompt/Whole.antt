-- ===== src/Recv/Prompt/Whole.antt =====
-- recv_data_handle.c: a whole prompt, one byte after another.
use mathlib.Core.List.{reverse, reverse-append}
use atcortex.Base.{
  ℕ, suc, ◌≤◌, ◌<◌, ◌≡◌, refl, ap, ◌∙◌, sym, subst, true, false, some, List, [], ◌∷◌, ◌++◌,
  append_assoc, arith, length, length-append, take, get_or, ◌==◌, if◌then◌else◌, Bool-cases, inl,
  inr,
}
use atcortex.Types.{Ptr, SendTask, prompt_match, binary, atc_rx_response_max}
use atcortex.Platform.{World, Os}
use atcortex.Stack.{Stack, stack_push_overwrite, stack_clear}
use atcortex.Stack.Laws.{Holds, elements, take-all, stack_push_overwrite_lem}
use atcortex.CString.{zeroed}
use atcortex.CString.Laws.{begins_with}
use atcortex.Context.{Context, State, done, and_then}
use atcortex.Recv.{
  prompt_bytes, prompt_matched, clear_response_buffer, byte_prompt_handle, recv_for_status,
  recv_for, recv_byte,
}
use atcortex.Recv.Prompt.{matched, matched-more}
use atcortex.Recv.Prompt.Reversed.{
  IsBytes, IsBytes-cons, IsBytes-take, begins_with-length, length-reverse,
}
use atcortex.Recv.Prompt.Suffix.{recent, AwaitsPrompt, byte_prompt_handle_lem}
use atcortex.Recv.Binary.{receive_all}

begins_with_self : (xs : List ℕ) → begins_with xs xs ≡ true
unfolding begins_with
begins_with_self [] = refl
begins_with_self (x ∷ xs) = ground (arith, begins_with_self xs)

get_or-middle :
    (before : List ℕ) (byte : ℕ) (rest : List ℕ)
    → get_or (before ++ (byte ∷ rest)) (length before) 0 ≡ byte
get_or-middle [] byte rest = refl
get_or-middle (x ∷ xs) byte rest = get_or-middle xs byte rest

-- What the stack holds behind a byte, where the prompt fits it.
recent-reverse :
    (s : Stack) (byte : ℕ) (before : List ℕ)
    → elements s ≡ reverse before
    → suc (length before) ≤ s.capacity
    → recent s byte ≡ reverse (before ++ (byte ∷ []))
recent-reverse s byte before e fits =
    ap (λ es. take s.capacity (byte ∷ es)) e
    ∙ take-all (byte ∷ reverse before) s.capacity (omega (arith, length-reverse before))
    ∙ sym (reverse-append before (byte ∷ []))

module _ {W : Type 0} (os : Os W) (p : Ptr) (t : SendTask) where
  recv_byte-prompt :
      (byte : ℕ) (c : Context) (w : World W)
      → c.current_send_task ≡ some (p, t)
      → t.status ≡ prompt_match
      → recv_byte os byte c w ≡ byte_prompt_handle os byte c w
  unfolding recv_byte recv_for recv_for_status
  recv_byte-prompt byte c w e b =
      ap (λ o. recv_for os byte o c w) e ∙ ap (λ s. recv_for_status os byte s t c w) b

  -- One byte of the prompt, with the stack behind it.
  pushed_context :
      (byte : ℕ) {s : Stack} (c : Context) (w : World W)
      → AwaitsPrompt p t s c
      → t.status ≡ prompt_match
      → byte < 256
      → (s' : Stack) × AwaitsPrompt p t s' (record c { byte_stack = some s' })
        × (elements s' ≡ recent s byte)
        × (s'.capacity ≡ s.capacity)
        × (recv_byte os byte c w ≡ (
            if begins_with (recent s byte) (reverse (prompt_bytes t))
            then matched os p t (record c { byte_stack = some s' }) w
            else done (record c { byte_stack = some s' }, w)))
  pushed_context byte {s} c w a b small =
      let pushed : Holds s (recent s byte) (stack_push_overwrite (some s) byte false).2 =
        (stack_push_overwrite_lem byte false a.valid).2 in
      (
        pushed.stack,
        record {
          current = a.current;
          stack = refl;
          valid = pushed.valid;
          bytes = subst IsBytes (sym pushed.items) (
              IsBytes-take s.capacity (byte ∷ elements s)
                (IsBytes-cons byte (elements s) small a.bytes));
          prompt = a.prompt;
          no_zero = a.no_zero;
          size = a.size;
          positive = a.positive;
        },
        pushed.items,
        pushed.capacity,
        recv_byte-prompt byte c w a.current b
            ∙ byte_prompt_handle_lem os byte w a small
            ∙ ap
                (λ r.
                  if begins_with (recent s byte) (reverse (prompt_bytes t))
                  then matched os p t (record c { byte_stack = r }) w
                  else done (record c { byte_stack = r }, w))
                pushed.is,
      )

  -- The same where the stack holds what came of the prompt so far.
  next_byte :
      (byte : ℕ) (rest before : List ℕ) {s : Stack} (c : Context) (w : World W)
      → AwaitsPrompt p t s c
      → t.status ≡ prompt_match
      → prompt_bytes t ≡ before ++ (byte ∷ rest)
      → elements s ≡ reverse before
      → length (prompt_bytes t) ≤ s.capacity
      → (s' : Stack) × AwaitsPrompt p t s' (record c { byte_stack = some s' })
        × (elements s' ≡ reverse (before ++ (byte ∷ [])))
        × (s'.capacity ≡ s.capacity)
        × (recv_byte os byte c w ≡ (
            if begins_with (reverse (before ++ (byte ∷ []))) (reverse (prompt_bytes t))
            then matched os p t (record c { byte_stack = some s' }) w
            else done (record c { byte_stack = some s' }, w)))
  next_byte byte rest before {s} c w a b split e fits =
      let small : byte < 256 =
        subst (λ x. x < 256)
          (ap (λ l. get_or l (length before) 0) split ∙ get_or-middle before byte rest)
          (a.prompt (length before)) in
      let seen =
        recent-reverse s byte before e
          (omega (arith, ap length split, length-append before (byte ∷ rest))) in
      let (s', a', items, capacity, step) = pushed_context byte c w a b small in
      (
        s',
        a',
        items ∙ seen,
        capacity,
        step
            ∙ ap
                (λ l.
                  if begins_with l (reverse (prompt_bytes t))
                  then matched os p t (record c { byte_stack = some s' }) w
                  else done (record c { byte_stack = some s' }, w))
                seen,
      )

  pub receive_prompt :
      (byte : ℕ) (rest before : List ℕ) {s : Stack} (c : Context) (w : World W)
      → AwaitsPrompt p t s c
      → t.status ≡ prompt_match
      → (t.need_recv_len == 0) ≡ false
      → prompt_bytes t ≡ before ++ (byte ∷ rest)
      → elements s ≡ reverse before
      → length (prompt_bytes t) ≤ s.capacity
      → (s' : Stack) × (receive_all os (byte ∷ rest) c w
          ≡ done (prompt_matched os p t (record c { byte_stack = some s' }) w))
  unfolding receive_all
  receive_prompt byte [] before {s} c w a b need split e fits =
      let (s', a', items, capacity, step) = next_byte byte [] before c w a b split e fits in
      let d = record c { byte_stack = some s' } in
      let hit : begins_with (reverse (before ++ (byte ∷ []))) (reverse (prompt_bytes t)) ≡ true =
        ap (λ l. begins_with (reverse (before ++ (byte ∷ []))) (reverse l)) split
        ∙ begins_with_self (reverse (before ++ (byte ∷ []))) in
      (
        s',
        ap (λ r. and_then r (λ (x : State W). done (x.0, x.1)))
            (step
              ∙ ap (λ x. if x then matched os p t d w else done (d, w)) hit
              ∙ matched-more os p t d w need),
      )
  receive_prompt byte (next ∷ more) before {s} c w a b need split e fits =
      let (s', a', items, capacity, step) =
        next_byte byte (next ∷ more) before c w a b split e fits in
      let d = record c { byte_stack = some s' } in
      let so_far = before ++ (byte ∷ []) in
      let miss : begins_with (reverse so_far) (reverse (prompt_bytes t)) ≡ false =
        elim (Bool-cases (begins_with (reverse so_far) (reverse (prompt_bytes t)))) [
          | inr miss ↦ miss
          | inl found ↦ absurd (
              omega (
                arith,
                begins_with-length (reverse so_far) (reverse (prompt_bytes t)) found,
                length-reverse so_far,
                length-reverse (prompt_bytes t),
                ap length split,
                length-append before (byte ∷ next ∷ more),
                length-append before (byte ∷ []),
              ))
        ] in
      let (s'', rest) =
        receive_prompt next more so_far d w a' b need
          (split ∙ sym (append_assoc before (byte ∷ []) (next ∷ more))) items
          (omega (arith, capacity)) in
      (
        s'',
        ap (λ r. and_then r (λ (x : State W). receive_all os (next ∷ more) x.0 x.1))
              (step ∙ ap (λ x. if x then matched os p t d w else done (d, w)) miss)
            ∙ rest,
      )

  pub prompt_matched-data :
      (s : Stack) (c : Context) (w : World W)
      → (t.need_recv_len == 0) ≡ false
      → prompt_matched os p t (record c { byte_stack = some s }) w ≡ (
        record c {
          byte_stack = (stack_clear (some s) false).1;
          current_send_task = some (p, record t { status = binary });
          response = zeroed atc_rx_response_max;
          response_length = 0;
        },
        w,
      )
  unfolding prompt_matched clear_response_buffer
  prompt_matched-data s c w need = rw need refl
