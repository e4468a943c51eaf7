-- ===== src/Recv/Answer.antt =====
-- recv_data_handle.c: `recv_data_handle` on a whole answer to a command in the ring, with URCs
-- between its lines, for a task of a user's.
use atcortex.Base.{ℕ, ◌≡◌, refl, ap, ap₂, ◌∙◌, sym, subst, none, List, [], ◌∷◌, ◌++◌, length}
use mathlib.Core.List.{reverse}
use atcortex.Types.{Ptr, AtcResult, SendTask, user_handler, ResponseHandler}
use atcortex.Platform.{Event, responded, World, Os, call_response_handler}
use atcortex.Context.{Context, State, Run, done}
use atcortex.RingBuffer.Bounds as Ring
use atcortex.RingBuffer.Contents.{contents}
use atcortex.Urc.{nodes_of}
use atcortex.Recv.{respond, recv_data_handle}
use atcortex.Recv.Line.{feed}
use atcortex.Recv.Response.{padded}
use atcortex.Recv.Lines.{full, as_strings}
use atcortex.Recv.Stream.{stream, told}
use atcortex.Recv.Exchange.{
  Awaits, IsAnswer, answer_text, released, as_strings-released, feed-Answered,
}
use atcortex.Recv.Exchange as Exchange
use atcortex.Recv.Ring.{with_ring}
use atcortex.Recv.Feed.{WaitsForLines, Fed, recv_data_handle-Fed, receive_all-lines}

-- Behind a run that read everything: the ring, and what there is of the answer
abbrev pub Settled : {W : Type 0} → (State W → Type 0) → Run (State W) → Type 0
Settled {W = W} P r =
    (c' : Context) × (w' : World W) × (r ≡ done (c', w'))
    × Ring.IsValid c'.rx_buffer
    × (contents c'.rx_buffer ≡ [])
    × P (c', w')

-- What a user's handler has been told, and what the context is then
abbrev pub ToldUser :
    {W : Type 0} → ℕ → Ptr → SendTask → AtcResult → List ℕ → List Event → World W → State W → Type 0
ToldUser h p t result text es w (c', w') =
    (c'.current_send_task ≡ none)
    × (c'.line_buffer_index ≡ 0)
    × (c'.response_length ≡ 0)
    × (as_strings w'.trace
        ≡ released p t
          ++ (responded h result (padded text) (length text) ∷ (reverse es ++ as_strings w.trace)))

module _ {W : Type 0} (os : Os W) where
  pub recv_data_handle-Answered :
      (ls : List (List ℕ)) (last : List ℕ) (result : AtcResult) (p : Ptr) (t : SendTask)
      (c : Context) (w : World W)
      → Awaits p t c
      → IsAnswer (nodes_of c.urc_handler_list) ls last result
      → Ring.IsValid c.rx_buffer
      → contents c.rx_buffer ≡ stream ls ++ full last
      → let ns = nodes_of c.urc_handler_list in
        Settled
          (Exchange.Answered os p t result (answer_text ns ls last) (told ns ls) w)
          (recv_data_handle os c w)
  recv_data_handle-Answered ls last result p t c w a s v q =
      let lines =
        receive_all-lines os (contents c.rx_buffer) c w (subst WaitsForLines (sym a.task) a.waits)
          a.there in
      let (ring, v', empty, run) =
        subst (λ r. Fed r (recv_data_handle os c w)) lines (recv_data_handle-Fed os c w v) in
      let (c', w') = with_ring ring (feed os (stream ls ++ full last) c w) in
      (
        c',
        w',
        run ∙ ap (λ b. done (with_ring ring (feed os b c w))) q,
        v',
        empty,
        feed-Answered os ls last result p t c w a s,
      )

  respond-user :
      (h : ℕ) (t : SendTask) (result : AtcResult) (c : Context) (w : World W)
      → t.response_handler ≡ user_handler h
      → (respond os t result c w).1.trace
        ≡ responded h result c.response c.response_length ∷ w.trace
  unfolding respond call_response_handler
  respond-user h t result c w u =
      subst
        (λ (x : ResponseHandler).
          (respond os (record t { response_handler = x }) result c w).1.trace
          ≡ responded h result c.response c.response_length ∷ w.trace)
        (sym u) refl

  -- Where a task of a user waits for lines, with the empty response and line buffers to itself,
  -- there is a list of handlers, none of whose prefixes has a byte 0, and the valid ring holds
  -- lines with their line feeds, each of at most 254 bytes with no byte 0 and no line feed,
  -- `recv_data_handle` comes to an end without dereferencing NULL, provided that the last line
  -- and no other ends the command and the answer has fewer than 512 bytes. The answer is the
  -- lines of more than two bytes, line feed included, that begin with no handler's prefix; one of
  -- these ends the command if it begins with OK or ERROR. The handler of the task has been called
  -- once: with the result of the last line, with a response that is exactly the answer and zeros,
  -- and with the length of the answer. Then the blocks of the command, the prompt and the task
  -- have been given back, as far as the task has them. The handlers of the URCs between the lines
  -- have been called before, each with its line, and no other call has been made. The ring is
  -- valid and empty, and the context has no task, an empty line buffer and an empty response.
  pub recv_data_handle-ToldUser :
      (ls : List (List ℕ)) (last : List ℕ) (result : AtcResult) (p h : ℕ) (t : SendTask)
      (c : Context) (w : World W)
      → Awaits p t c
      → t.response_handler ≡ user_handler h
      → IsAnswer (nodes_of c.urc_handler_list) ls last result
      → Ring.IsValid c.rx_buffer
      → contents c.rx_buffer ≡ stream ls ++ full last
      → let ns = nodes_of c.urc_handler_list in
        Settled
          (ToldUser h p t result (answer_text ns ls last) (told ns ls) w)
          (recv_data_handle os c w)
  recv_data_handle-ToldUser ls last result p h t c w a u s v q =
      let text = answer_text (nodes_of c.urc_handler_list) ls last in
      let (c', w', run, v', empty, (task, index, received, c1, w1, r, n, heard, tr, m)) =
        recv_data_handle-Answered ls last result p t c w a s v q in
      let trace =
        ap as_strings tr
        ∙ as_strings-released p t (respond os t result c1 w1).1.trace
        ∙ ap (λ es. released p t ++ as_strings es) (respond-user h t result c1 w1 u)
        ∙ ap₂ (λ x k. released p t ++ (responded h result x k ∷ as_strings w1.trace)) r n
        ∙ ap (λ es. released p t ++ (responded h result (padded text) (length text) ∷ es))
            heard.0 in
      (c', w', run, v', empty, (task, index, received, trace))
