-- ===== src/Recv/Exchange.antt =====
-- recv_data_handle.c: the lines of a whole answer to a command, from the line buffer to the response
-- handler.
use atcortex.Base.{
  ℕ, ◌<◌, ◌≡◌, refl, ap, ap₂, ◌∙◌, sym, subst, Option, none, some, List, [], ◌∷◌, ◌++◌,
  append_assoc, arith, length, length-append,
}
use mathlib.Core.List.{reverse, map-append}
use atcortex.Types.{
  Ptr, AtcResult, Block, SendTask, line_recv, atc_rx_response_max, atc_rx_line_max_size,
}
use atcortex.Platform.{Event, freed, World, Os, free}
use atcortex.Context.{Context, State, UrcNode}
use atcortex.Urc.{nodes_of}
use atcortex.Urc.Dispatch.{Plain}
use atcortex.Recv.{
  respond, free_block, clear_response_buffer, reset_reception, end_task, command_end_handle,
}
use atcortex.Recv.Known.{IsThere}
use atcortex.Recv.Line.{feed, feed-append}
use atcortex.Recv.Verdict.{concluded}
use atcortex.Recv.Response.{padded}
use atcortex.Recv.Lines.{full, IsLine, says, as_string, as_strings, Heard, ended_lem}
use atcortex.Recv.Stream.{
  stream, AreLines, answer, told, between, with_index, feed-full, feed-stream,
}

-- The task of a caller has the empty line buffer and the empty response to itself.
pub record Awaits (p : Ptr) (t : SendTask) (c : Context) : Type 0 where
  pub task : c.current_send_task ≡ some (p, t)
  pub waits : t.status ≡ line_recv
  pub size : length c.line_buffer ≡ atc_rx_line_max_size
  pub index : c.line_buffer_index ≡ 0
  pub response : c.response ≡ padded []
  pub received : c.response_length ≡ 0
  pub there : IsThere c.urc_handler_list
  pub plain : Plain (nodes_of c.urc_handler_list)

-- Lines of which just the last ends the command, with an answer that fits the response buffer
abbrev pub answer_text : List UrcNode → List (List ℕ) → List ℕ → List ℕ
answer_text ns ls last = answer ns ls ++ full last

pub record IsAnswer (ns : List UrcNode) (ls : List (List ℕ)) (last : List ℕ) (result : AtcResult)
    : Type 0 where
  pub lines : AreLines ns ls
  pub line : IsLine last
  pub ends : says ns (full last) ≡ some result
  pub room : length (answer_text ns ls last) < atc_rx_response_max

-- The calls that give the blocks of a task back, the latest first
abbrev pub freed_block : Option Block → List Event
freed_block none = []
freed_block (some b) = freed b.addr ∷ []

abbrev pub released : Ptr → SendTask → List Event
released p t = freed p ∷ (freed_block t.prompt ++ freed_block t.payload)

-- The events of ending a task hold no line.
as_strings-freed :
    (p : Ptr) (a b : Option Block)
    → as_strings (freed p ∷ (freed_block a ++ freed_block b))
      ≡ freed p ∷ (freed_block a ++ freed_block b)
as_strings-freed p none none = refl
as_strings-freed p none (some b) = refl
as_strings-freed p (some a) none = refl
as_strings-freed p (some a) (some b) = refl

pub as_strings-released :
    (p : Ptr) (t : SendTask) (es : List Event)
    → as_strings (released p t ++ es) ≡ released p t ++ as_strings es
as_strings-released p t es =
    map-append as_string (released p t) es
    ∙ ap (λ r. r ++ as_strings es) (as_strings-freed p t.prompt t.payload)

module _ {W : Type 0} (os : Os W) where
  free_block_lem :
      (o : Option Block) (w : World W)
      → ((free_block os o w).1.trace ≡ freed_block o ++ w.trace)
        × ((free_block os o w).1.memory ≡ w.memory)
  unfolding free_block free
  free_block_lem none w = (refl, refl)
  free_block_lem (some b) w = (refl, refl)

  end_task_lem :
      (p : Ptr) (t : SendTask) (result : AtcResult) (c : Context) (w : World W)
      → let w1 = (respond os t result c w).1 in
        ((end_task os p t result c w).1.trace ≡ released p t ++ w1.trace)
        × ((end_task os p t result c w).1.memory ≡ w1.memory)
  unfolding end_task free
  end_task_lem p t result c w =
      let w1 = (respond os t result c w).1 in
      let w2 = (free_block os t.payload w1).1 in
      let (tr1, m1) = free_block_lem t.payload w1 in
      let (tr2, m2) = free_block_lem t.prompt w2 in
      (
        ap (λ es. freed p ∷ es)
            (tr2
              ∙ ap (λ es. freed_block t.prompt ++ es) tr1
              ∙ sym (append_assoc (freed_block t.prompt) (freed_block t.payload) w1.trace)),
        m2 ∙ m1,
      )

  command_end_handle-task :
      (p : Ptr) (t : SendTask) (result : AtcResult) (c : Context) (w : World W)
      → c.current_send_task ≡ some (p, t)
      → command_end_handle os result c w
        ≡ (reset_reception (record c { current_send_task = none }), (end_task os p t result c w).1)
  unfolding command_end_handle
  command_end_handle-task p t result c w e =
      subst
        (λ (o : Option (Ptr × SendTask)).
          command_end_handle os result (record c { current_send_task = o }) w ≡ (
            reset_reception (record c { current_send_task = none }),
            (end_task os p t result (record c { current_send_task = o }) w).1,
          ))
        (sym e) refl

  -- What the last line of an answer leaves: the handler of the task is called with the whole text
  -- when the handlers of the URCs have been, and then the blocks of the task are given back.
  abbrev pub Answered :
      Ptr → SendTask → AtcResult → List ℕ → List Event → World W → State W → Type 0
  Answered p t result text es w (c', w') =
      (c'.current_send_task ≡ none)
      × (c'.line_buffer_index ≡ 0)
      × (c'.response_length ≡ 0)
      × (c1 : Context) × (w1 : World W) × (c1.response ≡ padded text)
      × (c1.response_length ≡ length text)
      × Heard es w w1
      × (w'.trace ≡ released p t ++ (respond os t result c1 w1).1.trace)
      × (w'.memory ≡ (respond os t result c1 w1).1.memory)

  feed-last :
      (ls : List (List ℕ)) (last : List ℕ) (result : AtcResult) (p : Ptr) (t : SendTask)
      (c : Context) (w : World W)
      → Awaits p t c
      → IsAnswer (nodes_of c.urc_handler_list) ls last result
      → let ns = nodes_of c.urc_handler_list in
        (lb : List ℕ) × (w' : World W) × (feed os (stream ls ++ full last) c w
          ≡ with_index 0 (
              command_end_handle os result
                (record (between c lb (answer_text ns ls last)) {
                  line_buffer_index = length (full last);
                })
                w'))
        × Heard (told ns ls) w w'
  feed-last ls last result p t c w a s =
      let ns = nodes_of c.urc_handler_list in
      let m = length-append (answer ns ls) (full last) in
      let (adds_all, tells_none) = ended_lem ns (full last) result s.ends in
      let (lb, size1, w1, e1, text1, t1) =
        feed-stream os ls c.line_buffer [] c w s.lines a.plain tt a.size
          (omega (arith, m, s.room)) in
      let (lb', size2, w2, e2, t2) =
        feed-full os last lb (answer ns ls) c w1 s.line a.plain text1 size1
          (omega (arith, m, s.room, ap length adds_all)) in
      let start : c ≡ between c c.line_buffer [] =
        ap (λ j. record c { line_buffer_index = j }) a.index
        ∙ ap₂
            (λ (x : List ℕ) (j : ℕ). record c {
              line_buffer_index = 0;
              response = x;
              response_length = j;
            })
            a.response a.received in
      (
        lb',
        w2,
        ap (λ d. feed os (stream ls ++ full last) d w) start
            ∙ feed-append os (stream ls) (full last) (between c c.line_buffer []) w
            ∙ ap (λ (x : State W). feed os (full last) x.0 x.1) e1
            ∙ e2
            ∙ ap₂
                (λ v new. with_index 0 (
                  concluded os v
                    (record (between c lb' (answer ns ls ++ new)) {
                      line_buffer_index = length (full last);
                    })
                    w2))
                s.ends adds_all,
        (t2.0 ∙ ap (λ es. reverse es ++ as_strings w1.trace) tells_none ∙ t1.0, t2.1 ∙ t1.1),
      )

  pub feed-Answered :
      (ls : List (List ℕ)) (last : List ℕ) (result : AtcResult) (p : Ptr) (t : SendTask)
      (c : Context) (w : World W)
      → Awaits p t c
      → IsAnswer (nodes_of c.urc_handler_list) ls last result
      → let ns = nodes_of c.urc_handler_list in
        Answered p t result
          (answer_text ns ls last)
          (told ns ls)
          w
          (feed os (stream ls ++ full last) c w)
  unfolding reset_reception clear_response_buffer
  feed-Answered ls last result p t c w a s =
      let ns = nodes_of c.urc_handler_list in
      let text = answer_text ns ls last in
      let (lb, w1, e, heard) = feed-last ls last result p t c w a s in
      let c1 = record (between c lb text) { line_buffer_index = length (full last) } in
      let (tr, m) = end_task_lem p t result c1 w1 in
      subst (Answered p t result text (told ns ls) w)
        (sym (e ∙ ap (with_index 0) (command_end_handle-task p t result c1 w1 a.task)))
        (refl, refl, refl, c1, w1, refl, refl, heard, tr, m)
