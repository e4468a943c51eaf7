-- ===== src/Recv/Stream.antt =====
-- recv_data_handle.c: lines one after another, from the line buffer to the response buffer.
use atcortex.Base.{
  sizes, ℕ, ◌+◌, ◌<◌, ◌≡◌, refl, ap, ap₂, ◌∙◌, sym, subst, none, List, [], ◌∷◌, ◌++◌, append_assoc,
  append-nil, arith, length, length-append, drop,
}
use mathlib.Core.List.{reverse, reverse-append}
use atcortex.Types.{atc_rx_response_max, atc_rx_line_max_size}
use atcortex.Platform.{Event, World, Os}
use atcortex.Context.{Context, State, UrcNode}
use atcortex.CString.Laws.{NoZero}
use atcortex.Urc.{nodes_of}
use atcortex.Urc.Dispatch.{Plain}
use atcortex.Recv.Line.{feed, feed-append, feed_line_lem}
use atcortex.Recv.Verdict.{concluded}
use atcortex.Recv.Response.{padded, NoZero-append}
use atcortex.Recv.Lines.{
  full, IsLine, says, adds, tells, as_strings, Heard, line_step-Read, adds-NoZero,
}
use atcortex.Recv.Known.{line_step}

-- Lines one after another, with their line feeds
abbrev pub stream : List (List ℕ) → List ℕ
stream [] = []
stream (bytes ∷ ls) = full bytes ++ stream ls

-- Lines that do not end the command
abbrev pub AreLines : List UrcNode → List (List ℕ) → Type 0
AreLines ns [] = Unit {0}
AreLines ns (bytes ∷ ls) = IsLine bytes × (says ns (full bytes) ≡ none) × AreLines ns ls

-- The part of the answer that stands in the lines, and the calls of handlers for the others
abbrev pub answer : List UrcNode → List (List ℕ) → List ℕ
answer ns [] = []
answer ns (bytes ∷ ls) = adds ns (full bytes) ++ answer ns ls

abbrev pub told : List UrcNode → List (List ℕ) → List Event
told ns [] = []
told ns (bytes ∷ ls) = tells ns (full bytes) ++ told ns ls

-- Between two lines: `lb` is in the line buffer, and the text has come so far.
abbrev pub between : Context → List ℕ → List ℕ → Context
between c lb text = record c {
  line_buffer = lb;
  line_buffer_index = 0;
  response = padded text;
  response_length = length text;
}

abbrev pub with_index : ℕ → {W : Type 0} → State W → State W
with_index i (c, w) = (record c { line_buffer_index = i }, w)

full-NoZero : (bytes : List ℕ) → NoZero bytes → NoZero (full bytes)
full-NoZero bytes h = NoZero-append bytes (b'\n' ∷ []) h (omega arith, tt)

module _ {W : Type 0} (os : Os W) where
  pub feed-full :
      (bytes lb text : List ℕ) (c : Context) (w : World W)
      → IsLine bytes
      → Plain (nodes_of c.urc_handler_list)
      → NoZero text
      → length lb ≡ atc_rx_line_max_size
      → length text + length (adds (nodes_of c.urc_handler_list) (full bytes)) < atc_rx_response_max
      → let ns = nodes_of c.urc_handler_list in
        (lb' : List ℕ) × (length lb' ≡ atc_rx_line_max_size)
        × (w' : World W) × (feed os (full bytes) (between c lb text) w
            ≡ with_index 0 (
                concluded os
                  (says ns (full bytes))
                  (record (between c lb' (text ++ adds ns (full bytes))) {
                    line_buffer_index = length (full bytes);
                  })
                  w'))
        × Heard (tells ns (full bytes)) w w'
  feed-full bytes lb text c w l p h size room =
      let rest = drop (length bytes + 2) lb in
      let lb' = full bytes ++ (0 ∷ rest) in
      let n = length-append bytes (b'\n' ∷ []) in
      let e : bytes ++ (b'\n' ∷ (0 ∷ rest)) ≡ lb' =
        sym (append_assoc bytes (b'\n' ∷ []) (0 ∷ rest)) in
      let (w', read, trace) =
        line_step-Read os text (full bytes) rest
          (record (between c lb text) {
            line_buffer = lb';
            line_buffer_index = length (full bytes);
          })
          w p h (full-NoZero bytes l.text) room refl refl in
      (
        lb',
        grind sizes,
        w',
        feed_line_lem os bytes (between c lb text) w l.plain l.short size refl
            ∙ ap₂
                (λ (x : List ℕ) (i : ℕ). with_index 0 (
                  line_step os x i
                    (record (between c lb text) { line_buffer = x; line_buffer_index = i }) w))
                e (sym n)
            ∙ ap (with_index 0) read,
        trace,
      )

  pub feed-stream :
      (ls : List (List ℕ)) (lb text : List ℕ) (c : Context) (w : World W)
      → AreLines (nodes_of c.urc_handler_list) ls
      → Plain (nodes_of c.urc_handler_list)
      → NoZero text
      → length lb ≡ atc_rx_line_max_size
      → length text + length (answer (nodes_of c.urc_handler_list) ls) < atc_rx_response_max
      → let ns = nodes_of c.urc_handler_list in
        (lb' : List ℕ) × (length lb' ≡ atc_rx_line_max_size)
        × (w' : World W) × (feed os (stream ls) (between c lb text) w
            ≡ (between c lb' (text ++ answer ns ls), w'))
        × NoZero (text ++ answer ns ls)
        × Heard (told ns ls) w w'
  unfolding feed
  feed-stream [] lb text c w a p h size room = (
    lb,
    size,
    w,
    ap (λ x. (between c lb x, w)) (sym (append-nil text)),
    subst NoZero (sym (append-nil text)) h,
    (refl, refl),
  )
  feed-stream (bytes ∷ ls) lb text c w (l, v, a) p h size room =
      let ns = nodes_of c.urc_handler_list in
      let new = adds ns (full bytes) in
      let m = length-append new (answer ns ls) in
      let (lb1, size1, w1, e1, t1) = feed-full bytes lb text c w l p h size (omega (arith, m)) in
      let h1 = NoZero-append text new h (adds-NoZero ns (full bytes) (full-NoZero bytes l.text)) in
      let (lb2, size2, w2, e2, h2, t2) =
        feed-stream ls lb1 (text ++ new) c w1 a p h1 size1 (grind sizes) in
      let asc = append_assoc text new (answer ns ls) in
      let own = tells ns (full bytes) in
      (
        lb2,
        size2,
        w2,
        feed-append os (full bytes) (stream ls) (between c lb text) w
            ∙ ap (λ (s : State W). feed os (stream ls) s.0 s.1)
                (e1
                  ∙ ap
                      (λ v. with_index 0 (
                        concluded os v
                          (record (between c lb1 (text ++ new)) {
                            line_buffer_index = length (full bytes);
                          })
                          w1))
                      v)
            ∙ e2
            ∙ ap (λ x. (between c lb2 x, w2)) asc,
        subst NoZero asc h2,
        (
          t2.0
              ∙ ap (λ es. reverse (told ns ls) ++ es) t1.0
              ∙ sym (append_assoc (reverse (told ns ls)) (reverse own) (as_strings w.trace))
              ∙ ap (λ es. es ++ as_strings w.trace) (sym (reverse-append own (told ns ls))),
          t2.1 ∙ t1.1,
        ),
      )
