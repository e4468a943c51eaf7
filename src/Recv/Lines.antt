-- ===== src/Recv/Lines.antt =====
-- recv_data_handle.c: what a line means for the answer to a command: it is empty, or a URC, or a part
-- of the answer.
use atcortex.Base.{
  ℕ, ◌+◌, ◌-◌, ◌<◌, ◌≡◌, refl, ap, ap₂, ◌∙◌, sym, Bool, true, false, Option, none, some, List, [],
  ◌∷◌, ◌++◌, map, append-nil, arith, length, leb, ◌==◌, if◌then◌else◌, Bool-cases, inl, inr,
}
use mathlib.Core.List.{reverse, map-append, reverse-cons}
use atcortex.Types.{null, AtcResult, atc_rx_response_max, atc_rx_line_max_size}
use atcortex.Platform.{Event, notified, World, Os}
use atcortex.Context.{Context, State, UrcNode}
use atcortex.CString.{strlen, prefix_of}
use atcortex.CString.Laws.{NoZero, begins_with, prefix_of-NoZero, strlen-NoZero}
use atcortex.Urc.{nodes_of}
use atcortex.Urc.Dispatch.{Plain, is_expected, calls, memory-notify}
use atcortex.Recv.Line.{NoLineFeed}
use atcortex.Recv.Verdict.{verdict, concluded}
use atcortex.Recv.Response.{padded, begins_with-padded, is_expected-padded, line_step-unexpected}
use atcortex.Recv.Known.{tell_line_lem, tell_line, line_step}

-- A line with its line feed
abbrev pub full : List ℕ → List ℕ
full bytes = bytes ++ (b'\n' ∷ [])

-- Text that fits the line buffer
pub record IsLine (bytes : List ℕ) : Type 0 where
  pub plain : NoLineFeed bytes
  pub text : NoZero bytes
  pub short : length bytes < atc_rx_line_max_size - 1

-- Of at most two bytes
abbrev pub is_empty : List ℕ → Bool
is_empty line = leb (length line) 2

-- What a line says of the command, what it adds to the answer, and which handlers hear of it: an empty
-- line is nothing, a line that a handler expects is for the handlers, and any other is a part of the
-- answer.
abbrev pub says : List UrcNode → List ℕ → Option AtcResult
says ns line =
    if is_empty line
    then none
    else (if is_expected line ns then none else verdict line (length line))

abbrev pub adds : List UrcNode → List ℕ → List ℕ
adds ns line = if is_empty line then [] else (if is_expected line ns then [] else line)

abbrev pub tells : List UrcNode → List ℕ → List Event
tells ns line = if is_empty line then [] else calls line ns

pub adds-NoZero : (ns : List UrcNode) (line : List ℕ) → NoZero line → NoZero (adds ns line)
adds-NoZero ns line h = elim (Bool-cases (is_empty line)) [
  | inl e ↦ rw e tt
  | inr e ↦ elim (Bool-cases (is_expected line ns)) [ inl x ↦ rw (e, x) tt | inr x ↦ rw (e, x) h ]
]

-- A handler gets the line buffer; as a C string it ends at its first 0.
abbrev pub as_string : Event → Event
as_string e = elim e [ notified h line ↦ notified h (prefix_of (strlen line) line) | e' ↦ e' ]

abbrev pub as_strings : List Event → List Event
as_strings es = map as_string es

string-padded :
    (line rest : List ℕ)
    → NoZero line
    → prefix_of (strlen (line ++ (0 ∷ rest))) (line ++ (0 ∷ rest)) ≡ line
string-padded line rest h =
    ap (λ n. prefix_of n (line ++ (0 ∷ rest))) (strlen-NoZero line rest h)
    ∙ prefix_of-NoZero line (0 ∷ rest) h

calls-padded :
    (line rest : List ℕ) (ns : List UrcNode)
    → NoZero line
    → Plain ns
    → as_strings (calls (line ++ (0 ∷ rest)) ns) ≡ calls line ns
unfolding calls
calls-padded line rest [] h p = refl
calls-padded line rest (n ∷ ns) h (z, p) =
    let same = begins_with-padded line rest n.entry.prefix z in
    let others = calls-padded line rest ns h p in
    elim (Bool-cases (begins_with line n.entry.prefix)) [
      | inr miss ↦ rw (same, miss) others
      | inl hit ↦
          rw (same, hit)
            (elim (Bool-cases (n.entry.handler == null)) [
              | inl silent ↦ rw silent others
              | inr heard ↦
                  rw heard (
                    ap₂ (λ x es. notified n.entry.handler x ∷ es) (string-padded line rest h)
                      others)
            ])
    ]

map-reverse : (es : List Event) → as_strings (reverse es) ≡ reverse (as_strings es)
map-reverse [] = refl
map-reverse (e ∷ es) =
    ap as_strings (reverse-cons e es)
    ∙ map-append as_string (reverse es) (e ∷ [])
    ∙ ap (λ l. l ++ (as_string e ∷ [])) (map-reverse es)
    ∙ sym (reverse-cons (as_string e) (as_strings es))

calls-unexpected :
    (line : List ℕ) (ns : List UrcNode) → is_expected line ns ≡ false → calls line ns ≡ []
unfolding calls is_expected
calls-unexpected line [] e = refl
calls-unexpected line (n ∷ ns) e = ground (arith, calls-unexpected line ns)

-- A line that ends the command is a part of the answer, and no handler hears of it.
pub ended_lem :
    (ns : List UrcNode) (line : List ℕ) (result : AtcResult)
    → says ns line ≡ some result
    → (adds ns line ≡ line) × (tells ns line ≡ [])
ended_lem ns line result s = elim (Bool-cases (is_empty line)) [
  | inl e ↦ let s' = rw e at s in cc
  | inr e ↦ elim (Bool-cases (is_expected line ns)) [
    | inl x ↦ let s' = rw (e, x) at s in cc
    | inr x ↦ rw (e, x) (refl, calls-unexpected line ns x)
  ]
]

-- The world behind calls of handlers of URCs
abbrev pub Heard : {W : Type 0} → List Event → World W → World W → Type 0
Heard es w w' = (as_strings w'.trace ≡ reverse es ++ as_strings w.trace) × (w'.memory ≡ w.memory)

-- What a whole line behind the text comes to
abbrev pub Read : {W : Type 0} → Os W → List ℕ → List ℕ → Context → World W → State W → Type 0
Read {W = W} os text line c w s =
    let ns = nodes_of c.urc_handler_list in
    let all = text ++ adds ns line in
    (w' : World W) × (s
      ≡ concluded os (says ns line)
          (record c { response = padded all; response_length = length all }) w')
    × Heard (tells ns line) w w'

module _ {W : Type 0} (os : Os W) (text line rest : List ℕ) (c : Context) where
  -- The state as it is, where nothing is added
  nothing_added :
      c.response ≡ padded text
      → c.response_length ≡ length text
      → c ≡ record c { response = padded (text ++ []); response_length = length (text ++ []) }
  nothing_added r n =
      ap₂ (λ (x : List ℕ) (m : ℕ). record c { response = x; response_length = m }) r n
      ∙ ap (λ x. record c { response = padded x; response_length = length x })
          (sym (append-nil text))

  line_step-empty :
      (w : World W)
      → is_empty line ≡ true
      → line_step os (line ++ (0 ∷ rest)) (length line) c w ≡ (c, w)
  unfolding line_step
  line_step-empty w e = rw e refl

  -- A line that a handler expects
  line_step-expected :
      (w : World W)
      → Plain (nodes_of c.urc_handler_list)
      → is_empty line ≡ false
      → is_expected line (nodes_of c.urc_handler_list) ≡ true
      → line_step os (line ++ (0 ∷ rest)) (length line) c w
        ≡ (c, (tell_line os (line ++ (0 ∷ rest)) c w).1)
  unfolding line_step
  line_step-expected w p e x =
      let is_urc =
        (tell_line_lem os (line ++ (0 ∷ rest)) c w p).0
        ∙ is_expected-padded line rest (nodes_of c.urc_handler_list) p
        ∙ x in
      rw (e, is_urc) refl

  pub line_step-Read :
      (w : World W)
      → Plain (nodes_of c.urc_handler_list)
      → NoZero text
      → NoZero line
      → length text + length (adds (nodes_of c.urc_handler_list) line) < atc_rx_response_max
      → c.response ≡ padded text
      → c.response_length ≡ length text
      → Read os text line c w (line_step os (line ++ (0 ∷ rest)) (length line) c w)
  line_step-Read w p h k room r n =
      let ns = nodes_of c.urc_handler_list in
      elim (Bool-cases (is_empty line)) [
        | inl e ↦ rw e (w, line_step-empty w e ∙ ap (λ d. (d, w)) (nothing_added r n), (refl, refl))
        | inr e ↦ elim (Bool-cases (is_expected line ns)) [
          | inl x ↦
              rw (e, x)
                (
                  (tell_line os (line ++ (0 ∷ rest)) c w).1,
                  line_step-expected w p e x
                      ∙ ap (λ d. (d, (tell_line os (line ++ (0 ∷ rest)) c w).1))
                          (nothing_added r n),
                  (
                    ap as_strings (tell_line_lem os (line ++ (0 ∷ rest)) c w p).1
                        ∙ map-append as_string (reverse (calls (line ++ (0 ∷ rest)) ns)) w.trace
                        ∙ ap (λ es. es ++ as_strings w.trace)
                            (map-reverse (calls (line ++ (0 ∷ rest)) ns)
                              ∙ ap reverse (calls-padded line rest ns k p)),
                    unfold tell_line in memory-notify os (line ++ (0 ∷ rest)) ns false w,
                  ),
                )
          | inr x ↦
              rw (e, x)
                (
                  w,
                  line_step-unexpected os text line rest c w p x h k (ground arith)
                      (rw (e, x) at room) r n,
                  (
                    ap (λ es. reverse es ++ as_strings w.trace) (sym (calls-unexpected line ns x)),
                    refl,
                  ),
                )
        ]
      ]
