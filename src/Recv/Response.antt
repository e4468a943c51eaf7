-- ===== src/Recv/Response.antt =====
-- recv_data_handle.c: the text that the response buffer holds, and what a whole line adds to it.
use atcortex.Base.{
  sizes, ℕ, zero, suc, ◌+◌, ◌-◌, ◌<◌, ◌≡◌, refl, ap, ap₂, ◌∙◌, sym, Bool, true, false, none, some,
  List, [], ◌∷◌, ◌++◌, append_assoc, arith, length, length-append, take, drop, replicate, ltb, leb,
  ◌&&◌, if◌then◌else◌, Bool-cases, inl, inr,
}
use atcortex.Types.{success, error, atc_rx_response_max}
use atcortex.Platform.{World, Os}
use atcortex.Context.{Context, UrcNode}
use atcortex.CString.{zeroed, strlen, strncat}
use atcortex.CString.Laws.{NoZero, begins_with, prefix_of-NoZero, strlen-NoZero}
use atcortex.Urc.{notify, nodes_of}
use atcortex.Urc.Dispatch.{Plain, is_expected, notify_step}
use atcortex.Recv.{ok_marker, push_to_response_buffer}
use atcortex.Recv.Verdict.{error_marker, verdict, concluded, normal_line_handle_lem}
use atcortex.Recv.Known.{tell_line, line_step}

-- The response buffer with a text in it
abbrev pub padded : List ℕ → List ℕ
padded text = text ++ zeroed (atc_rx_response_max - length text)

pub NoZero-append : (xs ys : List ℕ) → NoZero xs → NoZero ys → NoZero (xs ++ ys)
NoZero-append [] ys h k = k
NoZero-append (x ∷ xs) ys (a, h) k = (a, NoZero-append xs ys h k)

take-append : (xs ys : List ℕ) → take (length xs) (xs ++ ys) ≡ xs
take-append [] ys = refl
take-append (x ∷ xs) ys = ap (◌∷◌ x) (take-append xs ys)

drop-append : (xs ys : List ℕ) (n : ℕ) → drop (length xs + n) (xs ++ ys) ≡ drop n ys
drop-append [] ys n = ap (λ k. drop k ys) (omega arith)
drop-append (x ∷ xs) ys n =
    ap (λ k. drop k (x ∷ (xs ++ ys))) {y = suc (length xs + n)} (omega arith) ∙ drop-append xs ys n

drop-zeroed : (k n : ℕ) → drop k (zeroed (k + n)) ≡ zeroed n
unfolding zeroed
drop-zeroed zero n = ap (λ k. replicate k 0) (omega arith)
drop-zeroed (suc k) n =
    ap (λ m. drop (suc k) (replicate m 0)) {y = suc (k + n)} (omega arith) ∙ drop-zeroed k n

zeroed-suc : (n : ℕ) → zeroed (suc n) ≡ 0 ∷ zeroed n
unfolding zeroed
zeroed-suc n = refl

-- With room behind it a text ends at a 0.
strlen-padded :
    (text : List ℕ) (k : ℕ) → NoZero text → strlen (text ++ zeroed (suc k)) ≡ length text
strlen-padded text k h = rw (zeroed-suc k) (strlen-NoZero text (zeroed k) h)

-- The bytes of the line go behind the text.
strncat-padded :
    (text line rest : List ℕ)
    → NoZero text
    → NoZero line
    → length text + length line < atc_rx_response_max
    → strncat (padded text) (line ++ rest) (length line) ≡ padded (text ++ line)
unfolding strncat
strncat-padded text line rest h k room =
    let left = atc_rx_response_max - length text - length line - 1 in
    let size : atc_rx_response_max - length text ≡ (length line + 1) + left = omega arith in
    let size' : atc_rx_response_max - length (text ++ line) ≡ suc left = grind sizes in
    let to = padded text in
    let end : strlen to ≡ length text =
      ap (λ k. strlen (text ++ zeroed k)) {y = suc (length line + left)} (omega arith)
      ∙ strlen-padded text (length line + left) h in
    let behind : drop (length text + length line + 1) to ≡ zeroed left =
      ap (λ k. drop k to) {y = length text + (length line + 1)} (omega arith)
      ∙ drop-append text (zeroed (atc_rx_response_max - length text)) (length line + 1)
      ∙ ap (λ k. drop (length line + 1) (zeroed k)) size
      ∙ drop-zeroed (length line + 1) left in
    ap₂ (λ s l. take s to ++ (l ++ (0 ∷ drop (s + length l + 1) to))) end
      (prefix_of-NoZero line rest k)
    ∙ ap₂ (λ x y. x ++ (line ++ (0 ∷ y)))
        (take-append text (zeroed (atc_rx_response_max - length text))) behind
    ∙ ap (λ z. text ++ (line ++ z)) (sym (zeroed-suc left))
    ∙ sym (append_assoc text line (zeroed (suc left)))
    ∙ ap (λ k. (text ++ line) ++ zeroed k) (sym size')

-- A text without a byte 0 is not found in the bytes behind a 0.
pub begins_with-padded :
    (text rest key : List ℕ)
    → NoZero key
    → begins_with (text ++ (0 ∷ rest)) key ≡ begins_with text key
unfolding begins_with
begins_with-padded [] rest [] h = refl
begins_with-padded [] rest (k ∷ ks) (a, h) = ground arith
begins_with-padded (x ∷ xs) rest [] h = refl
begins_with-padded (x ∷ xs) rest (k ∷ ks) (a, h) = ground (arith, begins_with-padded xs rest ks h)

pub is_expected-padded :
    (text rest : List ℕ) (ns : List UrcNode)
    → Plain ns
    → is_expected (text ++ (0 ∷ rest)) ns ≡ is_expected text ns
unfolding is_expected
is_expected-padded text rest [] h = refl
is_expected-padded text rest (n ∷ ns) (a, h) =
    ap₂ (λ (b : Bool) (r : Bool). if b then true else r)
      (begins_with-padded text rest n.entry.prefix a) (is_expected-padded text rest ns h)

verdict-padded : (text rest : List ℕ) (n : ℕ) → verdict (text ++ (0 ∷ rest)) n ≡ verdict text n
verdict-padded text rest n =
    ap₂
      (λ (a : Bool) (b : Bool).
        if leb 2 n && a then some success else (if leb 5 n && b then some error else none))
      (begins_with-padded text rest ok_marker (omega arith, (omega arith, tt)))
      (begins_with-padded text rest error_marker
        (omega arith, (omega arith, (omega arith, (omega arith, (omega arith, tt))))))

module _ {W : Type 0} (os : Os W) where
  -- A line that no handler expects
  notify-unexpected :
      (line : List ℕ) (ns : List UrcNode) (w : World W)
      → Plain ns
      → is_expected line ns ≡ false
      → notify os line ns false w ≡ (false, w)
  unfolding notify is_expected
  notify-unexpected line [] w p e = refl
  notify-unexpected line (n ∷ ns) w (a, p) e = elim (Bool-cases (begins_with line n.entry.prefix)) [
    | inl hit ↦ let f = rw hit at e in cc
    | inr miss ↦
        notify_step os line n ns false false w a miss ∙ notify-unexpected line ns w p (rw miss at e)
  ]

  -- A line that no handler expects is told to no handler, goes into the response, and ends the task
  -- with its verdict, if it has one.
  pub line_step-unexpected :
      (text line rest : List ℕ) (c : Context) (w : World W)
      → Plain (nodes_of c.urc_handler_list)
      → is_expected line (nodes_of c.urc_handler_list) ≡ false
      → NoZero text
      → NoZero line
      → 2 < length line
      → length text + length line < atc_rx_response_max
      → c.response ≡ padded text
      → c.response_length ≡ length text
      → line_step os (line ++ (0 ∷ rest)) (length line) c w
        ≡ concluded os
            (verdict line (length line))
            (record c { response = padded (text ++ line); response_length = length (text ++ line) })
            w
  unfolding line_step tell_line push_to_response_buffer
  line_step-unexpected text line rest c w p e h k long room r n =
      let all = line ++ (0 ∷ rest) in
      let more : leb (length line) 2 ≡ false = ground arith in
      let quiet =
        notify-unexpected all (nodes_of c.urc_handler_list) w p
          (is_expected-padded line rest (nodes_of c.urc_handler_list) p ∙ e) in
      let fits : ltb (c.response_length + length line) atc_rx_response_max ≡ true = ground arith in
      simp (more, quiet)
        (normal_line_handle_lem os all (length line) c w
          ∙ simp fits (
              ap
                (λ v.
                  concluded os v
                    (record c {
                      response = strncat c.response all (length line);
                      response_length = c.response_length + length line;
                    })
                    w)
                (verdict-padded line rest (length line))
              ∙ ap₂
                  (λ (x : List ℕ) (m : ℕ).
                    concluded os (verdict line (length line))
                      (record c { response = x; response_length = m }) w)
                  (ap (λ x. strncat x all (length line)) r
                    ∙ strncat-padded text line (0 ∷ rest) h k room)
                  (ap (λ m. m + length line) n ∙ sym (length-append text line))))
