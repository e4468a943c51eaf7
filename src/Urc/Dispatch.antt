-- ===== src/Urc/Dispatch.antt =====
-- urc_handle.c: which handlers `urc_line_handle` calls.
use atcortex.Base.{
  ℕ, ◌≡◌, refl, ap, subst, ◌∙◌, sym, Bool, true, false, Option, none, some, List, [], ◌∷◌, ◌++◌,
  arith, length, ◌==◌, if◌then◌else◌, Bool-cases, inl, inr, append_assoc,
}
use mathlib.Core.List.{reverse, reverse-cons}
use atcortex.Types.{null, UrcHandlerEntry}
use atcortex.Platform.{Event, notified, World, Os, call_urc_handler}
use atcortex.CString.{strlen, strncmp_eq}
use atcortex.CString.Laws.{begins_with, NoZero, strncmp_eq-begins_with}
use atcortex.Context.{Context, UrcNode, UrcList, Run, done, null_dereference}
use atcortex.Urc.{matches, notify, nodes_of, notify_in, urc_line_handle}

-- The prefixes are strings: no byte 0 stands in them.
abbrev pub Plain : List UrcNode → Type 0
Plain [] = Unit {0}
Plain (n ∷ ns) = NoZero n.entry.prefix × Plain ns

-- Whether the line begins with the prefix of some entry
unfoldable pub is_expected : List ℕ → List UrcNode → Bool
is_expected line [] = false
is_expected line (n ∷ ns) = if begins_with line n.entry.prefix then true else is_expected line ns

-- The calls of handlers, in the order of the list
unfoldable pub calls : List ℕ → List UrcNode → List Event
calls line [] = []
calls line (n ∷ ns) =
    let rest = calls line ns in
    if begins_with line n.entry.prefix
    then (if n.entry.handler == null then rest else notified n.entry.handler line ∷ rest)
    else rest

strlen-plain : (text : List ℕ) → NoZero text → strlen text ≡ length text
unfolding strlen
strlen-plain [] z = refl
strlen-plain (b ∷ bs) z = ground (arith, strlen-plain bs z.1)

matches-begins_with :
    (line : List ℕ) (entry : UrcHandlerEntry)
    → NoZero entry.prefix
    → matches line entry ≡ begins_with line entry.prefix
unfolding matches
matches-begins_with line entry z =
    ap (strncmp_eq line entry.prefix) (strlen-plain entry.prefix z)
    ∙ strncmp_eq-begins_with line entry.prefix z

if_false : (b : Bool) → b ≡ (if b then true else false)
if_false true = refl
if_false false = refl

if_true : (b : Bool) → true ≡ (if b then true else true)
if_true true = refl
if_true false = refl

reverse-step : (e : Event) (es t : List Event) → reverse (e ∷ es) ++ t ≡ reverse es ++ (e ∷ t)
reverse-step e es t = ap (λ l. l ++ t) (reverse-cons e es) ∙ append_assoc (reverse es) (e ∷ []) t

module _ {W : Type 0} (os : Os W) where
  trace-call_urc_handler :
      (h : ℕ) (line : List ℕ) (w : World W)
      → (call_urc_handler os h line w).1.trace ≡ notified h line ∷ w.trace
  unfolding call_urc_handler
  trace-call_urc_handler h line w = refl

  -- One round, by whether the line begins with the entry's prefix.
  pub notify_step :
      (line : List ℕ) (n : UrcNode) (ns : List UrcNode) (is_urc hit : Bool) (w : World W)
      → NoZero n.entry.prefix
      → begins_with line n.entry.prefix ≡ hit
      → notify os line (n ∷ ns) is_urc w
        ≡ notify os line ns (if hit then true else is_urc) (
            if hit
            then (if n.entry.handler == null
                then w
                else (call_urc_handler os n.entry.handler line w).1)
            else w)
  unfolding notify
  notify_step line n ns is_urc hit w z e =
      ap
        (λ b. notify os line ns (if b then true else is_urc) (
          if b
          then (if n.entry.handler == null
              then w
              else (call_urc_handler os n.entry.handler line w).1)
          else w))
        (matches-begins_with line n.entry z ∙ e)

  abbrev pub Notified : List ℕ → List UrcNode → Bool → World W → Bool × World W → Type 0
  Notified line ns is_urc w (r, w') =
      (r ≡ (if is_urc then true else is_expected line ns))
      × (w'.trace ≡ reverse (calls line ns) ++ w.trace)

  pub notify_lem :
      (line : List ℕ) (ns : List UrcNode) (is_urc : Bool) (w : World W)
      → Plain ns
      → Notified line ns is_urc w (notify os line ns is_urc w)
  unfolding notify is_expected calls
  notify_lem line [] is_urc w z = (if_false is_urc, refl)
  notify_lem line (n ∷ ns) is_urc w z = elim (Bool-cases (begins_with line n.entry.prefix)) [
    | inl hit ↦
        subst (Notified line (n ∷ ns) is_urc w) (sym (notify_step line n ns is_urc true w z.0 hit))
          (rw hit (elim (Bool-cases (n.entry.handler == null)) [
            | inl silent ↦ rw silent (
              (notify_lem line ns true w z.1).0 ∙ if_true is_urc,
              (notify_lem line ns true w z.1).1,
            )
            | inr heard ↦ rw heard (
              (notify_lem line ns true (call_urc_handler os n.entry.handler line w).1 z.1).0
                  ∙ if_true is_urc,
              (notify_lem line ns true (call_urc_handler os n.entry.handler line w).1 z.1).1
                  ∙ (ap (λ t. reverse (calls line ns) ++ t)
                        (trace-call_urc_handler n.entry.handler line w)
                      ∙ sym (reverse-step (notified n.entry.handler line) (calls line ns) w.trace)),
            )
          ]))
    | inr miss ↦
        subst (Notified line (n ∷ ns) is_urc w)
          (sym (notify_step line n ns is_urc false w z.0 miss))
          (rw miss (notify_lem line ns is_urc w z.1))
  ]

  memory-told :
      (hit silent : Bool) (h : ℕ) (line : List ℕ) (w : World W)
      → (if hit then (if silent then w else (call_urc_handler os h line w).1) else w).memory
        ≡ w.memory
  unfolding call_urc_handler
  memory-told true true h line w = refl
  memory-told true false h line w = refl
  memory-told false silent h line w = refl

  -- No handler of a URC touches the variables of those who wait for an answer.
  pub memory-notify :
      (line : List ℕ) (ns : List UrcNode) (is_urc : Bool) (w : World W)
      → (notify os line ns is_urc w).1.memory ≡ w.memory
  unfolding notify
  memory-notify line [] is_urc w = refl
  memory-notify line (n ∷ ns) is_urc w =
      memory-notify line ns _ _
      ∙ memory-told (matches line n.entry) (n.entry.handler == null) n.entry.handler line w

  -- What telling the handlers comes to, by whether there is a list
  abbrev pub Told : List ℕ → World W → Option UrcList → Run (Bool × World W) → Type 0
  Told line w none r = r ≡ null_dereference
  Told line w (some l) r =
      (w' : World W) × (r ≡ done (is_expected line l.nodes, w'))
      × (w'.trace ≡ reverse (calls line l.nodes) ++ w.trace)

  notify_in-Told :
      (line : List ℕ) (o : Option UrcList) (w : World W)
      → Plain (nodes_of o)
      → Told line w o (notify_in os line o w)
  unfolding notify_in nodes_of
  notify_in-Told line none w z = refl
  notify_in-Told line (some l) w z =
      let (is_urc, trace) = notify_lem line l.nodes false w z in
      (
        (notify os line l.nodes false w).1,
        ap (λ b. done (b, (notify os line l.nodes false w).1)) is_urc,
        trace,
      )

  -- Where the prefixes have no byte 0, a line is a URC exactly when it begins with the prefix of
  -- some entry. Every entry with such a prefix has its handler called with the line, if it has
  -- one, in the order of the list, and no other handler is called. Where there is no list, NULL
  -- is dereferenced.
  pub urc_line_handle_lem :
      (line : List ℕ) (c : Context) (w : World W)
      → Plain (nodes_of c.urc_handler_list)
      → Told line w c.urc_handler_list (urc_line_handle os line c w)
  unfolding urc_line_handle
  urc_line_handle_lem line c w z = notify_in-Told line c.urc_handler_list w z
