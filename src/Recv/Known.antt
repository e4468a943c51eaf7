-- ===== src/Recv/Known.antt =====
-- recv_data_handle.c: what a line and its bytes come to where there is a list of handlers.
use atcortex.Base.{
  ℕ, ◌+◌, ◌-◌, ◌≡◌, refl, ap, Bool, false, Option, none, some, List, ltb, leb, ◌==◌, if◌then◌else◌,
  Bool-cases, inl, inr,
}
use atcortex.Types.{atc_rx_line_max_size}
use atcortex.Platform.{World, Os, Call}
use atcortex.Context.{Context, UrcList, State, done, and_then}
use atcortex.Urc.{notify, nodes_of, notify_in, urc_line_handle}
use atcortex.Urc.Dispatch.{Plain, Notified, notify_lem}
use atcortex.Recv.{normal_line_handle, put_line_byte, end_line, line_handle, byte_line_handle}

-- There is a list, empty or not.
abbrev pub IsThere : Option UrcList → Type 0
IsThere none = ⊥
IsThere (some l) = Unit {0}

-- The steps without the test that reads through the list
unfoldable pub tell_line : {W : Type 0} → Os W → List ℕ → Context → Call W Bool
tell_line os line c w = notify os line (nodes_of c.urc_handler_list) false w

unfoldable pub line_step : {W : Type 0} → Os W → List ℕ → ℕ → Context → World W → State W
line_step os line n c w =
    if leb n 2
    then (c, w)
    else (let (is_urc, w') = tell_line os line c w in
        if is_urc then (c, w') else normal_line_handle os line n c w')

unfoldable pub byte_line_step : {W : Type 0} → Os W → ℕ → Context → World W → State W
byte_line_step os byte c w =
    let c1 = put_line_byte c byte in
    let c2 = end_line c1 in
    if ltb c.line_buffer_index (atc_rx_line_max_size - 1)
    then (if byte == b'\n'
        then (let (c3, w') = line_step os c2.line_buffer c2.line_buffer_index c2 w in
            (record c3 { line_buffer_index = 0 }, w'))
        else (c1, w))
    else (c, w)

module _ {W : Type 0} (os : Os W) where
  notify_in-there :
      (line : List ℕ) (o : Option UrcList) (w : World W)
      → IsThere o
      → notify_in os line o w ≡ done (notify os line (nodes_of o) false w)
  unfolding notify_in nodes_of
  notify_in-there line none w h = absurd h
  notify_in-there line (some l) w h = refl

  pub urc_line_handle-tell_line :
      (line : List ℕ) (c : Context) (w : World W)
      → IsThere c.urc_handler_list
      → urc_line_handle os line c w ≡ done (tell_line os line c w)
  unfolding urc_line_handle tell_line
  urc_line_handle-tell_line line c w h = notify_in-there line c.urc_handler_list w h

  line_handle-step :
      (line : List ℕ) (n : ℕ) (c : Context) (w : World W)
      → IsThere c.urc_handler_list
      → line_handle os line n c w ≡ done (line_step os line n c w)
  unfolding line_handle line_step
  line_handle-step line n c w h = elim (Bool-cases (leb n 2)) [
    | inl empty ↦ rw empty refl
    | inr more ↦ rw more (
        ap
          (λ r.
            and_then r (λ (is_urc, w').
              done (if is_urc then (c, w') else normal_line_handle os line n c w')))
          (urc_line_handle-tell_line line c w h))
  ]

  pub byte_line_handle-step :
      (byte : ℕ) (c : Context) (w : World W)
      → IsThere c.urc_handler_list
      → byte_line_handle os byte c w ≡ done (byte_line_step os byte c w)
  unfolding byte_line_handle byte_line_step put_line_byte end_line
  byte_line_handle-step byte c w h =
      elim (Bool-cases (ltb c.line_buffer_index (atc_rx_line_max_size - 1))) [
        | inr full ↦ rw full refl
        | inl room ↦ rw room (elim (Bool-cases (byte == b'\n')) [
          | inr more ↦ rw more refl
          | inl end ↦ rw end (
              ap (λ r. and_then r (λ (c3, w'). done (record c3 { line_buffer_index = 0 }, w')))
                (line_handle-step (end_line (put_line_byte c byte)).line_buffer
                  (c.line_buffer_index + 1) (end_line (put_line_byte c byte)) w h))
        ])
      ]

  pub tell_line_lem :
      (line : List ℕ) (c : Context) (w : World W)
      → Plain (nodes_of c.urc_handler_list)
      → Notified os line (nodes_of c.urc_handler_list) false w (tell_line os line c w)
  unfolding tell_line
  tell_line_lem line c w p = notify_lem os line (nodes_of c.urc_handler_list) false w p
