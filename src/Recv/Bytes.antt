-- ===== src/Recv/Bytes.antt =====
-- recv_data_handle.c: what handling a byte leaves of the invariant of the context.
use atcortex.Base.{
  ℕ, ◌+◌, ◌-◌, ◌<◌, ◌∙◌, List, [], ◌∷◌, arith, set, length-set, ltb, leb, ◌&&◌, ◌==◌, Bool-cases,
  inl, inr,
}
use atcortex.Types.{success, SendTask, atc_rx_line_max_size, atc_rx_response_max}
use atcortex.Platform.{World, Os}
use atcortex.CString.{strlen, strncmp_eq}
use atcortex.CString.Laws.{ZeroFrom-set}
use atcortex.Recv.Safety.{WellFormed, command_end_handle-WellFormed, push-WellFormed}
use atcortex.Context.{Context}
use atcortex.Recv.{
  match_markers, command_end_markers, normal_line_handle, put_line_byte, end_line,
  byte_binary_handle,
}
use atcortex.Recv.Known.{tell_line, line_step, byte_line_step}

match_markers-WellFormed :
    {W : Type 0} (os : Os W) (markers : List (List ℕ)) (line : List ℕ) (n : ℕ) {c : Context}
    (w : World W)
    → WellFormed c
    → WellFormed (match_markers os markers line n c w).0
unfolding match_markers
match_markers-WellFormed os [] line n w v = v
match_markers-WellFormed os (m ∷ ms) line n {c} w v =
    elim (Bool-cases (leb (strlen m) n && strncmp_eq line m (strlen m))) [
      | inl hit ↦ rw hit (command_end_handle-WellFormed os _ w v)
      | inr miss ↦ rw miss (match_markers-WellFormed os ms line n w v)
    ]

line_step-WellFormed :
    {W : Type 0} (os : Os W) (line : List ℕ) (n : ℕ) {c : Context} (w : World W)
    → WellFormed c
    → WellFormed (line_step os line n c w).0
unfolding line_step normal_line_handle
line_step-WellFormed os line n {c} w v = elim (Bool-cases (leb n 2)) [
  | inl empty ↦ rw empty v
  | inr full ↦ rw full (elim (Bool-cases (tell_line os line c w).0) [
    | inl urc ↦ rw urc v
    | inr normal ↦
        rw normal
          (match_markers-WellFormed os command_end_markers line n _ (push-WellFormed line n v))
  ])
]

put_line_byte-WellFormed :
    {c : Context} (byte : ℕ)
    → c.line_buffer_index < atc_rx_line_max_size - 1
    → WellFormed c
    → WellFormed (put_line_byte c byte)
unfolding put_line_byte
put_line_byte-WellFormed {c} byte lt v = record {
  ring = v.ring;
  line_size = length-set c.line_buffer c.line_buffer_index byte ∙ v.line_size;
  line_in = omega arith;
  fits = v.fits;
  stack = v.stack;
}

end_line-WellFormed : {c : Context} → WellFormed c → WellFormed (end_line c)
unfolding end_line
end_line-WellFormed {c} v = record {
  ring = v.ring;
  line_size = length-set c.line_buffer c.line_buffer_index 0 ∙ v.line_size;
  line_in = v.line_in;
  fits = v.fits;
  stack = v.stack;
}

set_index-WellFormed :
    {c : Context} (i : ℕ)
    → i < atc_rx_line_max_size
    → WellFormed c
    → WellFormed (record c { line_buffer_index = i })
set_index-WellFormed i lt v = record {
  ring = v.ring;
  line_size = v.line_size;
  line_in = lt;
  fits = v.fits;
  stack = v.stack;
}

-- A byte of a line keeps the context well formed, whatever it is and whatever the callbacks do:
-- the line buffer keeps its size and a place for the 0 that ends the line, and the response keeps
-- within its array.
pub byte_line_step-WellFormed :
    {W : Type 0} (os : Os W) (byte : ℕ) {c : Context} (w : World W)
    → WellFormed c
    → WellFormed (byte_line_step os byte c w).0
unfolding byte_line_step
byte_line_step-WellFormed os byte {c} w v =
    elim (Bool-cases (ltb c.line_buffer_index (atc_rx_line_max_size - 1))) [
      | inr full ↦ rw full v
      | inl room ↦
          let put = put_line_byte-WellFormed byte (ground arith) v in
          rw room (elim (Bool-cases (byte == b'\n')) [
            | inr more ↦ rw more put
            | inl end ↦ rw end (
                set_index-WellFormed 0 (omega arith)
                  (line_step-WellFormed os _ _ w (end_line-WellFormed put)))
          ])
    ]

-- A byte of binary data keeps the context well formed: the response keeps within its array.
pub byte_binary_handle-WellFormed :
    {W : Type 0} (os : Os W) (byte : ℕ) (t : SendTask) {c : Context} (w : World W)
    → WellFormed c
    → WellFormed (byte_binary_handle os byte t c w).0
unfolding byte_binary_handle
byte_binary_handle-WellFormed os byte t {c} w v =
    elim (Bool-cases (ltb c.response_length atc_rx_response_max)) [
      | inr full ↦ rw full v
      | inl room ↦
          let lt : c.response_length < atc_rx_response_max = ground arith in
          let put : WellFormed (record c {
            response = set c.response c.response_length byte;
            response_length = c.response_length + 1;
          }) =
            record {
              ring = v.ring;
              line_size = v.line_size;
              line_in = v.line_in;
              fits = record {
                size = length-set c.response c.response_length byte ∙ v.fits.size;
                within = omega arith;
                zeros = ZeroFrom-set c.response c.response_length byte v.fits.zeros;
              };
              stack = v.stack;
            } in
          rw room (elim (Bool-cases (leb t.need_recv_len (c.response_length + 1))) [
            | inl complete ↦ rw complete (command_end_handle-WellFormed os success w put)
            | inr more ↦ rw more put
          ])
    ]
