-- ===== src/Recv/Verdict.antt =====
-- recv_data_handle.c: which lines end the current task, and with what result.
use atcortex.Base.{
  ℕ, ◌≡◌, refl, ap, ◌∙◌, true, false, Option, none, some, List, [], ◌∷◌, arith, leb, ◌&&◌,
  if◌then◌else◌, Bool-cases, inl, inr,
}
use atcortex.Types.{AtcResult, success, error}
use atcortex.Platform.{World, Os}
use atcortex.Context.{Context, State}
use atcortex.CString.{strlen, strncmp_eq, strcmp_eq}
use atcortex.CString.Laws.{begins_with, strncmp_eq-begins_with}
use atcortex.Recv.{
  ok_marker, push_to_response_buffer, command_end_handle, match_markers, normal_line_handle,
}

-- `ERROR`
abbrev pub error_marker : List ℕ
error_marker = 69 ∷ 82 ∷ 82 ∷ 79 ∷ 82 ∷ []

-- What a line of length `n` says of the command: the line begins with OK, or with ERROR, or neither.
abbrev pub verdict : List ℕ → ℕ → Option AtcResult
verdict line n =
    if leb 2 n && begins_with line ok_marker
    then some success
    else (if leb 5 n && begins_with line error_marker then some error else none)

-- A task is ended with the verdict, if there is one.
abbrev pub concluded : {W : Type 0} → Os W → Option AtcResult → Context → World W → State W
concluded os none c w = (c, w)
concluded os (some r) c w = command_end_handle os r c w

is_ok : strcmp_eq ok_marker ok_marker ≡ true
unfolding strcmp_eq
is_ok = refl

is_no_ok : strcmp_eq error_marker ok_marker ≡ false
unfolding strcmp_eq
is_no_ok = refl

length-ok : strlen ok_marker ≡ 2
unfolding strlen
length-ok = refl

length-error : strlen error_marker ≡ 5
unfolding strlen
length-error = refl

-- A line that is no URC goes into the response, and ends the current task exactly when it begins
-- with OK, with success, or with ERROR, with an error.
pub normal_line_handle_lem :
    {W : Type 0} (os : Os W) (line : List ℕ) (n : ℕ) (c : Context) (w : World W)
    → normal_line_handle os line n c w
      ≡ concluded os (verdict line n) (push_to_response_buffer c line n) w
unfolding normal_line_handle match_markers
normal_line_handle_lem os line n c w =
    let ok : strncmp_eq line ok_marker (strlen ok_marker) ≡ begins_with line ok_marker =
      ap (strncmp_eq line ok_marker) length-ok
      ∙ strncmp_eq-begins_with line ok_marker (ground arith, (ground arith, tt)) in
    let err : strncmp_eq line error_marker (strlen error_marker) ≡ begins_with line error_marker =
      ap (strncmp_eq line error_marker) length-error
      ∙ strncmp_eq-begins_with line error_marker
          (ground arith, (ground arith, (ground arith, (ground arith, (ground arith, tt))))) in
    rw (ok, err, length-ok, length-error, is_ok, is_no_ok)
      (elim (Bool-cases (leb 2 n && begins_with line ok_marker)) [
        | inl begins ↦ rw begins refl
        | inr other ↦ rw other (elim (Bool-cases (leb 5 n && begins_with line error_marker)) [
          | inl begins ↦ rw begins refl
          | inr neither ↦ rw neither refl
        ])
      ])
