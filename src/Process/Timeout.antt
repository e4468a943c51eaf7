-- ===== src/Process/Timeout.antt =====
-- ATCortex.c: the timeout of the current task, measured with a clock that wraps around at 2 ^ 32 ms.
use atcortex.Base.{ℕ, ◌+◌, ◌-◌, ◌%◌, ◌^◌, ◌<◌, ◌≡◌, ap, ◌∙◌, some, arith, leb, if◌then◌else◌}
use atcortex.Types.{timeout, SendTask}
use atcortex.Platform.{World, Os, get_tick_ms}
use atcortex.Context.{Context}
use atcortex.Recv.{command_end_handle}
use atcortex.Process.{
  minus_uint32, atc_time_get, check_timeout, check_send_timeout, remaining, wait_ms,
}

-- The clock's value `d` ms after it showed `start`
abbrev pub later : ℕ → ℕ → ℕ
later start d = (start + d) % 2 ^ 32

-- The difference is the time that has passed, also where the clock has wrapped around.
minus_uint32-later :
    (start d : ℕ) → start < 2 ^ 32 → d < 2 ^ 32 → minus_uint32 (later start d) start ≡ d
unfolding minus_uint32
minus_uint32-later start d s l = omega arith

module _ {W : Type 0} (os : Os W) where
  check_timeout_lem :
      (p d : ℕ) (t : SendTask) (c : Context) (w : World W)
      → t.timestamp < 2 ^ 32
      → d < 2 ^ 32
      → (get_tick_ms os w).0 ≡ later t.timestamp d
      → check_timeout os (some (p, t)) c w ≡ (
          if leb t.timeout_ms d
          then command_end_handle os timeout c (get_tick_ms os w).1
          else (c, (get_tick_ms os w).1))
  unfolding check_timeout atc_time_get
  check_timeout_lem p d t c w s l now =
      ap
        (λ e.
          if leb t.timeout_ms e
          then command_end_handle os timeout c (get_tick_ms os w).1
          else (c, (get_tick_ms os w).1))
        (ap (λ n. minus_uint32 n t.timestamp) now ∙ minus_uint32-later t.timestamp d s l)

  -- Where the clock has moved on by `d` ms since the task was sent, fewer than 2 ^ 32, the task
  -- is ended with the result timeout if `d` is its timeout or more, and goes on if not, also
  -- where the clock has wrapped around.
  pub check_send_timeout_lem :
      (p d : ℕ) (t : SendTask) (c : Context) (w : World W)
      → c.current_send_task ≡ some (p, t)
      → t.timestamp < 2 ^ 32
      → d < 2 ^ 32
      → (get_tick_ms os w).0 ≡ later t.timestamp d
      → check_send_timeout os c w ≡ (
          if leb t.timeout_ms d
          then command_end_handle os timeout c (get_tick_ms os w).1
          else (c, (get_tick_ms os w).1))
  unfolding check_send_timeout
  check_send_timeout_lem p d t c w e s l now =
      ap (λ o. check_timeout os o c w) e ∙ check_timeout_lem p d t c w s l now

  -- Where the clock has moved on by `d` ms since the task was sent, fewer than 2 ^ 32, the event
  -- loop waits for the timeout less `d`, and not at all where the timeout is over.
  pub wait_ms_lem :
      (p d : ℕ) (t : SendTask) (w : World W)
      → t.timestamp < 2 ^ 32
      → d < 2 ^ 32
      → (get_tick_ms os w).0 ≡ later t.timestamp d
      → (wait_ms os (some (p, t)) w).0 ≡ t.timeout_ms - d
  unfolding wait_ms atc_time_get remaining
  wait_ms_lem p d t w s l now =
      let e : minus_uint32 (get_tick_ms os w).0 t.timestamp ≡ d =
        ap (λ n. minus_uint32 n t.timestamp) now ∙ minus_uint32-later t.timestamp d s l in
      ground arith

  -- Where the clock has moved on by `d` ms since the task was sent when the loop asks how long to
  -- wait, and by `rest` more at the check that follows, fewer than 2 ^ 32 in all, the check ends
  -- the task with the result timeout exactly if the loop has waited as long as it was to, or
  -- longer; otherwise it leaves the task.
  pub timeout_after_wait_lem :
      (p d rest : ℕ) (t : SendTask) (c : Context) (w v : World W)
      → c.current_send_task ≡ some (p, t)
      → t.timestamp < 2 ^ 32
      → d + rest < 2 ^ 32
      → (get_tick_ms os w).0 ≡ later t.timestamp d
      → (get_tick_ms os v).0 ≡ later t.timestamp (d + rest)
      → check_send_timeout os c v ≡ (
          if leb (wait_ms os c.current_send_task w).0 rest
          then command_end_handle os timeout c (get_tick_ms os v).1
          else (c, (get_tick_ms os v).1))
  timeout_after_wait_lem p d rest t c w v e s l now then_ =
      let left = ap (λ o. (wait_ms os o w).0) e ∙ wait_ms_lem p d t w s (omega arith) now in
      let same : leb t.timeout_ms (d + rest) ≡ leb (wait_ms os c.current_send_task w).0 rest =
        ground (arith, left) in
      check_send_timeout_lem p (d + rest) t c v e s l then_
      ∙ ap
          (λ b.
            if b
            then command_end_handle os timeout c (get_tick_ms os v).1
            else (c, (get_tick_ms os v).1))
          same
