-- ===== src/Recv/Overlong.antt =====
-- recv_data_handle.c: a line that is longer than the line buffer.
use atcortex.Base.{ℕ, ◌+◌, ◌-◌, ◌≡◌, ap, ◌∙◌, subst, sizes, arith, List, [], ◌++◌, length, drop}
use atcortex.Types.{atc_rx_line_max_size}
use atcortex.Platform.{World, Os}
use atcortex.RingBuffer.{RingBuffer}
use atcortex.RingBuffer.Bounds as Ring
use atcortex.RingBuffer.Contents.{contents}
use atcortex.Context.{Context, State, done}
use atcortex.Recv.{recv_data_handle}
use atcortex.Recv.Binary.{receive_all}
use atcortex.Recv.Feed.{Fed, WaitsForLines, recv_data_handle-Fed, receive_all-lines}
use atcortex.Recv.Known.{IsThere}
use atcortex.Recv.Line.{NoLineFeed, with_line, feed, feed-append, feed-more, feed_full_lem}

module _ {W : Type 0} (os : Os W) (before after long rest : List ℕ) (c : Context) (w : World W)
    (plain : NoLineFeed long) (fills : length before + length long ≡ atc_rx_line_max_size - 1)
    (size : length before + length after ≡ atc_rx_line_max_size) where
  feed-overlong :
      feed os (long ++ rest) (with_line os c before after) w
      ≡ (with_line os c (before ++ long) (drop (length long) after), w)
  feed-overlong =
      feed-append os long rest (with_line os c before after) w
      ∙ ap (λ (s : State W). feed os rest s.0 s.1)
          (feed-more os long before after c w plain (omega arith) (omega arith))
      ∙ feed_full_lem os rest (with_line os c (before ++ long) (drop (length long) after)) w
          (grind sizes)

  -- Where there is a list of handlers, and no task or one that waits for lines, the bytes that
  -- fill the line buffer up to its last place, with no line feed among them, stop the reception
  -- of lines. On a valid ring with these bytes and any others behind them, line feeds included,
  -- `recv_data_handle` comes to an end without any call. The ring is valid and empty then, the
  -- line buffer is full and has taken in just those bytes, and everything else is as before.
  pub recv_data_handle-overlong :
      Ring.IsValid c.rx_buffer
      → contents c.rx_buffer ≡ long ++ rest
      → WaitsForLines c.current_send_task
      → IsThere c.urc_handler_list
      → (h : RingBuffer) × Ring.IsValid h
        × (contents h ≡ [])
        × (recv_data_handle os (with_line os c before after) w
            ≡ done (
              record (with_line os c (before ++ long) (drop (length long) after)) { rx_buffer = h },
              w,
            ))
  recv_data_handle-overlong v e s u =
      subst (λ r. Fed r (recv_data_handle os (with_line os c before after) w))
        (ap (λ bytes. receive_all os bytes (with_line os c before after) w) e
          ∙ receive_all-lines os (long ++ rest) (with_line os c before after) w s u
          ∙ ap done feed-overlong)
        (recv_data_handle-Fed os (with_line os c before after) w v)
