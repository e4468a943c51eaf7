-- ===== src/Tests/Answers.antt =====
-- A run for the whole answer to a command.
use atcortex.Base.{ℕ, refl, none, some, List, [], ◌∷◌, ◌++◌, arith}
use atcortex.Types.{success, SendTask, user_handler, sync_handler, line_recv}
use atcortex.Platform.{notified, World}
use atcortex.Context.{Context}
use atcortex.CString.Laws.{begins_with, length-zeroed}
use atcortex.Urc.{nodes_of}
use atcortex.Urc.Dispatch.{is_expected, calls}
use atcortex.Recv.Lines.{full, IsLine}
use atcortex.Recv.Stream.{AreLines}
use atcortex.Recv.Exchange.{Awaits, IsAnswer}
use atcortex.Recv.Answer.{Settled, ToldUser, recv_data_handle-ToldUser}
use atcortex.Recv.Binary.{receive_all}
use atcortex.Recv.Feed.{Fed, recv_data_handle-Fed}
use atcortex.Recv.{recv_data_handle}
use atcortex.RingBuffer.{RingBuffer}
use atcortex.RingBuffer.Bounds as Ring
use atcortex.RingBuffer.Contents.{contents, span}
use atcortex.Tests.{test_os, world, memory, context, prompt_task, urc_list}

abbrev asking : SendTask
asking = record prompt_task {
  response_handler = user_handler 17;
  status = line_recv;
  prompt = none;
}

-- The ring holds the fourteen bytes of the four lines.
abbrev answered : RingBuffer
answered = record {
  buffer = some (13 ∷ 10 ∷ 65 ∷ 66 ∷ 13 ∷ 10 ∷ 43 ∷ 67 ∷ 13 ∷ 10 ∷ 79 ∷ 75 ∷ 13 ∷ 10 ∷ 0 ∷ []);
  capacity = 15;
  read_index = 0;
  write_index = 14;
}

abbrev asked : Context
asked = record context { current_send_task = some (13, asking); rx_buffer = answered }

-- Nothing, `AB`, the URC `+C` and `OK`, each with a carriage return
abbrev line_none : List ℕ
line_none = 13 ∷ []

abbrev line_urc : List ℕ
line_urc = 43 ∷ 67 ∷ 13 ∷ []

abbrev line_ab : List ℕ
line_ab = 65 ∷ 66 ∷ 13 ∷ []

abbrev line_ok : List ℕ
line_ok = 79 ∷ 75 ∷ 13 ∷ []

none-IsLine : IsLine line_none
none-IsLine = record { plain = (omega arith, tt); text = (omega arith, tt); short = omega arith }

ab-IsLine : IsLine line_ab
ab-IsLine = record {
  plain = (omega arith, (omega arith, (omega arith, tt)));
  text = (omega arith, (omega arith, (omega arith, tt)));
  short = omega arith;
}

urc-IsLine : IsLine line_urc
urc-IsLine = record {
  plain = (omega arith, (omega arith, (omega arith, tt)));
  text = (omega arith, (omega arith, (omega arith, tt)));
  short = omega arith;
}

ok-IsLine : IsLine line_ok
ok-IsLine = record {
  plain = (omega arith, (omega arith, (omega arith, tt)));
  text = (omega arith, (omega arith, (omega arith, tt)));
  short = omega arith;
}

abbrev lines : List (List ℕ)
lines = line_none ∷ line_ab ∷ line_urc ∷ []

lines-AreLines : AreLines urc_list.nodes lines
unfolding is_expected begins_with
lines-AreLines = (none-IsLine, refl, (ab-IsLine, refl, (urc-IsLine, refl, tt)))

answered-IsValid : Ring.IsValid answered
answered-IsValid = record {
  stored = refl;
  two = omega arith;
  fits = omega arith;
  word = omega arith;
  read_in = omega arith;
  write_in = omega arith;
}

asked-Awaits : Awaits 13 asking asked
unfolding nodes_of
asked-Awaits = record {
  task = refl;
  waits = refl;
  size = length-zeroed 256;
  index = refl;
  response = refl;
  received = refl;
  there = tt;
  plain = ((omega arith, tt), tt);
}

lines-IsAnswer : IsAnswer urc_list.nodes lines line_ok success
unfolding is_expected begins_with
lines-IsAnswer = record {
  lines = lines-AreLines;
  line = ok-IsLine;
  ends = refl;
  room = omega arith;
}

recv_data_handle-ToldUser_example :
    Settled
      (ToldUser 17 13 asking success
        (full line_ab ++ full line_ok)
        (notified 9 (full line_urc) ∷ [])
        world)
      (recv_data_handle test_os asked world)
unfolding nodes_of begins_with is_expected calls contents span
recv_data_handle-ToldUser_example =
    recv_data_handle-ToldUser test_os lines line_ok success 13 17 asking asked world asked-Awaits
      refl lines-IsAnswer answered-IsValid refl

-- The caller has given a buffer of three bytes for the answer.
abbrev calling : SendTask
calling = record asking {
  response_handler = sync_handler;
  semaphore = 23;
  sync_send_result = 20;
  sync_response_buf = 21;
  sync_response_length = 22;
}

abbrev called : Context
called = record asked { current_send_task = some (13, calling) }

abbrev caller : World ℕ
caller = record world { memory = record memory { lengths = λ p. 3; buffers = λ p. 0 ∷ 0 ∷ 0 ∷ [] } }

recv_data_handle-Fed_example :
    Fed
      (receive_all test_os (contents asked.rx_buffer) asked world)
      (recv_data_handle test_os asked world)
recv_data_handle-Fed_example = recv_data_handle-Fed test_os asked world answered-IsValid
