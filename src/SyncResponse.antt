-- ===== src/SyncResponse.antt =====
-- The response handler of synchronous sends, `sync_response_handler` of send_msg_handle.c: it writes
-- the answer into the waiting caller's variables and wakes the caller.
pub mod Answer
use atcortex.Base.{ℕ, ◌++◌, ◌||◌, List, take, drop, min, ◌==◌, if◌then◌else◌}
use atcortex.Types.{null, AtcResult, SendTask}
use atcortex.Platform.{Os, Call, semaphore_give, write_result, update, pure, ◌>>◌}

-- `memcpy(buf, from, n)` into a caller's buffer.
abbrev pub memcpy : List ℕ → List ℕ → ℕ → List ℕ
memcpy buf from n = take n from ++ drop n buf

-- The copy of the response: as much as fits into the caller's buffer, whose size stands in the
-- variable that the number of bytes copied is written to.
unfoldable pub copy_response : {W : Type 0} → SendTask → List ℕ → ℕ → Call W (Unit {0})
copy_response t response response_length w =
    let m = w.memory in
    let n = min response_length (m.lengths t.sync_response_length) in
    (
      tt,
      record w {
        memory = record m {
          buffers =
              update m.buffers t.sync_response_buf
                (memcpy (m.buffers t.sync_response_buf) response n);
          lengths = update m.lengths t.sync_response_length n;
        };
      },
    )

-- The task is the one that the context points to.
unfoldable pub sync_response_handler :
    {W : Type 0} → Os W → SendTask → AtcResult → List ℕ → ℕ → Call W (Unit {0})
sync_response_handler os t result response response_length =
    (if t.sync_send_result == null then pure tt else write_result t.sync_send_result result)
    >> (if response_length == 0 || (t.sync_response_buf == null || t.sync_response_length == null)
        then pure tt
        else copy_response t response response_length)
    >> (if t.semaphore == null then pure tt else semaphore_give os t.semaphore)
