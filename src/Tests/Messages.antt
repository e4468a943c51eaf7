-- ===== src/Tests/Messages.antt =====
-- Runs for send_msg_handle.c and extern_msg_handle.c.
use atcortex.Extern.{atc_urc_register}
use atcortex.Extern.Waiting.{Balanced, atc_urc_register_lem}
use atcortex.Base.{false, ℕ, ◌≡◌, refl, none, some, [], ◌∷◌, true}
use atcortex.Types.{timeout}
use atcortex.Platform.{World, allocated, recv_task}
use atcortex.Platform.Ledger.{blocks, Same}
use atcortex.Recv.{command_end_handle}
use atcortex.CString.{strlen}
use atcortex.Send.{SyncCall, is_invalid_sync, atc_send_sync}
use atcortex.Send.Prompt.{is_none, PromptCall, atc_send_with_prompt_binary_rx_sync}
use atcortex.Send.Handle.{send_msg_handle}
use atcortex.Send.Failure.{LeavesSome, atc_send_sync_lem}
use atcortex.Send.PromptFailure.{atc_send_with_prompt_binary_rx_sync_lem}
use atcortex.Send.Ending.{command_end_handle-blocks}
use atcortex.Send.Lifecycle.{Sent, send_msg_handle_lem}
use atcortex.Tests.{test_os, world, context, idle, prompt_task}

abbrev call : SyncCall
call = record { send_result = 20; response_buf = 21; response_length = 22 }

abbrev prompt_call : PromptCall
prompt_call = record { prompt_bytes = some (62 ∷ []); prompt_len = 1; recv_len = 4 }

atc_send_sync_lem_example :
    LeavesSome test_os false 1 world
      (atc_send_sync test_os true (some idle) (some (65 ∷ [])) 1 call 50 world)
unfolding is_invalid_sync
atc_send_sync_lem_example =
    atc_send_sync_lem test_os true (some idle) (some (65 ∷ [])) 1 call 50 world

atc_send_with_prompt_binary_rx_sync_lem_example : LeavesSome test_os false 2 world (
    atc_send_with_prompt_binary_rx_sync test_os
      (some idle)
      (some (65 ∷ []))
      1
      prompt_call
      call
      50
      world)
unfolding is_none
atc_send_with_prompt_binary_rx_sync_lem_example =
    atc_send_with_prompt_binary_rx_sync_lem test_os (some idle) (some (65 ∷ [])) 1 prompt_call call
      50 world

-- The world in which the blocks of the test's task have been allocated, and one more.
abbrev queued : World ℕ
queued = record world { trace = allocated 2 ∷ allocated 1 ∷ allocated 9 ∷ [] }

send_msg_handle_lem_example :
    Sent test_os prompt_task
      (9 ∷ [])
      (recv_task test_os idle.send_queue 0 queued).1
      (send_msg_handle test_os idle queued)
unfolding recv_task blocks
send_msg_handle_lem_example = send_msg_handle_lem test_os idle (9 ∷ []) queued (λ p. refl)

command_end_handle-blocks_example :
    ((command_end_handle test_os timeout context
        (record world { trace = allocated 13 ∷ queued.trace })).0.current_send_task
      ≡ none)
    × Same
        (blocks
          (command_end_handle test_os timeout context
            (record world { trace = allocated 13 ∷ queued.trace })).1.trace)
        (9 ∷ [])
unfolding blocks
command_end_handle-blocks_example =
    command_end_handle-blocks test_os 13 prompt_task timeout context (9 ∷ [])
      (record world { trace = allocated 13 ∷ queued.trace }) refl (λ p. refl)

atc_urc_register_lem_example :
    Balanced test_os false none
      (λ v. v.memory.ids 24)
      world
      (atc_urc_register test_os true 24 (some idle) (some (43 ∷ 67 ∷ [])) 9 world)
unfolding strlen
atc_urc_register_lem_example =
    atc_urc_register_lem test_os true 24 (some idle) (some (43 ∷ 67 ∷ [])) 9 world
