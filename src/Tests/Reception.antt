-- ===== src/Tests/Reception.antt =====
-- Runs for what recv_data_handle.c and urc_handle.c do with bytes and lines.
use atcortex.Base.{ℕ, ◌≡◌, refl, some, [], ◌∷◌, arith}
use atcortex.Platform.{World}
use atcortex.Context.{Context}
use atcortex.Urc.{nodes_of, urc_line_handle}
use atcortex.Urc.Dispatch.{Told, urc_line_handle_lem}
use atcortex.Recv.{atc_receive_data}
use atcortex.Recv.Arrival.{Arrived, atc_receive_data_lem}
use atcortex.Tests.{test_os, world, urc_list, context}

-- Three bytes come, and the ring has room for one.
atc_receive_data_lem_example :
    (count : ℕ) × (c' : Context) × (w' : World ℕ) × (atc_receive_data test_os
        (some context)
        (some (67 ∷ 68 ∷ 69 ∷ []))
        world
      ≡ (count, some c', w'))
    × Arrived test_os (67 ∷ 68 ∷ 69 ∷ []) context world count c' w'
atc_receive_data_lem_example =
    atc_receive_data_lem test_os 67 (68 ∷ 69 ∷ []) context world (record {
      stored = refl;
      two = omega arith;
      fits = omega arith;
      word = omega arith;
      read_in = omega arith;
      write_in = omega arith;
    })

urc_line_handle_lem_example :
    Told test_os
      (43 ∷ 67 ∷ 0 ∷ [])
      world
      (some urc_list)
      (urc_line_handle test_os (43 ∷ 67 ∷ 0 ∷ []) context world)
unfolding nodes_of
urc_line_handle_lem_example =
    urc_line_handle_lem test_os (43 ∷ 67 ∷ 0 ∷ []) context world ((ground arith, tt), tt)
