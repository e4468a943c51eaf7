-- ===== src/Send/Async.antt =====
-- send_msg_handle.c: what `atc_send_async` leaves behind.
use atcortex.Platform.Ledger as Ledger
use atcortex.Context.{Context}
