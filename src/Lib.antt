-- ===== src/Lib.antt =====
-- ATCortex: an AT command framework for embedded systems. Commands go out through a queue of
-- tasks, one at a time; the bytes that come back are cut into lines, prompts and binary data;
-- lines that nobody asked for (URCs) go to registered handlers. One thread runs the event loop,
-- `atc_process`; others send commands and register handlers through two message queues, and an
-- interrupt stores received bytes.
--
-- The parts, and where they stand:
--   Base: names from the library, lists and tests over the native numbers, and what grind needs
--     of sizes.
--   Types and Context: the structures of include/ATCortex.h, send_msg_handle.h, urc_handle.h and
--     extern_msg_handle.c. An address is a number, NULL is 0.
--   Platform: what the library calls and does not implement, the functions of `struct
--     atc_interface` and the user's callbacks, as a parameter `Os`. A `World` is the state of the
--     system, the callers' variables, and the trace of the calls made. Platform.Ledger reads off
--     a trace which blocks and semaphores are outstanding, and what has been handed to the event
--     loop; Platform.Refusal has the causes of a failure that lie with the platform.
--   Interface: interface.c, the registration of those functions.
--   RingBuffer: ring_buffer.c. Bounds has the invariant, Contents the bytes held, Turns how they
--     go round the storage, Fifo the bounded queue that the ring implements, Count the number of
--     bytes. Interleaved has write and read one access at a time, Spsc is about any order of
--     these accesses, Accesses about one of them; Init about the new handle.
--   Stack: stack.c. Laws and Reads relate it to a list, Memory is about its blocks.
--   CString: the functions of string.h that the code uses.
--   Urc: urc_handle.c with `slist_append` and `slist_remove` of slist.c on the list of nodes.
--     Fresh is about the search for an identifier, Registry and Removal about the two operations,
--     RoundTrip about the one undoing the other, Dispatch about the handlers that a line calls.
--   Slist: slist.c and slist.h, with the nodes at addresses. Linked says when the nodes in memory
--     are a list, Append, Reads, Unlink, Removal, Reverse and Destroy are about the operations,
--     Registry about the list of nodes that Urc uses in its place.
--   SyncResponse and Send: send_msg_handle.c. Answer is about what a waiting caller gets, Prompt
--     has the functions with a prompt, Handle the event loop's step; Failure, Async and
--     PromptFailure are about what the sending functions leave behind, Lifecycle about the blocks
--     of a task on its way through the event loop, and Ending about them at its end.
--   Recv: recv_data_handle.c. Safety has the invariant of the context and Bytes what a byte
--     leaves of it, Task is about the task meanwhile, Arrival is about the interrupt's side,
--     Known about lines and bytes where there is a list of handlers, Line about the line buffer,
--     Overlong about a line that is longer, Response about the text in the response buffer, Lines
--     about what a whole line means for the answer to a command, Stream about lines one after
--     another, Exchange about those of a whole answer, Feed with Ring about the bytes of the ring
--     handled one after another, Answer and Caller about `recv_data_handle` on a whole answer,
--     Verdict about the lines that end a task, Prompt with Suffix, Whole and Reversed about the
--     prompt match, Binary about the data behind it, Prompted about a whole prompt and its data,
--     Ready about any byte, Drain about the whole of `recv_data_handle`.
--   Extern: extern_msg_handle.c, with Waiting about what its callers leave behind, and Answer
--     about what they get.
--   Process: ATCortex.c, with Init about the start, Timeout about the timeout of a task, Queues
--     with what the rounds rely on of the queues, Messages and Rounds about the rounds, Start
--     about rounds from the start on.
--   Tests: runs of the theorems at concrete inputs.
--
-- Functions keep their names; where a name begins with an underscore, that is dropped, and
-- `_atc_urc_register` and `_atc_urc_unregister` of urc_handle.c, whose names extern_msg_handle.c
-- has without it, are `atc_urc_register_entry` and `atc_urc_unregister_id`. The field `data` of a
-- task is `payload`. A pointer that may be NULL is an Option or an address; a function that
-- changes a structure returns the new one. A function's tail behind a guard, or a loop of it, is
-- a definition of its own.
--
-- Fuel: the search for an identifier has one round more than there are entries, the loop of
-- `recv_data_handle` as many as the ring has places, the loops of slist.c one more than the list
-- has nodes, and the loop over the prompt one more than the prompt has bytes. The loop of
-- `extern_msg_handle` has the fuel that it is given, as the queue is the system's: one more than
-- the messages that wait, of which the queue holds 5. `atc_process` never returns, and is
-- modelled by its rounds, with the bytes that the interrupt brings before each and, within each,
-- before the ring is worked off. An access to memory that ends the program, through NULL or past
-- the bytes of the prompt, is the outcome `null_dereference`.
--
-- Not modelled: logging; bytes that the interrupt brings while `recv_data_handle` works the ring
-- off, but for the accesses to the ring, which RingBuffer.Spsc has in any order; what other
-- threads do while a call runs, beyond the parameter's freedom to change the system, and the
-- variables of a caller that waits; what `urc_handle.c` would do with a list whose nodes are not
-- linked in order. A handler is taken not to register or unregister from inside the call. An
-- identifier is never negative here.
pub mod Base
pub mod RingBuffer
pub mod Types
pub mod Platform
pub mod Stack
pub mod CString
pub mod Context
pub mod Urc
pub mod SyncResponse
pub mod Recv
pub mod Send
pub mod Extern
pub mod Process
pub mod Interface
pub mod Slist
pub mod Tests
