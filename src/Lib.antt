-- ===== src/Lib.antt =====
-- AgentSeat gives an agent a seat of its own, a keyboard and a pointer, in a nested compositor that runs
-- one application. A daemon (native/agentseatd.c) takes JSON requests from controllers over a socket; it
-- drives the compositor through a Wayland connection (native/agentseat-input.c), answers a request
-- that is sent again from its ledger (native/request-ledger.c), and lets the human and the compositor
-- take the input away at any time.
--
-- Which file models what:
--
--   Ledger models native/request-ledger.c and its header, function by function under the C names
--   without `as_request_`: `begin`, `finish`, `get`, `ledger_finish`, `forget`. A ledger is a value,
--   each operation returns the new one. Its children Watermarks, AtMostOnce, Bounds, Evict, Finish,
--   Replay, Receipts, Taken and Retries hold the proofs.
--
--   Input models native/agentseat-input.c. Input.State is `struct input_state`; Input.Utf8 is `utf8_next`;
--   Input.Keymap is `find_symbol`, `type_codepoint`, `supported_codepoint` and the loop of
--   `agentseat_input_prepare_text`; Input.Seat has the devices, `release_all`, `destroy_seat`,
--   `agentseat_input_create`, `_pause`, `_resume`, `_move_absolute`, `_button` and `_key`; Input.Commands has
--   the other calls of the daemon; Input.Listeners has the callbacks of the compositor's events, and
--   Input.Content the changes of the content. What the connection sends is a log of requests (Wire),
--   the newest first; what the compositor does with a request, which it may drop, is not modelled, nor what
--   it releases by itself. Input.Texts has the proof about `agentseat_input_prepare_text`. Input.Calls is the relation of one call of the daemon, Input.Reach of any number.
--
--   Daemon models native/agentseatd.c. Daemon.State is `struct daemon_state`; Daemon.Params has the
--   parameters of a request and the codes of its errors; Daemon.Names has the names that are printed;
--   Daemon.Messages is `message_append` and the loop of chat.list; Daemon.Leases is `lease_contains`,
--   `lease_add`, `lease_remove` and the lists of window.lease and window.release; Daemon.Control has
--   `require_created`, `require_active`, `require_focus_lease`, `require_writer`, `finish_typing` and
--   `revoke_input`; Daemon.Authority has the tests of `response_for` between the ledger and `dispatch`
--   (`authorize`), and control.acquire, control.renew and control.release; Daemon.Typing has
--   keyboard.type and `advance_typing`; Daemon.Methods has the methods on the seat, chat.send and
--   chat.reply, operation.cancel, keyboard.key and pointer.button; Daemon.Sync is `sync_control_state`. Daemon.Steps is the relation
--   of the turns of the main loop and of these requests. OneOperation, Moves, Granted, Requests,
--   Fencing, Turns, Runs, Stops and Exclusion hold the proofs.
--
--   Daemon.Actions is `advance_semantic` and Daemon.Start the start of a semantic action in `dispatch`, with proofs
--   in Commit, Sends, Refusals and Begun; Daemon.Clients is `client_read` and `client_write`, with proofs in Lines and
--   Answers. Worker.Status makes the worker an instance of the interface that the daemon uses.
--
--   Worker models native/agentseat-semantic.c. Worker.Process is `process_info` and `identity`; Worker.State is
--   `struct as_semantic` with what GIO holds for it; Worker.Prepare is `receipt_file` and `prepare_arguments`;
--   Worker.Callbacks has the functions that GIO calls back, Worker.Calls those that the daemon calls, Worker.Status
--   `as_semantic_status`. Worker.Steps is the relation of both. Identity, Phases, Progress, Requests, Runs,
--   Commits and Deadline hold the proofs.
--
--   Capture models the test of `buffer_event` on a frame and the loops of `encode` in native/agentseat-capture.c, with
--   the proof in Capture.Pixels; Capture.Receipts has `struct as_capture` and its operations, and Capture.Captures
--   their relation and the proofs.
--
--   Catalog models native/agentseat-i18n.c: the message file in memory (`load_catalog`, `catalog_word`,
--   `table_entry`), the binary search of `agentseat_translate`, and Catalog.Language the choice of the language.
--   A read of the bytes of the file says whether it is in bounds (Access). Bounds, Lookup and Order hold the proofs.
--
--   Prelude has what the parts share: Boolean tests, C strings, arrays, int64_t. Json is the interface
--   of json-c; Values is a small instance of it, and Samples a keymap and a connection, for the tests.
--
-- How the code is translated. The numbers are natural numbers; where a uint32_t, uint64_t or size_t can
-- wrap, the operation is written with its modulus (`add_size`, `sub_size`, `add_u32`, `sub_u32`). A C string is
-- the list of its bytes before the NUL. A pointer into an array is an index, an array with its
-- count the list of the entries in use, NULL is `none`. A call that reads the clock takes the time as an
-- argument. Where it reads the clock again, `advance_typing` after a codepoint, `advance_semantic`,
-- `as_semantic_prepare_poll` and the start of a semantic action take the later time as another argument; an
-- operation's next_msec and deadline_msec are set from one value. Whether a flush succeeds, and whether the objects of a seat could be
-- made, are arguments too. Allocations succeed.
--
-- The contents of /proc are read once for each call of `identity`.
--
-- Parameters. json-c (JsonC), libxkbcommon (Xkb), the arithmetic of doubles (Doubles) and the semantic
-- worker as the daemon calls it (Semantic) are records that the definitions take as arguments; so is what
-- the worker calls of json-c and GIO (Libraries), and for the clients what `response_for` does with a request
-- (Server). Of json-c it is assumed that `json_object_equal` holds of a value and itself, and nothing of the others.
--
-- Fuel. `evict` runs for at most 128 rounds, one for each record. `decode` and `prepare` run for at most
-- as many rounds as the text has bytes, since each takes at least one. `collect` runs for at most 256
-- rounds, the size of the history. `admit_from` runs for as many rounds as the list has entries, since each
-- passes one or drops one. The digits of a number are at most 20, those of a uint32_t at most 10. The loops
-- over keys, groups and levels are counted. `search_range` runs for as many rounds as its range has entries, since
-- each makes the range shorter; `language_loop` for as many as the text has bytes, since each drops a separator.
--
-- The words of a message file and of a frame are put together as on a little-endian machine, and `tolower` is that of the C locale.
--
-- Not modelled: opening and closing the connections, sockets and poll, the text of the answers and of the
-- error messages, shared memory, `as_capture_destroy`; the methods of `dispatch` that are not named above, among
-- them the pointer's motion, click and scroll and the start of a paste; `as_semantic_free`. `realloc` fills the
-- cells that it adds with zeros, which are written before they are read. The reads and the writes of a
-- connection take a list of what `recv` and `send` give.
-- The timestamps of the events are left out of the log. `registry_remove` of the input connection is
-- translated, but is not a step of Input.Reach. The event of Daemon.Steps changes the connection in any way,
-- so it covers every callback; the semantic actions and the methods on the seat are not steps of it.
pub mod Prelude
pub mod Json
pub mod Values
pub mod Ledger
pub mod Catalog
pub mod Worker
pub mod Capture
pub mod Input
pub mod Samples
pub mod Daemon
