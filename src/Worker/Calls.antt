-- ===== src/Worker/Calls.antt =====
-- native/agentseat-semantic.c: the calls of the daemon.
use agent_seat.Prelude.{
  ℕ, ◌+◌, ◌*◌, ◌-◌, ◌/◌, Bool, true, false, ◌&&◌, ◌||◌, not, Option, none, some, [], ◌∷◌, CString,
  cstr, if◌then◌else◌, length, ltb, leb, ◌==◌,
}
use agent_seat.Prelude.Int.{ℤ, pos, pos_part, leb_ℤ, ltb_ℤ}
use agent_seat.Json.{JsonC}
use agent_seat.Worker.Process.{Processes, identity}
use agent_seat.Worker.State.{
  Libraries, Worker, Call, Stage, connecting, acting, str, number, fail, preparing, in_flight,
  prepared,
}
use agent_seat.Worker.Prepare.{File, receipt_file}
use agent_seat.Worker.Callbacks.{call_later}

abbrev pub semantic_poll_max : ℕ
semantic_poll_max = 16

abbrev pub is_prepared : Stage → Bool
is_prepared prepared = true
is_prepared _ = false

module _ {J : JsonC} where
  -- The worker once `as_semantic_start` has cleared what the action before left behind.
  unfoldable pub cleared : Worker J → ℕ → ℤ → Worker J
  cleared w now timeout = record w {
    socket = false;
    bus = false;
    cancel_called = false;
    incoming = [];
    outgoing = none;
    scope_id = none;
    packet = none;
    arguments = none;
    interface = none;
    sent = false;
    replied = false;
    succeeded = false;
    cancelled = false;
    ready = false;
    error = [];
    busy = true;
    stage = preparing;
    deadline = now + 3000000;
    call_timeout =
        if leb_ℤ (pos 100) timeout && leb_ℤ timeout (pos 10000) then pos_part timeout else 5000;
  }

  abbrev pub with_request : Worker J → ℤ → CString → Option CString → Worker J
  with_request w bridge scope none =
      fail (record w { bridge_pid = bridge; scope_id = some scope }) (cstr "RESOURCE_LIMIT")
  with_request w bridge scope (some request) =
      call_later connecting
        (record w { bridge_pid = bridge; scope_id = some scope; outgoing = some request })

  abbrev pub with_scope :
      Libraries J
      → Processes
      → Worker J
      → CString
      → J.Json
      → Option (J.Json)
      → Option CString
      → Worker J
  with_scope lib proc w method params receipt none = fail w (cstr "A11Y_SCOPE_UNAVAILABLE")
  with_scope lib proc w method params receipt (some scope) =
      let bridge = number J receipt (cstr "bridge_pid") in
      if identity proc bridge (str J receipt (cstr "bridge_start")) w.microhost_pid
      then with_request w bridge scope (lib.request_text params method scope w.session_id)
      else fail w (cstr "A11Y_SCOPE_UNAVAILABLE")

  -- `as_semantic_start` at the time `now`, with what the file a11y.json is.
  unfoldable pub as_semantic_start :
      Libraries J → Processes → Worker J → CString → J.Json → Option File → ℕ → Worker J × Bool
  as_semantic_start lib proc w method params file now =
      let receipt = receipt_file lib file in
      if w.busy then (w, false) else (
        with_scope lib proc (cleared w now (number J (some params) (cstr "timeout_ms"))) method
            params receipt (str J receipt (cstr "scope_id")),
        true,
      )

  abbrev pub call_of : Worker J → Call J
  call_of w = record {
    owner = str J w.packet (cstr "owner");
    path = str J w.packet (cstr "path");
    interface = w.interface;
    member = w.member;
    arguments = w.arguments;
    timeout = w.call_timeout;
  }

  -- The first test of `as_semantic_submit`.
  unfoldable pub can_submit : Worker J → Bool
  can_submit w = w.ready && not w.sent && not w.cancelled && w.bus && (length w.error == 0)

  -- The second one, on the process of the target.
  unfoldable pub still_target : Processes → Worker J → Bool
  still_target proc w =
      identity proc (number J w.packet (cstr "pid")) (str J w.packet (cstr "process_start"))
        (number J w.packet (cstr "app_pid"))

  -- `as_semantic_submit` at the time `now`.
  unfoldable pub as_semantic_submit : Processes → Worker J → ℕ → Worker J
  as_semantic_submit proc w now =
      if can_submit w
      then (if still_target proc w
          then call_later acting (record w {
            sent = true;
            ready = false;
            stage = in_flight;
            deadline = now + (w.call_timeout + 1000) * 1000;
            calls = call_of w ∷ w.calls;
          })
          else fail w (cstr "TARGET_IDENTITY_CHANGED"))
      else w

  -- `as_semantic_cancel`.
  unfoldable pub as_semantic_cancel : Worker J → Worker J
  as_semantic_cancel w =
      let w' = record w { cancelled = true } in
      let unsent = record w' { ready = false } in
      if not w.busy
      then w
      else if w.sent
      then w'
      else if is_prepared w.stage
      then fail unsent (cstr "OPERATION_CANCELLED")
      else record unsent { cancel_called = true }

  -- The test of the deadline in `as_semantic_prepare_poll`.
  unfoldable pub expire : Worker J → ℕ → Worker J
  expire w now =
      if w.busy && not w.sent && leb w.deadline now
      then (if w.ready
          then fail w (cstr "PREPARATION_EXPIRED")
          else record w { cancel_called = true })
      else w

  -- The cap of `as_semantic_prepare_poll` on the descriptors that GLib names.
  unfoldable pub capped : Worker J → ℕ → Worker J
  capped w queried = if ltb semantic_poll_max queried then as_semantic_cancel w else w

  -- The wait until the deadline, in milliseconds.
  unfoldable pub deadline_ms : Worker J → ℕ → ℕ
  deadline_ms w now = (w.deadline - now) / 1000

  -- The wait that `as_semantic_prepare_poll` finds; -1 is without end.
  unfoldable pub poll_wait : Worker J → ℕ → ℕ → Bool → ℤ → ℤ
  poll_wait w later queried pending wait =
      let granted = if ltb semantic_poll_max queried || pending then pos 0 else wait in
      if w.busy && not w.sent
      then (if ltb_ℤ granted (pos 0) || ltb_ℤ (pos (deadline_ms w later)) granted
          then pos (deadline_ms w later)
          else granted)
      else granted

  -- `as_semantic_prepare_poll`: the worker, the number of descriptors and the timeout. GLib says
  -- whether a source is pending, how long it would wait, and how many descriptors it has. The clock is
  -- read twice.
  unfoldable pub as_semantic_prepare_poll : Worker J → ℕ → ℕ → Bool → ℤ → ℕ → ℤ → Worker J × ℕ × ℤ
  as_semantic_prepare_poll w now later pending wait queried timeout =
      let after = capped (expire w now) queried in
      let found = poll_wait after later queried pending wait in
      (
        after,
        (if ltb semantic_poll_max queried then semantic_poll_max else queried),
        (if leb_ℤ (pos 0) found && (ltb_ℤ timeout (pos 0) || ltb_ℤ found timeout)
            then found
            else timeout),
      )
