-- ===== src/Daemon/Control.antt =====
-- Who may write, in native/agentseatd.c: the checks of a request, the write lease, the end of the
-- operation in progress and the revocation of the input.
use agent_seat.Prelude.{
  ℕ, ◌-◌, Bool, true, false, not, ◌&&◌, ◌||◌, Option, none, some, List, [], ◌∷◌, CString, cstr,
  str_eq, if◌then◌else◌, ltb, leb, ◌==◌, length, get_or, set, add_size,
}
use agent_seat.Json.{JsonC}
use agent_seat.Input.Platform.{Xkb, Doubles}
use agent_seat.Input.Commands.{revoke_seat}
use agent_seat.Daemon.State.{Daemon, Semantic, SemanticStatus, Operation, no_operation, Writer}
use agent_seat.Daemon.Params.{
  Code, Result, done, error, seat_not_created, seat_paused, human_active, no_focus, no_write_lease,
  string_param,
}
use agent_seat.Daemon.Leases.{lease_contains}

unfoldable pub has_prefix : CString → CString → Bool
has_prefix [] method = true
has_prefix (x ∷ xs) [] = false
has_prefix (x ∷ xs) (y ∷ ys) = (x == y) && has_prefix xs ys

unfoldable pub one_of : List CString → CString → Bool
one_of [] method = false
one_of (x ∷ xs) method = str_eq method x || one_of xs method

-- `method_is_semantic`, `method_sends_input` and `method_needs_writer`.
unfoldable pub method_is_semantic : CString → Bool
method_is_semantic = one_of (
    cstr "a11y.perform"
    ∷ cstr "a11y.set_text"
    ∷ cstr "a11y.set_value"
    ∷ cstr "a11y.focus"
    ∷ cstr "a11y.select"
    ∷ cstr "a11y.scroll_to"
    ∷ [])

unfoldable pub method_sends_input : CString → Bool
method_sends_input method =
    has_prefix (cstr "pointer.") method || has_prefix (cstr "keyboard.") method

unfoldable pub method_needs_writer : CString → Bool
method_needs_writer method =
    method_is_semantic method
    || method_sends_input method
    || str_eq method (cstr "window.focus")
    || str_eq method (cstr "window.move")
    || str_eq method (cstr "window.resize")
    || str_eq method (cstr "window.close")

-- `as_semantic_status` on NULL.
abbrev pub no_worker : SemanticStatus
no_worker = record {
  busy = false;
  ready = false;
  sent = false;
  replied = false;
  succeeded = false;
  cancelled = false;
  stage = cstr "unavailable";
  error = [];
}

-- `!strcmp(outcome, "finished") || !strcmp(outcome, "rejected")`.
pub decided : CString → Bool
decided o = str_eq o (cstr "finished") || str_eq o (cstr "rejected")

-- The outcome of a semantic operation: the application may have acted once the request was sent.
unfoldable pub semantic_outcome : Operation → SemanticStatus → CString → CString
semantic_outcome op st o =
    if op.semantic && st.sent && not (decided o) then cstr "outcome_unknown" else o

-- The outcome of a window action or a paste: submitted, its effect is unknown.
unfoldable pub final_outcome : Operation → CString → CString
final_outcome op o =
    if (ltb 0 op.window_action || op.clipboard) && ltb 0 op.submitted && not (decided o)
    then cstr "outcome_unknown"
    else o

-- The operation after `finish_typing`.
unfoldable pub ended : Operation → SemanticStatus → CString → Operation
ended op st o = record op {
  cancel_requested = op.cancel_requested || (op.semantic && st.busy);
  active = false;
  outcome = final_outcome op (semantic_outcome op st o);
  codepoints = [];
}

abbrev pub no_writer : Writer
no_writer = record { id = []; lease = []; deadline = 0 }

-- An optional check: NULL on success.
abbrev pub then_check : Option Code → Option Code → Option Code
then_check none c = c
then_check (some e) c = some e

-- What `require_writer` asks for: it compares the lease that the request names.
abbrev pub current_writer : Writer → ℕ → CString → CString → Bool
current_writer w now controller lease =
    not (length w.id == 0) && ltb now w.deadline && str_eq controller w.id && str_eq lease w.lease

module _ (S : Semantic) where
  abbrev pub worker_status : Option (S.Worker) → SemanticStatus
  worker_status none = no_worker
  worker_status (some w) = S.status w

  abbrev pub cancel_if : Bool → Option (S.Worker) → Option (S.Worker)
  cancel_if false w = w
  cancel_if true none = none
  cancel_if true (some w) = some (S.cancel w)

module _ {X : Xkb} {D : Doubles} {J : JsonC} {S : Semantic} where
  -- `human_remaining_ms`, at the time `now`.
  unfoldable pub human_remaining_ms : Daemon X D J S → ℕ → ℕ
  human_remaining_ms s now =
      if leb s.human_active_until_msec now
      then if s.human_held then 1 else 0
      else if ltb 2147483647 (s.human_active_until_msec - now)
      then 2147483647
      else s.human_active_until_msec - now

  -- `require_created`, `require_active` and `require_focus_lease`.
  unfoldable pub require_created : Daemon X D J S → Option Code
  require_created s = if s.created then none else some seat_not_created

  unfoldable pub require_active : Daemon X D J S → ℕ → Option Code
  require_active s now = then_check (require_created s) (
      if s.paused
      then some seat_paused
      else if ltb 0 (human_remaining_ms s now)
      then some human_active
      else none)

  pub require_focus_lease : Daemon X D J S → ℕ → Option Code
  require_focus_lease s now = then_check (require_active s now) (
      if (length s.focused_window == 0) || not (lease_contains s.leases s.focused_window)
      then some no_focus
      else none)

  abbrev pub finish_at : Daemon X D J S → ℕ → Operation → CString → Daemon X D J S
  finish_at s i op o =
      let st = worker_status S s.semantic in
      record s {
        semantic = cancel_if S (op.semantic && st.busy) s.semantic;
        operations = set s.operations i (ended op st o);
        typing = none;
      }

  abbrev pub finish_if : Daemon X D J S → Option ℕ → CString → Daemon X D J S
  finish_if s none o = s
  finish_if s (some i) o = finish_at s i (get_or s.operations i no_operation) o

  -- `finish_typing`.
  unfoldable pub finish_typing : Daemon X D J S → CString → Daemon X D J S
  finish_typing s o = finish_if s s.typing o

  -- `revoke_input`.
  unfoldable pub revoke_input : Daemon X D J S → Daemon X D J S
  revoke_input s =
      let s' =
        finish_typing (record s { control_epoch = add_size s.control_epoch 1; writer = no_writer })
          (cstr "cancelled") in
      record s' { input = revoke_seat s'.input }

  abbrev pub writer_check : Daemon X D J S → ℕ → Result CString → Result CString → Option Code
  writer_check s now (done c) (done l) =
      if current_writer s.writer now c l then none else some no_write_lease
  writer_check s now (error e) _ = some e
  writer_check s now (done c) (error e) = some e

  -- `require_writer`.
  unfoldable pub require_writer : Daemon X D J S → J.Json → ℕ → Option Code
  require_writer s params now =
      writer_check s now (string_param J params (cstr "controller_id") false)
        (string_param J params (cstr "lease_id") false)
