-- ===== src/Daemon/Typing.antt =====
-- The operations of native/agentseatd.c: keyboard.type, which starts one, and `advance_typing`,
-- which the main loop calls for its next step.
use agent_seat.Prelude.{
  ℕ, ◌-◌, ◌*◌, ◌%◌, ◌^◌, Bool, true, false, not, ◌&&◌, ◌||◌, Option, none, some, List, [], ◌∷◌,
  CString, cstr, if◌then◌else◌, ltb, leb, ◌==◌, length, get_or, set, add_size,
}
use agent_seat.Json.{JsonC}
use agent_seat.Input.Platform.{Xkb, Doubles}
use agent_seat.Input.State.{Input}
use agent_seat.Input.Seat.{Status, ok, failed, unsupported_text, release_all, key_event}
use agent_seat.Input.Commands.{arm, type_event, prepare_text}
use agent_seat.Daemon.State.{
  Daemon, Semantic, Operation, no_operation, max_operations, max_type_bytes, max_type_duration_ms,
}
use agent_seat.Daemon.Params.{
  Code, Result, guarded, done, error, invalid_params, text_too_large, unsupported_character,
  input_failed, resource_limit, string_param, bounded_param,
}
use agent_seat.Daemon.Names.{operation_name}
use agent_seat.Daemon.Control.{require_focus_lease, finish_typing, revoke_input, human_remaining_ms}

abbrev pub over_budget : ℕ → ℕ → Bool
over_budget count interval =
    ltb 0 count && ltb (max_type_duration_ms - 1000) ((count - 1) * interval % 2 ^ 64)

abbrev pub text_len : (J : JsonC) → Option J.Json → ℕ
text_len J none = 0
text_len J (some v) = J.get_string_len v

-- Control and V.
abbrev pub paste_keys : List (ℕ × Bool)
paste_keys = (29, true) ∷ (47, true) ∷ (47, false) ∷ (29, false) ∷ []

-- UNSUPPORTED_CHARACTER if `unsupported` is set, KEYBOARD_TYPE_FAILED otherwise.
abbrev pub text_code : Status → Code
text_code (failed unsupported_text) = unsupported_character
text_code _ = input_failed

module _ {X : Xkb} {D : Doubles} where
  -- The chain of `agentseat_input_key` calls, which stops at the first that fails.
  pub send_keys : Input X D → List (ℕ × Bool) → (ℕ → Bool) → Input X D × Bool
  send_keys s [] flushed = (s, true)
  send_keys s ((code, pressed) ∷ keys) flushed =
      let (s', status) = key_event (flushed (length keys)) s code pressed in
      let rest = send_keys s' keys flushed in elim status [ ok ↦ rest | failed f ↦ (s', false) ]

module _ {X : Xkb} {D : Doubles} {J : JsonC} {S : Semantic} where
  -- The next slot of `operations`, with a new operation.
  unfoldable pub start_operation : Daemon X D J S → Operation → Daemon X D J S
  start_operation s op =
      let n = add_size s.next_operation 1 in
      record s {
        next_operation = n;
        operations =
            set s.operations (n % max_operations)
              (record op { id = operation_name s.session_id n });
        typing = some (n % max_operations);
      }

  abbrev pub text_operation : Daemon X D J S → List ℕ → ℕ → ℕ → Operation
  text_operation s cs interval now = record no_operation {
    codepoints = cs;
    count = length cs;
    next_msec = now;
    deadline_msec = add_size now max_type_duration_ms;
    interval_ms = interval;
    active = true;
    outcome = cstr "running";
    epoch = s.control_epoch;
  }

  abbrev pub after_prepare :
      Daemon X D J S → ℕ → ℕ → Option (List ℕ) × Status → Daemon X D J S × Option Code
  after_prepare s interval now (none, status) = (s, some (text_code status))
  after_prepare s interval now (some cs, status) =
      if over_budget (length cs) interval
      then (s, some resource_limit)
      else (let s' = start_operation s (text_operation s cs interval now) in
          (if length cs == 0 then finish_typing s' (cstr "finished") else s', none))

  abbrev pub after_interval : Daemon X D J S → CString → ℕ → Result ℕ → Daemon X D J S × Option Code
  after_interval s text now (error e) = (s, some e)
  after_interval s text now (done interval) =
      after_prepare s interval now (prepare_text s.input text)

  abbrev pub after_text :
      Daemon X D J S → J.Json → ℕ → Result CString → Daemon X D J S × Option Code
  after_text s params now (error e) = (s, some e)
  after_text s params now (done text) =
      if ltb max_type_bytes (length text)
      then (s, some text_too_large)
      else if not (text_len J (J.object_get params (cstr "text")) == length text)
      then (s, some invalid_params)
      else after_interval s text now (bounded_param J params (cstr "interval_ms") 4 0 10000)

  -- keyboard.type in `dispatch`.
  unfoldable pub keyboard_type : Daemon X D J S → J.Json → ℕ → Daemon X D J S × Option Code
  keyboard_type s params now =
      guarded (require_focus_lease s now) s
        (after_text s params now (string_param J params (cstr "text") true))

  -- A paste whose keys were sent, with what the connection has reported.
  abbrev pub transfers_seen : Daemon X D J S → ℕ → Operation → Daemon X D J S
  transfers_seen s i op =
      let s' = record s {
        operations = set s.operations i (record op {
          paste_keys_sent = true;
          clipboard_transfers = s.input.clipboard_transfers;
          clipboard_bytes = s.input.clipboard_bytes;
        });
      } in
      if ltb 0 s.input.clipboard_transfers then finish_typing s' (cstr "finished") else s'

  abbrev pub after_keys : Daemon X D J S → ℕ → Operation → Input X D × Bool → Daemon X D J S
  after_keys s i op (input, true) = transfers_seen (record s { input = input }) i op
  after_keys s i op (input, false) = revoke_input (record s {
    input = input;
    operations = set s.operations i (record op { paste_keys_sent = true });
  })

  -- The paste in `advance_typing`.
  unfoldable pub advance_paste : Daemon X D J S → ℕ → Operation → (ℕ → Bool) → Daemon X D J S
  advance_paste s i op flushed =
      if not (s.input.clipboard_token == op.action_token)
      then s
      else if ltb 0 s.input.clipboard_status
      then finish_typing s (cstr "rejected")
      else if op.paste_keys_sent
      then transfers_seen s i op
      else after_keys s i op (send_keys (arm s.input (op.epoch % 2 ^ 32)) paste_keys flushed)

  -- The codepoint was typed, or not; `later` is the time that is read for the next one.
  unfoldable pub after_typed :
      Daemon X D J S → ℕ → Operation → ℕ → Input X D × Status → Daemon X D J S
  after_typed s i op later (input, failed f) =
      let s' = finish_typing (record s { input = input }) (cstr "outcome_unknown") in
      record s' { input = release_all s'.input }
  after_typed s i op later (input, ok) =
      let n = add_size op.submitted 1 in
      if n == op.count
      then finish_typing
          (record s {
            input = input;
            operations = set s.operations i (record op { submitted = n });
          })
          (cstr "finished")
      else record s {
        input = input;
        operations =
            set s.operations i
              (record op { submitted = n; next_msec = add_size later op.interval_ms });
      }

  -- `advance_typing` on the operation in progress.
  unfoldable pub advance_at : Daemon X D J S → ℕ → Operation → ℕ → ℕ → (ℕ → Bool) → Daemon X D J S
  advance_at s i op now later flushed =
      if s.paused || ltb 0 (human_remaining_ms s now) || not (op.epoch == s.control_epoch)
      then finish_typing s (cstr "cancelled")
      else if leb op.deadline_msec now
      then finish_typing s (cstr "deadline_exceeded")
      else if op.clipboard
      then advance_paste s i op flushed
      else if op.semantic || ltb 0 op.window_action || ltb now op.next_msec
      then s
      else after_typed s i op later (
          type_event (flushed 0) (arm s.input (op.epoch % 2 ^ 32))
            (get_or op.codepoints op.submitted 0))

  abbrev pub advance_if : Daemon X D J S → Option ℕ → ℕ → ℕ → (ℕ → Bool) → Daemon X D J S
  advance_if s none now later flushed = s
  advance_if s (some i) now later flushed =
      advance_at s i (get_or s.operations i no_operation) now later flushed

  -- `advance_typing`, at the time `now`, and `later` after a codepoint; `flushed` says which flushes of the connection succeed.
  unfoldable pub advance_typing : Daemon X D J S → ℕ → ℕ → (ℕ → Bool) → Daemon X D J S
  advance_typing s now later flushed = advance_if s s.typing now later flushed
