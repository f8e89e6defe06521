-- ===== src/Daemon/Methods.antt =====
-- The methods of `dispatch` in native/agentseatd.c on the seat, the messages, the pointer's button, the
-- key and the operation in progress.
use agent_seat.Prelude.{
  ℕ, Bool, true, false, not, ◌||◌, Option, none, some, List, [], ◌∷◌, CString, cstr, str_eq,
  if◌then◌else◌, ltb, length, add_u32,
}
use agent_seat.Prelude.Int.{ℤ, pos, pos_part, ltb_ℤ}
use agent_seat.Json.{JsonC, is_int, is_boolean}
use agent_seat.Input.Platform.{Xkb, Doubles}
use agent_seat.Input.State.{Input}
use agent_seat.Input.Seat.{
  Made, Status, ok, failed, create_seat, destroy_seat, release_all, key_event, button_event,
}
use agent_seat.Input.Seat as Seat
use agent_seat.Daemon.State.{
  Daemon, Semantic, Operation, Role, Role.human, Role.agent, max_chat_bytes,
}
use agent_seat.Daemon.Params.{
  Code, Result, guarded, done, error, invalid_params, input_failed, text_too_large, string_param,
  operation_not_found,
}
use agent_seat.Daemon.Control.{require_created, require_focus_lease, revoke_input, one_of}
use agent_seat.Daemon.Sync.{sync_control_state}
use agent_seat.Daemon.Messages.{message_append}

-- `method_is_write`.
pub method_is_write : CString → Bool
method_is_write = one_of (
    cstr "seat.create"
    ∷ cstr "seat.destroy"
    ∷ cstr "seat.pause"
    ∷ cstr "seat.resume"
    ∷ cstr "shutdown"
    ∷ cstr "window.geometry"
    ∷ cstr "window.lease"
    ∷ cstr "window.release"
    ∷ cstr "window.focus"
    ∷ cstr "window.move"
    ∷ cstr "window.resize"
    ∷ cstr "window.close"
    ∷ cstr "pointer.move_absolute"
    ∷ cstr "pointer.button"
    ∷ cstr "pointer.click"
    ∷ cstr "pointer.scroll"
    ∷ cstr "keyboard.key"
    ∷ cstr "keyboard.type"
    ∷ cstr "keyboard.paste"
    ∷ cstr "operation.cancel"
    ∷ cstr "activity.set"
    ∷ cstr "chat.send"
    ∷ cstr "chat.reply"
    ∷ cstr "control.acquire"
    ∷ cstr "control.renew"
    ∷ cstr "control.release"
    ∷ cstr "a11y.perform"
    ∷ cstr "a11y.set_text"
    ∷ cstr "a11y.set_value"
    ∷ cstr "a11y.focus"
    ∷ cstr "a11y.select"
    ∷ cstr "a11y.scroll_to"
    ∷ [])

-- A required integer in a range.
abbrev pub int_value : (J : JsonC) → Option J.Json → ℤ → ℤ → Result ℤ
int_value J none lo hi = error invalid_params
int_value J (some v) lo hi =
    if not (is_int (J.type_of v)) || ltb_ℤ (J.get_int64 v) lo || ltb_ℤ hi (J.get_int64 v)
    then error invalid_params
    else done (J.get_int64 v)

-- `bool_param` with the default false.
abbrev pub bool_value : (J : JsonC) → Option J.Json → Result Bool
bool_value J none = done false
bool_value J (some v) =
    if is_boolean (J.type_of v) then done (J.get_boolean v) else error invalid_params

-- The first operation with this id.
pub find_operation : List Operation → CString → Option Operation
find_operation [] id = none
find_operation (op ∷ ops) id = if str_eq op.id id then some op else find_operation ops id

module _ {X : Xkb} {D : Doubles} {J : JsonC} {S : Semantic} where
  -- The answer of a call of the input connection.
  abbrev pub sent : Daemon X D J S → Input X D × Status → Daemon X D J S × Option Code
  sent s (input, ok) = (record s { input = input }, none)
  sent s (input, failed f) = (record s { input = input }, some input_failed)

  -- `seat_destroy`.
  pub seat_destroy : Daemon X D J S → Daemon X D J S
  seat_destroy s = record s {
    input = if s.created then destroy_seat s.input else s.input;
    leases = [];
    focused_window = [];
    created = false;
    paused = true;
  }

  abbrev pub after_create :
      Daemon X D J S → ℕ → ℕ → Input X D × Status → Daemon X D J S × Option Code
  after_create s now now_u32 (input, failed f) = (record s { input = input }, some input_failed)
  after_create s now now_u32 (input, ok) = (
    sync_control_state
        (record s {
          input = input;
          created = true;
          paused = false;
          generation = add_u32 s.generation 1;
          scene_version = 0;
        })
        now now_u32,
    none,
  )

  -- seat.create, with the id and the name of the command line.
  pub seat_create : Daemon X D J S → Made → CString → CString → ℕ → ℕ → Daemon X D J S × Option Code
  seat_create s made seat_id seat_name now now_u32 =
      if s.created
      then (s, none)
      else after_create s now now_u32 (create_seat s.input made seat_id seat_name)

  -- seat.destroy and shutdown.
  pub destroy_method : Daemon X D J S → Daemon X D J S
  destroy_method s = seat_destroy (revoke_input s)

  pub shutdown : Daemon X D J S → Daemon X D J S
  shutdown s = record (seat_destroy s) { quit = true }

  abbrev pub after_switch :
      Daemon X D J S → Bool → Input X D × Status → Daemon X D J S × Option Code
  after_switch s paused (input, ok) = (record s { input = input; paused = paused }, none)
  after_switch s paused (input, failed f) = (record s { input = input }, some input_failed)

  -- seat.pause and seat.resume.
  unfoldable pub seat_pause : Daemon X D J S → Daemon X D J S × Option Code
  seat_pause s =
      guarded (require_created s) s
        (let s' = revoke_input s in after_switch s' true (Seat.pause s'.input))

  pub seat_resume : Daemon X D J S → Daemon X D J S × Option Code
  seat_resume s = guarded (require_created s) s (after_switch s false (Seat.resume s.input))

  abbrev pub after_message :
      Daemon X D J S → ℕ → Role → Result CString → Daemon X D J S × Option Code
  after_message s now role (error e) = (s, some e)
  after_message s now role (done text) =
      if ltb max_chat_bytes (length text)
      then (s, some text_too_large)
      else (record s { chat = message_append s.chat now role text }, none)

  -- chat.send and chat.reply.
  pub chat_send : Daemon X D J S → CString → J.Json → ℕ → Daemon X D J S × Option Code
  chat_send s method params now =
      after_message s now (if str_eq method (cstr "chat.send") then human else agent)
        (string_param J params (cstr "text") false)

  abbrev pub after_cancel : Daemon X D J S → Option Operation → Daemon X D J S × Option Code
  after_cancel s none = (s, some operation_not_found)
  after_cancel s (some op) = (if op.active then revoke_input s else s, none)

  abbrev pub after_id : Daemon X D J S → Result CString → Daemon X D J S × Option Code
  after_id s (error e) = (s, some e)
  after_id s (done id) = after_cancel s (find_operation s.operations id)

  -- operation.cancel.
  pub operation_cancel : Daemon X D J S → J.Json → Daemon X D J S × Option Code
  operation_cancel s params = after_id s (string_param J params (cstr "operation_id") false)

  abbrev pub after_key :
      Daemon X D J S → Bool → Result ℤ → Result Bool → Daemon X D J S × Option Code
  after_key s flushed (done code) (done pressed) =
      sent s (key_event flushed s.input (pos_part code) pressed)
  after_key s flushed _ _ = (s, some invalid_params)

  -- keyboard.key.
  pub keyboard_key : Daemon X D J S → J.Json → ℕ → Bool → Daemon X D J S × Option Code
  keyboard_key s params now flushed = guarded (require_focus_lease s now) s (
      after_key s flushed (int_value J (J.object_get params (cstr "keycode")) (pos 0) (pos 767))
        (bool_value J (J.object_get params (cstr "pressed"))))

  abbrev pub after_button :
      Daemon X D J S → Bool → Result ℤ → Result Bool → Daemon X D J S × Option Code
  after_button s flushed (done code) (done pressed) =
      sent s (button_event flushed s.input (pos_part code) pressed)
  after_button s flushed _ _ = (s, some invalid_params)

  -- pointer.button.
  pub pointer_button : Daemon X D J S → J.Json → ℕ → Bool → Daemon X D J S × Option Code
  pointer_button s params now flushed = guarded (require_focus_lease s now) s (
      after_button s flushed (int_value J (J.object_get params (cstr "button")) (pos 1) (pos 1023))
        (bool_value J (J.object_get params (cstr "pressed"))))
