-- ===== src/Daemon/Tests.antt =====
-- native/agentseatd.c at a concrete daemon, and the theorems about it there.
use agent_seat.Prelude.{
  ℕ, suc, ◌+◌, ◌^◌, ◌<◌, ◌≡◌, ◌≢◌, ap, refl, true, false, none, some, [], ◌∷◌, CString, cstr,
  str_eq, arith, get_or, set, replicate, first, length-replicate, get_or-replicate, take,
}
use agent_seat.Prelude.Int.{pos}
use agent_seat.Values.{Value, values, object, text, num}
use agent_seat.Ledger.{empty}
use agent_seat.Input.State.{Input, acquire_gate}
use agent_seat.Input.Seat.{require_input_active, pause}
use agent_seat.Input.Keymap.{
  type_codepoint, find_symbol, find_key, find_level, has_symbol, current_group, save_mods,
  typing_state, restored_state, symbol_of, place_of,
}
use agent_seat.Samples.{keys, units, fresh, seated}
use agent_seat.Daemon.State.{Daemon, Semantic, Role.agent, no_operation, Operation}
use agent_seat.Daemon.Control.{
  no_worker, method_needs_writer, method_sends_input, method_is_semantic, one_of, has_prefix,
  revoke_input, require_writer, require_created, finish_typing,
}
use agent_seat.Daemon.Authority.{authorize, admit_input}
use agent_seat.Daemon.Messages.{
  no_chat, append_all, messages_after, messages_after-newest, above, history,
}
use agent_seat.Daemon.Granted.{Granted, authorize-Granted}
use agent_seat.Daemon.Steps.{here, next, event}
use agent_seat.Daemon.Moves.{Single}
use agent_seat.Daemon.OneOperation.{IsSingle, set_started}
use agent_seat.Daemon.Params.{string_param, bounded_param}
use agent_seat.Input.Commands.{type_event, arm, typed_on, revoke_seat}
use agent_seat.Daemon.Turns.{Timely, no_turn, turn, type_all, advance_all, InProgress, Typed}
use agent_seat.Daemon.Runs.{advance_all-Typed}
use agent_seat.Input.Listeners.{blank_scene}
use agent_seat.Daemon.Names.{window_name}
use agent_seat.Daemon.Leases.{lease_contains, is_denied}
use agent_seat.Daemon.Sync.{sync_scene}
use agent_seat.Daemon.Stops.{Stopped, seat_pause-Stopped}
use agent_seat.Daemon.Methods.{seat_pause}
use agent_seat.Daemon.Exclusion.{none_left, small_id, sync_scene-excluded}
use agent_seat.Daemon.Fencing.{one_operation, revoked_for_good}

-- A worker that is never busy.
abbrev idle_worker : Semantic
idle_worker = record {
  Worker = ℕ;
  status = λ w. no_worker;
  cancel = λ w. w;
  Moment = ℕ;
  submit = λ w m. w;
}

-- A daemon with a writer.
daemon : Daemon keys units values idle_worker
daemon = record {
  session_id = cstr "s";
  input = seated;
  human_active_until_msec = 0;
  human_held = false;
  gate_allowed = true;
  gate_epoch = 1;
  activity_summary = [];
  activity_detail = [];
  chat = no_chat;
  created = true;
  paused = false;
  quit = false;
  request_count = 0;
  generation = 1;
  control_epoch = 1;
  next_operation = 0;
  operations = replicate 16 no_operation;
  typing = none;
  semantic = none;
  semantic_operation_id = [];
  requests = empty;
  writer = record { id = cstr "w"; lease = cstr "s:l1"; deadline = 500 };
  next_lease = 1;
  scene_version = 0;
  output_width = pos 0;
  output_height = pos 0;
  denied_windows = [];
  pointer_x = 0;
  pointer_y = 0;
  focused_window = cstr "w-7";
  leases = cstr "w-7" ∷ [];
}

-- A request of the writer.
abbrev request : Value
request = object (
    (cstr "controller_id", text (cstr "w"))
    ∷ (cstr "lease_id", text (cstr "s:l1"))
    ∷ (cstr "control_epoch", num (pos 1))
    ∷ (cstr "text", text (cstr "ab"))
    ∷ [])

abbrev method : CString
method = cstr "keyboard.type"

needs_it : method_needs_writer method ≡ true
unfolding method_needs_writer method_sends_input method_is_semantic one_of has_prefix str_eq
needs_it = refl

messages_after-newest_example :
    messages_after (append_all ((9, agent, cstr "b") ∷ (5, agent, cstr "a") ∷ [])) 1
    ≡ above 1 (take 64 (history ((9, agent, cstr "b") ∷ (5, agent, cstr "a") ∷ [])))
messages_after-newest_example =
    messages_after-newest ((9, agent, cstr "b") ∷ (5, agent, cstr "a") ∷ []) 1 (omega arith)

authorized : (authorize daemon method request 100).1 ≡ none
unfolding authorize method_needs_writer method_is_semantic one_of str_eq method_sends_input
    has_prefix require_writer daemon string_param admit_input bounded_param fresh
authorized = refl

authorize-Granted_example : Granted daemon request 100 (authorize daemon method request 100).0
authorize-Granted_example = authorize-Granted daemon method request 100 needs_it authorized

small_epoch : daemon.control_epoch + 1 < 2 ^ 64
unfolding daemon
small_epoch = omega arith

revoked_for_good_example : (authorize (revoke_input daemon) method request 200).1 ≢ none
revoked_for_good_example =
    revoked_for_good daemon daemon (revoke_input daemon) method request 100 200 needs_it authorized
      here small_epoch here

-- The text "ab" is being typed.
abbrev typing : Operation
typing = record no_operation {
  codepoints = 97 ∷ 98 ∷ [];
  count = 2;
  next_msec = 100;
  deadline_msec = 180100;
  interval_ms = 4;
  active = true;
  epoch = 1;
}

-- A seat that was created, with its devices.
ready : Input keys units
ready = record fresh {
  created = true;
  paused = false;
  keyboard = true;
  seat = true;
  xkb_state = some 0;
}

writing : Daemon keys units values idle_worker
unfolding daemon
writing = record daemon {
  input = ready;
  operations = set (replicate 16 no_operation) 1 typing;
  typing = some 1;
}

no_operations : IsSingle (replicate 16 no_operation) none
no_operations = record {
  slots = length-replicate 16 no_operation;
  in_range = λ i e. cc;
  active = λ i e. cc;
  only = λ i e. absurd (ground (arith, e, get_or-replicate 16 i no_operation));
}

writing-Single : Single writing
unfolding writing daemon
writing-Single = set_started (replicate 16 no_operation) 1 typing no_operations (omega arith) refl

writing_active : (get_or writing.operations 1 no_operation).active ≡ true
unfolding writing daemon replicate
writing_active = refl

-- The compositor reports something, and the operation is still the only one.
one_operation_example : (suc 0 ≡ 1) × (writing.typing ≡ some 1)
unfolding writing
one_operation_example =
    one_operation writing (record writing { input = fresh }) writing-Single
      (next here (event fresh)) 1 1 writing_active writing_active

writing-InProgress : InProgress writing 1 (97 ∷ 98 ∷ [])
unfolding writing daemon replicate
writing-InProgress = record {
  typing = refl;
  in_range = omega arith;
  not_paste = refl;
  not_semantic = refl;
  not_action = refl;
  epoch = refl;
  running = refl;
  not_held = refl;
  left = omega arith;
  small = omega arith;
  codepoints = λ j. ap (λ k. get_or (97 ∷ 98 ∷ []) k 0) (omega arith);
}

abbrev typed_input : Input keys units
typed_input = (type_event true (arm (type_event true (arm ready 1) 97).0 1) 98).0

both_typed : type_all (97 ∷ 98 ∷ []) 1 ready ≡ some typed_input
unfolding type_all type_event arm ready fresh require_input_active acquire_gate typed_on
    type_codepoint find_symbol find_key find_level has_symbol current_group first save_mods
    typing_state restored_state symbol_of place_of
both_typed = refl

in_time : Timely 0 180100 4 100 ((100, 101) ∷ (105, 106) ∷ [])
in_time =
    turn (omega arith) (omega arith) (omega arith)
      (turn (omega arith) (omega arith) (omega arith) no_turn)

advance_all-Typed_example :
    Typed writing (advance_all writing ((100, 101) ∷ (105, 106) ∷ [])) 1 typed_input
unfolding writing daemon replicate
advance_all-Typed_example =
    advance_all-Typed writing 1 97 (98 ∷ []) ((100, 101) ∷ (105, 106) ∷ []) typed_input
      writing-InProgress refl in_time both_typed

-- A scene of one window, which is excluded.
scened : Daemon keys units values idle_worker
scened = record daemon {
  denied_windows = 7 ∷ [];
  input = record seated {
    scene = record (blank_scene 3) {
      windows =
          record {
            id = 7;
            parent_id = 0;
            pid = 0;
            flags = 1;
            x = pos 0;
            y = pos 0;
            width = pos 8;
            height = pos 6;
            title = [];
            app_id = [];
          }
          ∷ [];
    };
  };
}

sync_scene-excluded_example : lease_contains (sync_scene scened).leases (window_name 7) ≡ false
unfolding scened is_denied daemon blank_scene
sync_scene-excluded_example =
    sync_scene-excluded scened 7 (small_id (omega arith) none_left) (omega arith) refl (omega arith)

-- The text is being typed on a connection that does not have the control protocol.
uncontrolled : Daemon keys units values idle_worker
uncontrolled = record writing { input = record ready { control = none } }

paused_well : (seat_pause uncontrolled).1 ≡ none
unfolding uncontrolled writing ready fresh daemon seat_pause require_created revoke_input
    finish_typing revoke_seat pause
paused_well = refl

seat_pause-Stopped_example : Stopped (seat_pause uncontrolled).0 200
seat_pause-Stopped_example = seat_pause-Stopped uncontrolled 200 paused_well
