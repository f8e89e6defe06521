-- ===== src/Daemon/BegunTests.antt =====
-- A semantic action that begins, at a concrete daemon and worker.
use agent_seat.Prelude.{
  ◌≡◌, refl, true, false, Option, none, some, [], ◌∷◌, CString, cstr, str_eq, get_or, replicate,
}
use agent_seat.Prelude.Int.{pos}
use agent_seat.Values.{Value, values, object, text, num}
use agent_seat.Ledger.{empty}
use agent_seat.Input.State.{Window}
use agent_seat.Input.Listeners.{blank_scene}
use agent_seat.Samples.{keys, units, fresh}
use agent_seat.Daemon.State.{Daemon, no_operation}
use agent_seat.Daemon.Names.{window_name, operation_name, digits}
use agent_seat.Daemon.Messages.{no_chat}
use agent_seat.Daemon.Leases.{lease_contains}
use agent_seat.Daemon.Control.{human_remaining_ms, require_active, require_created}
use agent_seat.Daemon.Params.{string_param, bounded_param}
use agent_seat.Daemon.Actions.{semantic_scope_complete, all_leased, last_named}
use agent_seat.Daemon.Start.{worker_of, semantic_method}
use agent_seat.Daemon.Typing.{start_operation}
use agent_seat.Daemon.Begun.{start_call, Settled, semantic_method-Settled}
use agent_seat.Worker.Process.{Processes}
use agent_seat.Worker.State.{Libraries, Worker, as_semantic_new}
use agent_seat.Worker.Prepare.{File}
use agent_seat.Worker.Calls.{as_semantic_start}
use agent_seat.Worker.Status.{semantic_worker}

abbrev host : Libraries values
host = record {
  parse = λ bytes. some (
      object (
        (cstr "scope_id", text (cstr "s"))
        ∷ (cstr "bridge_pid", num (pos 200))
        ∷ (cstr "bridge_start", text (cstr "77"))
        ∷ []));
  request_text = λ params method scope session. some (cstr "{}");
  is_finite = λ d. true;
  is_unique_name = λ s. true;
  is_object_path = λ s. true;
  uid = 1000;
}

-- Every process is a child of 100, and was started at 77.
abbrev table : Processes
table pid = some (cstr "1 (b) S 100 2 3 4 5 6 7 8 9 10 11 12 13 14 15 16 17 18 77")

abbrev file : File
file = record { regular = true; owner = 1000; size = 1; bytes = some (1 ∷ []) }

abbrev window : Window
window = record {
  id = 7;
  parent_id = 0;
  pid = 200;
  flags = 1;
  x = pos 0;
  y = pos 0;
  width = pos 1;
  height = pos 1;
  title = [];
  app_id = [];
}

-- A daemon whose only window is leased, and which has no worker yet.
abbrev leased : Daemon keys units values (semantic_worker values)
leased = record {
  session_id = cstr "s";
  input = record fresh { scene = record (blank_scene 3) { windows = window ∷ [] } };
  human_active_until_msec = 0;
  human_held = false;
  gate_allowed = true;
  gate_epoch = 1;
  activity_summary = [];
  activity_detail = [];
  chat = no_chat;
  created = true;
  paused = false;
  quit = false;
  request_count = 0;
  generation = 1;
  control_epoch = 4;
  next_operation = 1;
  operations = replicate 16 no_operation;
  typing = none;
  semantic = none;
  semantic_operation_id = [];
  requests = empty;
  writer = record { id = cstr "w"; lease = cstr "s:l1"; deadline = 500 };
  next_lease = 1;
  scene_version = 3;
  output_width = pos 0;
  output_height = pos 0;
  denied_windows = [];
  pointer_x = 0;
  pointer_y = 0;
  focused_window = cstr "w-7";
  leases = window_name 7 ∷ [];
}

abbrev request : Value
request = object ((cstr "node_ref", text (cstr "n1")) ∷ [])

abbrev focus : CString
focus = cstr "a11y.focus"

abbrev made_worker : Option (Worker values)
made_worker = some (as_semantic_new (cstr "w") (pos 100))

-- The request is accepted, and the operation `s:2` is in the slot 2.
accepted :
    let r =
      semantic_method leased focus request 100
        (start_call host table (some file) focus request 105)
        made_worker in
    (r.1 ≡ none)
    × ((get_or r.0.operations 2 no_operation).id ≡ cstr "s:2")
    × (last_named r.0.operations r.0.semantic_operation_id ≡ some 2)
unfolding semantic_method as_semantic_start human_remaining_ms require_active require_created
    string_param bounded_param semantic_scope_complete all_leased last_named lease_contains
    window_name operation_name digits blank_scene fresh start_operation replicate as_semantic_new
    str_eq
accepted = (refl, refl, refl)

semantic_method-Settled_example :
    Settled host table
      (some file)
      leased
      focus
      request
      100
      105
      (worker_of leased.semantic made_worker)
      (semantic_method leased focus request 100
        (start_call host table (some file) focus request 105)
        made_worker)
semantic_method-Settled_example =
    semantic_method-Settled host table (some file) leased focus request 100 105 made_worker
