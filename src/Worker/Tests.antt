-- ===== src/Worker/Tests.antt =====
-- native/agentseat-semantic.c on a small bridge, and the theorems about it there.
use agent_seat.Prelude.{
  ◌<◌, arith, ℕ, set, replicate, ◌+◌, ◌≤◌, ◌≡◌, ◌⊎◌, refl, arith, true, false, Option, none, some,
  [], ◌∷◌, CString, cstr, str_eq, length, if◌then◌else◌, ◌==◌, ◌&&◌, not,
}
use agent_seat.Prelude.Int.{ℤ, pos}
use agent_seat.Json.{JsonC, JsonType}
use agent_seat.Worker.Process.{
  Processes, process_info, split, after_last, strtol, descends, identity,
}
use agent_seat.Worker.Identity.{itself, above, identity_iff}
use agent_seat.Worker.State.{
  prepared, Libraries, Worker, Pending, as_semantic_new, str, number, fail, in_flight, rejected,
}
use agent_seat.Worker.Prepare.{File, receipt_file, method_of, prepare_arguments}
use agent_seat.Worker.Callbacks.{
  Credentials, bus_of, has_prefix, has_newline, accepts, target_ok, connected, written, read_ready,
  bus_ready, bus_identity_ready, target_pid_ready,
}
use agent_seat.Worker.Calls.{
  can_submit, cleared, as_semantic_start, call_of, still_target, as_semantic_submit,
  as_semantic_cancel, deadline_ms, as_semantic_prepare_poll, semantic_poll_max, expire, capped,
}
use agent_seat.Worker.Steps.{
  calls_back, Answer, connection, wrote, got_bytes, opened, bus_process, target_process, handle,
  starts, submits, comes_back, Run, here, next,
}
use agent_seat.Worker.Phases.{Phase}
use agent_seat.Worker.Runs.{open_actions, sent_at_most_once}
use agent_seat.Worker.Commits.{
  cancelled_for_good, sent_addressed, all_addressed, reached-Phase, ready-submit,
}
use agent_seat.Samples
use agent_seat.Samples.{keys, units}
use agent_seat.Ledger.{empty}
use agent_seat.Input.State.{Window}
use agent_seat.Input.Listeners.{blank_scene}
use agent_seat.Daemon.State.{Daemon, Operation, no_operation}
use agent_seat.Daemon.Names.{window_name, digits}
use agent_seat.Daemon.Messages.{no_chat}
use agent_seat.Daemon.Leases.{lease_contains}
use agent_seat.Daemon.Control.{human_remaining_ms}
use agent_seat.Daemon.Actions.{
  last_named, advance_action, withdrawn, semantic_scope_complete, all_leased, advance_ready,
  refused_authority, commit, advance_semantic, taken_at, taken_over,
}
use agent_seat.Daemon.Commit.{Committed, Advanced, advance_semantic-Advanced}
use agent_seat.Daemon.Sends.{sent_when_allowed}
use agent_seat.Worker.Status.{as_semantic_status, semantic_worker}
use agent_seat.Worker.Deadline.{Within, prepare_poll-Within}

-- Documents as json-c has them, as far as the worker reads them.
mutual
  data Doc : Type 0 where
    words : CString → Doc
    number_of : ℤ → Doc
    object : Fields → Doc

  data Fields : Type 0 where
    end : Fields
    entry : CString → Doc → Fields → Fields

abbrev find : Fields → CString → Option Doc
find end key = none
find (entry k d rest) key = let more = find rest key in if str_eq k key then some d else more

abbrev doc_type : Doc → JsonType
doc_type (words s) = JsonType.string
doc_type (number_of n) = JsonType.int
doc_type (object f) = JsonType.object

abbrev doc_get : Doc → CString → Option Doc
doc_get (object f) key = find f key
doc_get _ key = none

abbrev doc_string : Doc → CString
doc_string (words s) = s
doc_string _ = []

abbrev doc_int : Doc → ℤ
doc_int (number_of n) = n
doc_int _ = pos 0

abbrev docs : JsonC
docs = record {
  Json = Doc;
  type_of = doc_type;
  object_get = doc_get;
  get_string = doc_string;
  get_string_len = λ d. length (doc_string d);
  get_int64 = doc_int;
  get_boolean = λ d. false;
  text_length = λ d. 0;
  equal = λ d e. true;
  equal_refl = λ d. refl;
}

abbrev receipt : Doc
receipt = object (
    entry (cstr "scope_id") (words (cstr "s")) (
      entry (cstr "bridge_pid") (number_of (pos 200))
        (entry (cstr "bridge_start") (words (cstr "77")) end)))

abbrev packet : Doc
packet = object (
    entry (cstr "scope_id") (words (cstr "s")) (
      entry (cstr "bus_address") (words (cstr "unix:x")) (
        entry (cstr "owner") (words (cstr ":1.2")) (
          entry (cstr "path") (words (cstr "/a")) (
            entry (cstr "bus_peer_pid") (number_of (pos 200)) (
              entry (cstr "bus_peer_start") (words (cstr "77")) (
                entry (cstr "bus_pid") (number_of (pos 200)) (
                  entry (cstr "bus_start") (words (cstr "77")) (
                    entry (cstr "pid") (number_of (pos 200)) (
                      entry (cstr "process_start") (words (cstr "77")) (
                        entry (cstr "app_pid") (number_of (pos 200)) (
                          entry (cstr "app_start") (words (cstr "77")) (
                            entry (cstr "action")
                              (object (entry (cstr "kind") (words (cstr "a11y.focus")) end))
                              end)))))))))))))

abbrev host : Libraries docs
host = record {
  parse = λ bytes.
      some (if length bytes == 1 then receipt else object (entry (cstr "result") packet end));
  request_text = λ params method scope session. some (cstr "{}");
  is_finite = λ d. true;
  is_unique_name = λ s. true;
  is_object_path = λ s. true;
  uid = 1000;
}

-- Every process is a child of 100, and was started at 77.
abbrev table : Processes
table pid = some (cstr "1 (b) S 100 2 3 4 5 6 7 8 9 10 11 12 13 14 15 16 17 18 77")

abbrev peer : Credentials
peer = record { pid = pos 200; uid = 1000 }

abbrev fresh : Worker docs
fresh = as_semantic_new (cstr "w") (pos 100)

identity_iff_example : identity table (pos 200) (some (cstr "77")) (pos 100) ≡ true
unfolding process_info after_last split strtol
identity_iff_example =
    (identity_iff table (pos 200) (cstr "77") (pos 100)).1
      (pos 100, refl, (1, omega arith, above {start = cstr "77"} refl (itself refl)))

abbrev file : File
file = record { regular = true; owner = 1000; size = 1; bytes = some (1 ∷ []) }

abbrev started : Worker docs
started = (as_semantic_start host table fresh (cstr "a11y.focus") (object end) (some file) 0).0

-- GIO calls back for the one call that it holds.
abbrev answered : Worker docs → {p : Pending} → Answer p → Worker docs
answered w answer = handle host (record w { pending = [] }) answer

abbrev connected_once : Worker docs
connected_once = answered started (connection (some (some peer)))

abbrev asked : Worker docs
asked = answered connected_once (wrote true)

abbrev read_once : Worker docs
read_once = answered asked (got_bytes (some (82 ∷ 10 ∷ [])))

abbrev on_bus : Worker docs
on_bus = answered read_once (opened table (bus_of (some peer)))

abbrev bus_known : Worker docs
bus_known = answered on_bus (bus_process table (some 200))

abbrev offer : Worker docs
offer = answered bus_known (target_process table table (some 200))

offer_ready : offer.ready ≡ true
unfolding as_semantic_start cleared identity process_info split after_last strtol descends str
    number fail receipt_file handle connected written read_ready bus_ready bus_identity_ready
    target_pid_ready accepts has_prefix has_newline target_ok prepare_arguments method_of
    as_semantic_new str_eq
offer_ready = refl

offer_reached : Run host fresh 1 offer
unfolding as_semantic_start cleared identity process_info split after_last strtol descends str
    number fail receipt_file handle connected written read_ready bus_ready bus_identity_ready
    target_pid_ready accepts has_prefix has_newline target_ok prepare_arguments method_of
    as_semantic_new str_eq
offer_reached =
    next
      (next
        (next
          (next
            (next
              (next (next here (starts table (cstr "a11y.focus") (object end) (some file) 0))
                (comes_back (connection (some (some peer))) (calls_back [] [] refl)))
              (comes_back (wrote true) (calls_back [] [] refl)))
            (comes_back (got_bytes (some (82 ∷ 10 ∷ []))) (calls_back [] [] refl)))
          (comes_back (opened table (bus_of (some peer))) (calls_back [] [] refl)))
        (comes_back (bus_process table (some 200)) (calls_back [] [] refl)))
      (comes_back (target_process table table (some 200)) (calls_back [] [] refl))

abbrev sent_once : Worker docs
sent_once = as_semantic_submit table offer 5

sent_reached : Run host fresh 1 sent_once
sent_reached = next offer_reached (submits table 5)

sent_at_most_once_example : length sent_once.calls + open_actions sent_once ≤ 1
sent_at_most_once_example = sent_at_most_once (cstr "w") (pos 100) 1 sent_once sent_reached

sent_addressed_example : all_addressed host sent_once.calls ≡ true
sent_addressed_example = sent_addressed (cstr "w") (pos 100) 1 sent_once sent_reached

reached-Phase_example : Phase host sent_once
reached-Phase_example = reached-Phase (cstr "w") (pos 100) 1 sent_once sent_reached

ready-submit_example :
    ((still_target table offer ≡ true)
      × (sent_once.calls ≡ call_of offer ∷ offer.calls)
      × (sent_once.sent ≡ true)
      × (sent_once.stage ≡ in_flight))
    ⊎ ((still_target table offer ≡ false)
        × (sent_once.calls ≡ offer.calls)
        × (sent_once.busy ≡ false)
        × (sent_once.stage ≡ rejected))
ready-submit_example = ready-submit (cstr "w") (pos 100) 1 offer table 5 offer_reached offer_ready

-- The daemon cancels the action on offer, and submits it all the same.
abbrev cancelled_offer : Worker docs
cancelled_offer = as_semantic_cancel offer

cancelled_for_good_example : (as_semantic_submit table cancelled_offer 5).calls ≡ offer.calls
cancelled_for_good_example =
    cancelled_for_good (cstr "w") (pos 100) 1 offer (as_semantic_submit table cancelled_offer 5)
      offer_reached (next here (submits table 5))

-- There the action is prepared, so it is the deadline that bounds the poll.
polled_busy :
    (let r = as_semantic_prepare_poll started 0 0 false (pos 9) 2 (pos 9000) in
      r.0.busy && not r.0.sent)
    ≡ true
unfolding as_semantic_start cleared identity process_info split after_last strtol descends str
    number fail receipt_file as_semantic_new str_eq as_semantic_prepare_poll expire capped
polled_busy = refl

prepare_poll-Within_example :
    let r = as_semantic_prepare_poll started 0 0 false (pos 9) 2 (pos 9000) in
    (r.1 ≤ semantic_poll_max)
    × (((r.0.busy && not r.0.sent) ≡ false) ⊎ Within (deadline_ms r.0 0) r.2)
prepare_poll-Within_example = prepare_poll-Within started 0 0 false (pos 9) 2 (pos 9000)

-- A worker with that action on offer, as one record.
abbrev waiting : Worker docs
waiting = record (as_semantic_new (cstr "w") (pos 100)) {
  scope_id = some (cstr "s");
  bridge_pid = pos 200;
  bus = true;
  packet = some packet;
  interface = some (cstr "org.a11y.atspi.Component");
  stage = prepared;
  busy = true;
  ready = true;
  call_timeout = 5000;
}

-- A daemon whose operation `s:1` is that action, and whose question the compositor has granted.
abbrev window : Window
window = record {
  id = 7;
  parent_id = 0;
  pid = 200;
  flags = 1;
  x = pos 0;
  y = pos 0;
  width = pos 1;
  height = pos 1;
  title = [];
  app_id = [];
}

abbrev operation : Operation
operation = record no_operation {
  id = cstr "s:1";
  semantic = true;
  count = 1;
  active = true;
  epoch = 1;
  action_token = 1;
}

abbrev acting_daemon : Daemon keys units docs (semantic_worker docs)
acting_daemon = record {
  session_id = cstr "s";
  input = record agent_seat.Samples.fresh {
    authorization_token = 1;
    authorization_epoch = 1;
    authorization_allowed = true;
    scene = record (blank_scene 3) { windows = window ∷ [] };
  };
  human_active_until_msec = 0;
  human_held = false;
  gate_allowed = true;
  gate_epoch = 1;
  activity_summary = [];
  activity_detail = [];
  chat = no_chat;
  created = true;
  paused = false;
  quit = false;
  request_count = 0;
  generation = 1;
  control_epoch = 1;
  next_operation = 1;
  operations = set (replicate 16 no_operation) 1 operation;
  typing = some 1;
  semantic = some waiting;
  semantic_operation_id = cstr "s:1";
  requests = empty;
  writer = record { id = cstr "w"; lease = cstr "s:l1"; deadline = 500 };
  next_lease = 1;
  scene_version = 3;
  output_width = pos 0;
  output_height = pos 0;
  denied_windows = [];
  pointer_x = 0;
  pointer_y = 0;
  focused_window = cstr "w-7";
  leases = window_name 7 ∷ [];
}

advance_semantic-Advanced_example :
    Advanced acting_daemon waiting 100 100
      (table, 5)
      (advance_semantic acting_daemon 100 100 (table, 5))
advance_semantic-Advanced_example =
    advance_semantic-Advanced acting_daemon waiting 100 100 (table, 5) refl

abbrev committed : Worker docs
committed = as_semantic_submit table waiting 5

commits : (advance_semantic acting_daemon 100 100 (table, 5)).semantic ≡ some committed
unfolding advance_semantic last_named str_eq advance_action withdrawn human_remaining_ms
    semantic_scope_complete all_leased lease_contains advance_ready refused_authority commit
    replicate as_semantic_status taken_over as_semantic_new window_name digits blank_scene
    agent_seat.Samples.fresh
commits = refl

one_more : length waiting.calls < length committed.calls
unfolding as_semantic_submit can_submit still_target identity process_info after_last split strtol
    descends str number str_eq as_semantic_new
one_more = omega arith

sent_when_allowed_example :
    (i : ℕ) × (last_named acting_daemon.operations acting_daemon.semantic_operation_id ≡ some i)
    × Committed acting_daemon (taken_at acting_daemon i waiting) waiting 100 100
sent_when_allowed_example =
    sent_when_allowed acting_daemon waiting committed 100 100 (table, 5) refl commits one_more
