-- ===== src/Worker/Status.antt =====
-- `as_semantic_status` of native/agentseat-semantic.c, and the worker as the daemon calls it.
use agent_seat.Prelude.{ℕ, CString, cstr}
use agent_seat.Json.{JsonC}
use agent_seat.Worker.State.{
  Worker, Stage, idle, preparing, connecting_bus, validating_bus, validating_target, prepared,
  in_flight, finished, rejected, cancelled_stage, outcome_unknown,
}
use agent_seat.Worker.Process.{Processes}
use agent_seat.Worker.Calls.{as_semantic_submit, as_semantic_cancel}
use agent_seat.Daemon.State.{Semantic, SemanticStatus}

-- The strings that `stage` points at.
unfoldable pub stage_text : Stage → CString
stage_text idle = cstr "idle"
stage_text preparing = cstr "preparing"
stage_text connecting_bus = cstr "connecting_bus"
stage_text validating_bus = cstr "validating_bus"
stage_text validating_target = cstr "validating_target"
stage_text prepared = cstr "prepared"
stage_text in_flight = cstr "in_flight"
stage_text finished = cstr "finished"
stage_text rejected = cstr "rejected"
stage_text cancelled_stage = cstr "cancelled"
stage_text outcome_unknown = cstr "outcome_unknown"

-- `as_semantic_status`.
unfoldable pub as_semantic_status : {J : JsonC} → Worker J → SemanticStatus
as_semantic_status w = record {
  busy = w.busy;
  ready = w.ready;
  sent = w.sent;
  replied = w.replied;
  succeeded = w.succeeded;
  cancelled = w.cancelled;
  stage = stage_text w.stage;
  error = w.error;
}

-- The worker behind the interface that the daemon uses.
abbrev pub semantic_worker : JsonC → Semantic
semantic_worker J = record {
  Worker = Worker J;
  status = as_semantic_status;
  cancel = as_semantic_cancel;
  Moment = Processes × ℕ;
  submit = λ w m. as_semantic_submit m.0 w m.1;
}
