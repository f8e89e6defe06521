-- ===== src/Daemon/Actions.antt =====
-- The semantic actions of native/agentseatd.c: `advance_semantic`, which the main loop calls
-- and which alone submits one to the application.
use agent_seat.Prelude.{
  ℕ, suc, ◌%◌, ◌^◌, Bool, true, not, ◌&&◌, ◌||◌, Option, none, some, List, [], ◌∷◌, CString, cstr,
  str_eq, if◌then◌else◌, ltb, leb, ◌==◌, length, get_or, set, take,
}
use agent_seat.Json.{JsonC}
use agent_seat.Input.Platform.{Xkb, Doubles}
use agent_seat.Input.State.{Input, Window}
use agent_seat.Input.Commands.{arm, geometry, check_authority}
use agent_seat.Daemon.State.{Daemon, Semantic, SemanticStatus, Operation, no_operation}
use agent_seat.Daemon.Names.{window_name}
use agent_seat.Daemon.Leases.{lease_contains}
use agent_seat.Daemon.Control.{finish_typing, human_remaining_ms}

-- The loop of `semantic_scope_complete`.
unfoldable pub all_leased : List CString → List Window → Bool
all_leased leases [] = true
all_leased leases (w ∷ ws) = lease_contains leases (window_name w.id) && all_leased leases ws

-- The loop of `advance_semantic`: the last operation with the name.
unfoldable pub last_named : List Operation → CString → Option ℕ
last_named [] id = none
last_named (op ∷ ops) id =
    let rest = last_named ops id in
    elim rest [ some i ↦ some (suc i) | none ↦ if str_eq op.id id then some 0 else none ]

-- The operation takes over the worker's status.
unfoldable pub taken_over : Operation → SemanticStatus → Operation
taken_over op st = record op {
  semantic_sent = st.sent;
  submitted = if st.sent then 1 else 0;
  semantic_replied = st.replied;
  semantic_succeeded = st.succeeded;
  cancel_requested = op.cancel_requested || st.cancelled;
  semantic_stage = take 39 st.stage;
  semantic_error = take 127 st.error;
}

-- The token of a question to the compositor, which is not zero.
abbrev pub authority_token : ℕ → ℕ
authority_token n = if n % 2 ^ 32 == 0 then 1 else n % 2 ^ 32

module _ {X : Xkb} {D : Doubles} where
  -- The compositor, or the human, does not allow it.
  unfoldable pub refused_authority : Input X D → Operation → Bool
  refused_authority input op =
      not input.authorization_allowed
      || not (input.authorization_epoch == op.epoch)
      || not input.gate_allowed
      || input.human_held
      || not (input.control_epoch == op.epoch)

module _ {X : Xkb} {D : Doubles} {J : JsonC} {S : Semantic} where
  -- `semantic_scope_complete`.
  unfoldable pub semantic_scope_complete : Daemon X D J S → Bool
  semantic_scope_complete s =
      let scene = s.input.scene in
      not scene.truncated && not (length scene.windows == 0) && all_leased s.leases scene.windows

  -- The action may be submitted no more: a pause, the human, a new epoch, no writer, or a window that
  -- is not leased. The clock is read for the human and for the writer.
  unfoldable pub withdrawn : Daemon X D J S → Operation → ℕ → ℕ → Bool
  withdrawn s op now later =
      s.paused
      || ltb 0 (human_remaining_ms s now)
      || not (op.epoch == s.control_epoch)
      || (length s.writer.id == 0)
      || leb s.writer.deadline later
      || not (semantic_scope_complete s)

  -- The compositor is asked.
  unfoldable pub ask_authority : Daemon X D J S → ℕ → Operation → Daemon X D J S
  ask_authority s i op =
      let token = authority_token s.next_operation in
      record s {
        operations =
            set s.operations i
              (record op { action_token = token; semantic_stage = cstr "awaiting_compositor" });
        input =
            check_authority (geometry (arm s.input (op.epoch % 2 ^ 32)) op.semantic_geometry) token;
      }

  -- The single commit point.
  unfoldable pub commit : Daemon X D J S → ℕ → Operation → S.Worker → S.Moment → Daemon X D J S
  commit s i op w m =
      let w' = S.submit w m in
      let st = S.status w' in
      record s {
        semantic = some w';
        operations = set s.operations i (record op {
          semantic_sent = st.sent;
          submitted = if st.sent then 1 else 0;
          semantic_stage = take 39 st.stage;
        });
      }

  abbrev stale_error : Daemon X D J S → ℕ → Operation → Daemon X D J S
  stale_error s i op = record s {
    operations = set s.operations i (record op { semantic_error = cstr "STALE_GEOMETRY" });
  }

  -- The part of `advance_semantic` on an action that is ready.
  unfoldable pub advance_ready :
      Daemon X D J S → ℕ → Operation → S.Worker → S.Moment → Daemon X D J S
  advance_ready s i op w m =
      if ltb 0 op.semantic_geometry && not (op.semantic_geometry == s.input.scene.version)
      then finish_typing (stale_error s i op) (cstr "rejected")
      else if op.action_token == 0
      then ask_authority s i op
      else if not (s.input.authorization_token == op.action_token)
      then s
      else if refused_authority s.input op
      then finish_typing s (cstr "cancelled")
      else commit s i op w m

  -- The part of `advance_semantic` on the operation with the worker's status.
  unfoldable pub advance_action :
      Daemon X D J S → ℕ → Operation → S.Worker → ℕ → ℕ → S.Moment → Daemon X D J S
  advance_action s i op w now later m =
      let st = S.status w in
      if not op.active
      then s
      else if not st.busy
      then finish_typing s st.stage
      else if withdrawn s op now later
      then finish_typing s (cstr "cancelled")
      else if not st.ready
      then s
      else advance_ready s i op w m

  abbrev pub taken_at : Daemon X D J S → ℕ → S.Worker → Operation
  taken_at s i w = taken_over (get_or s.operations i no_operation) (S.status w)

  abbrev pub advance_named :
      Daemon X D J S → Option ℕ → S.Worker → ℕ → ℕ → S.Moment → Daemon X D J S
  advance_named s none w now later m = s
  advance_named s (some i) w now later m =
      advance_action (record s { operations = set s.operations i (taken_at s i w) }) i
        (taken_at s i w) w now later m

  abbrev pub advance_worker : Daemon X D J S → Option (S.Worker) → ℕ → ℕ → S.Moment → Daemon X D J S
  advance_worker s none now later m = s
  advance_worker s (some w) now later m =
      if length s.semantic_operation_id == 0
      then s
      else advance_named s (last_named s.operations s.semantic_operation_id) w now later m

  -- `advance_semantic`.
  unfoldable pub advance_semantic : Daemon X D J S → ℕ → ℕ → S.Moment → Daemon X D J S
  advance_semantic s now later m = advance_worker s s.semantic now later m
